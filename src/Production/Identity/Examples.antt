-- ===== src/Production/Identity/Examples.antt =====
-- A request through a gateway (src/airi/production/identity.py).
use airi.Prelude.{
  String, ◌≡◌, refl, Option, none, some, [], ◌∷◌, List, Result, ok, err, str_eq, truthy,
}
use airi.Production.Identity.{
  Role, AuthSource, IdentityError, identity_not_trusted, request_production_deployment,
  ActorIdentity, authorize, has_role, any_role, holds, action_roles, trusted_gateway,
  HeaderProvider, header_of, decode_identity, from_gateway, behind_boundary, identify,
}
use airi.Production.Identity.Boundary.{Proven, identify-IsProven}

abbrev actor : ActorIdentity
actor = record {
  actor_id = "dee";
  display_name = "Dee";
  auth_source = AuthSource.trusted_header;
  roles = Role.production_deployer ∷ [];
  issuer = none;
}

abbrev decode : String → Option ActorIdentity
decode raw = some actor

abbrev verified : String → String → String → Result IdentityError ActorIdentity
verified raw secret issuer = err identity_not_trusted

abbrev gateway : HeaderProvider
gateway = record {
  header = "x-identity";
  trust_boundary = trusted_gateway;
  gateway_header = "x-gateway";
  gateway_secret = "s3";
  jwt_secret = "";
  token_issuer = "";
}

abbrev headers : List (String × String)
headers = ("x-gateway", "s3") ∷ ("x-identity", "dee") ∷ []

identify-run : identify decode verified gateway headers ≡ ok actor
unfolding identify behind_boundary from_gateway decode_identity header_of str_eq truthy
identify-run = refl

actor-acts : authorize actor request_production_deployment ≡ ok tt
unfolding authorize holds has_role any_role action_roles
actor-acts = refl

identify-IsProven_example :
    (raw : String) × (header_of "x-identity" headers ≡ some raw)
    × Proven decode verified gateway headers raw actor
identify-IsProven_example =
    identify-IsProven decode verified gateway headers request_production_deployment identify-run
      actor-acts
