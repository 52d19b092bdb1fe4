-- ===== src/Production/Identity.antt =====
-- The identity boundary of production (src/airi/production/identity.py). The names of actions are
-- literals at every call, so an action is one of the keys of ACTION_ROLES. The verification of a
-- signed token and the decoding of a gateway's payload are parameters.
pub mod Boundary
mod Examples
use airi.Prelude.{
  ℕ, String, Bool, true, false, not, ◌&&◌, ◌||◌, Option, none, some, List, [], ◌∷◌, if◌then◌else◌,
  ◌==◌, ltb, str_eq, truthy, Result, ok, err, ◌>>=◌, ◌>>◌, raise_if,
}

-- `Role`
pub data Role : Type 0 where
  metric_reviewer release_reviewer production_deployer rollback_approver admin : Role

-- `AuthSource`
pub data AuthSource : Type 0 where
  trusted_header external_jwt mock anonymous : AuthSource

-- the keys of `ACTION_ROLES`
pub data Action : Type 0 where
  register_production_environment verify_production_environment register_trusted_telemetry_source
        review_production_deployment request_production_deployment approve_production_rollback
        plan_production_reconciliation execute_production_reconciliation align_runtime_to_registry
        align_registry_to_runtime keep_mismatch_for_investigation publish_monitoring_snapshot
        record_feedback decide_feedback_research :
      Action

-- `ActorIdentity`
pub record ActorIdentity : Type 0 where
  pub actor_id : String
  pub display_name : String
  pub auth_source : AuthSource
  pub roles : List Role
  pub issuer : Option String

pub data IdentityError : Type 0 where
  actor_identity_required identity_not_trusted actor_not_authorized : IdentityError

abbrev role_tag : Role → ℕ
role_tag metric_reviewer = 0
role_tag release_reviewer = 1
role_tag production_deployer = 2
role_tag rollback_approver = 3
role_tag admin = 4

-- `role in roles`
unfoldable pub has_role : Role → List Role → Bool
has_role r [] = false
has_role r (x ∷ xs) = role_tag x == role_tag r || has_role r xs

abbrev everyone : List Role
everyone = production_deployer ∷ release_reviewer ∷ metric_reviewer ∷ rollback_approver ∷ admin ∷ []

abbrev deployers : List Role
deployers = production_deployer ∷ admin ∷ []

-- the place of a role's text in the order of texts
abbrev text_rank : Role → ℕ
text_rank admin = 0
text_rank metric_reviewer = 1
text_rank production_deployer = 2
text_rank release_reviewer = 3
text_rank rollback_approver = 4

unfoldable pub insert_role : Role → List Role → List Role
insert_role r [] = r ∷ []
insert_role r (x ∷ xs) =
    let rest = insert_role r xs in if ltb (text_rank x) (text_rank r) then x ∷ rest else r ∷ x ∷ xs

-- `sorted(identity.roles)`
unfoldable pub sorted_roles : List Role → List Role
unfolding insert_role
sorted_roles [] = []
sorted_roles (r ∷ rs) = insert_role r (sorted_roles rs)

-- `ACTION_ROLES`
unfoldable pub action_roles : Action → List Role
action_roles register_production_environment = admin ∷ []
action_roles verify_production_environment = admin ∷ []
action_roles register_trusted_telemetry_source = admin ∷ []
action_roles review_production_deployment = deployers
action_roles request_production_deployment = deployers
action_roles approve_production_rollback = rollback_approver ∷ admin ∷ []
action_roles plan_production_reconciliation = deployers
action_roles execute_production_reconciliation = deployers
action_roles align_runtime_to_registry = deployers
action_roles align_registry_to_runtime = deployers
action_roles keep_mismatch_for_investigation =
    production_deployer ∷ rollback_approver ∷ metric_reviewer ∷ release_reviewer ∷ admin ∷ []
action_roles publish_monitoring_snapshot = everyone
action_roles record_feedback = everyone
action_roles decide_feedback_research = metric_reviewer ∷ admin ∷ []

-- `ActorIdentity.authenticated`
abbrev pub authenticated : ActorIdentity → Bool
authenticated identity = elim identity.auth_source [ anonymous ↦ false | _ ↦ true ]

-- `ActorIdentity.trusted`
abbrev pub trusted : ActorIdentity → Bool
trusted identity = elim identity.auth_source [
  | trusted_header ↦ true
  | external_jwt ↦ true
  | _ ↦ false
]

unfoldable pub any_role : List Role → List Role → Bool
unfolding has_role
any_role [] held = false
any_role (r ∷ rs) held = has_role r held || any_role rs held

-- `ActorIdentity.holds`
unfoldable pub holds : ActorIdentity → List Role → Bool
unfolding has_role any_role
holds identity roles = has_role admin identity.roles || any_role roles identity.roles

-- `authorize`
unfoldable pub authorize : ActorIdentity → Action → Result IdentityError (Unit {0})
unfolding holds action_roles
authorize identity action = do
  raise_if (not (authenticated identity)) actor_identity_required
  raise_if (not (holds identity (action_roles action))) actor_not_authorized

-- `require_authenticated`
unfoldable pub require_authenticated : ActorIdentity → Result IdentityError (Unit {0})
require_authenticated identity = raise_if (not (authenticated identity)) actor_identity_required

-- `require_trusted`
unfoldable pub require_trusted : ActorIdentity → Result IdentityError (Unit {0})
unfolding require_authenticated
require_trusted identity = do
  require_authenticated identity
  raise_if (not (trusted identity)) identity_not_trusted

-- `TrustBoundary`
pub data TrustBoundary : Type 0 where
  unbounded trusted_gateway signed_jwt : TrustBoundary

-- `ANONYMOUS`
abbrev pub anonymous_actor : ActorIdentity
anonymous_actor = record {
  actor_id = "anonymous";
  display_name = "Anonymous";
  auth_source = anonymous;
  roles = [];
  issuer = none;
}

-- the configuration of `TrustedHeaderIdentityProvider`
pub record HeaderProvider : Type 0 where
  pub header : String
  pub trust_boundary : TrustBoundary
  pub gateway_header : String
  pub gateway_secret : String
  pub jwt_secret : String
  pub token_issuer : String

-- `request.headers.get(name)`
unfoldable pub header_of : String → List (String × String) → Option String
header_of name [] = none
header_of name ((k, v) ∷ rest) = if str_eq k name then some v else header_of name rest

abbrev pub or_empty : Option String → String
or_empty none = ""
or_empty (some s) = s

abbrev pub configured : String → Bool
configured secret = truthy (some secret)

-- `decode` is `ActorIdentity.model_validate_json`, `verified` is `_from_token` after its secret was
-- found: the token, the secret and the issuer give an identity or an error.
module _ (decode : String → Option ActorIdentity)
    (verified : String → String → String → Result IdentityError ActorIdentity) where
  -- `_decode_identity`
  unfoldable pub decode_identity : String → Result IdentityError ActorIdentity
  decode_identity raw = elim (decode raw) [ none ↦ err identity_not_trusted | some a ↦ ok a ]

  -- `_from_gateway`
  unfoldable pub from_gateway :
      HeaderProvider → List (String × String) → String → Result IdentityError ActorIdentity
  unfolding decode_identity header_of
  from_gateway p headers raw = do
    raise_if (not (configured p.gateway_secret)) identity_not_trusted
    raise_if (not (str_eq (or_empty (header_of p.gateway_header headers)) p.gateway_secret))
        identity_not_trusted
    decode_identity raw

  -- `_from_token`
  unfoldable pub from_token : HeaderProvider → String → Result IdentityError ActorIdentity
  from_token p raw = do
    raise_if (not (configured p.jwt_secret)) identity_not_trusted
    verified raw p.jwt_secret p.token_issuer

  unfoldable pub behind_boundary :
      HeaderProvider → List (String × String) → String → Result IdentityError ActorIdentity
  unfolding from_gateway from_token
  behind_boundary p headers raw = elim p.trust_boundary [
    | trusted_gateway ↦ from_gateway p headers raw
    | signed_jwt ↦ from_token p raw
    | unbounded ↦ err identity_not_trusted
  ]

  -- `TrustedHeaderIdentityProvider.identify`
  unfoldable pub identify :
      HeaderProvider → List (String × String) → Result IdentityError ActorIdentity
  unfolding behind_boundary header_of
  identify p headers =
      if truthy (header_of p.header headers)
      then behind_boundary p headers (or_empty (header_of p.header headers))
      else ok anonymous_actor
