-- ===== src/Production/Identity/Boundary.antt =====
-- What an identity that acts has proved (src/airi/production/identity.py).
use airi.Prelude.{
  not-false, String, ◌≡◌, refl, sym, ap, subst, ◌⊎◌, inl, inr, true, not, Option, none, some, List,
  ok, err, arith, str_eq, str_eq_iff, truthy, Result, Ensures, Ensures-raise_if, Ensures-at,
  Ensures-weaken, Result-cases, Option-cases, Bool-cases,
}
use airi.Production.Identity.{
  IdentityError, identity_not_trusted, Action, ActorIdentity, authorize, TrustBoundary, unbounded,
  trusted_gateway, signed_jwt, anonymous_actor, HeaderProvider, header_of, configured,
  decode_identity, or_empty, from_gateway, from_token, behind_boundary, identify,
}

text_of : (o : Option String) → truthy o ≡ true → (raw : String) × (o ≡ some raw)
unfolding truthy
text_of none h = absurd cc
text_of (some raw) h = (raw, refl)

not_set : configured "" ≡ true → ⊥
unfolding truthy str_eq
not_set h = cc

sent-secret :
    (o : Option String) (secret : String)
    → configured secret ≡ true
    → str_eq (or_empty o) secret ≡ true
    → o ≡ some secret
unfolding truthy
sent-secret none secret set same =
    let is : "" ≡ secret = (str_eq_iff "" secret).0 same in
    absurd (not_set (subst (λ x. configured x ≡ true) (sym is) set))
sent-secret (some s) secret set same = ap some ((str_eq_iff s secret).0 same)

module _ (decode : String → Option ActorIdentity)
    (verified : String → String → String → Result IdentityError ActorIdentity) where
  -- the gateway's own secret came with the request, and the header holds the identity
  abbrev pub ByGateway : HeaderProvider → List (String × String) → String → ActorIdentity → Type 0
  ByGateway p headers raw a =
      (p.trust_boundary ≡ trusted_gateway)
      × (configured p.gateway_secret ≡ true)
      × (header_of p.gateway_header headers ≡ some p.gateway_secret)
      × (decode raw ≡ some a)

  -- the header holds a token that was verified under the configured secret
  abbrev pub ByToken : HeaderProvider → String → ActorIdentity → Type 0
  ByToken p raw a =
      (p.trust_boundary ≡ signed_jwt)
      × (configured p.jwt_secret ≡ true)
      × (verified raw p.jwt_secret p.token_issuer ≡ ok a)

  abbrev pub Proven : HeaderProvider → List (String × String) → String → ActorIdentity → Type 0
  Proven p headers raw a = ByGateway p headers raw a ⊎ ByToken p raw a

  gateway-proves :
      (p : HeaderProvider) (headers : List (String × String)) (raw : String)
      → p.trust_boundary ≡ trusted_gateway
      → Ensures (ByGateway p headers raw) (from_gateway decode verified p headers raw)
  unfolding from_gateway decode_identity
  gateway-proves p headers raw at =
      let Q = ByGateway p headers raw in
      Ensures-raise_if Q (not (configured p.gateway_secret)) identity_not_trusted _ λ set.
        Ensures-raise_if Q
          (not (str_eq (or_empty (header_of p.gateway_header headers)) p.gateway_secret))
          identity_not_trusted _
          λ same. elim (Option-cases (decode raw)) [
            | inl e ↦ rw (e, Ensures) tt
            | inr (a, e) ↦
                rw (e, Ensures)
                  (
                    at,
                    not-false _ set,
                    sent-secret (header_of p.gateway_header headers) p.gateway_secret
                        (not-false _ set) (not-false _ same),
                    e,
                  )
          ]

  token-proves :
      (p : HeaderProvider) (raw : String)
      → p.trust_boundary ≡ signed_jwt
      → Ensures (ByToken p raw) (from_token decode verified p raw)
  unfolding from_token
  token-proves p raw at =
      let Q = ByToken p raw in
      Ensures-raise_if Q (not (configured p.jwt_secret)) identity_not_trusted _ λ set.
        elim (Result-cases (verified raw p.jwt_secret p.token_issuer)) [
          | inl (a, e) ↦ rw e (at, not-false _ set, e)
          | inr (x, e) ↦ rw e tt
        ]

  boundary-proves :
      (p : HeaderProvider) (headers : List (String × String)) (raw : String) (b : TrustBoundary)
      → p.trust_boundary ≡ b
      → Ensures (Proven p headers raw) (behind_boundary decode verified p headers raw)
  unfolding behind_boundary
  boundary-proves p headers raw trusted_gateway at =
      let is : behind_boundary decode verified p headers raw
          ≡ from_gateway decode verified p headers raw =
        ground arith in
      subst (Ensures (Proven p headers raw)) (sym is) (
        Ensures-weaken (ByGateway p headers raw) (Proven p headers raw)
          (from_gateway decode verified p headers raw) (gateway-proves p headers raw at)
          (λ a h. inl h))
  boundary-proves p headers raw signed_jwt at =
      let is : behind_boundary decode verified p headers raw ≡ from_token decode verified p raw =
        ground arith in
      subst (Ensures (Proven p headers raw)) (sym is) (
        Ensures-weaken (ByToken p raw) (Proven p headers raw) (from_token decode verified p raw)
          (token-proves p raw at) (λ a h. inr h))
  boundary-proves p headers raw unbounded at =
      let is : behind_boundary decode verified p headers raw ≡ err identity_not_trusted =
        ground arith in
      subst (Ensures (Proven p headers raw)) (sym is) tt

  nobody-acts : (action : Action) → authorize anonymous_actor action ≡ ok tt → ⊥
  unfolding authorize
  nobody-acts action h = cc

  -- Whoever may act has proved who they are: an identity that identify returns and that authorize lets pass
  -- for some action came in the identity header, either behind a gateway whose configured,
  -- nonempty secret the same request carries, or as a token verified under a configured secret.
  pub identify-IsProven :
      (p : HeaderProvider) (headers : List (String × String)) (action : Action) {a : ActorIdentity}
      → identify decode verified p headers ≡ ok a
      → authorize a action ≡ ok tt
      → (raw : String) × (header_of p.header headers ≡ some raw) × Proven p headers raw a
  unfolding identify
  identify-IsProven p headers action {a} found acts =
      elim (Bool-cases (truthy (header_of p.header headers))) [
        | inr e ↦
            let is : anonymous_actor ≡ a = ground arith in
            absurd (nobody-acts action (subst (λ x. authorize x action ≡ ok tt) (sym is) acts))
        | inl e ↦
            let (raw, here) = text_of (header_of p.header headers) e in
            let at : behind_boundary decode verified p headers raw ≡ ok a = ground arith in
            (
              raw,
              here,
              Ensures-at (Proven p headers raw) (behind_boundary decode verified p headers raw)
                  (boundary-proves p headers raw p.trust_boundary refl) at,
            )
      ]
