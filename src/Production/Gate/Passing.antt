-- ===== src/Production/Gate/Passing.antt =====
-- When the gate lets an action pass, said without the gate's own lists
-- (src/airi/production/gate.py: evaluate_verification_gate).
use airi.Prelude.{
  String, ◌≡◌, refl, ◌≢◌, ◌↔◌, ◌⊎◌, inl, inr, true, false, not, ◌&&◌, ◌||◌, Option, none, some,
  List, [], ◌∷◌, ◌++◌, arith, contains, contains-keep, str_eq, str_eq_iff, str_eq_self, sym, ◌∙◌,
  subst, Bool, Bool-cases, truthy,
}
use airi.Production.Gate.Requirements.{
  VerificationReport, EnvironmentKind, report_only, blocked, gate_action_requirements,
  gate_action_capabilities, is_protected, effective_waivers, resolve_enforcement_mode,
}
use airi.Production.Gate.Decision.{
  GateInput, section_status, sections_of, is_verified, capability, protected_failures, when,
  foreign_report, missing_requirements, remaining_requirements, mode_of, waivers_of,
  evaluate_verification_gate,
}
use airi.Production.Gate.Soundness.{
  Waived, passes-computed, section-shown, capability-shown, contains-missing_requirements,
}

-- Every member of a list has the property.
abbrev pub Each : (String → Type 0) → List String → Type 0
Each P [] = Unit {0}
Each P (x ∷ xs) = P x × Each P xs

Each-of :
    (P : String → Type 0) (xs : List String)
    → ((x : String) → contains x xs ≡ true → P x)
    → Each P xs
unfolding contains
Each-of P [] f = tt
Each-of P (x ∷ xs) f =
    let same = str_eq_self x in (f x (ground arith), Each-of P xs (λ y h. f y (ground arith)))

Each-at :
    (P : String → Type 0) (xs : List String) (y : String) → Each P xs → contains y xs ≡ true → P y
unfolding contains
Each-at P [] y e h = absurd cc
Each-at P (x ∷ xs) y (p, e) h = elim (Bool-cases (str_eq x y)) [
  | inl same ↦ subst P ((str_eq_iff x y).0 same) p
  | inr other ↦ Each-at P xs y e (ground arith)
]

none-nil : (xs : List String) → ((x : String) → contains x xs ≡ false) → xs ≡ []
unfolding contains
none-nil [] h = refl
none-nil (x ∷ xs) h = let same = str_eq_self x in let no = h x in absurd (ground arith)

-- The report belongs to the deployment, or names no metric version.
abbrev pub IsOwn : Option VerificationReport → String → Type 0
IsOwn none deployment_id = Unit {0}
IsOwn (some r) deployment_id = (r.metric_version_id ≡ "") ⊎ (r.deployment_id ≡ deployment_id)

-- The actor is authenticated, and trusted where a trust boundary is configured; the integrity checks
-- passed; the report is not one of another deployment.
abbrev pub IsAuthorized : GateInput → Type 0
IsAuthorized g =
    (g.actor_authenticated ≡ true)
    × ((g.trust_boundary_configured ≡ false) ⊎ (g.actor_trusted ≡ true))
    × (g.integrity_failures ≡ [])
    × IsOwn g.report g.deployment_id

-- The gate is configured only to report, or it is not configured to enforce and the environment is
-- synthetic or for tests.
abbrev pub IsLenient : GateInput → Type 0
IsLenient g =
    (g.configured_mode ≡ "report_only")
    ⊎ ((g.configured_mode ≢ "enforced")
        × ((g.profile.synthetic_profile ≡ true)
            ⊎ (g.profile.environment_kind ≡ EnvironmentKind.test)))

when-nil : (b : Bool) (name : String) → when b name ≡ [] → b ≡ false
when-nil true name h = cc
when-nil false name h = refl

append-nil : (xs ys : List String) → xs ++ ys ≡ [] → (xs ≡ []) × (ys ≡ [])
append-nil [] ys h = (refl, h)
append-nil (x ∷ xs) ys h = cc

foreign-IsOwn :
    (r : Option VerificationReport) (id : String) → (foreign_report r id ≡ false) ↔ IsOwn r id
unfolding truthy
foreign-IsOwn none id = ((λ h. tt), (λ h. refl))
foreign-IsOwn (some r) id = (
  (λ h. ground (arith, str_eq_iff r.deployment_id id, str_eq_iff r.metric_version_id "")),
  (λ h. ground (arith, str_eq_iff r.deployment_id id, str_eq_iff r.metric_version_id "")),
)

protected_failures-IsAuthorized : (g : GateInput) → (protected_failures g ≡ []) ↔ IsAuthorized g
unfolding protected_failures
protected_failures-IsAuthorized g =
    let untrusted =
      not g.actor_authenticated || g.trust_boundary_configured && not g.actor_trusted in
    let foreign = foreign_report g.report g.deployment_id in
    let own = foreign-IsOwn g.report g.deployment_id in
    (
      (λ h.
          let (actor, rest) =
            append-nil (when untrusted "actor_authentication")
              (g.integrity_failures ++ when foreign "metric_version_identity") h in
          let (integrity, report) =
            append-nil g.integrity_failures (when foreign "metric_version_identity") rest in
          let trusted = when-nil untrusted "actor_authentication" actor in
          (
            ground arith,
            ground arith,
            integrity,
            own.0 (when-nil foreign "metric_version_identity" report),
          )),
      (λ (authenticated, trusted, integrity, report).
          let actor : untrusted ≡ false = ground arith in
          let domestic : foreign ≡ false = own.1 report in rw (actor, integrity, domestic) refl),
    )

mode_of-IsLenient : (g : GateInput) → (mode_of g ≡ report_only) ↔ IsLenient g
unfolding resolve_enforcement_mode
mode_of-IsLenient g =
    let reports = str_eq_iff g.configured_mode "report_only" in
    let enforces = str_eq_iff g.configured_mode "enforced" in
    ((λ h. ground arith), (λ h. ground arith))

-- What the requirements of an enforced gate come to.
abbrev pub IsEvidenced : GateInput → Type 0
IsEvidenced g =
    Each (λ name. (is_verified (section_status name (sections_of g.report)) ≡ true) ⊎ Waived g name)
      (gate_action_requirements g.action)
    × Each (λ name. capability name g.capabilities ≡ true) (gate_action_capabilities g.action)

Waived-effective :
    (g : GateInput) (name : String)
    → Waived g name
    → contains name (gate_action_requirements g.action) ≡ true
    → contains name (waivers_of g) ≡ true
unfolding effective_waivers
Waived-effective g name (o, is, listed, unprotected) required =
    let required_names = gate_action_requirements g.action in
    let kept =
      contains-keep name (λ n. contains n required_names && not (is_protected n)) o.waives in
    let there : contains name (effective_waivers (some o) required_names) ≡ true = ground arith in
    subst (λ x. contains name (effective_waivers x required_names) ≡ true) (sym is) there

-- A name that is evidenced is not left over.
evidenced-not_left :
    (g : GateInput) (name : String)
    → IsEvidenced g
    → (contains name (missing_requirements g) && not (contains name (waivers_of g))) ≡ false
evidenced-not_left g name (sections, capabilities) =
    let missing = contains-missing_requirements g name in
    let declared = Each-at _ (gate_action_capabilities g.action) name capabilities in
    let shown = Each-at _ (gate_action_requirements g.action) name sections in
    elim (Bool-cases (contains name (gate_action_requirements g.action))) [
      | inl required ↦ elim (shown required) [
        | inl verified ↦ ground arith
        | inr waived ↦ let there = Waived-effective g name waived required in ground arith
      ]
      | inr free ↦ ground arith
    ]

remaining-IsEvidenced : (g : GateInput) → (remaining_requirements g ≡ []) ↔ IsEvidenced g
remaining-IsEvidenced g = (
  (λ h. (
    Each-of _ (gate_action_requirements g.action)
        (λ name required. section-shown g name h required),
    Each-of _ (gate_action_capabilities g.action) (λ name needed. capability-shown g name h needed),
  )),
  (λ e. none-nil (remaining_requirements g) (λ name.
      contains-keep name (λ n. not (contains n (waivers_of g))) (missing_requirements g)
      ∙ evidenced-not_left g name e)),
)

-- The gate lets an action pass exactly when two things hold. The actor is authenticated, and trusted
-- where a trust boundary is configured, the integrity checks passed, and the report is not one of
-- another deployment. And the gate is configured only to report, or is not configured to enforce in
-- a synthetic or test environment, or every section that the action requires is verified or waived
-- by an override that lists it and every capability that the action needs is declared.
pub evaluate_verification_gate-passes :
    (g : GateInput)
    → ((evaluate_verification_gate g).result ≢ blocked)
      ↔ (IsAuthorized g × (IsLenient g ⊎ IsEvidenced g))
evaluate_verification_gate-passes g =
    let (to, from) = passes-computed g in
    let (authorized, unfailing) = protected_failures-IsAuthorized g in
    let (lenient, reporting) = mode_of-IsLenient g in
    let (evidenced, nothing) = remaining-IsEvidenced g in
    (
      (λ h.
          let (p, q) = to h in
          (authorized p, elim q [ inl m ↦ inl (lenient m) | inr r ↦ inr (evidenced r) ])),
      (λ (a, b).
          from (unfailing a, elim b [ inl m ↦ inl (reporting m) | inr r ↦ inr (nothing r) ])),
    )
