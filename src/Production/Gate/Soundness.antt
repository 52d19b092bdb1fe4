-- ===== src/Production/Gate/Soundness.antt =====
-- What the gate guarantees: integrity and authentication answer to nobody, a non-production gate
-- never blocks for missing evidence, and an enforced gate lets an action pass only on evidence or on
-- a waiver that is allowed.
use airi.Prelude.{
  String, ◌≡◌, refl, ◌≢◌, ◌↔◌, ◌⊎◌, true, false, not, ◌&&◌, ◌||◌, Option, none, some, List, [], ◌∷◌,
  arith, contains, contains-sorted_set, contains-append, contains-keep, str_eq, str_eq_iff, sym,
  inl, inr, Bool-cases, ◌∙◌, subst,
}
use airi.Production.Gate.Requirements.{
  GateAction, deploy, reconciliation, rollback, report_only, enforced, blocked,
  gate_action_requirements, gate_action_capabilities, is_protected, effective_waivers,
  EmergencyOverride,
}
use airi.Production.Gate.Decision.{
  GateInput, section_status, sections_of, is_verified, capability, protected_failures, unverified,
  incapable, missing_requirements, remaining_requirements, mode_of, waivers_of,
  evaluate_verification_gate,
}

-- A failed protected requirement blocks the action in every mode and under every override.
pub protected_failures-block :
    (g : GateInput) → protected_failures g ≢ [] → (evaluate_verification_gate g).result ≡ blocked
unfolding evaluate_verification_gate
protected_failures-block g h = ground arith

-- No effective waiver names a protected requirement, or one that the action does not require.
pub effective_waivers-unprotected :
    (override : Option EmergencyOverride) (required : List String) (name : String)
    → contains name (effective_waivers override required) ≡ true
    → (is_protected name ≡ false) × (contains name required ≡ true)
unfolding effective_waivers contains
effective_waivers-unprotected none required name h = cc
effective_waivers-unprotected (some o) required name h =
    ground (arith, contains-keep name (λ n. contains n required && not (is_protected n)) o.waives)

-- the gate in the code's own terms
pub passes-computed :
    (g : GateInput)
    → ((evaluate_verification_gate g).result ≢ blocked) ↔ (
        (protected_failures g ≡ []) × ((mode_of g ≡ report_only) ⊎ (remaining_requirements g ≡ [])))
unfolding evaluate_verification_gate
passes-computed g = ((λ h. ground arith), (λ h. ground arith))

waivers-none :
    (g : GateInput) (name : String) → g.override ≡ none → contains name (waivers_of g) ≡ false
unfolding effective_waivers contains
waivers-none g name e = rw e refl

waivers-some :
    (o : EmergencyOverride) (required : List String) (name : String)
    → contains name (effective_waivers (some o) required) ≡ true
    → (contains name o.waives ≡ true) × (is_protected name ≡ false)
unfolding effective_waivers
waivers-some o required name h =
    let kept = contains-keep name (λ n. contains n required && not (is_protected n)) o.waives in
    ground arith

Option-cases : {A : Type 0} (o : Option A) → (o ≡ none) ⊎ ((a : A) × (o ≡ some a))
Option-cases none = inl refl
Option-cases (some a) = inr (a, refl)

-- A name is missing when it is a required section without verified evidence, or a required
-- capability that the adapter does not declare.
pub contains-missing_requirements :
    (g : GateInput) (name : String)
    → contains name (missing_requirements g) ≡ (
        contains name (gate_action_requirements g.action) && unverified g name
        || contains name (gate_action_capabilities g.action) && incapable g name)
unfolding missing_requirements
contains-missing_requirements g name = simp (contains-sorted_set, contains-append, contains-keep)

contains-nil : (name : String) {xs : List String} → xs ≡ [] → contains name xs ≡ false
unfolding contains
contains-nil name e = rw e

remaining-none :
    (g : GateInput) (name : String)
    → remaining_requirements g ≡ []
    → (contains name (missing_requirements g) && not (contains name (waivers_of g))) ≡ false
remaining-none g name h =
    sym (contains-keep name (λ n. not (contains n (waivers_of g))) (missing_requirements g))
    ∙ contains-nil name h

-- The override lists this name, and the name is not a protected requirement.
abbrev pub Waived : GateInput → String → Type 0
Waived g name =
    (o : EmergencyOverride) × (g.override ≡ some o)
    × (contains name o.waives ≡ true)
    × (is_protected name ≡ false)

effective_waivers-Waived :
    (g : GateInput) (name : String) → contains name (waivers_of g) ≡ true → Waived g name
effective_waivers-Waived g name h = elim (Option-cases g.override) [
  | inl absent ↦ let none_waived = waivers-none g name absent in absurd (ground arith)
  | inr (o, is) ↦
      let kept : contains name (effective_waivers (some o) (gate_action_requirements g.action))
          ≡ true =
        subst (λ x. contains name (effective_waivers x (gate_action_requirements g.action)) ≡ true)
          is h in
      let (listed, unprotected) = waivers-some o (gate_action_requirements g.action) name kept in
      (o, is, listed, unprotected)
]

-- Where nothing is left, a required section is verified or waived.
pub section-shown :
    (g : GateInput) (name : String)
    → remaining_requirements g ≡ []
    → contains name (gate_action_requirements g.action) ≡ true
    → (is_verified (section_status name (sections_of g.report)) ≡ true) ⊎ Waived g name
section-shown g name nothing required =
    elim (Bool-cases (is_verified (section_status name (sections_of g.report)))) [
      | inl shown ↦ inl shown
      | inr unshown ↦ inr (
          effective_waivers-Waived g name
            (ground (arith, remaining-none g name, contains-missing_requirements g name)))
    ]

-- When an enforced gate lets an action pass, every section that the action requires is verified in
-- the report, or the override lists it and it is not a protected requirement.
pub enforced_sections :
    (g : GateInput) (name : String)
    → mode_of g ≡ enforced
    → (evaluate_verification_gate g).result ≢ blocked
    → contains name (gate_action_requirements g.action) ≡ true
    → (is_verified (section_status name (sections_of g.report)) ≡ true) ⊎ Waived g name
enforced_sections g name strict passes required =
    section-shown g name (ground (arith, (passes-computed g).0 passes)) required

contains-single : (s name : String) → contains name (s ∷ []) ≡ true → str_eq s name ≡ true
unfolding contains
contains-single s name h = ground arith

capability-unwaivable :
    (a : GateAction) (name : String)
    → contains name (gate_action_capabilities a) ≡ true
    → contains name (gate_action_requirements a) ≡ false
unfolding contains str_eq
capability-unwaivable deploy name h = cc
capability-unwaivable reconciliation name h = cc
capability-unwaivable rollback name h =
    subst (λ n. contains n (gate_action_requirements rollback) ≡ false)
      ((str_eq_iff "rollback_capability" name).0 (contains-single _ _ h)) refl

-- Where nothing is left, a needed capability is declared.
pub capability-shown :
    (g : GateInput) (name : String)
    → remaining_requirements g ≡ []
    → contains name (gate_action_capabilities g.action) ≡ true
    → capability name g.capabilities ≡ true
capability-shown g name nothing needed = ground (
  arith,
  remaining-none g name,
  contains-missing_requirements g name,
  capability-unwaivable g.action name needed,
  effective_waivers-unprotected g.override (gate_action_requirements g.action) name,
)

-- No override stands in for a capability: an enforced gate lets an action pass only if the adapter
-- declares every capability that the action needs.
pub enforced_capabilities :
    (g : GateInput) (name : String)
    → mode_of g ≡ enforced
    → (evaluate_verification_gate g).result ≢ blocked
    → contains name (gate_action_capabilities g.action) ≡ true
    → capability name g.capabilities ≡ true
enforced_capabilities g name strict passes needed =
    capability-shown g name (ground (arith, (passes-computed g).0 passes)) needed
