-- ===== src/Production/Deployments/Governance/Checks.antt =====
-- What a preflight without a failed check establishes (src/airi/production/service.py,
-- DeploymentService.preflight).
use airi.Prelude.{
  Ensures, Ensures-bind, Ensures-at, String, ◌≡◌, refl, subst, false, Option, none, List, [], ◌∷◌,
  ◌++◌, arith, ok,
}
use airi.MetricIr.Models.{is_empty}
use airi.Registry.Session.{release, validation_report, version_by_id}
use airi.Production.Deployments.Models.{
  Fingerprint, PreflightCheck, ProductionEnvironmentProfile, ProductionDeployment,
}
use airi.Production.Deployments.Store.{ProductionStore, from_registry}
use airi.Production.Deployments.Environments.{latest_fingerprint}
use airi.Production.Deployments.Packaging.{Digests, package_failures}
use airi.Production.Deployments.Packaging.Soundness.{package_failures-unobserved}
use airi.Production.Deployments.Creation.{AdapterFacts}
use airi.Registry.Models.{MetricVersion, MetricRelease, ReleaseValidationReport}
use airi.Production.Deployments.Preflight.{check, checks_of, any_failed, gate_checks}

any_failed-cons :
    (c : PreflightCheck) (cs : List PreflightCheck)
    → any_failed (c ∷ cs) ≡ false
    → any_failed cs ≡ false
unfolding any_failed
any_failed-cons c cs h = ground arith

pub any_failed-append :
    (xs ys : List PreflightCheck) → any_failed (xs ++ ys) ≡ false → any_failed xs ≡ false
unfolding any_failed
any_failed-append [] ys h = refl
any_failed-append (x ∷ xs) ys h = ground (arith, any_failed-append xs ys)

integrity-passed :
    (failures : List String) (rest : List PreflightCheck)
    → any_failed (check "package_integrity" (is_empty failures) false ∷ rest) ≡ false
    → failures ≡ []
unfolding any_failed
integrity-passed [] rest h = refl
integrity-passed (f ∷ fs) rest h = cc

-- A list of gates without a failure holds a package without one.
checks_of-integrity :
    (adapter : AdapterFacts) (d : ProductionDeployment) (profile : ProductionEnvironmentProfile)
    (r : MetricRelease) (report : ReleaseValidationReport) (failures : List String)
    (version : MetricVersion) (fingerprint : Option Fingerprint)
    → any_failed (checks_of adapter d profile r report failures version fingerprint) ≡ false
    → failures ≡ []
unfolding checks_of
checks_of-integrity adapter d profile r report failures version fingerprint h =
    let h₁ = any_failed-cons _ _ h in
    let h₂ = any_failed-cons _ _ h₁ in
    let h₃ = any_failed-cons _ _ h₂ in
    let h₄ = any_failed-cons _ _ h₃ in
    let h₅ = any_failed-cons _ _ h₄ in
    let h₆ = any_failed-cons _ _ h₅ in integrity-passed failures _ h₆

module _ (D : Digests) where
  gates-Unobserved :
      (adapter : AdapterFacts) (st : ProductionStore) (d : ProductionDeployment)
      (profile : ProductionEnvironmentProfile)
      → Ensures
          (λ (gates : List PreflightCheck).
            any_failed gates ≡ false → d.handover.environment_fingerprint_hash ≡ none)
          (gate_checks D adapter st d profile)
  unfolding gate_checks
  gates-Unobserved adapter st d profile =
      let Q : List PreflightCheck → Type 0 =
        λ gates. any_failed gates ≡ false → d.handover.environment_fingerprint_hash ≡ none in
      Ensures-bind Q (from_registry (release D.document st.registry d.release_id)) _ λ r _.
        Ensures-bind Q (from_registry (validation_report D.document st.registry d.release_id)) _
          λ report _.
            Ensures-bind Q (package_failures D st d.handover profile none) _ λ failures found.
              Ensures-bind Q
                (from_registry (version_by_id D.document st.registry d.metric_version_id)) _
                λ version _.
                  Ensures-bind Q (latest_fingerprint st profile.environment_id) _
                    λ fingerprint _ passes. package_failures-unobserved D st d.handover profile (
                      subst (λ x. package_failures D st d.handover profile none ≡ ok x)
                        (checks_of-integrity adapter d profile r report failures version fingerprint
                          passes)
                        found)

  -- Gates without a failure were passed by a package that names no fingerprint.
  pub gate_checks-unobserved :
      (adapter : AdapterFacts) (st : ProductionStore) (d : ProductionDeployment)
      (profile : ProductionEnvironmentProfile) {gates : List PreflightCheck}
      → gate_checks D adapter st d profile ≡ ok gates
      → any_failed gates ≡ false
      → d.handover.environment_fingerprint_hash ≡ none
  gate_checks-unobserved adapter st d profile h passed =
      Ensures-at
        (λ (x : List PreflightCheck).
          any_failed x ≡ false → d.handover.environment_fingerprint_hash ≡ none)
        (gate_checks D adapter st d profile) (gates-Unobserved adapter st d profile) h passed
