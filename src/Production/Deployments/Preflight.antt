-- ===== src/Production/Deployments/Preflight.antt =====
-- The preflight of a deployment and its hard gates (src/airi/production/service.py,
-- DeploymentService.preflight and _gate_checks).
use airi.Prelude.{
  ℕ, String, Bool, true, false, not, ◌&&◌, ◌||◌, Option, none, some, List, [], ◌∷◌, ◌++◌,
  if◌then◌else◌, str_eq, opt_eq, str_append, sorted_set, ok, err, ◌>>=◌, ◌>>◌, raise_if,
}
use airi.MetricIr.Models.{is_empty}
use airi.Registry.Models.{TargetEnvironment, MetricVersion, MetricRelease, ReleaseValidationReport}
use airi.Registry.Session.{version_by_id, release, validation_report, same_environment}
use airi.Production.Identity.{ActorIdentity, authorize, request_production_deployment}
use airi.Production.Deployments.Models.{
  VerificationSource, ProductionEnvironmentProfile, Fingerprint, DeploymentPackage, CheckStatus,
  PreflightCheck, PreflightResult, DeploymentStatus, ProductionDeployment, deployable,
}
use airi.Production.Deployments.Store.{
  ProductionEvent, ProductionStore, Outcome, Committed, since, commit, from_registry, from_identity,
  production_deployment_not_preflightable, production_preflight_failed,
}
use airi.Production.Deployments.Packaging.{Digests, package_failures}
use airi.Production.Deployments.Environments.{log_event, environment_profile, latest_fingerprint}
use airi.Production.Deployments.Session.{same_status, deployment, transition, validated, write}
use airi.Production.Deployments.Creation.{
  AdapterFacts, is_releasable, report_passed, report_eligible,
}

-- `check` of `_gate_checks`
abbrev pub check : String → Bool → Bool → PreflightCheck
check name passes unverified = record {
  name = name;
  status =
      if passes
      then CheckStatus.passed
      else if unverified
      then CheckStatus.not_verified
      else CheckStatus.failed;
}

abbrev is_unverified : VerificationSource → Bool
is_unverified VerificationSource.unverified = true
is_unverified _ = false

abbrev is_synthetic : VerificationSource → Bool
is_synthetic VerificationSource.synthetic_profile = true
is_synthetic _ = false

-- the packaged fingerprint is none, or the one observed
abbrev pub same_fingerprint : Option String → Option Fingerprint → Bool
same_fingerprint none observed = true
same_fingerprint (some packaged) none = false
same_fingerprint (some packaged) (some f) = str_eq f.fingerprint_hash packaged

-- `ProductionValidationResult`, what the adapter answers to `validate`
pub record ValidationResult : Type 0 where
  pub checks : List PreflightCheck
  pub environment_fingerprint_hash : Option String

-- the list of `_gate_checks`, over what it has read
unfoldable pub checks_of :
    AdapterFacts
    → ProductionDeployment
    → ProductionEnvironmentProfile
    → MetricRelease
    → ReleaseValidationReport
    → List String
    → MetricVersion
    → Option Fingerprint
    → List PreflightCheck
checks_of adapter d profile r report failures version fingerprint =
    check "environment_verified" (deployable profile) false
    ∷ check "environment_validation" (not (is_unverified profile.verification_source))
        (is_synthetic profile.verification_source)
    ∷ check "environment_fingerprint"
        (same_fingerprint d.handover.environment_fingerprint_hash fingerprint) false
    ∷ check "adapter_authoritative" (adapter.authoritative || profile.synthetic) false
    ∷ check "release_approved" (is_releasable r) false
    ∷ check "release_evidence" (report_passed report && report_eligible report) false
    ∷ check "package_integrity" (is_empty failures) false
    ∷ check "metric_version_immutable"
        (str_eq d.handover.metric_version_content_hash version.content_hash) false
    ∷ check "read_only_preflight" true false
    ∷ check "release_target_environment"
        (same_environment r.target_environment TargetEnvironment.production)
        (not (same_environment r.target_environment TargetEnvironment.production))
    ∷ []

abbrev is_failed : PreflightCheck → Bool
is_failed c = elim c.status [ CheckStatus.failed ↦ true | _ ↦ false ]

abbrev is_not_verified : PreflightCheck → Bool
is_not_verified c = elim c.status [ CheckStatus.not_verified ↦ true | _ ↦ false ]

-- `any(item.status == "failed" for item in checks)`
unfoldable pub any_failed : List PreflightCheck → Bool
any_failed [] = false
any_failed (c ∷ cs) = is_failed c || any_failed cs

-- `missing.append(f"adapter:{check.name}")`
unfoldable pub adapter_missing : List PreflightCheck → List String
adapter_missing [] = []
adapter_missing (c ∷ cs) =
    let rest = adapter_missing cs in
    if is_not_verified c then str_append "adapter:" c.name ∷ rest else rest

-- the loop on `release_target_environment`
unfoldable pub target_missing : List PreflightCheck → List String
target_missing [] = []
target_missing (c ∷ cs) =
    let rest = target_missing cs in
    if str_eq c.name "release_target_environment" && is_not_verified c
    then "production release environment not exercised" ∷ rest
    else rest

abbrev pub result_of : List PreflightCheck → List PreflightCheck → PreflightResult
result_of adapter_checks checks = record {
  passed = not (any_failed checks);
  checks = checks;
  missing_evidence = sorted_set (adapter_missing adapter_checks ++ target_missing checks);
}

module _ (D : Digests) where
  -- `_gate_checks`
  unfoldable pub gate_checks :
      AdapterFacts
      → ProductionStore
      → ProductionDeployment
      → ProductionEnvironmentProfile
      → Outcome (List PreflightCheck)
  gate_checks adapter st d profile = do
    r ← from_registry (release D.document st.registry d.release_id)
    report ← from_registry (validation_report D.document st.registry d.release_id)
    failures ← package_failures D st d.handover profile none
    version ← from_registry (version_by_id D.document st.registry d.metric_version_id)
    fingerprint ← latest_fingerprint st profile.environment_id
    ok (checks_of adapter d profile r report failures version fingerprint)

  -- `DeploymentService.preflight`; `validate` is the adapter's
  unfoldable pub preflight :
      ℕ
      → AdapterFacts
      → (DeploymentPackage → Outcome ValidationResult)
      → ProductionStore
      → String
      → ActorIdentity
      → Committed ProductionDeployment
  unfolding gate_checks
  preflight now adapter validate st id identity = since st (do
    from_identity (authorize identity request_production_deployment)
    d ← deployment D st id
    raise_if (not (same_status d.status DeploymentStatus.created))
        production_deployment_not_preflightable
    profile ← environment_profile st d.environment_id
    gates ← gate_checks adapter st d profile
    validation ← validate d.handover
    let live =
        check "live_runtime_fingerprint"
          (opt_eq validation.environment_fingerprint_hash d.handover.environment_fingerprint_hash)
          false
    let checks = gates ++ (validation.checks ++ live ∷ [])
    let result = result_of validation.checks checks
    d₁ ← validated (record d { preflight = some result })
    d₂ ←
        transition now d₁
          (if result.passed then DeploymentStatus.preflight_validated else DeploymentStatus.failed)
    st₁ ← write now st d₂
    let st₂ =
        log_event now st₁ d₂.metric_definition_id ProductionEvent.production_preflight_validated
          identity.actor_id (some d₂.metric_version_id) (some d₂.release_id)
    commit st₂ (if result.passed then ok d₂ else err production_preflight_failed))
