-- ===== src/Production/Deployments/Creation.antt =====
-- The creation of a deployment from an approved release (src/airi/production/service.py,
-- DeploymentService.create).
use airi.Prelude.{
  ℕ, String, Bool, false, not, ◌&&◌, ◌||◌, Option, none, some, [], ◌∷◌, if◌then◌else◌, str_eq,
  is_some, Table, get, put, ok, err, ◌>>=◌, ◌>>◌, raise_if,
}
use airi.Core.{Version}
use airi.Registry.Models.{
  ReleaseStatus, EvidenceStatus, ReleaseEligibility, ReviewDecision, MetricVersion, MetricRelease,
  ReleaseReview, ReleaseValidationReport, MetricDefinition,
}
use airi.Registry.Store.{ReleaseReviewRow}
use airi.Registry.Session.{
  definition_by_id, version_by_id, release, release_review, validation_report, same_release_status,
  same_eligibility, same_decision, same_evidence_status,
}
use airi.Production.Identity.{ActorIdentity, authorize, request_production_deployment}
use airi.Production.Deployments.Models.{
  RuntimeMode, DeploymentPackage, DeploymentStatus, ProductionEnvironmentProfile,
  ProductionDeployment,
}
use airi.Production.Deployments.Store.{
  DeploymentRow, ProductionStore, Outcome, Committed, since, commit, from_registry, from_identity,
  release_not_approved_for_deployment, release_review_not_approved, release_validation_failed,
  release_not_eligible, version_already_in_production_flow, integrity_error,
}
use airi.Production.Deployments.Packaging.{Digests, build_package}
use airi.Production.Deployments.Environments.{is_spark_mode, require_deployable, latest_fingerprint}
use airi.Production.Deployments.Session.{same_status, validated}

-- the attributes of the adapter that the service reads
pub record AdapterFacts : Type 0 where
  pub name : String
  pub authoritative : Bool
  pub runtime_mode : RuntimeMode
  pub supports_rollback : Bool
  pub supports_recovery : Bool

-- `release.status in RELEASABLE_STATUSES`
abbrev pub is_releasable : MetricRelease → Bool
is_releasable r =
    same_release_status r.status ReleaseStatus.approved
    || same_release_status r.status ReleaseStatus.active

-- `report.status in ("passed", "passed_with_warnings")`
abbrev pub report_passed : ReleaseValidationReport → Bool
report_passed r =
    same_evidence_status r.status EvidenceStatus.passed
    || same_evidence_status r.status EvidenceStatus.passed_with_warnings

abbrev pub report_eligible : ReleaseValidationReport → Bool
report_eligible r =
    same_eligibility r.release_eligibility ReleaseEligibility.eligible_for_release_review

-- `select(ReleaseReviewRow).where(release_id == id)`, the key of the row
unfoldable pub review_of_release : String → Table ReleaseReviewRow → Option String
review_of_release id [] = none
review_of_release id ((key, row) ∷ t) =
    if str_eq row.release_id id then some key else review_of_release id t

-- `status not in TERMINAL_DEPLOYMENT_STATUSES`
abbrev pub in_flow : DeploymentStatus → Bool
in_flow s =
    not (same_status s DeploymentStatus.failed || same_status s DeploymentStatus.rolled_back)

-- whether a deployment of the version to the environment is still in the flow
unfoldable pub already_in_flow : String → String → Table DeploymentRow → Bool
already_in_flow version_id environment_id [] = false
already_in_flow version_id environment_id ((key, row) ∷ t) =
    str_eq row.metric_version_id version_id
      && str_eq row.environment_id environment_id
      && in_flow row.status
    || already_in_flow version_id environment_id t

-- the two new identifiers of a call
pub record NewIds : Type 0 where
  pub package_id : String
  pub deployment_id : String

abbrev pub new_deployment :
    ℕ
    → NewIds
    → AdapterFacts
    → ProductionEnvironmentProfile
    → MetricVersion
    → MetricRelease
    → DeploymentPackage
    → Option Version
    → ActorIdentity
    → ProductionDeployment
new_deployment now ids adapter profile version r package' expected identity = record {
  deployment_id = ids.deployment_id;
  metric_definition_id = version.metric_definition_id;
  metric_version_id = version.metric_version_id;
  metric_key = version.metric_key;
  version = version.version;
  release_id = r.release_id;
  environment_id = profile.environment_id;
  status = DeploymentStatus.created;
  handover = package';
  expected_active_version = expected;
  preflight = none;
  shadow = none;
  review_id = none;
  rollback_review_id = none;
  runtime_mode = adapter.runtime_mode;
  runtime_binding = none;
  runtime_identity = none;
  runtime_identity_verified = false;
  environment_fingerprint_hash = package'.environment_fingerprint_hash;
  production_deployed = false;
  real_environment_verified = is_spark_mode profile.execution_mode && profile.verified;
  deployment_evidence_id = none;
  synthetic_data = package'.synthetic_data;
  requested_by = some identity.actor_id;
  monitoring_baseline = none;
  missing_evidence = [];
  created_at = now;
  updated_at = now;
  deployed_at = none;
  rolled_back_at = none;
}

abbrev pub new_row : ℕ → ProductionDeployment → DeploymentRow
new_row now d = record {
  metric_definition_id = d.metric_definition_id;
  metric_version_id = d.metric_version_id;
  release_id = d.release_id;
  environment_id = d.environment_id;
  status = d.status;
  deployment_package_hash = d.handover.content_hash;
  provider_job_id = none;
  runtime_mode = d.runtime_mode;
  production_deployed = false;
  runtime_binding_json = none;
  deployment_json = d;
  created_at = now;
  updated_at = now;
  deployed_at = none;
  rolled_back_at = none;
}

module _ (D : Digests) where
  -- the release's evidence that `create` demands
  unfoldable pub approved_release :
      ProductionStore → String → Outcome (MetricRelease × ReleaseReview × ReleaseValidationReport)
  approved_release st release_id = do
    r ← from_registry (release D.document st.registry release_id)
    raise_if (not (is_releasable r)) release_not_approved_for_deployment
    elim (review_of_release r.release_id st.registry.reviews) [
      | none ↦ err release_review_not_approved
      | some key ↦ do
        rev ← from_registry (release_review D.document st.registry key)
        raise_if (not (same_decision rev.decision ReviewDecision.approved))
            release_review_not_approved
        report ← from_registry (validation_report D.document st.registry r.release_id)
        raise_if (not (report_passed report)) release_validation_failed
        raise_if (not (report_eligible report)) release_not_eligible
        ok (r, rev, report)
    ]

  -- `expected`: the version that the registry's pointer names
  unfoldable pub expected_version : ProductionStore → MetricDefinition → Outcome (Option Version)
  expected_version st d = elim d.active_version_id [
    | none ↦ ok none
    | some id ↦ do v ← from_registry (version_by_id D.document st.registry id); ok (some v.version)
  ]

  -- `DeploymentService.create`
  unfoldable pub create :
      ℕ
      → NewIds
      → AdapterFacts
      → ProductionStore
      → String
      → String
      → ActorIdentity
      → Committed ProductionDeployment
  unfolding approved_release expected_version
  create now ids adapter st release_id environment_id identity = since st (do
    from_identity (authorize identity request_production_deployment)
    profile ← require_deployable st environment_id
    (r, rev, report) ← approved_release st release_id
    version ← from_registry (version_by_id D.document st.registry r.metric_version_id)
    raise_if (already_in_flow version.metric_version_id profile.environment_id st.deployments)
        version_already_in_production_flow
    fingerprint ← latest_fingerprint st profile.environment_id
    package' ← build_package D ids.package_id now st profile r version rev report fingerprint
    definition ← from_registry (definition_by_id st.registry version.metric_definition_id)
    expected ← expected_version st definition
    d ← validated (new_deployment now ids adapter profile version r package' expected identity)
    raise_if (is_some (get d.deployment_id st.deployments)) integrity_error
    commit (record st { deployments = put d.deployment_id (new_row now d) st.deployments }) (ok d))
