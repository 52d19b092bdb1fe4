-- ===== src/Production/Deployments/Sample/Documents.antt =====
-- The documents, the actors and the answers of the sample deployment
-- (src/airi/production/models.py).
use airi.Prelude.{true, false, none, some, [], ◌∷◌, ok}
use airi.Approvals.Service.{ArtifactStatus, Artifact, ArtifactRow}
use airi.Registry.Models.{
  EvidenceStatus, ReleaseEligibility, ReviewDecision, ReleaseReview, ReleaseValidationReport,
}
use airi.Registry.Store.{Store}
use airi.Registry.Sample.{digest, orders, approved_store, v2_0}
use airi.Production.Gate.Requirements.{EnvironmentKind}
use airi.Production.Gate.Requirements.{VerificationStatus}
use airi.Production.Models.{RuntimeState}
use airi.Production.Deployments.Gatekeeping.{GateSettings}
use airi.Production.Deployments.Deploying.{ProviderStatus, DeployAnswers}
use airi.Production.Identity.{ActorIdentity, AuthSource, Role}
use airi.Production.Deployments.Models.{
  ExecutionMode, RuntimeMode, EnvironmentRequest, DeploymentPackage, ShadowObservation, Verdict,
  ReviewRequest,
}
use airi.Production.Deployments.Store.{ProductionStore, Outcome}
use airi.Production.Deployments.Packaging.{Digests}
use airi.Production.Deployments.Creation.{AdapterFacts, NewIds}
use airi.Production.Deployments.Preflight.{ValidationResult}

-- Digests that tell the documents below apart.
abbrev pub digests : Digests
digests = record {
  document = digest;
  package_content = λ c. c.metric_version_id;
  profile = λ p. p.environment_id;
  artifact = λ a. a.artifact_id;
  text = λ t. t;
  review = λ r. r.deployment_review_id;
}

abbrev pub deployer : ActorIdentity
deployer = record {
  actor_id = "dee";
  display_name = "Dee";
  auth_source = AuthSource.mock;
  roles = Role.production_deployer ∷ [];
  issuer = none;
}

abbrev pub administrator : ActorIdentity
administrator = record deployer { actor_id = "ada"; display_name = "Ada"; roles = Role.admin ∷ [] }

abbrev pub report : ReleaseValidationReport
report = record {
  release_id = "r";
  metric_version_id = "v3";
  metric_key = "orders";
  version = v2_0;
  status = EvidenceStatus.passed;
  release_eligibility = ReleaseEligibility.eligible_for_release_review;
  staging = record {
    status = EvidenceStatus.passed;
    row_count = 50;
    truncated = false;
    schema_ok = true;
    warnings = [];
  };
  shadow = none;
  findings = [];
  warnings = [];
  missing_evidence = [];
  synthetic_data = false;
  release_policy_version = "1.0";
  created_at = 3;
}

abbrev pub release_verdict : ReleaseReview
release_verdict = record {
  release_review_id = "w";
  release_id = "r";
  metric_version_id = "v3";
  decision = ReviewDecision.approved;
  reviewer = some "lee";
  comment = some "within limits";
  validation_report_hash = some "r";
  previous_decisions = [];
  created_at = 4;
  reviewed_at = some 5;
}

-- the approved release of `v3` with its report and its review
abbrev pub released : Store
released = record approved_store {
  validations =
      (
        "r",
        record {
          status = EvidenceStatus.passed;
          release_eligibility = ReleaseEligibility.eligible_for_release_review;
          report_json = report;
          report_hash = "r";
          created_at = 3;
        },
      )
      ∷ [];
  reviews =
      (
        "w",
        record {
          release_id = "r";
          metric_version_id = "v3";
          decision = ReviewDecision.approved;
          reviewer = some "lee";
          comment = some "within limits";
          review_json = release_verdict;
          review_hash = "w";
          created_at = 4;
          reviewed_at = some 5;
        },
      )
      ∷ [];
}

abbrev pub query : Artifact
query = record {
  artifact_id = "v3";
  artifact_version = v2_0;
  metric_name = "orders";
  code = "SELECT 1";
  template = record { name = "plain"; version = v2_0 };
  warnings = [];
  content_hash = "SELECT 1";
}

abbrev pub query_row : ArtifactRow
query_row = record {
  workflow_run_id = "w";
  artifact_version = v2_0;
  metric_name = "orders";
  metric_ir_hash = "orders";
  artifact_hash = "v3";
  status = ArtifactStatus.approved;
  snapshot = record {
    artifact = some query;
    metric_ir = orders;
    workflow_run_id = "w";
    valid = true;
  };
  created_at = 1;
}

abbrev pub empty_store : ProductionStore
empty_store = record {
  registry = released;
  artifacts = ("v3", query_row) ∷ [];
  environment_validations = [];
  environments = [];
  fingerprints = [];
  deployments = [];
  reviews = [];
  rollbacks = [];
  desired_states = [];
  evidence = [];
  overrides = [];
  gate_decisions = [];
  audit = [];
}

abbrev pub request : EnvironmentRequest
request = record {
  environment_id = "e";
  name = "mock production";
  environment_kind = EnvironmentKind.production;
  execution_mode = ExecutionMode.mock;
  deployment_enabled = true;
  environment_validation_run_id = none;
  synthetic = true;
}

abbrev pub adapter : AdapterFacts
adapter = record {
  name = "mock";
  authoritative = false;
  runtime_mode = RuntimeMode.mock;
  supports_rollback = true;
  supports_recovery = false;
}

abbrev pub ids : NewIds
ids = record { package_id = "k"; deployment_id = "m" }

abbrev pub answer : DeploymentPackage → Outcome ValidationResult
answer p = ok (record { checks = []; environment_fingerprint_hash = none })

abbrev pub observe : DeploymentPackage → Outcome ShadowObservation
observe p = ok (record {
  execution_success = true;
  row_count = 50;
  entity_count = 50;
  non_null_count = 49;
  null_count = 1;
  duplicate_entities = 0;
  latency_ms = 7;
  bin_counts = 50 ∷ [];
  environment_fingerprint_hash = none;
  synthetic_data = true;
})

abbrev pub approval : ReviewRequest
approval = record { decision = Verdict.approved; comment = "shadow is clean" }

abbrev pub settings : GateSettings
settings = record {
  trust_boundary_configured = false;
  configured_mode = "auto";
  policy_version = "1.0";
  report_of = λ st d. ok (record {
    production_verification_run_id = "z";
    deployment_id = d.deployment_id;
    metric_version_id = d.metric_version_id;
    sections = [];
    overall = VerificationStatus.not_verified;
  });
}

abbrev pub provider : DeployAnswers
provider = record {
  deploy_package = λ p id. ok (record {
    status = ProviderStatus.deployed;
    provider_job_id = some "j";
    runtime_identity = none;
    runtime_identity_verified = false;
    environment_fingerprint_hash = none;
  });
  runtime_status =
      λ id. ok (record { runtime_state = RuntimeState.active; active_version_id = some "v3" });
}
