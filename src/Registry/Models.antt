-- ===== src/Registry/Models.antt =====
-- The registry vocabulary (src/airi/registry/models.py). Moments are numbers of seconds; digests
-- and identifiers are texts.
use airi.Prelude.{ℕ, String, Bool, true, Option, List}
use airi.Core.{Version}
use airi.MetricIr.Models.{
  MetricIr, Function, WindowUnit, Timezone, FilterCondition, JoinSpec, FieldComparison,
}

pub data MetricVersionStatus : Type 0 where
  registered release_candidate active retired : MetricVersionStatus

pub data VersionChangeKind : Type 0 where
  initial patch minor major : VersionChangeKind

pub data ReleaseStatus : Type 0 where
  draft pending_staging_validation staging_validated pending_release_review approved active failed
        rolled_back :
      ReleaseStatus

pub data ReleaseEligibility : Type 0 where
  eligible_for_release_review need_more_evidence not_eligible : ReleaseEligibility

pub data TargetEnvironment : Type 0 where
  staging production : TargetEnvironment

pub data ReleaseEventType : Type 0 where
  version_registered release_created staging_validated release_approved release_rejected activated
        rollback_requested rollback_approved rollback_rejected rolled_back
        production_environment_registered production_preflight_validated production_shadow_started
        production_shadow_validated production_deployment_approved production_deployed
        monitoring_snapshot_ingested monitoring_alert_created rollback_started
        production_rolled_back deployment_reconciled deployment_reconciliation_required
        feedback_recorded production_environment_verified runtime_identity_verified
        production_deployment_evidence_recorded telemetry_source_registered
        telemetry_source_verified monitoring_expectation_registered production_verification_recorded
        production_rollback_preflight_validated reconciliation_planned reconciliation_approved
        reconciliation_executed reconciliation_verified desired_runtime_state_established
        convergence_already_satisfied convergence_conflict_diagnosed expectation_evaluated
        telemetry_missing_detected notification_attempted verification_gate_blocked
        verification_gate_passed :
      ReleaseEventType

pub data EvidenceStatus : Type 0 where
  passed passed_with_warnings failed inconclusive : EvidenceStatus

pub data ReviewDecision : Type 0 where
  pending approved rejected need_more_evidence : ReviewDecision

pub data RollbackDecision : Type 0 where
  pending approved rejected : RollbackDecision

-- `MetricDefinition`
pub record MetricDefinition : Type 0 where
  pub metric_definition_id : String
  pub metric_key : String
  pub display_name : String
  pub member_metric_names : List String
  pub active_version_id : Option String
  pub created_at : ℕ
  pub updated_at : ℕ

-- `VersionFieldValue`: a leaf of a metric. A list of JSON dumps is kept as the parts it dumps.
pub data FieldValue : Type 0 where
  optional : Option String → FieldValue
  names : List String → FieldValue
  flag : Bool → FieldValue
  number : ℕ → FieldValue
  function : Function → FieldValue
  unit : WindowUnit → FieldValue
  zone : Timezone → FieldValue
  conditions : List FilterCondition → FieldValue
  join_specs : List JoinSpec → FieldValue
  comparisons : List FieldComparison → FieldValue

-- `VersionChangedField`
pub record VersionChangedField : Type 0 where
  pub field : String
  pub before : FieldValue
  pub after : FieldValue

-- `VersionChange`
pub record VersionChange : Type 0 where
  pub kind : VersionChangeKind
  pub previous_version : Option Version
  pub changed_fields : List VersionChangedField

-- the entries of `provenance` that the service reads back
pub record Provenance : Type 0 where
  pub promotion_review_id : String
  pub promotion_evidence_hash : String
  pub temporal_validation_run_id : String
  pub temporal_report_hash : String
  pub refinement_run_id : String
  pub refinement_report_hash : String
  pub test_report_hash : String
  pub experiment_report_hash : String

-- `MetricVersion`
pub record MetricVersion : Type 0 where
  pub metric_version_id : String
  pub metric_definition_id : String
  pub metric_key : String
  pub version : Version
  pub status : MetricVersionStatus
  pub metric_name : String
  pub display_name : Option String
  pub metric_ir : MetricIr
  pub metric_ir_hash : String
  pub artifact_id : String
  pub artifact_hash : String
  pub source_refinement_run_id : String
  pub source_temporal_validation_run_id : String
  pub source_promotion_review_id : String
  pub version_change : VersionChange
  pub provenance : Provenance
  pub content_hash : String
  pub synthetic_data : Bool
  pub created_at : ℕ

-- what `metric_version_content_hash` digests: neither identity, nor status, nor timestamps
pub record VersionContent : Type 0 where
  pub metric_definition_id : String
  pub metric_key : String
  pub version : Version
  pub metric_name : String
  pub display_name : Option String
  pub metric_ir : MetricIr
  pub metric_ir_hash : String
  pub artifact_id : String
  pub artifact_hash : String
  pub source_refinement_run_id : String
  pub source_temporal_validation_run_id : String
  pub source_promotion_review_id : String
  pub version_change : VersionChange
  pub provenance : Provenance
  pub synthetic_data : Bool

abbrev pub content_of : MetricVersion → VersionContent
content_of v = record {
  metric_definition_id = v.metric_definition_id;
  metric_key = v.metric_key;
  version = v.version;
  metric_name = v.metric_name;
  display_name = v.display_name;
  metric_ir = v.metric_ir;
  metric_ir_hash = v.metric_ir_hash;
  artifact_id = v.artifact_id;
  artifact_hash = v.artifact_hash;
  source_refinement_run_id = v.source_refinement_run_id;
  source_temporal_validation_run_id = v.source_temporal_validation_run_id;
  source_promotion_review_id = v.source_promotion_review_id;
  version_change = v.version_change;
  provenance = v.provenance;
  synthetic_data = v.synthetic_data;
}

-- An exact fraction, for the ratios and thresholds that the source keeps as floats: they are
-- quotients of counts below a thousand, and decimal constants.
pub record Fraction : Type 0 where
  pub numerator : ℕ
  pub denominator : ℕ

-- `ReleasePolicy`. Its fields of type `Literal[True]` have one value each; the one that the
-- diagnostics read is `require_shadow_validation`. The limit `max_distribution_shift` is read only by
-- the shadow comparison (shadow.py), whose warnings the diagnostics do not count as findings.
pub record ReleasePolicy : Type 0 where
  pub version : String
  pub max_entity_loss_fraction : Fraction
  pub max_new_null_fraction : Fraction
  pub max_distribution_shift : Fraction

abbrev pub require_shadow_validation : Bool
require_shadow_validation = true

abbrev pub default_release_policy : ReleasePolicy
default_release_policy = record {
  version = "1.0.0";
  max_entity_loss_fraction = record { numerator = 5; denominator = 100 };
  max_new_null_fraction = record { numerator = 5; denominator = 100 };
  max_distribution_shift = record { numerator = 1; denominator = 1 };
}

-- `StagingValidationResult`, the fields that the diagnostics read
pub record StagingValidationResult : Type 0 where
  pub status : EvidenceStatus
  pub row_count : ℕ
  pub truncated : Bool
  pub schema_ok : Bool
  pub warnings : List String

-- `ShadowComparisonResult`, the fields that the diagnostics read
pub record ShadowComparisonResult : Type 0 where
  pub status : EvidenceStatus
  pub matched_entities : ℕ
  pub entity_loss_fraction : Option Fraction
  pub new_null_fraction : Option Fraction
  pub warnings : List String

-- `ReleaseValidationReport`, without the echo of the digests that were checked
pub record ReleaseValidationReport : Type 0 where
  pub release_id : String
  pub metric_version_id : String
  pub metric_key : String
  pub version : Version
  pub status : EvidenceStatus
  pub release_eligibility : ReleaseEligibility
  pub staging : StagingValidationResult
  pub shadow : Option ShadowComparisonResult
  pub findings : List String
  pub warnings : List String
  pub missing_evidence : List String
  pub synthetic_data : Bool
  pub release_policy_version : String
  pub created_at : ℕ

-- the entries of `release_provenance`
pub record ReleaseProvenance : Type 0 where
  pub metric_version_content_hash : String
  pub metric_ir_hash : String
  pub candidate_artifact_hash : String
  pub promotion_review_id : String
  pub temporal_validation_run_id : String
  pub refinement_run_id : String
  pub temporal_report_hash : String
  pub promotion_evidence_hash : String

-- `MetricRelease`
pub record MetricRelease : Type 0 where
  pub release_id : String
  pub metric_definition_id : String
  pub metric_version_id : String
  pub metric_key : String
  pub version : Version
  pub target_environment : TargetEnvironment
  pub status : ReleaseStatus
  pub expected_active_version_id : Option String
  pub release_policy : ReleasePolicy
  pub release_provenance : ReleaseProvenance
  pub validation_report_hash : Option String
  pub created_at : ℕ
  pub validated_at : Option ℕ
  pub activated_at : Option ℕ

-- an entry of `previous_decisions`
pub record PastDecision : Type 0 where
  pub decision : ReviewDecision
  pub reviewer : Option String
  pub comment : Option String

-- `ReleaseReview`
pub record ReleaseReview : Type 0 where
  pub release_review_id : String
  pub release_id : String
  pub metric_version_id : String
  pub decision : ReviewDecision
  pub reviewer : Option String
  pub comment : Option String
  pub validation_report_hash : Option String
  pub previous_decisions : List PastDecision
  pub created_at : ℕ
  pub reviewed_at : Option ℕ

-- `RollbackReview`
pub record RollbackReview : Type 0 where
  pub rollback_review_id : String
  pub metric_definition_id : String
  pub metric_key : String
  pub from_version_id : Option String
  pub from_version : Option Version
  pub to_version_id : String
  pub to_version : Version
  pub reason : String
  pub decision : RollbackDecision
  pub reviewer : Option String
  pub comment : Option String
  pub created_at : ℕ
  pub reviewed_at : Option ℕ

-- `ReleaseDecision`: its schema admits three decisions, so `pending` is no payload
pub data ReleaseVerdict : Type 0 where
  approved rejected need_more_evidence : ReleaseVerdict

pub data RollbackVerdict : Type 0 where
  approved rejected : RollbackVerdict

pub record ReleaseDecisionRequest : Type 0 where
  pub decision : ReleaseVerdict
  pub reviewer : String
  pub comment : String

pub record RollbackDecisionRequest : Type 0 where
  pub decision : RollbackVerdict
  pub reviewer : String
  pub comment : String

-- The values that `canonical_hash` is applied to.
pub data Document : Type 0 where
  metric_ir : MetricIr → Document
  version_content : VersionContent → Document
  validation_report : ReleaseValidationReport → Document
  release_review : ReleaseReview → Document
  rollback_review : RollbackReview → Document
