-- ===== src/Registry/Store.antt =====
-- The registry's tables (src/airi/registry/persistence.py) and the session over them. A table holds
-- its rows by primary key. A service call works on the store that it read and hands the new store
-- over at its commit; a raise hands nothing over, as `Database.session` rolls back
-- (src/airi/infrastructure/database.py).
use airi.Core.{Version}
use airi.Registry.Models.{
  MetricVersionStatus, ReleaseStatus, ReleaseEligibility, TargetEnvironment, ReleaseEventType,
  EvidenceStatus, ReviewDecision, RollbackDecision, MetricDefinition, MetricVersion,
  ReleaseValidationReport, MetricRelease, ReleaseReview, RollbackReview,
}
use airi.Prelude.{ℕ, String, Option, List}
unfoldable pub use airi.Prelude.{get, put}
pub use airi.Prelude.{Table, get-put, AllRows, put-AllRows, get-AllRows, Distinct, put-Distinct}

-- `MetricDefinitionRow`
pub record DefinitionRow : Type 0 where
  pub metric_key : String
  pub display_name : String
  pub member_metric_names : List String
  pub active_version_id : Option String
  pub definition_json : MetricDefinition
  pub created_at : ℕ
  pub updated_at : ℕ

-- `MetricVersionRow`
pub record VersionRow : Type 0 where
  pub metric_definition_id : String
  pub version : Version
  pub status : MetricVersionStatus
  pub metric_name : String
  pub metric_ir_hash : String
  pub artifact_id : String
  pub artifact_hash : String
  pub source_promotion_review_id : String
  pub content_hash : String
  pub version_json : MetricVersion
  pub created_at : ℕ

-- `MetricReleaseRow`
pub record ReleaseRow : Type 0 where
  pub metric_definition_id : String
  pub metric_version_id : String
  pub version : Version
  pub target_environment : TargetEnvironment
  pub status : ReleaseStatus
  pub expected_active_version_id : Option String
  pub release_policy_version : String
  pub release_json : MetricRelease
  pub created_at : ℕ
  pub validated_at : Option ℕ
  pub activated_at : Option ℕ

-- `ReleaseValidationRow`
pub record ValidationRow : Type 0 where
  pub status : EvidenceStatus
  pub release_eligibility : ReleaseEligibility
  pub report_json : ReleaseValidationReport
  pub report_hash : String
  pub created_at : ℕ

-- `ReleaseReviewRow`
pub record ReleaseReviewRow : Type 0 where
  pub release_id : String
  pub metric_version_id : String
  pub decision : ReviewDecision
  pub reviewer : Option String
  pub comment : Option String
  pub review_json : ReleaseReview
  pub review_hash : String
  pub created_at : ℕ
  pub reviewed_at : Option ℕ

-- `RollbackReviewRow`
pub record RollbackReviewRow : Type 0 where
  pub metric_definition_id : String
  pub from_version_id : Option String
  pub to_version_id : String
  pub decision : RollbackDecision
  pub reviewer : Option String
  pub comment : Option String
  pub review_json : RollbackReview
  pub review_hash : String
  pub created_at : ℕ
  pub reviewed_at : Option ℕ

-- `MetricReleaseEventRow`, without its own id and its free-form metadata
pub record EventRow : Type 0 where
  pub metric_definition_id : String
  pub metric_version_id : Option String
  pub release_id : Option String
  pub event_type : ReleaseEventType
  pub actor : String
  pub created_at : ℕ

pub record Store : Type 0 where
  pub definitions : Table DefinitionRow
  pub versions : Table VersionRow
  pub releases : Table ReleaseRow
  pub validations : Table ValidationRow
  pub reviews : Table ReleaseReviewRow
  pub rollbacks : Table RollbackReviewRow
  pub events : List EventRow
