-- ===== src/Production/Deployments/Models/Evidence.antt =====
-- The package of a deployment, and what its preflight, its shadow and its runtime show
-- (src/airi/production/models.py).
use airi.Prelude.{ℕ, String, Bool, Option, List}
use airi.Core.{Version}
use airi.MetricIr.Models.{MetricIr}
use airi.Production.Deployments.Models.Targets.{RuntimeMode}

-- `DeploymentPackage`
pub record DeploymentPackage : Type 0 where
  pub deployment_package_id : String
  pub metric_definition_id : String
  pub metric_version_id : String
  pub metric_key : String
  pub version : Version
  pub metric_version_content_hash : String
  pub metric_ir : MetricIr
  pub metric_ir_hash : String
  pub artifact_id : String
  pub artifact_hash : String
  pub sql : String
  pub sql_hash : String
  pub release_id : String
  pub release_review_id : String
  pub release_validation_report_hash : String
  pub environment_id : String
  pub environment_profile_hash : String
  pub environment_fingerprint_hash : Option String
  pub synthetic_data : Bool
  pub content_hash : String
  pub created_at : ℕ

-- what `deployment_package_hash` digests: `_PACKAGE_HASH_FIELDS`
pub record PackageContent : Type 0 where
  pub metric_definition_id : String
  pub metric_version_id : String
  pub metric_version_content_hash : String
  pub metric_key : String
  pub version : Version
  pub metric_ir_hash : String
  pub artifact_id : String
  pub artifact_hash : String
  pub sql_hash : String
  pub release_id : String
  pub release_review_id : String
  pub release_validation_report_hash : String
  pub environment_id : String
  pub environment_profile_hash : String
  pub environment_fingerprint_hash : Option String

pub data CheckStatus : Type 0 where
  passed failed not_verified : CheckStatus

-- `PreflightCheck`, without its free-form detail
pub record PreflightCheck : Type 0 where
  pub name : String
  pub status : CheckStatus

-- `ProductionPreflightResult`
pub record PreflightResult : Type 0 where
  pub passed : Bool
  pub checks : List PreflightCheck
  pub missing_evidence : List String

-- `ProductionShadowObservation`, without the identifiers that are only copied
pub record ShadowObservation : Type 0 where
  pub execution_success : Bool
  pub row_count : ℕ
  pub entity_count : ℕ
  pub non_null_count : ℕ
  pub null_count : ℕ
  pub duplicate_entities : ℕ
  pub latency_ms : ℕ
  pub bin_counts : List ℕ
  pub environment_fingerprint_hash : Option String
  pub synthetic_data : Bool

pub data ShadowStatus : Type 0 where
  passed passed_with_warnings failed inconclusive : ShadowStatus

pub data ShadowFinding : Type 0 where
  production_shadow_execution_failed production_shadow_duplicate_entity
        production_shadow_no_entities :
      ShadowFinding

-- a rate as the fraction of two counts
abbrev pub Rate : Type 0
Rate = Option (ℕ × ℕ)

-- `ProductionShadowResult`
pub record ShadowResult : Type 0 where
  pub status : ShadowStatus
  pub metric_version_id : String
  pub runtime_mode : RuntimeMode
  pub execution_success : Bool
  pub row_count : ℕ
  pub entity_count : ℕ
  pub coverage : Rate
  pub null_rate : Rate
  pub duplicate_rate : Rate
  pub latency_ms : ℕ
  pub bin_counts : List ℕ
  pub findings : List ShadowFinding
  pub warnings : List String
  pub synthetic_data : Bool

-- `MonitoringBaseline`
pub record MonitoringBaseline : Type 0 where
  pub metric_version_id : String
  pub bin_counts : List ℕ
  pub row_count : ℕ
  pub coverage : Rate
  pub null_rate : Rate
  pub duplicate_rate : Rate
  pub latency_ms : ℕ

-- `ProductionRuntimeBinding`
pub record RuntimeBinding : Type 0 where
  pub metric_version_id : String
  pub environment_id : String
  pub provider_job_id : Option String
  pub runtime_identity : Option String
  pub runtime_identity_verified : Bool
  pub environment_fingerprint_hash : Option String
  pub activated_at : Option ℕ
