-- ===== src/Production/Deployments/Models.antt =====
-- The documents of the deployment flow (src/airi/production/models.py). Bounds of histogram bins,
-- floats, are left out; a rate is the fraction of its two counts. Fields that the schema fixes to one
-- literal have no field here.
mod Targets
mod Evidence
mod Reviews
use airi.Prelude.{ℕ, String, Bool, true, false, not, ◌&&◌, ◌||◌, Option, List, truthy}
use airi.Core.{Version}
use airi.MetricIr.Models.{MetricIr}
use airi.Production.Gate.Requirements.{EnvironmentKind}
use airi.Production.Models.{ConflictDiagnosis}
use airi.Production.Identity.{Role, AuthSource}
unfoldable pub use Targets.*
pub use Evidence.*
pub use Reviews.*

-- `DeploymentStatus`
pub data DeploymentStatus : Type 0 where
  created preflight_validated shadow_running shadow_validated pending_deployment_review approved
        deployed monitoring failed rolled_back rollback_reconciliation_required
        reconciliation_verification_required :
      DeploymentStatus

-- `ProductionDeployment`; `handover` is its field `package`, its plan and its policies are constants
pub record ProductionDeployment : Type 0 where
  pub deployment_id : String
  pub metric_definition_id : String
  pub metric_version_id : String
  pub metric_key : String
  pub version : Version
  pub release_id : String
  pub environment_id : String
  pub status : DeploymentStatus
  pub handover : DeploymentPackage
  pub expected_active_version : Option Version
  pub preflight : Option PreflightResult
  pub shadow : Option ShadowResult
  pub review_id : Option String
  pub rollback_review_id : Option String
  pub runtime_mode : RuntimeMode
  pub runtime_binding : Option RuntimeBinding
  pub runtime_identity : Option String
  pub runtime_identity_verified : Bool
  pub environment_fingerprint_hash : Option String
  pub production_deployed : Bool
  pub real_environment_verified : Bool
  pub deployment_evidence_id : Option String
  pub synthetic_data : Bool
  pub requested_by : Option String
  pub monitoring_baseline : Option MonitoringBaseline
  pub missing_evidence : List String
  pub created_at : ℕ
  pub updated_at : ℕ
  pub deployed_at : Option ℕ
  pub rolled_back_at : Option ℕ

abbrev is_spark : RuntimeMode → Bool
is_spark RuntimeMode.spark_production = true
is_spark _ = false

-- `ProductionDeployment.honest_deployment_flag`: whether the validator raises
unfoldable pub dishonest_flag : ProductionDeployment → Bool
dishonest_flag d =
    d.production_deployed
    && (not (is_spark d.runtime_mode)
        || not d.runtime_identity_verified
        || not (truthy d.environment_fingerprint_hash))

-- `DEPLOYMENT_TRANSITIONS`
unfoldable pub deployment_transitions : DeploymentStatus → DeploymentStatus → Bool
deployment_transitions DeploymentStatus.created DeploymentStatus.preflight_validated = true
deployment_transitions DeploymentStatus.created DeploymentStatus.failed = true
deployment_transitions DeploymentStatus.preflight_validated DeploymentStatus.shadow_running = true
deployment_transitions DeploymentStatus.preflight_validated DeploymentStatus.failed = true
deployment_transitions DeploymentStatus.shadow_running DeploymentStatus.shadow_validated = true
deployment_transitions DeploymentStatus.shadow_running DeploymentStatus.failed = true
deployment_transitions DeploymentStatus.shadow_validated
      DeploymentStatus.pending_deployment_review =
    true
deployment_transitions DeploymentStatus.shadow_validated DeploymentStatus.failed = true
deployment_transitions DeploymentStatus.pending_deployment_review DeploymentStatus.approved = true
deployment_transitions DeploymentStatus.pending_deployment_review DeploymentStatus.failed = true
deployment_transitions DeploymentStatus.approved DeploymentStatus.deployed = true
deployment_transitions DeploymentStatus.approved DeploymentStatus.failed = true
deployment_transitions DeploymentStatus.deployed DeploymentStatus.monitoring = true
deployment_transitions DeploymentStatus.deployed DeploymentStatus.rolled_back = true
deployment_transitions DeploymentStatus.deployed DeploymentStatus.failed = true
deployment_transitions DeploymentStatus.monitoring DeploymentStatus.rolled_back = true
deployment_transitions DeploymentStatus.monitoring DeploymentStatus.failed = true
deployment_transitions DeploymentStatus.monitoring
      DeploymentStatus.rollback_reconciliation_required =
    true
deployment_transitions DeploymentStatus.rollback_reconciliation_required
      DeploymentStatus.rolled_back =
    true
deployment_transitions DeploymentStatus.rollback_reconciliation_required DeploymentStatus.failed =
    true
deployment_transitions DeploymentStatus.rollback_reconciliation_required
      DeploymentStatus.reconciliation_verification_required =
    true
deployment_transitions DeploymentStatus.reconciliation_verification_required
      DeploymentStatus.rolled_back =
    true
deployment_transitions DeploymentStatus.reconciliation_verification_required
      DeploymentStatus.failed =
    true
deployment_transitions _ _ = false
