-- ===== src/Production/Models.antt =====
-- The production vocabulary (src/airi/production/models.py): the literals and records that the
-- convergence helpers, the reconciliation planner and the verification gate share. Digests
-- and identifiers are texts, moments are numbers of seconds.
use airi.Prelude.{ℕ, String, Bool, Option, List}
use airi.Core.{Version}

pub data RuntimeState : Type 0 where
  unknown shadow active failed rolled_back mismatch : RuntimeState

pub data ConvergenceState : Type 0 where
  converged mismatch unknown : ConvergenceState

pub data ConvergenceAction : Type 0 where
  no_op registry_to_runtime runtime_to_registry manual_investigation : ConvergenceAction

pub data ConflictCategory : Type 0 where
  target_already_satisfied stale_expected_state unexpected_external_change runtime_unknown :
      ConflictCategory

pub data ConvergenceVerdict : Type 0 where
  already_converged converged still_mismatch not_verified manual_intervention_required :
      ConvergenceVerdict

pub data ProductionHealthStatus : Type 0 where
  healthy degraded unknown : ProductionHealthStatus

pub data DesiredStateSource : Type 0 where
  deployment rollback reconciliation manual_governance : DesiredStateSource

pub data ReconciliationStatus : Type 0 where
  consistent mismatch unknown : ReconciliationStatus

-- `ConflictDiagnosis`
pub record ConflictDiagnosis : Type 0 where
  pub expected : Option String
  pub actual : Option String
  pub desired : Option String
  pub category : ConflictCategory
  pub safe_to_retry : Bool
  pub requires_manual_review : Bool
  pub detail : String

-- `DeploymentReconciliation`, without its free-form findings
pub record DeploymentReconciliation : Type 0 where
  pub deployment_id : String
  pub metric_definition_id : String
  pub metric_version_id : String
  pub registry_active_version_id : Option String
  pub registry_active_version : Option Version
  pub production_runtime_state : RuntimeState
  pub production_active_version_id : Option String
  pub production_active_version : Option Version
  pub environment_fingerprint_hash : Option String
  pub runtime_identity : Option String
  pub provider_application_id : Option String
  pub status : ReconciliationStatus
  pub observed_at : ℕ

-- `DesiredRuntimeState`
pub record DesiredRuntimeState : Type 0 where
  pub desired_state_id : String
  pub metric_definition_id : String
  pub metric_key : String
  pub environment_id : String
  pub desired_metric_version_id : String
  pub desired_version : Version
  pub source : DesiredStateSource
  pub source_action_id : String
  pub source_deployment_id : Option String
  pub established_by : String
  pub established_at : ℕ
  pub detail : Option String

-- `ProductionDeployment`, the fields that the comparison reads
pub record DeploymentIdentity : Type 0 where
  pub deployment_id : String
  pub metric_definition_id : String
  pub metric_version_id : String
  pub metric_key : String
  pub environment_id : String
  pub environment_fingerprint_hash : Option String

-- `ProductionConvergence`; the moment of observation is set by its caller's clock
pub record ProductionConvergence : Type 0 where
  pub deployment_id : String
  pub metric_definition_id : String
  pub metric_version_id : String
  pub metric_key : String
  pub environment_id : String
  pub desired_state_id : Option String
  pub desired_metric_version_id : Option String
  pub desired_version : Option Version
  pub desired_source : Option DesiredStateSource
  pub registry_active_version_id : Option String
  pub registry_active_version : Option Version
  pub runtime_active_version_id : Option String
  pub runtime_active_version : Option Version
  pub runtime_state : RuntimeState
  pub runtime_identity : Option String
  pub environment_fingerprint_hash : Option String
  pub convergence_state : ConvergenceState
  pub target_already_satisfied : Bool
  pub conflict : Option ConflictDiagnosis
  pub possible_actions : List ConvergenceAction
  pub recommended_action : ConvergenceAction
  pub rationale : String
