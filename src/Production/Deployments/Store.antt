-- ===== src/Production/Deployments/Store.antt =====
-- The tables of production (src/airi/production/persistence.py) beside the registry's, and what a
-- call leaves behind. A service call may commit several times: its outcome is the store of its last
-- commit, with what it returned or raised.
use airi.Prelude.{ℕ, String, Bool, Option, List, Table, Result, ok, err}
use airi.Approvals.Service.{ArtifactRow}
use airi.Registry.Store.{Store}
use airi.Registry.Session.{RegistryError}
use airi.Production.Models.{DesiredRuntimeState}
use airi.Production.Gate.Requirements.{EmergencyOverride, EnvironmentKind}
use airi.Production.Gate.Decision.{GateDecision}
use airi.Production.Identity.{IdentityError}
use airi.Production.Deployments.Models.{
  ExecutionMode, RuntimeMode, ProductionEnvironmentProfile, Fingerprint, RuntimeBinding,
  ReviewDecision, DeploymentReview, RollbackDecision, RollbackStatus, RegistryReconciliation,
  RollbackReview, DeploymentStatus, ProductionDeployment,
}

-- `ProductionEnvironmentProfileRow`
pub record EnvironmentRow : Type 0 where
  pub name : String
  pub environment_kind : EnvironmentKind
  pub execution_mode : ExecutionMode
  pub deployment_enabled : Bool
  pub verified : Bool
  pub profile_json : ProductionEnvironmentProfile
  pub created_at : ℕ

-- `ProductionEnvironmentFingerprintRow`
pub record FingerprintRow : Type 0 where
  pub environment_id : String
  pub fingerprint_hash : String
  pub fingerprint_json : Fingerprint
  pub observed_at : ℕ

-- `EnvironmentValidationRow` of src/airi/environments/persistence.py, what registration reads
pub record EnvironmentValidation : Type 0 where
  pub for_production : Bool
  pub passed : Bool

-- `ProductionDeploymentRow`
pub record DeploymentRow : Type 0 where
  pub metric_definition_id : String
  pub metric_version_id : String
  pub release_id : String
  pub environment_id : String
  pub status : DeploymentStatus
  pub deployment_package_hash : String
  pub provider_job_id : Option String
  pub runtime_mode : RuntimeMode
  pub production_deployed : Bool
  pub runtime_binding_json : Option RuntimeBinding
  pub deployment_json : ProductionDeployment
  pub created_at : ℕ
  pub updated_at : ℕ
  pub deployed_at : Option ℕ
  pub rolled_back_at : Option ℕ

-- `ProductionDeploymentReviewRow`
pub record DeploymentReviewRow : Type 0 where
  pub deployment_id : String
  pub metric_version_id : String
  pub decision : ReviewDecision
  pub reviewer : Option String
  pub comment : Option String
  pub package_hash : String
  pub review_json : DeploymentReview
  pub review_hash : String
  pub created_at : ℕ
  pub reviewed_at : Option ℕ

-- `ProductionRollbackReviewRow`
pub record RollbackReviewRow : Type 0 where
  pub deployment_id : String
  pub decision : RollbackDecision
  pub production_rollback_status : RollbackStatus
  pub registry_reconciliation_status : RegistryReconciliation
  pub runtime_verified : Bool
  pub review_json : RollbackReview
  pub created_at : ℕ
  pub reviewed_at : Option ℕ

-- `ProductionDeploymentEvidenceRow`
pub record EvidenceRow : Type 0 where
  pub deployment_id : String
  pub metric_version_id : String
  pub deployed : Bool
  pub status_confirmed : Bool
  pub production_deployed : Bool
  pub observed_at : ℕ

-- `DeploymentEventType`, the events of this flow
pub data ProductionEvent : Type 0 where
  production_environment_registered production_environment_verified runtime_identity_verified
        production_preflight_validated production_shadow_started production_shadow_validated
        production_deployment_approved production_deployed rollback_started production_rolled_back
        deployment_reconciled deployment_reconciliation_required
        production_deployment_evidence_recorded production_rollback_preflight_validated
        desired_runtime_state_established convergence_already_satisfied
        convergence_conflict_diagnosed verification_gate_blocked verification_gate_passed :
      ProductionEvent

-- `MetricReleaseEventRow` of a production event; the source keeps both kinds in one table
pub record AuditRow : Type 0 where
  pub scope : String
  pub event : ProductionEvent
  pub actor : String
  pub metric_version_id : Option String
  pub release_id : Option String
  pub created_at : ℕ

pub record ProductionStore : Type 0 where
  pub registry : Store
  pub artifacts : Table ArtifactRow
  pub environment_validations : Table EnvironmentValidation
  pub environments : Table EnvironmentRow
  pub fingerprints : Table FingerprintRow
  pub deployments : Table DeploymentRow
  pub reviews : Table DeploymentReviewRow
  pub rollbacks : Table RollbackReviewRow
  pub desired_states : List DesiredRuntimeState
  pub evidence : List EvidenceRow
  pub overrides : List EmergencyOverride
  pub gate_decisions : List GateDecision
  pub audit : List AuditRow

-- The codes of `ProductionError`, and the errors of what the service calls: the registry, the
-- identity boundary, the package builder, the adapter, and a document that fails its own schema.
pub data ProductionError : Type 0 where
  registry_error : RegistryError → ProductionError
  identity_error : IdentityError → ProductionError
  synthetic_production_profile_forbidden synthetic_profile_requires_mock_execution
        production_environment_already_registered environment_validation_not_found
        environment_fingerprint_not_applicable production_runtime_unreachable
        production_environment_not_found production_environment_integrity_error
        production_environment_not_verified production_environment_fingerprint_required
        production_environment_fingerprint_not_verified release_not_approved_for_deployment
        release_review_not_approved release_validation_failed release_not_eligible
        version_already_in_production_flow deployment_package_integrity_error
        production_deployment_not_found production_deployment_integrity_error
        production_deployment_review_not_found production_deployment_evidence_changed
        production_deployment_state_invalid production_deployment_not_preflightable
        production_preflight_failed production_deployment_not_shadowable production_shadow_failed
        production_deployment_review_already_exists production_deployment_not_ready_for_review
        production_shadow_not_passed production_deployment_review_already_decided
        production_deployment_not_approved production_deployment_review_missing
        production_deployment_review_not_approved production_verification_gate_blocked
        production_deployment_status_unconfirmed production_deployment_failed
        production_adapter_unavailable invalid_document integrity_error
        production_rollback_review_not_found production_deployment_not_rollbackable
        rollback_target_already_active production_rollback_preflight_failed
        production_rollback_already_decided production_rollback_failed
        rollback_reconciliation_required :
      ProductionError

abbrev pub Outcome : Type 0 → Type 0
Outcome A = Result ProductionError A

-- what a call leaves: the store of its last commit, and its return or its raise
pub record Committed (A : Type 0) : Type 0 where
  pub store : ProductionStore
  pub result : Outcome A

-- a call, or the rest of one after a commit: a raise before its next commit leaves the store as it is
abbrev pub since : {A : Type 0} → ProductionStore → Outcome (Committed A) → Committed A
since st (ok c) = c
since st (err e) = record { store = st; result = err e }

-- `session.commit()` with the return or the raise that follows it
abbrev pub commit : {A : Type 0} → ProductionStore → Outcome A → Outcome (Committed A)
commit st r = ok (record { store = st; result = r })

-- an error of the registry, or of the identity boundary, passes through
abbrev pub from_registry : {A : Type 0} → Result RegistryError A → Outcome A
from_registry (ok a) = ok a
from_registry (err e) = err (registry_error e)

abbrev pub from_identity : {A : Type 0} → Result IdentityError A → Outcome A
from_identity (ok a) = ok a
from_identity (err e) = err (identity_error e)
