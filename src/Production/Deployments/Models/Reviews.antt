-- ===== src/Production/Deployments/Models/Reviews.antt =====
-- The human reviews of a deployment and of its rollback (src/airi/production/models.py).
use airi.Prelude.{ℕ, String, Bool, Option, List}
use airi.Core.{Version}
use airi.Production.Models.{ConflictDiagnosis}
use airi.Production.Identity.{Role, AuthSource}
use airi.Production.Deployments.Models.Evidence.{PreflightResult}

pub data ReviewDecision : Type 0 where
  pending approved rejected need_more_evidence : ReviewDecision

-- an entry of `previous_decisions`
pub record PreviousDecision : Type 0 where
  pub decision : ReviewDecision
  pub reviewer : Option String
  pub comment : Option String

-- `ProductionDeploymentReview`
pub record DeploymentReview : Type 0 where
  pub deployment_review_id : String
  pub deployment_id : String
  pub metric_version_id : String
  pub decision : ReviewDecision
  pub reviewer : Option String
  pub reviewer_actor_id : Option String
  pub reviewer_roles : List Role
  pub reviewer_auth_source : Option AuthSource
  pub reviewer_issuer : Option String
  pub comment : Option String
  pub package_hash : String
  pub previous_decisions : List PreviousDecision
  pub created_at : ℕ
  pub reviewed_at : Option ℕ

-- the decisions that `DeploymentReviewDecision` admits
pub data Verdict : Type 0 where
  approved rejected need_more_evidence : Verdict

-- `DeploymentReviewDecision`
pub record ReviewRequest : Type 0 where
  pub decision : Verdict
  pub comment : String

pub data RollbackDecision : Type 0 where
  pending approved rejected : RollbackDecision

pub data RollbackStatus : Type 0 where
  not_started started succeeded failed : RollbackStatus

pub data RegistryReconciliation : Type 0 where
  pending reconciled required skipped already_satisfied : RegistryReconciliation

-- `ProductionRollbackReview`
pub record RollbackReview : Type 0 where
  pub rollback_review_id : String
  pub deployment_id : String
  pub metric_definition_id : String
  pub metric_key : String
  pub from_version_id : String
  pub from_version : Version
  pub to_version_id : String
  pub to_version : Version
  pub reason : String
  pub preflight : PreflightResult
  pub decision : RollbackDecision
  pub reviewer : Option String
  pub reviewer_actor_id : Option String
  pub reviewer_roles : List Role
  pub reviewer_auth_source : Option AuthSource
  pub comment : Option String
  pub production_rollback_status : RollbackStatus
  pub registry_reconciliation_status : RegistryReconciliation
  pub runtime_verified : Bool
  pub provider_job_id : Option String
  pub environment_fingerprint_hash : Option String
  pub created_at : ℕ
  pub reviewed_at : Option ℕ
  pub no_action_required : Bool
  pub conflict_diagnosis : Option ConflictDiagnosis
