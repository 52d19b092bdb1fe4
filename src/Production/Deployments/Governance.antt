-- ===== src/Production/Deployments/Governance.antt =====
-- The invariant of the deployment tables (src/airi/production/service.py): what the status of a
-- deployment says of its evidence and of its review.
pub mod Checks
pub mod Deciding
pub mod Verdict
pub mod Observing
pub mod Answers
pub mod Handing
pub mod Stuck
pub mod Finality
pub mod Opening
pub mod Writes
use airi.Prelude.{
  ℕ, String, ◌≡◌, ◌≢◌, refl, sym, ap, subst, subst₂, ◌⊎◌, inl, inr, Bool, true, false, not, ◌&&◌,
  ◌||◌, Option, none, some, Option-cases, is_some, if◌then◌else◌, List, [], ◌∷◌, arith, str_eq,
  str_eq_iff, Table, get, put, get-put, put-cases, Distinct, put-Distinct, Bool-cases,
}
use airi.Production.Deployments.Models.{
  ReviewDecision, PreflightResult, DeploymentReview, DeploymentStatus, ProductionDeployment,
}
use airi.Production.Deployments.Store.{DeploymentRow, DeploymentReviewRow, ProductionStore}
use airi.Production.Deployments.Session.{shadow_passed, written_row}
use airi.Production.Deployments.Reviews.{review_of}

-- the statuses that a deployment reaches only through its preflight
unfoldable pub past_preflight : DeploymentStatus → Bool
past_preflight DeploymentStatus.created = false
past_preflight DeploymentStatus.failed = false
past_preflight _ = true

-- the statuses that it reaches only through its shadow and the opening of its review
unfoldable pub past_shadow : DeploymentStatus → Bool
past_shadow DeploymentStatus.pending_deployment_review = true
past_shadow DeploymentStatus.approved = true
past_shadow DeploymentStatus.deployed = true
past_shadow DeploymentStatus.monitoring = true
past_shadow _ = false

-- the statuses that it reaches only through an approval
unfoldable pub past_review : DeploymentStatus → Bool
past_review DeploymentStatus.approved = true
past_review DeploymentStatus.deployed = true
past_review DeploymentStatus.monitoring = true
past_review _ = false

abbrev pub preflight_passed : Option PreflightResult → Bool
preflight_passed none = false
preflight_passed (some p) = p.passed

-- the review that approves the very package of a deployment
abbrev pub HasApproval : Table DeploymentReviewRow → String → ProductionDeployment → Type 0
HasApproval reviews id d =
    (key : String) × (row : DeploymentReviewRow) × (d.review_id ≡ some key)
    × (get key reviews ≡ some row)
    × (row.decision ≡ ReviewDecision.approved)
    × (row.deployment_id ≡ id)
    × (row.package_hash ≡ d.handover.content_hash)

-- what the row of a deployment says
pub record IsSound (reviews : Table DeploymentReviewRow) (id : String) (row : DeploymentRow)
    : Type 0 where
  pub named : row.deployment_json.deployment_id ≡ id
  pub shown : row.status ≡ row.deployment_json.status
  pub packaged :
      row.deployment_json.environment_fingerprint_hash
      ≡ row.deployment_json.handover.environment_fingerprint_hash
  pub preflighted :
      past_preflight row.deployment_json.status ≡ true
      → (preflight_passed row.deployment_json.preflight ≡ true)
        × (row.deployment_json.handover.environment_fingerprint_hash ≡ none)
  pub shadowed :
      past_shadow row.deployment_json.status ≡ true
      → shadow_passed row.deployment_json.shadow ≡ true
  pub reviewed :
      past_review row.deployment_json.status ≡ true → HasApproval reviews id row.deployment_json
  pub undeployed : row.deployment_json.production_deployed ≡ false

-- the columns of a review's row that its document repeats
abbrev pub IsTrue : DeploymentReviewRow → Type 0
IsTrue row =
    (row.review_json.deployment_id ≡ row.deployment_id) × (row.decision ≡ row.review_json.decision)

-- what the row of a review says: it is the one that its deployment names
abbrev pub IsBound : Table DeploymentRow → String → DeploymentReviewRow → Type 0
IsBound deployments key row =
    (d : DeploymentRow) × (get row.deployment_id deployments ≡ some d)
    × (d.deployment_json.review_id ≡ some key)
    × IsTrue row

pub record Governed (deployments : Table DeploymentRow) (reviews : Table DeploymentReviewRow)
    : Type 0 where
  pub sound :
      (id : String) (row : DeploymentRow) → get id deployments ≡ some row → IsSound reviews id row
  pub bound :
      (key : String) (row : DeploymentReviewRow)
      → get key reviews ≡ some row
      → IsBound deployments key row
  pub distinct : Distinct reviews

-- the invariant of a store
abbrev pub IsGoverned : ProductionStore → Type 0
IsGoverned st = Governed st.deployments st.reviews
