-- ===== src/Production/Deployments/Deploying.antt =====
-- The deployment to the provider (src/airi/production/service.py, DeploymentService.deploy and
-- _record_deployment_evidence). The adapter's answers are parameters of the call.
mod Handover
use Prim.Native.String.{String}
use airi.Prelude.{
  ℕ, Bool, true, false, not, ◌&&◌, ◌||◌, Option, none, some, List, [], ◌∷◌, ◌++◌, if◌then◌else◌,
  str_eq, opt_eq, is_some, keep, sorted_set, ok, err, ◌>>=◌, ◌>>◌, raise_if,
}
use airi.MetricIr.Models.{is_empty}
use airi.Production.Models.{RuntimeState}
use airi.Production.Gate.Requirements.{GateAction}
use airi.Production.Identity.{ActorIdentity, authorize, request_production_deployment}
use airi.Production.Deployments.Models.{
  RuntimeMode, DeploymentPackage, RuntimeBinding, ReviewDecision, DeploymentStatus,
  ProductionDeployment,
}
use airi.Production.Deployments.Store.{
  EvidenceRow, ProductionEvent, ProductionStore, Outcome, Committed, since, commit, from_identity,
  production_deployment_not_approved, production_deployment_review_missing,
  production_deployment_review_not_approved, deployment_package_integrity_error,
  production_shadow_not_passed, production_verification_gate_blocked,
  production_deployment_status_unconfirmed, production_deployment_failed,
}
use airi.Production.Deployments.Packaging.{Digests, package_failures}
use airi.Production.Deployments.Environments.{log_event, require_deployable, latest_fingerprint}
use airi.Production.Deployments.Session.{
  same_status, same_decision, shadow_passed, deployment, review, transition, validated, write,
}
use airi.Production.Deployments.Creation.{AdapterFacts}
use airi.Production.Deployments.Gatekeeping.{GateSettings, is_blocked, evaluate_gate}
unfoldable pub use Handover.*

abbrev review_id_of : ProductionDeployment → Outcome String
review_id_of d = elim d.review_id [
  | none ↦ err production_deployment_review_missing
  | some id ↦ ok id
]

module _ (D : Digests) where
  -- the conditions that `deploy` checks before the gate
  unfoldable pub ready : ProductionStore → ProductionDeployment → Outcome (Unit {0})
  ready st d = do
    raise_if (not (same_status d.status DeploymentStatus.approved))
        production_deployment_not_approved
    r ← review st (← review_id_of d)
    raise_if (not (same_decision r.decision ReviewDecision.approved))
        production_deployment_review_not_approved
    profile ← require_deployable st d.environment_id
    fingerprint ← latest_fingerprint st d.environment_id
    failures ← package_failures D st d.handover profile fingerprint
    raise_if (not (is_empty failures)) deployment_package_integrity_error
    raise_if (not (shadow_passed d.shadow)) production_shadow_not_passed

  -- `DeploymentService.deploy`
  unfoldable pub deploy :
      ℕ
      → String
      → GateSettings
      → AdapterFacts
      → DeployAnswers
      → ProductionStore
      → String
      → ActorIdentity
      → Committed ProductionDeployment
  unfolding ready hand_over
  deploy now evidence_id settings adapter answers st id identity = since st (do
    from_identity (authorize identity request_production_deployment)
    d ← deployment D st id
    elim (same_status d.status DeploymentStatus.deployed
        || same_status d.status DeploymentStatus.monitoring) [
          | true ↦ commit st (ok d)
          | false ↦ do
            ready st d
            (st₁, gate) ← evaluate_gate D now settings adapter st d GateAction.deploy identity
            elim (is_blocked gate.result) [
              | true ↦ commit st₁ (err production_verification_gate_blocked)
              | false ↦ hand_over now evidence_id adapter answers st₁ d identity
            ]
        ])
