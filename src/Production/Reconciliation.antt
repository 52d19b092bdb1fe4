-- ===== src/Production/Reconciliation.antt =====
-- The reconciliation plan (src/airi/production/reconciliation.py): the three-way plan with the
-- evidence around it, for a human to choose from.
use airi.Prelude.{
  String, ◌≡◌, refl, ◌≢◌, ◌↔◌, Bool, true, false, Option, List, [], ◌∷◌, arith, ◌⊎◌, inl, inr,
}
use airi.Core.{Version}
use airi.Registry.Models.{MetricVersion}
use airi.Production.Models.{
  RuntimeState, ConvergenceState, ConvergenceAction, DesiredStateSource, ReconciliationStatus,
  DeploymentReconciliation, DesiredRuntimeState, DeploymentIdentity, no_op, manual_investigation,
}
use airi.Production.Convergence.{offers}
use airi.Production.Convergence.Plan.{
  plan_triple, look_up, version_of, id_of, desired_active, desired_version_of, source_of,
}
use airi.Production.Convergence.Soundness.{plan_triple-possible, plan_triple-recommends_offered}

-- `ReconciliationPlan`; its `conflict` is set by its caller
pub record ReconciliationPlan : Type 0 where
  pub deployment_id : String
  pub metric_definition_id : String
  pub metric_version_id : String
  pub metric_key : String
  pub verdict : ConvergenceState
  pub registry_active_version_id : Option String
  pub registry_active_version : Option Version
  pub production_runtime_state : RuntimeState
  pub production_active_version_id : Option String
  pub production_active_version : Option Version
  pub environment_id : String
  pub environment_fingerprint_hash : Option String
  pub runtime_identity : Option String
  pub provider_application_id : Option String
  pub deployment_evidence_id : Option String
  pub latest_deployment_review_id : Option String
  pub rollback_review_ids : List String
  pub alert_ids : List String
  pub possible_actions : List ConvergenceAction
  pub recommended_action : ConvergenceAction
  pub rationale : String
  pub created_by : String
  pub desired_state_id : Option String
  pub desired_metric_version_id : Option String
  pub desired_version : Option Version
  pub desired_source : Option DesiredStateSource
  pub convergence_state : ConvergenceState
  pub target_already_satisfied : Bool

-- `DeploymentReconciliation.status` of a re-observation
pub data RecoveryVerification : Type 0 where
  verified still_mismatch not_verified : RecoveryVerification

-- `convergence_status`
unfoldable pub convergence_status : DeploymentReconciliation → RecoveryVerification
convergence_status after = elim after.status [
  | ReconciliationStatus.consistent ↦ RecoveryVerification.verified
  | ReconciliationStatus.mismatch ↦ RecoveryVerification.still_mismatch
  | ReconciliationStatus.unknown ↦ RecoveryVerification.not_verified
]

-- `"converged" if reconciliation.status == "consistent" else state`
abbrev pub verdict_of : ReconciliationStatus → ConvergenceState → ConvergenceState
verdict_of ReconciliationStatus.consistent state = ConvergenceState.converged
verdict_of _ state = state

-- The evidence around a plan: identifiers of rows that belong to the production service.
pub record PlanEvidence : Type 0 where
  pub deployment_evidence_id : Option String
  pub latest_deployment_review_id : Option String
  pub rollback_review_ids : List String
  pub alert_ids : List String
  pub created_by : String

-- `build_reconciliation_plan`; the adapter's name is logged by its caller and not read
unfoldable pub build_reconciliation_plan :
    DeploymentIdentity
    → DeploymentReconciliation
    → PlanEvidence
    → (String → Option MetricVersion)
    → Bool
    → Bool
    → Option DesiredRuntimeState
    → ReconciliationPlan
unfolding plan_triple look_up
build_reconciliation_plan d r e version_lookup authoritative supports_recovery desired =
    let plan =
      plan_triple desired r d.metric_version_id version_lookup authoritative supports_recovery in
    record {
      deployment_id = d.deployment_id;
      metric_definition_id = d.metric_definition_id;
      metric_version_id = d.metric_version_id;
      metric_key = d.metric_key;
      verdict = verdict_of r.status plan.state;
      registry_active_version_id = r.registry_active_version_id;
      registry_active_version = r.registry_active_version;
      production_runtime_state = r.production_runtime_state;
      production_active_version_id = r.production_active_version_id;
      production_active_version =
          version_of (look_up version_lookup r.production_active_version_id);
      environment_id = d.environment_id;
      environment_fingerprint_hash = d.environment_fingerprint_hash;
      runtime_identity = r.runtime_identity;
      provider_application_id = r.provider_application_id;
      deployment_evidence_id = e.deployment_evidence_id;
      latest_deployment_review_id = e.latest_deployment_review_id;
      rollback_review_ids = e.rollback_review_ids;
      alert_ids = e.alert_ids;
      possible_actions = plan.possible;
      recommended_action = plan.action;
      rationale = plan.rationale;
      created_by = e.created_by;
      desired_state_id = id_of desired;
      desired_metric_version_id = desired_active desired;
      desired_version = desired_version_of desired;
      desired_source = source_of desired;
      convergence_state = plan.state;
      target_already_satisfied = plan.satisfied;
    }

verdicts :
    (status : ReconciliationStatus) (state : ConvergenceState)
    → (verdict_of status state ≡ state)
      ⊎ ((status ≡ ReconciliationStatus.consistent)
          × (verdict_of status state ≡ ConvergenceState.converged)
          × (state ≢ ConvergenceState.converged))
verdicts ReconciliationStatus.consistent ConvergenceState.converged = inl refl
verdicts ReconciliationStatus.consistent ConvergenceState.mismatch = inr (refl, refl, λ e. cc)
verdicts ReconciliationStatus.consistent ConvergenceState.unknown = inr (refl, refl, λ e. cc)
verdicts ReconciliationStatus.mismatch state = inl refl
verdicts ReconciliationStatus.unknown state = inl refl

no_op-state :
    (state : ConvergenceState) (possible : List ConvergenceAction) (action : ConvergenceAction)
    → ((state ≡ ConvergenceState.converged) × (possible ≡ no_op ∷ []) × (action ≡ no_op))
      ⊎ ((state ≡ ConvergenceState.unknown)
          × (possible ≡ manual_investigation ∷ [])
          × (action ≡ manual_investigation))
      ⊎ ((state ≡ ConvergenceState.mismatch)
          × (offers no_op possible ≡ false)
          × (offers manual_investigation possible ≡ true))
    → offers action possible ≡ true
    → (action ≡ no_op) ↔ (state ≡ ConvergenceState.converged)
no_op-state state possible action shape offered = ground arith

module _ (d : DeploymentIdentity) (r : DeploymentReconciliation) (e : PlanEvidence)
    (lookup : String → Option MetricVersion) (authoritative supports_recovery : Bool)
    (desired : Option DesiredRuntimeState) where
  abbrev built : ReconciliationPlan
  built = build_reconciliation_plan d r e lookup authoritative supports_recovery desired

  -- The two verdicts of a plan differ only where the registry and the runtime agree with each other
  -- and the three-way comparison finds no convergence; the old verdict is `converged` then, while
  -- the plan recommends an action other than the no-op. In every case the plan recommends the no-op
  -- exactly when the three-way state is converged.
  pub build_reconciliation_plan-verdicts :
      ((built.verdict ≡ built.convergence_state)
        ⊎ ((r.status ≡ ReconciliationStatus.consistent)
            × (built.verdict ≡ ConvergenceState.converged)
            × (built.convergence_state ≢ ConvergenceState.converged)))
      × ((built.recommended_action ≡ no_op)
          ↔ (built.convergence_state ≡ ConvergenceState.converged))
  unfolding build_reconciliation_plan
  build_reconciliation_plan-verdicts =
      let plan = plan_triple desired r d.metric_version_id lookup authoritative supports_recovery in
      (
        verdicts r.status plan.state,
        no_op-state plan.state plan.possible plan.action
            (plan_triple-possible desired r d.metric_version_id lookup authoritative
              supports_recovery)
            (plan_triple-recommends_offered desired r d.metric_version_id lookup authoritative
              supports_recovery),
      )
