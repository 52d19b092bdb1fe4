-- ===== src/Production/Examples.antt =====
-- The production theorems at concrete inputs, and runs of the comparison and of the gate.
use airi.Prelude.{
  String, ◌≡◌, refl, ◌≢◌, ◌↔◌, ◌⊎◌, Bool, true, false, Option, none, some, [], ◌∷◌, contains,
  str_eq, opt_eq, sorted_set,
}
use airi.Registry.Models.{MetricVersion}
use airi.Production.Models.{
  RuntimeState, ConvergenceState, DesiredStateSource, ReconciliationStatus,
  DeploymentReconciliation, DesiredRuntimeState, no_op, manual_investigation, registry_to_runtime,
}
use airi.Production.Convergence.{
  diagnose_conflict, three_way_state, offers, available_actions, observed_runtime_state,
}
use airi.Production.Convergence.Plan.{plan_triple}
use airi.Production.Convergence.Soundness.{
  diagnose_conflict-safe_to_retry, three_way_state-converged, plan_triple-recommends_offered,
  plan_triple-possible, plan_triple-registry_to_runtime,
}
use airi.Production.Models.{DeploymentIdentity}
use airi.Production.Reconciliation.{
  ReconciliationPlan, PlanEvidence, build_reconciliation_plan, build_reconciliation_plan-verdicts,
}
use airi.Production.Gate.Requirements.{
  EnvironmentKind, EmergencyOverride, rollback, enforced, blocked, allowed_with_override,
  resolve_enforcement_mode, effective_waivers,
}
use airi.Production.Gate.Decision.{
  GateInput, section_status, sections_of, is_verified, capability, protected_failures, mode_of,
  missing_requirements, evaluate_verification_gate,
}
use airi.Production.Gate.Soundness.{
  Waived, protected_failures-block, enforced_sections, enforced_capabilities,
}
use airi.Production.Gate.Passing.{
  IsAuthorized, IsLenient, IsEvidenced, evaluate_verification_gate-passes,
}

abbrev v1 : Option String
v1 = some "v1"

abbrev v2 : Option String
v2 = some "v2"

diagnose_conflict-safe_to_retry_example :
    ((diagnose_conflict v1 v1 v2 RuntimeState.active).safe_to_retry ≡ true)
    ↔ ((RuntimeState.active ≢ RuntimeState.unknown) × (v1 ≡ v1) × ((v2 ≡ none) ⊎ (v1 ≢ v2)))
diagnose_conflict-safe_to_retry_example =
    diagnose_conflict-safe_to_retry v1 v1 v2 RuntimeState.active

three_way_state-converged_example :
    ((three_way_state RuntimeState.active v2 v2 v2).0 ≡ ConvergenceState.converged)
    ↔ ((RuntimeState.active ≢ RuntimeState.unknown) × (v2 ≡ v2) × ((v2 ≡ none) ⊎ (v2 ≡ v2)))
three_way_state-converged_example = three_way_state-converged RuntimeState.active v2 v2 v2

-- The registry points at the desired `v2` and the runtime still runs `v1`.
abbrev lagging : DeploymentReconciliation
lagging = record {
  deployment_id = "d";
  metric_definition_id = "m";
  metric_version_id = "v2";
  registry_active_version_id = some "v2";
  registry_active_version = some (record { major = 2; minor = 0; patch = 0 });
  production_runtime_state = RuntimeState.active;
  production_active_version_id = some "v1";
  production_active_version = none;
  environment_fingerprint_hash = none;
  runtime_identity = none;
  provider_application_id = none;
  status = ReconciliationStatus.mismatch;
  observed_at = 100;
}

abbrev wanted : DesiredRuntimeState
wanted = record {
  desired_state_id = "s";
  metric_definition_id = "m";
  metric_key = "invoice_amount";
  environment_id = "prod";
  desired_metric_version_id = "v2";
  desired_version = record { major = 2; minor = 0; patch = 0 };
  source = DesiredStateSource.deployment;
  source_action_id = "a";
  source_deployment_id = some "d";
  established_by = "ops";
  established_at = 50;
  detail = none;
}

abbrev no_versions : String → Option MetricVersion
no_versions id = none

abbrev lagging_plan : ConvergenceState × Bool
lagging_plan =
    let plan = plan_triple (some wanted) lagging "v2" no_versions true true in
    (plan.state, offers registry_to_runtime plan.possible)

lagging-realigned : lagging_plan ≡ (ConvergenceState.mismatch, true)
unfolding plan_triple offers three_way_state available_actions observed_runtime_state opt_eq
lagging-realigned = refl

plan_triple-recommends_offered_example :
    let plan = plan_triple (some wanted) lagging "v2" no_versions true true in
    offers plan.action plan.possible ≡ true
plan_triple-recommends_offered_example =
    plan_triple-recommends_offered (some wanted) lagging "v2" no_versions true true

plan_triple-possible_example :
    let plan = plan_triple none lagging "v1" no_versions true true in
    ((plan.state ≡ ConvergenceState.converged)
      × (plan.possible ≡ no_op ∷ [])
      × (plan.action ≡ no_op))
    ⊎ ((plan.state ≡ ConvergenceState.unknown)
        × (plan.possible ≡ manual_investigation ∷ [])
        × (plan.action ≡ manual_investigation))
    ⊎ ((plan.state ≡ ConvergenceState.mismatch)
        × (offers no_op plan.possible ≡ false)
        × (offers manual_investigation plan.possible ≡ true))
plan_triple-possible_example = plan_triple-possible none lagging "v1" no_versions true true

plan_triple-registry_to_runtime_example :
    ((plan_triple (some wanted) lagging "v2" no_versions true true).state
      ≡ ConvergenceState.mismatch)
    × (true ≡ true)
    × (true ≡ true)
    × (v2 ≡ v2)
unfolding plan_triple offers three_way_state available_actions observed_runtime_state opt_eq
plan_triple-registry_to_runtime_example =
    plan_triple-registry_to_runtime (some wanted) lagging "v2" no_versions true true refl

-- An enforced rollback without a report, under an override that waives its three sections.
abbrev waiver : EmergencyOverride
waiver = record {
  emergency_override_id = "o";
  action = rollback;
  deployment_id = some "d";
  environment_id = none;
  reason = "incident";
  requested_by = "alice";
  approved_by = "bob";
  waives = "adapter" ∷ "environment" ∷ "identity" ∷ [];
  expires_at = 900;
}

abbrev rollback_request : GateInput
rollback_request = record {
  action = rollback;
  deployment_id = "d";
  environment_id = "prod";
  environment_kind = EnvironmentKind.production;
  profile = record {
    environment_id = "prod";
    environment_kind = EnvironmentKind.production;
    synthetic_profile = false;
  };
  report = none;
  capabilities = ("rollback_capability", true) ∷ [];
  integrity_failures = [];
  actor_authenticated = true;
  actor_trusted = true;
  trust_boundary_configured = true;
  configured_mode = "auto";
  override = some waiver;
  policy_version = "1.0.0";
  decided_by = some "bob";
}

abbrev tampered_request : GateInput
tampered_request = record rollback_request { integrity_failures = "package_integrity" ∷ [] }

rollback-waived : (evaluate_verification_gate rollback_request).result ≡ allowed_with_override
unfolding evaluate_verification_gate contains str_eq protected_failures resolve_enforcement_mode
    missing_requirements sorted_set section_status capability effective_waivers
rollback-waived = refl

protected_failures-block_example : (evaluate_verification_gate tampered_request).result ≡ blocked
unfolding protected_failures
protected_failures-block_example = protected_failures-block tampered_request (λ e. cc)

evaluate_verification_gate-passes_example :
    ((evaluate_verification_gate rollback_request).result ≢ blocked)
    ↔ (IsAuthorized rollback_request × (IsLenient rollback_request ⊎ IsEvidenced rollback_request))
evaluate_verification_gate-passes_example = evaluate_verification_gate-passes rollback_request

rollback-not_blocked : (evaluate_verification_gate rollback_request).result ≢ blocked
rollback-not_blocked h = cc (rollback-waived, h)

rollback-enforced : mode_of rollback_request ≡ enforced
unfolding resolve_enforcement_mode str_eq
rollback-enforced = refl

enforced_sections_example :
    (is_verified (section_status "adapter" (sections_of rollback_request.report)) ≡ true)
    ⊎ Waived rollback_request "adapter"
unfolding contains str_eq
enforced_sections_example =
    enforced_sections rollback_request "adapter" rollback-enforced rollback-not_blocked refl

enforced_capabilities_example :
    capability "rollback_capability" rollback_request.capabilities ≡ true
unfolding contains str_eq
enforced_capabilities_example =
    enforced_capabilities rollback_request "rollback_capability" rollback-enforced
      rollback-not_blocked refl

-- Registry and runtime agree on `v1` while `v2` is desired: the two verdicts of the plan differ.
abbrev agreeing : DeploymentReconciliation
agreeing = record lagging {
  registry_active_version_id = some "v1";
  status = ReconciliationStatus.consistent;
}

abbrev deployed : DeploymentIdentity
deployed = record {
  deployment_id = "d";
  metric_definition_id = "m";
  metric_version_id = "v2";
  metric_key = "invoice_amount";
  environment_id = "prod";
  environment_fingerprint_hash = none;
}

abbrev plan_evidence : PlanEvidence
plan_evidence = record {
  deployment_evidence_id = none;
  latest_deployment_review_id = none;
  rollback_review_ids = [];
  alert_ids = [];
  created_by = "ops";
}

abbrev two_verdicts : ReconciliationPlan
two_verdicts =
    build_reconciliation_plan deployed agreeing plan_evidence no_versions true true (some wanted)

verdicts-differ :
    (two_verdicts.verdict ≡ ConvergenceState.converged)
    × (two_verdicts.convergence_state ≡ ConvergenceState.mismatch)
unfolding build_reconciliation_plan three_way_state observed_runtime_state opt_eq
verdicts-differ = (refl, refl)

build_reconciliation_plan-verdicts_example :
    ((two_verdicts.verdict ≡ two_verdicts.convergence_state)
      ⊎ ((ReconciliationStatus.consistent ≡ ReconciliationStatus.consistent)
          × (two_verdicts.verdict ≡ ConvergenceState.converged)
          × (two_verdicts.convergence_state ≢ ConvergenceState.converged)))
    × ((two_verdicts.recommended_action ≡ no_op)
        ↔ (two_verdicts.convergence_state ≡ ConvergenceState.converged))
build_reconciliation_plan-verdicts_example =
    build_reconciliation_plan-verdicts deployed agreeing plan_evidence no_versions true true
      (some wanted)
