-- ===== src/Production/Convergence/Plan.antt =====
-- The whole comparison in one call, and the read-only three-way view
-- (src/airi/production/convergence.py).
use airi.Prelude.{String, Bool, Option, none, some, List, if◌then◌else◌, is_some, truthy}
use airi.Core.{Version}
use airi.Registry.Models.{MetricVersion}
use airi.Production.Models.{
  ConvergenceState, ConvergenceAction, ConflictDiagnosis, DesiredStateSource,
  DeploymentReconciliation, DesiredRuntimeState, DeploymentIdentity, ProductionConvergence,
  registry_to_runtime, runtime_to_registry,
}
use airi.Production.Convergence.{
  ActionEvidence, three_way_state, observed_runtime_state, available_actions, recommend, offers,
}

-- `version_lookup(id) if id else None`
unfoldable pub look_up : (String → Option MetricVersion) → Option String → Option MetricVersion
unfolding truthy
look_up version_lookup none = none
look_up version_lookup (some s) = if truthy (some s) then version_lookup s else none

abbrev pub desired_active : Option DesiredRuntimeState → Option String
desired_active none = none
desired_active (some d) = some d.desired_metric_version_id

-- the tuple that `plan_triple` returns
pub record Plan : Type 0 where
  pub state : ConvergenceState
  pub satisfied : Bool
  pub possible : List ConvergenceAction
  pub action : ConvergenceAction
  pub rationale : String

-- The evidence that `plan_triple` hands to `available_actions`.
pub evidence_of :
    Option DesiredRuntimeState
    → DeploymentReconciliation
    → String
    → (String → Option MetricVersion)
    → Bool
    → Bool
    → ActionEvidence
unfolding look_up
evidence_of desired r deployment_version_id version_lookup authoritative supports_recovery =
    record {
      registry_version_id = r.registry_active_version_id;
      runtime_version_id = r.production_active_version_id;
      desired_version_id = desired_active desired;
      deployment_version_id = deployment_version_id;
      runtime_version_known = is_some (look_up version_lookup r.production_active_version_id);
      adapter_authoritative = authoritative;
      adapter_supports_recovery = supports_recovery;
    }

unfoldable pub plan_triple :
    Option DesiredRuntimeState
    → DeploymentReconciliation
    → String
    → (String → Option MetricVersion)
    → Bool
    → Bool
    → Plan
unfolding evidence_of
plan_triple desired r deployment_version_id version_lookup authoritative supports_recovery =
    let evidence =
      evidence_of desired r deployment_version_id version_lookup authoritative supports_recovery in
    let (state, satisfied) =
      three_way_state (observed_runtime_state r) (desired_active desired)
        r.registry_active_version_id r.production_active_version_id in
    let possible = available_actions state evidence in
    let (action, rationale) =
      recommend state (offers registry_to_runtime possible) (offers runtime_to_registry possible) in
    record {
      state = state;
      satisfied = satisfied;
      possible = possible;
      action = action;
      rationale = rationale;
    }

abbrev pub version_of : Option MetricVersion → Option Version
version_of none = none
version_of (some v) = some v.version

abbrev pub id_of : Option DesiredRuntimeState → Option String
id_of none = none
id_of (some d) = some d.desired_state_id

abbrev pub desired_version_of : Option DesiredRuntimeState → Option Version
desired_version_of none = none
desired_version_of (some d) = some d.desired_version

abbrev pub source_of : Option DesiredRuntimeState → Option DesiredStateSource
source_of none = none
source_of (some d) = some d.source

pub build_convergence :
    DeploymentIdentity
    → DeploymentReconciliation
    → Option DesiredRuntimeState
    → (String → Option MetricVersion)
    → Bool
    → Bool
    → Option ConflictDiagnosis
    → ProductionConvergence
unfolding plan_triple look_up
build_convergence d r desired version_lookup authoritative supports_recovery conflict =
    let plan =
      plan_triple desired r d.metric_version_id version_lookup authoritative supports_recovery in
    record {
      deployment_id = d.deployment_id;
      metric_definition_id = d.metric_definition_id;
      metric_version_id = d.metric_version_id;
      metric_key = d.metric_key;
      environment_id = d.environment_id;
      desired_state_id = id_of desired;
      desired_metric_version_id = desired_active desired;
      desired_version = desired_version_of desired;
      desired_source = source_of desired;
      registry_active_version_id = r.registry_active_version_id;
      registry_active_version = version_of (look_up version_lookup r.registry_active_version_id);
      runtime_active_version_id = r.production_active_version_id;
      runtime_active_version = version_of (look_up version_lookup r.production_active_version_id);
      runtime_state = observed_runtime_state r;
      runtime_identity = r.runtime_identity;
      environment_fingerprint_hash = r.environment_fingerprint_hash;
      convergence_state = plan.state;
      target_already_satisfied = plan.satisfied;
      conflict = conflict;
      possible_actions = plan.possible;
      recommended_action = plan.action;
      rationale = plan.rationale;
    }
