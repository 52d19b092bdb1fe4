-- ===== src/Production/Convergence.antt =====
-- The three-way comparison of desired, registry and runtime state
-- (src/airi/production/convergence.py). Keyword arguments keep the source's order. The version
-- lookup of the registry is an argument, as it is in the source.
pub mod Plan
pub mod Health
pub mod Soundness
use airi.Prelude.{
  String, Bool, true, false, not, ◌&&◌, Option, none, some, List, [], ◌∷◌, keep, if◌then◌else◌,
  is_some, opt_eq, truthy, contains,
}
use airi.Production.Models.{
  RuntimeState, ConvergenceState, ConvergenceAction, ConflictCategory, ConvergenceVerdict,
  ProductionHealthStatus, ReconciliationStatus, ConflictDiagnosis, DeploymentReconciliation,
  DesiredRuntimeState, DeploymentIdentity, ProductionConvergence, no_op, registry_to_runtime,
  runtime_to_registry, manual_investigation,
}

abbrev pub is_unknown : RuntimeState → Bool
is_unknown RuntimeState.unknown = true
is_unknown _ = false

unfoldable pub diagnose_conflict :
    Option String → Option String → Option String → RuntimeState → ConflictDiagnosis
diagnose_conflict expected actual desired runtime_state =
    if is_unknown runtime_state
    then record {
      expected = expected;
      actual = actual;
      desired = desired;
      category = ConflictCategory.runtime_unknown;
      safe_to_retry = false;
      requires_manual_review = true;
      detail =
          "the production runtime did not report a state, so no compare-and-set outcome can be interpreted";
    }
    else if is_some desired && opt_eq actual desired
    then record {
      expected = expected;
      actual = actual;
      desired = desired;
      category = ConflictCategory.target_already_satisfied;
      safe_to_retry = false;
      requires_manual_review = false;
      detail =
          "the registry already points at the desired version; the failed expectation was stale, not the state. No recovery is required.";
    }
    else if not (opt_eq actual expected)
    then record {
      expected = expected;
      actual = actual;
      desired = desired;
      category = ConflictCategory.unexpected_external_change;
      safe_to_retry = false;
      requires_manual_review = true;
      detail =
          "the active version changed to something that is neither the expected nor the desired version; an external actor moved it";
    }
    else record {
      expected = expected;
      actual = actual;
      desired = desired;
      category = ConflictCategory.stale_expected_state;
      safe_to_retry = true;
      requires_manual_review = false;
      detail =
          "the expected version still holds but the pointer move did not apply; the expectation can be re-read and the operation retried";
    }

-- `satisfied` of `three_way_state`; the chained comparison is a conjunction
satisfied_by : Option String → Option String → Option String → Bool
satisfied_by none registry runtime = opt_eq registry runtime
satisfied_by (some d) registry runtime = opt_eq (some d) registry && opt_eq registry runtime

unfoldable pub three_way_state :
    RuntimeState → Option String → Option String → Option String → ConvergenceState × Bool
unfolding satisfied_by
three_way_state runtime_state desired_version_id registry_version_id runtime_version_id =
    if is_unknown runtime_state
    then (ConvergenceState.unknown, false)
    else let satisfied = satisfied_by desired_version_id registry_version_id runtime_version_id in
      (if satisfied then ConvergenceState.converged else ConvergenceState.mismatch, satisfied)

abbrev is_unobserved : ReconciliationStatus → Bool
is_unobserved ReconciliationStatus.unknown = true
is_unobserved _ = false

unfoldable pub observed_runtime_state : DeploymentReconciliation → RuntimeState
observed_runtime_state reconciliation =
    if is_unobserved reconciliation.status
    then RuntimeState.unknown
    else reconciliation.production_runtime_state

-- The `dict[ConvergenceAction, bool]` that `availability` returns.
pub record Availability : Type 0 where
  pub no_op : Bool
  pub registry_to_runtime : Bool
  pub runtime_to_registry : Bool
  pub manual_investigation : Bool

-- `flags[action]`
abbrev pub flag : Availability → ConvergenceAction → Bool
flag a no_op = a.no_op
flag a registry_to_runtime = a.registry_to_runtime
flag a runtime_to_registry = a.runtime_to_registry
flag a manual_investigation = a.manual_investigation

-- The evidence `availability` and `available_actions` take by keyword.
pub record ActionEvidence : Type 0 where
  pub registry_version_id : Option String
  pub runtime_version_id : Option String
  pub desired_version_id : Option String
  pub deployment_version_id : String
  pub runtime_version_known : Bool
  pub adapter_authoritative : Bool
  pub adapter_supports_recovery : Bool

abbrev or_else : Option String → String → String
or_else none d = d
or_else (some s) d = s

pub availability : ConvergenceState → ActionEvidence → Availability
availability ConvergenceState.unknown e = record {
  no_op = false;
  registry_to_runtime = false;
  runtime_to_registry = false;
  manual_investigation = true;
}
availability ConvergenceState.converged e = record {
  no_op = true;
  registry_to_runtime = false;
  runtime_to_registry = false;
  manual_investigation = false;
}
availability ConvergenceState.mismatch e =
    let runtime_target = or_else e.desired_version_id e.deployment_version_id in
    record {
      no_op = false;
      registry_to_runtime =
          is_some e.registry_version_id
          && opt_eq e.registry_version_id (some runtime_target)
          && e.adapter_authoritative
          && e.adapter_supports_recovery;
      runtime_to_registry = is_some e.runtime_version_id && e.runtime_version_known;
      manual_investigation = true;
    }

abbrev pub action_order : List ConvergenceAction
action_order = no_op ∷ registry_to_runtime ∷ runtime_to_registry ∷ manual_investigation ∷ []

unfoldable pub available_actions : ConvergenceState → ActionEvidence → List ConvergenceAction
unfolding availability
available_actions state e = let flags = availability state e in keep (flag flags) action_order

unfoldable pub recommend : ConvergenceState → Bool → Bool → ConvergenceAction × String
recommend ConvergenceState.converged to_runtime to_registry = (
  no_op,
  "The desired state is already satisfied by the registry pointer and by the production runtime. Nothing needs to be executed, and this no-op is itself the recorded governance outcome.",
)
recommend ConvergenceState.unknown to_runtime to_registry = (
  manual_investigation,
  "The production runtime did not report a state, so neither the registry nor the runtime can be compared. Investigate the runtime before choosing.",
)
recommend ConvergenceState.mismatch to_runtime to_registry =
    if to_runtime
    then (
      registry_to_runtime,
      "The registry points at the version this deployment holds a package for, so the runtime can be re-aligned to it through the production adapter. This is a recommendation, not a verdict: the registry is not automatically the truth.",
    )
    else if to_registry
    then (
      runtime_to_registry,
      "The registry holds no package for its own active version, so the runtime cannot be re-aligned to it. The runtime reports a version the registry knows about, so the registry pointer can be moved to match. A human must still decide.",
    )
    else (
      manual_investigation,
      "Neither side can be aligned safely: the runtime reports a version the registry has never produced, or no recovery channel is available.",
    )

abbrev same_action : ConvergenceAction → ConvergenceAction → Bool
same_action no_op no_op = true
same_action registry_to_runtime registry_to_runtime = true
same_action runtime_to_registry runtime_to_registry = true
same_action manual_investigation manual_investigation = true
same_action _ _ = false

-- `action in possible`
unfoldable pub offers : ConvergenceAction → List ConvergenceAction → Bool
offers a [] = false
offers a (b ∷ bs) = if same_action a b then true else offers a bs
