-- ===== src/Production/Deployments/Gatekeeping.antt =====
-- The verification gate in front of a provider call (src/airi/production/service.py, _evaluate_gate,
-- _active_override and _integrity_failures). The verification report is a parameter: what
-- build_verification_report makes of the deployment's evidence.
use airi.Prelude.{
  ℕ, String, Bool, true, false, not, ◌&&◌, Option, none, some, List, [], ◌∷◌, ◌++◌, if◌then◌else◌,
  ◌==◌, str_eq, sorted_set, ok, ◌>>=◌,
}
use airi.Production.Gate.Requirements.{
  GateAction, GateResult, EnvironmentProfile, VerificationReport, EmergencyOverride, active_at,
}
use airi.Production.Gate.Decision.{GateInput, GateDecision, evaluate_verification_gate}
use airi.Production.Identity.{ActorIdentity, authenticated, trusted}
use airi.Production.Deployments.Models.{ProductionEnvironmentProfile, ProductionDeployment}
use airi.Production.Deployments.Store.{ProductionEvent, ProductionStore, Outcome}
use airi.Production.Deployments.Packaging.{Digests, package_failures, when}
use airi.Production.Deployments.Environments.{log_event, environment_profile, latest_fingerprint}
use airi.Production.Deployments.Creation.{AdapterFacts}

abbrev action_tag : GateAction → ℕ
action_tag GateAction.deploy = 0
action_tag GateAction.rollback = 1
action_tag GateAction.reconciliation = 2

-- `value in (None, id)`
abbrev covers : Option String → String → Bool
covers none id = true
covers (some s) id = str_eq s id

-- `_active_override`; the newest override stands first
unfoldable pub active_override :
    ℕ → GateAction → String → String → List EmergencyOverride → Option EmergencyOverride
active_override now action deployment_id environment_id [] = none
active_override now action deployment_id environment_id (o ∷ os) =
    let rest = active_override now action deployment_id environment_id os in
    if action_tag o.action == action_tag action
      && active_at o now
      && covers o.deployment_id deployment_id
      && covers o.environment_id environment_id
    then some o
    else rest

-- the settings and the evidence that the gate reads beside the store
pub record GateSettings : Type 0 where
  pub trust_boundary_configured : Bool
  pub configured_mode : String
  pub policy_version : String
  pub report_of : ProductionStore → ProductionDeployment → Outcome VerificationReport

abbrev pub gate_profile : ProductionEnvironmentProfile → EnvironmentProfile
gate_profile p = record {
  environment_id = p.environment_id;
  environment_kind = p.environment_kind;
  synthetic_profile = p.synthetic;
}

abbrev pub gate_input :
    ℕ
    → GateSettings
    → AdapterFacts
    → ProductionStore
    → ProductionDeployment
    → ProductionEnvironmentProfile
    → VerificationReport
    → List String
    → GateAction
    → ActorIdentity
    → GateInput
gate_input now settings adapter st d profile report failures action identity = record {
  action = action;
  deployment_id = d.deployment_id;
  environment_id = d.environment_id;
  environment_kind = profile.environment_kind;
  profile = gate_profile profile;
  report = some report;
  capabilities =
      ("rollback_capability", adapter.supports_rollback)
      ∷ ("recovery_capability", adapter.supports_recovery)
      ∷ ("authoritative_adapter", adapter.authoritative)
      ∷ [];
  integrity_failures = failures;
  actor_authenticated = authenticated identity;
  actor_trusted = trusted identity;
  trust_boundary_configured = settings.trust_boundary_configured;
  configured_mode = settings.configured_mode;
  override = active_override now action d.deployment_id d.environment_id st.overrides;
  policy_version = settings.policy_version;
  decided_by = some identity.actor_id;
}

abbrev pub is_blocked : GateResult → Bool
is_blocked GateResult.blocked = true
is_blocked _ = false

module _ (D : Digests) where
  -- `_integrity_failures`
  unfoldable pub integrity_failures :
      ProductionStore → ProductionDeployment → ProductionEnvironmentProfile → Outcome (List String)
  integrity_failures st d profile = do
    fingerprint ← latest_fingerprint st d.environment_id
    failures ← package_failures D st d.handover profile fingerprint
    ok (
        sorted_set (
          failures
          ++ when (not (str_eq d.handover.metric_version_id d.metric_version_id))
              "metric_version_identity"))

  -- `_evaluate_gate`, with the decision that it persists
  unfoldable pub evaluate_gate :
      ℕ
      → GateSettings
      → AdapterFacts
      → ProductionStore
      → ProductionDeployment
      → GateAction
      → ActorIdentity
      → Outcome (ProductionStore × GateDecision)
  unfolding integrity_failures log_event
  evaluate_gate now settings adapter st d action identity = do
    profile ← environment_profile st d.environment_id
    report ← settings.report_of st d
    failures ← integrity_failures st d profile
    let decision =
        evaluate_verification_gate
          (gate_input now settings adapter st d profile report failures action identity)
    let st₁ : ProductionStore = record st { gate_decisions = decision ∷ st.gate_decisions }
    ok (
      log_event now st₁ d.metric_definition_id
          (if is_blocked decision.result
            then ProductionEvent.verification_gate_blocked
            else ProductionEvent.verification_gate_passed)
          identity.actor_id (some d.metric_version_id) (some d.release_id),
      decision,
    )
