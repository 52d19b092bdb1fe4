-- ===== src/Production/Convergence/Soundness.antt =====
-- What the three-way comparison promises: when the states count as converged, what the plan offers,
-- and when a failed compare-and-set may be retried.
use airi.Prelude.{
  String, ◌≡◌, refl, ◌≢◌, ◌↔◌, ◌⊎◌, Bool, true, false, Option, none, some, [], ◌∷◌, arith,
  opt_eq_iff, truthy,
}
use airi.Registry.Models.{MetricVersion}
use airi.Production.Models.{
  RuntimeState, ConvergenceState, DeploymentReconciliation, DesiredRuntimeState, no_op,
  registry_to_runtime, runtime_to_registry, manual_investigation,
}
use airi.Production.Convergence.{
  ActionEvidence, diagnose_conflict, three_way_state, available_actions, recommend, offers,
}
use airi.Production.Convergence.Plan.{Plan, look_up, plan_triple}

-- A failed compare-and-set is declared safe to retry exactly when the runtime reported a state, the
-- registry still shows the expected version, and that version is not the desired one.
pub diagnose_conflict-safe_to_retry :
    (expected actual desired : Option String) (state : RuntimeState)
    → ((diagnose_conflict expected actual desired state).safe_to_retry ≡ true) ↔ (
        (state ≢ RuntimeState.unknown)
        × (actual ≡ expected)
        × ((desired ≡ none) ⊎ (actual ≢ desired)))
unfolding diagnose_conflict
diagnose_conflict-safe_to_retry expected actual none state = (
  (λ h. ground (arith, opt_eq_iff actual expected)),
  (λ h. ground (arith, opt_eq_iff actual expected)),
)
diagnose_conflict-safe_to_retry expected actual (some d) state = (
  (λ h. ground (arith, opt_eq_iff actual expected, opt_eq_iff actual (some d))),
  (λ h. ground (arith, opt_eq_iff actual expected, opt_eq_iff actual (some d))),
)

-- The comparison says converged exactly when the runtime reported a state, the registry and the
-- runtime name the same version, and a desired version, if there is one, is that version too.
pub three_way_state-converged :
    (state : RuntimeState) (desired registry runtime : Option String)
    → ((three_way_state state desired registry runtime).0 ≡ ConvergenceState.converged) ↔ (
        (state ≢ RuntimeState.unknown)
        × (registry ≡ runtime)
        × ((desired ≡ none) ⊎ (desired ≡ registry)))
unfolding three_way_state
three_way_state-converged state none registry runtime = (
  (λ h. ground (arith, opt_eq_iff registry runtime)),
  (λ h. ground (arith, opt_eq_iff registry runtime)),
)
three_way_state-converged state (some d) registry runtime = (
  (λ h. ground (arith, opt_eq_iff registry runtime, opt_eq_iff (some d) registry)),
  (λ h. ground (arith, opt_eq_iff registry runtime, opt_eq_iff (some d) registry)),
)

three_way_state-satisfied :
    (state : RuntimeState) (desired registry runtime : Option String)
    → let (c, satisfied) = three_way_state state desired registry runtime in
      (satisfied ≡ true) ↔ (c ≡ ConvergenceState.converged)
unfolding three_way_state
three_way_state-satisfied state desired registry runtime = (ground arith, ground arith)

-- The recommendation made from a state's own offers is one of those offers.
recommend-offered :
    (state : ConvergenceState) (e : ActionEvidence)
    → let possible = available_actions state e in
      let (action, rationale) =
        recommend state
          (offers registry_to_runtime possible)
          (offers runtime_to_registry possible) in
      offers action possible ≡ true
unfolding recommend available_actions offers
recommend-offered ConvergenceState.unknown e = refl
recommend-offered ConvergenceState.converged e = refl
recommend-offered ConvergenceState.mismatch e = ground arith

-- What the runtime should end up at: the desired version, or the version of the deployment.
abbrev target : Option DesiredRuntimeState → String → String
target none deployment = deployment
target (some d) deployment = d.desired_metric_version_id

module _ (desired : Option DesiredRuntimeState) (r : DeploymentReconciliation) (deployment : String)
    (lookup : String → Option MetricVersion) (authoritative supports_recovery : Bool) where
  abbrev plan : Plan
  plan = plan_triple desired r deployment lookup authoritative supports_recovery

  -- The recommended action is always among the possible ones.
  pub plan_triple-recommends_offered : offers plan.action plan.possible ≡ true
  unfolding plan_triple
  plan_triple-recommends_offered = recommend-offered _ _

  -- An action may be offered that moves the runtime or the registry only when the comparison found
  -- a mismatch; a plan that finds the states converged offers the no-op and nothing else, and one
  -- that could not observe the runtime offers manual investigation and nothing else.
  pub plan_triple-possible :
      ((plan.state ≡ ConvergenceState.converged)
        × (plan.possible ≡ no_op ∷ [])
        × (plan.action ≡ no_op))
      ⊎ ((plan.state ≡ ConvergenceState.unknown)
          × (plan.possible ≡ manual_investigation ∷ [])
          × (plan.action ≡ manual_investigation))
      ⊎ ((plan.state ≡ ConvergenceState.mismatch)
          × (offers no_op plan.possible ≡ false)
          × (offers manual_investigation plan.possible ≡ true))
  unfolding plan_triple available_actions recommend offers
  plan_triple-possible = ground arith

  -- Re-aligning the runtime is offered only on a mismatch, through an authoritative adapter that
  -- supports recovery, and when the registry points at the target: the desired version, or without
  -- one the version of the deployment.
  pub plan_triple-registry_to_runtime :
      offers registry_to_runtime plan.possible ≡ true
      → (plan.state ≡ ConvergenceState.mismatch)
        × (authoritative ≡ true)
        × (supports_recovery ≡ true)
        × (r.registry_active_version_id ≡ some (target desired deployment))
  unfolding plan_triple available_actions offers
  plan_triple-registry_to_runtime =
      ground (arith, opt_eq_iff r.registry_active_version_id (some (target desired deployment)))

  -- Moving the registry pointer is offered only on a mismatch and to a version that the runtime
  -- reports and the registry's lookup knows.
  pub plan_triple-runtime_to_registry :
      offers runtime_to_registry plan.possible ≡ true
      → (plan.state ≡ ConvergenceState.mismatch)
        × ((id : String) × (v : MetricVersion) × (r.production_active_version_id ≡ some id)
            × (lookup id ≡ some v))
  unfolding plan_triple available_actions offers look_up truthy
  plan_triple-runtime_to_registry = ground arith
