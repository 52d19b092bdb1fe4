-- ===== src/Production/Deployments/Shadow.antt =====
-- The production shadow (src/airi/production/service.py, DeploymentService.shadow, _shadow_result and
-- _baseline). The call commits the running shadow before it asks the adapter to observe.
use airi.Prelude.{
  ℕ, String, Bool, true, false, not, ◌&&◌, ◌||◌, none, some, List, [], ◌∷◌, ◌++◌, if◌then◌else◌,
  ◌==◌, ltb, ok, err, ◌>>=◌, ◌>>◌, raise_if,
}
use airi.Production.Identity.{ActorIdentity, authorize, request_production_deployment}
use airi.Production.Deployments.Models.{
  DeploymentPackage, ShadowObservation, ShadowStatus, ShadowFinding, Rate, ShadowResult,
  MonitoringBaseline, DeploymentStatus, ProductionDeployment, production_shadow_execution_failed,
  production_shadow_duplicate_entity, production_shadow_no_entities,
}
use airi.Production.Deployments.Store.{
  ProductionEvent, ProductionStore, Outcome, Committed, since, commit, from_identity,
  production_deployment_not_shadowable, production_shadow_failed,
}
use airi.Production.Deployments.Packaging.{Digests}
use airi.Production.Deployments.Environments.{log_event, environment_profile}
use airi.Production.Deployments.Session.{same_status, deployment, transition, validated, write}
use airi.Production.Deployments.Creation.{AdapterFacts}

-- `a / b if b else None`
abbrev pub rate : ℕ → ℕ → Rate
rate a b = if b == 0 then none else some (a, b)

abbrev finding : Bool → ShadowFinding → List ShadowFinding
finding true f = f ∷ []
finding false f = []

-- the list `findings`
unfoldable pub shadow_findings : ShadowObservation → List ShadowFinding
shadow_findings o =
    finding (not o.execution_success) production_shadow_execution_failed
    ++ (finding (ltb 0 o.duplicate_entities) production_shadow_duplicate_entity
        ++ finding (o.execution_success && o.entity_count == 0) production_shadow_no_entities)

abbrev is_fatal : ShadowFinding → Bool
is_fatal production_shadow_no_entities = false
is_fatal _ = true

unfoldable pub any_fatal : List ShadowFinding → Bool
any_fatal [] = false
any_fatal (f ∷ fs) = is_fatal f || any_fatal fs

unfoldable pub any_empty : List ShadowFinding → Bool
any_empty [] = false
any_empty (f ∷ fs) = not (is_fatal f) || any_empty fs

-- `status` of `_shadow_result`
unfoldable pub shadow_status : List ShadowFinding → ShadowStatus
unfolding any_fatal any_empty
shadow_status fs =
    if any_fatal fs
    then ShadowStatus.failed
    else if any_empty fs
    then ShadowStatus.inconclusive
    else ShadowStatus.passed

abbrev has_rate : Rate → Bool
has_rate none = false
has_rate (some r) = true

-- `_shadow_result`
unfoldable pub shadow_result :
    AdapterFacts → ProductionDeployment → ShadowObservation → ShadowResult
unfolding shadow_findings shadow_status
shadow_result adapter d o = record {
  status = shadow_status (shadow_findings o);
  metric_version_id = d.metric_version_id;
  runtime_mode = adapter.runtime_mode;
  execution_success = o.execution_success;
  row_count = o.row_count;
  entity_count = o.entity_count;
  coverage = rate o.non_null_count o.entity_count;
  null_rate = rate o.null_count o.entity_count;
  duplicate_rate = rate o.duplicate_entities o.row_count;
  latency_ms = o.latency_ms;
  bin_counts = o.bin_counts;
  findings = shadow_findings o;
  warnings =
      if o.execution_success && has_rate (rate o.duplicate_entities o.row_count)
      then "duplicate_rate_recorded" ∷ []
      else [];
  synthetic_data = o.synthetic_data;
}

-- `_baseline`
unfoldable pub baseline : ShadowResult → MonitoringBaseline
baseline r = record {
  metric_version_id = r.metric_version_id;
  bin_counts = r.bin_counts;
  row_count = r.row_count;
  coverage = r.coverage;
  null_rate = r.null_rate;
  duplicate_rate = r.duplicate_rate;
  latency_ms = r.latency_ms;
}

abbrev pub shadow_did_fail : ShadowResult → Bool
shadow_did_fail r = elim r.status [ ShadowStatus.failed ↦ true | _ ↦ false ]

-- the part of `shadow` after its first commit; `observe` is the adapter's
unfoldable pub observed :
    ℕ
    → AdapterFacts
    → (DeploymentPackage → Outcome ShadowObservation)
    → ProductionStore
    → ProductionDeployment
    → ActorIdentity
    → Outcome (Committed ProductionDeployment)
unfolding baseline
observed now adapter observe st d identity = do
  o ← observe d.handover
  let result = shadow_result adapter d o
  d₁ ← validated (record d { shadow = some result })
  d₂ ← transition now d₁ (
      if shadow_did_fail result then DeploymentStatus.failed else DeploymentStatus.shadow_validated)
  d₃ ← validated (
      if shadow_did_fail result
      then d₂
      else record d₂ { monitoring_baseline = some (baseline result) })
  st₁ ← write now st d₃
  let st₂ =
      log_event now st₁ d₃.metric_definition_id ProductionEvent.production_shadow_validated
        identity.actor_id (some d₃.metric_version_id) (some d₃.release_id)
  commit st₂ (if shadow_did_fail result then err production_shadow_failed else ok d₃)

module _ (D : Digests) where
  -- `DeploymentService.shadow`
  unfoldable pub shadow :
      ℕ
      → AdapterFacts
      → (DeploymentPackage → Outcome ShadowObservation)
      → ProductionStore
      → String
      → ActorIdentity
      → Committed ProductionDeployment
  unfolding observed
  shadow now adapter observe st id identity = since st (do
    from_identity (authorize identity request_production_deployment)
    d ← deployment D st id
    raise_if (not (same_status d.status DeploymentStatus.preflight_validated))
        production_deployment_not_shadowable
    profile ← environment_profile st d.environment_id
    running ← transition now d DeploymentStatus.shadow_running
    st₁ ← write now st running
    let st₂ =
        log_event now st₁ running.metric_definition_id ProductionEvent.production_shadow_started
          identity.actor_id (some running.metric_version_id) (some running.release_id)
    ok (since st₂ (observed now adapter observe st₂ running identity)))
