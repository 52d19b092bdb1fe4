-- ===== src/Production/Deployments/Governance/Observing.antt =====
-- The shadow keeps the invariant (src/airi/production/service.py: DeploymentService.shadow).
use airi.Prelude.{
  not-false, ℕ, String, ◌≡◌, refl, sym, subst, inl, inr, Bool, true, false, not, Option, some,
  arith, if◌then◌else◌, Table, get, put, get-put, str_eq_self, Ensures-bind, Ensures-raise_if,
  Bool-cases,
}
use airi.Production.Identity.{ActorIdentity, authorize, request_production_deployment}
use airi.Production.Deployments.Models.{
  DeploymentPackage, ShadowObservation, ShadowResult, MonitoringBaseline, DeploymentStatus,
  ProductionDeployment,
}
use airi.Production.Deployments.Store.{
  DeploymentRow, DeploymentReviewRow, ProductionEvent, ProductionStore, Outcome, Committed,
  from_identity, production_deployment_not_shadowable,
}
use airi.Production.Deployments.Packaging.{Digests}
use airi.Production.Deployments.Environments.{log_event, environment_profile}
use airi.Production.Deployments.Session.{same_status, same_status_sound, written_row}
use airi.Production.Deployments.Creation.{AdapterFacts}
use airi.Production.Deployments.Shadow.{shadow, observed, shadow_result, shadow_did_fail, baseline}
use airi.Production.Deployments.Rules.{
  Leaves, since-Leaves, Ensures-validated, Ensures-transition, Ensures-deployment, Ensures-write,
  with_write,
}
use airi.Production.Deployments.Governance.{
  past_preflight, past_shadow, past_review, IsSound, Governed, IsGoverned,
}
use airi.Production.Deployments.Governance.Writes.{written-Governed}

module _ (D : Digests) where
  running-IsSound :
      (reviews : Table DeploymentReviewRow) (now : ℕ) (old found : DeploymentRow)
      → IsSound reviews old.deployment_json.deployment_id old
      → old.deployment_json.status ≡ DeploymentStatus.preflight_validated
      → IsSound reviews old.deployment_json.deployment_id (
          written_row now found (record old.deployment_json {
            status = DeploymentStatus.shadow_running;
            updated_at = now;
          }))
  unfolding past_preflight past_shadow past_review
  running-IsSound reviews now old found s at = record {
    named = refl;
    shown = refl;
    packaged = s.packaged;
    preflighted = λ _. s.preflighted (rw at refl);
    shadowed = λ e. ground arith;
    reviewed = λ e. ground arith;
    undeployed = s.undeployed;
  }

  -- a shadow that was observed
  shadow-IsSound :
      (reviews : Table DeploymentReviewRow) (now : ℕ) (old found : DeploymentRow) (failed : Bool)
      (result : ShadowResult) (kept : Option MonitoringBaseline)
      → IsSound reviews old.deployment_json.deployment_id old
      → old.deployment_json.status ≡ DeploymentStatus.shadow_running
      → IsSound reviews old.deployment_json.deployment_id (
          written_row now found (record old.deployment_json {
            shadow = some result;
            status = if failed then DeploymentStatus.failed else DeploymentStatus.shadow_validated;
            updated_at = now;
            monitoring_baseline = kept;
          }))
  unfolding past_preflight past_shadow past_review
  shadow-IsSound reviews now old found true result kept s at = record {
    named = refl;
    shown = refl;
    packaged = s.packaged;
    preflighted = λ e. ground arith;
    shadowed = λ e. ground arith;
    reviewed = λ e. ground arith;
    undeployed = s.undeployed;
  }
  shadow-IsSound reviews now old found false result kept s at = record {
    named = refl;
    shown = refl;
    packaged = s.packaged;
    preflighted = λ _. s.preflighted (rw at refl);
    shadowed = λ e. ground arith;
    reviewed = λ e. ground arith;
    undeployed = s.undeployed;
  }

  -- the document that `observed` writes
  abbrev after_shadow : ℕ → ProductionDeployment → ShadowResult → Bool → ProductionDeployment
  after_shadow now d result true = record d {
    shadow = some result;
    status = DeploymentStatus.failed;
    updated_at = now;
  }
  after_shadow now d result false = record d {
    shadow = some result;
    status = DeploymentStatus.shadow_validated;
    updated_at = now;
    monitoring_baseline = some (baseline result);
  }

  after_shadow-IsGoverned :
      (now : ℕ) (st : ProductionStore) (id : String) (row : DeploymentRow) (result : ShadowResult)
      (failed : Bool)
      → IsGoverned st
      → get id st.deployments ≡ some row
      → row.deployment_json.status ≡ DeploymentStatus.shadow_running
      → (found : DeploymentRow) → get row.deployment_json.deployment_id st.deployments ≡ some found
      → Governed
          (put row.deployment_json.deployment_id
            (written_row now found (after_shadow now row.deployment_json result failed))
            st.deployments)
          st.reviews
  after_shadow-IsGoverned now st id row result true g there at found again =
      written-Governed st.deployments st.reviews now id row found
        (after_shadow now row.deployment_json result true) g there again refl refl
        (shadow-IsSound st.reviews now row found true result row.deployment_json.monitoring_baseline
          (subst (λ x. IsSound st.reviews x row) (sym (g.sound id row there).named)
            (g.sound id row there))
          at)
  after_shadow-IsGoverned now st id row result false g there at found again =
      written-Governed st.deployments st.reviews now id row found
        (after_shadow now row.deployment_json result false) g there again refl refl
        (shadow-IsSound st.reviews now row found false result (some (baseline result))
          (subst (λ x. IsSound st.reviews x row) (sym (g.sound id row there).named)
            (g.sound id row there))
          at)

  observed-IsGoverned :
      (now : ℕ) (adapter : AdapterFacts) (observe : DeploymentPackage → Outcome ShadowObservation)
      (st : ProductionStore) (id : String) (row : DeploymentRow) (identity : ActorIdentity)
      → IsGoverned st
      → get id st.deployments ≡ some row
      → row.deployment_json.status ≡ DeploymentStatus.shadow_running
      → Leaves IsGoverned (observed now adapter observe st row.deployment_json identity)
  unfolding observed log_event
  observed-IsGoverned now adapter observe st id row identity g there at =
      let P : Committed ProductionDeployment → Type 0 = λ c. IsGoverned c.store in
      let d = row.deployment_json in
      Ensures-bind P (observe d.handover) _ λ o _.
        let result = shadow_result adapter d o in
        elim (Bool-cases (shadow_did_fail result)) [
          | inl failed ↦ rw failed (
              Ensures-validated P (record d { shadow = some result }) _
                λ _.
                  Ensures-transition P now (record d { shadow = some result })
                    DeploymentStatus.failed _
                    λ _. Ensures-validated P (after_shadow now d result true) _ λ _.
                      Ensures-write P now st (after_shadow now d result true) _ λ found again.
                        after_shadow-IsGoverned now st id row result true g there at found again)
          | inr failed ↦ rw failed (
              Ensures-validated P (record d { shadow = some result }) _
                λ _.
                  Ensures-transition P now (record d { shadow = some result })
                    DeploymentStatus.shadow_validated _
                    λ _. Ensures-validated P (after_shadow now d result false) _ λ _.
                      Ensures-write P now st (after_shadow now d result false) _ λ found again.
                        after_shadow-IsGoverned now st id row result false g there at found again)
        ]

  pub shadow-IsGoverned :
      (now : ℕ) (adapter : AdapterFacts) (observe : DeploymentPackage → Outcome ShadowObservation)
      (st : ProductionStore) (id : String) (identity : ActorIdentity)
      → IsGoverned st
      → IsGoverned (shadow D now adapter observe st id identity).store
  unfolding shadow log_event
  shadow-IsGoverned now adapter observe st id identity g =
      let P : Committed ProductionDeployment → Type 0 = λ c. IsGoverned c.store in
      since-Leaves IsGoverned st _ g (
        Ensures-bind P (from_identity (authorize identity request_production_deployment)) _ λ _ _.
          Ensures-deployment D P st id _ λ row there.
            let d = row.deployment_json in
            let running = record d { status = DeploymentStatus.shadow_running; updated_at = now } in
            Ensures-raise_if P (not (same_status d.status DeploymentStatus.preflight_validated))
              production_deployment_not_shadowable _
              λ at. Ensures-bind P (environment_profile st d.environment_id) _ λ profile _.
                Ensures-transition P now d DeploymentStatus.shadow_running _ λ _.
                  Ensures-write P now st running _ λ found again.
                    let st₂ =
                      log_event now (with_write now st found running) d.metric_definition_id
                        ProductionEvent.production_shadow_started identity.actor_id
                        (some d.metric_version_id) (some d.release_id) in
                    let g₂ : IsGoverned st₂ =
                      written-Governed st.deployments st.reviews now id row found running g there
                        again refl refl
                        (running-IsSound st.reviews now row found
                          (subst (λ x. IsSound st.reviews x row) (sym (g.sound id row there).named)
                            (g.sound id row there))
                          (same_status_sound d.status DeploymentStatus.preflight_validated
                            (not-false _ at))) in
                    since-Leaves IsGoverned st₂ (observed now adapter observe st₂ running identity)
                      g₂
                      (observed-IsGoverned now adapter observe st₂ d.deployment_id
                        (written_row now found running) identity g₂
                        (ground (
                          arith,
                          get-put d.deployment_id d.deployment_id (written_row now found running)
                              st.deployments,
                          str_eq_self d.deployment_id,
                        ))
                        refl))
