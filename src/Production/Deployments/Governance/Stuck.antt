-- ===== src/Production/Deployments/Governance/Stuck.antt =====
-- A deployment whose shadow was left running (src/airi/production/service.py): how it comes to be, and
-- what its calls answer.
use airi.Prelude.{ℕ, String, ◌≡◌, refl, false, some, get, get-put_same, ok, err}
use airi.Production.Identity.{
  ActorIdentity, authorize, request_production_deployment, review_production_deployment,
}
use airi.Production.Deployments.Models.{
  DeploymentPackage, ShadowObservation, DeploymentStatus, ProductionEnvironmentProfile,
  dishonest_flag, deployment_transitions, ProductionDeployment,
}
use airi.Production.Deployments.Store.{
  DeploymentRow, ProductionError, ProductionStore, Outcome, since,
  production_deployment_not_preflightable, production_deployment_not_shadowable,
  production_deployment_not_ready_for_review, production_deployment_not_approved,
}
use airi.Production.Deployments.Packaging.{Digests}
use airi.Production.Deployments.Session.{
  same_status, deployment, transition, validated, write, written_row,
}
use airi.Production.Deployments.Environments.{environment_profile, log_event}
use airi.Production.Deployments.Creation.{AdapterFacts}
use airi.Production.Deployments.Preflight.{ValidationResult, preflight}
use airi.Production.Deployments.Shadow.{shadow, observed}
use airi.Production.Deployments.Reviews.{create_review, open_review}
use airi.Production.Deployments.Gatekeeping.{GateSettings}
use airi.Production.Deployments.Deploying.{DeployAnswers, deploy, ready}

module _ (D : Digests) where
  -- A deployment whose shadow was left running is stuck: to an actor who may deploy, preflight, shadow,
  -- create_review and deploy all raise on it and leave the store as it is.
  pub shadow_running-refused :
      (now : ℕ) (adapter : AdapterFacts) (validate : DeploymentPackage → Outcome ValidationResult)
      (observe : DeploymentPackage → Outcome ShadowObservation) (review_id evidence_id : String)
      (settings : GateSettings) (answers : DeployAnswers) (st : ProductionStore) (id : String)
      (identity : ActorIdentity) {d : ProductionDeployment}
      → authorize identity request_production_deployment ≡ ok tt
      → authorize identity review_production_deployment ≡ ok tt
      → deployment D st id ≡ ok d
      → d.status ≡ DeploymentStatus.shadow_running
      → (preflight D now adapter validate st id identity
          ≡ record { store = st; result = err production_deployment_not_preflightable })
        × (shadow D now adapter observe st id identity
            ≡ record { store = st; result = err production_deployment_not_shadowable })
        × (create_review D now review_id st id identity
            ≡ record { store = st; result = err production_deployment_not_ready_for_review })
        × (deploy D now evidence_id settings adapter answers st id identity
            ≡ record { store = st; result = err production_deployment_not_approved })
  unfolding preflight shadow create_review open_review deploy ready same_status
  shadow_running-refused now adapter validate observe review_id evidence_id settings answers st id
        identity may may' read at =
      (
        rw (may, read, at) refl,
        rw (may, read, at) refl,
        rw (may', read, at) refl,
        rw (may, read, at) refl,
      )

  -- An adapter that raises while it observes leaves the deployment with its shadow running: the
  -- call passes the error on, and the row that it has committed says shadow_running.
  pub shadow-interrupted :
      (now : ℕ) (adapter : AdapterFacts) (observe : DeploymentPackage → Outcome ShadowObservation)
      (st : ProductionStore) (id : String) (identity : ActorIdentity) {row : DeploymentRow}
      {profile : ProductionEnvironmentProfile} {e : ProductionError}
      → authorize identity request_production_deployment ≡ ok tt
      → deployment D st id ≡ ok row.deployment_json
      → get row.deployment_json.deployment_id st.deployments ≡ some row
      → dishonest_flag row.deployment_json ≡ false
      → row.deployment_json.status ≡ DeploymentStatus.preflight_validated
      → environment_profile st row.deployment_json.environment_id ≡ ok profile
      → observe row.deployment_json.handover ≡ err e
      → ((shadow D now adapter observe st id identity).result ≡ err e)
        × (get row.deployment_json.deployment_id
              (shadow D now adapter observe st id identity).store.deployments
            ≡ some (
                written_row now row (record row.deployment_json {
                  status = DeploymentStatus.shadow_running;
                  updated_at = now;
                })))
  unfolding shadow observed transition validated write log_event same_status deployment_transitions
      dishonest_flag
  shadow-interrupted now adapter observe st id identity {row} may read there honest at env raises =
      let d = row.deployment_json in
      let running =
        written_row now row
          (record d { status = DeploymentStatus.shadow_running; updated_at = now }) in
      (
        rw (may, read, at, env, honest) (rw (there, since) (rw (raises, since) refl)),
        rw (may, read, at, env, honest)
            (rw (there, since)
              (rw (raises, since) (get-put_same d.deployment_id running st.deployments))),
      )
