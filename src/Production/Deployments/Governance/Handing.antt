-- ===== src/Production/Deployments/Governance/Handing.antt =====
-- The deployment to the provider keeps the invariant (src/airi/production/service.py:
-- DeploymentService.deploy).
use airi.Prelude.{
  ℕ, String, ◌≡◌, ◌∙◌, refl, sym, ap, subst₂, inl, inr, ◌||◌, get, Ensures, Ensures-bind,
  Ensures-then, Bool-cases,
}
use airi.Production.Gate.Requirements.{GateAction}
use airi.Production.Gate.Decision.{GateDecision}
use airi.Production.Identity.{ActorIdentity, authorize, request_production_deployment}
use airi.Production.Deployments.Models.{DeploymentStatus, ProductionDeployment}
use airi.Production.Deployments.Store.{ProductionStore, Committed, from_identity}
use airi.Production.Deployments.Packaging.{Digests}
use airi.Production.Deployments.Environments.{log_event, environment_profile}
use airi.Production.Deployments.Session.{same_status}
use airi.Production.Deployments.Creation.{AdapterFacts}
use airi.Production.Deployments.Gatekeeping.{
  GateSettings, is_blocked, evaluate_gate, integrity_failures,
}
use airi.Production.Deployments.Deploying.{DeployAnswers, ready, deploy}
use airi.Production.Deployments.Rules.{since-Leaves, Ensures-deployment}
use airi.Production.Deployments.Governance.{Governed, IsGoverned}
use airi.Production.Deployments.Governance.Answers.{hand_over-IsGoverned}

module _ (D : Digests) where
  -- The gate writes its decision and an event, and no deployment.
  pub evaluate_gate-keeps :
      (now : ℕ) (settings : GateSettings) (adapter : AdapterFacts) (st : ProductionStore)
      (d : ProductionDeployment) (action : GateAction) (identity : ActorIdentity)
      → Ensures
          (λ (r : ProductionStore × GateDecision).
            (r.0.deployments ≡ st.deployments) × (r.0.reviews ≡ st.reviews))
          (evaluate_gate D now settings adapter st d action identity)
  unfolding evaluate_gate log_event
  evaluate_gate-keeps now settings adapter st d action identity =
      let Q : ProductionStore × GateDecision → Type 0 =
        λ r. (r.0.deployments ≡ st.deployments) × (r.0.reviews ≡ st.reviews) in
      Ensures-bind Q (environment_profile st d.environment_id) _ λ profile _.
        Ensures-bind Q (settings.report_of st d) _ λ report _.
          Ensures-bind Q (integrity_failures D st d profile) _ λ failures _. (refl, refl)

  pub deploy-IsGoverned :
      (now : ℕ) (evidence_id : String) (settings : GateSettings) (adapter : AdapterFacts)
      (answers : DeployAnswers) (st : ProductionStore) (id : String) (identity : ActorIdentity)
      → IsGoverned st
      → IsGoverned (deploy D now evidence_id settings adapter answers st id identity).store
  unfolding deploy
  deploy-IsGoverned now evidence_id settings adapter answers st id identity g =
      let P : Committed ProductionDeployment → Type 0 = λ c. IsGoverned c.store in
      since-Leaves IsGoverned st _ g (
        Ensures-bind P (from_identity (authorize identity request_production_deployment)) _ λ _ _.
          Ensures-deployment D P st id _ λ row there.
            let d = row.deployment_json in
            elim (Bool-cases (
              same_status d.status DeploymentStatus.deployed
              || same_status d.status DeploymentStatus.monitoring)) [
                | inl e ↦ rw e g
                | inr e ↦ rw e (
                    Ensures-bind P (ready D st d) _ λ _ _.
                      Ensures-then
                        (λ (r : ProductionStore × GateDecision).
                          (r.0.deployments ≡ st.deployments) × (r.0.reviews ≡ st.reviews))
                        P (evaluate_gate D now settings adapter st d GateAction.deploy identity) _
                        (evaluate_gate-keeps now settings adapter st d GateAction.deploy identity)
                        (λ r keeps.
                          let g₁ : IsGoverned r.0 = subst₂ Governed (sym keeps.0) (sym keeps.1) g in
                          elim (Bool-cases (is_blocked r.1.result)) [
                            | inl f ↦ rw f g₁
                            | inr f ↦ rw f (
                                hand_over-IsGoverned now evidence_id adapter answers r.0 id row
                                  identity g₁ (ap (get id) keeps.0 ∙ there))
                          ]))
              ])
