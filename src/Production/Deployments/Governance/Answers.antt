-- ===== src/Production/Deployments/Governance/Answers.antt =====
-- What follows the answer of the provider keeps the invariant (src/airi/production/service.py,
-- DeploymentService.deploy).
use airi.Prelude.{
  ℕ, String, ◌≡◌, ◌∙◌, refl, sym, subst, inl, inr, Bool, true, false, not, ◌&&◌, Option, none, some,
  List, ◌∷◌, arith, sorted_set, Table, get, put, get-put_same, Ensures-bind, Bool-cases,
}
use airi.Production.Identity.{ActorIdentity}
use airi.Production.Deployments.Models.{
  RuntimeBinding, DeploymentStatus, ProductionDeployment, deployment_transitions,
}
use airi.Production.Deployments.Store.{
  DeploymentRow, DeploymentReviewRow, ProductionStore, Committed,
}
use airi.Production.Deployments.Environments.{log_event}
use airi.Production.Deployments.Session.{written_row}
use airi.Production.Deployments.Creation.{AdapterFacts}
use airi.Production.Deployments.Deploying.{
  DeploymentResult, DeployAnswers, provider_deployed, confirmed, is_production_deployed, binding_of,
  record_evidence, missing_after, deployed_document, unconfirmed, not_deployed, finish_deploy,
  status_of, hand_over,
}
use airi.Production.Deployments.Rules.{
  Leaves, Ensures-validated, Ensures-transition, Ensures-write, with_write,
}
use airi.Production.Deployments.Governance.{
  past_preflight, past_shadow, past_review, IsSound, Governed, IsGoverned,
}
use airi.Production.Deployments.Governance.Writes.{written-Governed}

failed-IsSound :
    (reviews : Table DeploymentReviewRow) (now : ℕ) (old found : DeploymentRow)
    (binding : Option RuntimeBinding) (missing : List String)
    → IsSound reviews old.deployment_json.deployment_id old
    → IsSound reviews old.deployment_json.deployment_id (
        written_row now found (record old.deployment_json {
          runtime_binding = binding;
          missing_evidence = missing;
          status = DeploymentStatus.failed;
          updated_at = now;
        }))
unfolding past_preflight past_shadow past_review
failed-IsSound reviews now old found binding missing s = record {
  named = refl;
  shown = refl;
  packaged = s.packaged;
  preflighted = λ e. ground arith;
  shadowed = λ e. ground arith;
  reviewed = λ e. ground arith;
  undeployed = s.undeployed;
}

-- A deployment without a fingerprint is not a production deployment.
unobserved :
    (adapter : AdapterFacts) (result : DeploymentResult) (status_confirmed : Bool)
    (d : ProductionDeployment)
    → d.environment_fingerprint_hash ≡ none
    → is_production_deployed adapter result status_confirmed d ≡ false
unobserved adapter result status_confirmed d h = rw h (ground arith)

only_approved :
    (s : DeploymentStatus)
    → deployment_transitions s DeploymentStatus.deployed ≡ true
    → s ≡ DeploymentStatus.approved
unfolding deployment_transitions
only_approved s h = ground arith

-- the document of a deployed row, with the evidence that it names
abbrev handed :
    ℕ
    → AdapterFacts
    → DeploymentResult
    → Bool
    → ProductionDeployment
    → Option String
    → ProductionDeployment
handed now adapter result status_confirmed d evidence_id =
    record (deployed_document now adapter result status_confirmed d) {
      status = DeploymentStatus.deployed;
      updated_at = now;
      deployment_evidence_id = evidence_id;
    }

handed-IsSound :
    (reviews : Table DeploymentReviewRow) (now : ℕ) (adapter : AdapterFacts)
    (result : DeploymentResult) (status_confirmed : Bool) (old found : DeploymentRow)
    (evidence_id : Option String)
    → IsSound reviews old.deployment_json.deployment_id old
    → old.deployment_json.status ≡ DeploymentStatus.approved
    → IsSound reviews old.deployment_json.deployment_id (
        written_row now found
          (handed now adapter result status_confirmed old.deployment_json evidence_id))
unfolding past_preflight past_shadow past_review
handed-IsSound reviews now adapter result status_confirmed old found evidence_id s at =
    let (passed, bare) = s.preflighted (rw at refl) in
    record {
      named = refl;
      shown = refl;
      packaged = s.packaged;
      preflighted = λ _. (passed, bare);
      shadowed = λ _. s.shadowed (rw at refl);
      reviewed = λ _. s.reviewed (rw at refl);
      undeployed =
          unobserved adapter result status_confirmed old.deployment_json (s.packaged ∙ bare);
    }

module _ (now : ℕ) (adapter : AdapterFacts) (result : DeploymentResult) (st : ProductionStore)
    (id : String) (row : DeploymentRow) (g : IsGoverned st)
    (there : get id st.deployments ≡ some row) where
  abbrev sound_here : IsSound st.reviews row.deployment_json.deployment_id row
  sound_here =
      subst (λ x. IsSound st.reviews x row) (sym (g.sound id row there).named)
        (g.sound id row there)

  -- the store after a failed call of the provider
  failed-IsGoverned :
      (binding : Option RuntimeBinding) (missing : List String) (found : DeploymentRow)
      → get row.deployment_json.deployment_id st.deployments ≡ some found
      → Governed
          (put row.deployment_json.deployment_id
            (written_row now found (record row.deployment_json {
              runtime_binding = binding;
              missing_evidence = missing;
              status = DeploymentStatus.failed;
              updated_at = now;
            }))
            st.deployments)
          st.reviews
  failed-IsGoverned binding missing found again =
      written-Governed st.deployments st.reviews now id row found _ g there again refl refl
        (failed-IsSound st.reviews now row found binding missing sound_here)

  not_deployed-IsGoverned :
      Leaves IsGoverned (not_deployed now adapter st row.deployment_json result)
  unfolding not_deployed
  not_deployed-IsGoverned =
      let P : Committed ProductionDeployment → Type 0 = λ c. IsGoverned c.store in
      let d = row.deployment_json in
      let binding = some (binding_of now d result) in
      let missing = sorted_set (missing_after adapter result d) in
      let d₁ = record d { runtime_binding = binding; missing_evidence = missing } in
      Ensures-validated P d₁ _ λ _. Ensures-transition P now d₁ DeploymentStatus.failed _ λ _.
        Ensures-write P now st (record d₁ { status = DeploymentStatus.failed; updated_at = now }) _
          λ found again. failed-IsGoverned binding missing found again

  unconfirmed-IsGoverned : Leaves IsGoverned (unconfirmed now adapter st row.deployment_json result)
  unfolding unconfirmed record_evidence log_event
  unconfirmed-IsGoverned =
      let P : Committed ProductionDeployment → Type 0 = λ c. IsGoverned c.store in
      let d = row.deployment_json in
      let missing = sorted_set ("runtime status did not confirm the deploy" ∷ d.missing_evidence) in
      let d₁ = record d { missing_evidence = missing } in
      Ensures-validated P d₁ _ λ _. Ensures-transition P now d₁ DeploymentStatus.failed _ λ _.
        Ensures-write P now (record_evidence now adapter st d result false)
          (record d₁ { status = DeploymentStatus.failed; updated_at = now }) _
          λ found again. failed-IsGoverned d.runtime_binding missing found again

  finish_deploy-IsGoverned :
      (evidence_id : String) (status_confirmed : Bool) (identity : ActorIdentity)
      → Leaves IsGoverned (
          finish_deploy now evidence_id adapter st row.deployment_json result status_confirmed
            identity)
  unfolding finish_deploy record_evidence log_event
  finish_deploy-IsGoverned evidence_id status_confirmed identity =
      let P : Committed ProductionDeployment → Type 0 = λ c. IsGoverned c.store in
      let d = row.deployment_json in
      let d₁ = deployed_document now adapter result status_confirmed d in
      let d₂ = handed now adapter result status_confirmed d d.deployment_evidence_id in
      let d₃ = handed now adapter result status_confirmed d (some evidence_id) in
      Ensures-validated P d₁ _ λ _. Ensures-transition P now d₁ DeploymentStatus.deployed _ λ moves.
        Ensures-write P now st d₂ _ λ found again.
          let at = only_approved d.status moves in
          let g₁ : Governed (put d.deployment_id (written_row now found d₂) st.deployments)
              st.reviews =
            written-Governed st.deployments st.reviews now id row found d₂ g there again refl refl (
              handed-IsSound st.reviews now adapter result status_confirmed row found
                d.deployment_evidence_id sound_here at) in
          Ensures-validated P d₃ _ λ _.
            Ensures-write P now
              (record_evidence now adapter (with_write now st found d₂) d₂ result status_confirmed)
              d₃ _
              λ found₂ again₂.
                written-Governed _ st.reviews now d.deployment_id (written_row now found d₂) found₂
                  d₃ g₁ (get-put_same d.deployment_id (written_row now found d₂) st.deployments)
                  again₂ refl refl
                  (handed-IsSound st.reviews now adapter result status_confirmed row found₂
                    (some evidence_id) sound_here at)

-- a call of the provider, on the result that it answers
pub hand_over-IsGoverned :
    (now : ℕ) (evidence_id : String) (adapter : AdapterFacts) (answers : DeployAnswers)
    (st : ProductionStore) (id : String) (row : DeploymentRow) (identity : ActorIdentity)
    → IsGoverned st
    → get id st.deployments ≡ some row
    → Leaves IsGoverned (hand_over now evidence_id adapter answers st row.deployment_json identity)
unfolding hand_over
hand_over-IsGoverned now evidence_id adapter answers st id row identity g there =
    let P : Committed ProductionDeployment → Type 0 = λ c. IsGoverned c.store in
    let d = row.deployment_json in
    Ensures-bind P (answers.deploy_package d.handover d.deployment_id) _ λ result _.
      Ensures-bind P (status_of answers result d.deployment_id) _ λ status _.
        elim (Bool-cases (provider_deployed result)) [
          | inr e ↦ rw e (not_deployed-IsGoverned now adapter result st id row g there)
          | inl e ↦
              rw e
                (elim (Bool-cases
                  (adapter.authoritative && not (confirmed status d.metric_version_id))) [
                    | inl f ↦ rw f (unconfirmed-IsGoverned now adapter result st id row g there)
                    | inr f ↦ rw f (
                        finish_deploy-IsGoverned now adapter result st id row g there evidence_id
                          (confirmed status d.metric_version_id) identity)
                  ])
        ]
