-- ===== src/Production/Deployments/Governance/Verdict.antt =====
-- The decision of the human review keeps the invariant (src/airi/production/service.py:
-- DeploymentService.decide_review).
use airi.Prelude.{
  not-false, ℕ, String, ◌≡◌, ◌≢◌, refl, sym, ap, subst, inl, inr, Bool, true, not, some,
  Option-cases, arith, str_eq, str_eq_iff, Table, get, put, get-put_same, ok, Ensures, Ensures-bind,
  Ensures-then, Ensures-raise_if,
}
use airi.Registry.Session.{version_by_id}
use airi.Production.Identity.{ActorIdentity, authorize, review_production_deployment}
use airi.Production.Deployments.Models.{
  ReviewDecision, Verdict, ReviewRequest, DeploymentReview, DeploymentStatus, deployable,
  deployment_transitions,
}
use airi.Production.Deployments.Store.{
  DeploymentRow, DeploymentReviewRow, ProductionStore, Committed, from_registry, from_identity,
  production_shadow_not_passed, production_deployment_review_already_decided,
  deployment_package_integrity_error, production_environment_not_verified,
}
use airi.Production.Deployments.Packaging.{Digests}
use airi.Production.Deployments.Environments.{log_event, environment_profile}
use airi.Production.Deployments.Session.{
  same_decision, same_decision_sound, shadow_passed, review, written_row, write,
}
use airi.Production.Deployments.Reviews.{
  decided, decision_of, require_boundary, establish, changed_row, record_decision, settle,
  decide_review,
}
use airi.Production.Deployments.Rules.{
  since-Leaves, Ensures-transition, Ensures-deployment, Ensures-write, Ensures-write-last,
}
use airi.Production.Deployments.Governance.{
  past_preflight, past_shadow, past_review, HasApproval, IsSound, IsGoverned,
}
use airi.Production.Deployments.Governance.Writes.{review-Governed, written-Governed}

pending : (d : ReviewDecision) → d ≡ ReviewDecision.pending → d ≢ ReviewDecision.approved
pending d h e = cc

module _ (D : Digests) where
  pub review-row :
      (st : ProductionStore) (id : String) {r : DeploymentReview}
      → review st id ≡ ok r
      → (row : DeploymentReviewRow) × (get id st.reviews ≡ some row)
        × (r ≡ row.review_json)
        × (row.decision ≡ r.decision)
        × (row.package_hash ≡ r.package_hash)
  unfolding review
  review-row st id {r} h = elim (Option-cases (get id st.reviews)) [
    | inl e ↦ absurd (ground arith)
    | inr (row, e) ↦
        let same : r ≡ row.review_json = ground arith in
        let decisions : same_decision row.decision row.review_json.decision ≡ true = ground arith in
        let hashes : str_eq row.package_hash row.review_json.package_hash ≡ true = ground arith in
        (
          row,
          e,
          same,
          subst (λ (x : DeploymentReview). row.decision ≡ x.decision) (sym same)
              (same_decision_sound row.decision row.review_json.decision decisions),
          subst (λ (x : DeploymentReview). row.package_hash ≡ x.package_hash) (sym same)
              ((str_eq_iff row.package_hash row.review_json.package_hash).0 hashes),
        )
  ]

  pub recorded :
      (st : ProductionStore) (key : String) (r : DeploymentReview) {st' : ProductionStore}
      → record_decision D st key r ≡ ok st'
      → (row : DeploymentReviewRow) × (get key st.reviews ≡ some row)
        × (row.decision ≡ ReviewDecision.pending)
        × (st' ≡ record st { reviews = put key (changed_row D row r) st.reviews })
  unfolding record_decision
  recorded st key r h = elim (Option-cases (get key st.reviews)) [
    | inl e ↦ absurd (ground arith)
    | inr (row, e) ↦
        let is : same_decision row.decision ReviewDecision.pending ≡ true = ground arith in
        (row, e, same_decision_sound row.decision ReviewDecision.pending is, ground arith)
  ]

  rejected-IsSound :
      (reviews : Table DeploymentReviewRow) (now : ℕ) (old found : DeploymentRow)
      → IsSound reviews old.deployment_json.deployment_id old
      → IsSound reviews old.deployment_json.deployment_id (
          written_row now found
            (record old.deployment_json { status = DeploymentStatus.failed; updated_at = now }))
  unfolding past_preflight past_shadow past_review
  rejected-IsSound reviews now old found s = record {
    named = refl;
    shown = refl;
    packaged = s.packaged;
    preflighted = λ e. ground arith;
    shadowed = λ e. ground arith;
    reviewed = λ e. ground arith;
    undeployed = s.undeployed;
  }

  approved-IsSound :
      (reviews : Table DeploymentReviewRow) (now : ℕ) (old found : DeploymentRow)
      → IsSound reviews old.deployment_json.deployment_id old
      → old.deployment_json.status ≡ DeploymentStatus.pending_deployment_review
      → HasApproval reviews old.deployment_json.deployment_id old.deployment_json
      → IsSound reviews old.deployment_json.deployment_id (
          written_row now found
            (record old.deployment_json { status = DeploymentStatus.approved; updated_at = now }))
  unfolding past_preflight past_shadow past_review
  approved-IsSound reviews now old found s at (key, row, names, there, approved, for_it, hash) =
      record {
        named = refl;
        shown = refl;
        packaged = s.packaged;
        preflighted = λ _. s.preflighted (rw at refl);
        shadowed = λ _. s.shadowed (rw at refl);
        reviewed = λ _. (key, row, names, there, approved, for_it, hash);
        undeployed = s.undeployed;
      }

  only_pending :
      (s : DeploymentStatus)
      → deployment_transitions s DeploymentStatus.approved ≡ true
      → s ≡ DeploymentStatus.pending_deployment_review
  unfolding deployment_transitions
  only_pending s h = ground arith

  settle-IsGoverned :
      (now : ℕ) (state_id : String) (st : ProductionStore) (review_id id : String)
      (row : DeploymentRow) (verdict : Verdict) (identity : ActorIdentity)
      → IsGoverned st
      → get id st.deployments ≡ some row
      → (verdict ≡ Verdict.approved
          → HasApproval st.reviews row.deployment_json.deployment_id row.deployment_json)
      → Ensures IsGoverned (settle D now state_id st review_id row.deployment_json verdict identity)
  unfolding settle establish log_event
  settle-IsGoverned now state_id st review_id id row Verdict.need_more_evidence identity g there h =
      g
  settle-IsGoverned now state_id st review_id id row Verdict.rejected identity g there h =
      let d = row.deployment_json in
      let s : IsSound st.reviews d.deployment_id row =
        subst (λ x. IsSound st.reviews x row) (sym (g.sound id row there).named)
          (g.sound id row there) in
      let d₁ = record d { status = DeploymentStatus.failed; updated_at = now } in
      Ensures-transition IsGoverned now d DeploymentStatus.failed (λ d₁. write now st d₁)
        λ _. Ensures-write-last IsGoverned now st d₁ λ found again.
          written-Governed st.deployments st.reviews now id row found d₁ g there again refl refl
            (rejected-IsSound st.reviews now row found s)
  settle-IsGoverned now state_id st review_id id row Verdict.approved identity g there h =
      let d = row.deployment_json in
      let s : IsSound st.reviews d.deployment_id row =
        subst (λ x. IsSound st.reviews x row) (sym (g.sound id row there).named)
          (g.sound id row there) in
      let d₁ = record d { status = DeploymentStatus.approved; updated_at = now } in
      Ensures-transition IsGoverned now d DeploymentStatus.approved _ λ moves.
        Ensures-write IsGoverned now st d₁ _ λ found again.
          Ensures-bind IsGoverned
            (from_registry (version_by_id D.document st.registry d.metric_version_id)) _
            λ version _.
              written-Governed st.deployments st.reviews now id row found d₁ g there again refl refl
                (approved-IsSound st.reviews now row found s (only_pending d.status moves) (h refl))

  -- a decision that was recorded, and what it settles
  settle-decided :
      (now : ℕ) (state_id : String) (st st₁ : ProductionStore) (review_id : String)
      (row : DeploymentRow) (r : DeploymentReview) (payload : ReviewRequest)
      (identity : ActorIdentity)
      → IsGoverned st
      → review st review_id ≡ ok r
      → get r.deployment_id st.deployments ≡ some row
      → r.package_hash ≡ row.deployment_json.handover.content_hash
      → record_decision D st review_id (decided now r payload identity) ≡ ok st₁
      → Ensures IsGoverned
          (settle D now state_id st₁ review_id row.deployment_json payload.decision identity)
  settle-decided now state_id st st₁ review_id row r payload identity g read there hash wrote =
      let (seen, at, doc, decision, package_hash) = review-row st review_id read in
      let (old, at', was, is) = recorded st review_id (decided now r payload identity) wrote in
      let same : old ≡ seen = cc in
      let (d, found, names, says) = g.bound review_id seen at in
      let changed = changed_row D old (decided now r payload identity) in
      let st₂ : ProductionStore = record st { reviews = put review_id changed st.reviews } in
      let r_id : r.deployment_id ≡ seen.deployment_id =
        subst (λ (x : DeploymentReview). x.deployment_id ≡ seen.deployment_id) (sym doc) says.0 in
      let g₂ : IsGoverned st₂ =
        review-Governed st.deployments st.reviews review_id old changed g at'
          (pending old.decision was) refl
          (
            subst (λ (x : DeploymentReviewRow). r.deployment_id ≡ x.deployment_id) (sym same) r_id,
            refl,
          ) in
      let d_is : d ≡ row = cc in
      let named : row.deployment_json.deployment_id ≡ r.deployment_id =
        (g.sound r.deployment_id row there).named in
      subst
        (λ x.
          Ensures IsGoverned
            (settle D now state_id x review_id row.deployment_json payload.decision identity))
        (sym is)
        (settle-IsGoverned now state_id st₂ review_id r.deployment_id row payload.decision identity
          g₂ there
          λ approved. (
            review_id,
            changed,
            subst (λ (x : DeploymentRow). x.deployment_json.review_id ≡ some review_id) d_is names,
            get-put_same review_id changed st.reviews,
            ap decision_of approved,
            subst (λ (x : DeploymentReviewRow). x.deployment_id ≡ row.deployment_json.deployment_id)
                (sym same) cc,
            subst
                (λ (x : DeploymentReviewRow).
                  x.package_hash ≡ row.deployment_json.handover.content_hash)
                (sym same) cc,
          ))

  pub decide_review-IsGoverned :
      (now : ℕ) (state_id : String) (boundary : Bool) (st : ProductionStore) (review_id : String)
      (payload : ReviewRequest) (identity : ActorIdentity)
      → IsGoverned st
      → IsGoverned (decide_review D now state_id boundary st review_id payload identity).store
  unfolding decide_review
  decide_review-IsGoverned now state_id boundary st review_id payload identity g =
      let P : Committed DeploymentReview → Type 0 = λ c. IsGoverned c.store in
      since-Leaves IsGoverned st _ g (
        Ensures-bind P (from_identity (authorize identity review_production_deployment)) _ λ _ _.
          Ensures-bind P (require_boundary boundary identity) _ λ _ _.
            Ensures-bind P (review st review_id) _ λ r read.
              Ensures-raise_if P (not (same_decision r.decision ReviewDecision.pending))
                production_deployment_review_already_decided _
                λ _. Ensures-deployment D P st r.deployment_id _ λ row there.
                  let d = row.deployment_json in
                  Ensures-raise_if P (not (str_eq r.package_hash d.handover.content_hash))
                    deployment_package_integrity_error _
                    λ hash. Ensures-bind P (environment_profile st d.environment_id) _ λ profile _.
                      Ensures-raise_if P (not (deployable profile))
                        production_environment_not_verified _
                        λ _.
                          Ensures-raise_if P (not (shadow_passed d.shadow))
                            production_shadow_not_passed _
                            λ _.
                              let updated = decided now r payload identity in
                              Ensures-bind P (record_decision D st review_id updated) _ λ st₁ wrote.
                                Ensures-then IsGoverned P
                                  (settle D now state_id st₁ review_id d payload.decision identity)
                                  _
                                  (settle-decided now state_id st st₁ review_id row r payload
                                    identity g read there
                                    ((str_eq_iff r.package_hash d.handover.content_hash).0
                                      (not-false _ hash))
                                    wrote)
                                  (λ st₂ g₂. g₂))
