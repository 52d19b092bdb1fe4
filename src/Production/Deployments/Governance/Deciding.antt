-- ===== src/Production/Deployments/Governance/Deciding.antt =====
-- The opening of the human review keeps the invariant (src/airi/production/service.py:
-- DeploymentService.create_review).
use airi.Prelude.{
  not-false, is_some-false, ℕ, String, ◌≡◌, ◌≢◌, refl, sym, subst, inl, inr, Bool, true, false, not,
  ◌||◌, none, some, Option-cases, is_some, ◌∷◌, [], arith, str_eq, str_eq_iff, Table, get, put,
  Distinct, Ensures-bind, Ensures-raise_if, Bool-cases,
}
use airi.Production.Identity.{ActorIdentity, authorize, review_production_deployment}
use airi.Production.Deployments.Models.{ReviewDecision, DeploymentReview, DeploymentStatus}
use airi.Production.Deployments.Store.{
  DeploymentRow, DeploymentReviewRow, ProductionStore, Committed, from_identity,
  production_deployment_review_already_exists, production_deployment_not_ready_for_review,
  production_shadow_not_passed, integrity_error,
}
use airi.Production.Deployments.Packaging.{Digests}
use airi.Production.Deployments.Session.{
  same_status, same_status_sound, same_decision, same_decision_sound, shadow_passed, written_row,
}
use airi.Production.Deployments.Reviews.{
  review_of, new_review, review_row, reopen, open_review, create_review,
}
use airi.Production.Deployments.Rules.{
  Leaves, since-Leaves, Ensures-validated, Ensures-transition, Ensures-deployment, Ensures-write,
}
use airi.Production.Deployments.Governance.{
  past_preflight, past_shadow, past_review, IsSound, IsGoverned,
}
use airi.Production.Deployments.Governance.Writes.{review-Governed, open-Governed}

pub review_of-found :
    (id : String) (t : Table DeploymentReviewRow) {key : String} {row : DeploymentReviewRow}
    → Distinct t
    → review_of id t ≡ some (key, row)
    → (get key t ≡ some row) × (row.deployment_id ≡ id)
unfolding review_of get
review_of-found id [] h e = cc
review_of-found id ((j, s) ∷ t) {key} {row} h e = elim (Bool-cases (str_eq s.deployment_id id)) [
  | inl is ↦
      let at : j ≡ key = ground arith in
      let same : s ≡ row = ground arith in
      (ground (arith, str_eq_iff j key), ground (arith, str_eq_iff s.deployment_id id))
  | inr is ↦
      let rest : (get key t ≡ some row) × (row.deployment_id ≡ id) =
        review_of-found id t h.1 (ground arith) in
      let found = rest.0 in (ground (arith, str_eq_iff j key), rest.1)
]

pub review_of-none :
    (id : String) (t : Table DeploymentReviewRow)
    → review_of id t ≡ none
    → (k : String) (r : DeploymentReviewRow) → get k t ≡ some r
    → r.deployment_id ≢ id
unfolding review_of get
review_of-none id [] h k r e = cc
review_of-none id ((j, s) ∷ t) h k r e = elim (Bool-cases (str_eq s.deployment_id id)) [
  | inl is ↦ absurd (ground arith)
  | inr is ↦ elim (Bool-cases (str_eq j k)) [
    | inl at ↦ let same : s ≡ r = ground arith in ground (arith, str_eq_iff s.deployment_id id)
    | inr at ↦ review_of-none id t (ground arith) k r (ground arith)
  ]
]

neither : (a b : Bool) → a || b ≡ false → (a ≡ false) × (b ≡ false)
neither a b h = (ground arith, ground arith)

undecided :
    (d : ReviewDecision) → d ≡ ReviewDecision.need_more_evidence → d ≢ ReviewDecision.approved
undecided d h e = cc

-- the row of a deployment whose review is opened
opened-IsSound :
    (reviews : Table DeploymentReviewRow) (now : ℕ) (id : String) (old found : DeploymentRow)
    → IsSound reviews old.deployment_json.deployment_id old
    → old.deployment_json.status ≡ DeploymentStatus.shadow_validated
    → shadow_passed old.deployment_json.shadow ≡ true
    → IsSound reviews old.deployment_json.deployment_id (
        written_row now found (record old.deployment_json {
          review_id = some id;
          status = DeploymentStatus.pending_deployment_review;
          updated_at = now;
        }))
unfolding past_preflight past_shadow past_review
opened-IsSound reviews now id old found s at passed = record {
  named = refl;
  shown = refl;
  packaged = s.packaged;
  preflighted = λ _. s.preflighted (rw at refl);
  shadowed = λ _. passed;
  reviewed = λ e. ground arith;
  undeployed = s.undeployed;
}

module _ (D : Digests) where
  reopen-IsGoverned :
      (st : ProductionStore) (key : String) (row : DeploymentReviewRow)
      → IsGoverned st
      → get key st.reviews ≡ some row
      → Leaves IsGoverned (reopen D st key row)
  unfolding reopen
  reopen-IsGoverned st key row g there =
      let P : Committed DeploymentReview → Type 0 = λ c. IsGoverned c.store in
      Ensures-raise_if P
        (not (same_decision row.review_json.decision ReviewDecision.need_more_evidence))
        production_deployment_review_already_exists _
        λ more.
          let (d, at, names, says) = g.bound key row there in
          review-Governed st.deployments st.reviews key row _ g there
            (λ approved.
              undecided row.review_json.decision
                (same_decision_sound row.review_json.decision ReviewDecision.need_more_evidence
                  (not-false _ more))
                (let same = says.1 in cc))
            refl (says.0, refl)

  open_review-IsGoverned :
      (now : ℕ) (id key : String) (st : ProductionStore) (row : DeploymentRow)
      → IsGoverned st
      → get key st.deployments ≡ some row
      → Leaves IsGoverned (open_review D now id st row.deployment_json)
  unfolding open_review
  open_review-IsGoverned now id key st row g there =
      let P : Committed DeploymentReview → Type 0 = λ c. IsGoverned c.store in
      let d = row.deployment_json in
      let s : IsSound st.reviews d.deployment_id row =
        subst (λ x. IsSound st.reviews x row) (sym (g.sound key row there).named)
          (g.sound key row there) in
      let st₁ : ProductionStore = record st {
        reviews = put id (review_row D now (new_review now id d)) st.reviews;
      } in
      let opened = record d {
        review_id = some id;
        status = DeploymentStatus.pending_deployment_review;
        updated_at = now;
      } in
      Ensures-raise_if P (not (same_status d.status DeploymentStatus.shadow_validated))
        production_deployment_not_ready_for_review _
        λ at.
          Ensures-raise_if P (not (shadow_passed d.shadow)) production_shadow_not_passed _ λ passed.
            Ensures-raise_if P
              (is_some (get id st.reviews) || is_some (review_of d.deployment_id st.reviews))
              integrity_error _
              λ fresh.
                let (no_key, no_review) = neither _ _ fresh in
                Ensures-validated P (record d { review_id = some id }) _
                  λ _.
                    Ensures-transition P now (record d { review_id = some id })
                      DeploymentStatus.pending_deployment_review _
                      λ _. Ensures-write P now st₁ opened _ λ found again.
                        open-Governed st.deployments st.reviews id d.deployment_id
                          (review_row D now (new_review now id d)) found
                          (written_row now found opened) g
                          (is_some-false (get id st.reviews) no_key) again
                          (review_of-none d.deployment_id st.reviews
                            (is_some-false (review_of d.deployment_id st.reviews) no_review))
                          refl (refl, refl) refl
                          (opened-IsSound st.reviews now id row found s
                            (same_status_sound d.status DeploymentStatus.shadow_validated
                              (not-false _ at))
                            (not-false _ passed))

  pub create_review-IsGoverned :
      (now : ℕ) (id : String) (st : ProductionStore) (deployment_id : String)
      (identity : ActorIdentity)
      → IsGoverned st
      → IsGoverned (create_review D now id st deployment_id identity).store
  unfolding create_review
  create_review-IsGoverned now id st deployment_id identity g =
      let P : Committed DeploymentReview → Type 0 = λ c. IsGoverned c.store in
      since-Leaves IsGoverned st _ g (
        Ensures-bind P (from_identity (authorize identity review_production_deployment)) _ λ _ _.
          Ensures-deployment D P st deployment_id _ λ row there.
            let d = row.deployment_json in
            elim (Bool-cases (same_status d.status DeploymentStatus.pending_deployment_review)) [
              | inr other ↦ rw other (open_review-IsGoverned now id deployment_id st row g there)
              | inl is ↦ rw is (elim (Option-cases (review_of deployment_id st.reviews)) [
                | inl e ↦ rw e tt
                | inr ((key, r), e) ↦ rw e (
                    reopen-IsGoverned st key r g
                      (review_of-found deployment_id st.reviews g.distinct e).0)
              ])
            ])
