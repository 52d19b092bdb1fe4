-- ===== src/Production/Deployments/Governance/Finality.antt =====
-- The verdicts on a deployment that stand (src/airi/production/service.py:
-- DeploymentService.create_review and decide_review, the two operations that write the review table).
use airi.Prelude.{
  not-false, is_some-false, ℕ, String, ◌≡◌, ◌≢◌, refl, sym, subst, ◌⊎◌, inl, inr, Bool, false, not,
  ◌||◌, Option, Option-cases, some, arith, str_eq, str_eq_iff, is_some, Table, get, put,
  get-put_other, Distinct, put-Distinct, ok, err, Ensures, Ensures-bind, Ensures-raise_if,
  Ensures-then, returned, ◌∙◌, Bool-cases,
}
use airi.Production.Identity.{ActorIdentity, authorize, review_production_deployment}
use airi.Production.Deployments.Models.{
  ReviewDecision, DeploymentReview, ReviewRequest, Verdict, DeploymentStatus, deployable,
  ProductionDeployment,
}
use airi.Production.Deployments.Store.{
  DeploymentReviewRow, ProductionStore, from_registry, deployment_package_integrity_error,
  production_environment_not_verified, production_shadow_not_passed, Outcome, Committed, since,
  from_identity, production_deployment_review_already_decided,
  production_deployment_review_already_exists, production_deployment_not_ready_for_review,
  integrity_error,
}
use airi.Production.Deployments.Packaging.{Digests}
use airi.Production.Deployments.Session.{
  same_status, same_decision, same_decision_sound, shadow_passed, deployment, review, write,
}
use airi.Registry.Session.{version_by_id}
use airi.Production.Deployments.Environments.{environment_profile, log_event}
use airi.Production.Deployments.Rules.{
  Leaves, since-Leaves, Ensures-transition, Ensures-validated, Ensures-write, Ensures-write-last,
}
use airi.Production.Deployments.Governance.Verdict.{review-row, recorded}
use airi.Production.Deployments.Governance.Deciding.{review_of-found}
use airi.Production.Deployments.Reviews.{
  decide_review, settle, establish, decided, record_decision, changed_row, require_boundary,
  review_of, new_review, review_row, reopen, open_review, create_review,
}

-- An approval or a rejection.
abbrev pub IsVerdict : ReviewDecision → Type 0
IsVerdict d = (d ≡ ReviewDecision.approved) ⊎ (d ≡ ReviewDecision.rejected)

verdict-closed :
    (d : ReviewDecision)
    → IsVerdict d
    → (d ≢ ReviewDecision.pending) × (d ≢ ReviewDecision.need_more_evidence)
verdict-closed d (inl h) = ((λ e. cc), (λ e. cc))
verdict-closed d (inr h) = ((λ e. cc), (λ e. cc))

-- A row that stores a verdict.
abbrev HasVerdict : DeploymentReviewRow → Type 0
HasVerdict row = IsVerdict row.review_json.decision × (row.decision ≡ row.review_json.decision)

-- The table of reviews holds this row, under a key of its own.
abbrev Holds : String → DeploymentReviewRow → ProductionStore → Type 0
Holds id row st = Distinct st.reviews × (get id st.reviews ≡ some row)

put-Holds :
    (id : String) (row : DeploymentReviewRow) (k : String) (r : DeploymentReviewRow)
    (st : ProductionStore)
    → Holds id row st
    → get k st.reviews ≢ some row
    → Holds id row (record st { reviews = put k r st.reviews })
put-Holds id row k r st (distinct, there) other = (
  put-Distinct k r st.reviews distinct,
  elim (Bool-cases (str_eq k id)) [
    | inl same ↦ absurd (
        other (
          subst (λ (x : String). get x st.reviews ≡ some row) (sym ((str_eq_iff k id).0 same))
            there))
    | inr apart ↦
        let differ : k ≢ id = λ e. ground (arith, str_eq_iff k id) in
        subst (λ (x : Option DeploymentReviewRow). x ≡ some row)
          (sym (get-put_other k id r st.reviews differ)) there
  ],
)

either : (a b : Bool) → a || b ≡ false → a ≡ false
either a b h = ground arith

module _ (D : Digests) where
  settle-reviews :
      (now : ℕ) (state_id : String) (st : ProductionStore) (review_id : String)
      (d : ProductionDeployment) (verdict : Verdict) (identity : ActorIdentity)
      → Ensures
          (λ (st' : ProductionStore). st'.reviews ≡ st.reviews)
          (settle D now state_id st review_id d verdict identity)
  unfolding settle establish log_event
  settle-reviews now state_id st review_id d Verdict.need_more_evidence identity = refl
  settle-reviews now state_id st review_id d Verdict.rejected identity =
      let Q : ProductionStore → Type 0 = λ st'. st'.reviews ≡ st.reviews in
      Ensures-transition Q now d DeploymentStatus.failed (λ d₁. write now st d₁)
        λ _. Ensures-write-last Q now st _ λ found again. refl
  settle-reviews now state_id st review_id d Verdict.approved identity =
      let Q : ProductionStore → Type 0 = λ st'. st'.reviews ≡ st.reviews in
      Ensures-transition Q now d DeploymentStatus.approved _ λ _.
        Ensures-write Q now st _ _ λ found again.
          Ensures-bind Q (from_registry (version_by_id D.document st.registry d.metric_version_id))
            _ λ version _. refl

  since-raised :
      (st : ProductionStore) (m : Outcome (Committed DeploymentReview))
      → Ensures (λ (c : Committed DeploymentReview). ⊥) m
      → returned (since st m).result ≡ false
  since-raised st (ok c) h = absurd h
  since-raised st (err e) h = refl

  decided-refused :
      (now : ℕ) (state_id : String) (boundary : Bool) (st : ProductionStore) (review_id : String)
      (payload : ReviewRequest) (identity : ActorIdentity) (row : DeploymentReviewRow)
      → get review_id st.reviews ≡ some row
      → row.decision ≢ ReviewDecision.pending
      → returned (decide_review D now state_id boundary st review_id payload identity).result
        ≡ false
  unfolding decide_review
  decided-refused now state_id boundary st review_id payload identity row at done =
      let P : Committed DeploymentReview → Type 0 = λ c. ⊥ in
      since-raised st _ (
        Ensures-bind P (from_identity (authorize identity review_production_deployment)) _ λ _ _.
          Ensures-bind P (require_boundary boundary identity) _ λ _ _.
            Ensures-bind P (review st review_id) _ λ r read.
              Ensures-raise_if P (not (same_decision r.decision ReviewDecision.pending))
                production_deployment_review_already_decided _
                λ open'.
                  let (row', at', doc, decision, hash) = review-row D st review_id read in
                  let same : row' ≡ row = cc in
                  let is =
                    same_decision_sound r.decision ReviewDecision.pending (not-false _ open') in
                  absurd (
                    done (
                      subst (λ (x : DeploymentReviewRow). x.decision ≡ ReviewDecision.pending) same
                        (decision ∙ is))))

  module _ (id : String) (row : DeploymentReviewRow) (verdict : HasVerdict row) where
    reopen-Holds :
        (st : ProductionStore) (key : String) (found : DeploymentReviewRow)
        → Holds id row st
        → get key st.reviews ≡ some found
        → Leaves (Holds id row) (reopen D st key found)
    unfolding reopen
    reopen-Holds st key found h there =
        let P : Committed DeploymentReview → Type 0 = λ c. Holds id row c.store in
        Ensures-raise_if P
          (not (same_decision found.review_json.decision ReviewDecision.need_more_evidence))
          production_deployment_review_already_exists _
          λ more. put-Holds id row key _ st h λ is.
            let same : found ≡ row = cc in
            let asked =
              same_decision_sound found.review_json.decision ReviewDecision.need_more_evidence
                (not-false _ more) in
            (verdict-closed row.review_json.decision verdict.0).1 (cc)

    open_review-Holds :
        (now : ℕ) (key : String) (st : ProductionStore) (d : ProductionDeployment)
        → Holds id row st
        → Leaves (Holds id row) (open_review D now key st d)
    unfolding open_review
    open_review-Holds now key st d h =
        let P : Committed DeploymentReview → Type 0 = λ c. Holds id row c.store in
        let opened = review_row D now (new_review now key d) in
        let st₁ : ProductionStore = record st { reviews = put key opened st.reviews } in
        Ensures-raise_if P (not (same_status d.status DeploymentStatus.shadow_validated))
          production_deployment_not_ready_for_review _
          λ _. Ensures-raise_if P (not (shadow_passed d.shadow)) production_shadow_not_passed _ λ _.
            Ensures-raise_if P
              (is_some (get key st.reviews) || is_some (review_of d.deployment_id st.reviews))
              integrity_error _
              λ fresh.
                let absent = is_some-false (get key st.reviews) (either _ _ fresh) in
                Ensures-validated P (record d { review_id = some key }) _
                  λ _.
                    Ensures-transition P now (record d { review_id = some key })
                      DeploymentStatus.pending_deployment_review _
                      λ _.
                        Ensures-write P now st₁ _ _
                          λ found again. put-Holds id row key opened st h λ is. cc

    create_review-Holds :
        (now : ℕ) (key : String) (st : ProductionStore) (deployment_id : String)
        (identity : ActorIdentity)
        → Holds id row st
        → Holds id row (create_review D now key st deployment_id identity).store
    unfolding create_review
    create_review-Holds now key st deployment_id identity h =
        let P : Committed DeploymentReview → Type 0 = λ c. Holds id row c.store in
        since-Leaves (Holds id row) st _ h (
          Ensures-bind P (from_identity (authorize identity review_production_deployment)) _ λ _ _.
            Ensures-bind P (deployment D st deployment_id) _ λ d _.
              elim (Bool-cases (same_status d.status DeploymentStatus.pending_deployment_review)) [
                | inr other ↦ rw other (open_review-Holds now key st d h)
                | inl is ↦ rw is (elim (Option-cases (review_of deployment_id st.reviews)) [
                  | inl e ↦ rw e tt
                  | inr ((k, r), e) ↦
                      rw e
                        (reopen-Holds st k r h (review_of-found deployment_id st.reviews h.0 e).0)
                ])
              ])

    decide_review-Holds :
        (now : ℕ) (state_id : String) (boundary : Bool) (st : ProductionStore) (key : String)
        (payload : ReviewRequest) (identity : ActorIdentity)
        → Holds id row st
        → Holds id row (decide_review D now state_id boundary st key payload identity).store
    unfolding decide_review
    decide_review-Holds now state_id boundary st key payload identity h =
        let P : Committed DeploymentReview → Type 0 = λ c. Holds id row c.store in
        since-Leaves (Holds id row) st _ h (
          Ensures-bind P (from_identity (authorize identity review_production_deployment)) _ λ _ _.
            Ensures-bind P (require_boundary boundary identity) _ λ _ _.
              Ensures-bind P (review st key) _ λ r read.
                Ensures-raise_if P (not (same_decision r.decision ReviewDecision.pending))
                  production_deployment_review_already_decided _
                  λ _. Ensures-bind P (deployment D st r.deployment_id) _ λ d there.
                    Ensures-raise_if P (not (str_eq r.package_hash d.handover.content_hash))
                      deployment_package_integrity_error _
                      λ hash.
                        Ensures-bind P (environment_profile st d.environment_id) _ λ profile _.
                          Ensures-raise_if P (not (deployable profile))
                            production_environment_not_verified _
                            λ _.
                              Ensures-raise_if P (not (shadow_passed d.shadow))
                                production_shadow_not_passed _
                                λ _.
                                  let updated = decided now r payload identity in
                                  Ensures-bind P (record_decision D st key updated) _ λ st₁ wrote.
                                    let (found, at, was, is) = recorded D st key updated wrote in
                                    let held =
                                      put-Holds id row key (changed_row D found updated) st h λ it.
                                        let same : found ≡ row = cc in
                                        let says = verdict.1 in
                                        (verdict-closed row.review_json.decision verdict.0).0
                                          (cc) in
                                    let held₁ = subst (Holds id row) (sym is) held in
                                    Ensures-then
                                      (λ (st₂ : ProductionStore). st₂.reviews ≡ st₁.reviews) P
                                      (settle D now state_id st₁ key d payload.decision identity) _
                                      (settle-reviews now state_id st₁ key d payload.decision
                                        identity)
                                      (λ st₂ same.
                                        subst
                                          (λ (t : Table DeploymentReviewRow).
                                            Distinct t × (get id t ≡ some row))
                                          (sym same) held₁))

  -- Calls that open, reopen and decide reviews, whether they return or raise, in any order, among any
  -- changes elsewhere.
  pub data Reviewing : ProductionStore → ProductionStore → Type 0 where
    unchanged : {st : ProductionStore} → Reviewing st st
    opened :
        {st mid : ProductionStore} (now : ℕ) (id deployment_id : String) (identity : ActorIdentity)
        → Reviewing st mid
        → Reviewing st (create_review D now id mid deployment_id identity).store
    decided_on :
        {st mid : ProductionStore} (now : ℕ) (state_id : String) (boundary : Bool) (id : String)
        (payload : ReviewRequest) (identity : ActorIdentity)
        → Reviewing st mid
        → Reviewing st (decide_review D now state_id boundary mid id payload identity).store
    elsewhere :
        {st mid st' : ProductionStore}
        → Reviewing st mid
        → st'.reviews ≡ mid.reviews
        → Reviewing st st'

  Reviewing-Holds :
      (id : String) (row : DeploymentReviewRow) {st st' : ProductionStore}
      → HasVerdict row
      → Reviewing st st'
      → Holds id row st
      → Holds id row st'
  Reviewing-Holds id row v unchanged h = h
  Reviewing-Holds id row v (opened {mid = mid} now key deployment_id identity before) h =
      create_review-Holds id row v now key mid deployment_id identity
        (Reviewing-Holds id row v before h)
  Reviewing-Holds id row v
        (decided_on {mid = mid} now state_id boundary key payload identity before) h =
      decide_review-Holds id row v now state_id boundary mid key payload identity
        (Reviewing-Holds id row v before h)
  Reviewing-Holds id row v (elsewhere before same) h =
      subst (λ (t : Table DeploymentReviewRow). Distinct t × (get id t ≡ some row)) (sym same)
        (Reviewing-Holds id row v before h)

  review-same :
      (st st' : ProductionStore) (id : String)
      → get id st'.reviews ≡ get id st.reviews
      → review st' id ≡ review st id
  unfolding review
  review-same st st' id same = rw (same, review) refl

  -- A deployment review that reads as approved or as rejected is final. Through any calls of
  -- create_review and decide_review, whether they return or raise, in any order and among any changes
  -- that leave the review table as it is, it reads as it did, and no further decision on it
  -- returns, whoever makes it and whatever it says. Review ids must be distinct. A review whose
  -- decision is need_more_evidence is not final: create_review reopens it.
  pub decide_review-stands :
      {st st' : ProductionStore} (id : String) (r : DeploymentReview)
      → Distinct st.reviews
      → review st id ≡ ok r
      → (r.decision ≡ ReviewDecision.approved) ⊎ (r.decision ≡ ReviewDecision.rejected)
      → Reviewing st st'
      → (now : ℕ) (state_id : String) (boundary : Bool) (payload : ReviewRequest)
        (identity : ActorIdentity)
      → (review st' id ≡ ok r)
        × (returned (decide_review D now state_id boundary st' id payload identity).result ≡ false)
  decide_review-stands {st} {st'} id r distinct read verdict run now state_id boundary payload
        identity =
      let (row, at, json, column, hash) = review-row D st id read in
      let stored : HasVerdict row = (rw (sym json) verdict, cc) in
      let held = Reviewing-Holds id row stored run (distinct, at) in
      let says = stored.1 in
      (
        review-same st st' id (held.1 ∙ sym at) ∙ read,
        decided-refused now state_id boundary st' id payload identity row held.1
            (λ e. (verdict-closed row.review_json.decision stored.0).0 (cc)),
      )
