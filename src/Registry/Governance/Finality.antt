-- ===== src/Registry/Governance/Finality.antt =====
-- The verdicts on a release that stand: `decide_review` and `create_review` of
-- src/airi/registry/service.py, the two operations that write the review table.
use airi.Prelude.{
  ℕ, String, ◌≡◌, ◌≢◌, refl, sym, subst, ◌⊎◌, inl, inr, true, false, not, ◌||◌, Option,
  Option-cases, some, [], ◌∷◌, arith, ok, err, str_eq, str_eq_iff, opt_eq, is_some, Bool-cases,
  Ensures, Ensures-at, Ensures-bind, Ensures-raise_if, Ensures-then, get-put_other, ◌∙◌,
}
use airi.Registry.Models.{
  ReviewDecision, ReleaseStatus, ReleaseEligibility, MetricRelease, ReleaseReview,
  ReleaseDecisionRequest, Document,
}
use airi.Registry.Store.{Table, get, put, Distinct, put-Distinct, ReleaseReviewRow, Store}
use airi.Registry.Session.{
  release, version_by_id, validation_report, release_review, same_decision, same_release_status,
  same_eligibility, get_row, release_review_already_decided,
}
use airi.Registry.Writes.{transition, save_release, log_event, or_raise}
use airi.Registry.Releases.{ReleaseEvidence, find_review, reopen_review, open_review, create_review}
use airi.Registry.Decisions.{
  decided_release, decided_review, decided_row, record_decision, decide_review,
}
use airi.Registry.Integrity.Reads.{or_raise-eq-ok}
use airi.Registry.Governance.Verdict.{
  Saved, save_release-Saved, decide_review-settled, same_decision_sound,
}

find_review-found :
    (id : String) (t : Table ReleaseReviewRow) {key : String} {row : ReleaseReviewRow}
    → Distinct t
    → find_review id t ≡ some (key, row)
    → get key t ≡ some row
unfolding find_review get
find_review-found id [] h e = cc
find_review-found id ((j, s) ∷ t) {key} {row} h e = elim (Bool-cases (str_eq s.release_id id)) [
  | inl is ↦
      let at : j ≡ key = ground arith in
      let same : s ≡ row = ground arith in ground (arith, str_eq_iff j key)
  | inr other ↦
      let found : get key t ≡ some row = find_review-found id t h.1 (ground arith) in
      ground (arith, str_eq_iff j key)
]

-- An approval or a rejection.
abbrev pub IsVerdict : ReviewDecision → Type 0
IsVerdict d = (d ≡ ReviewDecision.approved) ⊎ (d ≡ ReviewDecision.rejected)

verdict-closed :
    (d : ReviewDecision)
    → IsVerdict d
    → (d ≢ ReviewDecision.pending) × (d ≢ ReviewDecision.need_more_evidence)
verdict-closed d (inl h) = ((λ e. cc), (λ e. cc))
verdict-closed d (inr h) = ((λ e. cc), (λ e. cc))

-- A row that stores a verdict.
abbrev HasVerdict : ReleaseReviewRow → Type 0
HasVerdict row = IsVerdict row.review_json.decision × (row.decision ≡ row.review_json.decision)

module _ (id : String) (row : ReleaseReviewRow) where
  -- The table of reviews holds this row, under a key of its own.
  abbrev Holds : Table ReleaseReviewRow → Type 0
  Holds t = Distinct t × (get id t ≡ some row)

  put-Holds :
      (k : String) (r : ReleaseReviewRow) (t : Table ReleaseReviewRow)
      → Holds t
      → get k t ≢ some row
      → Holds (put k r t)
  put-Holds k r t (distinct, there) other = (
    put-Distinct k r t distinct,
    elim (Bool-cases (str_eq k id)) [
      | inl same ↦ absurd (
          other (subst (λ (x : String). get x t ≡ some row) (sym ((str_eq_iff k id).0 same)) there))
      | inr apart ↦
          let differ : k ≢ id = λ e. ground (arith, str_eq_iff k id) in
          subst (λ (x : Option ReleaseReviewRow). x ≡ some row)
            (sym (get-put_other k id r t differ)) there
    ],
  )

  module _ (canonical_hash : Document → String) (verdict : HasVerdict row) where
    reopen_review-Holds :
        (now : ℕ) (st : Store) (r : MetricRelease) (release_id : String)
        → Holds st.reviews
        → Ensures
            (λ (x : Store × ReleaseReview). Holds x.0.reviews)
            (reopen_review canonical_hash now st r (find_review release_id st.reviews))
    unfolding reopen_review
    reopen_review-Holds now st r release_id h =
        elim (Option-cases (find_review release_id st.reviews)) [
          | inl e ↦ rw e tt
          | inr ((key, existing), e) ↦
              let found = find_review-found release_id st.reviews h.0 e in
              rw e (
                Ensures-raise_if (λ (x : Store × ReleaseReview). Holds x.0.reviews)
                  (not
                    (same_decision existing.review_json.decision ReviewDecision.need_more_evidence))
                  _ _
                  λ more. put-Holds key _ st.reviews h λ is.
                    let same : existing ≡ row = cc in
                    let asked =
                      same_decision_sound existing.review_json.decision
                        ReviewDecision.need_more_evidence (ground arith) in
                    (verdict-closed row.review_json.decision verdict.0).1 (cc))
        ]

    open_review-Holds :
        (now : ℕ) (key : String) (st : Store) (r : MetricRelease)
        (existing : Option (String × ReleaseReviewRow))
        → Holds st.reviews
        → Ensures
            (λ (x : Store × ReleaseReview). Holds x.0.reviews)
            (open_review canonical_hash now key st r existing)
    unfolding open_review
    open_review-Holds now key st r existing h =
        let P = λ (x : Store × ReleaseReview). Holds x.0.reviews in
        Ensures-raise_if P (not (same_release_status r.status ReleaseStatus.staging_validated)) _ _
          λ _. Ensures-bind P (validation_report canonical_hash st r.release_id) _ λ report _.
            Ensures-raise_if P
              (not (
                same_eligibility report.release_eligibility
                  ReleaseEligibility.eligible_for_release_review))
              _ _
              λ _. Ensures-bind P (transition r ReleaseStatus.pending_release_review) _ λ r' moved.
                Ensures-then (Saved _ r') P (save_release now _ r') _ (save_release-Saved now _ r')
                  λ st' saved.
                    Ensures-raise_if P (is_some existing || is_some (get key st.reviews)) _ _
                      λ fresh.
                        subst Holds (sym saved.0)
                          (put-Holds key _ st.reviews h λ is. absurd (ground arith))

    create_review-Holds :
        (now : ℕ) (key : String) (st : Store) (release_id : String)
        → Holds st.reviews
        → Ensures
            (λ (x : Store × ReleaseReview). Holds x.0.reviews)
            (create_review canonical_hash now key st release_id)
    unfolding create_review
    create_review-Holds now key st release_id h =
        let P = λ (x : Store × ReleaseReview). Holds x.0.reviews in
        Ensures-bind P (release canonical_hash st release_id) _ λ r read.
          let existing = find_review release_id st.reviews in
          elim (Bool-cases (same_release_status r.status ReleaseStatus.pending_release_review)) [
            | inl waits ↦ rw waits (reopen_review-Holds now st r release_id h)
            | inr other ↦ rw other (open_review-Holds now key st r existing h)
          ]

    record_decision-Holds :
        (now : ℕ) (st : Store) (key : String) (updated : ReleaseReview)
        (payload : ReleaseDecisionRequest)
        → Holds st.reviews
        → Ensures
            (λ (s : Store). Holds s.reviews)
            (record_decision canonical_hash now st key updated payload)
    unfolding record_decision
    record_decision-Holds now st key updated payload h =
        let Q = λ (s : Store). Holds s.reviews in
        Ensures-bind Q (or_raise (get key st.reviews) (err release_review_already_decided)) _
          λ found there.
            Ensures-raise_if Q (not (same_decision found.decision ReviewDecision.pending)) _ _
              λ open'.
                put-Holds key (decided_row canonical_hash found updated payload now) st.reviews h
                  λ is.
                    let at = or_raise-eq-ok (get key st.reviews) _ there in
                    let same : found ≡ row = cc in
                    let pending =
                      same_decision_sound found.decision ReviewDecision.pending (ground arith) in
                    let says = verdict.1 in
                    (verdict-closed row.review_json.decision verdict.0).0 (cc)

    decide_review-Holds :
        (e : ReleaseEvidence) (now : ℕ) (st : Store) (key : String)
        (payload : ReleaseDecisionRequest)
        → Holds st.reviews
        → Ensures
            (λ (x : Store × ReleaseReview). Holds x.0.reviews)
            (decide_review canonical_hash e now st key payload)
    unfolding decide_review log_event
    decide_review-Holds e now st key payload h =
        let P = λ (x : Store × ReleaseReview). Holds x.0.reviews in
        Ensures-bind P (release_review canonical_hash st key) _ λ review _.
          Ensures-raise_if P (not (same_decision review.decision ReviewDecision.pending)) _ _ λ _.
            Ensures-bind P (release canonical_hash st review.release_id) _ λ r read.
              Ensures-bind P (validation_report canonical_hash st r.release_id) _ λ report _.
                Ensures-raise_if P
                  (not (opt_eq r.validation_report_hash review.validation_report_hash)
                    || not (
                        opt_eq (some (canonical_hash (Document.validation_report report)))
                          review.validation_report_hash))
                  _ _
                  λ _. Ensures-bind P (version_by_id canonical_hash st r.metric_version_id) _ λ v _.
                    Ensures-bind P (e.evidence_checks v) _ λ _ _.
                      let updated = decided_review review payload now in
                      Ensures-then (λ (s : Store). Holds s.reviews) P
                        (record_decision canonical_hash now st key updated payload) _
                        (record_decision-Holds now st key updated payload h)
                        λ st₁ held.
                          Ensures-bind P (decided_release r payload.decision) _ λ r' moved.
                            Ensures-then (Saved st₁.reviews r') P (save_release now st₁ r') _
                              (save_release-Saved now st₁ r')
                              λ st₂ saved. subst Holds (sym saved.0) held

module _ (canonical_hash : Document → String) where
  -- Calls that open, reopen and decide reviews, in any order, among any changes elsewhere.
  pub data Reviewing : Store → Store → Type 0 where
    unchanged : {st : Store} → Reviewing st st
    opened :
        {st mid st' : Store} (now : ℕ) (id release_id : String) {r : ReleaseReview}
        → Reviewing st mid
        → create_review canonical_hash now id mid release_id ≡ ok (st', r)
        → Reviewing st st'
    decided :
        {st mid st' : Store} (e : ReleaseEvidence) (now : ℕ) (id : String)
        (payload : ReleaseDecisionRequest) {r : ReleaseReview}
        → Reviewing st mid
        → decide_review canonical_hash e now mid id payload ≡ ok (st', r)
        → Reviewing st st'
    elsewhere :
        {st mid st' : Store} → Reviewing st mid → st'.reviews ≡ mid.reviews → Reviewing st st'

  Reviewing-Holds :
      (id : String) (row : ReleaseReviewRow) {st st' : Store}
      → HasVerdict row
      → Reviewing st st'
      → Holds id row st.reviews
      → Holds id row st'.reviews
  Reviewing-Holds id row v unchanged h = h
  Reviewing-Holds id row v (opened {mid = mid} now key release_id before e) h =
      Ensures-at (λ (x : Store × ReleaseReview). Holds id row x.0.reviews) _
        (create_review-Holds id row canonical_hash v now key mid release_id
          (Reviewing-Holds id row v before h))
        e
  Reviewing-Holds id row v (decided {mid = mid} evidence now key payload before e) h =
      Ensures-at (λ (x : Store × ReleaseReview). Holds id row x.0.reviews) _
        (decide_review-Holds id row canonical_hash v evidence now mid key payload
          (Reviewing-Holds id row v before h))
        e
  Reviewing-Holds id row v (elsewhere before same) h =
      subst (Holds id row) (sym same) (Reviewing-Holds id row v before h)

  row_of-verdict :
      (st : Store) (id : String) (review : ReleaseReview)
      → release_review canonical_hash st id ≡ ok review
      → (row : ReleaseReviewRow) × (get id st.reviews ≡ some row)
        × (row.review_json ≡ review)
        × (row.decision ≡ review.decision)
  unfolding release_review get_row
  row_of-verdict st id review read = elim (Option-cases (get id st.reviews)) [
    | inl e ↦ absurd (ground arith)
    | inr (row, e) ↦
        let same : row.review_json ≡ review = ground arith in
        let agrees : same_decision row.review_json.decision row.decision ≡ true = ground arith in
        let columns = same_decision_sound row.review_json.decision row.decision agrees in
        (row, e, same, cc)
  ]

  release_review-same :
      (st st' : Store) (id : String)
      → get id st'.reviews ≡ get id st.reviews
      → release_review canonical_hash st' id ≡ release_review canonical_hash st id
  unfolding release_review get_row
  release_review-same st st' id same = rw (same, release_review, get_row) refl

  settled : (d : ReviewDecision) → IsVerdict d → same_decision d ReviewDecision.pending ≡ false
  unfolding same_decision
  settled d (inl h) = rw h refl
  settled d (inr h) = rw h refl

  -- A release review that reads as approved or as rejected is final. Through any calls of
  -- create_review and decide_review, in any order and among any changes that leave the review table
  -- as it is, it reads as it did, and every further decision on it raises
  -- release_review_already_decided, whatever the evidence then is. Review ids must be distinct. A
  -- review whose decision is need_more_evidence is not final: create_review reopens it.
  pub decide_review-final :
      {st st' : Store} (id : String) (review : ReleaseReview)
      → Distinct st.reviews
      → release_review canonical_hash st id ≡ ok review
      → (review.decision ≡ ReviewDecision.approved) ⊎ (review.decision ≡ ReviewDecision.rejected)
      → Reviewing st st'
      → (e : ReleaseEvidence) (now : ℕ) (payload : ReleaseDecisionRequest)
      → (release_review canonical_hash st' id ≡ ok review)
        × (decide_review canonical_hash e now st' id payload ≡ err release_review_already_decided)
  decide_review-final {st} {st'} id review distinct read verdict run e now payload =
      let (row, at, json, column) = row_of-verdict st id review read in
      let stored : HasVerdict row = (rw json verdict, cc) in
      let held = Reviewing-Holds id row stored run (distinct, at) in
      let still : release_review canonical_hash st' id ≡ ok review =
        release_review-same st st' id (held.1 ∙ sym at) ∙ read in
      (
        still,
        decide_review-settled canonical_hash e now st' id payload review still
            (settled review.decision verdict),
      )
