-- ===== src/Registry/Governance/Verdict.antt =====
-- Decided release reviews: `decide_review` of src/airi/registry/service.py.
use airi.Prelude.{
  ℕ, String, ◌≡◌, refl, some, arith, ok, err, Ensures, Ensures-bind, Ensures-raise_if, Ensures-then,
  sym, subst, true, false, not, ◌||◌, str_eq_iff, opt_eq, opt_eq_iff, get-put_same,
}
use airi.Registry.Models.{
  ReleaseStatus, ReleaseVerdict, ReviewDecision, MetricRelease, ReleaseReview,
  ReleaseValidationReport, ReleaseDecisionRequest, Document,
}
use airi.Registry.Store.{Table, get, ReleaseRow, ReleaseReviewRow, Store}
use airi.Registry.Session.{
  get_row, release, version_by_id, validation_report, release_review, same_decision,
  release_review_already_decided,
}
use airi.Registry.Writes.{
  transition, release_transitions, saved_release, save_release, log_event, or_raise,
}
use airi.Registry.Releases.{ReleaseEvidence}
use airi.Registry.Decisions.{
  decision_of, decided_release, decided_review, decided_row, record_decision, decide_review,
}

-- The release row of the store is this release, and the reviews are those of `t`.
abbrev pub Saved : Table ReleaseReviewRow → MetricRelease → Store → Type 0
Saved t r st =
    (st.reviews ≡ t)
    × (row : ReleaseRow) × (get r.release_id st.releases ≡ some row)
    × (row.release_json ≡ r)

pub save_release-Saved :
    (now : ℕ) (st : Store) (r : MetricRelease)
    → Ensures (Saved st.reviews r) (save_release now st r)
unfolding save_release
save_release-Saved now st r =
    Ensures-bind (Saved st.reviews r) (get_row st.releases r.release_id) _ λ row _. (
      refl,
      saved_release row r now,
      get-put_same r.release_id (saved_release row r now) st.releases,
      refl,
    )

pub same_decision_sound : (d c : ReviewDecision) → same_decision d c ≡ true → d ≡ c
unfolding same_decision
same_decision_sound d c h = ground arith

module _ (canonical_hash : Document → String) where
  -- The row that the decision leaves in the review table `t`.
  abbrev pub Recorded : String → ReleaseReview → Table ReleaseReviewRow → Type 0
  Recorded id updated t =
      (row : ReleaseReviewRow) × (get id t ≡ some row)
      × (row.review_json ≡ updated)
      × (row.review_hash ≡ canonical_hash (Document.release_review updated))
      × (row.decision ≡ updated.decision)

  record_decision-Recorded :
      (now : ℕ) (st : Store) (id : String) (updated : ReleaseReview)
      (payload : ReleaseDecisionRequest)
      → decision_of payload.decision ≡ updated.decision
      → Ensures
          (λ (s : Store). Recorded id updated s.reviews)
          (record_decision canonical_hash now st id updated payload)
  unfolding record_decision
  record_decision-Recorded now st id updated payload says =
      let P = λ (s : Store). Recorded id updated s.reviews in
      Ensures-bind P (or_raise (get id st.reviews) (err release_review_already_decided)) _ λ row _.
        Ensures-raise_if P (not (same_decision row.decision ReviewDecision.pending)) _ _ λ _.
          let decided = decided_row canonical_hash row updated payload now in
          (decided, get-put_same id decided st.reviews, refl, refl, says)

  -- The evidence of a decision: the release's report is the one that the review names.
  abbrev pub IsBound : Store → ReleaseReview → MetricRelease → Type 0
  IsBound st review r =
      (report : ReleaseValidationReport) × (validation_report canonical_hash st r.release_id
        ≡ ok report)
      × (r.validation_report_hash ≡ review.validation_report_hash)
      × (some (canonical_hash (Document.validation_report report)) ≡ review.validation_report_hash)

  -- What each verdict makes of the review and of the release.
  abbrev pub Settles : ReleaseVerdict → ReviewDecision → MetricRelease → MetricRelease → Type 0
  Settles ReleaseVerdict.approved decision r r' =
      (decision ≡ ReviewDecision.approved)
      × (r.status ≡ ReleaseStatus.pending_release_review)
      × (r' ≡ record r { status = ReleaseStatus.approved })
  Settles ReleaseVerdict.rejected decision r r' =
      (decision ≡ ReviewDecision.rejected) × (r' ≡ record r { status = ReleaseStatus.failed })
  Settles ReleaseVerdict.need_more_evidence decision r r' =
      (decision ≡ ReviewDecision.need_more_evidence) × (r' ≡ r)

  decided_release-Settles :
      (v : ReleaseVerdict) (r : MetricRelease) {r' : MetricRelease}
      → decided_release r v ≡ ok r'
      → Settles v (decision_of v) r r'
  unfolding decided_release transition release_transitions
  decided_release-Settles ReleaseVerdict.approved r h = (refl, ground arith, ground arith)
  decided_release-Settles ReleaseVerdict.rejected r h = (refl, ground arith)
  decided_release-Settles ReleaseVerdict.need_more_evidence r h = (refl, ground arith)

  abbrev pub Decides : ℕ → Store → String → ReleaseDecisionRequest → Store × ReleaseReview → Type 0
  Decides now st id payload (st', updated) =
      (review : ReleaseReview) × (r : MetricRelease) × (r' : MetricRelease) × (release_review
          canonical_hash st id
        ≡ ok review)
      × (review.decision ≡ ReviewDecision.pending)
      × (updated ≡ record review {
        decision = updated.decision;
        reviewer = some payload.reviewer;
        comment = some payload.comment;
        reviewed_at = some now;
      })
      × (release canonical_hash st review.release_id ≡ ok r)
      × IsBound st review r
      × Settles payload.decision updated.decision r r'
      × (row : ReleaseRow) × (get r'.release_id st'.releases ≡ some row)
      × (row.release_json ≡ r')
      × Recorded id updated st'.reviews

  -- A decision that commits found the review pending and the release's validation report, as stored
  -- now, to be the one that the review was opened on. An approval moves the release from
  -- pending_release_review to approved, a rejection moves it to failed, and a request for more
  -- evidence leaves it as it is; that release is stored. The review is stored under its own digest
  -- with the verdict, the reviewer, the comment and the time, its other fields as they were.
  pub decide_review-Decides :
      (e : ReleaseEvidence) (now : ℕ) (st : Store) (id : String) (payload : ReleaseDecisionRequest)
      → Ensures (Decides now st id payload) (decide_review canonical_hash e now st id payload)
  unfolding decide_review log_event
  decide_review-Decides e now st id payload =
      let P = Decides now st id payload in
      Ensures-bind P (release_review canonical_hash st id) _ λ review read.
        Ensures-raise_if P (not (same_decision review.decision ReviewDecision.pending)) _ _
          λ pending. Ensures-bind P (release canonical_hash st review.release_id) _ λ r found.
            Ensures-bind P (validation_report canonical_hash st r.release_id) _ λ report stored.
              Ensures-raise_if P
                (not (opt_eq r.validation_report_hash review.validation_report_hash)
                  || not (
                      opt_eq (some (canonical_hash (Document.validation_report report)))
                        review.validation_report_hash))
                _ _
                λ same.
                  Ensures-bind P (version_by_id canonical_hash st r.metric_version_id) _ λ v _.
                    Ensures-bind P (e.evidence_checks v) _ λ _ _.
                      let updated = decided_review review payload now in
                      Ensures-then (λ (s : Store). Recorded id updated s.reviews) P
                        (record_decision canonical_hash now st id updated payload) _
                        (record_decision-Recorded now st id updated payload refl)
                        λ st₁ recorded.
                          Ensures-bind P (decided_release r payload.decision) _ λ r' moved.
                            Ensures-then (Saved st₁.reviews r') P (save_release now st₁ r') _
                              (save_release-Saved now st₁ r')
                              λ st₂ saved.
                                let (kept, row, at, json) = saved in
                                let bound : IsBound st review r = (
                                  report,
                                  stored,
                                  (opt_eq_iff r.validation_report_hash
                                        review.validation_report_hash).0
                                      (ground arith),
                                  (opt_eq_iff
                                        (some (canonical_hash (Document.validation_report report)))
                                        review.validation_report_hash).0
                                      (ground arith),
                                ) in
                                (
                                  review,
                                  r,
                                  r',
                                  read,
                                  same_decision_sound review.decision ReviewDecision.pending
                                      (ground arith),
                                  refl,
                                  found,
                                  bound,
                                  decided_release-Settles payload.decision r moved,
                                  row,
                                  at,
                                  json,
                                  subst (Recorded id updated) (sym kept) recorded,
                                )

  pub release_review-Recorded :
      (st : Store) (id : String) (updated : ReleaseReview)
      → Recorded id updated st.reviews
      → release_review canonical_hash st id ≡ ok updated
  unfolding release_review get_row same_decision
  release_review-Recorded st id updated (row, found, json, hash, decision) =
      ground (
        arith,
        str_eq_iff (canonical_hash (Document.release_review row.review_json)) row.review_hash,
      )

  pub decide_review-settled :
      (e : ReleaseEvidence) (now : ℕ) (st : Store) (id : String) (payload : ReleaseDecisionRequest)
      (review : ReleaseReview)
      → release_review canonical_hash st id ≡ ok review
      → same_decision review.decision ReviewDecision.pending ≡ false
      → decide_review canonical_hash e now st id payload ≡ err release_review_already_decided
  unfolding decide_review
  decide_review-settled e now st id payload review read settled = rw (read, settled) refl
