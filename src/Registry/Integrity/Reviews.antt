-- ===== src/Registry/Integrity/Reviews.antt =====
-- Consistency of the registry's rows over `validate`, `create_review` and `decide_review`
-- (src/airi/registry/service.py).
use airi.Prelude.{
  ℕ, String, ◌≡◌, refl, Option, none, some, arith, ok, err, Ensures, Ensures-bind, Ensures-raise_if,
  Ensures-then, sym, subst, inl, inr, Bool-cases, ◌||◌, opt_eq, not, is_some,
}
use airi.Registry.Models.{
  ReleaseStatus, ReleaseEligibility, ReleaseEventType, MetricRelease, ReleaseReview, ReviewDecision,
  ReleaseVerdict, ReleaseDecisionRequest, Document, ReleaseValidationReport,
}
use airi.Registry.Store.{get, put, put-AllRows, ReleaseReviewRow, Store}
use airi.Registry.Session.{
  release, definition_by_id, version_by_id, validation_report, release_review, same_release_status,
  same_decision, same_eligibility, release_review_already_decided,
}
use airi.Registry.Writes.{transition, save_release, or_raise}
use airi.Registry.Diagnostics.{assess}
use airi.Registry.Releases.{
  ReleaseEvidence, report_of, shadow_of, validated_status, report_row, validate, reopen_review,
  open_review, find_review, create_review,
}
use airi.Registry.Decisions.{
  decided_review, decided_release, decision_event, record_decision, decide_review,
}
use airi.Registry.Integrity.{
  IsConsistent, IsStored, IsStored-IsKnown, SameIdentity, ValidationAgrees, ReviewAgrees, GoodWith,
  save_release-IsConsistent, log_event-IsConsistent,
}
use airi.Registry.Integrity.Reads.{transition-eq-ok, release-IsStored, Commits}

module _ (canonical_hash : Document → String) where
  abbrev Good : Store → Type 0
  Good = IsConsistent canonical_hash

  -- Storing a review's row whose columns repeat its document.
  reviewed-Good :
      (st : Store) (id : String) (row : ReleaseReviewRow)
      → Good st
      → ReviewAgrees canonical_hash id row
      → Good (record st { reviews = put id row st.reviews })
  reviewed-Good st id row c agrees = record {
    definitions = c.definitions;
    versions = c.versions;
    releases = c.releases;
    validations = c.validations;
    reviews = put-AllRows (ReviewAgrees canonical_hash) id row st.reviews c.reviews agrees;
    rollbacks = c.rollbacks;
    distinct = c.distinct;
  }

  -- Storing a report with its own digest.
  reported-Good :
      (st : Store) (id : String) (report : ReleaseValidationReport) (now : ℕ)
      → Good st
      → Good
          (record st { validations = put id (report_row canonical_hash report now) st.validations })
  reported-Good st id report now c = record {
    definitions = c.definitions;
    versions = c.versions;
    releases = c.releases;
    validations =
        put-AllRows (ValidationAgrees canonical_hash) id (report_row canonical_hash report now)
          st.validations c.validations (refl, refl, refl);
    reviews = c.reviews;
    rollbacks = c.rollbacks;
    distinct = c.distinct;
  }

  -- From a consistent store, every validation that commits leaves a consistent store, whatever the
  -- evidence and the executions returned.
  pub validate-IsConsistent :
      (e : ReleaseEvidence) (now : ℕ) (st : Store) (id : String)
      → IsConsistent canonical_hash st
      → Ensures (Commits canonical_hash) (validate canonical_hash e now st id)
  unfolding validate
  validate-IsConsistent e now st id c =
      let P = Commits canonical_hash in
      Ensures-bind P (release canonical_hash st id) _ λ r read.
        Ensures-raise_if P
          (not (same_release_status r.status ReleaseStatus.pending_staging_validation)) _ _
          λ _. Ensures-bind P (version_by_id canonical_hash st r.metric_version_id) _ λ v _.
            Ensures-bind P (definition_by_id st v.metric_definition_id) _ λ d _.
              Ensures-bind P (e.evidence_checks v) _ λ _ _.
                Ensures-bind P (e.run_staging r v) _ λ staging _.
                  Ensures-bind P (shadow_of canonical_hash e r v d staging) _ λ shadow _.
                    let report =
                      report_of canonical_hash r v staging shadow
                        (assess staging shadow r.release_policy v.synthetic_data) now in
                    Ensures-raise_if P (is_some (get r.release_id st.validations)) _ _ λ _.
                      let dated : MetricRelease = record r {
                        validated_at = some now;
                        validation_report_hash =
                            some (canonical_hash (Document.validation_report report));
                      } in
                      Ensures-bind P
                        (transition dated (validated_status canonical_hash report.status)) _
                        λ r' moved.
                          let same =
                            (transition-eq-ok dated (validated_status canonical_hash report.status)
                              moved).1 in
                          let st₁ : Store = record st {
                            validations =
                                put r.release_id (report_row canonical_hash report now)
                                  st.validations;
                          } in
                          Ensures-then Good P (save_release now st₁ r') _
                            (save_release-IsConsistent canonical_hash now st₁ r'
                              (reported-Good st r.release_id report now c)
                              (IsStored-IsKnown st.releases r r'
                                (release-IsStored canonical_hash st id c read) (ground arith)))
                            λ st₂ c₂.
                              log_event-IsConsistent canonical_hash now st₂ r.metric_definition_id
                                ReleaseEventType.staging_validated "registry-service"
                                (some v.metric_version_id) (some r.release_id) c₂

  reopen_review-Commits :
      (now : ℕ) (st : Store) (r : MetricRelease) (existing : Option (String × ReleaseReviewRow))
      → Good st
      → Ensures (Commits canonical_hash) (reopen_review canonical_hash now st r existing)
  unfolding reopen_review
  reopen_review-Commits now st r none c = tt
  reopen_review-Commits now st r (some (key, existing)) c =
      Ensures-raise_if (Commits canonical_hash)
        (not (same_decision existing.review_json.decision ReviewDecision.need_more_evidence)) _ _
        λ _. reviewed-Good st key _ c (refl, refl)

  open_review-Commits :
      (now : ℕ) (id : String) (st : Store) (r : MetricRelease)
      (existing : Option (String × ReleaseReviewRow))
      → Good st
      → IsStored st.releases r
      → Ensures (Commits canonical_hash) (open_review canonical_hash now id st r existing)
  unfolding open_review
  open_review-Commits now id st r existing c stored =
      let P = Commits canonical_hash in
      Ensures-raise_if P (not (same_release_status r.status ReleaseStatus.staging_validated)) _ _
        λ _. Ensures-bind P (validation_report canonical_hash st r.release_id) _ λ report _.
          Ensures-raise_if P
            (not (
              same_eligibility report.release_eligibility
                ReleaseEligibility.eligible_for_release_review))
            _ _
            λ _. Ensures-bind P (transition r ReleaseStatus.pending_release_review) _ λ r' moved.
              let same = (transition-eq-ok r ReleaseStatus.pending_release_review moved).1 in
              Ensures-then Good P (save_release now _ r') _
                (save_release-IsConsistent canonical_hash now _ r'
                  (reviewed-Good st id _ c (refl, refl))
                  (IsStored-IsKnown st.releases r r' stored (ground arith)))
                λ st' c'.
                  Ensures-raise_if P (is_some existing || is_some (get id st.reviews)) _ _ λ _. c'

  -- Opening or reopening a review leaves the store consistent.
  pub create_review-IsConsistent :
      (now : ℕ) (id : String) (st : Store) (release_id : String)
      → IsConsistent canonical_hash st
      → Ensures (Commits canonical_hash) (create_review canonical_hash now id st release_id)
  unfolding create_review
  create_review-IsConsistent now id st release_id c =
      let P = Commits canonical_hash in
      Ensures-bind P (release canonical_hash st release_id) _ λ r read.
        let existing = find_review release_id st.reviews in
        elim (Bool-cases (same_release_status r.status ReleaseStatus.pending_release_review)) [
          | inl waits ↦ rw waits (reopen_review-Commits now st r existing c)
          | inr other ↦ rw other (
              open_review-Commits now id st r existing c
                (release-IsStored canonical_hash st release_id c read))
        ]

  record_decision-Good :
      (now : ℕ) (st : Store) (id : String) (review : ReleaseReview)
      (payload : ReleaseDecisionRequest)
      → Good st
      → Ensures
          (GoodWith canonical_hash st.releases)
          (record_decision canonical_hash now st id (decided_review review payload now) payload)
  unfolding record_decision
  record_decision-Good now st id review payload c =
      let Q = GoodWith canonical_hash st.releases in
      Ensures-bind Q (or_raise (get id st.reviews) (err release_review_already_decided)) _ λ row _.
        Ensures-raise_if Q (not (same_decision row.decision ReviewDecision.pending)) _ _
          λ _. (reviewed-Good st id _ c (refl, refl), refl)

  -- Whatever the verdict, the release that is saved keeps its identity.
  decided_release-SameIdentity :
      (r : MetricRelease) (verdict : ReleaseVerdict) {r' : MetricRelease}
      → decided_release r verdict ≡ ok r'
      → SameIdentity r r'
  unfolding decided_release
  decided_release-SameIdentity r ReleaseVerdict.approved h =
      let same = (transition-eq-ok r ReleaseStatus.approved h).1 in ground arith
  decided_release-SameIdentity r ReleaseVerdict.rejected h =
      let same = (transition-eq-ok r ReleaseStatus.failed h).1 in ground arith
  decided_release-SameIdentity r ReleaseVerdict.need_more_evidence h = ground arith

  -- From a consistent store, every decision on a release review that commits leaves a consistent
  -- store.
  pub decide_review-IsConsistent :
      (e : ReleaseEvidence) (now : ℕ) (st : Store) (review_id : String)
      (payload : ReleaseDecisionRequest)
      → IsConsistent canonical_hash st
      → Ensures (Commits canonical_hash) (decide_review canonical_hash e now st review_id payload)
  unfolding decide_review
  decide_review-IsConsistent e now st review_id payload c =
      let P = Commits canonical_hash in
      let Q = GoodWith canonical_hash st.releases in
      Ensures-bind P (release_review canonical_hash st review_id) _ λ review _.
        Ensures-raise_if P (not (same_decision review.decision ReviewDecision.pending)) _ _ λ _.
          Ensures-bind P (release canonical_hash st review.release_id) _ λ r read.
            Ensures-bind P (validation_report canonical_hash st r.release_id) _ λ report _.
              Ensures-raise_if P
                (not (opt_eq r.validation_report_hash review.validation_report_hash)
                  || not (
                      opt_eq (some (canonical_hash (Document.validation_report report)))
                        review.validation_report_hash))
                _ _
                λ _. Ensures-bind P (version_by_id canonical_hash st r.metric_version_id) _ λ v _.
                  Ensures-bind P (e.evidence_checks v) _ λ _ _.
                    let updated = decided_review review payload now in
                    Ensures-then Q P
                      (record_decision canonical_hash now st review_id updated payload) _
                      (record_decision-Good now st review_id review payload c)
                      λ st₁ g₁. Ensures-bind P (decided_release r payload.decision) _ λ r' moved.
                        Ensures-then Good P (save_release now st₁ r') _
                          (save_release-IsConsistent canonical_hash now st₁ r' g₁.0 (
                            IsStored-IsKnown st₁.releases r r'
                              (subst (λ t. IsStored t r) (sym g₁.1)
                                (release-IsStored canonical_hash st _ c read))
                              (decided_release-SameIdentity r payload.decision moved)))
                          λ st₂ c₂.
                            log_event-IsConsistent canonical_hash now st₂ r.metric_definition_id
                              (decision_event payload.decision) payload.reviewer
                              (some r.metric_version_id) (some r.release_id) c₂
