-- ===== src/Registry/Decisions.antt =====
-- The decisions on a release of `RegistryService` (src/airi/registry/service.py): the human verdict
-- on its review, and the activation that moves the registry's pointer by compare-and-set.
use airi.Prelude.{
  ℕ, String, not, ◌&&◌, ◌||◌, Option, none, some, if◌then◌else◌, opt_eq, ok, err, ◌>>=◌, ◌>>◌,
  raise_if,
}
use airi.Core.{Version}
use airi.Registry.Models.{
  MetricVersionStatus, ReleaseStatus, ReleaseEventType, ReviewDecision, ReleaseVerdict,
  MetricRelease, ReleaseReview, ReleaseDecisionRequest, Document,
}
use airi.Registry.Store.{get, put, ReleaseReviewRow, Store}
use airi.Registry.Session.{
  Outcome, definition_by_id, version_by_id, version, release, validation_report, release_review,
  same_release_status, same_decision, release_evidence_changed, release_review_already_decided,
  release_not_approved, activation_conflict,
}
use airi.Registry.Writes.{
  transition, save_release, log_event, set_version_status, move_pointer, or_raise,
}
use airi.Registry.Releases.{ReleaseEvidence}

abbrev pub decision_of : ReleaseVerdict → ReviewDecision
decision_of ReleaseVerdict.approved = ReviewDecision.approved
decision_of ReleaseVerdict.rejected = ReviewDecision.rejected
decision_of ReleaseVerdict.need_more_evidence = ReviewDecision.need_more_evidence

-- `{"approved": "approved", "rejected": "failed"}.get(decision)` and the transition it asks for
unfoldable pub decided_release : MetricRelease → ReleaseVerdict → Outcome MetricRelease
unfolding transition
decided_release r ReleaseVerdict.approved = transition r ReleaseStatus.approved
decided_release r ReleaseVerdict.rejected = transition r ReleaseStatus.failed
decided_release r ReleaseVerdict.need_more_evidence = ok r

-- `"release_approved" if decision == "approved" else "release_rejected"`
abbrev pub decision_event : ReleaseVerdict → ReleaseEventType
decision_event ReleaseVerdict.approved = ReleaseEventType.release_approved
decision_event _ = ReleaseEventType.release_rejected

abbrev pub decided_review : ReleaseReview → ReleaseDecisionRequest → ℕ → ReleaseReview
decided_review review payload now = record review {
  decision = decision_of payload.decision;
  reviewer = some payload.reviewer;
  comment = some payload.comment;
  reviewed_at = some now;
}

-- `if release.expected_active_version_id is not None: self._set_version_status(..., "retired")`
unfoldable pub retire : Store → Option String → Outcome Store
unfolding set_version_status
retire st none = ok st
retire st (some id) = set_version_status st id MetricVersionStatus.retired

-- the writes of `activate` after the pointer has moved
unfoldable pub finish_activation : ℕ → Store → MetricRelease → Outcome (Store × MetricRelease)
unfolding retire
finish_activation now st r = do
  st₁ ← retire st r.expected_active_version_id
  st₂ ← set_version_status st₁ r.metric_version_id MetricVersionStatus.active
  r₁ ← transition r ReleaseStatus.active
  let r₂ = record r₁ { activated_at = some now }
  st₃ ← save_release now st₂ r₂
  ok (
    log_event now st₃ r.metric_definition_id ReleaseEventType.activated "registry-service"
        (some r.metric_version_id) (some r.release_id),
    r₂,
  )

module _ (canonical_hash : Document → String) where
  -- the row that the `update(ReleaseReviewRow)` of `decide_review` leaves
  abbrev pub decided_row :
      ReleaseReviewRow → ReleaseReview → ReleaseDecisionRequest → ℕ → ReleaseReviewRow
  decided_row row updated payload now = record row {
    decision = decision_of payload.decision;
    reviewer = some payload.reviewer;
    comment = some payload.comment;
    reviewed_at = some now;
    review_json = updated;
    review_hash = canonical_hash (Document.release_review updated);
  }

  -- the `update` that demands a pending row, with its row count
  unfoldable pub record_decision :
      ℕ → Store → String → ReleaseReview → ReleaseDecisionRequest → Outcome Store
  record_decision now st review_id updated payload = do
    row ← or_raise (get review_id st.reviews) (err release_review_already_decided)
    raise_if (not (same_decision row.decision ReviewDecision.pending))
        release_review_already_decided
    ok (record st { reviews = put review_id (decided_row row updated payload now) st.reviews })

  -- `decide_review`
  unfoldable pub decide_review :
      ReleaseEvidence
      → ℕ
      → Store
      → String
      → ReleaseDecisionRequest
      → Outcome (Store × ReleaseReview)
  unfolding decided_release record_decision
  decide_review e now st review_id payload = do
    review ← release_review canonical_hash st review_id
    raise_if (not (same_decision review.decision ReviewDecision.pending))
        release_review_already_decided
    r ← release canonical_hash st review.release_id
    report ← validation_report canonical_hash st r.release_id
    raise_if
        (not (opt_eq r.validation_report_hash review.validation_report_hash)
          || not (
              opt_eq (some (canonical_hash (Document.validation_report report)))
                review.validation_report_hash))
        release_evidence_changed
    v ← version_by_id canonical_hash st r.metric_version_id
    e.evidence_checks v
    let updated = decided_review review payload now
    st₁ ← record_decision now st review_id updated payload
    r' ← decided_release r payload.decision
    st₂ ← save_release now st₁ r'
    ok (
      log_event now st₂ r.metric_definition_id (decision_event payload.decision) payload.reviewer
          (some r.metric_version_id) (some r.release_id),
      updated,
    )

  -- The version id that the compare-and-set expects: none is active, or the named version.
  unfoldable pub expected_pointer : Store → MetricRelease → Option Version → Outcome (Option String)
  expected_pointer st r none = ok none
  expected_pointer st r (some v) = do
    named ← version canonical_hash st r.metric_key v
    ok (some named.metric_version_id)

  -- `activate` of a release that is not the active one already
  unfoldable pub activate_approved :
      ℕ → Store → MetricRelease → Option Version → Outcome (Store × MetricRelease)
  unfolding finish_activation
  activate_approved now st r expected_active_version = do
    raise_if (not (same_release_status r.status ReleaseStatus.approved)) release_not_approved
    expected ← expected_pointer st r expected_active_version
    st₁ ←
        or_raise (move_pointer now st r.metric_definition_id expected r.metric_version_id)
          (err activation_conflict)
    finish_activation now st₁ r

  -- `activate`: a release that is active and pointed at is returned as it is
  unfoldable pub activate : ℕ → Store → String → Option Version → Outcome (Store × MetricRelease)
  unfolding activate_approved
  activate now st release_id expected_active_version = do
    r ← release canonical_hash st release_id
    d ← definition_by_id st r.metric_definition_id
    if same_release_status r.status ReleaseStatus.active
          && opt_eq d.active_version_id (some r.metric_version_id)
        then ok (st, r)
        else activate_approved now st r expected_active_version
