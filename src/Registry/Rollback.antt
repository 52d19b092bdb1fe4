-- ===== src/Registry/Rollback.antt =====
-- Rollback of `RegistryService` (src/airi/registry/service.py): a reviewed move of the pointer to an
-- existing version.
use airi.Prelude.{
  ℕ, String, not, ◌&&◌, Option, none, some, List, [], ◌∷◌, if◌then◌else◌, str_eq, is_some, ok, err,
  ◌>>=◌, ◌>>◌, raise_if,
}
use airi.Core.{Version}
use airi.Registry.Models.{
  MetricVersionStatus, ReleaseStatus, ReleaseEventType, RollbackDecision, RollbackVerdict,
  MetricDefinition, MetricVersion, MetricRelease, RollbackReview, RollbackDecisionRequest, Document,
}
use airi.Registry.Store.{Table, get, put, ReleaseRow, RollbackReviewRow, Store}
use airi.Registry.Session.{
  Outcome, definition, definition_by_id, version_by_id, version, rollback_review,
  same_release_status, same_rollback_decision, rollback_no_active_version,
  rollback_target_already_active, rollback_conflict, rollback_already_decided, integrity_error,
  resource_not_found,
}
use airi.Registry.Writes.{
  transition, save_release, log_event, set_version_status, move_pointer, or_raise,
}

-- the releases of a version that the `select` of `reconcile_active_version` returns
unfoldable pub active_releases : String → Table ReleaseRow → List MetricRelease
active_releases version_id [] = []
active_releases version_id ((id, row) ∷ t) =
    let rest = active_releases version_id t in
    if str_eq row.metric_version_id version_id
      && same_release_status row.status ReleaseStatus.active
    then row.release_json ∷ rest
    else rest

-- `for release_row in ...: self._save_release(self._transition(release, "rolled_back"))`
unfoldable pub roll_back_each : ℕ → Store → List MetricRelease → Outcome Store
roll_back_each now st [] = ok st
roll_back_each now st (r ∷ rs) = do
  r' ← transition r ReleaseStatus.rolled_back
  st' ← save_release now st r'
  roll_back_each now st' rs

-- the writes of `reconcile_active_version` after the pointer has moved
unfoldable pub finish_reconciliation :
    ℕ → Store → String → String → String → String → Outcome (Store × MetricDefinition)
unfolding active_releases roll_back_each
finish_reconciliation now st definition_id from_id to_id actor = do
  st₁ ← set_version_status st from_id MetricVersionStatus.retired
  st₂ ← set_version_status st₁ to_id MetricVersionStatus.active
  st₃ ← roll_back_each now st₂ (active_releases from_id st₂.releases)
  let st₄ =
      log_event now st₃ definition_id ReleaseEventType.rollback_approved actor (some to_id) none
  let st₅ =
      log_event now st₄ definition_id ReleaseEventType.rolled_back "registry-service" (some to_id)
        none
  d ← definition_by_id st₅ definition_id
  ok (st₅, d)

-- `get_row` of a missing identifier raises, and so does one of `None`
abbrev pub named : Option String → Outcome String
named none = err resource_not_found
named (some id) = ok id

-- `reconcile_active_version`; the store is handed over and the caller commits
unfoldable pub reconcile_active_version :
    ℕ → Store → String → Option String → String → String → Outcome (Store × MetricDefinition)
unfolding finish_reconciliation
reconcile_active_version now st definition_id from_id to_id actor = do
  st₁ ← or_raise (move_pointer now st definition_id from_id to_id) (err rollback_conflict)
  from ← named from_id
  finish_reconciliation now st₁ definition_id from to_id actor

abbrev pub rollback_decision_of : RollbackVerdict → RollbackDecision
rollback_decision_of RollbackVerdict.approved = RollbackDecision.approved
rollback_decision_of RollbackVerdict.rejected = RollbackDecision.rejected

abbrev pub decided_rollback : RollbackReview → RollbackDecisionRequest → ℕ → RollbackReview
decided_rollback review payload now = record review {
  decision = rollback_decision_of payload.decision;
  reviewer = some payload.reviewer;
  comment = some payload.comment;
  reviewed_at = some now;
}

module _ (canonical_hash : Document → String) where
  -- the review and the row that `request_rollback` adds
  abbrev pub requested_review :
      String → MetricDefinition → MetricVersion → MetricVersion → String → ℕ → RollbackReview
  requested_review id d active target reason now = record {
    rollback_review_id = id;
    metric_definition_id = d.metric_definition_id;
    metric_key = d.metric_key;
    from_version_id = some active.metric_version_id;
    from_version = some active.version;
    to_version_id = target.metric_version_id;
    to_version = target.version;
    reason = reason;
    decision = RollbackDecision.pending;
    reviewer = none;
    comment = none;
    created_at = now;
    reviewed_at = none;
  }

  abbrev pub rollback_row : RollbackReview → ℕ → RollbackReviewRow
  rollback_row review now = record {
    metric_definition_id = review.metric_definition_id;
    from_version_id = review.from_version_id;
    to_version_id = review.to_version_id;
    decision = RollbackDecision.pending;
    reviewer = none;
    comment = none;
    review_json = review;
    review_hash = canonical_hash (Document.rollback_review review);
    created_at = now;
    reviewed_at = none;
  }

  abbrev pub active_id : MetricDefinition → Outcome String
  active_id d = elim d.active_version_id [ none ↦ err rollback_no_active_version | some id ↦ ok id ]

  -- `request_rollback`
  unfoldable pub request_rollback :
      ℕ → String → Store → String → Version → String → Outcome (Store × RollbackReview)
  request_rollback now id st metric_key target_version reason = do
    d ← definition st metric_key
    target ← version canonical_hash st metric_key target_version
    active ← version_by_id canonical_hash st (← active_id d)
    raise_if (str_eq active.metric_version_id target.metric_version_id)
        rollback_target_already_active
    raise_if (is_some (get id st.rollbacks)) integrity_error
    let review = requested_review id d active target reason now
    ok (
      log_event now (record st { rollbacks = put id (rollback_row review now) st.rollbacks })
          d.metric_definition_id ReleaseEventType.rollback_requested "registry-service"
          (some target.metric_version_id) none,
      review,
    )

  -- the `update(RollbackReviewRow)` that demands a pending row
  unfoldable pub record_rollback_decision :
      ℕ → Store → String → RollbackReview → RollbackDecisionRequest → Outcome Store
  record_rollback_decision now st review_id updated payload = do
    row ← or_raise (get review_id st.rollbacks) (err rollback_already_decided)
    raise_if (not (same_rollback_decision row.decision RollbackDecision.pending))
        rollback_already_decided
    let decided : RollbackReviewRow = record row {
      decision = rollback_decision_of payload.decision;
      reviewer = some payload.reviewer;
      comment = some payload.comment;
      reviewed_at = some now;
      review_json = updated;
      review_hash = canonical_hash (Document.rollback_review updated);
    }
    ok (record st { rollbacks = put review_id decided st.rollbacks })

  -- the two ways in which `decide_rollback` ends
  unfoldable pub settle_rollback :
      ℕ → Store → RollbackReview → RollbackVerdict → String → Outcome Store
  unfolding reconcile_active_version
  settle_rollback now st review RollbackVerdict.rejected reviewer = ok (
      log_event now st review.metric_definition_id ReleaseEventType.rollback_rejected reviewer
        (some review.to_version_id) none)
  settle_rollback now st review RollbackVerdict.approved reviewer = do
    (st', d) ←
        reconcile_active_version now st review.metric_definition_id review.from_version_id
          review.to_version_id reviewer
    ok st'

  -- `decide_rollback`
  unfoldable pub decide_rollback :
      ℕ → Store → String → RollbackDecisionRequest → Outcome (Store × RollbackReview)
  unfolding record_rollback_decision settle_rollback
  decide_rollback now st review_id payload = do
    review ← rollback_review canonical_hash st review_id
    raise_if (not (same_rollback_decision review.decision RollbackDecision.pending))
        rollback_already_decided
    let updated = decided_rollback review payload now
    st₁ ← record_rollback_decision now st review_id updated payload
    st₂ ← settle_rollback now st₁ review payload.decision payload.reviewer
    ok (st₂, updated)
