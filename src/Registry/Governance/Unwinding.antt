-- ===== src/Registry/Governance/Unwinding.antt =====
-- Rollback (`decide_rollback` of src/airi/registry/service.py) on the release table.
use airi.Prelude.{
  ℕ, String, refl, Option, err, Ensures, Ensures-bind, Ensures-raise_if, Ensures-then,
  Ensures-weaken, Ensures-both, subst, inl, is_some, not, str_eq,
}
use airi.Core.{Version}
use airi.Registry.Models.{
  MetricVersionStatus, MetricDefinition, RollbackReview, RollbackDecision, RollbackVerdict,
  RollbackDecisionRequest, Document,
}
use airi.Registry.Store.{Table, get, get-AllRows, ReleaseRow, Store}
use airi.Registry.Session.{
  definition_by_id, version_by_id, definition, version, rollback_review, same_rollback_decision,
  rollback_conflict, rollback_already_decided,
}
use airi.Registry.Writes.{set_version_status, log_event, move_pointer, or_raise}
use airi.Registry.Rollback.{
  active_releases, roll_back_each, finish_reconciliation, named, reconcile_active_version,
  decided_rollback, record_rollback_decision, settle_rollback, decide_rollback, request_rollback,
  active_id,
}
use airi.Registry.Integrity.{
  IsConsistent, ReleaseAgrees, GoodWith, set_version_status-GoodWith, move_pointer-GoodWith,
}
use airi.Registry.Integrity.Reads.{or_raise-eq-ok}
use airi.Registry.Integrity.Reconciliation.{
  record_rollback_decision-Good, active_releases-IsStored, All-map,
}
use airi.Registry.Governance.Progress.{Advances, Advances-same, IsPending, roll_back_each-Advances}
use airi.Registry.Governance.Frames.{Keeps, Progresses}

finish_reconciliation-Progresses :
    (canonical_hash : Document → String) (now : ℕ) (st : Store) (id from to actor : String)
    → IsConsistent canonical_hash st
    → Ensures (Progresses st) (finish_reconciliation now st id from to actor)
unfolding finish_reconciliation log_event
finish_reconciliation-Progresses canonical_hash now st id from to actor c =
    let P : Store × MetricDefinition → Type 0 = Progresses st in
    let Q = GoodWith canonical_hash st.releases in
    Ensures-then Q P (set_version_status st from MetricVersionStatus.retired) _
      (set_version_status-GoodWith canonical_hash st from MetricVersionStatus.retired st.releases
        (c, refl))
      λ st₁ g₁.
        Ensures-then Q P (set_version_status st₁ to MetricVersionStatus.active) _
          (set_version_status-GoodWith canonical_hash st₁ to MetricVersionStatus.active st.releases
            g₁)
          λ st₂ g₂.
            let t = st₂.releases in
            let stored = active_releases-IsStored from t g₂.0.releases g₂.0.distinct in
            let pending =
              All-map (active_releases from t)
                (λ r (row, found, same).
                  let agrees = get-AllRows ReleaseAgrees _ t g₂.0.releases found in
                  let it : IsPending t r = (row, found, inl (cc (agrees.0, same))) in it)
                stored in
            Ensures-then (λ (s : Store). Advances t s.releases) P
              (roll_back_each now st₂ (active_releases from t)) _
              (roll_back_each-Advances now st₂ (active_releases from t) pending)
              λ st₃ g₃.
                Ensures-bind P (definition_by_id _ id) _
                  λ d _. subst (λ (x : Table ReleaseRow). Advances x st₃.releases) g₂.1 g₃

module _ (canonical_hash : Document → String) where
  reconcile_active_version-Progresses :
      (now : ℕ) (st : Store) (id : String) (from : Option String) (to actor : String)
      → IsConsistent canonical_hash st
      → Ensures (Progresses st) (reconcile_active_version now st id from to actor)
  unfolding reconcile_active_version
  reconcile_active_version-Progresses now st id from to actor c =
      let P : Store × MetricDefinition → Type 0 = Progresses st in
      Ensures-bind P (or_raise (move_pointer now st id from to) (err rollback_conflict)) _ λ st₁ e.
        let (good, kept) =
          move_pointer-GoodWith canonical_hash now st id from to st.releases (c, refl)
            (or_raise-eq-ok _ _ e) in
        Ensures-bind P (named from) _ λ old _.
          Ensures-weaken (Progresses st₁) P (finish_reconciliation now st₁ id old to actor)
            (finish_reconciliation-Progresses canonical_hash now st₁ id old to actor good)
            λ x g. subst (λ (t : Table ReleaseRow). Advances t x.0.releases) kept g

  record_rollback_decision-GoodWith :
      (now : ℕ) (st : Store) (id : String) (review : RollbackReview)
      (payload : RollbackDecisionRequest)
      → IsConsistent canonical_hash st
      → Ensures (GoodWith canonical_hash st.releases) (
          record_rollback_decision canonical_hash now st id
            (decided_rollback review payload now)
            payload)
  unfolding record_rollback_decision
  record_rollback_decision-GoodWith now st id review payload c =
      let updated = decided_rollback review payload now in
      Ensures-both (IsConsistent canonical_hash) (Keeps st.releases)
        (record_rollback_decision canonical_hash now st id updated payload)
        (record_rollback_decision-Good canonical_hash now st id review payload c)
        (Ensures-bind (Keeps st.releases)
          (or_raise (get id st.rollbacks) (err rollback_already_decided)) _
          λ row _.
            Ensures-raise_if (Keeps st.releases)
              (not (same_rollback_decision row.decision RollbackDecision.pending)) _ _ λ _. refl)

  settle_rollback-Progresses :
      (now : ℕ) (st : Store) (review : RollbackReview) (verdict : RollbackVerdict)
      (reviewer : String)
      → IsConsistent canonical_hash st
      → Ensures
          (λ (s : Store). Advances st.releases s.releases)
          (settle_rollback canonical_hash now st review verdict reviewer)
  unfolding settle_rollback log_event
  settle_rollback-Progresses now st review RollbackVerdict.rejected reviewer c =
      Advances-same st.releases st.releases refl
  settle_rollback-Progresses now st review RollbackVerdict.approved reviewer c =
      Ensures-then (λ (x : Store × MetricDefinition). Advances st.releases x.0.releases)
        (λ (s : Store). Advances st.releases s.releases) _ _
        (reconcile_active_version-Progresses now st review.metric_definition_id
          review.from_version_id review.to_version_id reviewer c)
        λ x g. g

  pub decide_rollback-Progresses :
      (now : ℕ) (st : Store) (id : String) (payload : RollbackDecisionRequest)
      → IsConsistent canonical_hash st
      → Ensures (Progresses st) (decide_rollback canonical_hash now st id payload)
  unfolding decide_rollback
  decide_rollback-Progresses now st id payload c =
      let P : Store × RollbackReview → Type 0 = Progresses st in
      Ensures-bind P (rollback_review canonical_hash st id) _ λ review read.
        Ensures-raise_if P (not (same_rollback_decision review.decision RollbackDecision.pending)) _
          _
          λ _.
            Ensures-then (GoodWith canonical_hash st.releases) P
              (record_rollback_decision canonical_hash now st id
                (decided_rollback review payload now) payload)
              _ (record_rollback_decision-GoodWith now st id review payload c)
              λ st₁ g₁.
                Ensures-then (λ (s : Store). Advances st₁.releases s.releases) P
                  (settle_rollback canonical_hash now st₁ review payload.decision payload.reviewer)
                  _
                  (settle_rollback-Progresses now st₁ review payload.decision payload.reviewer g₁.0)
                  λ st₂ g₂. subst (λ (x : Table ReleaseRow). Advances x st₂.releases) g₁.1 g₂

  pub request_rollback-Progresses :
      (now : ℕ) (id : String) (st : Store) (metric_key : String) (target_version : Version)
      (reason : String)
      → Ensures
          (Progresses st)
          (request_rollback canonical_hash now id st metric_key target_version reason)
  unfolding request_rollback log_event
  request_rollback-Progresses now id st metric_key target_version reason =
      let P : Store × RollbackReview → Type 0 = Progresses st in
      Ensures-bind P (definition st metric_key) _ λ d _.
        Ensures-bind P (version canonical_hash st metric_key target_version) _ λ target _.
          Ensures-bind P (active_id canonical_hash d) _ λ old _.
            Ensures-bind P (version_by_id canonical_hash st old) _ λ active _.
              Ensures-raise_if P (str_eq active.metric_version_id target.metric_version_id) _ _ λ _.
                Ensures-raise_if P (is_some (get id st.rollbacks)) _ _
                  λ _. Advances-same st.releases st.releases refl
