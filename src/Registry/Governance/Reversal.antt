-- ===== src/Registry/Governance/Reversal.antt =====
-- Decided rollbacks: `decide_rollback` and `reconcile_active_version` of
-- src/airi/registry/service.py.
use airi.Prelude.{
  ℕ, String, ◌≡◌, refl, Option, some, arith, ok, err, Ensures, Ensures-bind, Ensures-raise_if,
  Ensures-then, sym, subst, true, false, str_eq_iff, not, Ensures-at, Ensures-weaken, List, [], ◌∷◌,
}
use airi.Registry.Models.{
  ReleaseStatus, MetricVersionStatus, MetricRelease, MetricDefinition, Document, RollbackReview,
  RollbackDecision, RollbackVerdict, RollbackDecisionRequest,
}
use airi.Registry.Store.{Table, get, get-put, DefinitionRow, RollbackReviewRow, Store}
use airi.Registry.Session.{
  get_row, rollback_conflict, rollback_already_decided, definition_by_id, rollback_review,
  same_rollback_decision,
}
use airi.Registry.Writes.{
  transition, save_release, log_event, set_version_status, move_pointer, or_raise,
}
use airi.Registry.Rollback.{
  active_releases, roll_back_each, finish_reconciliation, named, reconcile_active_version,
  rollback_decision_of, decided_rollback, record_rollback_decision, settle_rollback,
  decide_rollback,
}
use airi.Registry.Integrity.Reads.{or_raise-eq-ok}
use airi.Registry.Governance.{MovedTo, Moved, move_pointer-eq-some}

-- The tables that the writes after the pointer's move leave alone.
abbrev Settled : Store → Store → Type 0
Settled st st' = (st'.definitions ≡ st.definitions) × (st'.rollbacks ≡ st.rollbacks)

set_version_status-Settled :
    (st : Store) (id : String) (status : MetricVersionStatus) (s : Store)
    → Settled s st
    → Ensures (Settled s) (set_version_status st id status)
unfolding set_version_status
set_version_status-Settled st id status s same =
    Ensures-bind (Settled s) (get_row st.versions id) _ λ row _. same

save_release-Settled :
    (now : ℕ) (st : Store) (r : MetricRelease) (s : Store)
    → Settled s st
    → Ensures (Settled s) (save_release now st r)
unfolding save_release
save_release-Settled now st r s same =
    Ensures-bind (Settled s) (get_row st.releases r.release_id) _ λ row _. same

roll_back_each-Settled :
    (now : ℕ) (st : Store) (rs : List MetricRelease) (s : Store)
    → Settled s st
    → Ensures (Settled s) (roll_back_each now st rs)
unfolding roll_back_each
roll_back_each-Settled now st [] s same = same
roll_back_each-Settled now st (r ∷ rs) s same =
    Ensures-bind (Settled s) (transition r ReleaseStatus.rolled_back) _ λ r' _.
      Ensures-then (Settled s) (Settled s) (save_release now st r') _
        (save_release-Settled now st r' s same)
        λ st' same'. roll_back_each-Settled now st' rs s same'

finish_reconciliation-Settled :
    (now : ℕ) (st : Store) (id from to actor : String)
    → Ensures
        (λ (x : Store × MetricDefinition). Settled st x.0)
        (finish_reconciliation now st id from to actor)
unfolding finish_reconciliation log_event
finish_reconciliation-Settled now st id from to actor =
    let Q = Settled st in
    let P = λ (x : Store × MetricDefinition). Settled st x.0 in
    Ensures-then Q P (set_version_status st from MetricVersionStatus.retired) _
      (set_version_status-Settled st from MetricVersionStatus.retired st (refl, refl))
      λ st₁ g₁.
        Ensures-then Q P (set_version_status st₁ to MetricVersionStatus.active) _
          (set_version_status-Settled st₁ to MetricVersionStatus.active st g₁)
          λ st₂ g₂.
            Ensures-then Q P (roll_back_each now st₂ (active_releases from st₂.releases)) _
              (roll_back_each-Settled now st₂ (active_releases from st₂.releases) st g₂)
              λ st₃ g₃. Ensures-bind P (definition_by_id _ id) _ λ d _. g₃

move_pointer-rollbacks :
    (now : ℕ) (st : Store) (id : String) (p : Option String) (version_id : String) {st' : Store}
    → move_pointer now st id p version_id ≡ some st'
    → st'.rollbacks ≡ st.rollbacks
unfolding move_pointer
move_pointer-rollbacks now st id p version_id h = ground arith

-- The pointer goes from the version named to an existing one, which is what was checked.
abbrev pub Reconciles : Store → String → Option String → String → Store → Type 0
Reconciles st id from to st' = Moved st id from to st' × (st'.rollbacks ≡ st.rollbacks)

-- A reconciliation that returns has moved the definition's pointer from the version expected to the
-- target, and no other definition's pointer.
pub reconcile_active_version-Reconciles :
    (now : ℕ) (st : Store) (id : String) (from : Option String) (to actor : String)
    → Ensures
        (λ (x : Store × MetricDefinition). Reconciles st id from to x.0)
        (reconcile_active_version now st id from to actor)
unfolding reconcile_active_version
reconcile_active_version-Reconciles now st id from to actor =
    let P = λ (x : Store × MetricDefinition). Reconciles st id from to x.0 in
    Ensures-bind P (or_raise (move_pointer now st id from to) (err rollback_conflict)) _ λ st₁ e.
      let at = or_raise-eq-ok _ _ e in
      let moved = move_pointer-eq-some now st id from to at in
      let kept = move_pointer-rollbacks now st id from to at in
      Ensures-bind P (named from) _ λ old _.
        Ensures-weaken (λ x. Settled st₁ x.0) P (finish_reconciliation now st₁ id old to actor)
          (finish_reconciliation-Settled now st₁ id old to actor)
          λ x q. (
            subst (λ (t : Table DefinitionRow). MovedTo st.definitions id from to t) (sym q.0)
                moved,
            cc (q.1, kept),
          )

-- What the verdict asks of the pointers.
abbrev SettlesTo : Table DefinitionRow → RollbackReview → RollbackVerdict → Store → Type 0
SettlesTo t review RollbackVerdict.rejected st' = st'.definitions ≡ t
SettlesTo t review RollbackVerdict.approved st' =
    MovedTo t review.metric_definition_id review.from_version_id review.to_version_id
      st'.definitions

abbrev pub Settles : Store → RollbackReview → RollbackVerdict → Store → Type 0
Settles st review verdict st' = SettlesTo st.definitions review verdict st'

same_rollback_decision-pending :
    (d : RollbackDecision)
    → same_rollback_decision d RollbackDecision.pending ≡ true
    → d ≡ RollbackDecision.pending
unfolding same_rollback_decision
same_rollback_decision-pending d h = ground arith

module _ (canonical_hash : Document → String) where
  settle_rollback-Settles :
      (now : ℕ) (st : Store) (review : RollbackReview) (v : RollbackVerdict) (reviewer : String)
      → Ensures
          (λ (st' : Store). Settles st review v st' × (st'.rollbacks ≡ st.rollbacks))
          (settle_rollback canonical_hash now st review v reviewer)
  unfolding settle_rollback log_event
  settle_rollback-Settles now st review RollbackVerdict.rejected reviewer = (refl, refl)
  settle_rollback-Settles now st review RollbackVerdict.approved reviewer =
      Ensures-then
        (λ (x : Store × MetricDefinition).
          Reconciles st review.metric_definition_id review.from_version_id review.to_version_id x.0)
        (λ (st' : Store).
          Settles st review RollbackVerdict.approved st' × (st'.rollbacks ≡ st.rollbacks))
        _ _
        (reconcile_active_version-Reconciles now st review.metric_definition_id
          review.from_version_id review.to_version_id reviewer)
        λ x q. q

  -- The row that the decision leaves in the review table.
  abbrev pub Recorded : Store → String → RollbackReview → RollbackDecisionRequest → Store → Type 0
  Recorded st id updated payload st' =
      (st'.definitions ≡ st.definitions)
      × (row : RollbackReviewRow) × (get id st'.rollbacks ≡ some row)
      × (row.review_json ≡ updated)
      × (row.review_hash ≡ canonical_hash (Document.rollback_review updated))
      × (row.decision ≡ rollback_decision_of payload.decision)

  record_rollback_decision-Recorded :
      (now : ℕ) (st : Store) (id : String) (updated : RollbackReview)
      (payload : RollbackDecisionRequest)
      → Ensures
          (Recorded st id updated payload)
          (record_rollback_decision canonical_hash now st id updated payload)
  unfolding record_rollback_decision
  record_rollback_decision-Recorded now st id updated payload =
      let P = Recorded st id updated payload in
      Ensures-bind P (or_raise (get id st.rollbacks) (err rollback_already_decided)) _ λ row _.
        Ensures-raise_if P (not (same_rollback_decision row.decision RollbackDecision.pending)) _ _
          λ _.
            let decided : RollbackReviewRow = record row {
              decision = rollback_decision_of payload.decision;
              reviewer = some payload.reviewer;
              comment = some payload.comment;
              reviewed_at = some now;
              review_json = updated;
              review_hash = canonical_hash (Document.rollback_review updated);
            } in
            (
              refl,
              decided,
              ground (arith, get-put id id decided st.rollbacks, str_eq_iff id id),
              refl,
              refl,
              refl,
            )

  -- A decided rollback: the review read was pending, the verdict's effect on the pointers, and the
  -- row that records it.
  abbrev pub Decides :
      ℕ → Store → String → RollbackDecisionRequest → Store × RollbackReview → Type 0
  Decides now st id payload (st', updated) =
      (review : RollbackReview) × (rollback_review canonical_hash st id ≡ ok review)
      × (review.decision ≡ RollbackDecision.pending)
      × (updated ≡ decided_rollback review payload now)
      × Settles st review payload.decision st'
      × (row : RollbackReviewRow) × (get id st'.rollbacks ≡ some row)
      × (row.review_json ≡ updated)
      × (row.review_hash ≡ canonical_hash (Document.rollback_review updated))
      × (row.decision ≡ rollback_decision_of payload.decision)

  -- A decision that commits found the review pending. Approved, it moved the definition's pointer
  -- from the version under review to the target and no other pointer; rejected, it moved none. The
  -- row holds the decided review under its own digest.
  pub decide_rollback-Decides :
      (now : ℕ) (st : Store) (id : String) (payload : RollbackDecisionRequest)
      → Ensures (Decides now st id payload) (decide_rollback canonical_hash now st id payload)
  unfolding decide_rollback
  decide_rollback-Decides now st id payload =
      let P = Decides now st id payload in
      Ensures-bind P (rollback_review canonical_hash st id) _ λ review read.
        Ensures-raise_if P (not (same_rollback_decision review.decision RollbackDecision.pending)) _
          _
          λ pending.
            let updated = decided_rollback review payload now in
            Ensures-then (Recorded st id updated payload) P
              (record_rollback_decision canonical_hash now st id updated payload) _
              (record_rollback_decision-Recorded now st id updated payload)
              λ st₁ recorded.
                Ensures-then
                  (λ (st' : Store).
                    Settles st₁ review payload.decision st' × (st'.rollbacks ≡ st₁.rollbacks))
                  P
                  (settle_rollback canonical_hash now st₁ review payload.decision payload.reviewer)
                  _ (settle_rollback-Settles now st₁ review payload.decision payload.reviewer)
                  λ st₂ settled.
                    let (moved, row, found, json, hash, decision) = recorded in
                    (
                      review,
                      read,
                      same_rollback_decision-pending review.decision (ground arith),
                      refl,
                      subst (λ (t : Table DefinitionRow). SettlesTo t review payload.decision st₂)
                          moved settled.0,
                      row,
                      subst (λ (t : Table RollbackReviewRow). get id t ≡ some row) (sym settled.1)
                          found,
                      json,
                      hash,
                      decision,
                    )

  rollback_review-recorded :
      (st : Store) (id : String) (row : RollbackReviewRow) (updated : RollbackReview)
      → get id st.rollbacks ≡ some row
      → row.review_json ≡ updated
      → row.review_hash ≡ canonical_hash (Document.rollback_review updated)
      → updated.decision ≡ row.decision
      → rollback_review canonical_hash st id ≡ ok updated
  unfolding rollback_review get_row same_rollback_decision
  rollback_review-recorded st id row updated found json hash decision = ground (
    arith,
    str_eq_iff (canonical_hash (Document.rollback_review row.review_json)) row.review_hash,
  )

  decide_rollback-settled :
      (now : ℕ) (st : Store) (id : String) (payload : RollbackDecisionRequest)
      (review : RollbackReview)
      → rollback_review canonical_hash st id ≡ ok review
      → same_rollback_decision review.decision RollbackDecision.pending ≡ false
      → decide_rollback canonical_hash now st id payload ≡ err rollback_already_decided
  unfolding decide_rollback
  decide_rollback-settled now st id payload review read settled = rw (read, settled) refl

  verdict-settled :
      (v : RollbackVerdict)
      → same_rollback_decision (rollback_decision_of v) RollbackDecision.pending ≡ false
  unfolding same_rollback_decision
  verdict-settled RollbackVerdict.approved = refl
  verdict-settled RollbackVerdict.rejected = refl

  -- A rollback is decided once: after a decision that commits, every further decision on the same
  -- review raises `rollback_already_decided`.
  pub decide_rollback-once :
      (now : ℕ) (st : Store) (id : String) (payload : RollbackDecisionRequest)
      {x : Store × RollbackReview}
      → decide_rollback canonical_hash now st id payload ≡ ok x
      → (later : ℕ) (again : RollbackDecisionRequest)
      → decide_rollback canonical_hash later x.0 id again ≡ err rollback_already_decided
  decide_rollback-once now st id payload {x} h later again =
      let (review, read, pending, updated, settles, row, found, json, hash, decision) =
        Ensures-at (Decides now st id payload) (decide_rollback canonical_hash now st id payload)
          (decide_rollback-Decides now st id payload) h in
      let reread = rollback_review-recorded x.0 id row x.1 found json hash (ground arith) in
      decide_rollback-settled later x.0 id again x.1 reread (
        subst
          (λ (r : RollbackReview).
            same_rollback_decision r.decision RollbackDecision.pending ≡ false)
          (sym updated) (verdict-settled payload.decision))
