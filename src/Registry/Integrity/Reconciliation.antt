-- ===== src/Registry/Integrity/Reconciliation.antt =====
-- Consistency of the registry's rows over `reconcile_active_version` and `decide_rollback`
-- (src/airi/registry/service.py).
use airi.Prelude.{
  ℕ, String, ◌≡◌, refl, Option, none, some, List, [], ◌∷◌, arith, err, Ensures, Ensures-both,
  Ensures-bind, Ensures-raise_if, Ensures-then, sym, subst, inl, inr, Bool-cases, str_eq,
  str_eq_iff, ◌&&◌, not, All,
}
use airi.Registry.Models.{
  ReleaseStatus, ReleaseEventType, MetricVersionStatus, MetricRelease, Document, RollbackReview,
  RollbackVerdict, RollbackDecision, RollbackDecisionRequest,
}
use airi.Registry.Store.{
  Table, get, put, put-AllRows, AllRows, Distinct, get-put, ReleaseRow, Store,
}
use airi.Registry.Session.{
  get_row, definition_by_id, rollback_review, rollback_conflict, rollback_already_decided,
  same_release_status, same_rollback_decision,
}
use airi.Registry.Writes.{
  transition, saved_release, save_release, log_event, set_version_status, move_pointer, or_raise,
}
use airi.Registry.Rollback.{
  active_releases, roll_back_each, finish_reconciliation, named, reconcile_active_version,
  settle_rollback, record_rollback_decision, decide_rollback, decided_rollback,
}
use airi.Registry.Integrity.{
  IsConsistent, IsStored, IsKnown, IsStored-IsKnown, SameIdentity, ReleaseAgrees, RollbackAgrees,
  GoodWith, get_row-eq-ok, found_twice, set_version_status-GoodWith, save_release-IsConsistent,
  move_pointer-GoodWith, log_event-IsConsistent,
}
use airi.Registry.Integrity.Reads.{transition-eq-ok, or_raise-eq-ok, Commits}

get-head :
    (k : String) (row : ReleaseRow) (t : Table ReleaseRow) (j : String)
    → k ≡ j
    → get j ((k, row) ∷ t) ≡ some row
unfolding get
get-head k row t j e = ground (arith, str_eq_iff k j)

-- A release of the table's tail is stored in the whole table: keys do not repeat.
IsStored-cons :
    (k : String) (row : ReleaseRow) (t : Table ReleaseRow) (r : MetricRelease)
    → get k t ≡ none
    → IsStored t r
    → IsStored ((k, row) ∷ t) r
unfolding get
IsStored-cons k row t r fresh (found, at, same) =
    (found, ground (arith, str_eq_iff k r.release_id), same)

pub All-map :
    {A : Type 0} {P Q : A → Type 0} (xs : List A) → ((x : A) → P x → Q x) → All P xs → All Q xs
All-map [] f h = tt
All-map (x ∷ xs) f h = (f x h.0, All-map xs f h.1)

-- What the query for active releases returns is stored.
pub active_releases-IsStored :
    (version_id : String) (t : Table ReleaseRow)
    → AllRows ReleaseAgrees t
    → Distinct t
    → All (IsStored t) (active_releases version_id t)
unfolding active_releases
active_releases-IsStored version_id [] h d = tt
active_releases-IsStored version_id ((k, row) ∷ t) h d =
    let rest =
      All-map (active_releases version_id t) (λ r. IsStored-cons k row t r d.0)
        (active_releases-IsStored version_id t h.1 d.1) in
    elim (Bool-cases (
      str_eq row.metric_version_id version_id
      && same_release_status row.status ReleaseStatus.active)) [
        | inl chosen ↦ rw chosen ((row, get-head k row t _ (sym h.0.5), refl), rest)
        | inr other ↦ rw other rest
      ]

-- A transition keeps a known release known.
kept :
    (t : Table ReleaseRow) (r r' : MetricRelease) {target : ReleaseStatus}
    → r' ≡ record r { status = target }
    → IsKnown t r
    → IsKnown t r'
kept t r r' {target} e known =
    let moved : MetricRelease = record r { status = target } in
    let same : IsKnown t moved = known in subst (IsKnown t) (sym e) same

-- Saving one known release leaves every known release known.
put-IsKnown :
    (now : ℕ) (t : Table ReleaseRow) (row : ReleaseRow) (s r : MetricRelease)
    → get s.release_id t ≡ some row
    → SameIdentity row.release_json s
    → IsKnown t r
    → IsKnown (put s.release_id (saved_release row s now) t) r
put-IsKnown now t row s r at keeps (found, known, same) =
    elim (Bool-cases (str_eq s.release_id r.release_id)) [
      | inl one ↦
          let key = (str_eq_iff s.release_id r.release_id).0 one in
          (
            saved_release row s now,
            ground (arith, get-put s.release_id r.release_id (saved_release row s now) t),
            ground arith,
          )
      | inr other ↦ (
        found,
        ground (arith, get-put s.release_id r.release_id (saved_release row s now) t),
        same,
      )
    ]

save_release-All :
    (now : ℕ) (st : Store) (s : MetricRelease) (rs : List MetricRelease)
    → IsKnown st.releases s
    → All (IsKnown st.releases) rs
    → Ensures (λ (st' : Store). All (IsKnown st'.releases) rs) (save_release now st s)
unfolding save_release
save_release-All now st s rs (row, known, keeps) all =
    Ensures-bind (λ (st' : Store). All (IsKnown st'.releases) rs) (get_row st.releases s.release_id)
      _
      λ row' found.
        let at = get_row-eq-ok st.releases s.release_id found in
        let one : row' ≡ row = found_twice st.releases _ _ refl known at in
        All-map rs
          (λ r.
            put-IsKnown now st.releases row' s r at
              (subst (λ (x : ReleaseRow). SameIdentity x.release_json s) (sym one) keeps))
          all

module _ (canonical_hash : Document → String) where
  abbrev Good : Store → Type 0
  Good = IsConsistent canonical_hash

  -- The loop over the active releases of the replaced version.
  roll_back_each-Good :
      (now : ℕ) (st : Store) (rs : List MetricRelease)
      → Good st
      → All (IsKnown st.releases) rs
      → Ensures Good (roll_back_each now st rs)
  unfolding roll_back_each
  roll_back_each-Good now st [] c all = c
  roll_back_each-Good now st (r ∷ rs) c all =
      Ensures-bind Good (transition r ReleaseStatus.rolled_back) _ λ r' e.
        let known =
          kept st.releases r r' (transition-eq-ok r ReleaseStatus.rolled_back e).1 all.0 in
        Ensures-then (λ (st' : Store). Good st' × All (IsKnown st'.releases) rs) Good
          (save_release now st r') _
          (Ensures-both Good (λ (st' : Store). All (IsKnown st'.releases) rs)
            (save_release now st r') (save_release-IsConsistent canonical_hash now st r' c known)
            (save_release-All now st r' rs known all.1))
          λ st' g. roll_back_each-Good now st' rs g.0 g.1

  finish_reconciliation-Commits :
      (now : ℕ) (st : Store) (definition_id from to actor : String)
      → Good st
      → Ensures (Commits canonical_hash) (finish_reconciliation now st definition_id from to actor)
  unfolding finish_reconciliation
  finish_reconciliation-Commits now st definition_id from to actor c =
      let P = Commits canonical_hash in
      let Q = GoodWith canonical_hash st.releases in
      Ensures-then Q P (set_version_status st from MetricVersionStatus.retired) _
        (set_version_status-GoodWith canonical_hash st from MetricVersionStatus.retired st.releases
          (c, refl))
        λ st₁ g₁.
          Ensures-then Q P (set_version_status st₁ to MetricVersionStatus.active) _
            (set_version_status-GoodWith canonical_hash st₁ to MetricVersionStatus.active
              st.releases g₁)
            λ st₂ g₂.
              let stored = active_releases-IsStored from st₂.releases g₂.0.releases g₂.0.distinct in
              Ensures-then Good P (roll_back_each now st₂ (active_releases from st₂.releases)) _
                (roll_back_each-Good now st₂ (active_releases from st₂.releases) g₂.0 (
                  All-map (active_releases from st₂.releases)
                    (λ r h. IsStored-IsKnown st₂.releases r r h (refl, refl, refl, refl, refl))
                    stored))
                λ st₃ c₃.
                  let st₄ =
                    log_event now st₃ definition_id ReleaseEventType.rollback_approved actor
                      (some to) none in
                  let st₅ =
                    log_event now st₄ definition_id ReleaseEventType.rolled_back "registry-service"
                      (some to) none in
                  Ensures-bind P (definition_by_id st₅ definition_id) _ λ d _.
                    log_event-IsConsistent canonical_hash now st₄ definition_id
                      ReleaseEventType.rolled_back "registry-service" (some to) none
                      (log_event-IsConsistent canonical_hash now st₃ definition_id
                        ReleaseEventType.rollback_approved actor (some to) none c₃)

  -- A pointer move that is handed over leaves the store consistent, its loop over releases included.
  reconcile_active_version-Commits :
      (now : ℕ) (st : Store) (definition_id : String) (from : Option String) (to actor : String)
      → Good st
      → Ensures
          (Commits canonical_hash)
          (reconcile_active_version now st definition_id from to actor)
  unfolding reconcile_active_version
  reconcile_active_version-Commits now st definition_id from to actor c =
      let P = Commits canonical_hash in
      Ensures-bind P (or_raise (move_pointer now st definition_id from to) (err rollback_conflict))
        _
        λ st₁ e.
          let moved =
            move_pointer-GoodWith canonical_hash now st definition_id from to st.releases (c, refl)
              (or_raise-eq-ok _ _ e) in
          Ensures-bind P (named from) _
            λ id _. finish_reconciliation-Commits now st₁ definition_id id to actor moved.0

  pub record_rollback_decision-Good :
      (now : ℕ) (st : Store) (id : String) (review : RollbackReview)
      (payload : RollbackDecisionRequest)
      → Good st
      → Ensures Good (
          record_rollback_decision canonical_hash now st id
            (decided_rollback review payload now)
            payload)
  unfolding record_rollback_decision
  record_rollback_decision-Good now st id review payload c =
      Ensures-bind Good (or_raise (get id st.rollbacks) (err rollback_already_decided)) _ λ row _.
        Ensures-raise_if Good (not (same_rollback_decision row.decision RollbackDecision.pending)) _
          _
          λ _. record {
            definitions = c.definitions;
            versions = c.versions;
            releases = c.releases;
            validations = c.validations;
            reviews = c.reviews;
            rollbacks =
                put-AllRows (RollbackAgrees canonical_hash) id _ st.rollbacks c.rollbacks
                  (refl, refl);
            distinct = c.distinct;
          }

  settle_rollback-Good :
      (now : ℕ) (st : Store) (review : RollbackReview) (verdict : RollbackVerdict)
      (reviewer : String)
      → Good st
      → Ensures Good (settle_rollback canonical_hash now st review verdict reviewer)
  unfolding settle_rollback
  settle_rollback-Good now st review RollbackVerdict.rejected reviewer c =
      log_event-IsConsistent canonical_hash now st review.metric_definition_id
        ReleaseEventType.rollback_rejected reviewer (some review.to_version_id) none c
  settle_rollback-Good now st review RollbackVerdict.approved reviewer c =
      Ensures-then (Commits canonical_hash) Good
        (reconcile_active_version now st review.metric_definition_id review.from_version_id
          review.to_version_id reviewer)
        _
        (reconcile_active_version-Commits now st review.metric_definition_id review.from_version_id
          review.to_version_id reviewer c)
        λ moved good. good

  -- From a consistent store, every rollback decision that commits leaves a consistent store, whether
  -- it rejects, or moves the pointer, retires and activates versions and rolls releases back.
  pub decide_rollback-IsConsistent :
      (now : ℕ) (st : Store) (review_id : String) (payload : RollbackDecisionRequest)
      → IsConsistent canonical_hash st
      → Ensures (Commits canonical_hash) (decide_rollback canonical_hash now st review_id payload)
  unfolding decide_rollback
  decide_rollback-IsConsistent now st review_id payload c =
      let P = Commits canonical_hash in
      Ensures-bind P (rollback_review canonical_hash st review_id) _ λ review _.
        Ensures-raise_if P (not (same_rollback_decision review.decision RollbackDecision.pending)) _
          _
          λ _.
            let updated = decided_rollback review payload now in
            Ensures-then Good P
              (record_rollback_decision canonical_hash now st review_id updated payload) _
              (record_rollback_decision-Good now st review_id review payload c)
              λ st₁ c₁.
                Ensures-then Good P
                  (settle_rollback canonical_hash now st₁ review payload.decision payload.reviewer)
                  _ (settle_rollback-Good now st₁ review payload.decision payload.reviewer c₁)
                  λ st₂ c₂. c₂
