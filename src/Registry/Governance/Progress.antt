-- ===== src/Registry/Governance/Progress.antt =====
-- The life of a release (src/airi/registry/service.py): walks along `RELEASE_TRANSITIONS`, and the
-- writes of releases.
use airi.Prelude.{
  ℕ, String, ◌≡◌, refl, true, some, List, [], ◌∷◌, arith, ok, Ensures, Ensures-bind, Ensures-then,
  Ensures-weaken, Ensures-both, sym, subst, ◌⊎◌, inl, inr, Bool-cases, str_eq, str_eq_iff, All,
}
use airi.Registry.Models.{ReleaseStatus, MetricRelease}
use airi.Registry.Store.{Table, get, put, get-put, ReleaseRow, Store}
use airi.Registry.Session.{get_row}
use airi.Registry.Writes.{release_transitions, transition, saved_release, save_release}
use airi.Registry.Rollback.{roll_back_each}
use airi.Registry.Integrity.{found_twice}
use airi.Registry.Integrity.Reads.{transition-eq-ok}
use airi.Registry.Integrity.Reconciliation.{All-map}

-- A walk along the table of transitions.
pub data Along : ReleaseStatus → ReleaseStatus → Type 0 where
  stay : {s : ReleaseStatus} → Along s s
  move : {s t u : ReleaseStatus} → Along s t → release_transitions t u ≡ true → Along s u

pub Along-trans : {s t u : ReleaseStatus} → Along s t → Along t u → Along s u
Along-trans p stay = p
Along-trans p (move q edge) = move (Along-trans p q) edge

-- Every release is still there, its status moved along the table.
abbrev pub Advances : Table ReleaseRow → Table ReleaseRow → Type 0
Advances t t' =
    (id : String) (row : ReleaseRow)
    → get id t ≡ some row
    → (row' : ReleaseRow) × (get id t' ≡ some row') × Along row.status row'.status

pub Advances-same : (t t' : Table ReleaseRow) → t' ≡ t → Advances t t'
Advances-same t t' same id row found =
    (row, subst (λ (x : Table ReleaseRow). get id x ≡ some row) (sym same) found, stay)

pub Advances-trans : (t u v : Table ReleaseRow) → Advances t u → Advances u v → Advances t v
Advances-trans t u v f g id row found =
    let (row₁, found₁, along₁) = f id row found in
    let (row₂, found₂, along₂) = g id row₁ found₁ in (row₂, found₂, Along-trans along₁ along₂)

-- A write at a key whose row, if any, it moves along the table.
pub put-Advances :
    (t : Table ReleaseRow) (k : String) (new : ReleaseRow)
    → ((row : ReleaseRow) → get k t ≡ some row → Along row.status new.status)
    → Advances t (put k new t)
put-Advances t k new along id row found = elim (Bool-cases (str_eq k id)) [
  | inl same ↦
      let key = (str_eq_iff k id).0 same in
      (
        new,
        ground (arith, get-put k id new t),
        along row (subst (λ (x : String). get x t ≡ some row) (sym key) found),
      )
  | inr other ↦ (row, ground (arith, get-put k id new t), stay)
]

-- The row that a release may overwrite.
abbrev pub IsReady : Table ReleaseRow → MetricRelease → Type 0
IsReady t r = (row : ReleaseRow) × (get r.release_id t ≡ some row) × Along row.status r.status

pub save_release-Advances :
    (now : ℕ) (st : Store) (r : MetricRelease)
    → IsReady st.releases r
    → Ensures (λ (st' : Store). Advances st.releases st'.releases) (save_release now st r)
unfolding save_release
save_release-Advances now st r (row, at, along) =
    Ensures-bind (λ (st' : Store). Advances st.releases st'.releases)
      (get_row st.releases r.release_id) _
      λ row' found. put-Advances st.releases r.release_id (saved_release row' r now) λ old is_old.
        let one : old ≡ row = found_twice st.releases _ _ refl at is_old in
        subst (λ (x : ReleaseRow). Along x.status r.status) (sym one) along

-- A release of the loop: its row has its status still, or is rolled back already.
abbrev pub IsPending : Table ReleaseRow → MetricRelease → Type 0
IsPending t r =
    (row : ReleaseRow) × (get r.release_id t ≡ some row)
    × ((row.status ≡ r.status) ⊎ (row.status ≡ ReleaseStatus.rolled_back))

pending-IsReady :
    (t : Table ReleaseRow) (r r' : MetricRelease)
    → IsPending t r
    → transition r ReleaseStatus.rolled_back ≡ ok r'
    → IsReady t r'
pending-IsReady t r r' (row, found, status) e =
    let (edge, same) = transition-eq-ok r ReleaseStatus.rolled_back e in
    let rolled : MetricRelease = record r { status = ReleaseStatus.rolled_back } in
    let along : Along row.status ReleaseStatus.rolled_back = elim status [
      | inl kept ↦
          subst (λ (s : ReleaseStatus). Along s ReleaseStatus.rolled_back) (sym kept)
            (move stay edge)
      | inr done ↦ subst (λ (s : ReleaseStatus). Along s ReleaseStatus.rolled_back) (sym done) stay
    ] in
    let ready : IsReady t rolled = (row, found, along) in subst (IsReady t) (sym same) ready

put-IsPending :
    (now : ℕ) (t : Table ReleaseRow) (old : ReleaseRow) (r s : MetricRelease)
    → r.status ≡ ReleaseStatus.rolled_back
    → IsPending t s
    → IsPending (put r.release_id (saved_release old r now) t) s
put-IsPending now t old r s rolled (row, found, status) =
    elim (Bool-cases (str_eq r.release_id s.release_id)) [
      | inl same ↦ (
        saved_release old r now,
        ground (arith, get-put r.release_id s.release_id (saved_release old r now) t),
        inr rolled,
      )
      | inr other ↦ (
        row,
        ground (arith, get-put r.release_id s.release_id (saved_release old r now) t),
        status,
      )
    ]

save_release-IsPending :
    (now : ℕ) (st : Store) (r : MetricRelease) (rs : List MetricRelease)
    → r.status ≡ ReleaseStatus.rolled_back
    → All (IsPending st.releases) rs
    → Ensures (λ (st' : Store). All (IsPending st'.releases) rs) (save_release now st r)
unfolding save_release
save_release-IsPending now st r rs rolled all =
    Ensures-bind (λ (st' : Store). All (IsPending st'.releases) rs)
      (get_row st.releases r.release_id) _
      λ old _. All-map rs (λ s. put-IsPending now st.releases old r s rolled) all

pub roll_back_each-Advances :
    (now : ℕ) (st : Store) (rs : List MetricRelease)
    → All (IsPending st.releases) rs
    → Ensures (λ (st' : Store). Advances st.releases st'.releases) (roll_back_each now st rs)
unfolding roll_back_each
roll_back_each-Advances now st [] all = Advances-same st.releases st.releases refl
roll_back_each-Advances now st (r ∷ rs) all =
    let P = λ (st' : Store). Advances st.releases st'.releases in
    Ensures-bind P (transition r ReleaseStatus.rolled_back) _ λ r' e.
      let rolled : r'.status ≡ ReleaseStatus.rolled_back =
        let same = (transition-eq-ok r ReleaseStatus.rolled_back e).1 in ground arith in
      Ensures-then (λ (s : Store). Advances st.releases s.releases × All (IsPending s.releases) rs)
        P (save_release now st r') _
        (Ensures-both P (λ (s : Store). All (IsPending s.releases) rs) (save_release now st r')
          (save_release-Advances now st r' (pending-IsReady st.releases r r' all.0 e))
          (save_release-IsPending now st r' rs rolled all.1))
        λ s q.
          Ensures-weaken (λ (s' : Store). Advances s.releases s'.releases) P
            (roll_back_each now s rs) (roll_back_each-Advances now s rs q.1)
            λ s' later. Advances-trans st.releases s.releases s'.releases q.0 later
