-- ===== src/Registry/Governance/Frames.antt =====
-- The single writes of `RegistryService` (src/airi/registry/service.py) on the release table.
use airi.Prelude.{
  ℕ, String, ◌≡◌, refl, true, Option, none, some, arith, ok, Ensures, Ensures-bind, Ensures-then,
  sym, subst, inl, inr, Bool-cases,
}
use airi.Registry.Models.{
  ReleaseStatus, MetricVersionStatus, MetricRelease, MetricVersion, ReleaseVerdict,
}
use airi.Registry.Store.{Table, get, ReleaseRow, Store}
use airi.Registry.Session.{get_row, same_version_status}
use airi.Registry.Writes.{
  release_transitions, transition, save_release, set_version_status, log_event, move_pointer,
}
use airi.Registry.Releases.{nominate}
use airi.Registry.Decisions.{decided_release, retire, finish_activation}
use airi.Registry.Integrity.Reads.{transition-eq-ok}
use airi.Registry.Governance.Progress.{Along, stay, move, Advances, IsReady, save_release-Advances}

-- The row of a release read, with its status.
abbrev pub HasStatus : Table ReleaseRow → MetricRelease → Type 0
HasStatus t r = (row : ReleaseRow) × (get r.release_id t ≡ some row) × (row.status ≡ r.status)

pub moved-IsReady :
    (t : Table ReleaseRow) (r q r' : MetricRelease) (target : ReleaseStatus)
    → HasStatus t r
    → q.release_id ≡ r.release_id
    → q.status ≡ r.status
    → transition q target ≡ ok r'
    → IsReady t r'
moved-IsReady t r q r' target (row, found, status) key same e =
    let (edge, is) = transition-eq-ok q target e in
    let at : q.status ≡ row.status = cc in
    let moved : MetricRelease = record q { status = target } in
    let ready : IsReady t moved = (
      row,
      cc (found, key),
      move stay (subst (λ (s : ReleaseStatus). release_transitions s target ≡ true) at edge),
    ) in
    subst (IsReady t) (sym is) ready

-- What the call leaves of the releases.
abbrev pub Keeps : Table ReleaseRow → Store → Type 0
Keeps t st = st.releases ≡ t

pub set_version_status-Keeps :
    (st : Store) (id : String) (status : MetricVersionStatus) (t : Table ReleaseRow)
    → Keeps t st
    → Ensures (Keeps t) (set_version_status st id status)
unfolding set_version_status
set_version_status-Keeps st id status t same =
    Ensures-bind (Keeps t) (get_row st.versions id) _ λ row _. same

pub retire-Keeps :
    (st : Store) (id : Option String) (t : Table ReleaseRow)
    → Keeps t st
    → Ensures (Keeps t) (retire st id)
unfolding retire
retire-Keeps st none t same = same
retire-Keeps st (some id) t same = set_version_status-Keeps st id MetricVersionStatus.retired t same

pub nominate-Keeps : (st : Store) (v : MetricVersion) → Ensures (Keeps st.releases) (nominate st v)
unfolding nominate
nominate-Keeps st v =
    elim (Bool-cases (same_version_status v.status MetricVersionStatus.registered)) [
      | inl fresh ↦ rw fresh (
          set_version_status-Keeps st v.metric_version_id MetricVersionStatus.release_candidate
            st.releases refl)
      | inr other ↦ rw other refl
    ]

pub move_pointer-releases :
    (now : ℕ) (st : Store) (id : String) (p : Option String) (version_id : String) {st' : Store}
    → move_pointer now st id p version_id ≡ some st'
    → st'.releases ≡ st.releases
unfolding move_pointer
move_pointer-releases now st id p version_id h = ground arith

module _ {A : Type 0} where
  -- The releases of the store that a call commits.
  abbrev pub Progresses : Store → Store × A → Type 0
  Progresses st (st', result) = Advances st.releases st'.releases

pub finish_activation-Progresses :
    (now : ℕ) (st : Store) (r : MetricRelease)
    → HasStatus st.releases r
    → Ensures (Progresses st) (finish_activation now st r)
unfolding finish_activation log_event
finish_activation-Progresses now st r has =
    let t = st.releases in
    let Q = Keeps t in
    let P : Store × MetricRelease → Type 0 = Progresses st in
    Ensures-then Q P (retire st r.expected_active_version_id) _
      (retire-Keeps st r.expected_active_version_id t refl)
      λ st₁ g₁.
        Ensures-then Q P (set_version_status st₁ r.metric_version_id MetricVersionStatus.active) _
          (set_version_status-Keeps st₁ r.metric_version_id MetricVersionStatus.active t g₁)
          λ st₂ g₂. Ensures-bind P (transition r ReleaseStatus.active) _ λ r₁ e.
            let ready = moved-IsReady t r r r₁ ReleaseStatus.active has refl refl e in
            Ensures-then (λ (s : Store). Advances st₂.releases s.releases) P
              (save_release now st₂ (record r₁ { activated_at = some now })) _
              (save_release-Advances now st₂ (record r₁ { activated_at = some now })
                (subst (λ (x : Table ReleaseRow). IsReady x r₁) (sym g₂) ready))
              λ st₃ g₃. subst (λ (x : Table ReleaseRow). Advances x st₃.releases) g₂ g₃

pub decided_release-IsReady :
    (t : Table ReleaseRow) (r r' : MetricRelease) (verdict : ReleaseVerdict)
    → HasStatus t r
    → decided_release r verdict ≡ ok r'
    → IsReady t r'
unfolding decided_release
decided_release-IsReady t r r' ReleaseVerdict.approved has e =
    moved-IsReady t r r r' ReleaseStatus.approved has refl refl e
decided_release-IsReady t r r' ReleaseVerdict.rejected has e =
    moved-IsReady t r r r' ReleaseStatus.failed has refl refl e
decided_release-IsReady t r r' ReleaseVerdict.need_more_evidence (row, found, status) e =
    let same : r ≡ r' = ground arith in
    subst (IsReady t) same
      (row, found, subst (λ (s : ReleaseStatus). Along row.status s) status stay)
