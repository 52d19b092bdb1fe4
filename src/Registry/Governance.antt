-- ===== src/Registry/Governance.antt =====
-- What activation and rollback do to the active pointer (src/airi/registry/service.py).
pub mod Activation
pub mod Reversal
pub mod Verdict
pub mod Finality
pub mod Progress
pub mod Frames
pub mod Milestones
pub mod Unwinding
use airi.Prelude.{
  ℕ, String, ◌≡◌, refl, ◌≢◌, ◌⊎◌, inl, inr, Bool, true, false, Option, none, some, arith, Result,
  ok, err, ◌>>=◌, ◌>>◌, Ensures, Ensures-bind, Ensures-raise_if, Ensures-then, sym, ap, ◌∙◌, subst,
  Bool-cases, Option-cases, if◌then◌else◌, str_eq, str_eq_iff, opt_eq, opt_eq_iff, not, ◌&&◌,
  raise_if, List, [], ◌∷◌,
}
use airi.Core.{Version}
use airi.Registry.Models.{
  ReleaseStatus, ReleaseEventType, MetricVersionStatus, MetricRelease, MetricDefinition, Document,
}
use airi.Registry.Store.{Table, get, put, get-put, DefinitionRow, Store}
use airi.Registry.Session.{
  Outcome, RegistryError, get_row, release, definition_by_id, same_release_status,
  activation_conflict, rollback_conflict,
}
use airi.Registry.Writes.{
  transition, save_release, log_event, set_version_status, pointed_row, move_pointer, or_raise,
}
use airi.Registry.Decisions.{
  expected_pointer, retire, finish_activation, activate_approved, activate,
}
use airi.Registry.Rollback.{
  roll_back_each, active_releases, finish_reconciliation, named, reconcile_active_version,
}
use airi.Registry.Integrity.Reads.{or_raise-eq-ok}

-- The active pointer of a definition: `none` if there is no such definition.
abbrev pub pointer_in : Table DefinitionRow → String → Option (Option String)
pointer_in t id = elim (get id t) [ none ↦ none | some row ↦ some row.active_version_id ]

abbrev pub pointer : Store → String → Option (Option String)
pointer st id = pointer_in st.definitions id

-- The definitions are those of `t`.
abbrev pub Pointing : Table DefinitionRow → Store → Type 0
Pointing t st = st.definitions ≡ t

set_version_status-Pointing :
    (st : Store) (id : String) (status : MetricVersionStatus) (t : Table DefinitionRow)
    → Pointing t st
    → Ensures (Pointing t) (set_version_status st id status)
unfolding set_version_status
set_version_status-Pointing st id status t same =
    Ensures-bind (Pointing t) (get_row st.versions id) _ λ row _. same

save_release-Pointing :
    (now : ℕ) (st : Store) (r : MetricRelease) (t : Table DefinitionRow)
    → Pointing t st
    → Ensures (Pointing t) (save_release now st r)
unfolding save_release
save_release-Pointing now st r t same =
    Ensures-bind (Pointing t) (get_row st.releases r.release_id) _ λ row _. same

log_event-Pointing :
    (now : ℕ) (st : Store) (id : String) (event : ReleaseEventType) (actor : String)
    (version_id release_id : Option String) (t : Table DefinitionRow)
    → Pointing t st
    → Pointing t (log_event now st id event actor version_id release_id)
unfolding log_event
log_event-Pointing now st id event actor version_id release_id t same = same

retire-Pointing :
    (st : Store) (id : Option String) (t : Table DefinitionRow)
    → Pointing t st
    → Ensures (Pointing t) (retire st id)
unfolding retire
retire-Pointing st none t same = same
retire-Pointing st (some id) t same =
    set_version_status-Pointing st id MetricVersionStatus.retired t same

pub finish_activation-Pointing :
    (now : ℕ) (st : Store) (r : MetricRelease)
    → Ensures
        (λ (x : Store × MetricRelease). Pointing st.definitions x.0)
        (finish_activation now st r)
unfolding finish_activation
finish_activation-Pointing now st r =
    let t = st.definitions in
    let Q = Pointing t in
    let P = λ (x : Store × MetricRelease). Pointing t x.0 in
    Ensures-then Q P (retire st r.expected_active_version_id) _
      (retire-Pointing st r.expected_active_version_id t refl)
      λ st₁ g₁.
        Ensures-then Q P (set_version_status st₁ r.metric_version_id MetricVersionStatus.active) _
          (set_version_status-Pointing st₁ r.metric_version_id MetricVersionStatus.active t g₁)
          λ st₂ g₂. Ensures-bind P (transition r ReleaseStatus.active) _ λ r₁ _.
            Ensures-then Q P (save_release now st₂ (record r₁ { activated_at = some now })) _
              (save_release-Pointing now st₂ (record r₁ { activated_at = some now }) t g₂)
              λ st₃ g₃.
                log_event-Pointing now st₃ r.metric_definition_id ReleaseEventType.activated
                  "registry-service" (some r.metric_version_id) (some r.release_id) t g₃

-- The pointer of `id` was `expected` and is `version_id`; every other pointer is as it was.
abbrev pub MovedTo :
    Table DefinitionRow → String → Option String → String → Table DefinitionRow → Type 0
MovedTo s id expected version_id t =
    (pointer_in s id ≡ some expected)
    × (pointer_in t id ≡ some (some version_id))
    × ((other : String) → other ≢ id → pointer_in t other ≡ pointer_in s other)

abbrev pub Moved : Store → String → Option String → String → Store → Type 0
Moved st id expected version_id st' = MovedTo st.definitions id expected version_id st'.definitions

-- The compare-and-set: it succeeds only where the pointer is the expected one, sets it, and leaves
-- the pointer of every other definition alone.
pub move_pointer-eq-some :
    (now : ℕ) (st : Store) (id : String) (expected : Option String) (version_id : String)
    {st' : Store}
    → move_pointer now st id expected version_id ≡ some st'
    → Moved st id expected version_id st'
unfolding move_pointer
move_pointer-eq-some now st id expected version_id {st'} h =
    elim (Option-cases (get id st.definitions)) [
      | inl missing ↦ absurd (ground arith)
      | inr (row, found) ↦
          let next : Store = record st {
            definitions = put id (pointed_row row version_id now) st.definitions;
          } in
          let result : next ≡ st' = ground arith in
          let same : row.active_version_id ≡ expected =
            (opt_eq_iff row.active_version_id expected).0 (ground arith) in
          subst (Moved st id expected version_id) result (
            ground (arith, found, same),
            ground (
              arith,
              get-put id id (pointed_row row version_id now) st.definitions,
              str_eq_iff id id,
            ),
            λ other apart. ground (
              arith,
              get-put id other (pointed_row row version_id now) st.definitions,
              str_eq_iff id other,
            ),
          )
    ]
