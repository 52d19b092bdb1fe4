-- ===== src/Registry/Writes.antt =====
-- The single writes of `RegistryService` (src/airi/registry/service.py): transitions, saved
-- releases, statuses, the active pointer and the audit log. `now` is the clock's reading.
use airi.Prelude.{
  ℕ, String, Bool, true, false, not, Option, none, some, [], ◌∷◌, ◌++◌, if◌then◌else◌, ok, ◌>>=◌,
  ◌>>◌, raise_if, opt_eq,
}
use airi.Registry.Models.{MetricVersionStatus, ReleaseStatus, ReleaseEventType, MetricRelease}
use airi.Registry.Store.{get, put, DefinitionRow, VersionRow, ReleaseRow, Store}
use airi.Registry.Session.{Outcome, get_row, release_state_invalid}

-- `target in RELEASE_TRANSITIONS[status]`
unfoldable pub release_transitions : ReleaseStatus → ReleaseStatus → Bool
release_transitions ReleaseStatus.draft ReleaseStatus.pending_staging_validation = true
release_transitions ReleaseStatus.pending_staging_validation ReleaseStatus.staging_validated = true
release_transitions ReleaseStatus.pending_staging_validation ReleaseStatus.failed = true
release_transitions ReleaseStatus.staging_validated ReleaseStatus.pending_release_review = true
release_transitions ReleaseStatus.staging_validated ReleaseStatus.failed = true
release_transitions ReleaseStatus.pending_release_review ReleaseStatus.approved = true
release_transitions ReleaseStatus.pending_release_review ReleaseStatus.failed = true
release_transitions ReleaseStatus.approved ReleaseStatus.active = true
release_transitions ReleaseStatus.active ReleaseStatus.rolled_back = true
release_transitions _ _ = false

-- `_transition`
unfoldable pub transition : MetricRelease → ReleaseStatus → Outcome MetricRelease
unfolding release_transitions
transition release target = do
  raise_if (not (release_transitions release.status target)) release_state_invalid
  ok (record release { status = target })

-- `utcnow() if moment else None`
abbrev pub stamp : Option ℕ → ℕ → Option ℕ
stamp none now = none
stamp (some t) now = some now

-- the row that `_save_release` leaves
abbrev pub saved_release : ReleaseRow → MetricRelease → ℕ → ReleaseRow
saved_release row release now = record row {
  status = release.status;
  release_json = release;
  validated_at = stamp release.validated_at now;
  activated_at = stamp release.activated_at now;
}

-- `_save_release`
unfoldable pub save_release : ℕ → Store → MetricRelease → Outcome Store
unfolding get_row
save_release now st release = do
  row ← get_row st.releases release.release_id
  ok (record st { releases = put release.release_id (saved_release row release now) st.releases })

-- `_event`
unfoldable pub log_event :
    ℕ → Store → String → ReleaseEventType → String → Option String → Option String → Store
log_event now st definition_id event_type actor version_id release_id = record st {
  events =
      st.events
      ++ (record {
        metric_definition_id = definition_id;
        metric_version_id = version_id;
        release_id = release_id;
        event_type = event_type;
        actor = actor;
        created_at = now;
      }
          ∷ []);
}

-- the row that `_set_version_status` leaves
abbrev pub with_status : VersionRow → MetricVersionStatus → VersionRow
with_status row status =
    let document = row.version_json in
    record row { status = status; version_json = record document { status = status } }

-- `_set_version_status`
unfoldable pub set_version_status : Store → String → MetricVersionStatus → Outcome Store
unfolding get_row
set_version_status st id status = do
  row ← get_row st.versions id
  ok (record st { versions = put id (with_status row status) st.versions })

-- the row after the `update` of the column and after `_apply_active_version`
abbrev pub pointed_row : DefinitionRow → String → ℕ → DefinitionRow
pointed_row row version_id now =
    let document = row.definition_json in
    record row {
      active_version_id = some version_id;
      updated_at = now;
      definition_json = record document { active_version_id = some version_id; updated_at = now };
    }

-- `update(MetricDefinitionRow).where(id, active_version_id == expected)` with its row count, and
-- `_apply_active_version` after it: `none` is a row count other than 1.
unfoldable pub move_pointer : ℕ → Store → String → Option String → String → Option Store
move_pointer now st definition_id expected version_id = elim (get definition_id st.definitions) [
  | none ↦ none
  | some row ↦
      if opt_eq row.active_version_id expected
      then some (record st {
        definitions = put definition_id (pointed_row row version_id now) st.definitions;
      })
      else none
]

-- `if changed.rowcount != 1: raise`
abbrev pub or_raise : {A : Type 0} → Option A → Outcome A → Outcome A
or_raise none e = e
or_raise (some a) e = ok a
