-- ===== src/Registry/Governance/Activation.antt =====
-- What an activation that commits has done (`activate` of src/airi/registry/service.py): the guard on
-- the release, the pointer, and the statuses of the versions.
use airi.Prelude.{
  ℕ, String, ◌≡◌, refl, ◌≢◌, ◌⊎◌, inl, inr, Option, none, some, arith, ok, err, Ensures,
  Ensures-bind, Ensures-raise_if, Ensures-then, sym, subst, true, Bool-cases, str_eq_iff, opt_eq,
  opt_eq_iff, not, ◌&&◌, Ensures-both, Ensures-weaken, Option-cases,
}
use airi.Core.{Version}
use airi.Registry.Models.{
  ReleaseStatus, MetricVersionStatus, MetricRelease, MetricDefinition, Document,
}
use airi.Registry.Store.{Table, get, get-put, DefinitionRow, VersionRow, Store}
use airi.Registry.Session.{
  get_row, verify_definition, activation_conflict, release, definition_by_id, same_release_status,
}
use airi.Registry.Writes.{
  transition, save_release, log_event, set_version_status, move_pointer, or_raise, with_status,
}
use airi.Registry.Decisions.{
  expected_pointer, retire, finish_activation, activate_approved, activate,
}
use airi.Registry.Integrity.Reads.{transition-eq-ok, or_raise-eq-ok}
use airi.Registry.Governance.{
  pointer, MovedTo, Moved, Pointing, finish_activation-Pointing, move_pointer-eq-some,
}

-- The release that activation writes.
abbrev pub activated_release : ℕ → MetricRelease → MetricRelease
activated_release now r = record r { status = ReleaseStatus.active; activated_at = some now }

finish_activation-result :
    (now : ℕ) (st : Store) (r : MetricRelease)
    → Ensures
        (λ (x : Store × MetricRelease). x.1 ≡ activated_release now r)
        (finish_activation now st r)
unfolding finish_activation
finish_activation-result now st r =
    let P = λ (x : Store × MetricRelease). x.1 ≡ activated_release now r in
    Ensures-bind P (retire st r.expected_active_version_id) _ λ st₁ _.
      Ensures-bind P (set_version_status st₁ r.metric_version_id MetricVersionStatus.active) _
        λ st₂ _. Ensures-bind P (transition r ReleaseStatus.active) _ λ r₁ e.
          Ensures-bind P (save_release now st₂ (record r₁ { activated_at = some now })) _
            λ st₃ _. let same = (transition-eq-ok r ReleaseStatus.active e).1 in ground arith

same_release_status-approved :
    (s : ReleaseStatus)
    → same_release_status s ReleaseStatus.approved ≡ true
    → s ≡ ReleaseStatus.approved
unfolding same_release_status
same_release_status-approved s h = ground arith

-- The status column of a version.
abbrev pub status_in : Table VersionRow → String → Option MetricVersionStatus
status_in t id = elim (get id t) [ none ↦ none | some row ↦ some row.status ]

-- A write of one status: that version has it, and every other version keeps its own.
abbrev pub StatusSet : Table VersionRow → String → MetricVersionStatus → Table VersionRow → Type 0
StatusSet t id status t' =
    (status_in t' id ≡ some status)
    × ((other : String) → other ≢ id → status_in t' other ≡ status_in t other)

pub set_version_status-StatusSet :
    (st : Store) (id : String) (status : MetricVersionStatus)
    → Ensures
        (λ (st' : Store). StatusSet st.versions id status st'.versions)
        (set_version_status st id status)
unfolding set_version_status
set_version_status-StatusSet st id status =
    Ensures-bind (λ (st' : Store). StatusSet st.versions id status st'.versions)
      (get_row st.versions id) _
      λ row _.
        let set = with_status row status in
        (
          ground (arith, get-put id id set st.versions, str_eq_iff id id),
          λ other apart. ground (arith, get-put id other set st.versions, str_eq_iff id other),
        )

-- The versions after `retire`: the named one is retired, the others are as they were.
abbrev pub Retired : Table VersionRow → Option String → Table VersionRow → Type 0
Retired t none t' = t' ≡ t
Retired t (some id) t' = StatusSet t id MetricVersionStatus.retired t'

retire-Retired :
    (st : Store) (id : Option String)
    → Ensures (λ (st' : Store). Retired st.versions id st'.versions) (retire st id)
unfolding retire
retire-Retired st none = refl
retire-Retired st (some id) = set_version_status-StatusSet st id MetricVersionStatus.retired

-- The release's expected predecessor is retired first, its own version becomes active after it.
abbrev pub StatusesMoved : Table VersionRow → MetricRelease → Table VersionRow → Type 0
StatusesMoved t r t' =
    (t₁ : Table VersionRow) × Retired t r.expected_active_version_id t₁
    × StatusSet t₁ r.metric_version_id MetricVersionStatus.active t'

pub save_release-versions :
    (now : ℕ) (st : Store) (r : MetricRelease)
    → Ensures (λ (s : Store). s.versions ≡ st.versions) (save_release now st r)
unfolding save_release
save_release-versions now st r =
    Ensures-bind (λ (s : Store). s.versions ≡ st.versions) (get_row st.releases r.release_id) _
      λ row _. refl

finish_activation-StatusesMoved :
    (now : ℕ) (st : Store) (r : MetricRelease)
    → Ensures
        (λ (x : Store × MetricRelease). StatusesMoved st.versions r x.0.versions)
        (finish_activation now st r)
unfolding finish_activation log_event
finish_activation-StatusesMoved now st r =
    let P = λ (x : Store × MetricRelease). StatusesMoved st.versions r x.0.versions in
    Ensures-then (λ (s : Store). Retired st.versions r.expected_active_version_id s.versions) P
      (retire st r.expected_active_version_id) _ (retire-Retired st r.expected_active_version_id)
      λ st₁ g₁.
        Ensures-then
          (λ (s : Store).
            StatusSet st₁.versions r.metric_version_id MetricVersionStatus.active s.versions)
          P (set_version_status st₁ r.metric_version_id MetricVersionStatus.active) _
          (set_version_status-StatusSet st₁ r.metric_version_id MetricVersionStatus.active)
          λ st₂ g₂. Ensures-bind P (transition r ReleaseStatus.active) _ λ r₁ _.
            let moved : StatusesMoved st.versions r st₂.versions = (st₁.versions, g₁, g₂) in
            Ensures-then (λ (s : Store). s.versions ≡ st₂.versions) P
              (save_release now st₂ (record r₁ { activated_at = some now })) _
              (save_release-versions now st₂ (record r₁ { activated_at = some now }))
              λ st₃ same. subst (StatusesMoved st.versions r) (sym same) moved

same_release_status-active :
    (s : ReleaseStatus)
    → same_release_status s ReleaseStatus.active ≡ true
    → s ≡ ReleaseStatus.active
unfolding same_release_status
same_release_status-active s h = ground arith

-- A definition that a read returns has its pointer in its column.
definition_by_id-pointer :
    (st : Store) (id : String) {d : MetricDefinition} {p : Option String}
    → definition_by_id st id ≡ ok d
    → d.active_version_id ≡ p
    → pointer st id ≡ some p
unfolding definition_by_id verify_definition get_row
definition_by_id-pointer st id {d} {p} h e = elim (Option-cases (get id st.definitions)) [
  | inl missing ↦ absurd (ground arith)
  | inr (row, found) ↦
      ground (arith, opt_eq_iff row.active_version_id row.definition_json.active_version_id)
]

move_pointer-versions :
    (now : ℕ) (st : Store) (id : String) (p : Option String) (version_id : String) {st' : Store}
    → move_pointer now st id p version_id ≡ some st'
    → st'.versions ≡ st.versions
unfolding move_pointer
move_pointer-versions now st id p version_id h = ground arith

module _ (canonical_hash : Document → String) where
  -- An approved release became active: the compare-and-set named by `expected` succeeded.
  abbrev pub IsActivation :
      ℕ → Store → MetricRelease → Option Version → Store × MetricRelease → Type 0
  IsActivation now st r expected (st', r') =
      (r.status ≡ ReleaseStatus.approved)
      × (r' ≡ activated_release now r)
      × (p : Option String) × (expected_pointer canonical_hash st r expected ≡ ok p)
      × Moved st r.metric_definition_id p r.metric_version_id st'

  activate_approved-IsActivation :
      (now : ℕ) (st : Store) (r : MetricRelease) (expected : Option Version)
      → Ensures
          (IsActivation now st r expected)
          (activate_approved canonical_hash now st r expected)
  unfolding activate_approved
  activate_approved-IsActivation now st r expected =
      let P = IsActivation now st r expected in
      let Good = λ (x : Store × MetricRelease). x.1 ≡ activated_release now r in
      Ensures-raise_if P (not (same_release_status r.status ReleaseStatus.approved)) _ _ λ approved.
        Ensures-bind P (expected_pointer canonical_hash st r expected) _ λ p named.
          Ensures-bind P
            (or_raise (move_pointer now st r.metric_definition_id p r.metric_version_id)
              (err activation_conflict))
            _
            λ st₁ e.
              let moved =
                move_pointer-eq-some now st r.metric_definition_id p r.metric_version_id
                  (or_raise-eq-ok _ _ e) in
              Ensures-weaken
                (λ (x : Store × MetricRelease).
                  Pointing st₁.definitions x.0 × (x.1 ≡ activated_release now r))
                P (finish_activation now st₁ r)
                (Ensures-both (λ (x : Store × MetricRelease). Pointing st₁.definitions x.0) Good
                  (finish_activation now st₁ r) (finish_activation-Pointing now st₁ r)
                  (finish_activation-result now st₁ r))
                λ x q. (
                  same_release_status-approved r.status (ground arith),
                  q.1,
                  p,
                  named,
                  subst
                      (λ (t : Table DefinitionRow).
                        MovedTo st.definitions r.metric_definition_id p r.metric_version_id t)
                      (sym q.0) moved,
                )

  activate_approved-StatusesMoved :
      (now : ℕ) (st : Store) (r : MetricRelease) (expected : Option Version)
      → Ensures
          (λ (x : Store × MetricRelease). StatusesMoved st.versions r x.0.versions)
          (activate_approved canonical_hash now st r expected)
  unfolding activate_approved
  activate_approved-StatusesMoved now st r expected =
      let P = λ (x : Store × MetricRelease). StatusesMoved st.versions r x.0.versions in
      Ensures-raise_if P (not (same_release_status r.status ReleaseStatus.approved)) _ _ λ approved.
        Ensures-bind P (expected_pointer canonical_hash st r expected) _ λ p named.
          Ensures-bind P
            (or_raise (move_pointer now st r.metric_definition_id p r.metric_version_id)
              (err activation_conflict))
            _
            λ st₁ e.
              let same =
                move_pointer-versions now st r.metric_definition_id p r.metric_version_id
                  (or_raise-eq-ok _ _ e) in
              subst
                (λ (t : Table VersionRow).
                  Ensures (λ (x : Store × MetricRelease). StatusesMoved t r x.0.versions)
                    (finish_activation now st₁ r))
                same (finish_activation-StatusesMoved now st₁ r)

  -- What `activate` returns: the store as it was, where the release was the active one already, or
  -- the activation of an approved release.
  abbrev pub Activates : ℕ → Store → Option Version → MetricRelease → Store × MetricRelease → Type 0
  Activates now st expected r x =
      ((r.status ≡ ReleaseStatus.active)
        × (pointer st r.metric_definition_id ≡ some (some r.metric_version_id))
        × (x ≡ (st, r)))
      ⊎ (IsActivation now st r expected x × StatusesMoved st.versions r x.0.versions)

  -- Every activation that commits is one of two. The release read is already active and its version
  -- pointed at, and nothing changes. Or the release was approved; the pointer of its definition was
  -- the version that the request expects (or none, where the request names none) and is now the
  -- release's version; no other definition's pointer moves; the version that the release expected
  -- is retired, its own becomes active, and every other version keeps its status.
  pub activate-Activates :
      (now : ℕ) (st : Store) (release_id : String) (expected : Option Version)
      → Ensures
          (λ (x : Store × MetricRelease).
            (r : MetricRelease) × (release canonical_hash st release_id ≡ ok r)
            × Activates now st expected r x)
          (activate canonical_hash now st release_id expected)
  unfolding activate
  activate-Activates now st release_id expected =
      let P = λ (x : Store × MetricRelease).
        (r : MetricRelease) × (release canonical_hash st release_id ≡ ok r)
        × Activates now st expected r x in
      Ensures-bind P (release canonical_hash st release_id) _ λ r read.
        Ensures-bind P (definition_by_id st r.metric_definition_id) _ λ d found.
          elim (Bool-cases (
            same_release_status r.status ReleaseStatus.active
            && opt_eq d.active_version_id (some r.metric_version_id))) [
              | inl already ↦ rw already (
                r,
                read,
                inl (
                  same_release_status-active r.status (ground arith),
                  definition_by_id-pointer st r.metric_definition_id found (
                      (opt_eq_iff d.active_version_id (some r.metric_version_id)).0 (ground arith)),
                  refl,
                ),
              )
              | inr other ↦ rw other (
                  Ensures-weaken
                    (λ x.
                      IsActivation now st r expected x × StatusesMoved st.versions r x.0.versions)
                    P _
                    (Ensures-both (IsActivation now st r expected)
                      (λ x. StatusesMoved st.versions r x.0.versions)
                      (activate_approved canonical_hash now st r expected)
                      (activate_approved-IsActivation now st r expected)
                      (activate_approved-StatusesMoved now st r expected))
                    λ x q. (r, read, inr q))
            ]
