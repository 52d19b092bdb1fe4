-- ===== src/Registry/Integrity/Reads.antt =====
-- What the reads and guards of `RegistryService` (src/airi/registry/service.py) tell of the store
-- when they return.
use airi.Prelude.{String, ◌≡◌, true, Option, none, some, arith, ok, err}
use airi.Registry.Models.{ReleaseStatus, MetricRelease, Document}
use airi.Registry.Store.{get, get-AllRows, ReleaseRow, Store}
use airi.Registry.Session.{RegistryError, release}
use airi.Registry.Writes.{transition, release_transitions, or_raise}
use airi.Registry.Integrity.{IsConsistent, IsStored, ReleaseAgrees}

-- A transition changes the status alone, along an edge of the table.
pub transition-eq-ok :
    (r : MetricRelease) (target : ReleaseStatus) {s : MetricRelease}
    → transition r target ≡ ok s
    → (release_transitions r.status target ≡ true) × (s ≡ record r { status = target })
unfolding transition
transition-eq-ok r target h = ground arith

pub or_raise-eq-ok :
    {A : Type 0} (o : Option A) (e : RegistryError) {a : A} → or_raise o (err e) ≡ ok a → o ≡ some a
or_raise-eq-ok none e h = cc
or_raise-eq-ok (some b) e h = ground arith

module _ (canonical_hash : Document → String) where
  pub release-row :
      (st : Store) (id : String) {r : MetricRelease}
      → release canonical_hash st id ≡ ok r
      → (row : ReleaseRow) × (get id st.releases ≡ some row) × (row.release_json ≡ r)
  unfolding release
  release-row st id h = ground arith

  -- What `release` returns is stored under the identifier that it was asked for.
  pub release-IsStored :
      (st : Store) (id : String) {r : MetricRelease}
      → IsConsistent canonical_hash st
      → release canonical_hash st id ≡ ok r
      → IsStored st.releases r
  release-IsStored st id c h =
      let (row, found, same) = release-row st id h in
      let agrees = get-AllRows ReleaseAgrees id st.releases c.releases found in
      (row, cc (agrees.5, found, same), same)

  -- The store that a call commits is consistent.
  abbrev pub Commits : {A : Type 0} → Store × A → Type 0
  Commits (st, result) = IsConsistent canonical_hash st
