-- ===== src/Registry/Queries.antt =====
-- The reads of `RegistryService` that list and compare (src/airi/registry/service.py).
pub mod Soundness
use airi.Prelude.{
  ℕ, String, ◌≡◌, refl, Bool, true, false, not, ◌&&◌, ◌||◌, Option, none, some, List, [], ◌∷◌,
  arith, if◌then◌else◌, str_eq, ltb, All, Result, ok, err, ◌>>=◌, ◌>>◌, Bool-cases, inl, inr,
  Ensures, Ensures-bind, sym, subst,
}
use airi.Core.{Version, version_lt}
use airi.Registry.Models.{
  MetricDefinition, MetricVersion, VersionChangeKind, VersionChangedField, Document,
}
use airi.Registry.Store.{Table, DefinitionRow, EventRow, Store}
use airi.Registry.Session.{Outcome, definition, version, version_by_id}
use airi.Registry.Versioning.{semantic_diff, classify}
use airi.Registry.Registration.{versions_of}
use airi.Registry.Registration.Order.{IsAtLeast, IsAtLeast-trans, version_lt-IsAtLeast}

-- `sorted(versions, key=version_key)`: a version goes before the first that is not older, so equal
-- versions keep their order
unfoldable pub insert_version : MetricVersion → List MetricVersion → List MetricVersion
insert_version v [] = v ∷ []
insert_version v (w ∷ ws) =
    let rest = insert_version v ws in
    if version_lt w.version v.version then w ∷ rest else v ∷ w ∷ ws

unfoldable pub sort_versions : List MetricVersion → List MetricVersion
unfolding insert_version
sort_versions [] = []
sort_versions (v ∷ vs) = insert_version v (sort_versions vs)

-- `events` before its sort
unfoldable pub events_of : String → List EventRow → List EventRow
events_of id [] = []
events_of id (e ∷ es) =
    let rest = events_of id es in if str_eq e.metric_definition_id id then e ∷ rest else rest

-- `order_by(created_at)`
unfoldable pub insert_event : EventRow → List EventRow → List EventRow
insert_event e [] = e ∷ []
insert_event e (f ∷ fs) =
    let rest = insert_event e fs in if ltb f.created_at e.created_at then f ∷ rest else e ∷ f ∷ fs

unfoldable pub sort_events : List EventRow → List EventRow
unfolding insert_event
sort_events [] = []
sort_events (e ∷ es) = insert_event e (sort_events es)

-- `MetricVersionDiff`
pub record MetricVersionDiff : Type 0 where
  pub metric_key : String
  pub from_version : Version
  pub to_version : Version
  pub changed_fields : List VersionChangedField
  pub unchanged : List String
  pub classification : VersionChangeKind

-- `events`
unfoldable pub events : Store → String → Outcome (List EventRow)
unfolding events_of sort_events
events st key = do
  d ← definition st key
  ok (sort_events (events_of d.metric_definition_id st.events))

module _ (canonical_hash : Document → String) where
  -- `_versions_for`
  unfoldable pub versions_for : Store → String → Outcome (List MetricVersion)
  unfolding sort_versions
  versions_for st id = do vs ← versions_of canonical_hash id st.versions; ok (sort_versions vs)

  -- `versions`
  unfoldable pub versions : Store → String → Outcome (List MetricVersion)
  unfolding versions_for
  versions st key = do d ← definition st key; versions_for st d.metric_definition_id

  -- `active_version`
  unfoldable pub active_version : Store → String → Outcome (Option MetricVersion)
  active_version st key = do
    d ← definition st key
    elim d.active_version_id [
      | none ↦ ok none
      | some id ↦ version_by_id canonical_hash st id >>= λ v. ok (some v)
    ]

  -- `compare`
  unfoldable pub compare_versions : Store → String → Version → Version → Outcome MetricVersionDiff
  unfolding semantic_diff classify
  compare_versions st key from to = do
    left ← version canonical_hash st key from
    right ← version canonical_hash st key to
    let (changed, same) = semantic_diff left.metric_ir right.metric_ir
    ok (record {
      metric_key = key;
      from_version = left.version;
      to_version = right.version;
      changed_fields = changed;
      unchanged = same;
      classification = classify changed;
    })
