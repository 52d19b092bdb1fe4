-- ===== src/Registry/Queries/Soundness.antt =====
-- What the listing of versions returns (`versions` of src/airi/registry/service.py).
use airi.Prelude.{
  String, ◌≡◌, List, [], ◌∷◌, All, ok, Bool-cases, inl, inr, Ensures, Ensures-bind, Ensures-weaken,
}
use airi.Core.{version_lt}
use airi.Registry.Models.{MetricVersion, MetricDefinition, Document}
use airi.Registry.Store.{AllRows, VersionRow, Store}
use airi.Registry.Session.{definition}
use airi.Registry.Registration.{versions_of}
use airi.Registry.Registration.Order.{IsAtLeast, IsAtLeast-trans, version_lt-IsAtLeast}
use airi.Registry.Integrity.Registration.{versions_of-All}
use airi.Registry.Integrity.Reconciliation.{All-map}
use airi.Registry.Queries.{insert_version, sort_versions, versions_for, versions}

-- No version of the list is older than one before it.
abbrev pub IsAscending : List MetricVersion → Type 0
IsAscending [] = Unit
IsAscending (v ∷ vs) =
    All (λ (w : MetricVersion). IsAtLeast w.version v.version) vs × IsAscending vs

insert_version-All :
    (P : MetricVersion → Type 0) (v : MetricVersion) (ws : List MetricVersion)
    → P v
    → All P ws
    → All P (insert_version v ws)
unfolding insert_version
insert_version-All P v [] p all = (p, tt)
insert_version-All P v (w ∷ ws) p all = elim (Bool-cases (version_lt w.version v.version)) [
  | inl older ↦ rw older (all.0, insert_version-All P v ws p all.1)
  | inr other ↦ rw other (p, (all.0, all.1))
]

insert_version-IsAscending :
    (v : MetricVersion) (ws : List MetricVersion)
    → IsAscending ws
    → IsAscending (insert_version v ws)
unfolding insert_version
insert_version-IsAscending v [] a = (tt, tt)
insert_version-IsAscending v (w ∷ ws) a = elim (Bool-cases (version_lt w.version v.version)) [
  | inl older ↦ rw older (
    insert_version-All (λ (x : MetricVersion). IsAtLeast x.version w.version) v ws
        (version_lt-IsAtLeast w.version v.version older) a.0,
    insert_version-IsAscending v ws a.1,
  )
  | inr other ↦
      rw other
        ((other, All-map ws (λ x p. IsAtLeast-trans x.version w.version v.version p other) a.0), a)
]

sort_versions-IsAscending : (vs : List MetricVersion) → IsAscending (sort_versions vs)
unfolding sort_versions
sort_versions-IsAscending [] = tt
sort_versions-IsAscending (v ∷ vs) =
    insert_version-IsAscending v (sort_versions vs) (sort_versions-IsAscending vs)

-- `v` is one of the versions of a list.
pub data Among (v : MetricVersion) : List MetricVersion → Type 0 where
  first : {ws : List MetricVersion} → Among v (v ∷ ws)
  later : {w : MetricVersion} {ws : List MetricVersion} → Among v ws → Among v (w ∷ ws)

insert_version-here : (v : MetricVersion) (ws : List MetricVersion) → Among v (insert_version v ws)
unfolding insert_version
insert_version-here v [] = first
insert_version-here v (w ∷ ws) = elim (Bool-cases (version_lt w.version v.version)) [
  | inl older ↦ rw older (later (insert_version-here v ws))
  | inr other ↦ rw other first
]

insert_version-Among :
    (v w : MetricVersion) (ws : List MetricVersion) → Among w ws → Among w (insert_version v ws)
unfolding insert_version
insert_version-Among v w [] there = elim there [ ]
insert_version-Among v w (x ∷ ws) first = elim (Bool-cases (version_lt w.version v.version)) [
  | inl older ↦ rw older first
  | inr other ↦ rw other (later first)
]
insert_version-Among v w (x ∷ ws) (later there) =
    elim (Bool-cases (version_lt x.version v.version)) [
      | inl older ↦ rw older (later (insert_version-Among v w ws there))
      | inr other ↦ rw other (later (later there))
    ]

sort_versions-Among :
    (vs : List MetricVersion) → All (λ (w : MetricVersion). Among w (sort_versions vs)) vs
unfolding sort_versions
sort_versions-Among [] = tt
sort_versions-Among (v ∷ vs) = (
  insert_version-here v (sort_versions vs),
  All-map vs (λ w. insert_version-Among v w (sort_versions vs)) (sort_versions-Among vs),
)

module _ (canonical_hash : Document → String) where
  -- The list is ascending and has the document of every version row of the definition.
  abbrev pub Lists : Store → String → List MetricVersion → Type 0
  Lists st id vs =
      IsAscending vs
      × AllRows
          (λ (k : String) (row : VersionRow).
            row.metric_definition_id ≡ id → Among row.version_json vs)
          st.versions

  versions_for-Lists :
      (st : Store) (id : String) → Ensures (Lists st id) (versions_for canonical_hash st id)
  unfolding versions_for
  versions_for-Lists st id =
      Ensures-bind (Lists st id) (versions_of canonical_hash id st.versions) _ λ vs read. (
        sort_versions-IsAscending vs,
        versions_of-All canonical_hash id st.versions
            (λ (w : MetricVersion). Among w (sort_versions vs)) vs read (sort_versions-Among vs),
      )

  -- What `versions` returns for a metric is in ascending order of version and holds every version
  -- row of its definition.
  pub versions-Lists :
      (st : Store) (key : String)
      → Ensures
          (λ (vs : List MetricVersion).
            (d : MetricDefinition) × (definition st key ≡ ok d)
            × Lists st d.metric_definition_id vs)
          (versions canonical_hash st key)
  unfolding versions
  versions-Lists st key =
      let P = λ (vs : List MetricVersion).
        (d : MetricDefinition) × (definition st key ≡ ok d) × Lists st d.metric_definition_id vs in
      Ensures-bind P (definition st key) _ λ d found.
        Ensures-weaken (Lists st d.metric_definition_id) P
          (versions_for canonical_hash st d.metric_definition_id)
          (versions_for-Lists st d.metric_definition_id) λ vs lists. (d, found, lists)
