-- ===== src/Registry/Versioning/Patches.antt =====
-- The leaves of a difference that is classified as a patch (src/airi/registry/versioning.py).
use airi.Prelude.{
  Option-cases, String, ◌≡◌, refl, true, false, ◌||◌, some, List, arith, is_some, str_eq,
  opt_eq_iff, contains, meets, meets-contains, sorted, Bool-cases, inl, inr,
}
use airi.MetricIr.Models.{MetricIr, TimeWindow}
use airi.MetricIr.Equality.{
  list_eq_sound, bool_eq_sound, function_eq_sound, unit_eq_sound, timezone_eq_sound, condition_eq,
  condition_eq_sound, comparison_eq, comparison_eq_sound, join_eq, join_eq_sound,
}
use airi.Registry.Models.{VersionChangeKind, FieldValue, VersionChangedField}
use airi.Registry.Versioning.{
  major_fields, minor_fields, field_order, semantic_leaves, has_leaf, get_leaf, leaf_eq,
  semantic_diff, field_names, classify,
}
use airi.Registry.Versioning.Soundness.{compare_fields-unreported, str_eq_sound}

abbrev leaf : String → MetricIr → FieldValue
leaf field metric = get_leaf field (semantic_leaves metric)

abbrev kind_of : MetricIr → MetricIr → VersionChangeKind
kind_of a b = classify (semantic_diff a b).0

classify-patch :
    (changed : List VersionChangedField)
    → classify changed ≡ VersionChangeKind.patch
    → (meets (field_names changed) major_fields ≡ false)
      × (meets (field_names changed) minor_fields ≡ false)
unfolding classify
classify-patch changed h = ground arith

-- A patch leaves the leaf of every major and minor field.
patch-leaf :
    (a b : MetricIr) (field : String)
    → contains field major_fields || contains field minor_fields ≡ true
    → contains field field_order ≡ true
    → has_leaf field (semantic_leaves a) ≡ true
    → kind_of a b ≡ VersionChangeKind.patch
    → leaf_eq (leaf field a) (leaf field b) ≡ true
unfolding semantic_diff
patch-leaf a b field listed among there h =
    let changed = (semantic_diff a b).0 in
    let (majors, minors) = classify-patch changed h in
    let quiet : contains field (field_names changed) ≡ false =
      elim (Bool-cases (contains field major_fields)) [
        | inl major ↦ meets-contains field (field_names changed) major_fields majors major
        | inr other ↦ meets-contains field (field_names changed) minor_fields minors (ground arith)
      ] in
    compare_fields-unreported (semantic_leaves a) (semantic_leaves b) field_order field among there
      quiet

leaf_eq-at : {x y x' y' : FieldValue} → x ≡ x' → y ≡ y' → leaf_eq x y ≡ true → leaf_eq x' y' ≡ true
leaf_eq-at p q h = cc

-- The leaves of a window, where there is one.
window-leaves :
    (m : MetricIr) (w : TimeWindow)
    → m.window ≡ some w
    → ((leaf "window.size" m ≡ FieldValue.number w.size)
        × (leaf "window.unit" m ≡ FieldValue.unit w.unit)
        × (leaf "window.time_field" m ≡ FieldValue.optional (some w.time_field))
        × (leaf "window.timezone" m ≡ FieldValue.zone w.timezone))
      × ((has_leaf "window.size" (semantic_leaves m) ≡ true)
          × (has_leaf "window.unit" (semantic_leaves m) ≡ true)
          × (has_leaf "window.time_field" (semantic_leaves m) ≡ true)
          × (has_leaf "window.timezone" (semantic_leaves m) ≡ true))
unfolding semantic_leaves get_leaf has_leaf str_eq
window-leaves m w e = rw e ((refl, refl, refl, refl), (refl, refl, refl, refl))

module _ (a b : MetricIr) (h : kind_of a b ≡ VersionChangeKind.patch) where
  patch-source : a.source ≡ b.source
  unfolding semantic_leaves get_leaf has_leaf leaf_eq contains str_eq
  patch-source =
      let catalog =
        (opt_eq_iff a.source.catalog b.source.catalog).0
          (patch-leaf a b "source.catalog" refl refl refl h) in
      let database =
        (opt_eq_iff (some a.source.database) (some b.source.database)).0
          (patch-leaf a b "source.database" refl refl refl h) in
      let table =
        (opt_eq_iff (some a.source.table) (some b.source.table)).0
          (patch-leaf a b "source.table" refl refl refl h) in
      ground arith

  patch-aggregation : a.aggregation ≡ b.aggregation
  unfolding semantic_leaves get_leaf has_leaf leaf_eq contains str_eq
  patch-aggregation =
      let function =
        function_eq_sound a.aggregation.function b.aggregation.function
          (patch-leaf a b "aggregation.function" refl refl refl h) in
      let field =
        (opt_eq_iff a.aggregation.field b.aggregation.field).0
          (patch-leaf a b "aggregation.field" refl refl refl h) in
      ground arith

  -- The fields that hold a text or none.
  patch-texts :
      (a.schema_version ≡ b.schema_version)
      × (a.entity_type ≡ b.entity_type)
      × (a.entity_key ≡ b.entity_key)
      × (a.partition_field ≡ b.partition_field)
      × (a.source_alias ≡ b.source_alias)
      × (a.aggregation_alias ≡ b.aggregation_alias)
  unfolding semantic_leaves get_leaf has_leaf leaf_eq contains str_eq
  patch-texts =
      let schema =
        (opt_eq_iff (some a.schema_version) (some b.schema_version)).0
          (patch-leaf a b "schema_version" refl refl refl h) in
      let key =
        (opt_eq_iff (some a.entity_key) (some b.entity_key)).0
          (patch-leaf a b "entity_key" refl refl refl h) in
      (
        ground arith,
        (opt_eq_iff a.entity_type b.entity_type).0 (patch-leaf a b "entity_type" refl refl refl h),
        ground arith,
        (opt_eq_iff a.partition_field b.partition_field).0
            (patch-leaf a b "partition_field" refl refl refl h),
        (opt_eq_iff a.source_alias b.source_alias).0
            (patch-leaf a b "source_alias" refl refl refl h),
        (opt_eq_iff a.aggregation_alias b.aggregation_alias).0
            (patch-leaf a b "aggregation_alias" refl refl refl h),
      )

  -- The fields that hold a list.
  patch-lists :
      (sorted a.dimensions ≡ sorted b.dimensions)
      × (a.filters ≡ b.filters)
      × (a.joins ≡ b.joins)
      × (a.column_filters ≡ b.column_filters)
  unfolding semantic_leaves get_leaf has_leaf leaf_eq contains str_eq
  patch-lists = (
    list_eq_sound str_eq str_eq_sound (sorted a.dimensions) (sorted b.dimensions)
        (patch-leaf a b "dimensions" refl refl refl h),
    list_eq_sound condition_eq condition_eq_sound a.filters b.filters
        (patch-leaf a b "filters" refl refl refl h),
    list_eq_sound join_eq join_eq_sound a.joins b.joins (patch-leaf a b "joins" refl refl refl h),
    list_eq_sound comparison_eq comparison_eq_sound a.column_filters b.column_filters
        (patch-leaf a b "column_filters" refl refl refl h),
  )

  patch-window_flag : is_some a.window ≡ is_some b.window
  unfolding semantic_leaves get_leaf has_leaf leaf_eq contains str_eq
  patch-window_flag =
      bool_eq_sound (is_some a.window) (is_some b.window) (patch-leaf a b "window" refl refl refl h)

  patch-window_parts : (v w : TimeWindow) → a.window ≡ some v → b.window ≡ some w → v ≡ w
  unfolding contains str_eq leaf_eq
  patch-window_parts v w left right =
      let ((s, u, f, z), (hs, hu, hf, hz)) = window-leaves a v left in
      let ((s', u', f', z'), _) = window-leaves b w right in
      let size : leaf_eq (FieldValue.number v.size) (FieldValue.number w.size) ≡ true =
        leaf_eq-at s s' (patch-leaf a b "window.size" refl refl hs h) in
      let unit =
        unit_eq_sound v.unit w.unit
          (leaf_eq-at u u' (patch-leaf a b "window.unit" refl refl hu h)) in
      let field =
        (opt_eq_iff (some v.time_field) (some w.time_field)).0
          (leaf_eq-at f f' (patch-leaf a b "window.time_field" refl refl hf h)) in
      let zone =
        timezone_eq_sound v.timezone w.timezone
          (leaf_eq-at z z' (patch-leaf a b "window.timezone" refl refl hz h)) in
      ground arith

  patch-window : a.window ≡ b.window
  patch-window = elim (Option-cases a.window) [
    | inl none_a ↦ elim (Option-cases b.window) [
      | inl none_b ↦ cc
      | inr (w, some_b) ↦ let flag = patch-window_flag in absurd (ground arith)
    ]
    | inr (v, some_a) ↦ elim (Option-cases b.window) [
      | inl none_b ↦ let flag = patch-window_flag in absurd (ground arith)
      | inr (w, some_b) ↦ let same = patch-window_parts v w some_a some_b in ground arith
    ]
  ]

-- Two metrics that measure the same: they differ in name, display name, description and the order of
-- the dimensions at most.
pub record SameMeaning (a b : MetricIr) : Type 0 where
  pub schema_version : a.schema_version ≡ b.schema_version
  pub entity_type : a.entity_type ≡ b.entity_type
  pub entity_key : a.entity_key ≡ b.entity_key
  pub partition_field : a.partition_field ≡ b.partition_field
  pub source : a.source ≡ b.source
  pub aggregation : a.aggregation ≡ b.aggregation
  pub dimensions : sorted a.dimensions ≡ sorted b.dimensions
  pub filters : a.filters ≡ b.filters
  pub window : a.window ≡ b.window
  pub source_alias : a.source_alias ≡ b.source_alias
  pub aggregation_alias : a.aggregation_alias ≡ b.aggregation_alias
  pub joins : a.joins ≡ b.joins
  pub column_filters : a.column_filters ≡ b.column_filters

-- A difference that is classified as a patch lies in labels alone: the two metrics have the same
-- schema, entity, partition, source, aggregation, filters, window, aliases, joins and column
-- filters, and the same dimensions up to order.
pub patch-SameMeaning :
    (a b : MetricIr) → classify (semantic_diff a b).0 ≡ VersionChangeKind.patch → SameMeaning a b
patch-SameMeaning a b h =
    let (schema, kind, key, partition, alias, value_alias) = patch-texts a b h in
    let (dimensions, filters, joins, comparisons) = patch-lists a b h in
    record {
      schema_version = schema;
      entity_type = kind;
      entity_key = key;
      partition_field = partition;
      source = patch-source a b h;
      aggregation = patch-aggregation a b h;
      dimensions = dimensions;
      filters = filters;
      window = patch-window a b h;
      source_alias = alias;
      aggregation_alias = value_alias;
      joins = joins;
      column_filters = comparisons;
    }
