-- ===== src/Registry/Versioning.antt =====
-- Version semantics (src/airi/registry/versioning.py): the leaves of a metric, the difference of two
-- metrics, its class, and the next version number.
pub mod Soundness
pub mod Patches
use airi.Prelude.{
  ℕ, String, Bool, true, false, not, ◌&&◌, ◌+◌, ◌==◌, Option, none, some, List, [], ◌∷◌, ◌++◌,
  if◌then◌else◌, is_some, str_eq, opt_eq, contains, meets, sorted, map,
}
use airi.Core.{Version}
use airi.MetricIr.Models.{MetricIr, TimeWindow}
use airi.MetricIr.Equality.{
  list_eq, bool_eq, function_eq, unit_eq, timezone_eq, condition_eq, comparison_eq, join_eq,
}
use airi.Registry.Models.{VersionChangeKind, FieldValue, VersionChangedField, MetricVersion}

abbrev pub major_fields : List String
major_fields =
    "source.catalog" ∷ "source.database" ∷ "source.table" ∷ "entity_key" ∷ "entity_type"
    ∷ "partition_field" ∷ "aggregation.function" ∷ "aggregation.field" ∷ "window.size"
    ∷ "window.unit" ∷ "window.time_field" ∷ "window.timezone" ∷ "window" ∷ "filters"
    ∷ "schema_version" ∷ "source_alias" ∷ "aggregation_alias" ∷ "joins" ∷ "column_filters" ∷ []

abbrev pub minor_fields : List String
minor_fields = "dimensions" ∷ []

abbrev pub field_order : List String
field_order =
    "schema_version" ∷ "name" ∷ "display_name" ∷ "description" ∷ "entity_type" ∷ "entity_key"
    ∷ "partition_field" ∷ "source.catalog" ∷ "source.database" ∷ "source.table"
    ∷ "aggregation.function" ∷ "aggregation.field" ∷ "dimensions" ∷ "filters" ∷ "window"
    ∷ "window.size" ∷ "window.unit" ∷ "window.time_field" ∷ "window.timezone" ∷ "source_alias"
    ∷ "aggregation_alias" ∷ "joins" ∷ "column_filters" ∷ []

abbrev pub text : String → FieldValue
text s = FieldValue.optional (some s)

-- `if metric.window is not None: leaves.update(...)`
abbrev pub window_leaves : Option TimeWindow → List (String × FieldValue)
window_leaves none = []
window_leaves (some w) =
    ("window.size", FieldValue.number w.size)
    ∷ ("window.unit", FieldValue.unit w.unit)
    ∷ ("window.time_field", text w.time_field)
    ∷ ("window.timezone", FieldValue.zone w.timezone)
    ∷ []

-- the literal of `leaves`
abbrev pub plain_leaves : MetricIr → List (String × FieldValue)
plain_leaves metric =
    ("schema_version", text metric.schema_version)
    ∷ ("name", text metric.name)
    ∷ ("display_name", FieldValue.optional metric.display_name)
    ∷ ("description", text metric.description)
    ∷ ("entity_type", FieldValue.optional metric.entity_type)
    ∷ ("entity_key", text metric.entity_key)
    ∷ ("partition_field", FieldValue.optional metric.partition_field)
    ∷ ("source.catalog", FieldValue.optional metric.source.catalog)
    ∷ ("source.database", text metric.source.database)
    ∷ ("source.table", text metric.source.table)
    ∷ ("aggregation.function", FieldValue.function metric.aggregation.function)
    ∷ ("aggregation.field", FieldValue.optional metric.aggregation.field)
    ∷ ("dimensions", FieldValue.names (sorted metric.dimensions))
    ∷ ("filters", FieldValue.conditions metric.filters)
    ∷ ("window", FieldValue.flag (is_some metric.window))
    ∷ ("source_alias", FieldValue.optional metric.source_alias)
    ∷ ("aggregation_alias", FieldValue.optional metric.aggregation_alias)
    ∷ ("joins", FieldValue.join_specs metric.joins)
    ∷ ("column_filters", FieldValue.comparisons metric.column_filters)
    ∷ []

unfoldable pub semantic_leaves : MetricIr → List (String × FieldValue)
semantic_leaves metric = plain_leaves metric ++ window_leaves metric.window

-- `field in leaves`
unfoldable pub has_leaf : String → List (String × FieldValue) → Bool
has_leaf field [] = false
has_leaf field ((k, v) ∷ leaves) = if str_eq k field then true else has_leaf field leaves

-- `leaves.get(field)`: a missing leaf is `None`
unfoldable pub get_leaf : String → List (String × FieldValue) → FieldValue
get_leaf field [] = FieldValue.optional none
get_leaf field ((k, v) ∷ leaves) = if str_eq k field then v else get_leaf field leaves

-- `==` on leaves
unfoldable pub leaf_eq : FieldValue → FieldValue → Bool
leaf_eq (FieldValue.optional a) (FieldValue.optional b) = opt_eq a b
leaf_eq (FieldValue.names a) (FieldValue.names b) = list_eq str_eq a b
leaf_eq (FieldValue.flag a) (FieldValue.flag b) = bool_eq a b
leaf_eq (FieldValue.number a) (FieldValue.number b) = a == b
leaf_eq (FieldValue.function a) (FieldValue.function b) = function_eq a b
leaf_eq (FieldValue.unit a) (FieldValue.unit b) = unit_eq a b
leaf_eq (FieldValue.zone a) (FieldValue.zone b) = timezone_eq a b
leaf_eq (FieldValue.conditions a) (FieldValue.conditions b) = list_eq condition_eq a b
leaf_eq (FieldValue.join_specs a) (FieldValue.join_specs b) = list_eq join_eq a b
leaf_eq (FieldValue.comparisons a) (FieldValue.comparisons b) = list_eq comparison_eq a b
leaf_eq _ _ = false

abbrev pub Leaves : Type 0
Leaves = List (String × FieldValue)

-- one turn of the loop of `semantic_diff`
unfoldable pub compare_field :
    Leaves
    → Leaves
    → String
    → List VersionChangedField × List String
    → List VersionChangedField × List String
compare_field left right field (changed, unchanged) =
    if not (has_leaf field left) && not (has_leaf field right)
    then (changed, unchanged)
    else if leaf_eq (get_leaf field left) (get_leaf field right)
    then (changed, field ∷ unchanged)
    else (
      record { field = field; before = get_leaf field left; after = get_leaf field right }
          ∷ changed,
      unchanged,
    )

-- the loop over the fields; the lists are built from their ends
unfoldable pub compare_fields :
    Leaves → Leaves → List String → List VersionChangedField × List String
unfolding compare_field
compare_fields left right [] = ([], [])
compare_fields left right (field ∷ fields) =
    compare_field left right field (compare_fields left right fields)

unfoldable pub semantic_diff : MetricIr → MetricIr → List VersionChangedField × List String
unfolding semantic_leaves compare_fields
semantic_diff before after =
    compare_fields (semantic_leaves before) (semantic_leaves after) field_order

-- `{item.field for item in changed_fields}`
abbrev pub field_names : List VersionChangedField → List String
field_names changed = map (λ (c : VersionChangedField). c.field) changed

-- `VersionChangeClassifier.classify`
unfoldable pub classify : List VersionChangedField → VersionChangeKind
classify changed =
    if meets (field_names changed) major_fields
    then VersionChangeKind.major
    else if meets (field_names changed) minor_fields
    then VersionChangeKind.minor
    else VersionChangeKind.patch

-- `bump`: what is neither a major nor a minor change is a patch
unfoldable pub bump : Version → VersionChangeKind → Version
bump v VersionChangeKind.major = record { major = v.major + 1; minor = 0; patch = 0 }
bump v VersionChangeKind.minor = record { major = v.major; minor = v.minor + 1; patch = 0 }
bump v _ = record { major = v.major; minor = v.minor; patch = v.patch + 1 }

pub record VersionPlan : Type 0 where
  pub kind : VersionChangeKind
  pub version : Version
  pub changed_fields : List VersionChangedField
  pub unchanged : List String

-- the plan of a metric that follows a version
unfoldable pub plan_after : MetricIr → MetricVersion → VersionPlan
unfolding semantic_diff classify bump
plan_after metric previous =
    let (changed, unchanged) = semantic_diff previous.metric_ir metric in
    let kind = classify changed in
    record {
      kind = kind;
      version = bump previous.version kind;
      changed_fields = changed;
      unchanged = unchanged;
    }

-- `MetricVersionPlanner.plan`
unfoldable pub plan : MetricIr → Option MetricVersion → VersionPlan
unfolding plan_after
plan metric none = record {
  kind = VersionChangeKind.initial;
  version = record { major = 1; minor = 0; patch = 0 };
  changed_fields = [];
  unchanged = field_order;
}
plan metric (some previous) = plan_after metric previous
