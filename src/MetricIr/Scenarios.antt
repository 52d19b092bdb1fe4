-- ===== src/MetricIr/Scenarios.antt =====
-- The declarations of the two scenarios (src/airi/metric_ir/invoice.py, enterprise_relation.py) and
-- the recovery of a metric's scenario (semantics.py).
pub mod Forms
pub mod Recovery
use airi.Prelude.{
  ℕ, String, Bool, true, false, not, ◌&&◌, ◌||◌, Option, none, some, List, [], ◌∷◌, ◌++◌,
  if◌then◌else◌, ◌==◌, is_some, str_eq, opt_eq, str_append, Result, ok, err, ◌>>=◌, ◌>>◌, raise_if,
}
use airi.MetricIr.Models.{
  Function, count, count_distinct, sum, WindowUnit, day, Timezone, asia_shanghai, JoinType, inner,
  left, ComparisonOperator, equal, unequal, DataSource, TimeWindow, QualifiedField, FieldComparison,
  JoinSpec, MetricIr, is_empty,
}
use airi.MetricIr.Equality.{function_eq, unit_eq, timezone_eq, qualified_eq, comparison_eq, list_eq}
use airi.MetricIr.Joins.{MetricError, unsupported_metric, revalidate, validate_join_metric}

-- the window that the invoice family declares
unfoldable pub is_declared_window : Option TimeWindow → Bool
is_declared_window none = false
is_declared_window (some w) =
    w.size == 30
    && unit_eq w.unit day
    && str_eq w.time_field "invoice_date"
    && timezone_eq w.timezone asia_shanghai

-- `(name, display_name, function, field) in {...}`
unfoldable pub is_invoice_family : MetricIr → Bool
is_invoice_family m =
    str_eq m.name "invoice_amount_30d"
      && opt_eq m.display_name (some "近30天企业开票金额")
      && function_eq m.aggregation.function sum
      && opt_eq m.aggregation.field (some "invoice_amt")
    || str_eq m.name "invoice_count_30d"
      && opt_eq m.display_name (some "近30天企业开票次数")
      && function_eq m.aggregation.function count
      && opt_eq m.aggregation.field none

-- the condition of `validate_invoice_metric`
unfoldable pub is_invoice_metric : MetricIr → Bool
unfolding is_declared_window is_invoice_family
is_invoice_metric m =
    is_invoice_family m
    && opt_eq m.entity_type (some "enterprise")
    && str_eq m.entity_key "seller_tax_no"
    && opt_eq m.partition_field (some "dt")
    && not (is_some m.source.catalog)
    && str_eq m.source.database "c_db"
    && str_eq m.source.table "source_fp_jdc_view"
    && is_declared_window m.window
    && is_empty m.filters
    && is_empty m.dimensions

abbrev pub invoice_joined : MetricError
invoice_joined =
    unsupported_metric "The invoice metric family is single-source and declares no joins"

abbrev pub invoice_undeclared : MetricError
invoice_undeclared =
    unsupported_metric
      "Only the declared enterprise invoice SUM or row COUNT over 30 days is supported"

-- `validate_invoice_metric`
unfoldable pub validate_invoice_metric : MetricIr → Result MetricError MetricIr
validate_invoice_metric metric = do
  m ← revalidate metric
  raise_if (not (is_empty m.joins && is_empty m.column_filters)) invoice_joined
  raise_if (not (is_invoice_metric m)) invoice_undeclared
  ok m

abbrev pub person_of : String → QualifiedField
person_of alias = record { alias = alias; field = "person_id" }

-- `self_exclusion`
abbrev pub self_exclusion : FieldComparison
self_exclusion = record {
  left = record { alias = "pe"; field = "related_enterprise_id" };
  operator = unequal;
  right = record { alias = "ep"; field = "enterprise_id" };
}

-- `enterprise_relation_join`, with the keys of `enterprise_relation_path`
abbrev pub enterprise_relation_join : JoinSpec
enterprise_relation_join = record {
  alias = "pe";
  join_type = inner;
  source = record { catalog = none; database = "demo"; table = "person_enterprise_relation" };
  conditions = record { left = person_of "ep"; operator = equal; right = person_of "pe" } ∷ [];
}

abbrev is_inner : JoinType → Bool
is_inner inner = true
is_inner left = false

abbrev is_equal : ComparisonOperator → Bool
is_equal equal = true
is_equal unequal = false

-- the conditions on the one join and on its one key
unfoldable pub is_relation_key : List FieldComparison → Bool
is_relation_key (c ∷ []) =
    qualified_eq c.left (person_of "ep")
    && is_equal c.operator
    && qualified_eq c.right (person_of "pe")
is_relation_key _ = false

unfoldable pub is_relation_path : List JoinSpec → Bool
unfolding is_relation_key
is_relation_path (j ∷ []) =
    str_eq j.alias "pe"
    && is_inner j.join_type
    && not (is_some j.source.catalog)
    && str_eq j.source.database "demo"
    && str_eq j.source.table "person_enterprise_relation"
    && is_relation_key j.conditions
is_relation_path _ = false

-- the condition of `validate_enterprise_relation_metric`
unfoldable pub is_relation_metric : MetricIr → Bool
unfolding is_relation_path
is_relation_metric m =
    str_eq m.name "related_enterprise_count"
    && opt_eq m.entity_type (some "enterprise")
    && str_eq m.entity_key "enterprise_id"
    && not (is_some m.partition_field)
    && not (is_some m.source.catalog)
    && str_eq m.source.database "demo"
    && str_eq m.source.table "enterprise_person_relation"
    && opt_eq m.source_alias (some "ep")
    && function_eq m.aggregation.function count_distinct
    && opt_eq m.aggregation.field (some "related_enterprise_id")
    && opt_eq m.aggregation_alias (some "pe")
    && not (is_some m.window)
    && is_relation_path m.joins
    && list_eq comparison_eq m.column_filters (self_exclusion ∷ [])
    && is_empty m.filters
    && is_empty m.dimensions

abbrev pub relation_undeclared : MetricError
relation_undeclared =
    unsupported_metric
      "Only the declared enterprise relationship COUNT DISTINCT over the two-hop enterprise -> person -> enterprise path is supported"

-- `validate_enterprise_relation_metric`
unfoldable pub validate_enterprise_relation_metric : MetricIr → Result MetricError MetricIr
validate_enterprise_relation_metric metric = do
  m ← validate_join_metric metric
  raise_if (not (is_relation_metric m)) relation_undeclared
  ok m

-- the keys of `SCENARIO_VALIDATORS`
pub data Scenario : Type 0 where
  invoice_risk enterprise_relation : Scenario

-- `SCENARIO_VALIDATORS`, as a function of the key
unfoldable pub scenario_validator : Scenario → MetricIr → Result MetricError MetricIr
scenario_validator invoice_risk m = validate_invoice_metric m
scenario_validator enterprise_relation m = validate_enterprise_relation_metric m

-- `validator_for`: the key of a name
unfoldable pub validator_for : String → Result MetricError Scenario
validator_for name =
    if str_eq name "invoice_risk"
    then ok invoice_risk
    else if str_eq name "enterprise_relation"
    then ok enterprise_relation
    else err (unsupported_metric (str_append "No metric semantics are declared for scenario " name))

-- `validate_for_scenario`
unfoldable pub validate_for_scenario : MetricIr → String → Result MetricError MetricIr
unfolding validator_for scenario_validator
validate_for_scenario m name = do s ← validator_for name; scenario_validator s m

-- `_accepts`: an unsupported metric is refused, every other error is raised
unfoldable pub accepts : Result MetricError MetricIr → Result MetricError Bool
accepts (ok m) = ok true
accepts (err (unsupported_metric t)) = ok false
accepts (err e) = err e

abbrev matching : Bool → Scenario → List Scenario
matching true s = s ∷ []
matching false s = []

-- `if len(matches) != 1: raise`
abbrev only_match : List Scenario → Result MetricError Scenario
only_match [] = err (unsupported_metric "Metric IR satisfies no scenario declaration")
only_match (s ∷ []) = ok s
only_match (s ∷ t ∷ ts) = err (unsupported_metric "Metric IR satisfies 2 scenario declarations")

-- `scenario_for_metric` of an atomic metric
unfoldable pub scenario_for_metric : MetricIr → Result MetricError Scenario
unfolding scenario_validator accepts
scenario_for_metric m = do
  a ← accepts (scenario_validator invoice_risk m)
  b ← accepts (scenario_validator enterprise_relation m)
  only_match (matching a invoice_risk ++ matching b enterprise_relation)
