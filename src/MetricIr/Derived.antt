-- ===== src/MetricIr/Derived.antt =====
-- The derived growth metric (src/airi/metric_ir/derived.py) and the scenario of either kind of metric
-- (src/airi/metric_ir/semantics.py). The operator and the strategy on a zero denominator are
-- literals of one value each, so the two checks of them cannot fail and have no clause here.
pub mod Growth
use airi.Prelude.{
  ℕ, String, ◌≡◌, ◌⊎◌, inl, inr, Bool, true, false, not, ◌&&◌, ◌||◌, Option, none, some, List, [],
  ◌∷◌, arith, if◌then◌else◌, ◌==◌, length, str_eq, str_eq_iff, opt_eq, opt_eq_iff, Result, ok, err,
  ◌>>=◌, ◌>>◌, raise_if, Result-cases,
}
use airi.MetricIr.Models.{Function, sum, TimeWindow, MetricIr, ValueError}
use airi.MetricIr.Equality.{
  function_eq, function_eq_sound, unit_eq, unit_eq_sound, timezone_eq, timezone_eq_sound, source_eq,
  source_eq_sound, list_eq, list_eq_sound, condition_eq, condition_eq_sound, join_eq, join_eq_sound,
  comparison_eq, comparison_eq_sound,
}
use airi.MetricIr.Joins.{MetricError, derived_metric, derived_dependency, unsupported_metric}
use airi.MetricIr.Scenarios.{Scenario, validate_invoice_metric, scenario_for_metric}
use airi.MetricIr.Scenarios.Forms.{invoice_amount}

pub data Role : Type 0 where
  current previous : Role

-- `AtomicDependency`
pub record AtomicDependency : Type 0 where
  pub role : Role
  pub metric : MetricIr
  pub anchor_offset_days : ℕ

-- `DerivedMetricIR`; the schema admits exactly two dependencies
pub record DerivedMetricIr : Type 0 where
  pub schema_version : String
  pub name : String
  pub display_name : String
  pub description : String
  pub first : AtomicDependency
  pub second : AtomicDependency

abbrev same_role : Role → Role → Bool
same_role current current = true
same_role previous previous = true
same_role _ _ = false

-- `DerivedMetricIR.distinct_roles`
unfoldable pub distinct_roles : DerivedMetricIr → Result ValueError (Unit {0})
distinct_roles metric =
    raise_if (same_role metric.first.role metric.second.role)
      "Exactly one current and one previous dependency required"

unfoldable pub window_eq : Option TimeWindow → Option TimeWindow → Bool
window_eq none none = true
window_eq (some a) (some b) =
    a.size == b.size
    && unit_eq a.unit b.unit
    && str_eq a.time_field b.time_field
    && timezone_eq a.timezone b.timezone
window_eq _ _ = false

-- `a == b` of two metric IRs, field by field
unfoldable pub metric_eq : MetricIr → MetricIr → Bool
unfolding window_eq
metric_eq a b =
    str_eq a.schema_version b.schema_version
    && str_eq a.name b.name
    && opt_eq a.display_name b.display_name
    && str_eq a.description b.description
    && opt_eq a.entity_type b.entity_type
    && str_eq a.entity_key b.entity_key
    && opt_eq a.partition_field b.partition_field
    && source_eq a.source b.source
    && function_eq a.aggregation.function b.aggregation.function
    && opt_eq a.aggregation.field b.aggregation.field
    && list_eq str_eq a.dimensions b.dimensions
    && list_eq condition_eq a.filters b.filters
    && window_eq a.window b.window
    && opt_eq a.source_alias b.source_alias
    && opt_eq a.aggregation_alias b.aggregation_alias
    && list_eq join_eq a.joins b.joins
    && list_eq comparison_eq a.column_filters b.column_filters

abbrev expected_offset : Role → ℕ
expected_offset current = 0
expected_offset previous = 30

-- the body of the loop of `validate_derived_metric`; whatever the invoice declaration raises
-- becomes a dependency error
unfoldable pub check_dependency : AtomicDependency → Result MetricError (Unit {0})
check_dependency d = elim (validate_invoice_metric d.metric) [
  | err e ↦ err (derived_dependency "Dependency must be the supported invoice amount metric")
  | ok m ↦
      raise_if
        (not (function_eq d.metric.aggregation.function sum)
          || not (d.anchor_offset_days == expected_offset d.role))
        (derived_dependency "Growth requires current SUM and previous SUM offset by 30 days")
]

-- `validate_derived_metric`
unfoldable pub validate_derived_metric : DerivedMetricIr → Result MetricError DerivedMetricIr
unfolding check_dependency metric_eq
validate_derived_metric metric = do
  raise_if (not (str_eq metric.name "invoice_amount_growth_30d"))
      (derived_metric "Only enterprise invoice amount growth_rate is supported")
  check_dependency metric.first
  check_dependency metric.second
  raise_if (not (metric_eq metric.first.metric metric.second.metric))
      (derived_dependency "Both periods must use identical atomic metric definitions")
  ok metric

pub data AnyMetric : Type 0 where
  atomic : MetricIr → AnyMetric
  derived : DerivedMetricIr → AnyMetric

-- `probe`
abbrev pub probe : AnyMetric → MetricIr
probe (atomic m) = m
probe (derived d) = d.first.metric

-- `scenario_for_metric` of either kind
unfoldable pub scenario_of : AnyMetric → Result MetricError Scenario
scenario_of m = scenario_for_metric (probe m)
