-- ===== src/MetricIr/Derived/Growth.antt =====
-- What a validated growth metric is (src/airi/metric_ir/derived.py).
use airi.Prelude.{
  ◌≡◌, refl, ap, ◌⊎◌, inl, inr, true, Option, none, some, arith, str_eq, str_eq_iff, opt_eq,
  opt_eq_iff, ok, Result-cases,
}
use airi.MetricIr.Models.{count, TimeWindow, MetricIr}
use airi.MetricIr.Equality.{
  function_eq, function_eq_sound, unit_eq_sound, timezone_eq_sound, source_eq, source_eq_sound,
  list_eq, list_eq_sound, condition_eq, condition_eq_sound, join_eq, join_eq_sound, comparison_eq,
  comparison_eq_sound,
}
use airi.MetricIr.Scenarios.{validate_invoice_metric}
use airi.MetricIr.Scenarios.Forms.{invoice_amount}
use airi.MetricIr.Scenarios.Recovery.{validate_invoice_metric-accepts, accepted_invoice}
use airi.MetricIr.Derived.{
  current, previous, AtomicDependency, DerivedMetricIr, distinct_roles, window_eq, metric_eq,
  expected_offset, check_dependency, validate_derived_metric,
}

window_eq_sound : (a b : Option TimeWindow) → window_eq a b ≡ true → a ≡ b
unfolding window_eq
window_eq_sound none none h = refl
window_eq_sound (some a) (some b) h = ground (
  arith,
  unit_eq_sound a.unit b.unit,
  str_eq_iff a.time_field b.time_field,
  timezone_eq_sound a.timezone b.timezone,
)
window_eq_sound none (some b) h = cc
window_eq_sound (some a) none h = cc

metric_eq_parts :
    (a b : MetricIr)
    → metric_eq a b ≡ true
    → (str_eq a.schema_version b.schema_version ≡ true)
      × (str_eq a.name b.name ≡ true)
      × (opt_eq a.display_name b.display_name ≡ true)
      × (str_eq a.description b.description ≡ true)
      × (opt_eq a.entity_type b.entity_type ≡ true)
      × (str_eq a.entity_key b.entity_key ≡ true)
      × (opt_eq a.partition_field b.partition_field ≡ true)
      × (source_eq a.source b.source ≡ true)
      × (function_eq a.aggregation.function b.aggregation.function ≡ true)
      × (opt_eq a.aggregation.field b.aggregation.field ≡ true)
      × (list_eq str_eq a.dimensions b.dimensions ≡ true)
      × (list_eq condition_eq a.filters b.filters ≡ true)
      × (window_eq a.window b.window ≡ true)
      × (opt_eq a.source_alias b.source_alias ≡ true)
      × (opt_eq a.aggregation_alias b.aggregation_alias ≡ true)
      × (list_eq join_eq a.joins b.joins ≡ true)
      × (list_eq comparison_eq a.column_filters b.column_filters ≡ true)
unfolding metric_eq
metric_eq_parts a b h = ground arith

pub metric_eq_sound : (a b : MetricIr) → metric_eq a b ≡ true → a ≡ b
metric_eq_sound a b h =
    let p = metric_eq_parts a b h in
    let e0 = (str_eq_iff a.schema_version b.schema_version).0 p.0 in
    let e1 = (str_eq_iff a.name b.name).0 p.1 in
    let e2 = (opt_eq_iff a.display_name b.display_name).0 p.2 in
    let e3 = (str_eq_iff a.description b.description).0 p.3 in
    let e4 = (opt_eq_iff a.entity_type b.entity_type).0 p.4 in
    let e5 = (str_eq_iff a.entity_key b.entity_key).0 p.5 in
    let e6 = (opt_eq_iff a.partition_field b.partition_field).0 p.6 in
    let e7 = source_eq_sound a.source b.source p.7 in
    let e8 = function_eq_sound a.aggregation.function b.aggregation.function p.8 in
    let e9 = (opt_eq_iff a.aggregation.field b.aggregation.field).0 p.9 in
    let e10 = list_eq_sound str_eq (λ x y. (str_eq_iff x y).0) a.dimensions b.dimensions p.10 in
    let e11 = list_eq_sound condition_eq condition_eq_sound a.filters b.filters p.11 in
    let e12 = window_eq_sound a.window b.window p.12 in
    let e13 = (opt_eq_iff a.source_alias b.source_alias).0 p.13 in
    let e14 = (opt_eq_iff a.aggregation_alias b.aggregation_alias).0 p.14 in
    let e15 = list_eq_sound join_eq join_eq_sound a.joins b.joins p.15 in
    let e16 =
      list_eq_sound comparison_eq comparison_eq_sound a.column_filters b.column_filters p.16 in
    cc

-- A dependency that is let pass takes the amount metric at the offset of its role.
check_dependency-form :
    (d : AtomicDependency)
    → check_dependency d ≡ ok tt
    → (d.metric ≡ invoice_amount d.metric.description)
      × (d.anchor_offset_days ≡ expected_offset d.role)
unfolding check_dependency function_eq
check_dependency-form d h = elim (Result-cases (validate_invoice_metric d.metric)) [
  | inl (m, e) ↦
      let same = (accepted_invoice d.metric e).0 in
      let valid : validate_invoice_metric d.metric ≡ ok d.metric = rw same at e in
      elim ((validate_invoice_metric-accepts d.metric).0 valid).1 [
        | inl form ↦ (form, ground arith)
        | inr form ↦
            let counted : d.metric.aggregation.function ≡ count =
              ap (λ x. x.aggregation.function) form in
            absurd (ground arith)
      ]
  | inr (x, e) ↦ absurd (ground arith)
]

derived_checks :
    (d : DerivedMetricIr)
    → validate_derived_metric d ≡ ok d
    → (check_dependency d.first ≡ ok tt)
      × (check_dependency d.second ≡ ok tt)
      × (metric_eq d.first.metric d.second.metric ≡ true)
unfolding validate_derived_metric
derived_checks d valid = elim (Result-cases (check_dependency d.first)) [
  | inl (tt, e) ↦ elim (Result-cases (check_dependency d.second)) [
    | inl (tt, f) ↦ (e, f, ground arith)
    | inr (x, f) ↦ absurd (ground arith)
  ]
  | inr (x, e) ↦ absurd (ground arith)
]

-- A growth metric that passes both the schema's check of its roles and validate_derived_metric has
-- one current period at no offset and one previous period 30 days before it, and both sum the same
-- invoice amounts: the two metrics are equal, and they are the declared amount metric.
pub validate_derived_metric-growth :
    (d : DerivedMetricIr)
    → distinct_roles d ≡ ok tt
    → validate_derived_metric d ≡ ok d
    → ((d.first.role ≡ current)
          × (d.second.role ≡ previous)
          × (d.first.anchor_offset_days ≡ 0)
          × (d.second.anchor_offset_days ≡ 30)
        ⊎ (d.first.role ≡ previous)
          × (d.second.role ≡ current)
          × (d.first.anchor_offset_days ≡ 30)
          × (d.second.anchor_offset_days ≡ 0))
      × (d.first.metric ≡ d.second.metric)
      × (d.first.metric ≡ invoice_amount d.first.metric.description)
unfolding distinct_roles
validate_derived_metric-growth d roles valid =
    let (f, g, e) = derived_checks d valid in
    let (form, first) = check_dependency-form d.first f in
    let (_, second) = check_dependency-form d.second g in
    let same = metric_eq_sound d.first.metric d.second.metric e in (ground arith, same, form)
