-- ===== src/MetricIr/Examples.antt =====
-- The declarations at concrete metrics (src/airi/metric_ir).
use airi.Prelude.{◌≡◌, ◌⊎◌, ◌↔◌, refl, true, none, ok, str_eq, opt_eq, contains}
use airi.MetricIr.Models.{MetricIr, is_text, is_label, is_schema_text, model_validate}
use airi.MetricIr.Equality.{
  function_eq, unit_eq, timezone_eq, source_eq, list_eq, condition_eq, join_eq, comparison_eq,
}
use airi.MetricIr.Joins.{revalidate}
use airi.MetricIr.Scenarios.{
  invoice_risk, is_invoice_metric, scenario_for_metric, scenario_validator, validate_invoice_metric,
  validate_enterprise_relation_metric,
}
use airi.MetricIr.Scenarios.Forms.{invoice_amount, invoice_count, relation_metric}
use airi.MetricIr.Scenarios.Recovery.{
  validate_invoice_metric-accepts, validate_enterprise_relation_metric-accepts,
  scenario_for_metric-recovers,
}
use airi.MetricIr.Derived.{
  current, previous, DerivedMetricIr, distinct_roles, metric_eq, check_dependency,
  validate_derived_metric,
}
use airi.MetricIr.Derived.Growth.{validate_derived_metric-growth}

abbrev amount : MetricIr
amount = invoice_amount "sum of the amounts"

abbrev relations : MetricIr
relations = relation_metric none "related enterprises"

validate_invoice_metric-accepts_example : (validate_invoice_metric amount ≡ ok amount) ↔ (
    (is_text amount.description ≡ true)
    × ((amount ≡ invoice_amount "sum of the amounts")
        ⊎ (amount ≡ invoice_count "sum of the amounts")))
validate_invoice_metric-accepts_example = validate_invoice_metric-accepts amount

validate_enterprise_relation_metric-accepts_example :
    (validate_enterprise_relation_metric relations ≡ ok relations) ↔ (
      (is_label relations.display_name ≡ true)
      × (is_text relations.description ≡ true)
      × (relations ≡ relation_metric none "related enterprises"))
validate_enterprise_relation_metric-accepts_example =
    validate_enterprise_relation_metric-accepts relations

amount-valid : model_validate amount ≡ ok amount
unfolding model_validate is_schema_text is_text contains str_eq
amount-valid = refl

scenario_for_metric-recovers_example :
    (scenario_for_metric amount ≡ ok invoice_risk)
    ↔ (scenario_validator invoice_risk amount ≡ ok amount)
scenario_for_metric-recovers_example = scenario_for_metric-recovers amount invoice_risk amount-valid

abbrev growth : DerivedMetricIr
growth = record {
  schema_version = "1.0.0";
  name = "invoice_amount_growth_30d";
  display_name = "growth";
  description = "growth over 30 days";
  first = record { role = current; metric = amount; anchor_offset_days = 0 };
  second = record { role = previous; metric = amount; anchor_offset_days = 30 };
}

growth-roles : distinct_roles growth ≡ ok tt
unfolding distinct_roles
growth-roles = refl

growth-run : validate_derived_metric growth ≡ ok growth
unfolding validate_derived_metric check_dependency metric_eq validate_invoice_metric revalidate
    model_validate is_schema_text is_text contains str_eq opt_eq function_eq unit_eq timezone_eq
    is_invoice_metric source_eq list_eq condition_eq join_eq comparison_eq
growth-run = refl

validate_derived_metric-growth_example :
    ((growth.first.role ≡ current)
        × (growth.second.role ≡ previous)
        × (growth.first.anchor_offset_days ≡ 0)
        × (growth.second.anchor_offset_days ≡ 30)
      ⊎ (growth.first.role ≡ previous)
        × (growth.second.role ≡ current)
        × (growth.first.anchor_offset_days ≡ 30)
        × (growth.second.anchor_offset_days ≡ 0))
    × (growth.first.metric ≡ growth.second.metric)
    × (growth.first.metric ≡ invoice_amount "sum of the amounts")
validate_derived_metric-growth_example =
    validate_derived_metric-growth growth growth-roles growth-run
