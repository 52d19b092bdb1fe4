-- ===== src/MetricIr/Scenarios/Forms.antt =====
-- What the scenario declarations admit (src/airi/metric_ir/invoice.py, enterprise_relation.py): the
-- metrics of fixed forms.
use airi.Prelude.{
  String, ◌≡◌, refl, ◌⊎◌, inl, inr, true, not, Option, none, some, List, [], ◌∷◌, arith, str_eq,
  str_eq_iff, opt_eq, opt_eq_iff, is_some, ok, Result-cases,
}
use airi.MetricIr.Models.{
  is_schema_text, is_label, is_text, check_fields, unique_dimensions, Function, model_validate,
  consistent_join_declaration, count, count_distinct, sum, day, asia_shanghai, equal, TimeWindow,
  FieldComparison, JoinSpec, MetricIr, is_empty,
}
use airi.MetricIr.Equality.{
  function_eq, comparison_eq, list_eq, function_eq_sound, unit_eq_sound, timezone_eq_sound,
  qualified_eq_sound, comparison_eq_sound, list_eq_sound,
}
use airi.MetricIr.Scenarios.{
  is_declared_window, is_invoice_family, is_invoice_metric, is_relation_key, is_relation_path,
  is_relation_metric, person_of, self_exclusion, enterprise_relation_join,
}

-- the metric of the relationship scenario, by the texts that it leaves open
abbrev pub relation_metric : Option String → String → MetricIr
relation_metric display_name description = record {
  schema_version = "1.0.0";
  name = "related_enterprise_count";
  display_name = display_name;
  description = description;
  entity_type = some "enterprise";
  entity_key = "enterprise_id";
  partition_field = none;
  source = record { catalog = none; database = "demo"; table = "enterprise_person_relation" };
  aggregation = record { function = count_distinct; field = some "related_enterprise_id" };
  dimensions = [];
  filters = [];
  window = none;
  source_alias = some "ep";
  aggregation_alias = some "pe";
  joins = enterprise_relation_join ∷ [];
  column_filters = self_exclusion ∷ [];
}

pub empty-nil : {A : Type 0} (xs : List A) → is_empty xs ≡ true → xs ≡ []
empty-nil [] h = refl
empty-nil (x ∷ xs) h = cc

is_relation_key-form :
    (cs : List FieldComparison)
    → is_relation_key cs ≡ true
    → cs ≡ record { left = person_of "ep"; operator = equal; right = person_of "pe" } ∷ []
unfolding is_relation_key
is_relation_key-form [] h = cc
is_relation_key-form (c ∷ []) h =
    ground (
      arith,
      qualified_eq_sound c.left (person_of "ep"),
      qualified_eq_sound c.right (person_of "pe"),
    )
is_relation_key-form (c ∷ d ∷ cs) h = cc

is_relation_path-form :
    (js : List JoinSpec) → is_relation_path js ≡ true → js ≡ enterprise_relation_join ∷ []
unfolding is_relation_path
is_relation_path-form [] h = cc
is_relation_path-form (j ∷ []) h = ground (
  arith,
  str_eq_iff j.alias "pe",
  str_eq_iff j.source.database "demo",
  str_eq_iff j.source.table "person_enterprise_relation",
  is_relation_key-form j.conditions,
)
is_relation_path-form (j ∷ k ∷ js) h = cc

is_none-none : {A : Type 0} (o : Option A) → not (is_some o) ≡ true → o ≡ none
is_none-none none h = refl
is_none-none (some a) h = cc

-- what the conjunction of the declaration says of each field
relation_fields :
    (m : MetricIr)
    → is_relation_metric m ≡ true
    → (str_eq m.name "related_enterprise_count" ≡ true)
      × (opt_eq m.entity_type (some "enterprise") ≡ true)
      × (str_eq m.entity_key "enterprise_id" ≡ true)
      × (not (is_some m.partition_field) ≡ true)
      × (not (is_some m.source.catalog) ≡ true)
      × (str_eq m.source.database "demo" ≡ true)
      × (str_eq m.source.table "enterprise_person_relation" ≡ true)
      × (opt_eq m.source_alias (some "ep") ≡ true)
      × (function_eq m.aggregation.function count_distinct ≡ true)
      × (opt_eq m.aggregation.field (some "related_enterprise_id") ≡ true)
      × (opt_eq m.aggregation_alias (some "pe") ≡ true)
      × (not (is_some m.window) ≡ true)
      × (is_relation_path m.joins ≡ true)
      × (list_eq comparison_eq m.column_filters (self_exclusion ∷ []) ≡ true)
      × (is_empty m.filters ≡ true)
      × (is_empty m.dimensions ≡ true)
unfolding is_relation_metric
relation_fields m h = ground arith

pub is_relation_metric-form :
    (m : MetricIr)
    → is_relation_metric m ≡ true
    → m.schema_version ≡ "1.0.0"
    → m ≡ relation_metric m.display_name m.description
is_relation_metric-form m h version =
    let p = relation_fields m h in
    let name = (str_eq_iff m.name "related_enterprise_count").0 p.0 in
    let entity = (opt_eq_iff m.entity_type (some "enterprise")).0 p.1 in
    let key = (str_eq_iff m.entity_key "enterprise_id").0 p.2 in
    let partition = is_none-none m.partition_field p.3 in
    let catalog = is_none-none m.source.catalog p.4 in
    let database = (str_eq_iff m.source.database "demo").0 p.5 in
    let table = (str_eq_iff m.source.table "enterprise_person_relation").0 p.6 in
    let alias = (opt_eq_iff m.source_alias (some "ep")).0 p.7 in
    let function = function_eq_sound m.aggregation.function count_distinct p.8 in
    let field = (opt_eq_iff m.aggregation.field (some "related_enterprise_id")).0 p.9 in
    let aggregate = (opt_eq_iff m.aggregation_alias (some "pe")).0 p.10 in
    let window = is_none-none m.window p.11 in
    let path = is_relation_path-form m.joins p.12 in
    let exclusion =
      list_eq_sound comparison_eq comparison_eq_sound m.column_filters (self_exclusion ∷ []) p.13 in
    let filters = empty-nil m.filters p.14 in let dimensions = empty-nil m.dimensions p.15 in cc

-- the metrics of the invoice family, by the texts that it leaves open
abbrev invoice_metric : String → String → Function → Option String → String → MetricIr
invoice_metric name display_name function field description = record {
  schema_version = "1.0.0";
  name = name;
  display_name = some display_name;
  description = description;
  entity_type = some "enterprise";
  entity_key = "seller_tax_no";
  partition_field = some "dt";
  source = record { catalog = none; database = "c_db"; table = "source_fp_jdc_view" };
  aggregation = record { function = function; field = field };
  dimensions = [];
  filters = [];
  window =
      some
        (record { size = 30; unit = day; time_field = "invoice_date"; timezone = asia_shanghai });
  source_alias = none;
  aggregation_alias = none;
  joins = [];
  column_filters = [];
}

abbrev pub invoice_amount : String → MetricIr
invoice_amount description =
    invoice_metric "invoice_amount_30d" "近30天企业开票金额" sum (some "invoice_amt") description

abbrev pub invoice_count : String → MetricIr
invoice_count description = invoice_metric "invoice_count_30d" "近30天企业开票次数" count none description

is_declared_window-form :
    (w : Option TimeWindow)
    → is_declared_window w ≡ true
    → w
      ≡ some
          (record { size = 30; unit = day; time_field = "invoice_date"; timezone = asia_shanghai })
unfolding is_declared_window
is_declared_window-form none h = cc
is_declared_window-form (some w) h = ground (
  arith,
  unit_eq_sound w.unit day,
  str_eq_iff w.time_field "invoice_date",
  timezone_eq_sound w.timezone asia_shanghai,
)

-- the name, the label and the aggregation that go together
Family : MetricIr → String → String → Function → Option String → Type 0
Family m name display_name function field =
    (m.name ≡ name)
    × (m.display_name ≡ some display_name)
    × (m.aggregation.function ≡ function)
    × (m.aggregation.field ≡ field)

is_invoice_family-form :
    (m : MetricIr)
    → is_invoice_family m ≡ true
    → Family m "invoice_amount_30d" "近30天企业开票金额" sum (some "invoice_amt")
      ⊎ Family m "invoice_count_30d" "近30天企业开票次数" count none
unfolding is_invoice_family Family
is_invoice_family-form m h = ground (
  arith,
  str_eq_iff m.name "invoice_amount_30d",
  opt_eq_iff m.display_name (some "近30天企业开票金额"),
  function_eq_sound m.aggregation.function sum,
  opt_eq_iff m.aggregation.field (some "invoice_amt"),
  str_eq_iff m.name "invoice_count_30d",
  opt_eq_iff m.display_name (some "近30天企业开票次数"),
  function_eq_sound m.aggregation.function count,
  opt_eq_iff m.aggregation.field none,
)

invoice_fields :
    (m : MetricIr)
    → is_invoice_metric m ≡ true
    → (is_invoice_family m ≡ true)
      × (opt_eq m.entity_type (some "enterprise") ≡ true)
      × (str_eq m.entity_key "seller_tax_no" ≡ true)
      × (opt_eq m.partition_field (some "dt") ≡ true)
      × (not (is_some m.source.catalog) ≡ true)
      × (str_eq m.source.database "c_db" ≡ true)
      × (str_eq m.source.table "source_fp_jdc_view" ≡ true)
      × (is_declared_window m.window ≡ true)
      × (is_empty m.filters ≡ true)
      × (is_empty m.dimensions ≡ true)
unfolding is_invoice_metric
invoice_fields m h = ground arith

-- what the schema's validator lets stand without joins
abbrev pub Plain : MetricIr → Type 0
Plain m =
    (m.joins ≡ [])
    × (m.column_filters ≡ [])
    × (m.source_alias ≡ none)
    × (m.aggregation_alias ≡ none)

pub is_invoice_metric-form :
    (m : MetricIr)
    → is_invoice_metric m ≡ true
    → Plain m
    → m.schema_version ≡ "1.0.0"
    → (m ≡ invoice_amount m.description) ⊎ (m ≡ invoice_count m.description)
unfolding Family
is_invoice_metric-form m h (joins, columns, source, aggregate) version =
    let p = invoice_fields m h in
    let entity = (opt_eq_iff m.entity_type (some "enterprise")).0 p.1 in
    let key = (str_eq_iff m.entity_key "seller_tax_no").0 p.2 in
    let partition = (opt_eq_iff m.partition_field (some "dt")).0 p.3 in
    let catalog = is_none-none m.source.catalog p.4 in
    let database = (str_eq_iff m.source.database "c_db").0 p.5 in
    let table = (str_eq_iff m.source.table "source_fp_jdc_view").0 p.6 in
    let window = is_declared_window-form m.window p.7 in
    let filters = empty-nil m.filters p.8 in
    let dimensions = empty-nil m.dimensions p.9 in
    elim (is_invoice_family-form m p.0) [
      | inl (name, display, function, field) ↦ inl (cc)
      | inr (name, display, function, field) ↦ inr (cc)
    ]

pub model_validate-same : (m : MetricIr) {m' : MetricIr} → model_validate m ≡ ok m' → m' ≡ m
unfolding model_validate
model_validate-same m h = ground arith

-- what the schema's validator has checked of a metric that it passes
validated :
    (m : MetricIr) {m' : MetricIr}
    → model_validate m ≡ ok m'
    → (is_schema_text m ≡ true) × (consistent_join_declaration m ≡ ok tt)
unfolding model_validate
validated m h = elim (Result-cases (check_fields m)) [
  | inl (tt, e) ↦ elim (Result-cases (unique_dimensions m)) [
    | inl (tt, f) ↦ elim (Result-cases (consistent_join_declaration m)) [
      | inl (tt, g) ↦ (ground arith, g)
      | inr (x, g) ↦ absurd (ground arith)
    ]
    | inr (x, f) ↦ absurd (ground arith)
  ]
  | inr (x, e) ↦ absurd (ground arith)
]

pub model_validate-Plain :
    (m : MetricIr) {m' : MetricIr}
    → model_validate m ≡ ok m'
    → is_empty m.joins ≡ true
    → (m.column_filters ≡ []) × (m.source_alias ≡ none) × (m.aggregation_alias ≡ none)
unfolding consistent_join_declaration
model_validate-Plain m h j =
    let declared = (validated m h).1 in ground (arith, empty-nil m.column_filters)

-- the literal and the texts of a metric that the schema's validator passes
pub model_validate-texts :
    (m : MetricIr) {m' : MetricIr}
    → model_validate m ≡ ok m'
    → (m.schema_version ≡ "1.0.0")
      × (is_label m.display_name ≡ true)
      × (is_text m.description ≡ true)
unfolding is_schema_text
model_validate-texts m h =
    let text = (validated m h).0 in
    ((str_eq_iff m.schema_version "1.0.0").0 (ground arith), ground arith, ground arith)
