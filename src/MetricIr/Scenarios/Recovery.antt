-- ===== src/MetricIr/Scenarios/Recovery.antt =====
-- The scenario declarations as exact sets of metrics (src/airi/metric_ir/invoice.py,
-- enterprise_relation.py), and the recovery of a scenario (semantics.py).
use airi.Prelude.{
  str_append, join, subst, ap, contains, str_eq, opt_eq, sorted, ◌&&◌, String, ◌≡◌, refl, sym, ◌↔◌,
  ◌⊎◌, inl, inr, true, not, Option, [], ◌∷◌, arith, Result, ok, err, Result-cases, Bool-cases,
}
use airi.MetricIr.Models.{MetricIr, is_empty, is_text, is_label, is_schema_text, model_validate}
use airi.MetricIr.Equality.{function_eq, unit_eq, timezone_eq, qualified_eq, list_eq, comparison_eq}
use airi.MetricIr.Joins.{
  MetricError, unsupported_metric, revalidate, validate_join_metric, join_problems,
}
use airi.MetricIr.Scenarios.{
  is_invoice_metric, is_relation_metric, validate_invoice_metric,
  validate_enterprise_relation_metric, Scenario, invoice_risk, enterprise_relation,
  scenario_validator, scenario_for_metric, enterprise_relation_join,
}
use airi.MetricIr.Scenarios.Forms.{
  relation_metric, invoice_amount, invoice_count, is_relation_metric-form, is_invoice_metric-form,
  model_validate-same, model_validate-Plain, model_validate-texts, empty-nil, Plain,
}

revalidate-same :
    (m : MetricIr) {m' : MetricIr} → revalidate m ≡ ok m' → (m' ≡ m) × (model_validate m ≡ ok m')
unfolding revalidate
revalidate-same m h = elim (Result-cases (model_validate m)) [
  | inl (v, e) ↦ let same = model_validate-same m e in ground arith
  | inr (x, e) ↦ ground arith
]

-- the literal and the texts that the schema asks of a metric
abbrev pub Texts : MetricIr → Type 0
Texts m =
    (m.schema_version ≡ "1.0.0") × (is_label m.display_name ≡ true) × (is_text m.description ≡ true)

-- An accepted metric is handed back as it was given, and meets its declaration and the schema.
pub accepted_invoice :
    (m : MetricIr) {m' : MetricIr}
    → validate_invoice_metric m ≡ ok m'
    → (m' ≡ m) × (is_invoice_metric m ≡ true) × Plain m × Texts m
unfolding validate_invoice_metric
accepted_invoice m h = elim (Result-cases (revalidate m)) [
  | inl (v, e) ↦
      let (same, valid) = revalidate-same m e in
      let (version, label, text) = model_validate-texts m valid in
      ground (arith, model_validate-Plain m valid, empty-nil m.joins)
  | inr (x, e) ↦ ground arith
]

accepted_join : (m : MetricIr) {m' : MetricIr} → validate_join_metric m ≡ ok m' → (m' ≡ m) × Texts m
unfolding validate_join_metric
accepted_join m h = elim (Result-cases (revalidate m)) [
  | inl (v, e) ↦
      let (same, valid) = revalidate-same m e in
      let texts = model_validate-texts m valid in (ground arith, texts)
  | inr (x, e) ↦ ground arith
]

accepted_relation :
    (m : MetricIr) {m' : MetricIr}
    → validate_enterprise_relation_metric m ≡ ok m'
    → (m' ≡ m) × (is_relation_metric m ≡ true) × Texts m
unfolding validate_enterprise_relation_metric
accepted_relation m h = elim (Result-cases (validate_join_metric m)) [
  | inl (v, e) ↦ let (same, texts) = accepted_join m e in (ground arith, ground arith, texts)
  | inr (x, e) ↦ ground arith
]

amount-valid :
    (d : String) → is_text d ≡ true → revalidate (invoice_amount d) ≡ ok (invoice_amount d)
unfolding revalidate model_validate contains str_eq
amount-valid d h = rw (h, revalidate) refl

pub amount-accepted :
    (d : String)
    → is_text d ≡ true
    → validate_invoice_metric (invoice_amount d) ≡ ok (invoice_amount d)
unfolding validate_invoice_metric str_eq opt_eq function_eq unit_eq timezone_eq is_invoice_metric
amount-accepted d h = rw (amount-valid d h) refl

count-valid : (d : String) → is_text d ≡ true → revalidate (invoice_count d) ≡ ok (invoice_count d)
unfolding revalidate model_validate contains str_eq
count-valid d h = rw (h, revalidate) refl

count-accepted :
    (d : String)
    → is_text d ≡ true
    → validate_invoice_metric (invoice_count d) ≡ ok (invoice_count d)
unfolding validate_invoice_metric str_eq opt_eq function_eq unit_eq timezone_eq is_invoice_metric
count-accepted d h = rw (count-valid d h) refl

relation-accepted :
    (n : Option String) (d : String)
    → is_label n ≡ true
    → is_text d ≡ true
    → validate_enterprise_relation_metric (relation_metric n d) ≡ ok (relation_metric n d)
unfolding validate_enterprise_relation_metric model_validate contains str_eq function_eq opt_eq
    sorted qualified_eq list_eq comparison_eq is_relation_metric validate_join_metric join_problems
    revalidate is_schema_text
relation-accepted n d label text = rw (label, text) refl

-- The invoice declaration accepts the amount and the count metric of 30 days, under schema version
-- 1.0.0 and with any stripped description of 1 to 2000 characters, and nothing else; what it returns
-- is the metric that it was given.
pub validate_invoice_metric-accepts :
    (m : MetricIr)
    → (validate_invoice_metric m ≡ ok m) ↔ (
        (is_text m.description ≡ true)
        × ((m ≡ invoice_amount m.description) ⊎ (m ≡ invoice_count m.description)))
validate_invoice_metric-accepts m = (
  (λ h.
      let (same, declared, plain, (version, label, text)) = accepted_invoice m h in
      (text, is_invoice_metric-form m declared plain version)),
  (λ (text, form). elim form [
    | inl e ↦ subst (λ x. validate_invoice_metric x ≡ ok x) (sym e) (amount-accepted _ text)
    | inr e ↦ subst (λ x. validate_invoice_metric x ≡ ok x) (sym e) (count-accepted _ text)
  ]),
)

-- The relationship declaration accepts exactly one metric, up to the label and the description: the
-- schema version is 1.0.0, the label is absent or like the description a stripped text of 1 to 2000
-- characters. What it returns is the metric that it was given.
pub validate_enterprise_relation_metric-accepts :
    (m : MetricIr)
    → (validate_enterprise_relation_metric m ≡ ok m) ↔ (
        (is_label m.display_name ≡ true)
        × (is_text m.description ≡ true)
        × (m ≡ relation_metric m.display_name m.description))
validate_enterprise_relation_metric-accepts m = (
  (λ h.
      let (same, declared, (version, label, text)) = accepted_relation m h in
      (label, text, is_relation_metric-form m declared version)),
  (λ (label, text, e).
      subst (λ x. validate_enterprise_relation_metric x ≡ ok x) (sym e)
        (relation-accepted _ _ label text)),
)

-- A metric of the schema is accepted as it is or refused as unsupported.
Refuses : Result MetricError MetricIr → Type 0
Refuses r = (t : String) × (r ≡ err (unsupported_metric t))

invoice-cases :
    (m : MetricIr)
    → model_validate m ≡ ok m
    → (validate_invoice_metric m ≡ ok m) ⊎ Refuses (validate_invoice_metric m)
unfolding validate_invoice_metric revalidate Refuses
invoice-cases m valid = elim (Bool-cases (not (is_empty m.joins && is_empty m.column_filters))) [
  | inl joined ↦
      inr ("The invoice metric family is single-source and declares no joins", ground arith)
  | inr plain ↦ elim (Bool-cases (is_invoice_metric m)) [
    | inl d ↦ inl (ground arith)
    | inr d ↦ inr (
      "Only the declared enterprise invoice SUM or row COUNT over 30 days is supported",
      ground arith,
    )
  ]
]

join-cases :
    (m : MetricIr)
    → model_validate m ≡ ok m
    → (validate_join_metric m ≡ ok m) ⊎ Refuses (validate_join_metric m)
unfolding validate_join_metric revalidate Refuses
join-cases m valid = elim (Bool-cases (is_empty (join_problems m))) [
  | inl none_found ↦ inl (ground arith)
  | inr some_found ↦ inr (
    str_append "Joined metric is outside the supported join mechanism: "
        (join "; " (join_problems m)),
    ground arith,
  )
]

relation-cases :
    (m : MetricIr)
    → model_validate m ≡ ok m
    → (validate_enterprise_relation_metric m ≡ ok m)
      ⊎ Refuses (validate_enterprise_relation_metric m)
unfolding validate_enterprise_relation_metric Refuses
relation-cases m valid = elim (join-cases m valid) [
  | inl joined ↦ elim (Bool-cases (is_relation_metric m)) [
    | inl d ↦ inl (ground arith)
    | inr d ↦ inr (
      "Only the declared enterprise relationship COUNT DISTINCT over the two-hop enterprise -> person -> enterprise path is supported",
      ground arith,
    )
  ]
  | inr (t, refused) ↦ inr (t, ground arith)
]

-- No metric satisfies both declarations: one needs a join, the other refuses joins.
pub scenarios-disjoint :
    (m : MetricIr)
    → validate_invoice_metric m ≡ ok m
    → validate_enterprise_relation_metric m ≡ ok m
    → ⊥
scenarios-disjoint m h k =
    let (a, b, plain, texts) = accepted_invoice m h in
    let (same, declared, (version, label, text)) = accepted_relation m k in
    let form = is_relation_metric-form m declared version in
    let joins : m.joins ≡ enterprise_relation_join ∷ [] = ap (λ x. x.joins) form in ground arith

-- For a metric that the schema's validator passes, scenario_for_metric returns a scenario exactly
-- when the declaration of that scenario accepts the metric.
pub scenario_for_metric-recovers :
    (m : MetricIr) (s : Scenario)
    → model_validate m ≡ ok m
    → (scenario_for_metric m ≡ ok s) ↔ (scenario_validator s m ≡ ok m)
unfolding scenario_for_metric scenario_validator Refuses
scenario_for_metric-recovers m invoice_risk valid = elim (invoice-cases m valid) [
  | inl a ↦ elim (relation-cases m valid) [
    | inl b ↦ absurd (scenarios-disjoint m a b)
    | inr (t, b) ↦ ((λ h. a), (λ h. ground arith))
  ]
  | inr (t, a) ↦ elim (relation-cases m valid) [
    | inl b ↦ ((λ h. ground arith), (λ h. ground arith))
    | inr (u, b) ↦ ((λ h. ground arith), (λ h. ground arith))
  ]
]
scenario_for_metric-recovers m enterprise_relation valid = elim (invoice-cases m valid) [
  | inl a ↦ elim (relation-cases m valid) [
    | inl b ↦ absurd (scenarios-disjoint m a b)
    | inr (t, b) ↦ ((λ h. ground arith), (λ h. ground arith))
  ]
  | inr (t, a) ↦ elim (relation-cases m valid) [
    | inl b ↦ ((λ h. b), (λ h. ground arith))
    | inr (u, b) ↦ ((λ h. ground arith), (λ h. ground arith))
  ]
]
