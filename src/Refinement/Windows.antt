-- ===== src/Refinement/Windows.antt =====
-- What a window rewrite changes (src/airi/refinement/transform.py): the window, and the texts that
-- name it.
use airi.Prelude.{
  subst, sym, ap, ℕ, String, ◌≡◌, refl, ◌⊎◌, inl, inr, true, false, some, List, [], ◌∷◌, ◌++◌,
  if◌then◌else◌, ◌==◌, arith, str_eq, str_eq_iff, str_eq_self, opt_eq, ok, Result-cases, contains,
}
use airi.MetricIr.Equality.{function_eq, unit_eq, timezone_eq}
use airi.MetricIr.Models.{MetricIr, day, asia_shanghai, is_text, model_validate}
use airi.MetricIr.Joins.{revalidate}
use airi.MetricIr.Scenarios.{is_invoice_metric, validate_invoice_metric}
use airi.MetricIr.Scenarios.Recovery.{
  amount-accepted, validate_invoice_metric-accepts, accepted_invoice,
}
use airi.MetricIr.Scenarios.Forms.{invoice_amount}
use airi.Refinement.Transform.{
  validate_candidate_metric, changed_fields, rewritten, restored, window_diff, transform_window,
  ChangedField, text, number,
}

valid-60 :
    (d : String)
    → revalidate (rewritten (invoice_amount d) 60) ≡ ok (rewritten (invoice_amount d) 60)
unfolding revalidate model_validate contains str_eq
valid-60 d = refl

valid-90 :
    (d : String)
    → revalidate (rewritten (invoice_amount d) 90) ≡ ok (rewritten (invoice_amount d) 90)
unfolding revalidate model_validate contains str_eq
valid-90 d = refl

candidate-60 :
    (d : String)
    → validate_candidate_metric (rewritten (invoice_amount d) 60)
      ≡ ok (rewritten (invoice_amount d) 60)
unfolding validate_candidate_metric revalidate model_validate contains str_eq opt_eq
    validate_invoice_metric is_invoice_metric function_eq unit_eq timezone_eq
candidate-60 d = refl

candidate-90 :
    (d : String)
    → validate_candidate_metric (rewritten (invoice_amount d) 90)
      ≡ ok (rewritten (invoice_amount d) 90)
unfolding validate_candidate_metric revalidate model_validate contains str_eq opt_eq
    validate_invoice_metric is_invoice_metric function_eq unit_eq timezone_eq
candidate-90 d = refl

-- what `transform_window` returns for a baseline and a window
abbrev pub Window : ℕ → Type 0
Window days = (days ≡ 60) ⊎ (days ≡ 90)

not_count : {n : String} → n ≡ "invoice_count_30d" → n ≡ "invoice_amount_30d" → ⊥
unfolding str_eq
not_count {n} p q =
    let differ : str_eq "invoice_count_30d" "invoice_amount_30d" ≡ false = refl in
    let same : str_eq n n ≡ true = str_eq_self n in
    ground (arith, str_eq_iff "invoice_count_30d" "invoice_amount_30d")

-- A metric that the invoice declaration accepts under this name is the amount metric.
amount_form :
    (b : MetricIr)
    → validate_invoice_metric b ≡ ok b
    → b.name ≡ "invoice_amount_30d"
    → b ≡ invoice_amount b.description
amount_form b valid named = elim ((validate_invoice_metric-accepts b).0 valid).1 [
  | inl form ↦ form
  | inr form ↦ absurd (not_count (ap (λ x. x.name) form) named)
]

restored-rewritten :
    (b : MetricIr) (days : ℕ)
    → validate_invoice_metric b ≡ ok b
    → b.name ≡ "invoice_amount_30d"
    → restored b (rewritten b days) 30 ≡ b
restored-rewritten b days valid named =
    subst (λ x. restored x (rewritten x days) 30 ≡ x) (sym (amount_form b valid named)) refl

-- The texts that belong to a window of 60 or of 90 days, written out.
abbrev pub name_for : ℕ → String
name_for days = if days == 60 then "invoice_amount_60d" else "invoice_amount_90d"

abbrev pub label_for : ℕ → String
label_for days = if days == 60 then "近60天企业开票金额" else "近90天企业开票金额"

abbrev pub description_for : ℕ → String
description_for days = if days == 60 then "统计企业近60天开票金额之和" else "统计企业近90天开票金额之和"

-- The baseline under the name, the label, the description and the window of so many days.
abbrev pub candidate_of : MetricIr → ℕ → MetricIr
candidate_of b days = record b {
  name = name_for days;
  display_name = some (label_for days);
  description = description_for days;
  window =
      some
        (record { size = days; unit = day; time_field = "invoice_date"; timezone = asia_shanghai });
}

abbrev text_change : String → String → String → ChangedField
text_change field before after = record {
  field = field;
  before = text (some before);
  after = text (some after);
}

-- What such a candidate changes in a baseline of 30 days.
abbrev pub differences : MetricIr → ℕ → List ChangedField
differences b days =
    text_change "name" "invoice_amount_30d" (name_for days)
      ∷ text_change "display_name" "近30天企业开票金额" (label_for days)
      ∷ (if str_eq b.description (description_for days)
          then []
          else text_change "description" b.description (description_for days) ∷ [])
    ++ record { field = "window.size"; before = number 30; after = number days } ∷ []

module _ (canonical_hash : MetricIr → String) where
  returns-60 :
      (d : String)
      → is_text d ≡ true
      → transform_window canonical_hash (invoice_amount d) 60
        ≡ ok (
          rewritten (invoice_amount d) 60,
          changed_fields (invoice_amount d) (rewritten (invoice_amount d) 60) 30 60,
        )
  unfolding transform_window window_diff str_eq
  returns-60 d h =
      let same = str_eq_self (canonical_hash (invoice_amount d)) in
      rw (amount-accepted d h, valid-60 d, candidate-60 d) (rw same (rw (candidate-60 d)))

  returns-90 :
      (d : String)
      → is_text d ≡ true
      → transform_window canonical_hash (invoice_amount d) 90
        ≡ ok (
          rewritten (invoice_amount d) 90,
          changed_fields (invoice_amount d) (rewritten (invoice_amount d) 90) 30 90,
        )
  unfolding transform_window window_diff str_eq
  returns-90 d h =
      let same = str_eq_self (canonical_hash (invoice_amount d)) in
      rw (amount-accepted d h, valid-90 d, candidate-90 d) (rw same (rw (candidate-90 d)))

  -- what a window rewrite that returns has checked
  transform_window-checks :
      (b : MetricIr) (days : ℕ) {c : MetricIr} {diff : List ChangedField}
      → transform_window canonical_hash b days ≡ ok (c, diff)
      → (validate_invoice_metric b ≡ ok b) × (b.name ≡ "invoice_amount_30d") × Window days
  unfolding transform_window
  transform_window-checks b days h = elim (Result-cases (validate_invoice_metric b)) [
    | inl (v, e) ↦
        let same = (accepted_invoice b e).0 in
        ground (arith, str_eq_iff b.name "invoice_amount_30d")
    | inr (x, e) ↦ ground arith
  ]

  -- The text that the code computes is the one of the specification.
  rewritten-is_candidate :
      (d : String) (days : ℕ)
      → Window days
      → rewritten (invoice_amount d) days ≡ candidate_of (invoice_amount d) days
  rewritten-is_candidate d days window = elim window [ inl e ↦ rw e refl | inr e ↦ rw e refl ]

  changed_fields-lists :
      (d : String) (days : ℕ)
      → Window days
      → changed_fields (invoice_amount d) (rewritten (invoice_amount d) days) 30 days
        ≡ differences (invoice_amount d) days
  unfolding changed_fields opt_eq str_eq
  changed_fields-lists d days window = elim window [ inl e ↦ rw e refl | inr e ↦ rw e refl ]

  -- the rewrite in the code's own terms
  transform_window-rewrites :
      (b : MetricIr) (days : ℕ)
      → validate_invoice_metric b ≡ ok b
      → b.name ≡ "invoice_amount_30d"
      → Window days
      → transform_window canonical_hash b days
        ≡ ok (rewritten b days, changed_fields b (rewritten b days) 30 days)
  transform_window-rewrites b days valid named window =
      let text = ((validate_invoice_metric-accepts b).0 valid).0 in
      subst
        (λ x.
          transform_window canonical_hash x days
          ≡ ok (rewritten x days, changed_fields x (rewritten x days) 30 days))
        (sym (amount_form b valid named))
        (elim window [
          | inl e ↦ rw e (returns-60 b.description text)
          | inr e ↦ rw e (returns-90 b.description text)
        ])

  -- For every metric that the invoice declaration accepts as invoice_amount_30d, and for 60 and for
  -- 90 days, transform_window returns. The candidate is the baseline under the name, the label, the
  -- description and the window size of that many days. The difference lists, in this order and with
  -- the values before and after, the name, the label, the description unless it was that one
  -- already, and the window size.
  pub transform_window-returns :
      (b : MetricIr) (days : ℕ)
      → validate_invoice_metric b ≡ ok b
      → b.name ≡ "invoice_amount_30d"
      → Window days
      → transform_window canonical_hash b days ≡ ok (candidate_of b days, differences b days)
  transform_window-returns b days valid named window =
      subst
        (λ x. transform_window canonical_hash x days ≡ ok (candidate_of x days, differences x days))
        (sym (amount_form b valid named))
        (subst
          (λ c.
            transform_window canonical_hash (invoice_amount b.description) days
            ≡ ok (c, differences (invoice_amount b.description) days))
          (rewritten-is_candidate b.description days window)
          (subst
            (λ l.
              transform_window canonical_hash (invoice_amount b.description) days
              ≡ ok (rewritten (invoice_amount b.description) days, l))
            (changed_fields-lists b.description days window)
            (subst
              (λ x.
                transform_window canonical_hash x days
                ≡ ok (rewritten x days, changed_fields x (rewritten x days) 30 days))
              (amount_form b valid named) (transform_window-rewrites b days valid named window))))

  -- Whatever transform_window returns is the rewrite of its baseline to 60 or to 90 days, and putting
  -- name, label, description and window size back gives that baseline.
  pub transform_window-restores :
      (b : MetricIr) (days : ℕ) {c : MetricIr} {diff : List ChangedField}
      → transform_window canonical_hash b days ≡ ok (c, diff)
      → Window days × (c ≡ rewritten b days) × (restored b c 30 ≡ b)
  transform_window-restores b days {c} h =
      let (valid, named, window) = transform_window-checks b days h in
      let returned = transform_window-rewrites b days valid named window in
      let candidate : c ≡ rewritten b days = cc in
      (window, candidate, rw candidate (restored-rewritten b days valid named))
