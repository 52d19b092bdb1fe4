-- ===== src/Refinement/Transform.antt =====
-- The window rewrite and its semantic difference (src/airi/refinement/transform.py). The digest
-- canonical_hash is a parameter. The number of days is printed only after it was found to be 60 or
-- 90, so `days_text` covers the numbers that are printed.
use airi.Prelude.{
  ℕ, String, Bool, false, not, ◌&&◌, ◌||◌, Option, none, some, List, [], ◌∷◌, ◌++◌, if◌then◌else◌,
  ◌==◌, str_eq, opt_eq, str_append, Result, ok, err, ◌>>=◌, ◌>>◌, raise_if,
}
use airi.MetricIr.Models.{TimeWindow, MetricIr}
use airi.MetricIr.Joins.{MetricError, revalidate}
use airi.MetricIr.Scenarios.{validate_invoice_metric, scenario_for_metric, scenario_validator}

-- `RefinementError` with its category, an error of the metric's validators, or the `AttributeError`
-- of a window that is `None`
pub data TransformError : Type 0 where
  refinement_error : String → TransformError
  metric_error : MetricError → TransformError
  attribute_error : TransformError

abbrev pub Outcome : Type 0 → Type 0
Outcome A = Result TransformError A

-- an error of the metric's validators passes through
abbrev pub lift : {A : Type 0} → Result MetricError A → Outcome A
lift (ok a) = ok a
lift (err e) = err (metric_error e)

abbrev pub days_text : ℕ → String
days_text days = if days == 60 then "60" else "90"

-- `f"invoice_amount_{days}d"`
abbrev pub amount_name : ℕ → String
amount_name days = str_append "invoice_amount_" (str_append (days_text days) "d")

-- `f"近{days}天企业开票金额"`
abbrev pub amount_label : ℕ → String
amount_label days = str_append "近" (str_append (days_text days) "天企业开票金额")

-- `f"统计企业近{days}天开票金额之和"`
abbrev pub amount_description : ℕ → String
amount_description days = str_append "统计企业近" (str_append (days_text days) "天开票金额之和")

-- `days in (60, 90)`
abbrev pub is_candidate_window : ℕ → Bool
is_candidate_window days = days == 60 || days == 90

-- `supports_window_review` of a metric IR
unfoldable pub supports_window_review : MetricIr → Bool
supports_window_review baseline = str_eq baseline.name "invoice_amount_30d"

-- `is_window_review_candidate` of a metric IR
unfoldable pub is_window_review_candidate : MetricIr → Bool
is_window_review_candidate metric =
    str_eq metric.name "invoice_amount_60d" || str_eq metric.name "invoice_amount_90d"

abbrev pub with_size : ℕ → Option TimeWindow → Option TimeWindow
with_size n none = none
with_size n (some w) = some (record w { size = n })

-- the condition under which `validate_candidate_metric` goes on
unfoldable pub is_candidate_shape : MetricIr → Bool
is_candidate_shape m = elim m.window [
  | none ↦ false
  | some w ↦
      is_candidate_window w.size
      && str_eq m.name (amount_name w.size)
      && opt_eq m.display_name (some (amount_label w.size))
]

-- the document that stands for the candidate before the invoice declaration
abbrev pub normalized : MetricIr → MetricIr
normalized m = record m {
  name = "invoice_amount_30d";
  display_name = some "近30天企业开票金额";
  window = with_size 30 m.window;
}

-- `validate_candidate_metric`
unfoldable pub validate_candidate_metric : MetricIr → Outcome MetricIr
unfolding is_candidate_shape
validate_candidate_metric metric = do
  m ← lift (revalidate metric)
  raise_if (not (is_candidate_shape m)) (refinement_error "candidate_semantic_diff_invalid")
  n ← lift (revalidate (normalized m))
  accepted ← lift (validate_invoice_metric n)
  ok m

-- `validate_executable_metric`
unfoldable pub validate_executable_metric : MetricIr → Outcome MetricIr
unfolding is_window_review_candidate validate_candidate_metric
validate_executable_metric metric =
    if is_window_review_candidate metric
    then validate_candidate_metric metric
    else (do s ← lift (scenario_for_metric metric); lift (scenario_validator s metric))

pub data FieldValue : Type 0 where
  text : Option String → FieldValue
  number : ℕ → FieldValue

-- `ChangedField`
pub record ChangedField : Type 0 where
  pub field : String
  pub before : FieldValue
  pub after : FieldValue

abbrev changed : String → Option String → Option String → List ChangedField
changed field before after =
    if opt_eq before after
    then []
    else record { field = field; before = text before; after = text after } ∷ []

abbrev window_of : MetricIr → Outcome TimeWindow
window_of m = elim m.window [ none ↦ err attribute_error | some w ↦ ok w ]

-- the document `after` once name, labels and window size are put back
abbrev pub restored : MetricIr → MetricIr → ℕ → MetricIr
restored baseline candidate size = record candidate {
  name = baseline.name;
  display_name = baseline.display_name;
  description = baseline.description;
  window = with_size size candidate.window;
}

-- the list `changes`
unfoldable pub changed_fields : MetricIr → MetricIr → ℕ → ℕ → List ChangedField
changed_fields baseline candidate before after =
    changed "name" (some baseline.name) (some candidate.name)
    ++ (changed "display_name" baseline.display_name candidate.display_name
        ++ (changed "description" (some baseline.description) (some candidate.description)
            ++ record { field = "window.size"; before = number before; after = number after } ∷ []))

-- the data that `transform_window` validates as the candidate
abbrev pub rewritten : MetricIr → ℕ → MetricIr
rewritten baseline days = record baseline {
  name = amount_name days;
  display_name = some (amount_label days);
  description = amount_description days;
  window = with_size days baseline.window;
}

module _ (canonical_hash : MetricIr → String) where
  -- `CandidateIRTransformer.semantic_diff`
  unfoldable pub window_diff : MetricIr → MetricIr → Outcome (List ChangedField)
  unfolding changed_fields validate_candidate_metric
  window_diff baseline candidate = do
    before ← window_of baseline
    after ← window_of candidate
    raise_if
        (not (
          str_eq (canonical_hash baseline)
            (canonical_hash (restored baseline candidate before.size))))
        (refinement_error "candidate_semantic_diff_invalid")
    accepted ← validate_candidate_metric candidate
    ok (changed_fields baseline candidate before.size after.size)

  -- `CandidateIRTransformer.transform_window` of a metric IR and a whole number of days
  unfoldable pub transform_window : MetricIr → ℕ → Outcome (MetricIr × List ChangedField)
  unfolding window_diff
  transform_window baseline days = do
    raise_if (not (str_eq baseline.name "invoice_amount_30d"))
        (refinement_error "proposal_manual_only")
    accepted ← lift (validate_invoice_metric baseline)
    raise_if (not (is_candidate_window days)) (refinement_error "proposal_parameter_invalid")
    candidate ← lift (revalidate (rewritten baseline days))
    valid ← validate_candidate_metric candidate
    diff ← window_diff baseline valid
    ok (valid, diff)
