-- ===== src/MetricIr/Joins.antt =====
-- The join mechanism gate (src/airi/metric_ir/joins.py). Sets of aliases are lists: only membership
-- is asked of them.
use airi.Prelude.{
  String, Bool, true, false, not, ◌&&◌, ◌||◌, Option, none, some, List, [], ◌∷◌, ◌++◌,
  if◌then◌else◌, ltb, length, keep, is_some, opt_eq, contains, sorted, join, str_append, Result, ok,
  err, ◌>>=◌, ◌>>◌, raise_if,
}
use airi.MetricIr.Models.{
  count_distinct, MetricIr, JoinSpec, FieldComparison, is_empty, opt_list, join_aliases,
  model_validate,
}
use airi.MetricIr.Equality.{function_eq}

-- What the validators of metrics raise: pydantic's ValidationError, and the errors of
-- src/airi/core/exceptions.py that they name.
pub data MetricError : Type 0 where
  validation_error unsupported_metric derived_metric derived_dependency zero_division :
      String → MetricError

-- `MetricIR.model_validate(metric.model_dump())`
unfoldable pub revalidate : MetricIr → Result MetricError MetricIr
revalidate metric = elim (model_validate metric) [ ok m ↦ ok m | err e ↦ err (validation_error e) ]

-- `alias_set`
unfoldable pub alias_set : MetricIr → List String
alias_set metric = opt_list metric.source_alias ++ join_aliases metric.joins

-- `{side.alias for condition in conditions for side in (condition.left, condition.right)}`
unfoldable pub side_aliases : List FieldComparison → List String
side_aliases [] = []
side_aliases (c ∷ cs) = c.left.alias ∷ c.right.alias ∷ side_aliases cs

abbrev pub names_base : Option String → List String → Bool
names_base none sides = false
names_base (some base) sides = contains base sides

-- the condition of `anchored_join_aliases` on one join
unfoldable pub is_anchored : Option String → JoinSpec → Bool
unfolding side_aliases
is_anchored base j =
    contains j.alias (side_aliases j.conditions) && names_base base (side_aliases j.conditions)

-- `anchored_join_aliases`
unfoldable pub anchored_join_aliases : Option String → List JoinSpec → List String
unfolding is_anchored
anchored_join_aliases base [] = []
anchored_join_aliases base (j ∷ js) =
    let rest = anchored_join_aliases base js in if is_anchored base j then j.alias ∷ rest else rest

-- `sorted(join.alias for join in joins if join.alias not in anchored)`
unfoldable pub unanchored : MetricIr → List String
unfolding anchored_join_aliases join_aliases
unanchored metric = sorted (
    keep (λ alias. not (contains alias (anchored_join_aliases metric.source_alias metric.joins)))
      (join_aliases metric.joins))

abbrev problem : Bool → String → List String
problem true text = text ∷ []
problem false text = []

unkeyed : List String → List String
unkeyed [] = []
unkeyed (a ∷ rest) =
    str_append "joined source " (str_append a " is not keyed to the base source") ∷ unkeyed rest

-- the list that `validate_join_metric` collects
unfoldable pub join_problems : MetricIr → List String
unfolding unanchored unkeyed
join_problems m =
    problem (is_empty m.joins) "no join is declared"
    ++ (problem (ltb 2 (length m.joins)) "at most 2 joins are supported"
        ++ (problem (not (is_some m.source_alias && is_some m.aggregation_alias))
              "the base source and the aggregate must both be aliased"
            ++ (problem
                  (not (
                    function_eq m.aggregation.function count_distinct
                    && is_some m.aggregation.field))
                  "the only supported join aggregation is count_distinct over a field"
                ++ (problem (is_some m.window || is_some m.partition_field)
                      "the join mechanism is not windowed and takes no partition"
                    ++ (problem (not (is_empty m.filters && is_empty m.dimensions))
                          "the join mechanism supports no row filters and no dimensions"
                        ++ (problem (is_some m.source.catalog)
                              "the base source must not name a catalog"
                            ++ (problem
                                  (is_some m.source_alias
                                    && opt_eq m.aggregation_alias m.source_alias)
                                  "the aggregated value must come from a joined source, not the base source"
                                ++ unkeyed (unanchored m))))))))

abbrev pub outside_mechanism : MetricIr → MetricError
outside_mechanism m = unsupported_metric (
    str_append "Joined metric is outside the supported join mechanism: "
      (join "; " (join_problems m)))

-- `validate_join_metric`
unfoldable pub validate_join_metric : MetricIr → Result MetricError MetricIr
validate_join_metric metric = do
  m ← revalidate metric
  raise_if (not (is_empty (join_problems m))) (outside_mechanism m)
  ok m
