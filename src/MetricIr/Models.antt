-- ===== src/MetricIr/Models.antt =====
-- The Metric IR schema and its model validators (src/airi/metric_ir/models.py, the text types of
-- src/airi/core/schemas.py). The validator passes the metrics that it hands back as they are, so a
-- text must be stripped already. A float operand is kept as its literal.
mod Texts
use Prim.Native.String.{String}
pub use airi.MetricIr.Models.Texts.{is_label}
unfoldable pub use airi.MetricIr.Models.Texts.{is_text, is_identifier}
use airi.Prelude.{
  ℕ, suc, Bool, true, false, not, ◌&&◌, ◌||◌, Option, none, some, List, [], ◌∷◌, ◌++◌,
  if◌then◌else◌, ltb, leb, ◌==◌, length, is_some, contains, str_eq, Result, ok, err, raise_if, ◌>>◌,
}

pub data Scalar : Type 0 where
  str float : String → Scalar
  int neg_int : ℕ → Scalar
  bool : Bool → Scalar

pub data FilterOperator : Type 0 where
  eq ne gt gte lt lte is_in not_in is_null not_null : FilterOperator

pub data Operand : Type 0 where
  no_value : Operand
  scalar : Scalar → Operand
  scalars : List Scalar → Operand

pub data WindowUnit : Type 0 where
  hour day month : WindowUnit

pub data Timezone : Type 0 where
  utc asia_shanghai : Timezone

pub data Function : Type 0 where
  count count_distinct sum avg min max : Function

pub data ComparisonOperator : Type 0 where
  equal unequal : ComparisonOperator

pub data JoinType : Type 0 where
  inner left : JoinType

pub record DataSource : Type 0 where
  pub catalog : Option String
  pub database : String
  pub table : String

pub record TimeWindow : Type 0 where
  pub size : ℕ
  pub unit : WindowUnit
  pub time_field : String
  pub timezone : Timezone

pub record FilterCondition : Type 0 where
  pub field : String
  pub operator : FilterOperator
  pub value : Operand

pub record Aggregation : Type 0 where
  pub function : Function
  pub field : Option String

pub record QualifiedField : Type 0 where
  pub alias : String
  pub field : String

pub record FieldComparison : Type 0 where
  pub left : QualifiedField
  pub operator : ComparisonOperator
  pub right : QualifiedField

pub record JoinSpec : Type 0 where
  pub alias : String
  pub join_type : JoinType
  pub source : DataSource
  pub conditions : List FieldComparison

pub record MetricIr : Type 0 where
  pub schema_version : String
  pub name : String
  pub display_name : Option String
  pub description : String
  pub entity_type : Option String
  pub entity_key : String
  pub partition_field : Option String
  pub source : DataSource
  pub aggregation : Aggregation
  pub dimensions : List String
  pub filters : List FilterCondition
  pub window : Option TimeWindow
  pub source_alias : Option String
  pub aggregation_alias : Option String
  pub joins : List JoinSpec
  pub column_filters : List FieldComparison

abbrev pub ValueError : Type 0
ValueError = String

-- `len(xs) != len(set(xs))`
unfoldable pub has_duplicates : List String → Bool
has_duplicates [] = false
has_duplicates (x ∷ xs) = contains x xs || has_duplicates xs

abbrev pub is_empty {ℓ} : {A : Type ℓ} → List A → Bool
is_empty [] = true
is_empty (x ∷ xs) = false

abbrev type_tag : Scalar → ℕ
type_tag (str s) = 0
type_tag (int n) = 1
type_tag (neg_int n) = 1
type_tag (float s) = 2
type_tag (bool b) = 3

-- `len({type(item) for item in value}) == 1` of a nonempty list
unfoldable pub same_type : Scalar → List Scalar → Bool
same_type x [] = true
same_type x (y ∷ ys) = (type_tag x == type_tag y) && same_type x ys

unfoldable pub set_operand : Operand → Result ValueError (Unit {0})
unfolding same_type
set_operand (scalars (x ∷ xs)) =
    raise_if (not (same_type x xs)) "Set operands must have the same scalar type"
set_operand _ = err "Set operators require a non-empty list"

unfoldable pub null_operand : Operand → Result ValueError (Unit {0})
null_operand no_value = ok tt
null_operand _ = err "Null operators must not carry a value"

unfoldable pub scalar_operand : Operand → Result ValueError (Unit {0})
scalar_operand (scalar x) = ok tt
scalar_operand _ = err "Comparison operators require a scalar value"

-- `FilterCondition.validate_operand`
unfoldable pub validate_operand : FilterOperator → Operand → Result ValueError (Unit {0})
unfolding set_operand null_operand scalar_operand
validate_operand is_null v = null_operand v
validate_operand not_null v = null_operand v
validate_operand is_in v = set_operand v
validate_operand not_in v = set_operand v
validate_operand _ v = scalar_operand v

abbrev pub is_count : Function → Bool
is_count count = true
is_count _ = false

-- `Aggregation.require_field`
unfoldable pub require_field : Aggregation → Result ValueError (Unit {0})
require_field a =
    raise_if (not (is_count a.function) && not (is_some a.field))
      "Only count supports an omitted field (row count)"

abbrev pub is_equality : ComparisonOperator → Bool
is_equality equal = true
is_equality unequal = false

unfoldable pub all_equalities : List FieldComparison → Bool
all_equalities [] = true
all_equalities (c ∷ cs) = is_equality c.operator && all_equalities cs

-- `JoinSpec.equality_join_keys_only`
unfoldable pub equality_join_keys_only : JoinSpec → Result ValueError (Unit {0})
unfolding all_equalities
equality_join_keys_only join =
    raise_if (not (all_equalities join.conditions))
      "Join conditions support the equality operator only"

-- `MetricIR.unique_dimensions`
unfoldable pub unique_dimensions : MetricIr → Result ValueError (Unit {0})
unfolding has_duplicates
unique_dimensions metric = do
  raise_if (has_duplicates metric.dimensions) "Dimensions must be unique"
  raise_if (contains metric.entity_key metric.dimensions)
      "Entity key is implicit in the grain; do not repeat it"

abbrev pub opt_list {ℓ} : {A : Type ℓ} → Option A → List A
opt_list none = []
opt_list (some a) = a ∷ []

unfoldable pub join_aliases : List JoinSpec → List String
join_aliases [] = []
join_aliases (j ∷ js) = j.alias ∷ join_aliases js

unfoldable pub join_conditions : List JoinSpec → List FieldComparison
join_conditions [] = []
join_conditions (j ∷ js) = j.conditions ++ join_conditions js

-- every side of every comparison names one of the aliases
unfoldable pub sides_declared : List String → List FieldComparison → Bool
sides_declared aliases [] = true
sides_declared aliases (c ∷ cs) =
    contains c.left.alias aliases && contains c.right.alias aliases && sides_declared aliases cs

-- `MetricIR.consistent_join_declaration`, the branch with joins
unfoldable pub joined_declaration : MetricIr → String → String → Result ValueError (Unit {0})
unfolding join_aliases join_conditions sides_declared has_duplicates
joined_declaration metric source aggregate =
    let aliases = source ∷ join_aliases metric.joins in
    do
      raise_if (has_duplicates aliases) "Join aliases must be unique"
      raise_if (contains source (join_aliases metric.joins))
          "A joined source cannot reuse the base alias"
      raise_if
          (not (sides_declared aliases (join_conditions metric.joins ++ metric.column_filters)))
          "Every predicate field must reference a declared alias"
      raise_if (not (contains aggregate aliases))
          "Aggregation alias must reference a declared alias"

abbrev with_aliases :
    Option String
    → Option String
    → (String → String → Result ValueError (Unit {0}))
    → Result ValueError (Unit {0})
with_aliases (some s) (some a) k = k s a
with_aliases _ _ k = err "Joined metrics must alias both the base source and the aggregate"

-- `MetricIR.consistent_join_declaration`
unfoldable pub consistent_join_declaration : MetricIr → Result ValueError (Unit {0})
unfolding joined_declaration
consistent_join_declaration metric =
    if is_empty metric.joins
    then (do
      raise_if (is_some metric.source_alias || is_some metric.aggregation_alias)
          "Aliases are only meaningful when joins are declared"
      raise_if (not (is_empty metric.column_filters))
          "Column predicates are only meaningful when joins are declared")
    else with_aliases metric.source_alias metric.aggregation_alias (joined_declaration metric)

-- `for item in items: validate(item)`
unfoldable pub each :
    {A : Type 0} → (A → Result ValueError (Unit {0})) → List A → Result ValueError (Unit {0})
each f [] = ok tt
each f (x ∷ xs) = f x >> each f xs

unfoldable pub check_window : Option TimeWindow → Result ValueError (Unit {0})
check_window none = ok tt
check_window (some w) =
    raise_if (not (ltb 0 w.size && leb w.size 3660)) "Window size must be in (0, 3660]"

unfoldable pub check_filter : FilterCondition → Result ValueError (Unit {0})
unfolding validate_operand
check_filter f = validate_operand f.operator f.value

unfoldable pub check_join : JoinSpec → Result ValueError (Unit {0})
unfolding equality_join_keys_only
check_join join = do
  raise_if (is_empty join.conditions || ltb 4 (length join.conditions))
      "A join carries one to four conditions"
  equality_join_keys_only join

unfoldable pub source_names : DataSource → List String
source_names s = opt_list s.catalog ++ s.database ∷ s.table ∷ []

abbrev comparison_names : FieldComparison → List String
comparison_names c = c.left.alias ∷ c.left.field ∷ c.right.alias ∷ c.right.field ∷ []

unfoldable pub names_of : {A : Type 0} → (A → List String) → List A → List String
names_of f [] = []
names_of f (x ∷ xs) = f x ++ names_of f xs

abbrev join_names : JoinSpec → List String
join_names j = j.alias ∷ source_names j.source ++ names_of comparison_names j.conditions

abbrev window_names : Option TimeWindow → List String
window_names none = []
window_names (some w) = w.time_field ∷ []

-- the fields of type `Identifier`, of the metric and of its parts
unfoldable pub identifiers : MetricIr → List String
unfolding source_names names_of
identifiers m =
    m.name ∷ m.entity_key ∷ opt_list m.partition_field
    ++ source_names m.source
    ++ opt_list m.aggregation.field
    ++ m.dimensions
    ++ names_of (λ (f : FilterCondition). f.field ∷ []) m.filters
    ++ window_names m.window
    ++ opt_list m.source_alias
    ++ opt_list m.aggregation_alias
    ++ names_of join_names m.joins
    ++ names_of comparison_names m.column_filters

unfoldable pub all_identifiers : List String → Bool
unfolding is_identifier
all_identifiers [] = true
all_identifiers (x ∷ xs) = is_identifier x && all_identifiers xs

-- `Literal["enterprise"] | None`
abbrev is_entity : Option String → Bool
is_entity none = true
is_entity (some s) = str_eq s "enterprise"

-- the literals and the texts of the schema
unfoldable pub is_schema_text : MetricIr → Bool
unfolding is_text
is_schema_text m =
    str_eq m.schema_version "1.0.0"
    && is_entity m.entity_type
    && is_label m.display_name
    && is_text m.description

-- the validators and the length bounds of the fields, in their order
unfoldable pub check_fields : MetricIr → Result ValueError (Unit {0})
unfolding require_field each check_window check_filter check_join identifiers all_identifiers
check_fields metric = do
  raise_if (not (all_identifiers (identifiers metric))) "String should match the identifier pattern"
  require_field metric.aggregation
  raise_if (ltb 20 (length metric.dimensions)) "At most 20 dimensions"
  raise_if (ltb 100 (length metric.filters)) "At most 100 filters"
  each check_filter metric.filters
  check_window metric.window
  raise_if (ltb 2 (length metric.joins)) "At most 2 joins"
  each check_join metric.joins
  raise_if (ltb 10 (length metric.column_filters)) "At most 10 column filters"

-- `MetricIR.model_validate`: the fields' own types and validators, then the two model validators in
-- their order.
unfoldable pub model_validate : MetricIr → Result ValueError MetricIr
unfolding unique_dimensions consistent_join_declaration is_schema_text check_fields
model_validate metric = do
  raise_if (not (is_schema_text metric)) "Literals and texts of the schema"
  check_fields metric
  unique_dimensions metric
  consistent_join_declaration metric
  ok metric
