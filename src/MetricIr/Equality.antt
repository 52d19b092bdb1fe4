-- ===== src/MetricIr/Equality.antt =====
-- The equality of the parts of a metric IR, as its JSON dumps compare them
-- (src/airi/registry/versioning.py over src/airi/metric_ir/models.py).
use airi.Prelude.{
  ℕ, ◌≡◌, refl, Bool, true, false, ◌&&◌, List, [], ◌∷◌, arith, ◌==◌, str_eq, str_eq_iff, opt_eq,
  opt_eq_iff, if◌then◌else◌,
}
use airi.MetricIr.Models.{
  Scalar, str, float, int, neg_int, bool, FilterOperator, Operand, no_value, scalar, scalars,
  WindowUnit, Timezone, Function, ComparisonOperator, JoinType, DataSource, FilterCondition,
  QualifiedField, FieldComparison, JoinSpec,
}

unfoldable pub list_eq : {A : Type 0} → (A → A → Bool) → List A → List A → Bool
list_eq eq [] [] = true
list_eq eq [] (y ∷ ys) = false
list_eq eq (x ∷ xs) [] = false
list_eq eq (x ∷ xs) (y ∷ ys) = eq x y && list_eq eq xs ys

pub list_eq_sound :
    {A : Type 0} (eq : A → A → Bool)
    → ((x y : A) → eq x y ≡ true → x ≡ y)
    → (xs ys : List A) → list_eq eq xs ys ≡ true
    → xs ≡ ys
unfolding list_eq
list_eq_sound eq sound [] [] h = refl
list_eq_sound eq sound [] (y ∷ ys) h = cc
list_eq_sound eq sound (x ∷ xs) [] h = cc
list_eq_sound eq sound (x ∷ xs) (y ∷ ys) h = ground (arith, sound x y, list_eq_sound eq sound xs ys)

unfoldable pub bool_eq : Bool → Bool → Bool
bool_eq true b = b
bool_eq false b = if b then false else true

pub bool_eq_sound : (a b : Bool) → bool_eq a b ≡ true → a ≡ b
unfolding bool_eq
bool_eq_sound a b h = ground arith

unfoldable pub scalar_eq : Scalar → Scalar → Bool
scalar_eq (str s) (str t) = str_eq s t
scalar_eq (float s) (float t) = str_eq s t
scalar_eq (int m) (int n) = m == n
scalar_eq (neg_int m) (neg_int n) = m == n
scalar_eq (bool a) (bool b) = bool_eq a b
scalar_eq _ _ = false

pub scalar_eq_sound : (a b : Scalar) → scalar_eq a b ≡ true → a ≡ b
unfolding scalar_eq
scalar_eq_sound (str s) (str t) h = ground (arith, str_eq_iff s t)
scalar_eq_sound (float s) (float t) h = ground (arith, str_eq_iff s t)
scalar_eq_sound (int m) (int n) h = ground arith
scalar_eq_sound (neg_int m) (neg_int n) h = ground arith
scalar_eq_sound (bool a) (bool b) h = ground (arith, bool_eq_sound a b)
scalar_eq_sound (str s) (float t) h = cc
scalar_eq_sound (str s) (int t) h = cc
scalar_eq_sound (str s) (neg_int t) h = cc
scalar_eq_sound (str s) (bool t) h = cc
scalar_eq_sound (float s) (str t) h = cc
scalar_eq_sound (float s) (int t) h = cc
scalar_eq_sound (float s) (neg_int t) h = cc
scalar_eq_sound (float s) (bool t) h = cc
scalar_eq_sound (int s) (str t) h = cc
scalar_eq_sound (int s) (float t) h = cc
scalar_eq_sound (int s) (neg_int t) h = cc
scalar_eq_sound (int s) (bool t) h = cc
scalar_eq_sound (neg_int s) (str t) h = cc
scalar_eq_sound (neg_int s) (float t) h = cc
scalar_eq_sound (neg_int s) (int t) h = cc
scalar_eq_sound (neg_int s) (bool t) h = cc
scalar_eq_sound (bool s) (str t) h = cc
scalar_eq_sound (bool s) (float t) h = cc
scalar_eq_sound (bool s) (int t) h = cc
scalar_eq_sound (bool s) (neg_int t) h = cc

unfoldable pub operand_eq : Operand → Operand → Bool
operand_eq no_value no_value = true
operand_eq (scalar a) (scalar b) = scalar_eq a b
operand_eq (scalars xs) (scalars ys) = list_eq scalar_eq xs ys
operand_eq _ _ = false

pub operand_eq_sound : (a b : Operand) → operand_eq a b ≡ true → a ≡ b
unfolding operand_eq
operand_eq_sound no_value no_value h = refl
operand_eq_sound (scalar a) (scalar b) h = ground (arith, scalar_eq_sound a b)
operand_eq_sound (scalars xs) (scalars ys) h =
    ground (arith, list_eq_sound scalar_eq scalar_eq_sound xs ys)
operand_eq_sound no_value (scalar b) h = cc
operand_eq_sound no_value (scalars ys) h = cc
operand_eq_sound (scalar a) no_value h = cc
operand_eq_sound (scalar a) (scalars ys) h = cc
operand_eq_sound (scalars xs) no_value h = cc
operand_eq_sound (scalars xs) (scalar b) h = cc

abbrev operator_tag : FilterOperator → ℕ
operator_tag FilterOperator.eq = 0
operator_tag FilterOperator.ne = 1
operator_tag FilterOperator.gt = 2
operator_tag FilterOperator.gte = 3
operator_tag FilterOperator.lt = 4
operator_tag FilterOperator.lte = 5
operator_tag FilterOperator.is_in = 6
operator_tag FilterOperator.not_in = 7
operator_tag FilterOperator.is_null = 8
operator_tag FilterOperator.not_null = 9

unfoldable pub operator_eq : FilterOperator → FilterOperator → Bool
operator_eq a b = operator_tag a == operator_tag b

pub operator_eq_sound : (a b : FilterOperator) → operator_eq a b ≡ true → a ≡ b
unfolding operator_eq
operator_eq_sound a b h = ground arith

abbrev function_tag : Function → ℕ
function_tag Function.count = 0
function_tag Function.count_distinct = 1
function_tag Function.sum = 2
function_tag Function.avg = 3
function_tag Function.min = 4
function_tag Function.max = 5

unfoldable pub function_eq : Function → Function → Bool
function_eq a b = function_tag a == function_tag b

pub function_eq_sound : (a b : Function) → function_eq a b ≡ true → a ≡ b
unfolding function_eq
function_eq_sound a b h = ground arith

abbrev unit_tag : WindowUnit → ℕ
unit_tag WindowUnit.hour = 0
unit_tag WindowUnit.day = 1
unit_tag WindowUnit.month = 2

unfoldable pub unit_eq : WindowUnit → WindowUnit → Bool
unit_eq a b = unit_tag a == unit_tag b

pub unit_eq_sound : (a b : WindowUnit) → unit_eq a b ≡ true → a ≡ b
unfolding unit_eq
unit_eq_sound a b h = ground arith

abbrev timezone_tag : Timezone → ℕ
timezone_tag Timezone.utc = 0
timezone_tag Timezone.asia_shanghai = 1

unfoldable pub timezone_eq : Timezone → Timezone → Bool
timezone_eq a b = timezone_tag a == timezone_tag b

pub timezone_eq_sound : (a b : Timezone) → timezone_eq a b ≡ true → a ≡ b
unfolding timezone_eq
timezone_eq_sound a b h = ground arith

abbrev comparison_tag : ComparisonOperator → ℕ
comparison_tag ComparisonOperator.equal = 0
comparison_tag ComparisonOperator.unequal = 1

abbrev join_tag : JoinType → ℕ
join_tag JoinType.inner = 0
join_tag JoinType.left = 1

unfoldable pub condition_eq : FilterCondition → FilterCondition → Bool
condition_eq a b =
    str_eq a.field b.field && operator_eq a.operator b.operator && operand_eq a.value b.value

pub condition_eq_sound : (a b : FilterCondition) → condition_eq a b ≡ true → a ≡ b
unfolding condition_eq
condition_eq_sound a b h = ground (
  arith,
  str_eq_iff a.field b.field,
  operator_eq_sound a.operator b.operator,
  operand_eq_sound a.value b.value,
)

unfoldable pub qualified_eq : QualifiedField → QualifiedField → Bool
qualified_eq a b = str_eq a.alias b.alias && str_eq a.field b.field

pub qualified_eq_sound : (a b : QualifiedField) → qualified_eq a b ≡ true → a ≡ b
unfolding qualified_eq
qualified_eq_sound a b h = ground (arith, str_eq_iff a.alias b.alias, str_eq_iff a.field b.field)

unfoldable pub comparison_eq : FieldComparison → FieldComparison → Bool
comparison_eq a b =
    qualified_eq a.left b.left
    && (comparison_tag a.operator == comparison_tag b.operator)
    && qualified_eq a.right b.right

comparison_tag_sound :
    (a b : ComparisonOperator) → comparison_tag a == comparison_tag b ≡ true → a ≡ b
comparison_tag_sound a b h = ground arith

pub comparison_eq_sound : (a b : FieldComparison) → comparison_eq a b ≡ true → a ≡ b
unfolding comparison_eq
comparison_eq_sound a b h = ground (
  arith,
  qualified_eq_sound a.left b.left,
  comparison_tag_sound a.operator b.operator,
  qualified_eq_sound a.right b.right,
)

unfoldable pub source_eq : DataSource → DataSource → Bool
source_eq a b = opt_eq a.catalog b.catalog && str_eq a.database b.database && str_eq a.table b.table

pub source_eq_sound : (a b : DataSource) → source_eq a b ≡ true → a ≡ b
unfolding source_eq
source_eq_sound a b h = ground (
  arith,
  opt_eq_iff a.catalog b.catalog,
  str_eq_iff a.database b.database,
  str_eq_iff a.table b.table,
)

join_tag_sound : (a b : JoinType) → join_tag a == join_tag b ≡ true → a ≡ b
join_tag_sound a b h = ground arith

unfoldable pub join_eq : JoinSpec → JoinSpec → Bool
join_eq a b =
    str_eq a.alias b.alias
    && (join_tag a.join_type == join_tag b.join_type)
    && source_eq a.source b.source
    && list_eq comparison_eq a.conditions b.conditions

pub join_eq_sound : (a b : JoinSpec) → join_eq a b ≡ true → a ≡ b
unfolding join_eq
join_eq_sound a b h = ground (
  arith,
  str_eq_iff a.alias b.alias,
  join_tag_sound a.join_type b.join_type,
  source_eq_sound a.source b.source,
  list_eq_sound comparison_eq comparison_eq_sound a.conditions b.conditions,
)
