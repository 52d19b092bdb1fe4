-- ===== src/Prelude/Sets.antt =====
-- `sorted(set(xs))` of texts, `", ".join(xs)`, and membership in what they build.
use Prim.Native.Nat.{Ordering}
use Prim.Native.String.{String, ◌++◌ as str_append, compare}
use mathlib.Core.Path.{◌≡◌, refl}
use mathlib.Core.Bool.{Bool, true, false, ◌&&◌, ◌||◌}
use mathlib.Core.List.{List, [], ◌∷◌, ◌++◌}
use native.Mathlib.Omega.{arith}
use text.Mathlib.TextEquality.{path_by_compare}
use airi.Prelude.Texts.{str_eq, str_eq_iff, contains}
use airi.Prelude.Lists.{keep}

-- Insertion into a sorted list without repetition; texts are ordered by code points.
unfoldable pub insert_sorted : String → List String → List String
insert_sorted s [] = s ∷ []
insert_sorted s (x ∷ xs) =
    let rest = insert_sorted s xs in
    elim (compare s x) [ Ordering.lt ↦ s ∷ x ∷ xs | Ordering.eq ↦ x ∷ xs | Ordering.gt ↦ x ∷ rest ]

unfoldable pub sorted_set : List String → List String
unfolding insert_sorted
sorted_set [] = []
sorted_set (x ∷ xs) = insert_sorted x (sorted_set xs)

-- `sorted(xs)`: repetitions stay.
unfoldable pub insert_ordered : String → List String → List String
insert_ordered s [] = s ∷ []
insert_ordered s (x ∷ xs) =
    let rest = insert_ordered s xs in elim (compare s x) [ Ordering.gt ↦ x ∷ rest | _ ↦ s ∷ x ∷ xs ]

unfoldable pub sorted : List String → List String
unfolding insert_ordered
sorted [] = []
sorted (x ∷ xs) = insert_ordered x (sorted xs)

unfoldable pub join : String → List String → String
join sep [] = ""
join sep (x ∷ []) = x
join sep (x ∷ y ∷ ys) = str_append x (str_append sep (join sep (y ∷ ys)))

eq_by_compare : (s t : String) → compare s t ≡ Ordering.eq → str_eq s t ≡ true
eq_by_compare s t h = (str_eq_iff s t).1 (path_by_compare s t h)

pub contains-insert_sorted :
    (t s : String) (xs : List String)
    → contains t (insert_sorted s xs) ≡ (str_eq s t || contains t xs)
unfolding insert_sorted contains
contains-insert_sorted t s [] = refl
contains-insert_sorted t s (x ∷ xs) = ground (
  arith,
  contains-insert_sorted t s xs,
  eq_by_compare s x,
  str_eq_iff s t,
  str_eq_iff x t,
  str_eq_iff s x,
)

pub contains-sorted_set :
    (t : String) (xs : List String) → contains t (sorted_set xs) ≡ contains t xs
unfolding sorted_set contains
contains-sorted_set t [] = refl
contains-sorted_set t (x ∷ xs) =
    ground (arith, contains-insert_sorted t x (sorted_set xs), contains-sorted_set t xs)

pub contains-insert_ordered :
    (t s : String) (xs : List String)
    → contains t (insert_ordered s xs) ≡ (str_eq s t || contains t xs)
unfolding insert_ordered contains
contains-insert_ordered t s [] = refl
contains-insert_ordered t s (x ∷ xs) = ground (arith, contains-insert_ordered t s xs)

pub contains-sorted : (t : String) (xs : List String) → contains t (sorted xs) ≡ contains t xs
unfolding sorted contains
contains-sorted t [] = refl
contains-sorted t (x ∷ xs) =
    ground (arith, contains-insert_ordered t x (sorted xs), contains-sorted t xs)

pub contains-append :
    (t : String) (xs ys : List String) → contains t (xs ++ ys) ≡ (contains t xs || contains t ys)
unfolding contains
contains-append t [] ys = refl
contains-append t (x ∷ xs) ys = ground (arith, contains-append t xs ys)

-- A kept text is one that is there and passes the test.
pub contains-keep :
    (t : String) (p : String → Bool) (xs : List String)
    → contains t (keep p xs) ≡ (contains t xs && p t)
unfolding contains
contains-keep t p [] = refl
contains-keep t p (x ∷ xs) = ground (arith, contains-keep t p xs, str_eq_iff x t)

-- `xs & names`, as a truth value
unfoldable pub meets : List String → List String → Bool
meets [] names = false
meets (k ∷ ks) names = contains k names || meets ks names

pub meets-contains :
    (x : String) (xs names : List String)
    → meets xs names ≡ false
    → contains x names ≡ true
    → contains x xs ≡ false
unfolding meets contains
meets-contains x [] names h p = refl
meets-contains x (y ∷ ys) names h p =
    ground (arith, meets-contains x ys names, str_eq_iff x y, str_eq_iff y x)
