-- ===== src/Prelude/Tables.antt =====
-- Tables of a relational store: rows by primary key.
use Prim.Native.String.{String}
use mathlib.Core.Path.{◌≡◌, refl, subst₂}
use mathlib.Core.Logic.{◌≢◌, ◌⊎◌, inl, inr}
use mathlib.Core.Option.{Option, none, some}
use mathlib.Core.List.{List, [], ◌∷◌}
use native.Mathlib.Omega.{arith}
use airi.Prelude.Tests.{if◌then◌else◌, Bool-cases}
use airi.Prelude.Texts.{str_eq, str_eq_iff}

abbrev pub Table : Type 0 → Type 0
Table R = List (String × R)

module _ {R : Type 0} where
  -- `session.get(Row, key)`
  unfoldable pub get : String → Table R → Option R
  get k [] = none
  get k ((j, r) ∷ t) = if str_eq j k then some r else get k t

  -- `session.add(row)` of a new key, or the update of the row of that key
  unfoldable pub put : String → R → Table R → Table R
  put k r [] = (k, r) ∷ []
  put k r ((j, s) ∷ t) = if str_eq j k then (k, r) ∷ t else (j, s) ∷ put k r t

  pub get-put :
      (k j : String) (r : R) (t : Table R)
      → get j (put k r t) ≡ (if str_eq k j then some r else get j t)
  unfolding get put
  get-put k j r [] = refl
  get-put k j r ((i, s) ∷ t) =
      ground (arith, str_eq_iff k j, str_eq_iff i k, str_eq_iff i j, get-put k j r t)

  pub get-put_same : (k : String) (r : R) (t : Table R) → get k (put k r t) ≡ some r
  get-put_same k r t = ground (arith, get-put k k r t, str_eq_iff k k)

  pub get-put_other : (k j : String) (r : R) (t : Table R) → k ≢ j → get j (put k r t) ≡ get j t
  get-put_other k j r t apart = ground (arith, get-put k j r t, str_eq_iff k j)

  -- A row of the table after a write is the one written or one that was there.
  pub put-cases :
      (k j : String) (r : R) (t : Table R) {s : R}
      → get j (put k r t) ≡ some s
      → ((j ≡ k) × (s ≡ r)) ⊎ ((j ≢ k) × (get j t ≡ some s))
  put-cases k j r t {s} e = elim (Bool-cases (str_eq k j)) [
    | inl same ↦ inl (ground (arith, str_eq_iff k j), ground (arith, get-put k j r t))
    | inr other ↦
        inr ((λ is_it. absurd (ground (arith, str_eq_iff k j))), ground (arith, get-put k j r t))
  ]

  -- A property of every row of a table and its key.
  abbrev pub AllRows : (String → R → Type 0) → Table R → Type 0
  AllRows P [] = Unit
  AllRows P ((k, r) ∷ t) = P k r × AllRows P t

  pub put-AllRows :
      (P : String → R → Type 0) (k : String) (r : R) (t : Table R)
      → AllRows P t
      → P k r
      → AllRows P (put k r t)
  unfolding put
  put-AllRows P k r [] h p = (p, tt)
  put-AllRows P k r ((j, s) ∷ t) h p = elim (Bool-cases (str_eq j k)) [
    | inl same ↦ rw same (p, h.1)
    | inr other ↦ rw other (h.0, put-AllRows P k r t h.1 p)
  ]

  pub get-AllRows :
      (P : String → R → Type 0) (k : String) (t : Table R) {r : R}
      → AllRows P t
      → get k t ≡ some r
      → P k r
  unfolding get
  get-AllRows P k [] h e = cc
  get-AllRows P k ((j, s) ∷ t) {r} h e = elim (Bool-cases (str_eq j k)) [
    | inl same ↦ let found : s ≡ r = ground arith in subst₂ P ((str_eq_iff j k).0 same) found h.0
    | inr other ↦ get-AllRows P k t h.1 (ground arith)
  ]

  -- A primary key names one row.
  abbrev pub Distinct : Table R → Type 0
  Distinct [] = Unit
  Distinct ((k, r) ∷ t) = (get k t ≡ none) × Distinct t

  pub put-Distinct : (k : String) (r : R) (t : Table R) → Distinct t → Distinct (put k r t)
  unfolding put get
  put-Distinct k r [] h = (refl, tt)
  put-Distinct k r ((j, s) ∷ t) h =
      ground (arith, str_eq_iff j k, str_eq_iff k j, get-put k j r t, put-Distinct k r t h.1)
