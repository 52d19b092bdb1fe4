-- ===== src/Prelude/Texts.antt =====
-- Python's `==` and `in` on `str`, on `str | None` and on collections of `str`.
use Prim.Native.String.{String}
use mathlib.Core.Path.{◌≡◌, refl}
use mathlib.Core.Logic.{◌↔◌}
use mathlib.Core.Bool.{Bool, true, false, ◌||◌}
use mathlib.Core.Option.{Option, none, some}
use mathlib.Core.List.{List, [], ◌∷◌}
use native.Mathlib.Omega.{arith}
use text.Mathlib.Text.{◌==◌}
use text.Mathlib.TextEquality.{eq_iff}

-- `s == t` on texts.
unfoldable pub str_eq : String → String → Bool
str_eq s t = s == t

pub str_eq_iff : (s t : String) → (str_eq s t ≡ true) ↔ (s ≡ t)
unfolding str_eq
str_eq_iff s t = eq_iff s t

pub str_eq_self : (s : String) → str_eq s s ≡ true
str_eq_self s = (str_eq_iff s s).1 refl

-- `a == b` on values of type `str | None`.
unfoldable pub opt_eq : Option String → Option String → Bool
opt_eq none none = true
opt_eq none (some t) = false
opt_eq (some s) none = false
opt_eq (some s) (some t) = str_eq s t

pub opt_eq_iff : (a b : Option String) → (opt_eq a b ≡ true) ↔ (a ≡ b)
unfolding opt_eq
opt_eq_iff none none = ((λ _. refl), (λ _. refl))
opt_eq_iff none (some t) = ((λ e. cc), (λ e. cc))
opt_eq_iff (some s) none = ((λ e. cc), (λ e. cc))
opt_eq_iff (some s) (some t) = ground (arith, str_eq_iff s t)

pub opt_eq_self : (a : Option String) → opt_eq a a ≡ true
opt_eq_self a = (opt_eq_iff a a).1 refl

-- `bool(s)` of a text or of an optional text.
unfoldable pub truthy : Option String → Bool
unfolding str_eq
truthy none = false
truthy (some s) = elim (str_eq s "") [ true ↦ false | false ↦ true ]

-- `s in xs`
unfoldable pub contains : String → List String → Bool
contains s [] = false
contains s (x ∷ xs) = str_eq x s || contains s xs
