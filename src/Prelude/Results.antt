-- ===== src/Prelude/Results.antt =====
-- Raised exceptions as values: `ok` is a normal return, `err` is a raise.
use mathlib.Core.Path.{◌≡◌, refl, subst}
use mathlib.Core.Logic.{◌⊎◌, inl, inr}
use mathlib.Core.Bool.{Bool, true, false}

pub data Result (E A : Type 0) : Type 0 where
  ok : A → Result E A
  err : E → Result E A

infixl 5 ◌>>=◌ ◌>>◌
abbrev pub ◌>>=◌ : {E A B : Type 0} → Result E A → (A → Result E B) → Result E B
ok a >>= f = f a
err e >>= f = err e

abbrev pub ◌>>◌ : {E B : Type 0} → Result E (Unit {0}) → Result E B → Result E B
m >> k = m >>= λ _. k

-- `if test: raise e`
abbrev pub raise_if : {E : Type 0} → Bool → E → Result E (Unit {0})
raise_if true e = err e
raise_if false e = ok tt

-- Whether the call returned.
abbrev pub returned : {E A : Type 0} → Result E A → Bool
returned (ok a) = true
returned (err e) = false

pub Result-cases :
    {E A : Type 0} (r : Result E A) → ((a : A) × (r ≡ ok a)) ⊎ ((e : E) × (r ≡ err e))
Result-cases (ok a) = inl (a, refl)
Result-cases (err e) = inr (e, refl)

-- What holds of the value of every normal return.
abbrev pub Ensures : {E A : Type 0} → (A → Type 0) → Result E A → Type 0
Ensures P (ok a) = P a
Ensures P (err e) = Unit

-- The rule of a chain: the rest is checked at each value that the first step returns.
pub Ensures-bind :
    {E A B : Type 0} (P : B → Type 0) (m : Result E A) (f : A → Result E B)
    → ((a : A) → m ≡ ok a → Ensures P (f a))
    → Ensures P (m >>= f)
Ensures-bind P (ok a) f h = h a refl
Ensures-bind P (err e) f h = tt

-- The rule of a guard: the rest is checked where the guard lets pass.
pub Ensures-raise_if :
    {E B : Type 0} (P : B → Type 0) (b : Bool) (e : E) (k : Result E B)
    → (b ≡ false → Ensures P k)
    → Ensures P (raise_if b e >> k)
Ensures-raise_if P true e k h = tt
Ensures-raise_if P false e k h = h refl

pub Ensures-at :
    {E A : Type 0} (P : A → Type 0) (m : Result E A) {a : A} → Ensures P m → m ≡ ok a → P a
Ensures-at P (ok b) {a} h e = let same : b ≡ a = cc in subst P same h
Ensures-at P (err e') h e = cc

-- The rule of a chain whose first step ensures something of its value.
pub Ensures-then :
    {E A B : Type 0} (Q : A → Type 0) (P : B → Type 0) (m : Result E A) (f : A → Result E B)
    → Ensures Q m
    → ((a : A) → Q a → Ensures P (f a))
    → Ensures P (m >>= f)
Ensures-then Q P (ok a) f q h = h a q
Ensures-then Q P (err e) f q h = tt

pub Ensures-both :
    {E A : Type 0} (P Q : A → Type 0) (m : Result E A)
    → Ensures P m
    → Ensures Q m
    → Ensures (λ a. P a × Q a) m
Ensures-both P Q (ok a) p q = (p, q)
Ensures-both P Q (err e) p q = tt

pub Ensures-weaken :
    {E A : Type 0} (P Q : A → Type 0) (m : Result E A)
    → Ensures P m
    → ((a : A) → P a → Q a)
    → Ensures Q m
Ensures-weaken P Q (ok a) h f = f a h
Ensures-weaken P Q (err e) h f = tt
