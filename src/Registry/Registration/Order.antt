-- ===== src/Registry/Registration/Order.antt =====
-- The order of versions, and the newest of a list: what `create_version` plans a version after
-- (src/airi/registry/service.py).
use airi.Prelude.{
  ◌≡◌, ap, Bool, true, false, List, [], ◌∷◌, arith, sym, subst, inl, inr, Bool-cases, All,
  if◌then◌else◌,
}
use airi.Core.{Version, version_lt}
use airi.Registry.Models.{MetricVersion}
use airi.Registry.Versioning.{plan, plan_after}
use airi.Registry.Versioning.Soundness.{bump-version_lt}
use airi.Registry.Registration.{newest, latest}
use airi.MetricIr.Models.{MetricIr}
use airi.Registry.Integrity.Reconciliation.{All-map}

-- `a` is not older than `b`.
abbrev pub IsAtLeast : Version → Version → Type 0
IsAtLeast a b = version_lt a b ≡ false

pub IsAtLeast-trans : (a b c : Version) → IsAtLeast a b → IsAtLeast b c → IsAtLeast a c
unfolding version_lt
IsAtLeast-trans a b c p q = ground arith

IsAtLeast-version_lt :
    (a b c : Version) → IsAtLeast a b → version_lt a c ≡ true → version_lt b c ≡ true
unfolding version_lt
IsAtLeast-version_lt a b c p q = ground arith

pub version_lt-IsAtLeast : (a b : Version) → version_lt a b ≡ true → IsAtLeast b a
unfolding version_lt
version_lt-IsAtLeast a b p = ground arith

IsAtLeast-refl : (a : Version) → IsAtLeast a a
unfolding version_lt
IsAtLeast-refl a = ground arith

newest-cons :
    (best v : MetricVersion) (vs : List MetricVersion) (b : Bool)
    → version_lt best.version v.version ≡ b
    → newest best (v ∷ vs) ≡ newest (if b then v else best) vs
unfolding newest
newest-cons best v vs b e = ap (λ (x : Bool). newest (if x then v else best) vs) e

-- `m` is at least `best` and every version of `vs`.
abbrev Tops : MetricVersion → MetricVersion → List MetricVersion → Type 0
Tops m best vs =
    IsAtLeast m.version best.version × All (λ (w : MetricVersion). IsAtLeast m.version w.version) vs

newest-Tops : (best : MetricVersion) (vs : List MetricVersion) → Tops (newest best vs) best vs
unfolding newest
newest-Tops best [] = (IsAtLeast-refl best.version, tt)
newest-Tops best (v ∷ vs) = elim (Bool-cases (version_lt best.version v.version)) [
  | inl newer ↦
      let (top, all) = newest-Tops v vs in
      let tops : Tops (newest v vs) best (v ∷ vs) = (
        IsAtLeast-trans _ v.version best.version top
            (version_lt-IsAtLeast best.version v.version newer),
        (top, all),
      ) in
      subst (λ (m : MetricVersion). Tops m best (v ∷ vs)) (sym (newest-cons best v vs true newer))
        tops
  | inr not_newer ↦
      let (top, all) = newest-Tops best vs in
      let tops : Tops (newest best vs) best (v ∷ vs) =
        (top, (IsAtLeast-trans _ best.version v.version top not_newer, all)) in
      subst (λ (m : MetricVersion). Tops m best (v ∷ vs))
        (sym (newest-cons best v vs false not_newer)) tops
]

-- The planned version is newer than every version that it is planned after.
pub plan-newer :
    (metric : MetricIr) (vs : List MetricVersion)
    → All (λ (w : MetricVersion). version_lt w.version (plan metric (latest vs)).version ≡ true) vs
unfolding plan latest plan_after
plan-newer metric [] = tt
plan-newer metric (v ∷ vs) =
    let m = newest v vs in
    let (top, all) = newest-Tops v vs in
    let next = plan_after metric m in
    let grows : version_lt m.version next.version ≡ true = bump-version_lt m.version next.kind in
    (
      IsAtLeast-version_lt m.version v.version next.version top grows,
      All-map vs (λ w p. IsAtLeast-version_lt m.version w.version next.version p grows) all,
    )
