-- ===== src/Registry/Versioning/Soundness.antt =====
-- The loop of `semantic_diff` and the order of `bump` (src/airi/registry/versioning.py).
use airi.Prelude.{
  String, ◌≡◌, true, false, Option, List, [], ◌∷◌, arith, str_eq, str_eq_iff, opt_eq_iff, contains,
  Bool-cases, inl, inr, subst,
}
use airi.Core.{Version, version_lt}
use airi.Registry.Models.{VersionChangeKind, FieldValue, VersionChangedField}
use airi.Registry.Versioning.{
  has_leaf, get_leaf, leaf_eq, Leaves, compare_field, compare_fields, field_names, bump,
}

-- One turn keeps what the rest of the loop reported.
compare_field-keeps :
    (left right : Leaves) (f field : String) (rest : List VersionChangedField × List String)
    → contains field (field_names (compare_field left right f rest).0) ≡ false
    → contains field (field_names rest.0) ≡ false
unfolding contains compare_field
compare_field-keeps left right f field (changed, unchanged) quiet = ground arith

compare_field-quiet :
    (left right : Leaves) (field : String) (rest : List VersionChangedField × List String)
    → has_leaf field left ≡ true
    → contains field (field_names (compare_field left right field rest).0) ≡ false
    → leaf_eq (get_leaf field left) (get_leaf field right) ≡ true
unfolding contains compare_field
compare_field-quiet left right field (changed, unchanged) there quiet =
    ground (arith, str_eq_iff field field)

-- A field of the order that the comparison does not report has equal leaves.
pub compare_fields-unreported :
    (left right : Leaves) (fields : List String) (field : String)
    → contains field fields ≡ true
    → has_leaf field left ≡ true
    → contains field (field_names (compare_fields left right fields).0) ≡ false
    → leaf_eq (get_leaf field left) (get_leaf field right) ≡ true
unfolding contains compare_fields
compare_fields-unreported left right [] field among there quiet = cc
compare_fields-unreported left right (f ∷ fs) field among there quiet =
    let rest = compare_fields left right fs in
    elim (Bool-cases (str_eq f field)) [
      | inl same ↦
          let one = (str_eq_iff f field).0 same in
          compare_field-quiet left right field rest there (
            subst
              (λ (x : String).
                contains field (field_names (compare_field left right x rest).0) ≡ false)
              one quiet)
      | inr other ↦
          compare_fields-unreported left right fs field (ground arith) there
            (compare_field-keeps left right f field rest quiet)
    ]

-- Equal leaves are equal values.
leaf_eq-optional :
    (a b : Option String) → leaf_eq (FieldValue.optional a) (FieldValue.optional b) ≡ true → a ≡ b
unfolding leaf_eq
leaf_eq-optional a b h = (opt_eq_iff a b).0 h

pub str_eq_sound : (a b : String) → str_eq a b ≡ true → a ≡ b
str_eq_sound a b h = (str_eq_iff a b).0 h

-- A version number grows with every class of change.
pub bump-version_lt : (v : Version) (kind : VersionChangeKind) → version_lt v (bump v kind) ≡ true
unfolding bump version_lt
bump-version_lt v VersionChangeKind.major = ground arith
bump-version_lt v VersionChangeKind.minor = ground arith
bump-version_lt v VersionChangeKind.patch = ground arith
bump-version_lt v VersionChangeKind.initial = ground arith
