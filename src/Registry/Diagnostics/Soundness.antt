-- ===== src/Registry/Diagnostics/Soundness.antt =====
-- When the release diagnostics (src/airi/registry/release.py) find a release eligible.
use airi.Prelude.{
  meets, String, ◌≡◌, refl, ◌↔◌, Bool, true, false, not, ◌&&◌, ◌||◌, Option, none, some, List, [],
  ◌∷◌, ◌++◌, arith, ◌==◌, contains, str_eq, ◌∙◌, sym,
}
use airi.Registry.Models.{
  StagingValidationResult, ShadowComparisonResult, ReleasePolicy, ReleaseEligibility,
}
use airi.Registry.Diagnostics.{
  exceeds, when, shadow_findings, blocking, soft, is_failed, is_inconclusive, staging_findings,
  comparison_findings, eligibility_of, assess,
}

meets-append :
    (xs ys names : List String) → meets (xs ++ ys) names ≡ meets xs names || meets ys names
unfolding meets
meets-append [] ys names = refl
meets-append (x ∷ xs) ys names = ground (arith, meets-append xs ys names)

meets-when :
    (b : Bool) (x : String) (names : List String) → meets (when b x) names ≡ b && contains x names
unfolding meets
meets-when true x names = ground arith
meets-when false x names = refl

-- A staging execution without an objection.
abbrev pub IsClean : StagingValidationResult → Type 0
IsClean staging =
    (is_failed staging.status ≡ false)
    × (is_inconclusive staging.status ≡ false)
    × (staging.schema_ok ≡ true)
    × (staging.truncated ≡ false)
    × ((staging.row_count == 0) ≡ false)

-- A shadow comparison that is there, ran over matched entities without duplicates, and is within the
-- two limits that count.
abbrev pub IsWithin : ReleasePolicy → Option ShadowComparisonResult → Type 0
IsWithin policy none = ⊥
IsWithin policy (some shadow) =
    (contains "duplicate_entity_in_execution" shadow.warnings ≡ false)
    × (exceeds shadow.entity_loss_fraction policy.max_entity_loss_fraction ≡ false)
    × (exceeds shadow.new_null_fraction policy.max_new_null_fraction ≡ false)
    × ((shadow.matched_entities == 0) ≡ false)
    × (contains "execution_failed" shadow.warnings ≡ false)

-- No finding at all among the blocking and the soft ones.
abbrev clear : List String → Bool
clear kinds = not (meets kinds blocking || meets kinds soft)

eligibility_of-clear :
    (kinds : List String)
    → (eligibility_of kinds ≡ ReleaseEligibility.eligible_for_release_review) ↔ (clear kinds ≡ true)
unfolding eligibility_of
eligibility_of-clear kinds = ground arith

clear-append : (xs ys : List String) → clear (xs ++ ys) ≡ clear xs && clear ys
clear-append xs ys = ground (arith, meets-append xs ys blocking, meets-append xs ys soft)

-- Whether a finding blocks or asks for more evidence.
abbrev flags : String → Bool
flags x = contains x blocking || contains x soft

clear-when : (b : Bool) (x : String) → flags x ≡ true → clear (when b x) ≡ not b
clear-when b x h = ground (arith, meets-when b x blocking, meets-when b x soft)

clear-when-append :
    (b : Bool) (x : String) (xs : List String)
    → flags x ≡ true
    → clear (when b x ++ xs) ≡ not b && clear xs
clear-when-append b x xs h = ground (arith, clear-append (when b x) xs, clear-when b x h)

-- The findings of five tests, in their order.
abbrev five :
    Bool → Bool → Bool → Bool → Bool → String → String → String → String → String → List String
five a b c d e p q r s t = when a p ++ (when b q ++ (when c r ++ (when d s ++ when e t)))

clear-five :
    (a b c d e : Bool) (p q r s t : String)
    → flags p ≡ true
    → flags q ≡ true
    → flags r ≡ true
    → flags s ≡ true
    → flags t ≡ true
    → clear (five a b c d e p q r s t) ≡ not a && (not b && (not c && (not d && not e)))
clear-five a b c d e p q r s t hp hq hr hs ht =
    let fifth = clear-when e t ht in
    let fourth = clear-when-append d s (when e t) hs in
    let third = clear-when-append c r (when d s ++ when e t) hr in
    let second = clear-when-append b q (when c r ++ (when d s ++ when e t)) hq in
    let first = clear-when-append a p (when b q ++ (when c r ++ (when d s ++ when e t))) hp in cc

five-false :
    (a b c d e : Bool)
    → not a && (not b && (not (not c) && (not d && not e))) ≡ true
    → (a ≡ false) × (b ≡ false) × (c ≡ true) × (d ≡ false) × (e ≡ false)
five-false a b c d e h = ground arith

five-true :
    (a b c d e : Bool)
    → a ≡ false
    → b ≡ false
    → c ≡ true
    → d ≡ false
    → e ≡ false
    → not a && (not b && (not (not c) && (not d && not e))) ≡ true
five-true a b c d e ha hb hc hd he = ground arith

staging_findings-clear :
    (staging : StagingValidationResult)
    → (clear (staging_findings staging) ≡ true) ↔ IsClean staging
unfolding staging_findings contains str_eq
staging_findings-clear staging =
    let a = is_failed staging.status in
    let b = is_inconclusive staging.status in
    let c = not staging.schema_ok in
    let d = staging.truncated in
    let e = staging.row_count == 0 in
    let all =
      clear-five a b c d e "staging_execution_failed" "staging_inconclusive"
        "staging_schema_invalid" "staging_result_truncated" "staging_empty_result" refl refl refl
        refl refl in
    (
      λ h.
          let both : not a && (not b && (not c && (not d && not e))) ≡ true = sym all ∙ h in
          five-false a b staging.schema_ok d e both,
      λ (ha, hb, hc, hd, he). all ∙ five-true a b staging.schema_ok d e ha hb hc hd he,
    )

within-false :
    (a b c d e : Bool)
    → not a && (not b && (not c && (not d && not e))) ≡ true
    → (a ≡ false) × (b ≡ false) × (c ≡ false) × (d ≡ false) × (e ≡ false)
within-false a b c d e h = ground arith

within-true :
    (a b c d e : Bool)
    → a ≡ false
    → b ≡ false
    → c ≡ false
    → d ≡ false
    → e ≡ false
    → not a && (not b && (not c && (not d && not e))) ≡ true
within-true a b c d e ha hb hc hd he = ground arith

and-true : (a b : Bool) → a && b ≡ true → (a ≡ true) × (b ≡ true)
and-true a b h = ground arith

true-and : (a b : Bool) → a ≡ true → b ≡ true → a && b ≡ true
true-and a b p q = ground arith

comparison_findings-clear :
    (shadow : Option ShadowComparisonResult) (policy : ReleasePolicy)
    → (clear (comparison_findings shadow policy) ≡ true) ↔ IsWithin policy shadow
unfolding comparison_findings shadow_findings contains str_eq
comparison_findings-clear none policy =
    let one = clear-when true "shadow_missing" refl in (λ h. cc, λ h. absurd h)
comparison_findings-clear (some shadow) policy =
    let a = contains "duplicate_entity_in_execution" shadow.warnings in
    let b = exceeds shadow.entity_loss_fraction policy.max_entity_loss_fraction in
    let c = exceeds shadow.new_null_fraction policy.max_new_null_fraction in
    let d = shadow.matched_entities == 0 in
    let e = contains "execution_failed" shadow.warnings in
    let all =
      clear-five a b c d e "shadow_duplicate_entity" "shadow_entity_loss" "shadow_null_increase"
        "shadow_no_matched_entities" "shadow_execution_failed" refl refl refl refl refl in
    (
      λ h. within-false a b c d e (sym all ∙ h),
      λ (ha, hb, hc, hd, he). all ∙ within-true a b c d e ha hb hc hd he,
    )

-- A release is eligible for review exactly when its staging execution gave a complete, nonempty
-- result of the right schema, and there is a shadow comparison that ran without a failure and without
-- duplicate entities, matched some entities, and is within the policy's limits on lost entities and
-- on new nulls. The policy's limit on the distribution shift does not count.
pub assess-eligible :
    (staging : StagingValidationResult) (shadow : Option ShadowComparisonResult)
    (policy : ReleasePolicy) (synthetic : Bool)
    → ((assess staging shadow policy synthetic).eligibility
        ≡ ReleaseEligibility.eligible_for_release_review)
      ↔ (IsClean staging × IsWithin policy shadow)
unfolding assess
assess-eligible staging shadow policy synthetic =
    let findings = staging_findings staging ++ comparison_findings shadow policy in
    let split = clear-append (staging_findings staging) (comparison_findings shadow policy) in
    let (one, one') = staging_findings-clear staging in
    let (two, two') = comparison_findings-clear shadow policy in
    let (to, from) = eligibility_of-clear findings in
    (
      λ h. let both = and-true _ _ (sym split ∙ to h) in (one both.0, two both.1),
      λ (p, q). from (split ∙ true-and _ _ (one' p) (two' q)),
    )
