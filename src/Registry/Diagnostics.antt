-- ===== src/Registry/Diagnostics.antt =====
-- Release diagnostics (src/airi/registry/release.py) and the findings of a shadow comparison
-- (src/airi/registry/shadow.py). A finding is its type; a fraction is compared exactly.
pub mod Soundness
use airi.Prelude.{
  meets, ◌*◌, String, Bool, true, false, not, ◌||◌, Option, none, some, List, [], ◌∷◌, ◌++◌,
  if◌then◌else◌, ltb, ◌==◌, contains, sorted_set,
}
use airi.Registry.Models.{
  require_shadow_validation, EvidenceStatus, ReleaseEligibility, ReleasePolicy, Fraction,
  StagingValidationResult, ShadowComparisonResult,
}

abbrev pub fraction_gt : Fraction → Fraction → Bool
fraction_gt a b = ltb (b.numerator * a.denominator) (a.numerator * b.denominator)

-- `value is not None and value > limit`
abbrev pub exceeds : Option Fraction → Fraction → Bool
exceeds none limit = false
exceeds (some a) limit = fraction_gt a limit

abbrev pub when : Bool → String → List String
when true name = name ∷ []
when false name = []

unfoldable pub shadow_findings : ShadowComparisonResult → ReleasePolicy → List String
shadow_findings result policy =
    when (contains "duplicate_entity_in_execution" result.warnings) "shadow_duplicate_entity"
    ++ (when (exceeds result.entity_loss_fraction policy.max_entity_loss_fraction)
          "shadow_entity_loss"
        ++ (when (exceeds result.new_null_fraction policy.max_new_null_fraction)
              "shadow_null_increase"
            ++ (when (result.matched_entities == 0) "shadow_no_matched_entities"
                ++ when (contains "execution_failed" result.warnings) "shadow_execution_failed")))

abbrev pub blocking : List String
blocking =
    "staging_execution_failed" ∷ "staging_schema_invalid" ∷ "staging_result_truncated"
    ∷ "shadow_execution_failed" ∷ "shadow_duplicate_entity" ∷ "shadow_entity_loss"
    ∷ "shadow_null_increase" ∷ []

abbrev pub soft : List String
soft =
    "staging_inconclusive" ∷ "staging_empty_result" ∷ "shadow_missing"
    ∷ "shadow_no_matched_entities" ∷ []

abbrev pub is_failed : EvidenceStatus → Bool
is_failed EvidenceStatus.failed = true
is_failed _ = false

abbrev pub is_inconclusive : EvidenceStatus → Bool
is_inconclusive EvidenceStatus.inconclusive = true
is_inconclusive _ = false

unfoldable pub staging_findings : StagingValidationResult → List String
staging_findings staging =
    when (is_failed staging.status) "staging_execution_failed"
    ++ (when (is_inconclusive staging.status) "staging_inconclusive"
        ++ (when (not staging.schema_ok) "staging_schema_invalid"
            ++ (when staging.truncated "staging_result_truncated"
                ++ when (staging.row_count == 0) "staging_empty_result")))

-- the findings of the shadow comparison, or of its absence
unfoldable pub comparison_findings : Option ShadowComparisonResult → ReleasePolicy → List String
unfolding shadow_findings
comparison_findings none policy = when require_shadow_validation "shadow_missing"
comparison_findings (some shadow) policy = shadow_findings shadow policy

abbrev shadow_warnings : Option ShadowComparisonResult → List String
shadow_warnings none = []
shadow_warnings (some shadow) = shadow.warnings

abbrev unperformed : Option ShadowComparisonResult → ReleasePolicy → List String
unperformed none policy = when require_shadow_validation "shadow validation not performed"
unperformed (some shadow) policy = []

unfoldable pub eligibility_of : List String → ReleaseEligibility
unfolding meets
eligibility_of kinds =
    if meets kinds blocking
    then ReleaseEligibility.not_eligible
    else if meets kinds soft
    then ReleaseEligibility.need_more_evidence
    else ReleaseEligibility.eligible_for_release_review

abbrev nonempty : List String → Bool
nonempty [] = false
nonempty (x ∷ xs) = true

unfoldable pub status_of : ReleaseEligibility → List String → List String → EvidenceStatus
status_of ReleaseEligibility.not_eligible findings warnings = EvidenceStatus.failed
status_of ReleaseEligibility.need_more_evidence findings warnings = EvidenceStatus.inconclusive
status_of ReleaseEligibility.eligible_for_release_review findings warnings =
    if nonempty findings || nonempty warnings
    then EvidenceStatus.passed_with_warnings
    else EvidenceStatus.passed

-- the tuple that `assess` returns
pub record Assessment : Type 0 where
  pub findings : List String
  pub eligibility : ReleaseEligibility
  pub status : EvidenceStatus
  pub warnings : List String
  pub missing : List String

-- `ReleaseDiagnostics.assess`
unfoldable pub assess :
    StagingValidationResult → Option ShadowComparisonResult → ReleasePolicy → Bool → Assessment
unfolding staging_findings comparison_findings eligibility_of status_of
assess staging shadow policy synthetic_data =
    let findings = staging_findings staging ++ comparison_findings shadow policy in
    let eligibility = eligibility_of findings in
    let warnings = sorted_set (
      staging.warnings
      ++ (shadow_warnings shadow
          ++ when synthetic_data
              "synthetic evidence only; research release demonstration, not a real release")) in
    record {
      findings = findings;
      eligibility = eligibility;
      status = status_of eligibility findings warnings;
      warnings = warnings;
      missing = sorted_set (
          unperformed shadow policy
          ++ (when synthetic_data "real Spark not verified"
              ++ when synthetic_data "real production traffic not verified"));
    }
