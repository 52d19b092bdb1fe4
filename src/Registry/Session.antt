-- ===== src/Registry/Session.antt =====
-- The reads and single writes of `RegistryService` (src/airi/registry/service.py), each with the
-- integrity checks of its source. The digest `canonical_hash` is a parameter: a function of the
-- document.
use airi.Prelude.{
  ℕ, String, Bool, not, ◌&&◌, ◌||◌, Option, none, some, [], ◌∷◌, if◌then◌else◌, ◌==◌, str_eq,
  opt_eq, Result, ok, err, ◌>>=◌, ◌>>◌, raise_if,
}
use airi.Core.{Version, same_version}
use airi.Registry.Models.{
  MetricVersionStatus, ReleaseStatus, ReleaseEligibility, TargetEnvironment, EvidenceStatus,
  ReviewDecision, RollbackDecision, MetricDefinition, MetricVersion, ReleaseValidationReport,
  MetricRelease, ReleaseReview, RollbackReview, Document, content_of,
}
use airi.Registry.Store.{Table, get, DefinitionRow, VersionRow, Store}

-- `==` on the statuses and decisions, by the place of each literal.
abbrev version_status_tag : MetricVersionStatus → ℕ
version_status_tag MetricVersionStatus.registered = 0
version_status_tag MetricVersionStatus.release_candidate = 1
version_status_tag MetricVersionStatus.active = 2
version_status_tag MetricVersionStatus.retired = 3

unfoldable pub same_version_status : MetricVersionStatus → MetricVersionStatus → Bool
same_version_status a b = version_status_tag a == version_status_tag b

abbrev release_status_tag : ReleaseStatus → ℕ
release_status_tag ReleaseStatus.draft = 0
release_status_tag ReleaseStatus.pending_staging_validation = 1
release_status_tag ReleaseStatus.staging_validated = 2
release_status_tag ReleaseStatus.pending_release_review = 3
release_status_tag ReleaseStatus.approved = 4
release_status_tag ReleaseStatus.active = 5
release_status_tag ReleaseStatus.failed = 6
release_status_tag ReleaseStatus.rolled_back = 7

unfoldable pub same_release_status : ReleaseStatus → ReleaseStatus → Bool
same_release_status a b = release_status_tag a == release_status_tag b

abbrev environment_tag : TargetEnvironment → ℕ
environment_tag TargetEnvironment.staging = 0
environment_tag TargetEnvironment.production = 1

unfoldable pub same_environment : TargetEnvironment → TargetEnvironment → Bool
same_environment a b = environment_tag a == environment_tag b

abbrev evidence_tag : EvidenceStatus → ℕ
evidence_tag EvidenceStatus.passed = 0
evidence_tag EvidenceStatus.passed_with_warnings = 1
evidence_tag EvidenceStatus.failed = 2
evidence_tag EvidenceStatus.inconclusive = 3

unfoldable pub same_evidence_status : EvidenceStatus → EvidenceStatus → Bool
same_evidence_status a b = evidence_tag a == evidence_tag b

abbrev eligibility_tag : ReleaseEligibility → ℕ
eligibility_tag ReleaseEligibility.eligible_for_release_review = 0
eligibility_tag ReleaseEligibility.need_more_evidence = 1
eligibility_tag ReleaseEligibility.not_eligible = 2

unfoldable pub same_eligibility : ReleaseEligibility → ReleaseEligibility → Bool
same_eligibility a b = eligibility_tag a == eligibility_tag b

abbrev decision_tag : ReviewDecision → ℕ
decision_tag ReviewDecision.pending = 0
decision_tag ReviewDecision.approved = 1
decision_tag ReviewDecision.rejected = 2
decision_tag ReviewDecision.need_more_evidence = 3

unfoldable pub same_decision : ReviewDecision → ReviewDecision → Bool
same_decision a b = decision_tag a == decision_tag b

abbrev rollback_tag : RollbackDecision → ℕ
rollback_tag RollbackDecision.pending = 0
rollback_tag RollbackDecision.approved = 1
rollback_tag RollbackDecision.rejected = 2

unfoldable pub same_rollback_decision : RollbackDecision → RollbackDecision → Bool
same_rollback_decision a b = rollback_tag a == rollback_tag b

-- The codes of `RegistryError`; `resource_not_found` is `get_row`'s `ReflectionNotFound`, and
-- `integrity_error` a failed constraint that no caller translates.
pub data RegistryError : Type 0 where
  resource_not_found metric_definition_not_found metric_version_not_found
        metric_registry_integrity_error release_evidence_changed release_state_invalid
        metric_version_already_registered production_environment_not_verified
        release_artifact_not_approved release_not_validatable release_review_already_exists
        release_not_ready_for_review release_not_eligible release_review_already_decided
        release_not_approved activation_conflict rollback_no_active_version
        rollback_target_already_active rollback_conflict rollback_already_decided integrity_error
        metric_version_not_authorized promotion_evidence_changed metric_version_lineage_changed
        metric_version_not_supported :
      RegistryError

abbrev pub Outcome : Type 0 → Type 0
Outcome A = Result RegistryError A

-- `get_row`
unfoldable pub get_row : {R : Type 0} → Table R → String → Outcome R
get_row t key = elim (get key t) [ none ↦ err resource_not_found | some r ↦ ok r ]

-- `_verify_definition`
unfoldable pub verify_definition : DefinitionRow → Outcome MetricDefinition
verify_definition row =
    let definition = row.definition_json in
    do
      raise_if
          (not (opt_eq row.active_version_id definition.active_version_id)
            || not (str_eq row.metric_key definition.metric_key))
          metric_registry_integrity_error
      ok definition

-- `definition_by_id`
unfoldable pub definition_by_id : Store → String → Outcome MetricDefinition
unfolding get_row verify_definition
definition_by_id st id = do verify_definition (← get_row st.definitions id)

-- `select(MetricDefinitionRow).where(metric_key == key)`, with its primary key
unfoldable pub find_by_key : String → Table DefinitionRow → Option (String × DefinitionRow)
find_by_key key [] = none
find_by_key key ((id, row) ∷ t) =
    if str_eq row.metric_key key then some (id, row) else find_by_key key t

-- `definition`
unfoldable pub definition : Store → String → Outcome MetricDefinition
unfolding find_by_key verify_definition
definition st key = elim (find_by_key key st.definitions) [
  | none ↦ err metric_definition_not_found
  | some (id, row) ↦ verify_definition row
]

-- `select(MetricVersionRow).where(metric_definition_id == ..., version == ...)`
unfoldable pub find_version : String → Version → Table VersionRow → Option VersionRow
find_version id v [] = none
find_version id v ((key, row) ∷ t) =
    if str_eq row.metric_definition_id id && same_version row.version v
    then some row
    else find_version id v t

module _ (canonical_hash : Document → String) where
  -- `metric_version_content_hash`
  unfoldable pub metric_version_content_hash : MetricVersion → String
  metric_version_content_hash v = canonical_hash (Document.version_content (content_of v))

  -- `_verify_version`
  unfoldable pub verify_version : VersionRow → Outcome MetricVersion
  unfolding metric_version_content_hash
  verify_version row =
      let version = row.version_json in
      do
        raise_if
            (not (str_eq (metric_version_content_hash version) row.content_hash)
              || not (
                  str_eq (canonical_hash (Document.metric_ir version.metric_ir)) row.metric_ir_hash)
              || not (
                  str_eq (canonical_hash (Document.metric_ir version.metric_ir))
                    version.metric_ir_hash)
              || not (str_eq row.artifact_hash version.artifact_hash)
              || not (same_version_status row.status version.status))
            metric_registry_integrity_error
        ok version

  -- `version_by_id`
  unfoldable pub version_by_id : Store → String → Outcome MetricVersion
  unfolding get_row verify_version
  version_by_id st id = do verify_version (← get_row st.versions id)

  -- `version`
  unfoldable pub version : Store → String → Version → Outcome MetricVersion
  unfolding definition find_version verify_version
  version st key v = do
    d ← definition st key
    elim (find_version d.metric_definition_id v st.versions) [
      | none ↦ err metric_version_not_found
      | some row ↦ verify_version row
    ]

  -- `release`
  unfoldable pub release : Store → String → Outcome MetricRelease
  unfolding get_row version_by_id
  release st id = do
    row ← get_row st.releases id
    let release = row.release_json
    raise_if
        (not (same_release_status row.status release.status)
          || not (same_version row.version release.version)
          || not (same_environment row.target_environment release.target_environment)
          || not (str_eq row.release_policy_version release.release_policy.version)
          || not (str_eq row.metric_version_id release.metric_version_id))
        metric_registry_integrity_error
    version ← version_by_id st release.metric_version_id
    raise_if
        (not (str_eq release.release_provenance.metric_version_content_hash version.content_hash))
        metric_registry_integrity_error
    ok release

  -- `validation_report`
  unfoldable pub validation_report : Store → String → Outcome ReleaseValidationReport
  unfolding get_row
  validation_report st id = do
    row ← get_row st.validations id
    let report = row.report_json
    raise_if
        (not (str_eq (canonical_hash (Document.validation_report report)) row.report_hash)
          || not (same_eligibility report.release_eligibility row.release_eligibility)
          || not (same_evidence_status report.status row.status))
        release_evidence_changed
    ok report

  -- `release_review`
  unfoldable pub release_review : Store → String → Outcome ReleaseReview
  unfolding get_row
  release_review st id = do
    row ← get_row st.reviews id
    let review = row.review_json
    raise_if
        (not (str_eq (canonical_hash (Document.release_review review)) row.review_hash)
          || not (same_decision review.decision row.decision))
        release_evidence_changed
    ok review

  -- `rollback_review`
  unfoldable pub rollback_review : Store → String → Outcome RollbackReview
  unfolding get_row
  rollback_review st id = do
    row ← get_row st.rollbacks id
    let review = row.review_json
    raise_if
        (not (str_eq (canonical_hash (Document.rollback_review review)) row.review_hash)
          || not (same_rollback_decision review.decision row.decision))
        release_evidence_changed
    ok review
