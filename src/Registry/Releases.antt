-- ===== src/Registry/Releases.antt =====
-- The release lifecycle of `RegistryService` (src/airi/registry/service.py): create, validate,
-- review, decide and activate. A call returns the store that it commits, with its result. New
-- identifiers are arguments. The research evidence and the executions that `validate` and
-- `decide_review` consult belong to other services and are one interface.
use airi.Prelude.{
  ℕ, String, Bool, true, false, not, ◌&&◌, ◌||◌, Option, none, some, [], ◌∷◌, ◌++◌, if◌then◌else◌,
  is_some, str_eq, ok, err, ◌>>=◌, ◌>>◌, raise_if,
}
use airi.Registry.Models.{
  MetricVersionStatus, ReleaseStatus, ReleaseEligibility, TargetEnvironment, ReleaseEventType,
  EvidenceStatus, ReviewDecision, MetricDefinition, MetricVersion, StagingValidationResult,
  ShadowComparisonResult, ReleaseValidationReport, MetricRelease, ReleaseReview, Document,
  default_release_policy,
}
use airi.Registry.Store.{Table, get, put, ReleaseRow, ValidationRow, ReleaseReviewRow, Store}
use airi.Registry.Session.{
  Outcome, definition_by_id, version_by_id, release, validation_report, same_release_status,
  same_decision, same_eligibility, same_version_status, same_evidence_status,
  production_environment_not_verified, release_not_validatable, release_review_already_exists,
  release_not_ready_for_review, release_not_eligible, integrity_error,
}
use airi.Registry.Diagnostics.{Assessment, assess}
use airi.Registry.Writes.{transition, save_release, log_event, set_version_status}

abbrev pub is_production : TargetEnvironment → Bool
is_production TargetEnvironment.production = true
is_production TargetEnvironment.staging = false

-- What `validate` and `decide_review` ask of the research chain and of the execution service.
pub record ReleaseEvidence : Type 0 where
  pub evidence_checks : MetricVersion → Outcome (Unit {0})
  pub run_staging : MetricRelease → MetricVersion → Outcome StagingValidationResult
  pub run_shadow : MetricRelease → MetricVersion → MetricDefinition → Outcome ShadowComparisonResult

-- the release that `create_release` prepares
abbrev pub drafted :
    String → MetricDefinition → MetricVersion → TargetEnvironment → ℕ → MetricRelease
drafted id d v environment now = record {
  release_id = id;
  metric_definition_id = d.metric_definition_id;
  metric_version_id = v.metric_version_id;
  metric_key = d.metric_key;
  version = v.version;
  target_environment = environment;
  status = ReleaseStatus.draft;
  expected_active_version_id = d.active_version_id;
  release_policy = default_release_policy;
  release_provenance = record {
    metric_version_content_hash = v.content_hash;
    metric_ir_hash = v.metric_ir_hash;
    candidate_artifact_hash = v.artifact_hash;
    promotion_review_id = v.source_promotion_review_id;
    temporal_validation_run_id = v.source_temporal_validation_run_id;
    refinement_run_id = v.source_refinement_run_id;
    temporal_report_hash = v.provenance.temporal_report_hash;
    promotion_evidence_hash = v.provenance.promotion_evidence_hash;
  };
  validation_report_hash = none;
  created_at = now;
  validated_at = none;
  activated_at = none;
}

abbrev pub release_row : MetricRelease → ℕ → ReleaseRow
release_row r now = record {
  metric_definition_id = r.metric_definition_id;
  metric_version_id = r.metric_version_id;
  version = r.version;
  target_environment = r.target_environment;
  status = r.status;
  expected_active_version_id = r.expected_active_version_id;
  release_policy_version = r.release_policy.version;
  release_json = r;
  created_at = now;
  validated_at = none;
  activated_at = none;
}

-- `if version.status == "registered": self._set_version_status(...)`
unfoldable pub nominate : Store → MetricVersion → Outcome Store
unfolding set_version_status
nominate st v =
    if same_version_status v.status MetricVersionStatus.registered
    then set_version_status st v.metric_version_id MetricVersionStatus.release_candidate
    else ok st

-- `select(ReleaseReviewRow).where(release_id == ...)`, with its primary key
unfoldable pub find_review : String → Table ReleaseReviewRow → Option (String × ReleaseReviewRow)
find_review id [] = none
find_review id ((key, row) ∷ t) =
    if str_eq row.release_id id then some (key, row) else find_review id t

module _ (canonical_hash : Document → String) where
  -- `create_release`; `production_verified` is `_production_verified()`
  unfoldable pub create_release :
      Bool → ℕ → String → Store → String → TargetEnvironment → Outcome (Store × MetricRelease)
  unfolding nominate
  create_release production_verified now id st version_id environment = do
    v ← version_by_id canonical_hash st version_id
    raise_if (is_production environment && not production_verified)
        production_environment_not_verified
    d ← definition_by_id st v.metric_definition_id
    r ← transition (drafted id d v environment now) ReleaseStatus.pending_staging_validation
    raise_if (is_some (get id st.releases)) integrity_error
    st' ← nominate (record st { releases = put id (release_row r now) st.releases }) v
    ok (
      log_event now st' r.metric_definition_id ReleaseEventType.release_created "registry-service"
          (some r.metric_version_id) (some id),
      r,
    )

  -- the report that `validate` stores
  abbrev pub report_of :
      MetricRelease
      → MetricVersion
      → StagingValidationResult
      → Option ShadowComparisonResult
      → Assessment
      → ℕ
      → ReleaseValidationReport
  report_of r v staging shadow a now = record {
    release_id = r.release_id;
    metric_version_id = v.metric_version_id;
    metric_key = r.metric_key;
    version = v.version;
    status = a.status;
    release_eligibility = a.eligibility;
    staging = staging;
    shadow = shadow;
    findings = a.findings;
    warnings = a.warnings;
    missing_evidence = a.missing;
    synthetic_data = v.synthetic_data;
    release_policy_version = r.release_policy.version;
    created_at = now;
  }

  -- `None if staging.status == "failed" else self._shadow(...)`
  unfoldable pub shadow_of :
      ReleaseEvidence
      → MetricRelease
      → MetricVersion
      → MetricDefinition
      → StagingValidationResult
      → Outcome (Option ShadowComparisonResult)
  shadow_of e r v d staging =
      if same_evidence_status staging.status EvidenceStatus.failed
      then ok none
      else e.run_shadow r v d >>= λ shadow. ok (some shadow)

  -- `"failed" if status == "failed" else "staging_validated"`
  abbrev pub validated_status : EvidenceStatus → ReleaseStatus
  validated_status EvidenceStatus.failed = ReleaseStatus.failed
  validated_status _ = ReleaseStatus.staging_validated

  -- the row of a stored report
  abbrev pub report_row : ReleaseValidationReport → ℕ → ValidationRow
  report_row report now = record {
    status = report.status;
    release_eligibility = report.release_eligibility;
    report_json = report;
    report_hash = canonical_hash (Document.validation_report report);
    created_at = now;
  }

  -- `validate`
  unfoldable pub validate :
      ReleaseEvidence → ℕ → Store → String → Outcome (Store × ReleaseValidationReport)
  unfolding shadow_of
  validate e now st id = do
    r ← release canonical_hash st id
    raise_if (not (same_release_status r.status ReleaseStatus.pending_staging_validation))
        release_not_validatable
    v ← version_by_id canonical_hash st r.metric_version_id
    d ← definition_by_id st v.metric_definition_id
    e.evidence_checks v
    staging ← e.run_staging r v
    shadow ← shadow_of e r v d staging
    let report =
        report_of r v staging shadow (assess staging shadow r.release_policy v.synthetic_data) now
    raise_if (is_some (get r.release_id st.validations)) integrity_error
    r' ←
        transition
          (record r {
            validated_at = some now;
            validation_report_hash = some (canonical_hash (Document.validation_report report));
          })
          (validated_status report.status)
    st' ←
        save_release now
          (record st { validations = put r.release_id (report_row report now) st.validations }) r'
    ok (
      log_event now st' r.metric_definition_id ReleaseEventType.staging_validated "registry-service"
          (some v.metric_version_id) (some r.release_id),
      report,
    )

  -- the row of a new or reopened review
  abbrev pub review_row : ReleaseReview → ℕ → ReleaseReviewRow
  review_row review now = record {
    release_id = review.release_id;
    metric_version_id = review.metric_version_id;
    decision = review.decision;
    reviewer = none;
    comment = none;
    review_json = review;
    review_hash = canonical_hash (Document.release_review review);
    created_at = now;
    reviewed_at = none;
  }

  -- `create_review` of a release that waits for a review: only a request for more evidence reopens
  -- the review, under its own id and with the decision kept in its history.
  unfoldable pub reopen_review :
      ℕ
      → Store
      → MetricRelease
      → Option (String × ReleaseReviewRow)
      → Outcome (Store × ReleaseReview)
  reopen_review now st r none = err release_review_already_exists
  reopen_review now st r (some (key, existing)) = do
    let previous = existing.review_json
    raise_if (not (same_decision previous.decision ReviewDecision.need_more_evidence))
        release_review_already_exists
    let review : ReleaseReview = record {
      release_review_id = previous.release_review_id;
      release_id = previous.release_id;
      metric_version_id = previous.metric_version_id;
      decision = ReviewDecision.pending;
      reviewer = none;
      comment = none;
      validation_report_hash = r.validation_report_hash;
      previous_decisions =
          previous.previous_decisions
          ++ (record {
            decision = previous.decision;
            reviewer = previous.reviewer;
            comment = previous.comment;
          }
              ∷ []);
      created_at = now;
      reviewed_at = none;
    }
    let row : ReleaseReviewRow = record existing {
      decision = ReviewDecision.pending;
      reviewer = none;
      comment = none;
      reviewed_at = none;
      review_json = review;
      review_hash = canonical_hash (Document.release_review review);
    }
    ok (record st { reviews = put key row st.reviews }, review)

  -- `create_review` of a validated release
  unfoldable pub open_review :
      ℕ
      → String
      → Store
      → MetricRelease
      → Option (String × ReleaseReviewRow)
      → Outcome (Store × ReleaseReview)
  open_review now id st r existing = do
    raise_if (not (same_release_status r.status ReleaseStatus.staging_validated))
        release_not_ready_for_review
    report ← validation_report canonical_hash st r.release_id
    raise_if
        (not (
          same_eligibility report.release_eligibility
            ReleaseEligibility.eligible_for_release_review))
        release_not_eligible
    let review : ReleaseReview = record {
      release_review_id = id;
      release_id = r.release_id;
      metric_version_id = r.metric_version_id;
      decision = ReviewDecision.pending;
      reviewer = none;
      comment = none;
      validation_report_hash = r.validation_report_hash;
      previous_decisions = [];
      created_at = now;
      reviewed_at = none;
    }
    r' ← transition r ReleaseStatus.pending_release_review
    st' ← save_release now (record st { reviews = put id (review_row review now) st.reviews }) r'
    raise_if (is_some existing || is_some (get id st.reviews)) release_review_already_exists
    ok (st', review)

  -- `create_review`
  unfoldable pub create_review : ℕ → String → Store → String → Outcome (Store × ReleaseReview)
  unfolding reopen_review open_review find_review
  create_review now id st release_id = do
    r ← release canonical_hash st release_id
    let existing = find_review release_id st.reviews
    if same_release_status r.status ReleaseStatus.pending_release_review
        then reopen_review now st r existing
        else open_review now id st r existing
