-- ===== src/Registry/Walkthrough.antt =====
-- One release from its validation to its decided review, in the sample registry
-- (src/airi/registry/service.py).
use airi.Prelude.{
  ◌≡◌, refl, true, false, Option, none, some, [], ok, err, inl, Ensures, Ensures-at, str_eq, opt_eq,
  contains, sorted_set, meets,
}
use airi.Registry.Models.{
  EvidenceStatus, ReleaseStatus, ReleaseVerdict, ReviewDecision, ReleaseEventType, ReleaseReview,
  ReleaseDecisionRequest,
}
use airi.Registry.Store.{get, put, Distinct, Store}
use airi.Registry.Session.{
  Outcome, release_review, release, validation_report, same_release_status, same_environment,
  same_version_status, definition_by_id, same_evidence_status, same_decision, same_eligibility,
  version_by_id, release_review_already_decided,
}
use airi.Core.{same_version}
use airi.Registry.Diagnostics.{assess}
use airi.Registry.Writes.{save_release, log_event, transition}
use airi.Registry.Releases.{ReleaseEvidence, validate, create_review}
use airi.Registry.Decisions.{decide_review}
use airi.Registry.Governance.Verdict.{Decides, decide_review-Decides, release_review-Recorded}
use airi.Registry.Governance.Finality.{Reviewing, unchanged, elsewhere, decide_review-final}
use airi.Registry.Sample.{digest, store_with}

-- A complete staging result, and a comparison that loses one entity of fifty.
abbrev research : ReleaseEvidence
research = record {
  evidence_checks = λ v. ok tt;
  run_staging = λ r v. ok (record {
    status = EvidenceStatus.passed;
    row_count = 50;
    truncated = false;
    schema_ok = true;
    warnings = [];
  });
  run_shadow = λ r v d. ok (record {
    status = EvidenceStatus.passed;
    matched_entities = 49;
    entity_loss_fraction = some (record { numerator = 1; denominator = 50 });
    new_null_fraction = none;
    warnings = [];
  });
}

abbrev after : {A : Type 0} → Store → Outcome (Store × A) → Store
after st (ok (st', a)) = st'
after st (err e) = st

abbrev new_store : Store
new_store = store_with ReleaseStatus.pending_staging_validation (some "v2")

abbrev validated_store : Store
validated_store = after new_store (validate digest research 3 new_store "r")

abbrev reviewed_store : Store
reviewed_store = after validated_store (create_review digest 4 "w" validated_store "r")

abbrev payload : ReleaseDecisionRequest
payload = record { decision = ReleaseVerdict.approved; reviewer = "lee"; comment = "within limits" }

abbrev decision : Outcome (Store × ReleaseReview)
decision = decide_review digest research 5 reviewed_store "w" payload

abbrev result_of : Outcome (Store × ReleaseReview) → ReleaseReview → ReleaseReview
result_of (ok (st, r)) other = r
result_of (err e) other = other

abbrev no_review : ReleaseReview
no_review = record {
  release_review_id = "";
  release_id = "";
  metric_version_id = "";
  decision = ReviewDecision.pending;
  reviewer = none;
  comment = none;
  validation_report_hash = none;
  previous_decisions = [];
  created_at = 0;
  reviewed_at = none;
}

abbrev decided : Store × ReleaseReview
decided = (after reviewed_store decision, result_of decision no_review)

decision-run : decision ≡ ok decided
unfolding decide_review validate create_review release_review get release str_eq same_release_status
    same_version same_environment same_version_status definition_by_id opt_eq same_evidence_status
    assess contains sorted_set save_release log_event put meets validation_report same_decision
    same_eligibility version_by_id transition
decision-run = refl

abbrev saved_status : Store → Option ReleaseStatus
saved_status st = elim (get "r" st.releases) [ none ↦ none | some row ↦ some row.status ]

decision-status : saved_status (after reviewed_store decision) ≡ some ReleaseStatus.approved
unfolding decide_review validate create_review release_review get release str_eq same_release_status
    same_version same_environment same_version_status definition_by_id opt_eq same_evidence_status
    assess contains sorted_set save_release log_event put meets validation_report same_decision
    same_eligibility version_by_id transition
decision-status = refl

decide_review-Decides_run : Ensures (Decides digest 5 reviewed_store "w" payload) decision
decide_review-Decides_run = decide_review-Decides digest research 5 reviewed_store "w" payload

decide_review-Decides_example : Ensures (Decides digest 5 reviewed_store "w" payload) decision
decide_review-Decides_example = decide_review-Decides digest research 5 reviewed_store "w" payload

-- An event is logged after the approval.
abbrev logged : Store
logged =
    log_event 6 decided.0 "d" ReleaseEventType.activated "registry-service" (some "v") (some "r")

decided-read : release_review digest decided.0 "w" ≡ ok decided.1
decided-read =
    let (review, r, r', read, pending, updated, found, bound, settles, row, at, json, recorded) =
      Ensures-at (Decides digest 5 reviewed_store "w" payload) decision decide_review-Decides_run
        decision-run in
    release_review-Recorded digest decided.0 "w" decided.1 recorded

decided-Distinct : Distinct decided.0.reviews
unfolding decide_review validate create_review release_review get release str_eq same_release_status
    same_version same_environment same_version_status definition_by_id opt_eq same_evidence_status
    assess contains sorted_set save_release log_event put meets validation_report same_decision
    same_eligibility version_by_id transition
decided-Distinct = (refl, tt)

decided-verdict : decided.1.decision ≡ ReviewDecision.approved
unfolding decide_review validate create_review release_review get release str_eq same_release_status
    same_version same_environment same_version_status definition_by_id opt_eq same_evidence_status
    assess contains sorted_set save_release log_event put meets validation_report same_decision
    same_eligibility version_by_id transition
decided-verdict = refl

logged-reviewing : Reviewing digest decided.0 logged
unfolding log_event
logged-reviewing = elsewhere unchanged refl

decide_review-final_example :
    (release_review digest logged "w" ≡ ok decided.1)
    × (decide_review digest research 7 logged "w" payload ≡ err release_review_already_decided)
decide_review-final_example =
    decide_review-final digest "w" decided.1 decided-Distinct decided-read (inl decided-verdict)
      logged-reviewing research 7 payload
