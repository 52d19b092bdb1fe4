-- ===== src/Approvals/Examples.antt =====
-- The approval theorems at a concrete artifact, from the empty store (src/airi/approvals/service.py).
use airi.Approvals.Service.{has_record}
use airi.Approvals.Service.{is_unchanged}
use airi.Prelude.{
  String, ◌≡◌, refl, true, none, some, [], arith, ok, err, Ensures, get, put, str_eq, truthy,
}
use airi.Core.{same_version}
use airi.MetricIr.Models.{MetricIr}
use airi.Approvals.Service.{
  ArtifactStatus, Decision, Artifact, ArtifactRow, RecordRow, ApprovalStore, Outcome, SubmitReview,
  Verdict, DecisionRequest, save_draft, submit, decide, require_approved,
}
use airi.Approvals.Governance.{IsGoverned}
use airi.Approvals.Execution.{IsExecutable, require_approved-IsExecutable}
use airi.Approvals.Runs.{
  drafted, submitted, decided, Run, here, then, Run-IsGoverned, HasApproval, Run-HasApproval,
}
use airi.Registry.Sample.{orders}

abbrev ir_hash : MetricIr → String
ir_hash m = m.description

abbrev content_hash : Artifact → String
content_hash a = a.code

abbrev query : Artifact
query = record {
  artifact_id = "a";
  artifact_version = record { major = 1; minor = 0; patch = 0 };
  metric_name = "orders";
  code = "SELECT 1";
  template = record { name = "plain"; version = record { major = 1; minor = 0; patch = 0 } };
  warnings = [];
  content_hash = "SELECT 1";
}

abbrev empty_store : ApprovalStore
empty_store = record { artifacts = []; records = [] }

empty_store-IsGoverned : IsGoverned empty_store
unfolding get
empty_store-IsGoverned = record {
  reviews = λ id row e. absurd (ground arith);
  single = λ id id' row row' e e' one. absurd (ground arith);
  reviewed = λ id artifact e later. absurd (ground arith);
}

abbrev store_of : Outcome (ApprovalStore × RecordRow) → ApprovalStore
store_of (ok (st, r)) = st
store_of (err e) = empty_store

abbrev draft_store : ApprovalStore
draft_store = elim (save_draft ir_hash content_hash 1 empty_store query orders "w" true) [
  | ok st ↦ st
  | err e ↦ empty_store
]

abbrev request : SubmitReview
request = record {
  artifact_id = "a";
  metric_ir_hash = orders.description;
  artifact_hash = "SELECT 1";
}

abbrev submission : Outcome (ApprovalStore × RecordRow)
submission = submit ir_hash content_hash 2 "r" draft_store request

abbrev approval : DecisionRequest
approval = record { verdict = Verdict.approved; reviewer = "lee"; comment = "checked" }

abbrev decision : Outcome (ApprovalStore × RecordRow)
decision = decide ir_hash content_hash 3 (store_of submission) "r" approval

abbrev reviewed_record : RecordRow
reviewed_record = record {
  workflow_run_id = "w";
  artifact_id = "a";
  artifact_version = record { major = 1; minor = 0; patch = 0 };
  metric_name = "orders";
  metric_ir_hash = orders.description;
  artifact_hash = "SELECT 1";
  reviewer = some "lee";
  decision = Decision.approved;
  comment = some "checked";
  created_at = 2;
  reviewed_at = some 3;
}

draft-run : save_draft ir_hash content_hash 1 empty_store query orders "w" true ≡ ok draft_store
unfolding save_draft get
draft-run = refl

abbrev pending_review : RecordRow
pending_review = record reviewed_record {
  reviewer = none;
  decision = Decision.pending;
  comment = none;
  reviewed_at = none;
}

submission-run : submission ≡ ok (store_of submission, pending_review)
unfolding submit save_draft get put str_eq is_unchanged same_version has_record
submission-run = refl

decision-run : decision ≡ ok (store_of decision, reviewed_record)
unfolding decide submit save_draft get put str_eq is_unchanged same_version has_record
decision-run = refl

review_in_full : Run ir_hash content_hash empty_store (store_of decision)
unfolding truthy str_eq
review_in_full =
    then
      (then (then here (drafted 1 query orders "w" true draft-run))
        (submitted 2 "r" request submission-run))
      (decided 3 "r" approval (refl, refl) decision-run)

Run-IsGoverned_example : IsGoverned (store_of decision)
Run-IsGoverned_example = Run-IsGoverned ir_hash content_hash review_in_full empty_store-IsGoverned

abbrev approved_artifact : ArtifactRow
approved_artifact = record {
  workflow_run_id = "w";
  artifact_version = record { major = 1; minor = 0; patch = 0 };
  metric_name = "orders";
  metric_ir_hash = orders.description;
  artifact_hash = "SELECT 1";
  status = ArtifactStatus.approved;
  snapshot = record {
    artifact = some query;
    metric_ir = orders;
    workflow_run_id = "w";
    valid = true;
  };
  created_at = 1;
}

Run-HasApproval_example : HasApproval ir_hash content_hash (store_of decision) "a" approved_artifact
unfolding decide submit save_draft get put str_eq is_unchanged same_version has_record
Run-HasApproval_example =
    Run-HasApproval ir_hash content_hash "a" approved_artifact review_in_full empty_store-IsGoverned
      refl refl

require_approved_run :
    require_approved ir_hash content_hash (store_of decision) "r" "a" ≡ ok reviewed_record
unfolding require_approved decide submit save_draft get put str_eq is_unchanged same_version
    has_record truthy
require_approved_run = refl

require_approved-IsExecutable_example :
    Ensures
      (IsExecutable ir_hash content_hash (store_of decision) "a")
      (require_approved ir_hash content_hash (store_of decision) "r" "a")
require_approved-IsExecutable_example =
    require_approved-IsExecutable ir_hash content_hash (store_of decision) "r" "a"
