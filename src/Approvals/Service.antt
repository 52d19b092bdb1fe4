-- ===== src/Approvals/Service.antt =====
-- `ApprovalService` (src/airi/approvals/service.py) over its two tables
-- (src/airi/approvals/persistence.py). The two digests are parameters: arbitrary functions of the
-- metric and of the artifact.
use airi.Prelude.{
  ℕ, String, Bool, true, false, not, ◌&&◌, ◌||◌, Option, none, some, List, [], ◌∷◌, if◌then◌else◌,
  is_some, str_eq, truthy, Table, get, put, Result, ok, err, ◌>>=◌, ◌>>◌, raise_if,
}
use airi.Core.{Version, VersionedReference, same_version}
use airi.MetricIr.Models.{MetricIr}

pub data ArtifactStatus : Type 0 where
  draft pending_review approved rejected : ArtifactStatus

pub data Decision : Type 0 where
  pending approved rejected : Decision

-- `DevelopmentArtifact`, with the text that its digest covers
pub record Artifact : Type 0 where
  pub artifact_id : String
  pub artifact_version : Version
  pub metric_name : String
  pub code : String
  pub template : VersionedReference
  pub warnings : List String
  pub content_hash : String

-- the snapshot of a workflow's result; `artifact` is none where it no longer has its schema
pub record Snapshot : Type 0 where
  pub artifact : Option Artifact
  pub metric_ir : MetricIr
  pub workflow_run_id : String
  pub valid : Bool

-- `DevelopmentArtifactRow`, by artifact id
pub record ArtifactRow : Type 0 where
  pub workflow_run_id : String
  pub artifact_version : Version
  pub metric_name : String
  pub metric_ir_hash : String
  pub artifact_hash : String
  pub status : ArtifactStatus
  pub snapshot : Snapshot
  pub created_at : ℕ

-- `ApprovalRecordRow`, by approval id
pub record RecordRow : Type 0 where
  pub workflow_run_id : String
  pub artifact_id : String
  pub artifact_version : Version
  pub metric_name : String
  pub metric_ir_hash : String
  pub artifact_hash : String
  pub reviewer : Option String
  pub decision : Decision
  pub comment : Option String
  pub created_at : ℕ
  pub reviewed_at : Option ℕ

pub record ApprovalStore : Type 0 where
  pub artifacts : Table ArtifactRow
  pub records : Table RecordRow

pub data ApprovalError : Type 0 where
  artifact_not_found approval_not_found stored_schema_changed content_changed not_validated
        not_a_draft already_submitted not_pending artifact_not_pending different_artifact
        not_approved invalid_record integrity_error :
      ApprovalError

abbrev pub Outcome : Type 0 → Type 0
Outcome A = Result ApprovalError A

pub record SubmitReview : Type 0 where
  pub artifact_id : String
  pub metric_ir_hash : String
  pub artifact_hash : String

-- `ReviewDecision` and the decision of its route; both texts are nonempty by its schema
pub data Verdict : Type 0 where
  approved rejected : Verdict

pub record DecisionRequest : Type 0 where
  pub verdict : Verdict
  pub reviewer : String
  pub comment : String

abbrev pub decided_status : Verdict → ArtifactStatus
decided_status Verdict.approved = ArtifactStatus.approved
decided_status Verdict.rejected = ArtifactStatus.rejected

abbrev pub decision_of : Verdict → Decision
decision_of Verdict.approved = Decision.approved
decision_of Verdict.rejected = Decision.rejected

abbrev pub is_draft : ArtifactStatus → Bool
is_draft ArtifactStatus.draft = true
is_draft _ = false

abbrev pub is_pending_review : ArtifactStatus → Bool
is_pending_review ArtifactStatus.pending_review = true
is_pending_review _ = false

abbrev pub is_approved_artifact : ArtifactStatus → Bool
is_approved_artifact ArtifactStatus.approved = true
is_approved_artifact _ = false

abbrev pub is_pending : Decision → Bool
is_pending Decision.pending = true
is_pending _ = false

abbrev pub is_approved : Decision → Bool
is_approved Decision.approved = true
is_approved _ = false

-- `_artifact`
unfoldable pub find_artifact : ApprovalStore → String → Outcome ArtifactRow
find_artifact st id = elim (get id st.artifacts) [
  | none ↦ err artifact_not_found
  | some row ↦ ok row
]

-- `ApprovalRecord.consistent_decision`
unfoldable pub consistent_decision : RecordRow → Bool
consistent_decision row =
    if is_pending row.decision
    then not (is_some row.reviewer || is_some row.comment || is_some row.reviewed_at)
    else truthy row.reviewer && truthy row.comment && is_some row.reviewed_at

-- `_view`
unfoldable pub view : RecordRow → Outcome RecordRow
unfolding consistent_decision
view row = do raise_if (not (consistent_decision row)) invalid_record; ok row

-- `session.get(ApprovalRecordRow, approval_id)`, and its error
unfoldable pub find_record : ApprovalStore → String → Outcome RecordRow
find_record st id = elim (get id st.records) [ none ↦ err approval_not_found | some row ↦ ok row ]

-- `get`
unfoldable pub get_record : ApprovalStore → String → Outcome RecordRow
unfolding view find_record
get_record st id = do view (← find_record st id)

-- whether a record of the artifact is there, for the unique constraint
unfoldable pub has_record : String → Table RecordRow → Bool
has_record artifact_id [] = false
has_record artifact_id ((k, row) ∷ t) =
    str_eq row.artifact_id artifact_id || has_record artifact_id t

unfoldable pub has_run : String → Table ArtifactRow → Bool
has_run run_id [] = false
has_run run_id ((k, row) ∷ t) = str_eq row.workflow_run_id run_id || has_run run_id t

-- the row of a submitted draft
abbrev pub submitted : ArtifactRow → ArtifactRow
submitted row = record row { status = ArtifactStatus.pending_review }

abbrev pub pending_record : String → ArtifactRow → ℕ → RecordRow
pending_record artifact_id row now = record {
  workflow_run_id = row.workflow_run_id;
  artifact_id = artifact_id;
  artifact_version = row.artifact_version;
  metric_name = row.metric_name;
  metric_ir_hash = row.metric_ir_hash;
  artifact_hash = row.artifact_hash;
  reviewer = none;
  decision = Decision.pending;
  comment = none;
  created_at = now;
  reviewed_at = none;
}

abbrev pub decided_record : RecordRow → DecisionRequest → ℕ → RecordRow
decided_record row request now = record row {
  decision = decision_of request.verdict;
  reviewer = some request.reviewer;
  comment = some request.comment;
  reviewed_at = some now;
}

module _ (canonical_hash : MetricIr → String) (artifact_content_hash : Artifact → String) where
  -- the condition of `_verify`, for an artifact of the right schema
  unfoldable pub is_unchanged : String → ArtifactRow → String → String → Artifact → Bool
  is_unchanged artifact_id row ir_hash sql_hash artifact =
      str_eq (canonical_hash row.snapshot.metric_ir) row.metric_ir_hash
      && str_eq row.metric_ir_hash ir_hash
      && str_eq (artifact_content_hash artifact) row.artifact_hash
      && str_eq row.artifact_hash sql_hash
      && str_eq sql_hash artifact.content_hash
      && str_eq artifact.artifact_id artifact_id
      && same_version artifact.artifact_version row.artifact_version
      && str_eq row.snapshot.workflow_run_id row.workflow_run_id
      && str_eq artifact.metric_name row.metric_name
      && str_eq row.metric_name row.snapshot.metric_ir.name

  -- `_verify`
  unfoldable pub verify : String → ArtifactRow → String → String → Outcome (Unit {0})
  verify artifact_id row ir_hash sql_hash = elim row.snapshot.artifact [
    | none ↦ err stored_schema_changed
    | some artifact ↦
        raise_if (not (is_unchanged artifact_id row ir_hash sql_hash artifact)) content_changed
  ]

  -- the row that `save_draft` adds, of the result of a development workflow
  abbrev pub draft_row : Artifact → MetricIr → String → Bool → ℕ → ArtifactRow
  draft_row artifact metric run_id valid now = record {
    workflow_run_id = run_id;
    artifact_version = artifact.artifact_version;
    metric_name = metric.name;
    metric_ir_hash = canonical_hash metric;
    artifact_hash = artifact.content_hash;
    status = ArtifactStatus.draft;
    snapshot = record {
      artifact = some artifact;
      metric_ir = metric;
      workflow_run_id = run_id;
      valid = valid;
    };
    created_at = now;
  }

  -- `save_draft`
  unfoldable pub save_draft :
      ℕ → ApprovalStore → Artifact → MetricIr → String → Bool → Outcome ApprovalStore
  unfolding has_run
  save_draft now st artifact metric run_id valid = do
    raise_if (is_some (get artifact.artifact_id st.artifacts) || has_run run_id st.artifacts)
        integrity_error
    ok (record st {
      artifacts =
          put artifact.artifact_id (draft_row artifact metric run_id valid now) st.artifacts;
    })

  -- `submit`; the view of the pending record is the record itself
  unfoldable pub submit :
      ℕ → String → ApprovalStore → SubmitReview → Outcome (ApprovalStore × RecordRow)
  unfolding verify find_artifact
  submit now approval_id st request = do
    row ← find_artifact st request.artifact_id
    verify request.artifact_id row request.metric_ir_hash request.artifact_hash
    raise_if (not row.snapshot.valid) not_validated
    raise_if (not (is_draft row.status)) not_a_draft
    raise_if (has_record request.artifact_id st.records || is_some (get approval_id st.records))
        already_submitted
    let new = pending_record request.artifact_id row now
    ok (
      record {
        artifacts = put request.artifact_id (submitted row) st.artifacts;
        records = put approval_id new st.records;
      },
      new,
    )

  -- `decide`, up to its commit, with the record that it returns a view of
  unfoldable pub decide :
      ℕ → ApprovalStore → String → DecisionRequest → Outcome (ApprovalStore × RecordRow)
  unfolding verify find_artifact find_record
  decide now st approval_id request = do
    row ← find_record st approval_id
    artifact ← find_artifact st row.artifact_id
    verify row.artifact_id artifact row.metric_ir_hash row.artifact_hash
    raise_if (not (is_pending row.decision)) not_pending
    raise_if (not (is_pending_review artifact.status)) artifact_not_pending
    let decided = decided_record row request now
    ok (
      record {
        artifacts =
            put row.artifact_id (record artifact { status = decided_status request.verdict })
              st.artifacts;
        records = put approval_id decided st.records;
      },
      decided,
    )

  -- `require_approved`
  unfoldable pub require_approved : ApprovalStore → String → String → Outcome RecordRow
  unfolding verify find_artifact get_record
  require_approved st approval_id artifact_id = do
    row ← get_record st approval_id
    raise_if (not (str_eq row.artifact_id artifact_id)) different_artifact
    artifact ← find_artifact st artifact_id
    verify artifact_id artifact row.metric_ir_hash row.artifact_hash
    raise_if (not (is_approved row.decision) || not (is_approved_artifact artifact.status))
        not_approved
    ok row
