-- ===== src/Approvals/Runs.antt =====
-- Runs of `ApprovalService` (src/airi/approvals/service.py): calls that commit, in any order.
use airi.Prelude.{ℕ, String, ◌≡◌, ◌≢◌, Bool, true, some, arith, subst, get, ok, Ensures-at}
use airi.MetricIr.Models.{MetricIr}
use airi.Approvals.Service.{
  ArtifactStatus, Decision, Artifact, ArtifactRow, RecordRow, ApprovalStore, SubmitReview,
  DecisionRequest, consistent_decision, save_draft, submit, decide,
}
use airi.Approvals.Governance.{
  IsGoverned, IsWritten, status_of, save_draft-IsGoverned, submit-IsGoverned, decide-IsGoverned,
}

status_of-approved : (d : Decision) → status_of d ≡ ArtifactStatus.approved → d ≡ Decision.approved
status_of-approved d h = ground arith

module _ (canonical_hash : MetricIr → String) (artifact_content_hash : Artifact → String) where
  -- A call that commits; the texts of a decision are not empty, by its schema.
  pub data Step : ApprovalStore → ApprovalStore → Type 0 where
    drafted :
        (now : ℕ) {st : ApprovalStore} (artifact : Artifact) (metric : MetricIr) (run_id : String)
        (valid : Bool) {st' : ApprovalStore}
        → save_draft canonical_hash artifact_content_hash now st artifact metric run_id valid
          ≡ ok st'
        → Step st st'
    submitted :
        (now : ℕ) (approval_id : String) {st : ApprovalStore} (request : SubmitReview)
        {st' : ApprovalStore} {r : RecordRow}
        → submit canonical_hash artifact_content_hash now approval_id st request ≡ ok (st', r)
        → Step st st'
    decided :
        (now : ℕ) {st : ApprovalStore} (approval_id : String) (request : DecisionRequest)
        {st' : ApprovalStore} {r : RecordRow}
        → IsWritten request
        → decide canonical_hash artifact_content_hash now st approval_id request ≡ ok (st', r)
        → Step st st'

  pub data Run : ApprovalStore → ApprovalStore → Type 0 where
    here : {st : ApprovalStore} → Run st st
    then : {st mid st' : ApprovalStore} → Run st mid → Step mid st' → Run st st'

  Step-IsGoverned : {st st' : ApprovalStore} → Step st st' → IsGoverned st → IsGoverned st'
  Step-IsGoverned (drafted now {st} artifact metric run_id valid h) g =
      Ensures-at IsGoverned _
        (save_draft-IsGoverned canonical_hash artifact_content_hash now st artifact metric run_id
          valid g)
        h
  Step-IsGoverned (submitted now approval_id {st} request h) g =
      Ensures-at (λ (x : ApprovalStore × RecordRow). IsGoverned x.0) _
        (submit-IsGoverned canonical_hash artifact_content_hash now approval_id st request g) h
  Step-IsGoverned (decided now {st} approval_id request written h) g =
      Ensures-at (λ (x : ApprovalStore × RecordRow). IsGoverned x.0) _
        (decide-IsGoverned canonical_hash artifact_content_hash now st approval_id request written
          g)
        h

  -- In every run of committed calls from a governed store, such as the empty one, records and
  -- artifacts stay governed: statuses and decisions agree, and an artifact has one record at most.
  pub Run-IsGoverned : {st st' : ApprovalStore} → Run st st' → IsGoverned st → IsGoverned st'
  Run-IsGoverned here g = g
  Run-IsGoverned (then run step) g = Step-IsGoverned step (Run-IsGoverned run g)

  -- The approval of an artifact: by a named reviewer, of the digests that the artifact has.
  abbrev pub HasApproval : ApprovalStore → String → ArtifactRow → Type 0
  HasApproval st id artifact =
      (key : String) × (row : RecordRow) × (get key st.records ≡ some row)
      × (row.artifact_id ≡ id)
      × (row.decision ≡ Decision.approved)
      × (consistent_decision row ≡ true)
      × (artifact.metric_ir_hash ≡ row.metric_ir_hash)
      × (artifact.artifact_hash ≡ row.artifact_hash)

  -- No artifact becomes approved without a review: in every store that a run of committed calls
  -- reaches from a governed one, an approved artifact has a record that approves its digests, with
  -- reviewer, comment and time.
  pub Run-HasApproval :
      {st st' : ApprovalStore} (id : String) (artifact : ArtifactRow)
      → Run st st'
      → IsGoverned st
      → get id st'.artifacts ≡ some artifact
      → artifact.status ≡ ArtifactStatus.approved
      → HasApproval st' id artifact
  Run-HasApproval {st} {st'} id artifact run g found approved =
      let g' = Run-IsGoverned run g in
      let later : artifact.status ≢ ArtifactStatus.draft = λ is_draft. ground arith in
      let (key, row, at, names) = g'.reviewed id artifact found later in
      let (mine, there, status, ir_hash, sql_hash, consistent) = g'.reviews key row at in
      let one : mine ≡ artifact =
        let e = subst (λ (x : String). get x st'.artifacts ≡ some mine) names there in
        ground arith in
      (
        key,
        row,
        at,
        names,
        status_of-approved row.decision (ground arith),
        consistent,
        ground arith,
        ground arith,
      )
