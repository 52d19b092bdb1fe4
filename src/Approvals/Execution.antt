-- ===== src/Approvals/Execution.antt =====
-- The gate of execution: what passes `require_approved` (src/airi/approvals/service.py).
use airi.Prelude.{
  String, ◌≡◌, Bool, true, not, ◌&&◌, ◌||◌, some, arith, str_eq, str_eq_iff, get, ◌∙◌, ok, Ensures,
  Ensures-bind, Ensures-raise_if, Ensures-at, Option-cases, inl, inr,
}
use airi.MetricIr.Models.{MetricIr}
use airi.Approvals.Service.{
  ArtifactStatus, Decision, Artifact, ArtifactRow, RecordRow, ApprovalStore, is_approved_artifact,
  is_approved, find_artifact, consistent_decision, view, find_record, get_record, is_unchanged,
  verify, require_approved,
}
use airi.Approvals.Governance.{find_artifact-eq-ok}

get_record-Ensures :
    (st : ApprovalStore) (id : String)
    → Ensures (λ (r : RecordRow). consistent_decision r ≡ true) (get_record st id)
unfolding get_record view
get_record-Ensures st id =
    let P = λ (r : RecordRow). consistent_decision r ≡ true in
    Ensures-bind P (find_record st id) _
      λ row _. Ensures-raise_if P (not (consistent_decision row)) _ _ λ sound. ground arith

get_record-consistent :
    (st : ApprovalStore) (id : String) {row : RecordRow}
    → get_record st id ≡ ok row
    → consistent_decision row ≡ true
get_record-consistent st id {row} h =
    Ensures-at (λ (r : RecordRow). consistent_decision r ≡ true) (get_record st id)
      (get_record-Ensures st id) h

first_four :
    (a b c d e f g h i j : Bool)
    → a && b && c && d && e && f && g && h && i && j ≡ true
    → (a ≡ true) × (b ≡ true) × (c ≡ true) × (d ≡ true)
first_four a b c d e f g h i j all = ground arith

module _ (canonical_hash : MetricIr → String) (artifact_content_hash : Artifact → String) where
  is_unchanged-digests :
      (artifact_id : String) (row : ArtifactRow) (ir_hash sql_hash : String) (artifact : Artifact)
      → is_unchanged canonical_hash artifact_content_hash artifact_id row ir_hash sql_hash artifact
        ≡ true
      → (artifact_content_hash artifact ≡ sql_hash)
        × (canonical_hash row.snapshot.metric_ir ≡ ir_hash)
  unfolding is_unchanged
  is_unchanged-digests artifact_id row ir_hash sql_hash artifact h =
      let (a, b, c, d) = first_four _ _ _ _ _ _ _ _ _ _ h in
      (
        (str_eq_iff (artifact_content_hash artifact) row.artifact_hash).0 c
            ∙ (str_eq_iff row.artifact_hash sql_hash).0 d,
        (str_eq_iff (canonical_hash row.snapshot.metric_ir) row.metric_ir_hash).0 a
            ∙ (str_eq_iff row.metric_ir_hash ir_hash).0 b,
      )

  verify-eq-ok :
      (artifact_id : String) (row : ArtifactRow) (ir_hash sql_hash : String) {u : Unit {0}}
      → verify canonical_hash artifact_content_hash artifact_id row ir_hash sql_hash ≡ ok u
      → (artifact : Artifact) × (row.snapshot.artifact ≡ some artifact)
        × (is_unchanged canonical_hash artifact_content_hash artifact_id row ir_hash sql_hash
              artifact
            ≡ true)
  unfolding verify
  verify-eq-ok artifact_id row ir_hash sql_hash h = elim (Option-cases row.snapshot.artifact) [
    | inl missing ↦ absurd (ground arith)
    | inr (artifact, there) ↦ (artifact, there, ground arith)
  ]

  -- What may be executed: the record's artifact is approved, and the stored text and metric have the
  -- digests that were reviewed.
  abbrev pub IsExecutable : ApprovalStore → String → RecordRow → Type 0
  IsExecutable st artifact_id row =
      (row.artifact_id ≡ artifact_id)
      × (row.decision ≡ Decision.approved)
      × (consistent_decision row ≡ true)
      × (stored : ArtifactRow) × (artifact : Artifact) × (get artifact_id st.artifacts
          ≡ some stored)
      × (stored.snapshot.artifact ≡ some artifact)
      × (stored.status ≡ ArtifactStatus.approved)
      × (artifact_content_hash artifact ≡ row.artifact_hash)
      × (canonical_hash stored.snapshot.metric_ir ≡ row.metric_ir_hash)

  -- What `require_approved` lets pass is a decided approval of that very artifact, whose stored text
  -- and metric still have the digests under review.
  pub require_approved-IsExecutable :
      (st : ApprovalStore) (approval_id artifact_id : String)
      → Ensures
          (IsExecutable st artifact_id)
          (require_approved canonical_hash artifact_content_hash st approval_id artifact_id)
  unfolding require_approved get_record view
  require_approved-IsExecutable st approval_id artifact_id =
      let P = IsExecutable st artifact_id in
      Ensures-bind P (get_record st approval_id) _ λ row read.
        Ensures-raise_if P (not (str_eq row.artifact_id artifact_id)) _ _ λ mine.
          Ensures-bind P (find_artifact st artifact_id) _ λ stored found.
            Ensures-bind P
              (verify canonical_hash artifact_content_hash artifact_id stored row.metric_ir_hash
                row.artifact_hash)
              _
              λ _ checked.
                Ensures-raise_if P
                  (not (is_approved row.decision) || not (is_approved_artifact stored.status)) _ _
                  λ approved.
                    let (artifact, schema, same) =
                      verify-eq-ok artifact_id stored row.metric_ir_hash row.artifact_hash
                        checked in
                    let (sql, ir) =
                      is_unchanged-digests artifact_id stored row.metric_ir_hash row.artifact_hash
                        artifact same in
                    (
                      ground (arith, str_eq_iff row.artifact_id artifact_id),
                      ground arith,
                      get_record-consistent st approval_id read,
                      stored,
                      artifact,
                      find_artifact-eq-ok st artifact_id found,
                      schema,
                      ground arith,
                      sql,
                      ir,
                    )
