-- ===== src/Approvals/Governance.antt =====
-- The invariant of artifacts and their reviews, and the calls that keep it
-- (src/airi/approvals/service.py).
use airi.Prelude.{
  ℕ, String, ◌≡◌, refl, ◌≢◌, Bool, true, false, not, ◌||◌, some, [], ◌∷◌, arith, is_some, str_eq,
  str_eq_iff, truthy, Table, get, put, get-put_same, get-put_other, put-cases, ◌∙◌, ok, Ensures,
  Ensures-bind, Ensures-raise_if, sym, subst, ap, Bool-cases, inl, inr,
}
use airi.MetricIr.Models.{MetricIr}
use airi.Approvals.Service.{
  ArtifactStatus, Decision, Artifact, ArtifactRow, RecordRow, ApprovalStore, SubmitReview, Verdict,
  DecisionRequest, decided_status, decision_of, is_draft, is_pending_review, is_pending,
  find_artifact, consistent_decision, find_record, has_record, has_run, draft_row, save_draft,
  submitted, pending_record, decided_record, verify, submit, decide,
}

-- The status of an artifact under a decision.
abbrev pub status_of : Decision → ArtifactStatus
status_of Decision.pending = ArtifactStatus.pending_review
status_of Decision.approved = ArtifactStatus.approved
status_of Decision.rejected = ArtifactStatus.rejected

-- The artifact of a record: its status is the decision's, and its digests are those under review.
abbrev pub IsUnderReview : Table ArtifactRow → RecordRow → Type 0
IsUnderReview t row =
    (artifact : ArtifactRow) × (get row.artifact_id t ≡ some artifact)
    × (artifact.status ≡ status_of row.decision)
    × (artifact.metric_ir_hash ≡ row.metric_ir_hash)
    × (artifact.artifact_hash ≡ row.artifact_hash)
    × (consistent_decision row ≡ true)

-- The invariant of the two tables: each record's artifact is under its review, an artifact has one
-- record at most, and it has one where it is no draft.
pub record IsGoverned (st : ApprovalStore) : Type 0 where
  pub reviews :
      (id : String) (row : RecordRow)
      → get id st.records ≡ some row
      → IsUnderReview st.artifacts row
  pub single :
      (id id' : String) (row row' : RecordRow)
      → get id st.records ≡ some row
      → get id' st.records ≡ some row'
      → row.artifact_id ≡ row'.artifact_id
      → id ≡ id'
  pub reviewed :
      (id : String) (artifact : ArtifactRow)
      → get id st.artifacts ≡ some artifact
      → artifact.status ≢ ArtifactStatus.draft
      → (key : String) × (row : RecordRow) × (get key st.records ≡ some row)
        × (row.artifact_id ≡ id)

has_record-get :
    (artifact_id : String) (t : Table RecordRow) (k : String) (row : RecordRow)
    → has_record artifact_id t ≡ false
    → get k t ≡ some row
    → row.artifact_id ≢ artifact_id
unfolding has_record get
has_record-get artifact_id [] k row h e = cc
has_record-get artifact_id ((j, r) ∷ t) k row h e = elim (Bool-cases (str_eq j k)) [
  | inl same ↦ λ is_it. ground (arith, str_eq_iff r.artifact_id artifact_id)
  | inr other ↦ has_record-get artifact_id t k row (ground arith) (ground arith)
]

pub find_artifact-eq-ok :
    (st : ApprovalStore) (id : String) {row : ArtifactRow}
    → find_artifact st id ≡ ok row
    → get id st.artifacts ≡ some row
unfolding find_artifact
find_artifact-eq-ok st id h = ground arith

-- Replacing the row of one artifact leaves the reviews of the others.
put-IsUnderReview :
    (t : Table ArtifactRow) (id : String) (new : ArtifactRow) (row : RecordRow)
    → id ≢ row.artifact_id
    → IsUnderReview t row
    → IsUnderReview (put id new t) row
put-IsUnderReview t id new row apart (artifact, found, status, ir_hash, sql_hash, consistent) = (
  artifact,
  get-put_other id row.artifact_id new t apart ∙ found,
  status,
  ir_hash,
  sql_hash,
  consistent,
)

-- An artifact and its record change together.
both-IsGoverned :
    (st : ApprovalStore) (key : String) (new : RecordRow) (artifact : ArtifactRow)
    → IsGoverned st
    → ((id : String) (row : RecordRow)
        → get id st.records ≡ some row
        → id ≢ key
        → row.artifact_id ≢ new.artifact_id)
    → ((k : String) (row : RecordRow)
        → key ≡ k
        → get k st.records ≡ some row
        → row.artifact_id ≡ new.artifact_id)
    → IsUnderReview (put new.artifact_id artifact st.artifacts) new
    → IsGoverned (record {
      artifacts = put new.artifact_id artifact st.artifacts;
      records = put key new st.records;
    })
both-IsGoverned st key new artifact g alone kept review = record {
  reviews = λ id row e. elim (put-cases key id new st.records e) [
    | inl (_, same) ↦
        subst (IsUnderReview (put new.artifact_id artifact st.artifacts)) (sym same) review
    | inr (apart, old) ↦
        put-IsUnderReview st.artifacts new.artifact_id artifact row
          (λ e'. alone id row old apart (sym e')) (g.reviews id row old)
  ];
  single = λ id id' row row' e e' one. elim (put-cases key id new st.records e) [
    | inl (here, same) ↦ elim (put-cases key id' new st.records e') [
      | inl (here', same') ↦ here ∙ sym here'
      | inr (apart', old') ↦ absurd (alone id' row' old' apart' (cc (same, one)))
    ]
    | inr (apart, old) ↦ elim (put-cases key id' new st.records e') [
      | inl (here', same') ↦ absurd (alone id row old apart (cc (same', one)))
      | inr (apart', old') ↦ g.single id id' row row' old old' one
    ]
  ];
  reviewed = λ id row e later. elim (put-cases new.artifact_id id artifact st.artifacts e) [
    | inl (here, _) ↦ (key, new, get-put_same key new st.records, sym here)
    | inr (apart, old) ↦
        let (k, r, found, names) = g.reviewed id row old later in
        (
          k,
          r,
          get-put_other key k new st.records (λ is_key. apart (sym names ∙ kept k r is_key found))
              ∙ found,
          names,
        )
  ];
}

status-draft : (s : ArtifactStatus) → is_draft s ≡ true → s ≡ ArtifactStatus.draft
status-draft s h = ground arith

decided-status : (v : Verdict) → decided_status v ≡ status_of (decision_of v)
decided-status Verdict.approved = refl
decided-status Verdict.rejected = refl

-- A request whose texts are not empty, as its schema demands.
abbrev pub IsWritten : DecisionRequest → Type 0
IsWritten request = (truthy (some request.reviewer) ≡ true) × (truthy (some request.comment) ≡ true)

decided-consistent :
    (row : RecordRow) (request : DecisionRequest) (now : ℕ)
    → IsWritten request
    → consistent_decision (decided_record row request now) ≡ true
unfolding consistent_decision
decided-consistent row request now (reviewer, comment) =
    elim request.verdict
      as (λ v.
        consistent_decision (decided_record row (record request { verdict = v }) now) ≡ true) [
          | Verdict.approved ↦ ground arith
          | Verdict.rejected ↦ ground arith
        ]

pub find_record-eq-ok :
    (st : ApprovalStore) (id : String) {row : RecordRow}
    → find_record st id ≡ ok row
    → get id st.records ≡ some row
unfolding find_record
find_record-eq-ok st id h = ground arith

module _ (canonical_hash : MetricIr → String) (artifact_content_hash : Artifact → String) where
  pub save_draft-IsGoverned :
      (now : ℕ) (st : ApprovalStore) (artifact : Artifact) (metric : MetricIr) (run_id : String)
      (valid : Bool)
      → IsGoverned st
      → Ensures IsGoverned
          (save_draft canonical_hash artifact_content_hash now st artifact metric run_id valid)
  unfolding save_draft
  save_draft-IsGoverned now st artifact metric run_id valid g =
      let row = draft_row canonical_hash artifact_content_hash artifact metric run_id valid now in
      Ensures-raise_if IsGoverned
        (is_some (get artifact.artifact_id st.artifacts) || has_run run_id st.artifacts) _ _
        λ fresh. record {
          reviews = λ id r e.
              let old = g.reviews id r e in
              put-IsUnderReview st.artifacts artifact.artifact_id row r
                (λ is_it.
                  let there : get artifact.artifact_id st.artifacts ≡ some old.0 =
                    subst (λ (x : String). get x st.artifacts ≡ some old.0) (sym is_it) old.1 in
                  absurd (ground arith))
                old;
          single = g.single;
          reviewed = λ id r e later. elim (put-cases artifact.artifact_id id row st.artifacts e) [
            | inl (here, same) ↦ absurd (later (ap (λ (x : ArtifactRow). x.status) same))
            | inr (apart, old) ↦ g.reviewed id r old later
          ];
        }

  pub submit-IsGoverned :
      (now : ℕ) (approval_id : String) (st : ApprovalStore) (request : SubmitReview)
      → IsGoverned st
      → Ensures
          (λ (x : ApprovalStore × RecordRow). IsGoverned x.0)
          (submit canonical_hash artifact_content_hash now approval_id st request)
  unfolding submit consistent_decision
  submit-IsGoverned now approval_id st request g =
      let P = λ (x : ApprovalStore × RecordRow). IsGoverned x.0 in
      Ensures-bind P (find_artifact st request.artifact_id) _ λ row found.
        Ensures-bind P
          (verify canonical_hash artifact_content_hash request.artifact_id row
            request.metric_ir_hash request.artifact_hash)
          _
          λ _ _. Ensures-raise_if P (not row.snapshot.valid) _ _ λ _.
            Ensures-raise_if P (not (is_draft row.status)) _ _ λ draft.
              Ensures-raise_if P
                (has_record request.artifact_id st.records || is_some (get approval_id st.records))
                _ _
                λ fresh.
                  let new = pending_record request.artifact_id row now in
                  both-IsGoverned st approval_id new (submitted row) g
                    (λ id r e apart.
                      has_record-get request.artifact_id st.records id r (ground arith) e)
                    (λ k r is_key e. absurd (ground arith))
                    (
                      submitted row,
                      get-put_same request.artifact_id (submitted row) st.artifacts,
                      refl,
                      refl,
                      refl,
                      refl,
                    )

  pub decide-IsGoverned :
      (now : ℕ) (st : ApprovalStore) (approval_id : String) (request : DecisionRequest)
      → IsWritten request
      → IsGoverned st
      → Ensures
          (λ (x : ApprovalStore × RecordRow). IsGoverned x.0)
          (decide canonical_hash artifact_content_hash now st approval_id request)
  unfolding decide
  decide-IsGoverned now st approval_id request written g =
      let P = λ (x : ApprovalStore × RecordRow). IsGoverned x.0 in
      Ensures-bind P (find_record st approval_id) _ λ row read.
        let there = find_record-eq-ok st approval_id read in
        Ensures-bind P (find_artifact st row.artifact_id) _ λ artifact found.
          Ensures-bind P
            (verify canonical_hash artifact_content_hash row.artifact_id artifact row.metric_ir_hash
              row.artifact_hash)
            _
            λ _ _. Ensures-raise_if P (not (is_pending row.decision)) _ _ λ _.
              Ensures-raise_if P (not (is_pending_review artifact.status)) _ _ λ _.
                let new = decided_record row request now in
                let next : ArtifactRow = record artifact {
                  status = decided_status request.verdict;
                } in
                let (old, at, _, ir_hash, sql_hash, _) = g.reviews approval_id row there in
                let same : old ≡ artifact =
                  let e = find_artifact-eq-ok st row.artifact_id found in ground arith in
                both-IsGoverned st approval_id new next g
                  (λ id r e apart is_it. apart (g.single id approval_id r row e there is_it))
                  (λ k r is_key e. ground arith)
                  (
                    next,
                    get-put_same row.artifact_id next st.artifacts,
                    decided-status request.verdict,
                    ground arith,
                    ground arith,
                    decided-consistent row request now written,
                  )
