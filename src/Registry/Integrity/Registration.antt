-- ===== src/Registry/Integrity/Registration.antt =====
-- `create_version` (src/airi/registry/service.py): its gate, the consistency of the registry's rows
-- over it, and its version among those of the family.
use airi.Prelude.{
  not-false, ℕ, String, ◌≡◌, refl, true, false, not, ◌||◌, Option, none, some, List, [], ◌∷◌, arith,
  ok, Ensures, Ensures-bind, Ensures-raise_if, Ensures-at, sym, subst, inl, inr, Bool-cases,
  Option-cases, Result-cases, All, str_eq, str_eq_iff,
}
use airi.Core.{version_lt}
use airi.Registry.Models.{MetricVersion, ReleaseEventType, Document}
use airi.Registry.Store.{Table, put, put-AllRows, AllRows, DefinitionRow, VersionRow, Store}
use airi.Registry.Session.{
  find_by_key, verify_version, metric_version_content_hash, metric_version_already_registered,
}
use airi.Registry.Writes.{log_event}
use airi.Registry.Versioning.{plan}
use airi.Registry.Versioning.Soundness.{str_eq_sound}
use airi.Registry.Family.{derive}
use airi.Registry.Registration.{
  PromotionDecision, is_approved, required, supported, ResearchChain, Lineage, promotion_lineage,
  versions_of, latest, is_registered, family_of, chosen, family_row, collides, provisional, sealed,
  registered_row, joined_row, register, create_version,
}
use airi.Registry.Integrity.{IsConsistent, DefinitionAgrees, VersionAgrees, log_event-IsConsistent}
use airi.Registry.Integrity.Reads.{Commits}
use airi.Registry.Registration.Order.{plan-newer}

find_by_key-AllRows :
    (key : String) (t : Table DefinitionRow) (k : String) (row : DefinitionRow)
    → AllRows DefinitionAgrees t
    → find_by_key key t ≡ some (k, row)
    → DefinitionAgrees k row
unfolding find_by_key
find_by_key-AllRows key [] k row all e = cc
find_by_key-AllRows key ((j, r) ∷ t) k row all e = elim (Bool-cases (str_eq r.metric_key key)) [
  | inl found ↦
      let same : r ≡ row = ground arith in
      subst (λ (x : DefinitionRow). DefinitionAgrees k x) same all.0
  | inr other ↦ find_by_key-AllRows key t k row all.1 (ground arith)
]

module _ (canonical_hash : Document → String) where
  verify_version-same :
      (row : VersionRow) {v : MetricVersion}
      → verify_version canonical_hash row ≡ ok v
      → v ≡ row.version_json
  unfolding verify_version
  verify_version-same row h = ground arith

  versions_of-skip :
      (id : String) (k : String) (row : VersionRow) (t : Table VersionRow) {vs : List MetricVersion}
      → str_eq row.metric_definition_id id ≡ false
      → versions_of canonical_hash id ((k, row) ∷ t) ≡ ok vs
      → versions_of canonical_hash id t ≡ ok vs
  unfolding versions_of
  versions_of-skip id k row t other e = ground arith

  versions_of-cons :
      (id : String) (k : String) (row : VersionRow) (t : Table VersionRow) {vs : List MetricVersion}
      → str_eq row.metric_definition_id id ≡ true
      → versions_of canonical_hash id ((k, row) ∷ t) ≡ ok vs
      → (us : List MetricVersion) × (versions_of canonical_hash id t ≡ ok us)
        × (vs ≡ row.version_json ∷ us)
  unfolding versions_of
  versions_of-cons id k row t same e = elim (Result-cases (verify_version canonical_hash row)) [
    | inr (x, bad) ↦ absurd (ground arith)
    | inl (v, good) ↦ elim (Result-cases (versions_of canonical_hash id t)) [
      | inr (x, bad) ↦ absurd (ground arith)
      | inl (us, rest) ↦ let doc = verify_version-same row good in (us, rest, ground arith)
    ]
  ]

  -- What holds of the versions that are read holds of every version row of the definition.
  pub versions_of-All :
      (id : String) (t : Table VersionRow) (P : MetricVersion → Type 0) (vs : List MetricVersion)
      → versions_of canonical_hash id t ≡ ok vs
      → All P vs
      → AllRows
          (λ (k : String) (row : VersionRow). row.metric_definition_id ≡ id → P row.version_json)
          t
  versions_of-All id [] P vs e all = tt
  versions_of-All id ((k, row) ∷ t) P vs e all =
      elim (Bool-cases (str_eq row.metric_definition_id id)) [
        | inl same ↦
            let (us, rest, shape) = versions_of-cons id k row t same e in
            let both : All P (row.version_json ∷ us) = subst (All P) shape all in
            ((λ _. both.0), versions_of-All id t P us rest both.1)
        | inr other ↦ (
          (λ one. absurd (ground (arith, str_eq_iff row.metric_definition_id id))),
          versions_of-All id t P vs (versions_of-skip id k row t other e) all,
        )
      ]

  -- Every version row of the family of `v` in `st` is older than `v`.
  abbrev pub IsNewest : Store → MetricVersion → Type 0
  IsNewest st v =
      AllRows
        (λ (k : String) (row : VersionRow).
          row.metric_definition_id ≡ v.metric_definition_id
          → version_lt row.version_json.version v.version ≡ true)
        st.versions

  register-IsNewest :
      (now : ℕ) (version_id definition_id : String) (st : Store) (l : Lineage)
      → Ensures
          (λ (x : Store × MetricVersion). IsNewest st x.1)
          (register canonical_hash now version_id definition_id st l)
  unfolding register log_event
  register-IsNewest now version_id definition_id st l =
      let P = λ (x : Store × MetricVersion). IsNewest st x.1 in
      let key = derive l.metric_ir.name in
      let family = family_of st definition_id key now in
      let d = family.1.definition_json in
      Ensures-raise_if P (is_registered l.review.promotion_review_id st.versions) _ _ λ _.
        Ensures-bind P (versions_of canonical_hash d.metric_definition_id st.versions) _
          λ versions read.
            let v = sealed canonical_hash (
              provisional version_id d key l (plan l.metric_ir (latest versions)) (latest versions)
                now) in
            Ensures-raise_if P
              (collides st version_id definition_id key d.metric_definition_id v.version)
              metric_version_already_registered _
              λ _.
                versions_of-All d.metric_definition_id st.versions
                  (λ (w : MetricVersion).
                    version_lt w.version (plan l.metric_ir (latest versions)).version ≡ true)
                  versions read (plan-newer l.metric_ir versions)

  -- A version that `create_version` registers is newer than every version of its family that the
  -- store held.
  pub create_version-IsNewest :
      (chain : ResearchChain) (now : ℕ) (version_id definition_id : String) (st : Store)
      (review_id : String)
      → Ensures
          (λ (x : Store × MetricVersion). IsNewest st x.1)
          (create_version canonical_hash chain now version_id definition_id st review_id)
  unfolding create_version
  create_version-IsNewest chain now version_id definition_id st review_id =
      Ensures-bind (λ (x : Store × MetricVersion). IsNewest st x.1)
        (promotion_lineage canonical_hash chain review_id) _
        λ l _. register-IsNewest now version_id definition_id st l

  -- A lineage whose review is approved and whose documents have the digests that the review names.
  abbrev pub IsVerified : Lineage → Type 0
  IsVerified l =
      (l.review.decision ≡ PromotionDecision.approved_for_versioning)
      × (l.review.evidence_digest ≡ l.review.evidence_hash)
      × (l.report.digest ≡ l.review.temporal_report_hash)
      × (l.review.refinement.digest ≡ l.review.refinement_report_hash)
      × (l.extracted.artifact_id ≡ l.review.refinement.candidate_artifact_id)
      × (l.extracted.artifact_hash ≡ l.review.refinement.candidate_content_hash)
      × (l.extracted.metric_ir_hash ≡ l.review.refinement.metric_ir_hash)
      × (canonical_hash (Document.metric_ir l.metric_ir) ≡ l.extracted.metric_ir_hash)

  -- Only an approved promotion whose evidence, temporal report, refinement, artifact and metric are
  -- unchanged since its review opens the gate.
  pub promotion_lineage-IsVerified :
      (chain : ResearchChain) (review_id : String)
      → Ensures IsVerified (promotion_lineage canonical_hash chain review_id)
  unfolding promotion_lineage
  promotion_lineage-IsVerified chain review_id =
      let P = IsVerified in
      Ensures-bind P (chain.review review_id) _ λ review _.
        Ensures-raise_if P (not (is_approved review.decision)) _ _ λ approved.
          Ensures-raise_if P (not (str_eq review.evidence_digest review.evidence_hash)) _ _
            λ evidence.
              Ensures-bind P (chain.temporal_report review.temporal_validation_run_id) _ λ report _.
                Ensures-raise_if P (not (str_eq report.digest review.temporal_report_hash)) _ _
                  λ temporal.
                    Ensures-raise_if P
                      (not (str_eq review.refinement.digest review.refinement_report_hash)) _ _
                      λ refinement.
                        Ensures-bind P (required review.refinement.experiment_run_id) _ λ run _.
                          Ensures-bind P (chain.extract run) _ λ extracted _.
                            Ensures-bind P (supported extracted.metric_ir) _ λ metric _.
                              Ensures-raise_if P
                                (not (
                                    str_eq extracted.artifact_id
                                      review.refinement.candidate_artifact_id)
                                  || not (
                                      str_eq extracted.artifact_hash
                                        review.refinement.candidate_content_hash)
                                  || not (
                                      str_eq extracted.metric_ir_hash
                                        review.refinement.metric_ir_hash)
                                  || not (
                                      str_eq (canonical_hash (Document.metric_ir metric))
                                        extracted.metric_ir_hash))
                                _ _
                                λ same. (
                                  ground arith,
                                  str_eq_sound _ _ (not-false _ evidence),
                                  str_eq_sound _ _ (not-false _ temporal),
                                  str_eq_sound _ _ (not-false _ refinement),
                                  ground (
                                    arith,
                                    str_eq_iff extracted.artifact_id
                                        review.refinement.candidate_artifact_id,
                                  ),
                                  ground (
                                    arith,
                                    str_eq_iff extracted.artifact_hash
                                        review.refinement.candidate_content_hash,
                                  ),
                                  ground (
                                    arith,
                                    str_eq_iff extracted.metric_ir_hash
                                        review.refinement.metric_ir_hash,
                                  ),
                                  ground (
                                    arith,
                                    str_eq_iff (canonical_hash (Document.metric_ir metric))
                                        extracted.metric_ir_hash,
                                  ),
                                )

  -- The family's row: an existing one of a consistent table, or a new one whose columns agree.
  family_of-DefinitionAgrees :
      (st : Store) (id key : String) (now : ℕ)
      → AllRows DefinitionAgrees st.definitions
      → DefinitionAgrees (family_of st id key now).0 (family_of st id key now).1
  family_of-DefinitionAgrees st id key now all =
      let P = λ (o : Option (String × DefinitionRow)).
        DefinitionAgrees (chosen o (id, family_row id key now)).0
          (chosen o (id, family_row id key now)).1 in
      elim (Option-cases (find_by_key key st.definitions)) [
        | inl missing ↦ subst P (sym missing) (refl, refl)
        | inr ((k, row), found) ↦
            subst P (sym found) (find_by_key-AllRows key st.definitions k row all found)
      ]

  register-IsConsistent :
      (now : ℕ) (version_id definition_id : String) (st : Store) (l : Lineage)
      → canonical_hash (Document.metric_ir l.metric_ir) ≡ l.extracted.metric_ir_hash
      → IsConsistent canonical_hash st
      → Ensures (Commits canonical_hash) (register canonical_hash now version_id definition_id st l)
  unfolding register metric_version_content_hash
  register-IsConsistent now version_id definition_id st l hash c =
      let P : Store × MetricVersion → Type 0 = Commits canonical_hash in
      let key = derive l.metric_ir.name in
      let family = family_of st definition_id key now in
      let d = family.1.definition_json in
      Ensures-raise_if P (is_registered l.review.promotion_review_id st.versions) _ _ λ _.
        Ensures-bind P (versions_of canonical_hash d.metric_definition_id st.versions) _
          λ versions read.
            let v = sealed canonical_hash (
              provisional version_id d key l (plan l.metric_ir (latest versions)) (latest versions)
                now) in
            Ensures-raise_if P
              (collides st version_id definition_id key d.metric_definition_id v.version)
              metric_version_already_registered _
              λ _.
                let agrees = family_of-DefinitionAgrees st definition_id key now c.definitions in
                let next : Store = record st {
                  definitions = put family.0 (joined_row family.1 v now) st.definitions;
                  versions = put version_id (registered_row d v now) st.versions;
                } in
                log_event-IsConsistent canonical_hash now next d.metric_definition_id
                  ReleaseEventType.version_registered "registry-service" (some version_id) none
                  (record {
                    definitions =
                        put-AllRows DefinitionAgrees family.0 (joined_row family.1 v now)
                          st.definitions c.definitions agrees;
                    versions =
                        put-AllRows (VersionAgrees canonical_hash) version_id
                          (registered_row d v now) st.versions c.versions
                          (refl, hash, hash, refl, refl);
                    releases = c.releases;
                    validations = c.validations;
                    reviews = c.reviews;
                    rollbacks = c.rollbacks;
                    distinct = c.distinct;
                  })

  -- From a consistent store, every registration of a version that commits leaves a consistent store.
  pub create_version-IsConsistent :
      (chain : ResearchChain) (now : ℕ) (version_id definition_id : String) (st : Store)
      (review_id : String)
      → IsConsistent canonical_hash st
      → Ensures
          (Commits canonical_hash)
          (create_version canonical_hash chain now version_id definition_id st review_id)
  unfolding create_version
  create_version-IsConsistent chain now version_id definition_id st review_id c =
      Ensures-bind (Commits canonical_hash) (promotion_lineage canonical_hash chain review_id) _
        λ l e.
          let verified =
            Ensures-at IsVerified (promotion_lineage canonical_hash chain review_id)
              (promotion_lineage-IsVerified chain review_id) e in
          register-IsConsistent now version_id definition_id st l verified.7 c
