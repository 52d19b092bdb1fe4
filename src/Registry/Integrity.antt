-- ===== src/Registry/Integrity.antt =====
-- The integrity of the registry's rows: what every read of `RegistryService`
-- (src/airi/registry/service.py) demands of columns and stored documents, as one invariant of the
-- store, and that each single write keeps it.
pub mod Reads
pub mod Activation
pub mod Reconciliation
pub mod Lifecycle
pub mod Reviews
pub mod Registration
use airi.Prelude.{
  ℕ, String, ◌≡◌, refl, Bool, true, false, Option, none, some, List, [], ◌∷◌, arith, Result, ok,
  err, ◌>>=◌, Ensures, Ensures-bind, Ensures-raise_if, sym, ap, ◌∙◌, subst, inl, inr, Option-cases,
  str_eq, opt_eq, opt_eq_iff,
}
use airi.Registry.Models.{
  MetricVersionStatus, ReleaseStatus, ReleaseEventType, MetricVersion, MetricRelease, Document,
  content_of,
}
use airi.Registry.Store.{
  Table, get, put, get-put, Distinct, put-Distinct, AllRows, put-AllRows, get-AllRows,
  DefinitionRow, VersionRow, ReleaseRow, ValidationRow, ReleaseReviewRow, RollbackReviewRow, Store,
}
use airi.Registry.Session.{Outcome, get_row}
use airi.Registry.Writes.{
  transition, saved_release, save_release, log_event, with_status, set_version_status, pointed_row,
  move_pointer, or_raise,
}

-- The pointer column and the key column agree with the stored definition.
abbrev pub DefinitionAgrees : String → DefinitionRow → Type 0
DefinitionAgrees k row =
    let d = row.definition_json in
    (row.active_version_id ≡ d.active_version_id) × (row.metric_key ≡ d.metric_key)

-- The columns that every read of a release compares with its document, and its identity.
abbrev pub ReleaseAgrees : String → ReleaseRow → Type 0
ReleaseAgrees k row =
    let r = row.release_json in
    (row.status ≡ r.status)
    × (row.version ≡ r.version)
    × (row.target_environment ≡ r.target_environment)
    × (row.release_policy_version ≡ r.release_policy.version)
    × (row.metric_version_id ≡ r.metric_version_id)
    × (r.release_id ≡ k)

module _ (canonical_hash : Document → String) where
  abbrev pub VersionAgrees : String → VersionRow → Type 0
  VersionAgrees k row =
      let v = row.version_json in
      (canonical_hash (Document.version_content (content_of v)) ≡ row.content_hash)
      × (canonical_hash (Document.metric_ir v.metric_ir) ≡ row.metric_ir_hash)
      × (canonical_hash (Document.metric_ir v.metric_ir) ≡ v.metric_ir_hash)
      × (row.artifact_hash ≡ v.artifact_hash)
      × (row.status ≡ v.status)

  abbrev pub ValidationAgrees : String → ValidationRow → Type 0
  ValidationAgrees k row =
      let report = row.report_json in
      (canonical_hash (Document.validation_report report) ≡ row.report_hash)
      × (report.release_eligibility ≡ row.release_eligibility)
      × (report.status ≡ row.status)

  abbrev pub ReviewAgrees : String → ReleaseReviewRow → Type 0
  ReviewAgrees k row =
      let review = row.review_json in
      (canonical_hash (Document.release_review review) ≡ row.review_hash)
      × (review.decision ≡ row.decision)

  abbrev pub RollbackAgrees : String → RollbackReviewRow → Type 0
  RollbackAgrees k row =
      let review = row.review_json in
      (canonical_hash (Document.rollback_review review) ≡ row.review_hash)
      × (review.decision ≡ row.decision)

  -- Every row passes the checks that the reads make.
  pub record IsConsistent (st : Store) : Type 0 where
    pub definitions : AllRows DefinitionAgrees st.definitions
    pub versions : AllRows VersionAgrees st.versions
    pub releases : AllRows ReleaseAgrees st.releases
    pub validations : AllRows ValidationAgrees st.validations
    pub reviews : AllRows ReviewAgrees st.reviews
    pub rollbacks : AllRows RollbackAgrees st.rollbacks
    pub distinct : Distinct st.releases

pub get_row-eq-ok :
    {R : Type 0} (t : Table R) (k : String) {r : R} → get_row t k ≡ ok r → get k t ≡ some r
unfolding get_row
get_row-eq-ok t k h = ground arith

-- A release that a read returned: it is the document of the row of its own identifier.
abbrev pub IsStored : Table ReleaseRow → MetricRelease → Type 0
IsStored t r = (row : ReleaseRow) × (get r.release_id t ≡ some row) × (row.release_json ≡ r)

-- A release keeps its identity: the fields that its row repeats, the status apart.
abbrev pub SameIdentity : MetricRelease → MetricRelease → Type 0
SameIdentity r s =
    (s.version ≡ r.version)
    × (s.target_environment ≡ r.target_environment)
    × (s.release_policy.version ≡ r.release_policy.version)
    × (s.metric_version_id ≡ r.metric_version_id)
    × (s.release_id ≡ r.release_id)

-- A release that may be saved: a row of its identifier holds a release of its identity.
abbrev pub IsKnown : Table ReleaseRow → MetricRelease → Type 0
IsKnown t r = (row : ReleaseRow) × (get r.release_id t ≡ some row) × SameIdentity row.release_json r

pub IsStored-IsKnown :
    (t : Table ReleaseRow) (r s : MetricRelease) → IsStored t r → SameIdentity r s → IsKnown t s
IsStored-IsKnown t r s (row, found, same) keeps = (row, cc (found, keeps.4), ground arith)

saved_release-ReleaseAgrees :
    (k : String) (row : ReleaseRow) (r : MetricRelease) (now : ℕ)
    → ReleaseAgrees k row
    → SameIdentity row.release_json r
    → ReleaseAgrees k (saved_release row r now)
saved_release-ReleaseAgrees k row r now agrees keeps = ground arith

pub found_twice :
    {R : Type 0} (t : Table R) (j k : String) {r s : R}
    → j ≡ k
    → get j t ≡ some r
    → get k t ≡ some s
    → s ≡ r
found_twice t j k e p q = cc

module _ (canonical_hash : Document → String) where
  -- `Consistent` of this digest
  abbrev Good : Store → Type 0
  Good = IsConsistent canonical_hash

  -- The store is consistent and its releases are those of `t`.
  abbrev pub GoodWith : Table ReleaseRow → Store → Type 0
  GoodWith t st = IsConsistent canonical_hash st × (st.releases ≡ t)

  pub set_version_status-GoodWith :
      (st : Store) (id : String) (status : MetricVersionStatus) (t : Table ReleaseRow)
      → GoodWith t st
      → Ensures (GoodWith t) (set_version_status st id status)
  unfolding set_version_status
  set_version_status-GoodWith st id status t (c, same) =
      Ensures-bind (GoodWith t) (get_row st.versions id) _ λ row found.
        let old =
          get-AllRows (VersionAgrees canonical_hash) id st.versions c.versions
            (get_row-eq-ok st.versions id found) in
        (
          record {
            definitions = c.definitions;
            versions =
                put-AllRows (VersionAgrees canonical_hash) id (with_status row status) st.versions
                  c.versions (old.0, old.1, old.2, old.3, refl);
            releases = c.releases;
            validations = c.validations;
            reviews = c.reviews;
            rollbacks = c.rollbacks;
            distinct = c.distinct;
          },
          same,
        )

  pub save_release-IsConsistent :
      (now : ℕ) (st : Store) (r : MetricRelease)
      → Good st
      → IsKnown st.releases r
      → Ensures Good (save_release now st r)
  unfolding save_release
  save_release-IsConsistent now st r c (row, known, keeps) =
      Ensures-bind Good (get_row st.releases r.release_id) _ λ row' found.
        let at = get_row-eq-ok st.releases r.release_id found in
        let one : row' ≡ row = found_twice st.releases _ _ refl known at in
        record {
          definitions = c.definitions;
          versions = c.versions;
          releases =
              put-AllRows ReleaseAgrees r.release_id (saved_release row' r now) st.releases
                c.releases
                (saved_release-ReleaseAgrees r.release_id row' r now
                  (get-AllRows ReleaseAgrees r.release_id st.releases c.releases at)
                  (subst (λ (x : ReleaseRow). SameIdentity x.release_json r) (sym one) keeps));
          validations = c.validations;
          reviews = c.reviews;
          rollbacks = c.rollbacks;
          distinct = put-Distinct r.release_id (saved_release row' r now) st.releases c.distinct;
        }

  pub move_pointer-GoodWith :
      (now : ℕ) (st : Store) (id : String) (expected : Option String) (version_id : String)
      (t : Table ReleaseRow) {st' : Store}
      → GoodWith t st
      → move_pointer now st id expected version_id ≡ some st'
      → GoodWith t st'
  unfolding move_pointer
  move_pointer-GoodWith now st id expected version_id t {st'} (c, same) moved =
      elim (Option-cases (get id st.definitions)) [
        | inl missing ↦ absurd (ground arith)
        | inr (row, found) ↦
            let next : Store = record st {
              definitions = put id (pointed_row row version_id now) st.definitions;
            } in
            let result : next ≡ st' = ground arith in
            let old = get-AllRows DefinitionAgrees id st.definitions c.definitions found in
            let good : GoodWith t next = (
              record {
                definitions =
                    put-AllRows DefinitionAgrees id (pointed_row row version_id now) st.definitions
                      c.definitions (refl, old.1);
                versions = c.versions;
                releases = c.releases;
                validations = c.validations;
                reviews = c.reviews;
                rollbacks = c.rollbacks;
                distinct = c.distinct;
              },
              same,
            ) in
            subst (GoodWith t) result good
      ]

  -- A record in the audit log touches no table.
  pub log_event-IsConsistent :
      (now : ℕ) (st : Store) (id : String) (event : ReleaseEventType) (actor : String)
      (version_id release_id : Option String)
      → Good st
      → Good (log_event now st id event actor version_id release_id)
  unfolding log_event
  log_event-IsConsistent now st id event actor version_id release_id c = record {
    definitions = c.definitions;
    versions = c.versions;
    releases = c.releases;
    validations = c.validations;
    reviews = c.reviews;
    rollbacks = c.rollbacks;
    distinct = c.distinct;
  }
