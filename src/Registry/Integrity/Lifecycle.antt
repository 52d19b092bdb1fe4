-- ===== src/Registry/Integrity/Lifecycle.antt =====
-- Consistency of the registry's rows over the calls that prepare a release or a rollback:
-- `create_release` and `request_rollback` (src/airi/registry/service.py).
use airi.Prelude.{
  ℕ, String, refl, Bool, none, some, Ensures, Ensures-weaken, Ensures-bind, Ensures-raise_if,
  Ensures-then, ap, inl, inr, Bool-cases, str_eq, ◌&&◌, not, is_some,
}
use airi.Registry.Models.{
  ReleaseStatus, ReleaseEventType, MetricVersionStatus, MetricVersion, MetricRelease,
  TargetEnvironment, Document,
}
use airi.Registry.Store.{get, put, put-AllRows, put-Distinct, Store}
use airi.Registry.Session.{
  definition_by_id, version_by_id, definition, version, same_version_status,
}
use airi.Registry.Writes.{transition, set_version_status}
use airi.Registry.Releases.{is_production, drafted, release_row, nominate, create_release}
use airi.Core.{Version}
use airi.Registry.Rollback.{requested_review, rollback_row, active_id, request_rollback}
use airi.Registry.Integrity.{
  RollbackAgrees, IsConsistent, ReleaseAgrees, GoodWith, set_version_status-GoodWith,
  log_event-IsConsistent,
}
use airi.Registry.Integrity.Reads.{transition-eq-ok, Commits}

module _ (canonical_hash : Document → String) where
  abbrev Good : Store → Type 0
  Good = IsConsistent canonical_hash

  nominate-Good : (st : Store) (v : MetricVersion) → Good st → Ensures Good (nominate st v)
  unfolding nominate
  nominate-Good st v c =
      elim (Bool-cases (same_version_status v.status MetricVersionStatus.registered)) [
        | inl fresh ↦ rw fresh (
            Ensures-weaken (GoodWith canonical_hash st.releases) Good
              (set_version_status st v.metric_version_id MetricVersionStatus.release_candidate)
              (set_version_status-GoodWith canonical_hash st v.metric_version_id
                MetricVersionStatus.release_candidate st.releases (c, refl))
              (λ st' g. g.0))
        | inr other ↦ rw other c
      ]

  -- Creating a release leaves the store consistent.
  pub create_release-IsConsistent :
      (production_verified : Bool) (now : ℕ) (id : String) (st : Store) (version_id : String)
      (environment : TargetEnvironment)
      → IsConsistent canonical_hash st
      → Ensures
          (Commits canonical_hash)
          (create_release canonical_hash production_verified now id st version_id environment)
  unfolding create_release
  create_release-IsConsistent verified now id st version_id environment c =
      let P = Commits canonical_hash in
      Ensures-bind P (version_by_id canonical_hash st version_id) _ λ v _.
        Ensures-raise_if P (is_production environment && not verified) _ _ λ _.
          Ensures-bind P (definition_by_id st v.metric_definition_id) _ λ d _.
            Ensures-bind P
              (transition (drafted id d v environment now) ReleaseStatus.pending_staging_validation)
              _
              λ r e.
                let same =
                  (transition-eq-ok (drafted id d v environment now)
                    ReleaseStatus.pending_staging_validation e).1 in
                Ensures-raise_if P (is_some (get id st.releases)) _ _ λ _.
                  let stored : Store = record st {
                    releases = put id (release_row r now) st.releases;
                  } in
                  let good : Good stored = record {
                    definitions = c.definitions;
                    versions = c.versions;
                    releases =
                        put-AllRows ReleaseAgrees id (release_row r now) st.releases c.releases (
                          refl,
                          refl,
                          refl,
                          refl,
                          refl,
                          ap (λ (x : MetricRelease). x.release_id) same,
                        );
                    validations = c.validations;
                    reviews = c.reviews;
                    rollbacks = c.rollbacks;
                    distinct = put-Distinct id (release_row r now) st.releases c.distinct;
                  } in
                  Ensures-then Good P (nominate stored v) _ (nominate-Good stored v good) λ st' c'.
                    log_event-IsConsistent canonical_hash now st' r.metric_definition_id
                      ReleaseEventType.release_created "registry-service" (some r.metric_version_id)
                      (some id) c'

  -- Requesting a rollback leaves the store consistent: the new review row holds its own digest.
  pub request_rollback-IsConsistent :
      (now : ℕ) (id : String) (st : Store) (metric_key : String) (target_version : Version)
      (reason : String)
      → IsConsistent canonical_hash st
      → Ensures
          (Commits canonical_hash)
          (request_rollback canonical_hash now id st metric_key target_version reason)
  unfolding request_rollback
  request_rollback-IsConsistent now id st metric_key target_version reason c =
      let P = Commits canonical_hash in
      Ensures-bind P (definition st metric_key) _ λ d _.
        Ensures-bind P (version canonical_hash st metric_key target_version) _ λ target _.
          Ensures-bind P (active_id canonical_hash d) _ λ old _.
            Ensures-bind P (version_by_id canonical_hash st old) _ λ active _.
              Ensures-raise_if P (str_eq active.metric_version_id target.metric_version_id) _ _ λ _.
                Ensures-raise_if P (is_some (get id st.rollbacks)) _ _ λ _.
                  let review = requested_review canonical_hash id d active target reason now in
                  let row = rollback_row canonical_hash review now in
                  let good : Good (record st { rollbacks = put id row st.rollbacks }) = record {
                    definitions = c.definitions;
                    versions = c.versions;
                    releases = c.releases;
                    validations = c.validations;
                    reviews = c.reviews;
                    rollbacks =
                        put-AllRows (RollbackAgrees canonical_hash) id row st.rollbacks c.rollbacks
                          (refl, refl);
                    distinct = c.distinct;
                  } in
                  log_event-IsConsistent canonical_hash now
                    (record st { rollbacks = put id row st.rollbacks }) d.metric_definition_id
                    ReleaseEventType.rollback_requested "registry-service"
                    (some target.metric_version_id) none good
