-- ===== src/Registry/Runs.antt =====
-- The registry as a state machine: a step is a call of `RegistryService` that commits
-- (src/airi/registry/service.py), a run a sequence of them.
use airi.Prelude.{
  ℕ, String, ◌≡◌, refl, some, arith, subst, ◌⊎◌, inl, inr, Bool, true, Option, ok, Ensures-at,
}
use airi.Core.{Version}
use airi.Registry.Models.{
  ReleaseStatus, TargetEnvironment, MetricRelease, ReleaseReview, RollbackReview,
  ReleaseValidationReport, ReleaseDecisionRequest, RollbackDecisionRequest, Document,
}
use airi.Registry.Store.{get, ReleaseRow, Store}
use airi.Registry.Writes.{release_transitions}
use airi.Registry.Models.{MetricVersion}
use airi.Registry.Registration.{ResearchChain, create_version}
use airi.Registry.Integrity.Registration.{create_version-IsConsistent}
use airi.Registry.Releases.{ReleaseEvidence, create_release, validate, create_review}
use airi.Registry.Decisions.{decide_review, activate}
use airi.Registry.Rollback.{request_rollback, decide_rollback}
use airi.Registry.Integrity.{IsConsistent}
use airi.Registry.Integrity.Reads.{Commits}
use airi.Registry.Integrity.Activation.{activate-IsConsistent}
use airi.Registry.Integrity.Lifecycle.{create_release-IsConsistent, request_rollback-IsConsistent}
use airi.Registry.Integrity.Reviews.{
  validate-IsConsistent, create_review-IsConsistent, decide_review-IsConsistent,
}
use airi.Registry.Integrity.Reconciliation.{decide_rollback-IsConsistent}
use airi.Registry.Governance.Progress.{Along, stay, move, Advances, Advances-same, Advances-trans}
use airi.Registry.Governance.Frames.{Progresses}
use airi.Registry.Governance.Milestones.{
  create_version-Progresses, create_release-Progresses, validate-Progresses,
  create_review-Progresses, decide_review-Progresses, activate-Progresses,
}
use airi.Registry.Governance.Unwinding.{request_rollback-Progresses, decide_rollback-Progresses}

-- A status that no walk leaves.
abbrev pub IsFinal : ReleaseStatus → Type 0
IsFinal s = (s ≡ ReleaseStatus.failed) ⊎ (s ≡ ReleaseStatus.rolled_back)

final-no_edge : (s t : ReleaseStatus) → IsFinal s → release_transitions s t ≡ true → t ≡ s
unfolding release_transitions
final-no_edge s t (inl e) edge = absurd (ground arith)
final-no_edge s t (inr e) edge = absurd (ground arith)

Along-final : {s t : ReleaseStatus} → Along s t → IsFinal s → t ≡ s
Along-final stay f = refl
Along-final (move {s} {t} {u} p edge) f =
    let same : t ≡ s = Along-final p f in
    let edge' = subst (λ (x : ReleaseStatus). release_transitions x u ≡ true) same edge in
    final-no_edge s u f edge'

module _ (canonical_hash : Document → String) where
  -- A call that commits takes one store to the next.
  pub data Step : Store → Store → Type 0 where
    version_created :
        (chain : ResearchChain) (now : ℕ) (version_id definition_id : String) {st : Store}
        (review_id : String) {st' : Store} {v : MetricVersion}
        → create_version canonical_hash chain now version_id definition_id st review_id
          ≡ ok (st', v)
        → Step st st'
    created :
        (verified : Bool) (now : ℕ) (id : String) {st : Store} (version_id : String)
        (environment : TargetEnvironment) {st' : Store} {r : MetricRelease}
        → create_release canonical_hash verified now id st version_id environment ≡ ok (st', r)
        → Step st st'
    validated :
        (e : ReleaseEvidence) (now : ℕ) {st : Store} (id : String) {st' : Store}
        {report : ReleaseValidationReport}
        → validate canonical_hash e now st id ≡ ok (st', report)
        → Step st st'
    review_opened :
        (now : ℕ) (id : String) {st : Store} (release_id : String) {st' : Store} {r : ReleaseReview}
        → create_review canonical_hash now id st release_id ≡ ok (st', r)
        → Step st st'
    review_decided :
        (e : ReleaseEvidence) (now : ℕ) {st : Store} (id : String)
        (payload : ReleaseDecisionRequest) {st' : Store} {r : ReleaseReview}
        → decide_review canonical_hash e now st id payload ≡ ok (st', r)
        → Step st st'
    activated :
        (now : ℕ) {st : Store} (id : String) (expected : Option Version) {st' : Store}
        {r : MetricRelease}
        → activate canonical_hash now st id expected ≡ ok (st', r)
        → Step st st'
    rollback_requested :
        (now : ℕ) (id : String) {st : Store} (metric_key : String) (target : Version)
        (reason : String) {st' : Store} {r : RollbackReview}
        → request_rollback canonical_hash now id st metric_key target reason ≡ ok (st', r)
        → Step st st'
    rollback_decided :
        (now : ℕ) {st : Store} (id : String) (payload : RollbackDecisionRequest) {st' : Store}
        {r : RollbackReview}
        → decide_rollback canonical_hash now st id payload ≡ ok (st', r)
        → Step st st'

  -- The stores that a run of committed calls reaches.
  pub data Run : Store → Store → Type 0 where
    here : {st : Store} → Run st st
    then : {st mid st' : Store} → Run st mid → Step mid st' → Run st st'

  Step-IsConsistent :
      {st st' : Store}
      → Step st st'
      → IsConsistent canonical_hash st
      → IsConsistent canonical_hash st'
  Step-IsConsistent (version_created chain now version_id definition_id {st} review_id h) c =
      Ensures-at (Commits canonical_hash) _
        (create_version-IsConsistent canonical_hash chain now version_id definition_id st review_id
          c)
        h
  Step-IsConsistent (created verified now id {st} version_id environment h) c =
      Ensures-at (Commits canonical_hash) _
        (create_release-IsConsistent canonical_hash verified now id st version_id environment c) h
  Step-IsConsistent (validated e now {st} id h) c =
      Ensures-at (Commits canonical_hash) _ (validate-IsConsistent canonical_hash e now st id c) h
  Step-IsConsistent (review_opened now id {st} release_id h) c =
      Ensures-at (Commits canonical_hash) _
        (create_review-IsConsistent canonical_hash now id st release_id c) h
  Step-IsConsistent (review_decided e now {st} id payload h) c =
      Ensures-at (Commits canonical_hash) _
        (decide_review-IsConsistent canonical_hash e now st id payload c) h
  Step-IsConsistent (activated now {st} id expected h) c =
      Ensures-at (Commits canonical_hash) _
        (activate-IsConsistent canonical_hash now st id expected c) h
  Step-IsConsistent (rollback_requested now id {st} metric_key target reason h) c =
      Ensures-at (Commits canonical_hash) _
        (request_rollback-IsConsistent canonical_hash now id st metric_key target reason c) h
  Step-IsConsistent (rollback_decided now {st} id payload h) c =
      Ensures-at (Commits canonical_hash) _
        (decide_rollback-IsConsistent canonical_hash now st id payload c) h

  pub Run-IsConsistent :
      {st st' : Store}
      → Run st st'
      → IsConsistent canonical_hash st
      → IsConsistent canonical_hash st'
  Run-IsConsistent here c = c
  Run-IsConsistent (then run step) c = Step-IsConsistent step (Run-IsConsistent run c)

  Step-Advances :
      {st st' : Store}
      → Step st st'
      → IsConsistent canonical_hash st
      → Advances st.releases st'.releases
  Step-Advances (version_created chain now version_id definition_id {st} review_id h) c =
      Ensures-at (Progresses st) _
        (create_version-Progresses canonical_hash chain now version_id definition_id st review_id) h
  Step-Advances (created verified now id {st} version_id environment h) c =
      Ensures-at (Progresses st) _
        (create_release-Progresses canonical_hash verified now id st version_id environment) h
  Step-Advances (validated e now {st} id h) c =
      Ensures-at (Progresses st) _ (validate-Progresses canonical_hash e now st id c) h
  Step-Advances (review_opened now id {st} release_id h) c =
      Ensures-at (Progresses st) _ (create_review-Progresses canonical_hash now id st release_id c)
        h
  Step-Advances (review_decided e now {st} id payload h) c =
      Ensures-at (Progresses st) _ (decide_review-Progresses canonical_hash e now st id payload c) h
  Step-Advances (activated now {st} id expected h) c =
      Ensures-at (Progresses st) _ (activate-Progresses canonical_hash now st id expected c) h
  Step-Advances (rollback_requested now id {st} metric_key target reason h) c =
      Ensures-at (Progresses st) _
        (request_rollback-Progresses canonical_hash now id st metric_key target reason) h
  Step-Advances (rollback_decided now {st} id payload h) c =
      Ensures-at (Progresses st) _ (decide_rollback-Progresses canonical_hash now st id payload c) h

  -- In every run of committed calls from a consistent store, whatever the calls and their order, no
  -- release is lost, and the status of each has moved along `RELEASE_TRANSITIONS` only.
  pub Run-Advances :
      {st st' : Store}
      → Run st st'
      → IsConsistent canonical_hash st
      → Advances st.releases st'.releases
  Run-Advances (here {st}) c = Advances-same st.releases st.releases refl
  Run-Advances (then {st} {mid} {st'} run step) c =
      Advances-trans st.releases mid.releases st'.releases (Run-Advances run c)
        (Step-Advances step (Run-IsConsistent run c))

  -- A release that failed or was rolled back keeps that status in every run of committed calls from
  -- a consistent store.
  pub Run-final :
      {st st' : Store} (id : String) (row : ReleaseRow)
      → Run st st'
      → IsConsistent canonical_hash st
      → get id st.releases ≡ some row
      → IsFinal row.status
      → (row' : ReleaseRow) × (get id st'.releases ≡ some row') × (row'.status ≡ row.status)
  Run-final id row run c found final =
      let (row', found', along) = Run-Advances run c id row found in
      (row', found', Along-final along final)
