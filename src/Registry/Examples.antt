-- ===== src/Registry/Examples.antt =====
-- The registry theorems at a concrete store, and runs of the service over it
-- (src/airi/registry/service.py).
use airi.Prelude.{◌≡◌, refl, none, some, ok, err, Ensures, inl, str_eq, opt_eq}
use airi.Core.{same_version}
use airi.Registry.Models.{
  MetricVersionStatus, ReleaseStatus, MetricRelease, RollbackReview, RollbackVerdict,
  RollbackDecisionRequest,
}
use airi.Registry.Store.{get, put, ReleaseRow, Store}
use airi.Registry.Session.{
  Outcome, rollback_already_decided, same_release_status, same_environment, same_version_status,
  same_rollback_decision, definition_by_id, version, rollback_review, activation_conflict, release,
}
use airi.Registry.Releases.{release_row}
use airi.Registry.Decisions.{expected_pointer, activate}
use airi.Registry.Writes.{move_pointer, transition, save_release, log_event, set_version_status}
use airi.Registry.Rollback.{decided_rollback, decide_rollback}
use airi.Registry.Integrity.Reads.{Commits}
use airi.Registry.Integrity.Activation.{activate-IsConsistent}
use airi.Registry.Governance.{pointer}
use airi.Registry.Governance.Activation.{
  activated_release, status_in, Activates, activate-Activates,
}
use airi.Registry.Governance.Reversal.{Decides, decide_rollback-Decides, decide_rollback-once}
use airi.Registry.Governance.Progress.{Advances}
use airi.Registry.Runs.{Run, here, then, activated, rollback_decided, Run-Advances, Run-final}
use airi.Registry.Diagnostics.{assess}
use airi.Registry.Diagnostics.Soundness.{IsClean, IsWithin, assess-eligible}
use airi.Prelude.{◌↔◌, contains, sorted_set, true, false, Option, []}
use airi.Registry.Models.{
  ReleaseEligibility, EvidenceStatus, StagingValidationResult, ShadowComparisonResult,
  default_release_policy,
}
use airi.Registry.Sample.{
  digest, v1_0, v1_1, release_of, requested_rollback, store_with, approved_store,
  store_with-IsConsistent, approved_store-IsConsistent,
}

-- The store that a call hands over, and the one it began with where the call raises.
abbrev committed : {A : Type 0} → Store → Outcome (Store × A) → Store
committed st (ok (st', a)) = st'
committed st (err e) = st

abbrev activation : Outcome (Store × MetricRelease)
activation = activate digest 9 approved_store "r" (some v1_1)

abbrev activated_store : Store
activated_store = committed approved_store activation

activation-run :
    activation
    ≡ ok (activated_store, activated_release 9 (release_of "v3" ReleaseStatus.approved (some "v2")))
unfolding activate get put release str_eq same_release_status same_version same_environment
    same_version_status definition_by_id opt_eq expected_pointer version move_pointer transition
    save_release log_event
activation-run = refl

activation-pointer : pointer activated_store "d" ≡ some (some "v3")
unfolding activate get put release str_eq same_release_status same_version same_environment
    same_version_status definition_by_id opt_eq expected_pointer version move_pointer transition
    save_release log_event
activation-pointer = refl

activation-conflict : activate digest 9 approved_store "r" (some v1_0) ≡ err activation_conflict
unfolding activate get put release str_eq same_release_status same_version same_environment
    same_version_status definition_by_id opt_eq expected_pointer version move_pointer transition
    save_release log_event
activation-conflict = refl

-- The release of `v3` was created before `v2` became active, and is activated over `v2`: both
-- versions have the status `active` then.
abbrev stale_store : Store
stale_store = store_with ReleaseStatus.approved none

abbrev stale_activation : Store
stale_activation = committed stale_store (activate digest 9 stale_store "r" (some v1_1))

two_active_versions :
    (status_in stale_activation.versions "v2" ≡ some MetricVersionStatus.active)
    × (status_in stale_activation.versions "v3" ≡ some MetricVersionStatus.active)
unfolding activate get put release str_eq same_release_status same_version same_environment
    same_version_status definition_by_id opt_eq expected_pointer version move_pointer transition
    save_release log_event
two_active_versions = (refl, refl)

first_step : Run digest approved_store activated_store
first_step = then here (activated 9 "r" (some v1_1) activation-run)

activate-IsConsistent_example : Ensures (Commits digest) activation
activate-IsConsistent_example =
    activate-IsConsistent digest 9 approved_store "r" (some v1_1) approved_store-IsConsistent

activate-Activates_example :
    Ensures
      (λ (x : Store × MetricRelease).
        (r : MetricRelease) × (release digest approved_store "r" ≡ ok r)
        × Activates digest 9 approved_store (some v1_1) r x)
      activation
activate-Activates_example = activate-Activates digest 9 approved_store "r" (some v1_1)

Run-Advances_example : Advances approved_store.releases activated_store.releases
Run-Advances_example = Run-Advances digest first_step approved_store-IsConsistent

abbrev undo : RollbackDecisionRequest
undo = record { decision = RollbackVerdict.approved; reviewer = "lee"; comment = "confirmed" }

abbrev undone : Outcome (Store × RollbackReview)
undone = decide_rollback digest 9 approved_store "b" undo

undone-run :
    undone ≡ ok (committed approved_store undone, decided_rollback requested_rollback undo 9)
unfolding decide_rollback rollback_review get str_eq same_rollback_decision move_pointer opt_eq
    set_version_status put definition_by_id log_event
undone-run = refl

decide_rollback-Decides_example : Ensures (Decides digest 9 approved_store "b" undo) undone
decide_rollback-Decides_example = decide_rollback-Decides digest 9 approved_store "b" undo

decide_rollback-once_example :
    decide_rollback digest 10 (committed approved_store undone) "b" undo
    ≡ err rollback_already_decided
decide_rollback-once_example =
    decide_rollback-once digest 9 approved_store "b" undo undone-run 10 undo

abbrev failed_store : Store
failed_store = store_with ReleaseStatus.failed none

abbrev withdrawn : Outcome (Store × RollbackReview)
withdrawn = decide_rollback digest 9 failed_store "b" undo

withdrawn-run :
    withdrawn ≡ ok (committed failed_store withdrawn, decided_rollback requested_rollback undo 9)
unfolding decide_rollback rollback_review get str_eq same_rollback_decision move_pointer opt_eq
    set_version_status put definition_by_id log_event
withdrawn-run = refl

Run-final_example :
    (row' : ReleaseRow) × (get "r" (committed failed_store withdrawn).releases ≡ some row')
    × (row'.status ≡ ReleaseStatus.failed)
unfolding get str_eq
Run-final_example =
    Run-final digest "r" (release_row (release_of "v3" ReleaseStatus.failed none) 2)
      (then here (rollback_decided 9 "b" undo withdrawn-run))
      (store_with-IsConsistent ReleaseStatus.failed none) refl (inl refl)

-- A complete staging result, and a comparison that loses one entity of fifty.
abbrev clean_staging : StagingValidationResult
clean_staging = record {
  status = EvidenceStatus.passed;
  row_count = 50;
  truncated = false;
  schema_ok = true;
  warnings = [];
}

abbrev close_shadow : Option ShadowComparisonResult
close_shadow = some (record {
  status = EvidenceStatus.passed;
  matched_entities = 49;
  entity_loss_fraction = some (record { numerator = 1; denominator = 50 });
  new_null_fraction = some (record { numerator = 0; denominator = 49 });
  warnings = [];
})

assess-eligible_example :
    ((assess clean_staging close_shadow default_release_policy false).eligibility
      ≡ ReleaseEligibility.eligible_for_release_review)
    ↔ (IsClean clean_staging × IsWithin default_release_policy close_shadow)
assess-eligible_example = assess-eligible clean_staging close_shadow default_release_policy false

clean-eligible :
    (assess clean_staging close_shadow default_release_policy true).eligibility
    ≡ ReleaseEligibility.eligible_for_release_review
unfolding assess contains str_eq
clean-eligible = refl

clean-status :
    (assess clean_staging close_shadow default_release_policy true).status
    ≡ EvidenceStatus.passed_with_warnings
unfolding assess contains str_eq sorted_set
clean-status = refl
