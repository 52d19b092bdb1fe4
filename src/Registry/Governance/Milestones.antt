-- ===== src/Registry/Governance/Milestones.antt =====
-- Each call of `RegistryService` (src/airi/registry/service.py) on the release table.
use airi.Prelude.{
  ℕ, String, ◌≡◌, refl, Bool, Option, none, some, arith, ok, err, Ensures, Ensures-bind,
  Ensures-raise_if, Ensures-then, Ensures-weaken, sym, subst, inl, inr, Bool-cases, is_some, not,
  ◌&&◌, ◌||◌, opt_eq,
}
use airi.Core.{Version}
use airi.Registry.Models.{
  ReleaseStatus, MetricRelease, ReleaseReview, ReviewDecision, ReleaseEligibility,
  TargetEnvironment, ReleaseDecisionRequest, Document,
}
use airi.Registry.Store.{Table, get, put, get-AllRows, ReleaseRow, ReleaseReviewRow, Store}
use airi.Registry.Session.{
  release, definition_by_id, version_by_id, validation_report, release_review, same_release_status,
  same_decision, same_eligibility, activation_conflict, release_review_already_decided,
}
use airi.Registry.Writes.{transition, save_release, log_event, move_pointer, or_raise}
use airi.Registry.Diagnostics.{assess}
use airi.Registry.Releases.{
  ReleaseEvidence, is_production, drafted, release_row, nominate, create_release, report_of,
  shadow_of, validated_status, validate, reopen_review, open_review, find_review, create_review,
}
use airi.Registry.Models.{MetricVersion}
use airi.Registry.Session.{metric_version_already_registered}
use airi.Registry.Versioning.{plan}
use airi.Registry.Family.{derive}
use airi.Registry.Registration.{
  ResearchChain, promotion_lineage, is_registered, family_of, versions_of, latest, collides,
  register, create_version,
}
use airi.Registry.Decisions.{
  decided_release, decided_review, record_decision, decide_review, expected_pointer,
  finish_activation, activate_approved, activate,
}
use airi.Registry.Integrity.{IsConsistent, ReleaseAgrees}
use airi.Registry.Integrity.Reads.{or_raise-eq-ok, release-IsStored}
use airi.Registry.Governance.Progress.{
  Advances, Advances-same, put-Advances, IsReady, save_release-Advances,
}
use airi.Registry.Governance.Frames.{
  HasStatus, moved-IsReady, Keeps, nominate-Keeps, move_pointer-releases, Progresses,
  finish_activation-Progresses, decided_release-IsReady,
}

module _ (canonical_hash : Document → String) where
  pub release-HasStatus :
      (st : Store) (id : String) {r : MetricRelease}
      → IsConsistent canonical_hash st
      → release canonical_hash st id ≡ ok r
      → HasStatus st.releases r
  release-HasStatus st id c read =
      let (row, found, same) = release-IsStored canonical_hash st id c read in
      let agrees = get-AllRows ReleaseAgrees _ st.releases c.releases found in
      (row, found, cc (agrees.0, same))

  pub create_version-Progresses :
      (chain : ResearchChain) (now : ℕ) (version_id definition_id : String) (st : Store)
      (review_id : String)
      → Ensures
          (Progresses st)
          (create_version canonical_hash chain now version_id definition_id st review_id)
  unfolding create_version register log_event
  create_version-Progresses chain now version_id definition_id st review_id =
      let P : Store × MetricVersion → Type 0 = Progresses st in
      Ensures-bind P (promotion_lineage canonical_hash chain review_id) _ λ l _.
        let key = derive l.metric_ir.name in
        let d = (family_of st definition_id key now).1.definition_json in
        Ensures-raise_if P (is_registered l.review.promotion_review_id st.versions) _ _ λ _.
          Ensures-bind P (versions_of canonical_hash d.metric_definition_id st.versions) _
            λ versions _.
              Ensures-raise_if P
                (collides st version_id definition_id key d.metric_definition_id
                  (plan l.metric_ir (latest versions)).version)
                metric_version_already_registered _ λ _. Advances-same st.releases st.releases refl

  pub create_release-Progresses :
      (verified : Bool) (now : ℕ) (id : String) (st : Store) (version_id : String)
      (environment : TargetEnvironment)
      → Ensures
          (Progresses st)
          (create_release canonical_hash verified now id st version_id environment)
  unfolding create_release log_event
  create_release-Progresses verified now id st version_id environment =
      let P : Store × MetricRelease → Type 0 = Progresses st in
      Ensures-bind P (version_by_id canonical_hash st version_id) _ λ v _.
        Ensures-raise_if P (is_production environment && not verified) _ _ λ _.
          Ensures-bind P (definition_by_id st v.metric_definition_id) _ λ d _.
            Ensures-bind P
              (transition (drafted id d v environment now) ReleaseStatus.pending_staging_validation)
              _
              λ r e. Ensures-raise_if P (is_some (get id st.releases)) _ _ λ fresh.
                let new : Store = record st { releases = put id (release_row r now) st.releases } in
                Ensures-then (Keeps new.releases) P (nominate new v) _ (nominate-Keeps new v)
                  λ st' kept.
                    subst (λ (x : Table ReleaseRow). Advances st.releases x) (sym kept)
                      (put-Advances st.releases id (release_row r now)
                        λ row found. absurd (ground arith))

  pub validate-Progresses :
      (e : ReleaseEvidence) (now : ℕ) (st : Store) (id : String)
      → IsConsistent canonical_hash st
      → Ensures (Progresses st) (validate canonical_hash e now st id)
  unfolding validate log_event
  validate-Progresses e now st id c =
      let P : Store × _ → Type 0 = Progresses st in
      Ensures-bind P (release canonical_hash st id) _ λ r read.
        Ensures-raise_if P
          (not (same_release_status r.status ReleaseStatus.pending_staging_validation)) _ _
          λ _. Ensures-bind P (version_by_id canonical_hash st r.metric_version_id) _ λ v _.
            Ensures-bind P (definition_by_id st v.metric_definition_id) _ λ d _.
              Ensures-bind P (e.evidence_checks v) _ λ _ _.
                Ensures-bind P (e.run_staging r v) _ λ staging _.
                  Ensures-bind P (shadow_of canonical_hash e r v d staging) _ λ shadow _.
                    let report =
                      report_of canonical_hash r v staging shadow
                        (assess staging shadow r.release_policy v.synthetic_data) now in
                    Ensures-raise_if P (is_some (get r.release_id st.validations)) _ _ λ _.
                      let dated : MetricRelease = record r {
                        validated_at = some now;
                        validation_report_hash =
                            some (canonical_hash (Document.validation_report report));
                      } in
                      let target = validated_status canonical_hash report.status in
                      Ensures-bind P (transition dated target) _ λ r' moved.
                        Ensures-then (λ (s : Store). Advances st.releases s.releases) P
                          (save_release now _ r') _
                          (save_release-Advances now _ r' (
                            moved-IsReady st.releases r dated r' target
                              (release-HasStatus st id c read) refl refl moved))
                          λ st₂ g. g

  reopen_review-Progresses :
      (now : ℕ) (st : Store) (r : MetricRelease) (existing : Option (String × ReleaseReviewRow))
      → Ensures (Progresses st) (reopen_review canonical_hash now st r existing)
  unfolding reopen_review
  reopen_review-Progresses now st r none = tt
  reopen_review-Progresses now st r (some (key, existing)) =
      Ensures-raise_if (Progresses st)
        (not (same_decision existing.review_json.decision ReviewDecision.need_more_evidence)) _ _
        λ _. Advances-same st.releases st.releases refl

  open_review-Progresses :
      (now : ℕ) (id : String) (st : Store) (r : MetricRelease)
      (existing : Option (String × ReleaseReviewRow))
      → HasStatus st.releases r
      → Ensures (Progresses st) (open_review canonical_hash now id st r existing)
  unfolding open_review
  open_review-Progresses now id st r existing has =
      let P : Store × ReleaseReview → Type 0 = Progresses st in
      Ensures-raise_if P (not (same_release_status r.status ReleaseStatus.staging_validated)) _ _
        λ _. Ensures-bind P (validation_report canonical_hash st r.release_id) _ λ report _.
          Ensures-raise_if P
            (not (
              same_eligibility report.release_eligibility
                ReleaseEligibility.eligible_for_release_review))
            _ _
            λ _. Ensures-bind P (transition r ReleaseStatus.pending_release_review) _ λ r' moved.
              Ensures-then (λ (s : Store). Advances st.releases s.releases) P
                (save_release now _ r') _
                (save_release-Advances now _ r' (
                  moved-IsReady st.releases r r r' ReleaseStatus.pending_release_review has refl
                    refl moved))
                λ st' g.
                  Ensures-raise_if P (is_some existing || is_some (get id st.reviews)) _ _ λ _. g

  pub create_review-Progresses :
      (now : ℕ) (id : String) (st : Store) (release_id : String)
      → IsConsistent canonical_hash st
      → Ensures (Progresses st) (create_review canonical_hash now id st release_id)
  unfolding create_review
  create_review-Progresses now id st release_id c =
      let P : Store × ReleaseReview → Type 0 = Progresses st in
      Ensures-bind P (release canonical_hash st release_id) _ λ r read.
        let existing = find_review release_id st.reviews in
        elim (Bool-cases (same_release_status r.status ReleaseStatus.pending_release_review)) [
          | inl waits ↦ rw waits (reopen_review-Progresses now st r existing)
          | inr other ↦
              rw other (
                open_review-Progresses now id st r existing
                  (release-HasStatus st release_id c read))
        ]

  record_decision-Keeps :
      (now : ℕ) (st : Store) (id : String) (updated : ReleaseReview)
      (payload : ReleaseDecisionRequest)
      → Ensures (Keeps st.releases) (record_decision canonical_hash now st id updated payload)
  unfolding record_decision
  record_decision-Keeps now st id updated payload =
      let Q = Keeps st.releases in
      Ensures-bind Q (or_raise (get id st.reviews) (err release_review_already_decided)) _ λ row _.
        Ensures-raise_if Q (not (same_decision row.decision ReviewDecision.pending)) _ _ λ _. refl

  pub decide_review-Progresses :
      (e : ReleaseEvidence) (now : ℕ) (st : Store) (review_id : String)
      (payload : ReleaseDecisionRequest)
      → IsConsistent canonical_hash st
      → Ensures (Progresses st) (decide_review canonical_hash e now st review_id payload)
  unfolding decide_review log_event
  decide_review-Progresses e now st review_id payload c =
      let P : Store × ReleaseReview → Type 0 = Progresses st in
      Ensures-bind P (release_review canonical_hash st review_id) _ λ review _.
        Ensures-raise_if P (not (same_decision review.decision ReviewDecision.pending)) _ _ λ _.
          Ensures-bind P (release canonical_hash st review.release_id) _ λ r read.
            Ensures-bind P (validation_report canonical_hash st r.release_id) _ λ report _.
              Ensures-raise_if P
                (not (opt_eq r.validation_report_hash review.validation_report_hash)
                  || not (
                      opt_eq (some (canonical_hash (Document.validation_report report)))
                        review.validation_report_hash))
                _ _
                λ _. Ensures-bind P (version_by_id canonical_hash st r.metric_version_id) _ λ v _.
                  Ensures-bind P (e.evidence_checks v) _ λ _ _.
                    let updated = decided_review review payload now in
                    Ensures-then (Keeps st.releases) P
                      (record_decision canonical_hash now st review_id updated payload) _
                      (record_decision-Keeps now st review_id updated payload)
                      λ st₁ kept. Ensures-bind P (decided_release r payload.decision) _ λ r' moved.
                        Ensures-then (λ (s : Store). Advances st₁.releases s.releases) P
                          (save_release now st₁ r') _
                          (save_release-Advances now st₁ r' (
                            subst (λ (x : Table ReleaseRow). IsReady x r') (sym kept)
                              (decided_release-IsReady st.releases r r' payload.decision
                                (release-HasStatus st _ c read) moved)))
                          λ st₂ g. subst (λ (x : Table ReleaseRow). Advances x st₂.releases) kept g

  activate_approved-Progresses :
      (now : ℕ) (st : Store) (r : MetricRelease) (expected : Option Version)
      → HasStatus st.releases r
      → Ensures (Progresses st) (activate_approved canonical_hash now st r expected)
  unfolding activate_approved
  activate_approved-Progresses now st r expected has =
      let P : Store × MetricRelease → Type 0 = Progresses st in
      Ensures-raise_if P (not (same_release_status r.status ReleaseStatus.approved)) _ _ λ _.
        Ensures-bind P (expected_pointer canonical_hash st r expected) _ λ p _.
          Ensures-bind P
            (or_raise (move_pointer now st r.metric_definition_id p r.metric_version_id)
              (err activation_conflict))
            _
            λ st₁ e.
              let kept =
                move_pointer-releases now st r.metric_definition_id p r.metric_version_id
                  (or_raise-eq-ok _ _ e) in
              Ensures-weaken (Progresses st₁) P (finish_activation now st₁ r)
                (finish_activation-Progresses now st₁ r
                  (subst (λ (x : Table ReleaseRow). HasStatus x r) (sym kept) has))
                λ x g. subst (λ (t : Table ReleaseRow). Advances t x.0.releases) kept g

  pub activate-Progresses :
      (now : ℕ) (st : Store) (id : String) (expected : Option Version)
      → IsConsistent canonical_hash st
      → Ensures (Progresses st) (activate canonical_hash now st id expected)
  unfolding activate
  activate-Progresses now st id expected c =
      let P : Store × MetricRelease → Type 0 = Progresses st in
      Ensures-bind P (release canonical_hash st id) _ λ r read.
        Ensures-bind P (definition_by_id st r.metric_definition_id) _ λ d _.
          elim (Bool-cases (
            same_release_status r.status ReleaseStatus.active
            && opt_eq d.active_version_id (some r.metric_version_id))) [
              | inl already ↦ rw already (Advances-same st.releases st.releases refl)
              | inr other ↦
                  rw other (
                    activate_approved-Progresses now st r expected (release-HasStatus st id c read))
            ]
