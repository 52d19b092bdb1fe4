-- ===== src/Production/Deployments/Runs.antt =====
-- The deployment service as a state machine (src/airi/production/service.py): a step is a call of
-- EnvironmentService or DeploymentService, whether it returns or raises, or a write of another
-- service to the tables of the registry. A run is a sequence of steps.
use airi.Prelude.{
  ℕ, String, ◌≡◌, subst, Bool, true, false, none, some, arith, get, Ensures-bind, Ensures-raise_if,
  is_some, ◌&&◌, not, ◌⊎◌, inl, inr, Bool-cases,
}
use airi.Approvals.Service.{ArtifactRow}
use airi.Registry.Store.{Store}
use airi.Prelude.{Table}
use airi.Production.Identity.{
  ActorIdentity, authorize, register_production_environment, verify_production_environment,
}
use airi.Production.Deployments.Models.{
  ProductionEnvironmentProfile, EnvironmentRequest, Fingerprint, DeploymentPackage,
  ShadowObservation, ReviewRequest, DeploymentStatus,
}
use airi.Production.Deployments.Store.{
  DeploymentRow, EnvironmentValidation, ProductionStore, Outcome, Committed, from_identity,
  synthetic_production_profile_forbidden, synthetic_profile_requires_mock_execution,
  production_environment_already_registered, environment_fingerprint_not_applicable,
  production_runtime_unreachable, integrity_error,
}
use airi.Production.Deployments.Packaging.{Digests}
use airi.Production.Deployments.Environments.{
  is_spark_mode, register, verification, environment_profile, record_fingerprint, log_event,
}
use airi.Production.Deployments.Session.{shadow_passed}
use airi.Production.Deployments.Creation.{AdapterFacts, NewIds, create}
use airi.Production.Deployments.Preflight.{ValidationResult, preflight}
use airi.Production.Deployments.Shadow.{shadow}
use airi.Production.Deployments.Reviews.{create_review, decide_review}
use airi.Production.Deployments.Gatekeeping.{GateSettings}
use airi.Production.Deployments.Deploying.{DeployAnswers, deploy}
use airi.Production.Deployments.Rules.{since-Leaves}
use airi.Production.Deployments.Governance.{
  past_review, past_shadow, past_preflight, preflight_passed, HasApproval, IsGoverned,
}
use airi.Production.Deployments.Governance.Opening.{create-IsGoverned, preflight-IsGoverned}
use airi.Production.Deployments.Governance.Observing.{shadow-IsGoverned}
use airi.Production.Deployments.Governance.Deciding.{create_review-IsGoverned}
use airi.Production.Deployments.Governance.Verdict.{decide_review-IsGoverned}
use airi.Production.Deployments.Governance.Handing.{deploy-IsGoverned}

module _ (D : Digests) where
  pub data Step : ProductionStore → ProductionStore → Type 0 where
    registered :
        {st : ProductionStore} (now : ℕ) (live : Bool) (payload : EnvironmentRequest)
        (identity : ActorIdentity)
        → Step st (register now live st payload identity).store
    fingerprinted :
        {st : ProductionStore} (now : ℕ) (id : String) (probed : Fingerprint)
        (environment_id : String) (identity : ActorIdentity)
        → Step st (record_fingerprint now id probed st environment_id identity).store
    created :
        {st : ProductionStore} (now : ℕ) (ids : NewIds) (adapter : AdapterFacts)
        (release_id environment_id : String) (identity : ActorIdentity)
        → Step st (create D now ids adapter st release_id environment_id identity).store
    preflighted :
        {st : ProductionStore} (now : ℕ) (adapter : AdapterFacts)
        (validate : DeploymentPackage → Outcome ValidationResult) (id : String)
        (identity : ActorIdentity)
        → Step st (preflight D now adapter validate st id identity).store
    shadowed :
        {st : ProductionStore} (now : ℕ) (adapter : AdapterFacts)
        (observe : DeploymentPackage → Outcome ShadowObservation) (id : String)
        (identity : ActorIdentity)
        → Step st (shadow D now adapter observe st id identity).store
    review_opened :
        {st : ProductionStore} (now : ℕ) (id deployment_id : String) (identity : ActorIdentity)
        → Step st (create_review D now id st deployment_id identity).store
    review_decided :
        {st : ProductionStore} (now : ℕ) (state_id : String) (boundary : Bool) (review_id : String)
        (payload : ReviewRequest) (identity : ActorIdentity)
        → Step st (decide_review D now state_id boundary st review_id payload identity).store
    handed_over :
        {st : ProductionStore} (now : ℕ) (evidence_id : String) (settings : GateSettings)
        (adapter : AdapterFacts) (answers : DeployAnswers) (id : String) (identity : ActorIdentity)
        → Step st (deploy D now evidence_id settings adapter answers st id identity).store
    elsewhere :
        {st : ProductionStore} (registry : Store) (artifacts : Table ArtifactRow)
        (validations : Table EnvironmentValidation)
        → Step st (record st {
          registry = registry;
          artifacts = artifacts;
          environment_validations = validations;
        })

  pub data Run : ProductionStore → ProductionStore → Type 0 where
    stop : {st : ProductionStore} → Run st st
    after : {st st' st'' : ProductionStore} → Run st st' → Step st' st'' → Run st st''

register-IsGoverned :
    (now : ℕ) (live : Bool) (st : ProductionStore) (payload : EnvironmentRequest)
    (identity : ActorIdentity)
    → IsGoverned st
    → IsGoverned (register now live st payload identity).store
unfolding register log_event
register-IsGoverned now live st payload identity g =
    let P : Committed ProductionEnvironmentProfile → Type 0 = λ c. IsGoverned c.store in
    since-Leaves IsGoverned st _ g (
      Ensures-bind P (from_identity (authorize identity register_production_environment)) _ λ _ _.
        Ensures-raise_if P (payload.synthetic && live) synthetic_production_profile_forbidden _ λ _.
          Ensures-raise_if P (payload.synthetic && is_spark_mode payload.execution_mode)
            synthetic_profile_requires_mock_execution _
            λ _.
              Ensures-raise_if P (is_some (get payload.environment_id st.environments))
                production_environment_already_registered _
                λ _. Ensures-bind P (verification st payload) _ λ e _. g)

record_fingerprint-IsGoverned :
    (now : ℕ) (id : String) (probed : Fingerprint) (st : ProductionStore) (environment_id : String)
    (identity : ActorIdentity)
    → IsGoverned st
    → IsGoverned (record_fingerprint now id probed st environment_id identity).store
unfolding record_fingerprint log_event
record_fingerprint-IsGoverned now id probed st environment_id identity g =
    let P : Committed Fingerprint → Type 0 = λ c. IsGoverned c.store in
    since-Leaves IsGoverned st _ g (
      Ensures-bind P (from_identity (authorize identity verify_production_environment)) _ λ _ _.
        Ensures-bind P (environment_profile st environment_id) _ λ profile _.
          Ensures-raise_if P (not (is_spark_mode profile.execution_mode))
            environment_fingerprint_not_applicable _
            λ _. Ensures-raise_if P (not probed.reachable) production_runtime_unreachable _ λ _.
              Ensures-raise_if P (is_some (get id st.fingerprints)) integrity_error _ λ _.
                elim (Bool-cases probed.runtime_identity_verified) [
                  | inl e ↦ rw e g
                  | inr e ↦ rw e g
                ])

reviewed_past_shadow : (s : DeploymentStatus) → past_review s ≡ true → past_shadow s ≡ true
unfolding past_review past_shadow
reviewed_past_shadow s h = ground arith

reviewed_past_preflight : (s : DeploymentStatus) → past_review s ≡ true → past_preflight s ≡ true
unfolding past_review past_preflight
reviewed_past_preflight s h = ground arith

module _ (D : Digests) where
  Step-IsGoverned : {st st' : ProductionStore} → Step D st st' → IsGoverned st → IsGoverned st'
  Step-IsGoverned (registered {st} now live payload identity) g =
      register-IsGoverned now live st payload identity g
  Step-IsGoverned (fingerprinted {st} now id probed environment_id identity) g =
      record_fingerprint-IsGoverned now id probed st environment_id identity g
  Step-IsGoverned (created {st} now ids adapter release_id environment_id identity) g =
      create-IsGoverned D now ids adapter st release_id environment_id identity g
  Step-IsGoverned (preflighted {st} now adapter validate id identity) g =
      preflight-IsGoverned D now adapter validate st id identity g
  Step-IsGoverned (shadowed {st} now adapter observe id identity) g =
      shadow-IsGoverned D now adapter observe st id identity g
  Step-IsGoverned (review_opened {st} now id deployment_id identity) g =
      create_review-IsGoverned D now id st deployment_id identity g
  Step-IsGoverned (review_decided {st} now state_id boundary review_id payload identity) g =
      decide_review-IsGoverned D now state_id boundary st review_id payload identity g
  Step-IsGoverned (handed_over {st} now evidence_id settings adapter answers id identity) g =
      deploy-IsGoverned D now evidence_id settings adapter answers st id identity g
  Step-IsGoverned (elsewhere {st} registry artifacts validations) g = g

  -- In every run of calls, in any order, whether they return or raise, a governed store, such as one
  -- without deployments, stays governed: status columns and documents agree, no two reviews have
  -- one key, and every review is the one that its deployment names.
  pub Run-Governed : {st st' : ProductionStore} → Run D st st' → IsGoverned st → IsGoverned st'
  Run-Governed stop g = g
  Run-Governed (after run step) g = Step-IsGoverned step (Run-Governed run g)

  -- No deployment comes to the runtime without its evidence: in every store that a run reaches from a
  -- governed one, a deployment that is approved, deployed or monitored has passed its preflight and its
  -- shadow, and a stored review approves it under the digest of its own package.
  pub Run-IsReviewed :
      {st st' : ProductionStore} (id : String) {row : DeploymentRow}
      → Run D st st'
      → IsGoverned st
      → get id st'.deployments ≡ some row
      → past_review row.status ≡ true
      → (preflight_passed row.deployment_json.preflight ≡ true)
        × (shadow_passed row.deployment_json.shadow ≡ true)
        × HasApproval st'.reviews id row.deployment_json
  unfolding past_review past_shadow past_preflight
  Run-IsReviewed {st} {st'} id {row} run g there past =
      let s = (Run-Governed run g).sound id row there in
      let past' = subst (λ x. past_review x ≡ true) s.shown past in
      (
        (s.preflighted (reviewed_past_preflight _ past')).0,
        s.shadowed (reviewed_past_shadow _ past'),
        s.reviewed past',
      )

  -- A deployment that names a fingerprint of its environment never passes its preflight, and none is
  -- ever recorded as deployed to production: in every store that a run reaches from a
  -- governed one, a deployment is created or failed or names no fingerprint, and its
  -- production_deployed is false.
  pub Run-IsUnobserved :
      {st st' : ProductionStore} (id : String) {row : DeploymentRow}
      → Run D st st'
      → IsGoverned st
      → get id st'.deployments ≡ some row
      → (row.deployment_json.production_deployed ≡ false)
        × ((past_preflight row.status ≡ false)
            ⊎ (row.deployment_json.handover.environment_fingerprint_hash ≡ none))
  Run-IsUnobserved {st} {st'} id {row} run g there =
      let s = (Run-Governed run g).sound id row there in
      (
        s.undeployed,
        elim (Bool-cases (past_preflight row.status)) [
          | inr early ↦ inl early
          | inl past ↦ inr (s.preflighted (subst (λ x. past_preflight x ≡ true) s.shown past)).1
        ],
      )
