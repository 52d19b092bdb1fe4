-- ===== src/Production/Deployments/Reviews.antt =====
-- The human review of a deployment (src/airi/production/service.py, DeploymentService.create_review
-- and decide_review), and the desired state that an approval establishes.
use airi.Prelude.{
  ℕ, String, Bool, true, false, not, ◌||◌, Option, none, some, [], ◌∷◌, ◌++◌, if◌then◌else◌, str_eq,
  is_some, Table, get, put, ok, err, ◌>>=◌, ◌>>◌, raise_if,
}
use airi.Registry.Models.{MetricVersion}
use airi.Registry.Session.{version_by_id}
use airi.Production.Models.{DesiredStateSource, DesiredRuntimeState}
use airi.Production.Identity.{
  ActorIdentity, sorted_roles, authorize, require_trusted, review_production_deployment,
}
use airi.Production.Deployments.Models.{
  ReviewDecision, PreviousDecision, DeploymentReview, Verdict, ReviewRequest, DeploymentStatus,
  ProductionDeployment, deployable,
}
use airi.Production.Deployments.Store.{
  DeploymentReviewRow, ProductionEvent, ProductionStore, Outcome, Committed, since, commit,
  from_registry, from_identity, production_deployment_review_already_exists,
  production_deployment_not_ready_for_review, production_shadow_not_passed,
  production_deployment_review_already_decided, deployment_package_integrity_error,
  production_environment_not_verified, integrity_error,
}
use airi.Production.Deployments.Packaging.{Digests}
use airi.Production.Deployments.Environments.{log_event, environment_profile}
use airi.Production.Deployments.Session.{
  same_status, same_decision, shadow_passed, deployment, review, transition, validated, write,
}

-- `select(ProductionDeploymentReviewRow).where(deployment_id == id)`, with its key
unfoldable pub review_of :
    String → Table DeploymentReviewRow → Option (String × DeploymentReviewRow)
review_of id [] = none
review_of id ((key, row) ∷ t) =
    if str_eq row.deployment_id id then some (key, row) else review_of id t

abbrev pub previous_of : DeploymentReview → PreviousDecision
previous_of r = record { decision = r.decision; reviewer = r.reviewer; comment = r.comment }

-- the review that is opened again after a request for more evidence
abbrev pub reopened : DeploymentReview → DeploymentReview
reopened r = record r {
  decision = ReviewDecision.pending;
  reviewer = none;
  reviewer_actor_id = none;
  reviewer_roles = [];
  comment = none;
  reviewed_at = none;
  previous_decisions = r.previous_decisions ++ previous_of r ∷ [];
}

abbrev pub new_review : ℕ → String → ProductionDeployment → DeploymentReview
new_review now id d = record {
  deployment_review_id = id;
  deployment_id = d.deployment_id;
  metric_version_id = d.metric_version_id;
  decision = ReviewDecision.pending;
  reviewer = none;
  reviewer_actor_id = none;
  reviewer_roles = [];
  reviewer_auth_source = none;
  reviewer_issuer = none;
  comment = none;
  package_hash = d.handover.content_hash;
  previous_decisions = [];
  created_at = now;
  reviewed_at = none;
}

abbrev pub decision_of : Verdict → ReviewDecision
decision_of Verdict.approved = ReviewDecision.approved
decision_of Verdict.rejected = ReviewDecision.rejected
decision_of Verdict.need_more_evidence = ReviewDecision.need_more_evidence

-- the review with its decision
abbrev pub decided : ℕ → DeploymentReview → ReviewRequest → ActorIdentity → DeploymentReview
decided now r payload identity = record r {
  decision = decision_of payload.decision;
  reviewer = some identity.display_name;
  reviewer_actor_id = some identity.actor_id;
  reviewer_roles = sorted_roles identity.roles;
  reviewer_auth_source = some identity.auth_source;
  reviewer_issuer = identity.issuer;
  comment = some payload.comment;
  reviewed_at = some now;
}

-- `_require_trusted_when_configured`
abbrev pub require_boundary : Bool → ActorIdentity → Outcome (Unit {0})
require_boundary false identity = ok tt
require_boundary true identity = from_identity (require_trusted identity)

abbrev pub desired_state :
    ℕ
    → String
    → DesiredStateSource
    → String
    → ProductionDeployment
    → MetricVersion
    → ActorIdentity
    → Option String
    → DesiredRuntimeState
desired_state now id source action_id d version identity detail = record {
  desired_state_id = id;
  metric_definition_id = d.metric_definition_id;
  metric_key = d.metric_key;
  environment_id = d.environment_id;
  desired_metric_version_id = version.metric_version_id;
  desired_version = version.version;
  source = source;
  source_action_id = action_id;
  source_deployment_id = some d.deployment_id;
  established_by = identity.actor_id;
  established_at = now;
  detail = detail;
}

-- `_establish_desired_state`
unfoldable pub establish : ℕ → ProductionStore → DesiredRuntimeState → ProductionStore
unfolding log_event
establish now st s =
    log_event now (record st { desired_states = s ∷ st.desired_states }) s.metric_definition_id
      ProductionEvent.desired_runtime_state_established s.established_by
      (some s.desired_metric_version_id) none

module _ (D : Digests) where
  abbrev pub review_row : ℕ → DeploymentReview → DeploymentReviewRow
  review_row now r = record {
    deployment_id = r.deployment_id;
    metric_version_id = r.metric_version_id;
    decision = r.decision;
    reviewer = r.reviewer;
    comment = r.comment;
    package_hash = r.package_hash;
    review_json = r;
    review_hash = D.review r;
    created_at = now;
    reviewed_at = none;
  }

  -- the row of a review that changed
  abbrev pub changed_row : DeploymentReviewRow → DeploymentReview → DeploymentReviewRow
  changed_row row r = record row {
    decision = r.decision;
    reviewer = r.reviewer;
    comment = r.comment;
    review_json = r;
    review_hash = D.review r;
    reviewed_at = r.reviewed_at;
  }

  -- the branch of `create_review` on a deployment whose review is open
  unfoldable pub reopen :
      ProductionStore → String → DeploymentReviewRow → Outcome (Committed DeploymentReview)
  reopen st key row = do
    raise_if (not (same_decision row.review_json.decision ReviewDecision.need_more_evidence))
        production_deployment_review_already_exists
    let r = reopened row.review_json
    commit (record st { reviews = put key (changed_row row r) st.reviews }) (ok r)

  -- the branch of `create_review` on a deployment with a validated shadow
  unfoldable pub open_review :
      ℕ → String → ProductionStore → ProductionDeployment → Outcome (Committed DeploymentReview)
  open_review now id st d = do
    raise_if (not (same_status d.status DeploymentStatus.shadow_validated))
        production_deployment_not_ready_for_review
    raise_if (not (shadow_passed d.shadow)) production_shadow_not_passed
    raise_if (is_some (get id st.reviews) || is_some (review_of d.deployment_id st.reviews))
        integrity_error
    let r = new_review now id d
    let st₁ : ProductionStore = record st { reviews = put id (review_row now r) st.reviews }
    d₁ ← validated (record d { review_id = some id })
    d₂ ← transition now d₁ DeploymentStatus.pending_deployment_review
    st₂ ← write now st₁ d₂
    commit st₂ (ok r)

  -- `DeploymentService.create_review`; a pending deployment without a review row is an
  -- `AttributeError`, which a store of the service never meets
  unfoldable pub create_review :
      ℕ → String → ProductionStore → String → ActorIdentity → Committed DeploymentReview
  unfolding reopen open_review
  create_review now id st deployment_id identity = since st (do
    from_identity (authorize identity review_production_deployment)
    d ← deployment D st deployment_id
    elim (same_status d.status DeploymentStatus.pending_deployment_review) [
      | true ↦ elim (review_of deployment_id st.reviews) [
        | none ↦ err integrity_error
        | some (key, row) ↦ reopen st key row
      ]
      | false ↦ open_review now id st d
    ])

  -- the `update` that demands a pending row
  unfoldable pub record_decision :
      ProductionStore → String → DeploymentReview → Outcome ProductionStore
  record_decision st key r = elim (get key st.reviews) [
    | none ↦ err production_deployment_review_already_decided
    | some row ↦ do
      raise_if (not (same_decision row.decision ReviewDecision.pending))
          production_deployment_review_already_decided
      ok (record st { reviews = put key (changed_row row r) st.reviews })
  ]

  -- what follows each verdict
  unfoldable pub settle :
      ℕ
      → String
      → ProductionStore
      → String
      → ProductionDeployment
      → Verdict
      → ActorIdentity
      → Outcome ProductionStore
  unfolding establish log_event
  settle now state_id st review_id d Verdict.need_more_evidence identity = ok st
  settle now state_id st review_id d Verdict.rejected identity = do
    d₁ ← transition now d DeploymentStatus.failed
    write now st d₁
  settle now state_id st review_id d Verdict.approved identity = do
    d₁ ← transition now d DeploymentStatus.approved
    st₁ ← write now st d₁
    let st₂ =
        log_event now st₁ d₁.metric_definition_id ProductionEvent.production_deployment_approved
          identity.actor_id (some d₁.metric_version_id) (some d₁.release_id)
    version ← from_registry (version_by_id D.document st₂.registry d₁.metric_version_id)
    ok (
        establish now st₂ (
          desired_state now state_id DesiredStateSource.deployment review_id d₁ version identity
            (some "established by the approved production deployment review")))

  -- `DeploymentService.decide_review`
  unfoldable pub decide_review :
      ℕ
      → String
      → Bool
      → ProductionStore
      → String
      → ReviewRequest
      → ActorIdentity
      → Committed DeploymentReview
  unfolding record_decision settle
  decide_review now state_id boundary st review_id payload identity = since st (do
    from_identity (authorize identity review_production_deployment)
    require_boundary boundary identity
    r ← review st review_id
    raise_if (not (same_decision r.decision ReviewDecision.pending))
        production_deployment_review_already_decided
    d ← deployment D st r.deployment_id
    raise_if (not (str_eq r.package_hash d.handover.content_hash))
        deployment_package_integrity_error
    profile ← environment_profile st d.environment_id
    raise_if (not (deployable profile)) production_environment_not_verified
    raise_if (not (shadow_passed d.shadow)) production_shadow_not_passed
    let updated = decided now r payload identity
    st₁ ← record_decision st review_id updated
    st₂ ← settle now state_id st₁ review_id d payload.decision identity
    commit st₂ (ok updated))
