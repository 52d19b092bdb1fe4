-- ===== src/Production/Deployments/Session.antt =====
-- The reads and single writes of DeploymentService (src/airi/production/service.py), with the
-- integrity checks of the source.
use airi.Prelude.{
  ◌≡◌, arith, ℕ, String, Bool, true, false, not, ◌||◌, Option, none, some, ◌==◌, str_eq, get, put,
  ok, err, ◌>>=◌, ◌>>◌, raise_if,
}
use airi.Production.Deployments.Models.{
  RuntimeMode, RuntimeBinding, ReviewDecision, DeploymentReview, ShadowStatus, ShadowResult,
  DeploymentStatus, ProductionDeployment, dishonest_flag, deployment_transitions,
}
use airi.Production.Deployments.Store.{
  DeploymentRow, ProductionStore, Outcome, production_deployment_not_found,
  production_deployment_integrity_error, deployment_package_integrity_error,
  production_deployment_review_not_found, production_deployment_evidence_changed,
  production_deployment_state_invalid, invalid_document,
}
use airi.Production.Deployments.Packaging.{Digests, deployment_package_hash}

abbrev status_tag : DeploymentStatus → ℕ
status_tag DeploymentStatus.created = 0
status_tag DeploymentStatus.preflight_validated = 1
status_tag DeploymentStatus.shadow_running = 2
status_tag DeploymentStatus.shadow_validated = 3
status_tag DeploymentStatus.pending_deployment_review = 4
status_tag DeploymentStatus.approved = 5
status_tag DeploymentStatus.deployed = 6
status_tag DeploymentStatus.monitoring = 7
status_tag DeploymentStatus.failed = 8
status_tag DeploymentStatus.rolled_back = 9
status_tag DeploymentStatus.rollback_reconciliation_required = 10
status_tag DeploymentStatus.reconciliation_verification_required = 11

-- `==` on statuses
unfoldable pub same_status : DeploymentStatus → DeploymentStatus → Bool
same_status a b = status_tag a == status_tag b

pub same_status_sound : (a b : DeploymentStatus) → same_status a b ≡ true → a ≡ b
unfolding same_status
same_status_sound a b h = ground arith

abbrev mode_tag : RuntimeMode → ℕ
mode_tag RuntimeMode.disabled = 0
mode_tag RuntimeMode.mock = 1
mode_tag RuntimeMode.spark_production = 2

abbrev decision_tag : ReviewDecision → ℕ
decision_tag ReviewDecision.pending = 0
decision_tag ReviewDecision.approved = 1
decision_tag ReviewDecision.rejected = 2
decision_tag ReviewDecision.need_more_evidence = 3

-- `==` on decisions of a deployment review
unfoldable pub same_decision : ReviewDecision → ReviewDecision → Bool
same_decision a b = decision_tag a == decision_tag b

pub same_decision_sound : (a b : ReviewDecision) → same_decision a b ≡ true → a ≡ b
unfolding same_decision
same_decision_sound a b h = ground arith

abbrev same_bool : Bool → Bool → Bool
same_bool true b = b
same_bool false b = not b

-- `shadow is None or shadow.status not in ("passed", "passed_with_warnings")`, negated
abbrev pub shadow_passed : Option ShadowResult → Bool
shadow_passed none = false
shadow_passed (some s) = elim s.status [
  | ShadowStatus.passed ↦ true
  | ShadowStatus.passed_with_warnings ↦ true
  | _ ↦ false
]

-- `decode` of a deployment: its schema's validator runs again
unfoldable pub validated : ProductionDeployment → Outcome ProductionDeployment
unfolding dishonest_flag
validated d = do raise_if (dishonest_flag d) invalid_document; ok d

module _ (D : Digests) where
  -- the tests of `DeploymentService.deployment` on a row and its document
  unfoldable pub row_differs : DeploymentRow → ProductionDeployment → Bool
  row_differs row d =
      not (same_status row.status d.status)
      || not (str_eq row.metric_version_id d.metric_version_id)
      || not (str_eq row.deployment_package_hash d.handover.content_hash)
      || not (same_bool row.production_deployed d.production_deployed)
      || not (mode_tag row.runtime_mode == mode_tag d.runtime_mode)
      || not (str_eq row.environment_id d.environment_id)

  -- `DeploymentService.deployment`
  unfoldable pub deployment : ProductionStore → String → Outcome ProductionDeployment
  unfolding row_differs validated deployment_package_hash
  deployment st id = elim (get id st.deployments) [
    | none ↦ err production_deployment_not_found
    | some row ↦ do
      d ← validated row.deployment_json
      raise_if (row_differs row d) production_deployment_integrity_error
      raise_if (not (str_eq (deployment_package_hash D d.handover) d.handover.content_hash))
          deployment_package_integrity_error
      ok d
  ]

-- `DeploymentService.review`
unfoldable pub review : ProductionStore → String → Outcome DeploymentReview
review st id = elim (get id st.reviews) [
  | none ↦ err production_deployment_review_not_found
  | some row ↦
      let r = row.review_json in
      do
        raise_if
            (not (same_decision row.decision r.decision)
              || not (str_eq row.package_hash r.package_hash))
            production_deployment_evidence_changed
        ok r
]

-- `_transition`
unfoldable pub transition :
    ℕ → ProductionDeployment → DeploymentStatus → Outcome ProductionDeployment
unfolding validated deployment_transitions
transition now d target = do
  raise_if (not (deployment_transitions d.status target)) production_deployment_state_invalid
  validated (record d { status = target; updated_at = now })

abbrev job_of : Option RuntimeBinding → Option String
job_of none = none
job_of (some b) = b.provider_job_id

-- the row that `_write` updates
abbrev pub written_row : ℕ → DeploymentRow → ProductionDeployment → DeploymentRow
written_row now row d = record row {
  status = d.status;
  runtime_mode = d.runtime_mode;
  production_deployed = d.production_deployed;
  provider_job_id = job_of d.runtime_binding;
  runtime_binding_json = d.runtime_binding;
  deployment_json = d;
  updated_at = now;
  deployed_at = d.deployed_at;
  rolled_back_at = d.rolled_back_at;
}

-- `_write`; the row of the deployment was read before
unfoldable pub write : ℕ → ProductionStore → ProductionDeployment → Outcome ProductionStore
write now st d = elim (get d.deployment_id st.deployments) [
  | none ↦ err production_deployment_not_found
  | some row ↦
      ok (record st { deployments = put d.deployment_id (written_row now row d) st.deployments })
]
