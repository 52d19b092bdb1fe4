-- ===== src/Production/Deployments/Governance/Opening.antt =====
-- The calls before the review keep the invariant (src/airi/production/service.py:
-- DeploymentService.create and preflight).
use airi.Prelude.{
  is_some-false, ℕ, String, ◌≡◌, refl, sym, subst, Bool, true, false, not, Option, none, some,
  is_some, ◌∷◌, [], ◌++◌, arith, if◌then◌else◌, opt_eq, Table, get, Ensures-bind, Ensures-raise_if,
}
use airi.Core.{Version}
use airi.Registry.Models.{MetricVersion, MetricRelease}
use airi.Registry.Session.{version_by_id, definition_by_id}
use airi.Production.Identity.{ActorIdentity, authorize, request_production_deployment}
use airi.Production.Deployments.Models.{
  ProductionEnvironmentProfile, DeploymentPackage, PreflightResult, DeploymentStatus,
  ProductionDeployment,
}
use airi.Production.Deployments.Store.{
  DeploymentRow, DeploymentReviewRow, ProductionStore, Outcome, Committed, from_registry,
  from_identity, version_already_in_production_flow, production_deployment_not_preflightable,
  integrity_error,
}
use airi.Production.Deployments.Packaging.{Digests, build_package}
use airi.Production.Deployments.Environments.{
  log_event, environment_profile, require_deployable, latest_fingerprint,
}
use airi.Production.Deployments.Session.{same_status, written_row}
use airi.Production.Deployments.Creation.{
  AdapterFacts, NewIds, already_in_flow, approved_release, expected_version, new_deployment,
  new_row, create,
}
use airi.Production.Deployments.Preflight.{
  ValidationResult, gate_checks, result_of, preflight, check,
}
use airi.Production.Deployments.Rules.{
  since-Leaves, Ensures-validated, Ensures-transition, Ensures-deployment, Ensures-write,
}
use airi.Production.Deployments.Governance.{
  past_preflight, past_shadow, past_review, IsSound, IsGoverned,
}
use airi.Production.Deployments.Governance.Writes.{add-Governed, written-Governed}
use airi.Production.Deployments.Governance.Checks.{any_failed-append, gate_checks-unobserved}

module _ (D : Digests) where
  new-IsSound :
      (reviews : Table DeploymentReviewRow) (now : ℕ) (ids : NewIds) (adapter : AdapterFacts)
      (profile : ProductionEnvironmentProfile) (version : MetricVersion) (r : MetricRelease)
      (p : DeploymentPackage) (expected : Option Version) (identity : ActorIdentity)
      → IsSound reviews ids.deployment_id
          (new_row now (new_deployment now ids adapter profile version r p expected identity))
  unfolding past_preflight past_shadow past_review
  new-IsSound reviews now ids adapter profile version r p expected identity = record {
    named = refl;
    shown = refl;
    packaged = refl;
    preflighted = λ e. ground arith;
    shadowed = λ e. ground arith;
    reviewed = λ e. ground arith;
    undeployed = refl;
  }

  pub create-IsGoverned :
      (now : ℕ) (ids : NewIds) (adapter : AdapterFacts) (st : ProductionStore)
      (release_id environment_id : String) (identity : ActorIdentity)
      → IsGoverned st
      → IsGoverned (create D now ids adapter st release_id environment_id identity).store
  unfolding create
  create-IsGoverned now ids adapter st release_id environment_id identity g =
      let P : Committed ProductionDeployment → Type 0 = λ c. IsGoverned c.store in
      since-Leaves IsGoverned st _ g (
        Ensures-bind P (from_identity (authorize identity request_production_deployment)) _ λ _ _.
          Ensures-bind P (require_deployable st environment_id) _ λ profile _.
            Ensures-bind P (approved_release D st release_id) _ λ e _.
              Ensures-bind P
                (from_registry (version_by_id D.document st.registry e.0.metric_version_id)) _
                λ version _.
                  Ensures-raise_if P
                    (already_in_flow version.metric_version_id profile.environment_id
                      st.deployments)
                    version_already_in_production_flow _
                    λ _.
                      Ensures-bind P (latest_fingerprint st profile.environment_id) _
                        λ fingerprint _.
                          Ensures-bind P
                            (build_package D ids.package_id now st profile e.0 version e.1 e.2
                              fingerprint)
                            _
                            λ p _.
                              Ensures-bind P
                                (from_registry
                                  (definition_by_id st.registry version.metric_definition_id))
                                _
                                λ definition _.
                                  Ensures-bind P (expected_version D st definition) _ λ expected _.
                                    Ensures-validated P
                                      (new_deployment now ids adapter profile version e.0 p expected
                                        identity)
                                      _
                                      λ honest.
                                        Ensures-raise_if P
                                          (is_some (get ids.deployment_id st.deployments))
                                          integrity_error _
                                          λ fresh.
                                            add-Governed st.deployments st.reviews ids.deployment_id
                                              _ g
                                              (is_some-false (get ids.deployment_id st.deployments)
                                                fresh)
                                              (new-IsSound st.reviews now ids adapter profile
                                                version e.0 p expected identity))

  -- a preflight without a failed check
  preflight-IsSound :
      (reviews : Table DeploymentReviewRow) (now : ℕ) (old found : DeploymentRow) (passed : Bool)
      (result : PreflightResult)
      → IsSound reviews old.deployment_json.deployment_id old
      → result.passed ≡ passed
      → (passed ≡ true → old.deployment_json.handover.environment_fingerprint_hash ≡ none)
      → IsSound reviews old.deployment_json.deployment_id (
          written_row now found (record old.deployment_json {
            preflight = some result;
            status =
                if passed then DeploymentStatus.preflight_validated else DeploymentStatus.failed;
            updated_at = now;
          }))
  unfolding past_preflight past_shadow past_review
  preflight-IsSound reviews now old found true result s is bare = record {
    named = refl;
    shown = refl;
    packaged = s.packaged;
    preflighted = λ e. (is, bare refl);
    shadowed = λ e. ground arith;
    reviewed = λ e. ground arith;
    undeployed = s.undeployed;
  }
  preflight-IsSound reviews now old found false result s is bare = record {
    named = refl;
    shown = refl;
    packaged = s.packaged;
    preflighted = λ e. ground arith;
    shadowed = λ e. ground arith;
    reviewed = λ e. ground arith;
    undeployed = s.undeployed;
  }

  not-flip : (b : Bool) → not b ≡ true → b ≡ false
  not-flip b h = ground arith

  pub preflight-IsGoverned :
      (now : ℕ) (adapter : AdapterFacts) (validate : DeploymentPackage → Outcome ValidationResult)
      (st : ProductionStore) (id : String) (identity : ActorIdentity)
      → IsGoverned st
      → IsGoverned (preflight D now adapter validate st id identity).store
  unfolding preflight log_event
  preflight-IsGoverned now adapter validate st id identity g =
      let P : Committed ProductionDeployment → Type 0 = λ c. IsGoverned c.store in
      since-Leaves IsGoverned st _ g (
        Ensures-bind P (from_identity (authorize identity request_production_deployment)) _ λ _ _.
          Ensures-deployment D P st id _ λ row there.
            let d = row.deployment_json in
            Ensures-raise_if P (not (same_status d.status DeploymentStatus.created))
              production_deployment_not_preflightable _
              λ _. Ensures-bind P (environment_profile st d.environment_id) _ λ profile _.
                Ensures-bind P (gate_checks D adapter st d profile) _ λ gates found.
                  Ensures-bind P (validate d.handover) _ λ v _.
                    let rest =
                      v.checks
                      ++ check "live_runtime_fingerprint"
                          (opt_eq v.environment_fingerprint_hash
                            d.handover.environment_fingerprint_hash)
                          false
                        ∷ [] in
                    let result = result_of v.checks (gates ++ rest) in
                    Ensures-validated P (record d { preflight = some result }) _
                      λ _.
                        Ensures-transition P now (record d { preflight = some result })
                          (if result.passed
                            then DeploymentStatus.preflight_validated
                            else DeploymentStatus.failed)
                          _
                          λ _.
                            Ensures-write P now st
                              (record d {
                                preflight = some result;
                                status =
                                    if result.passed
                                    then DeploymentStatus.preflight_validated
                                    else DeploymentStatus.failed;
                                updated_at = now;
                              })
                              _
                              λ row' there'.
                                written-Governed st.deployments st.reviews now id row row' _ g there
                                  there' refl refl
                                  (preflight-IsSound st.reviews now row row' result.passed result
                                    (subst (λ x. IsSound st.reviews x row)
                                      (sym (g.sound id row there).named) (g.sound id row there))
                                    refl
                                    (λ passed.
                                      gate_checks-unobserved D adapter st d profile found
                                        (any_failed-append gates rest (not-flip _ passed)))))
