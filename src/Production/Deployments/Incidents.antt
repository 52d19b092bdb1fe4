-- ===== src/Production/Deployments/Incidents.antt =====
-- Packages, decided reviews and interrupted shadows at the sample deployment
-- (src/airi/production/packaging.py and service.py).
use airi.Prelude.{
  ◌≡◌, refl, true, false, none, some, [], get, put, str_eq, opt_eq, sorted_set, is_some, truthy,
  contains, ok, err, returned, inl, Distinct,
}
use airi.Registry.Session.{
  release, same_release_status, same_environment, same_version_status, release_review,
  same_decision, validation_report, same_eligibility, same_evidence_status, definition_by_id,
  version_by_id,
}
use airi.Production.Deployments.Creation.{already_in_flow, review_of_release, create}
use airi.Production.Deployments.Environments.{
  environment_profile, latest_fingerprint, log_event, register, require_deployable,
}
use airi.Production.Deployments.Models.{deployable, deployment_transitions, dishonest_flag}
use airi.Production.Deployments.Packaging.{
  build_package, package_failures, lineage_failures, packaged_failures, artifact_failures,
  environment_failures, deployment_package_hash, environment_profile_hash,
}
use airi.Production.Deployments.Session.{same_status, validated, deployment, transition, write}
use airi.Production.Deployments.Preflight.{
  preflight, gate_checks, checks_of, any_failed, adapter_missing, target_missing,
}
use airi.Production.Deployments.Shadow.{
  shadow, observed, shadow_result, shadow_findings, shadow_status, any_fatal, any_empty, baseline,
}
use airi.Production.Deployments.Reviews.{
  create_review, decide_review, review_of, open_review, record_decision, settle, establish,
}
use airi.Production.Identity.{authorize, action_roles, any_role, has_role, holds, sorted_roles}
use airi.Core.{same_version}
use airi.Production.Deployments.Deploying.{
  deploy, ready, hand_over, finish_deploy, missing_after, record_evidence, has_substring,
  starts_with,
}
use airi.Production.Deployments.Gatekeeping.{evaluate_gate, integrity_failures, active_override}
use airi.Production.Gate.Decision.{
  evaluate_verification_gate, protected_failures, missing_requirements, outcome, section_status,
  capability, evidence,
}
use airi.Production.Gate.Requirements.{resolve_enforcement_mode, effective_waivers}
use airi.Approvals.Service.{Artifact, ArtifactRow}
use airi.Registry.Models.{
  MetricVersion, MetricVersionStatus, ReleaseStatus, MetricRelease, Document,
}
use airi.Registry.Sample.{version_of, release_of, v2_0}
use airi.Production.Identity.{request_production_deployment, review_production_deployment}
use airi.Production.Deployments.Models.{
  ReviewDecision, DeploymentReview, DeploymentStatus, ProductionEnvironmentProfile,
  DeploymentPackage, ShadowObservation, ProductionDeployment,
}
use airi.Production.Deployments.Store.{
  DeploymentRow, Outcome, ProductionStore, production_adapter_unavailable,
  production_deployment_not_preflightable, production_deployment_not_shadowable,
  production_deployment_not_ready_for_review, production_deployment_not_approved,
}
use airi.Production.Deployments.Session.{review, written_row}
use airi.Production.Deployments.Packaging.{sealed, assembled}
use airi.Production.Deployments.Packaging.Soundness.{build_package-verifies, package_failures-none}
use airi.Production.Deployments.Governance.Stuck.{shadow-interrupted, shadow_running-refused}
use airi.Production.Deployments.Governance.Finality.{opened, unchanged, decide_review-stands}
use airi.Production.Deployments.Sample.{
  found, digests, query, report, release_verdict, deployer, adapter, answer, settings, provider,
  approval, with_environment, after_preflight, approved,
}

-- the environment of the sample, and its deployment after the preflight
present :
    (is_some (get "e" with_environment.environments) ≡ true)
    × (is_some (get "m" after_preflight.deployments) ≡ true)
unfolding get put str_eq opt_eq sorted_set truthy contains release same_release_status
    same_environment same_version_status release_review same_decision validation_report
    same_eligibility same_evidence_status definition_by_id version_by_id already_in_flow
    review_of_release create environment_profile latest_fingerprint log_event register
    require_deployable deployable deployment_transitions dishonest_flag build_package
    package_failures lineage_failures packaged_failures artifact_failures environment_failures
    deployment_package_hash environment_profile_hash same_status validated deployment transition
    write preflight gate_checks checks_of any_failed adapter_missing target_missing shadow observed
    shadow_result shadow_findings shadow_status any_fatal any_empty baseline create_review
    decide_review review_of open_review record_decision settle establish authorize action_roles
    any_role has_role holds sorted_roles same_version deploy ready hand_over finish_deploy
    missing_after record_evidence has_substring starts_with evaluate_gate integrity_failures
    active_override evaluate_verification_gate protected_failures missing_requirements outcome
    section_status capability evidence resolve_enforcement_mode effective_waivers review
    airi.Production.Deployments.Session.same_decision
present = (refl, refl)

abbrev profile : ProductionEnvironmentProfile
profile = (found (get "e" with_environment.environments) present.0).profile_json

abbrev v3 : MetricVersion
v3 = version_of "v3" v2_0 MetricVersionStatus.release_candidate

abbrev approved_release_of : MetricRelease
approved_release_of = release_of "v3" ReleaseStatus.approved (some "v2")

abbrev packed : DeploymentPackage
packed =
    sealed digests (
      assembled digests "k" 2 profile approved_release_of v3 release_verdict report none query.code)

abbrev preflighted_row : DeploymentRow
preflighted_row = found (get "m" after_preflight.deployments) present.1

abbrev failing : DeploymentPackage → Outcome ShadowObservation
failing p = err production_adapter_unavailable

abbrev interrupted : ProductionStore
interrupted = (shadow digests 4 adapter failing after_preflight "m" deployer).store

abbrev running : ProductionDeployment
running = record preflighted_row.deployment_json {
  status = DeploymentStatus.shadow_running;
  updated_at = 4;
}

approved_present : is_some (get "y" approved.reviews) ≡ true
unfolding get put str_eq opt_eq sorted_set truthy contains release same_release_status
    same_environment same_version_status release_review same_decision validation_report
    same_eligibility same_evidence_status definition_by_id version_by_id already_in_flow
    review_of_release create environment_profile latest_fingerprint log_event register
    require_deployable deployable deployment_transitions dishonest_flag build_package
    package_failures lineage_failures packaged_failures artifact_failures environment_failures
    deployment_package_hash environment_profile_hash same_status validated deployment transition
    write preflight gate_checks checks_of any_failed adapter_missing target_missing shadow observed
    shadow_result shadow_findings shadow_status any_fatal any_empty baseline create_review
    decide_review review_of open_review record_decision settle establish authorize action_roles
    any_role has_role holds sorted_roles same_version review
    airi.Production.Deployments.Session.same_decision
approved_present = refl

abbrev approving : DeploymentReview
approving = (found (get "y" approved.reviews) approved_present).review_json

-- after the approval, a second review of the deployment is asked for
abbrev asked_again : ProductionStore
asked_again = (create_review digests 8 "z" approved "m" deployer).store

-- what the calls of the sample read and answer
readings :
    (build_package digests "k" 2 with_environment profile approved_release_of v3 release_verdict
        report none
      ≡ ok packed)
    × (version_by_id digests.document with_environment.registry "v3" ≡ ok v3)
    × (authorize deployer request_production_deployment ≡ ok tt)
    × (authorize deployer review_production_deployment ≡ ok tt)
    × (deployment digests after_preflight "m" ≡ ok preflighted_row.deployment_json)
    × (get preflighted_row.deployment_json.deployment_id after_preflight.deployments
        ≡ some preflighted_row)
    × (dishonest_flag preflighted_row.deployment_json ≡ false)
    × (environment_profile after_preflight preflighted_row.deployment_json.environment_id
        ≡ ok profile)
    × (review approved "y" ≡ ok approving)
    × (preflighted_row.deployment_json.status ≡ DeploymentStatus.preflight_validated)
    × (deployment digests interrupted "m" ≡ ok running)
    × (approving.decision ≡ ReviewDecision.approved)
    × Distinct approved.reviews
unfolding get put str_eq opt_eq sorted_set truthy contains release same_release_status
    same_environment same_version_status release_review same_decision validation_report
    same_eligibility same_evidence_status definition_by_id version_by_id already_in_flow
    review_of_release create environment_profile latest_fingerprint log_event register
    require_deployable deployable deployment_transitions dishonest_flag build_package
    package_failures lineage_failures packaged_failures artifact_failures environment_failures
    deployment_package_hash environment_profile_hash same_status validated deployment transition
    write preflight gate_checks checks_of any_failed adapter_missing target_missing shadow observed
    shadow_result shadow_findings shadow_status any_fatal any_empty baseline create_review
    decide_review review_of open_review record_decision settle establish authorize action_roles
    any_role has_role holds sorted_roles same_version deploy ready hand_over finish_deploy
    missing_after record_evidence has_substring starts_with evaluate_gate integrity_failures
    active_override evaluate_verification_gate protected_failures missing_requirements outcome
    section_status capability evidence resolve_enforcement_mode effective_waivers review
    airi.Production.Deployments.Session.same_decision
readings = (refl, refl, refl, refl, refl, refl, refl, refl, refl, refl, refl, refl, (refl, tt))

build_package-verifies_example :
    package_failures digests with_environment packed profile none ≡ ok []
build_package-verifies_example =
    build_package-verifies digests "k" 2 with_environment profile approved_release_of v3
      release_verdict report none readings.0 readings.1

package_failures-none_example :
    (version : MetricVersion) × (row : ArtifactRow) × (artifact : Artifact) × (version_by_id
        digests.document with_environment.registry "v3"
      ≡ ok version)
    × (get "v3" with_environment.artifacts ≡ some row)
    × (row.snapshot.artifact ≡ some artifact)
    × (packed.sql ≡ artifact.code)
    × (digests.text packed.sql ≡ packed.sql_hash)
    × (digests.artifact artifact ≡ packed.artifact_hash)
    × (version.artifact_hash ≡ packed.artifact_hash)
    × (version.content_hash ≡ packed.metric_version_content_hash)
    × (digests.document (Document.metric_ir packed.metric_ir) ≡ version.metric_ir_hash)
    × (environment_profile_hash digests profile ≡ packed.environment_profile_hash)
    × (deployment_package_hash digests packed ≡ packed.content_hash)
package_failures-none_example =
    package_failures-none digests with_environment packed profile none
      build_package-verifies_example

shadow-interrupted_example :
    ((shadow digests 4 adapter failing after_preflight "m" deployer).result
      ≡ err production_adapter_unavailable)
    × (get preflighted_row.deployment_json.deployment_id interrupted.deployments
        ≡ some (
            written_row 4 preflighted_row (record preflighted_row.deployment_json {
              status = DeploymentStatus.shadow_running;
              updated_at = 4;
            })))
shadow-interrupted_example =
    shadow-interrupted digests 4 adapter failing after_preflight "m" deployer readings.2 readings.4
      readings.5 readings.6 readings.9 readings.7 refl

shadow_running-refused_example :
    (preflight digests 8 adapter answer interrupted "m" deployer
      ≡ record { store = interrupted; result = err production_deployment_not_preflightable })
    × (shadow digests 8 adapter failing interrupted "m" deployer
        ≡ record { store = interrupted; result = err production_deployment_not_shadowable })
    × (create_review digests 8 "y" interrupted "m" deployer
        ≡ record { store = interrupted; result = err production_deployment_not_ready_for_review })
    × (deploy digests 8 "i" settings adapter provider interrupted "m" deployer
        ≡ record { store = interrupted; result = err production_deployment_not_approved })
shadow_running-refused_example =
    shadow_running-refused digests 8 adapter answer failing "y" "i" settings provider interrupted
      "m" deployer readings.2 readings.3 readings.10 refl

decide_review-stands_example :
    (review asked_again "y" ≡ ok approving)
    × (returned (decide_review digests 9 "q" false asked_again "y" approval deployer).result
        ≡ false)
decide_review-stands_example =
    decide_review-stands digests "y" approving readings.12 readings.8 (inl readings.11)
      (opened 8 "z" "m" deployer unchanged) 9 "q" false approval deployer
