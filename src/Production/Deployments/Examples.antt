-- ===== src/Production/Deployments/Examples.antt =====
-- The theorems of the deployment service at the sample deployment
-- (src/airi/production/service.py).
use airi.Prelude.{
  ◌≡◌, ◌⊎◌, refl, true, false, none, some, get, put, str_eq, opt_eq, sorted_set, is_some, truthy,
  contains,
}
use airi.Registry.Session.{
  release, same_release_status, same_environment, same_version_status, release_review,
  same_decision, validation_report, same_eligibility, same_evidence_status, definition_by_id,
  version_by_id,
}
use airi.Production.Deployments.Creation.{already_in_flow, review_of_release, create}
use airi.Production.Deployments.Environments.{
  environment_profile, latest_fingerprint, log_event, register, require_deployable,
}
use airi.Production.Deployments.Models.{deployable, deployment_transitions, dishonest_flag}
use airi.Production.Deployments.Packaging.{
  build_package, package_failures, lineage_failures, packaged_failures, artifact_failures,
  environment_failures, deployment_package_hash, environment_profile_hash,
}
use airi.Production.Deployments.Session.{same_status, validated, deployment, transition, write}
use airi.Production.Deployments.Preflight.{
  preflight, gate_checks, checks_of, any_failed, adapter_missing, target_missing,
}
use airi.Production.Deployments.Shadow.{
  shadow, observed, shadow_result, shadow_findings, shadow_status, any_fatal, any_empty, baseline,
}
use airi.Production.Deployments.Reviews.{
  create_review, decide_review, review_of, open_review, record_decision, settle, establish,
}
use airi.Production.Identity.{authorize, action_roles, any_role, has_role, holds, sorted_roles}
use airi.Core.{same_version}
use airi.Production.Deployments.Deploying.{
  deploy, ready, hand_over, finish_deploy, missing_after, record_evidence, has_substring,
  starts_with,
}
use airi.Production.Deployments.Gatekeeping.{evaluate_gate, integrity_failures, active_override}
use airi.Production.Gate.Decision.{
  evaluate_verification_gate, protected_failures, missing_requirements, outcome, section_status,
  capability, evidence,
}
use airi.Production.Gate.Requirements.{resolve_enforcement_mode, effective_waivers}
use airi.Production.Deployments.Models.{DeploymentStatus}
use airi.Production.Deployments.Store.{DeploymentRow}
use airi.Production.Deployments.Session.{shadow_passed}
use airi.Production.Deployments.Governance.{
  IsGoverned, HasApproval, preflight_passed, past_review, past_preflight,
}
use airi.Production.Deployments.Runs.{Run-Governed, Run-IsReviewed, Run-IsUnobserved}
use airi.Production.Deployments.Sample.{
  found, digests, empty_store-IsGoverned, run_to_runtime, with_runtime, status_of,
}

deployed-found : is_some (get "m" with_runtime.deployments) ≡ true
unfolding get put str_eq opt_eq sorted_set truthy contains release same_release_status
    same_environment same_version_status release_review same_decision validation_report
    same_eligibility same_evidence_status definition_by_id version_by_id already_in_flow
    review_of_release create environment_profile latest_fingerprint log_event register
    require_deployable deployable deployment_transitions dishonest_flag build_package
    package_failures lineage_failures packaged_failures artifact_failures environment_failures
    deployment_package_hash environment_profile_hash same_status validated deployment transition
    write preflight gate_checks checks_of any_failed adapter_missing target_missing shadow observed
    shadow_result shadow_findings shadow_status any_fatal any_empty baseline create_review
    decide_review review_of open_review record_decision settle establish authorize action_roles
    any_role has_role holds sorted_roles same_version deploy ready hand_over finish_deploy
    missing_after record_evidence has_substring starts_with evaluate_gate integrity_failures
    active_override evaluate_verification_gate protected_failures missing_requirements outcome
    section_status capability evidence resolve_enforcement_mode effective_waivers
    airi.Production.Deployments.Session.review airi.Production.Deployments.Session.same_decision
deployed-found = refl

abbrev deployed_row : DeploymentRow
deployed_row = found (get "m" with_runtime.deployments) deployed-found

-- the run ends with a deployed row
deployed-row :
    (status_of with_runtime ≡ some DeploymentStatus.deployed)
    × (get "m" with_runtime.deployments ≡ some deployed_row)
    × (past_review deployed_row.status ≡ true)
unfolding get put str_eq opt_eq sorted_set truthy contains release same_release_status
    same_environment same_version_status release_review same_decision validation_report
    same_eligibility same_evidence_status definition_by_id version_by_id already_in_flow
    review_of_release create environment_profile latest_fingerprint log_event register
    require_deployable deployable deployment_transitions dishonest_flag build_package
    package_failures lineage_failures packaged_failures artifact_failures environment_failures
    deployment_package_hash environment_profile_hash same_status validated deployment transition
    write preflight gate_checks checks_of any_failed adapter_missing target_missing shadow observed
    shadow_result shadow_findings shadow_status any_fatal any_empty baseline create_review
    decide_review review_of open_review record_decision settle establish authorize action_roles
    any_role has_role holds sorted_roles same_version deploy ready hand_over finish_deploy
    missing_after record_evidence has_substring starts_with evaluate_gate integrity_failures
    active_override evaluate_verification_gate protected_failures missing_requirements outcome
    section_status capability evidence resolve_enforcement_mode effective_waivers
    airi.Production.Deployments.Session.review airi.Production.Deployments.Session.same_decision
    past_review
deployed-row = (refl, refl, refl)

Run-Governed_example : IsGoverned with_runtime
Run-Governed_example = Run-Governed digests run_to_runtime empty_store-IsGoverned

Run-IsReviewed_example :
    (preflight_passed deployed_row.deployment_json.preflight ≡ true)
    × (shadow_passed deployed_row.deployment_json.shadow ≡ true)
    × HasApproval with_runtime.reviews "m" deployed_row.deployment_json
Run-IsReviewed_example =
    Run-IsReviewed digests "m" run_to_runtime empty_store-IsGoverned deployed-row.1 deployed-row.2

Run-IsUnobserved_example :
    (deployed_row.deployment_json.production_deployed ≡ false)
    × ((past_preflight deployed_row.status ≡ false)
        ⊎ (deployed_row.deployment_json.handover.environment_fingerprint_hash ≡ none))
Run-IsUnobserved_example =
    Run-IsUnobserved digests "m" run_to_runtime empty_store-IsGoverned deployed-row.1
