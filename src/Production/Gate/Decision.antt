-- ===== src/Production/Gate/Decision.antt =====
-- The gate's decision (src/airi/production/gate.py). `evaluate_verification_gate` is the source's
-- function of that name; its three lists are definitions of their own.
use airi.Prelude.{
  String, Bool, true, false, not, ◌&&◌, ◌||◌, Option, none, some, List, [], ◌∷◌, ◌++◌, keep,
  if◌then◌else◌, str_eq, contains, truthy, sorted_set, sorted, join, str_append,
}
use airi.Production.Gate.Requirements.{
  GateAction, EnvironmentKind, VerificationEnforcementMode, GateResult, VerificationStatus,
  EnvironmentProfile, VerificationSection, VerificationReport, EmergencyOverride, report_only,
  enforced, allowed, blocked, allowed_with_override, verified, gate_action_requirements,
  gate_action_capabilities, resolve_enforcement_mode, effective_waivers,
}

-- What the caller hands to the gate, by keyword.
pub record GateInput : Type 0 where
  pub action : GateAction
  pub deployment_id : String
  pub environment_id : String
  pub environment_kind : EnvironmentKind
  pub profile : EnvironmentProfile
  pub report : Option VerificationReport
  pub capabilities : List (String × Bool)
  pub integrity_failures : List String
  pub actor_authenticated : Bool
  pub actor_trusted : Bool
  pub trust_boundary_configured : Bool
  pub configured_mode : String
  pub override : Option EmergencyOverride
  pub policy_version : String
  pub decided_by : Option String

-- the dictionary of `_evidence`
pub record GateEvidence : Type 0 where
  pub report_id : Option String
  pub report_overall : Option VerificationStatus
  pub report_sections : List VerificationSection
  pub capabilities : List (String × Bool)
  pub override_id : Option String
  pub override_waives : List String

-- `VerificationGateDecision`; its id and moment are set by the schema's defaults
pub record GateDecision : Type 0 where
  pub action : GateAction
  pub deployment_id : String
  pub environment_id : String
  pub environment_kind : EnvironmentKind
  pub mode : VerificationEnforcementMode
  pub result : GateResult
  pub required_sections : List String
  pub missing_requirements : List String
  pub integrity_requirements : List String
  pub evidence_refs : GateEvidence
  pub report_id : Option String
  pub policy_version : String
  pub override_id : Option String
  pub detail : String
  pub decided_by : Option String

abbrev pub sections_of : Option VerificationReport → List VerificationSection
sections_of none = []
sections_of (some r) = r.sections

-- `sections.get(name)`: the dictionary is built in order, so the last section of a name counts.
unfoldable pub section_status : String → List VerificationSection → Option VerificationStatus
section_status name [] = none
section_status name (s ∷ ss) =
    let later = section_status name ss in
    elim later [ some v ↦ some v | none ↦ if str_eq s.name name then some s.status else none ]

abbrev pub is_verified : Option VerificationStatus → Bool
is_verified (some verified) = true
is_verified _ = false

-- `capabilities.get(name)`, as a truth value; a dictionary holds each name once
unfoldable pub capability : String → List (String × Bool) → Bool
capability name [] = false
capability name ((k, v) ∷ rest) = if str_eq k name then v else capability name rest

put_section : VerificationSection → List VerificationSection → List VerificationSection
put_section s [] = s ∷ []
put_section s (t ∷ ts) = if str_eq s.name t.name then s ∷ ts else t ∷ put_section s ts

-- `{item.name: item.status for item in report.sections}`
section_dict : List VerificationSection → List VerificationSection → List VerificationSection
unfolding put_section
section_dict d [] = d
section_dict d (s ∷ ss) = section_dict (put_section s d) ss

abbrev report_id_of : Option VerificationReport → Option String
report_id_of none = none
report_id_of (some r) = some r.production_verification_run_id

abbrev overall_of : Option VerificationReport → Option VerificationStatus
overall_of none = none
overall_of (some r) = some r.overall

abbrev override_id_of : Option EmergencyOverride → Option String
override_id_of none = none
override_id_of (some o) = some o.emergency_override_id

abbrev waives_of : Option EmergencyOverride → List String
waives_of none = []
waives_of (some o) = sorted_set o.waives

unfoldable pub evidence : GateInput → GateEvidence
unfolding section_dict
evidence g = record {
  report_id = report_id_of g.report;
  report_overall = overall_of g.report;
  report_sections = section_dict [] (sections_of g.report);
  capabilities = g.capabilities;
  override_id = override_id_of g.override;
  override_waives = waives_of g.override;
}

abbrev pub when : Bool → String → List String
when true name = name ∷ []
when false name = []

abbrev pub foreign_report : Option VerificationReport → String → Bool
foreign_report none deployment_id = false
foreign_report (some r) deployment_id =
    truthy (some r.metric_version_id) && not (str_eq r.deployment_id deployment_id)

-- `protected_failures`
unfoldable pub protected_failures : GateInput → List String
protected_failures g =
    when (not g.actor_authenticated || g.trust_boundary_configured && not g.actor_trusted)
      "actor_authentication"
    ++ (g.integrity_failures
        ++ when (foreign_report g.report g.deployment_id) "metric_version_identity")

abbrev pub unverified : GateInput → String → Bool
unverified g name = not (is_verified (section_status name (sections_of g.report)))

abbrev pub incapable : GateInput → String → Bool
incapable g name = not (capability name g.capabilities)

-- `missing`
unfoldable pub missing_requirements : GateInput → List String
missing_requirements g = sorted_set (
    keep (unverified g) (gate_action_requirements g.action)
    ++ keep (incapable g) (gate_action_capabilities g.action))

abbrev is_none : List String → Bool
is_none [] = true
is_none (x ∷ xs) = false

-- the parts that differ between the four decisions
pub record Outcome : Type 0 where
  pub result : GateResult
  pub missing : List String
  pub integrity : List String
  pub detail : String

abbrev pub mode_of : GateInput → VerificationEnforcementMode
mode_of g = resolve_enforcement_mode g.profile g.configured_mode

abbrev pub waivers_of : GateInput → List String
waivers_of g = effective_waivers g.override (gate_action_requirements g.action)

-- `missing` without what is waived
abbrev pub remaining_requirements : GateInput → List String
remaining_requirements g =
    keep (λ name. not (contains name (waivers_of g))) (missing_requirements g)

abbrev pub waived_requirements : GateInput → List String
waived_requirements g = keep (λ name. contains name (waivers_of g)) (missing_requirements g)

enforce : GateInput → Outcome
enforce g =
    let missing = missing_requirements g in
    let waived = waived_requirements g in
    let remaining = remaining_requirements g in
    if is_none remaining
    then record {
      result = if is_none waived then allowed else allowed_with_override;
      missing = missing;
      integrity = [];
      detail =
          str_append "enforced: the required evidence is present"
            (if is_none waived then "" else str_append "; waived by override: " (join ", " waived));
    }
    else record {
      result = blocked;
      missing = remaining;
      integrity = [];
      detail =
          str_append "enforced: this production action is missing verified evidence for "
            (join ", " remaining);
    }

outcome_in : VerificationEnforcementMode → GateInput → Outcome
unfolding enforce
outcome_in report_only g = record {
  result = allowed;
  missing = missing_requirements g;
  integrity = [];
  detail =
      "report_only: the verification result is recorded and does not block this action in a non-production or synthetic environment";
}
outcome_in enforced g = enforce g

unfoldable pub outcome : GateInput → Outcome
unfolding outcome_in
outcome g =
    let failures = protected_failures g in
    if is_none failures then outcome_in (mode_of g) g else record {
      result = blocked;
      missing = sorted_set (missing_requirements g ++ failures);
      integrity = sorted failures;
      detail = str_append "a protected requirement failed: " (
          str_append (join ", " (sorted failures))
            ". No emergency override may waive integrity or authentication.");
    }

unfoldable pub evaluate_verification_gate : GateInput → GateDecision
unfolding outcome evidence
evaluate_verification_gate g =
    let o = outcome g in
    record {
      action = g.action;
      deployment_id = g.deployment_id;
      environment_id = g.environment_id;
      environment_kind = g.environment_kind;
      mode = mode_of g;
      result = o.result;
      required_sections = gate_action_requirements g.action;
      missing_requirements = o.missing;
      integrity_requirements = o.integrity;
      evidence_refs = evidence g;
      report_id = report_id_of g.report;
      policy_version = g.policy_version;
      override_id = override_id_of g.override;
      detail = o.detail;
      decided_by = g.decided_by;
    }
