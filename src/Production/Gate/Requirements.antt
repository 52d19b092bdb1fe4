-- ===== src/Production/Gate/Requirements.antt =====
-- What each action needs before it may touch production, how strict the gate is, and what an
-- override may waive (src/airi/production/gate.py, src/airi/production/models.py).
use airi.Prelude.{
  ℕ, String, Bool, true, false, not, ◌&&◌, Option, none, some, List, [], ◌∷◌, if◌then◌else◌, str_eq,
  contains, keep, sorted_set, join, str_append, Result, ok, err, ltb,
}

pub data GateAction : Type 0 where
  deploy rollback reconciliation : GateAction

pub data EnvironmentKind : Type 0 where
  test production : EnvironmentKind

pub data VerificationEnforcementMode : Type 0 where
  report_only enforced : VerificationEnforcementMode

pub data GateResult : Type 0 where
  allowed blocked allowed_with_override : GateResult

pub data VerificationStatus : Type 0 where
  verified partially_verified not_verified failed : VerificationStatus

-- `ProductionEnvironmentProfile`, the fields that the gate reads
pub record EnvironmentProfile : Type 0 where
  pub environment_id : String
  pub environment_kind : EnvironmentKind
  pub synthetic_profile : Bool

-- `VerificationSection`
pub record VerificationSection : Type 0 where
  pub name : String
  pub status : VerificationStatus

-- `ProductionVerificationReport`, the fields that the gate reads
pub record VerificationReport : Type 0 where
  pub production_verification_run_id : String
  pub deployment_id : String
  pub metric_version_id : String
  pub sections : List VerificationSection
  pub overall : VerificationStatus

-- `EmergencyOverride`
pub record EmergencyOverride : Type 0 where
  pub emergency_override_id : String
  pub action : GateAction
  pub deployment_id : Option String
  pub environment_id : Option String
  pub reason : String
  pub requested_by : String
  pub approved_by : String
  pub waives : List String
  pub expires_at : ℕ

abbrev pub protected_requirements : List String
protected_requirements =
    "package_integrity" ∷ "artifact_integrity" ∷ "metric_version_identity" ∷ "actor_authentication"
    ∷ []

-- `set(value) & set(PROTECTED_REQUIREMENTS)`
abbrev pub is_protected : String → Bool
is_protected name = contains name protected_requirements

abbrev is_nil : List String → Bool
is_nil [] = true
is_nil (x ∷ xs) = false

-- `EmergencyOverride._reject_protected_waivers`
unfoldable pub reject_protected_waivers : List String → Result String (List String)
reject_protected_waivers value =
    let protected = sorted_set (keep is_protected value) in
    if is_nil protected
    then ok (sorted_set value)
    else err (
        str_append "an emergency override may not waive protected requirements: "
          (join ", " protected))

-- `EmergencyOverride.active_at`
unfoldable pub active_at : EmergencyOverride → ℕ → Bool
active_at override moment = ltb moment override.expires_at

abbrev pub gate_action_requirements : GateAction → List String
gate_action_requirements deploy =
    "environment" ∷ "identity" ∷ "adapter" ∷ "runtime_identity" ∷ "shadow" ∷ []
gate_action_requirements rollback = "environment" ∷ "identity" ∷ "adapter" ∷ []
gate_action_requirements reconciliation =
    "environment" ∷ "identity" ∷ "adapter" ∷ "runtime_identity" ∷ []

abbrev pub gate_action_capabilities : GateAction → List String
gate_action_capabilities deploy = []
gate_action_capabilities rollback = "rollback_capability" ∷ []
gate_action_capabilities reconciliation = []

abbrev is_production : EnvironmentKind → Bool
is_production production = true
is_production test = false

unfoldable pub resolve_enforcement_mode : EnvironmentProfile → String → VerificationEnforcementMode
resolve_enforcement_mode profile configured =
    if str_eq configured "report_only"
    then report_only
    else if str_eq configured "enforced"
    then enforced
    else if profile.synthetic_profile
    then report_only
    else if not (is_production profile.environment_kind)
    then report_only
    else enforced

-- The override's waivers, as the members of the set that the source builds.
unfoldable pub effective_waivers : Option EmergencyOverride → List String → List String
effective_waivers none required = []
effective_waivers (some override) required =
    keep (λ name. contains name required && not (is_protected name)) override.waives
