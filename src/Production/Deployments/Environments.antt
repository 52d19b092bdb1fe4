-- ===== src/Production/Deployments/Environments.antt =====
-- Production environments (src/airi/production/service.py, EnvironmentService): registration, reads,
-- the gate on deployable environments, and observed fingerprints. The probe of the runtime is a
-- parameter of the call that records a fingerprint: what it reports.
use airi.Prelude.{
  ℕ, String, Bool, true, false, not, ◌&&◌, ◌||◌, Option, none, some, [], ◌∷◌, if◌then◌else◌, ltb,
  ◌==◌, str_eq, is_some, Table, get, put, ok, err, ◌>>=◌, ◌>>◌, raise_if,
}
use airi.Production.Gate.Requirements.{EnvironmentKind}
use airi.Production.Identity.{
  ActorIdentity, authorize, register_production_environment, verify_production_environment,
}
use airi.Production.Deployments.Models.{
  ExecutionMode, VerificationSource, ProductionEnvironmentProfile, EnvironmentRequest, Fingerprint,
  is_production, deployable, fingerprint_verified,
}
use airi.Production.Deployments.Store.{
  EnvironmentRow, FingerprintRow, ProductionEvent, ProductionStore, Outcome, Committed, since,
  commit, from_identity, synthetic_production_profile_forbidden,
  synthetic_profile_requires_mock_execution, production_environment_already_registered,
  environment_validation_not_found, production_environment_not_found,
  production_environment_integrity_error, production_environment_not_verified,
  production_environment_fingerprint_required, production_environment_fingerprint_not_verified,
  production_deployment_evidence_changed, environment_fingerprint_not_applicable,
  production_runtime_unreachable, integrity_error,
}

-- `_event`
unfoldable pub log_event :
    ℕ
    → ProductionStore
    → String
    → ProductionEvent
    → String
    → Option String
    → Option String
    → ProductionStore
log_event now st scope event actor version_id release_id = record st {
  audit =
      record {
        scope = scope;
        event = event;
        actor = actor;
        metric_version_id = version_id;
        release_id = release_id;
        created_at = now;
      }
      ∷ st.audit;
}

abbrev kind_tag : EnvironmentKind → ℕ
kind_tag EnvironmentKind.test = 0
kind_tag EnvironmentKind.production = 1

abbrev pub is_spark_mode : ExecutionMode → Bool
is_spark_mode ExecutionMode.spark_production = true
is_spark_mode ExecutionMode.mock = false

abbrev same_bool : Bool → Bool → Bool
same_bool true b = b
same_bool false b = not b

-- `_verification`: `verified` and its source are decided here
unfoldable pub verification :
    ProductionStore → EnvironmentRequest → Outcome (Bool × VerificationSource)
verification st payload =
    if payload.synthetic
    then ok (is_production payload.environment_kind, VerificationSource.synthetic_profile)
    else elim payload.environment_validation_run_id [
      | none ↦ ok (false, VerificationSource.unverified)
      | some id ↦ elim (get id st.environment_validations) [
        | none ↦ err environment_validation_not_found
        | some row ↦ ok (
          is_production payload.environment_kind
              && is_spark_mode payload.execution_mode
              && row.for_production
              && row.passed,
          VerificationSource.environment_validation_report,
        )
      ]
    ]

abbrev registered :
    ℕ → EnvironmentRequest → Bool → VerificationSource → ProductionEnvironmentProfile
registered now payload verified source = record {
  environment_id = payload.environment_id;
  name = payload.name;
  environment_kind = payload.environment_kind;
  execution_mode = payload.execution_mode;
  deployment_enabled = payload.deployment_enabled;
  environment_validation_run_id = payload.environment_validation_run_id;
  verification_source = source;
  verified = verified;
  synthetic = payload.synthetic;
  created_at = now;
}

abbrev environment_row : ℕ → ProductionEnvironmentProfile → EnvironmentRow
environment_row now p = record {
  name = p.name;
  environment_kind = p.environment_kind;
  execution_mode = p.execution_mode;
  deployment_enabled = p.deployment_enabled;
  verified = p.verified;
  profile_json = p;
  created_at = now;
}

-- `EnvironmentService.register`; `live` is whether the settings name the production environment
unfoldable pub register :
    ℕ
    → Bool
    → ProductionStore
    → EnvironmentRequest
    → ActorIdentity
    → Committed ProductionEnvironmentProfile
unfolding verification log_event
register now live st payload identity = since st (do
  from_identity (authorize identity register_production_environment)
  raise_if (payload.synthetic && live) synthetic_production_profile_forbidden
  raise_if (payload.synthetic && is_spark_mode payload.execution_mode)
      synthetic_profile_requires_mock_execution
  raise_if (is_some (get payload.environment_id st.environments))
      production_environment_already_registered
  (verified, source) ← verification st payload
  let profile = registered now payload verified source
  let st₁ : ProductionStore = record st {
    environments = put profile.environment_id (environment_row now profile) st.environments;
  }
  commit
      (log_event now st₁ "production_environment" ProductionEvent.production_environment_registered
        identity.actor_id none none)
      (ok profile))

-- `EnvironmentService.profile`
unfoldable pub environment_profile : ProductionStore → String → Outcome ProductionEnvironmentProfile
environment_profile st id = elim (get id st.environments) [
  | none ↦ err production_environment_not_found
  | some row ↦
      let profile = row.profile_json in
      do
        raise_if
            (not (kind_tag row.environment_kind == kind_tag profile.environment_kind)
              || not (
                  same_bool (is_spark_mode row.execution_mode)
                    (is_spark_mode profile.execution_mode))
              || not (same_bool row.deployment_enabled profile.deployment_enabled)
              || not (same_bool row.verified profile.verified)
              || not (str_eq id profile.environment_id))
            production_environment_integrity_error
        ok profile
]

-- the row that `latest_fingerprint` selects: the newest of the environment
unfoldable pub newest_fingerprint : String → Table FingerprintRow → Option FingerprintRow
newest_fingerprint id [] = none
newest_fingerprint id ((key, row) ∷ t) =
    let rest = newest_fingerprint id t in
    if str_eq row.environment_id id
    then elim rest [
      | none ↦ some row
      | some later ↦ if ltb row.observed_at later.observed_at then some later else some row
    ]
    else rest

-- `fingerprint_by_id` of a row
unfoldable pub verify_fingerprint : FingerprintRow → Outcome Fingerprint
verify_fingerprint row = do
  raise_if (not (str_eq row.fingerprint_hash row.fingerprint_json.fingerprint_hash))
      production_deployment_evidence_changed
  ok row.fingerprint_json

-- `latest_fingerprint`
unfoldable pub latest_fingerprint : ProductionStore → String → Outcome (Option Fingerprint)
unfolding newest_fingerprint verify_fingerprint
latest_fingerprint st id = elim (newest_fingerprint id st.fingerprints) [
  | none ↦ ok none
  | some row ↦ do f ← verify_fingerprint row; ok (some f)
]

abbrev require_fingerprint : Option Fingerprint → Outcome (Unit {0})
require_fingerprint none = err production_environment_fingerprint_required
require_fingerprint (some f) =
    raise_if (not (fingerprint_verified f)) production_environment_fingerprint_not_verified

-- `require_deployable`
unfoldable pub require_deployable : ProductionStore → String → Outcome ProductionEnvironmentProfile
unfolding environment_profile latest_fingerprint
require_deployable st id = do
  profile ← environment_profile st id
  raise_if (not (deployable profile)) production_environment_not_verified
  elim (is_spark_mode profile.execution_mode && not profile.synthetic) [
    | false ↦ ok profile
    | true ↦ do fingerprint ← latest_fingerprint st id; require_fingerprint fingerprint; ok profile
  ]

abbrev fingerprint_row : ℕ → Fingerprint → FingerprintRow
fingerprint_row now f = record {
  environment_id = f.environment_id;
  fingerprint_hash = f.fingerprint_hash;
  fingerprint_json = f;
  observed_at = f.observed_at;
}

-- `EnvironmentService.fingerprint`; `probed` is what the probe of the runtime reports, whose
-- fingerprint names the environment that it was asked for
unfoldable pub record_fingerprint :
    ℕ → String → Fingerprint → ProductionStore → String → ActorIdentity → Committed Fingerprint
unfolding environment_profile log_event
record_fingerprint now id probed st environment_id identity = since st (do
  from_identity (authorize identity verify_production_environment)
  profile ← environment_profile st environment_id
  raise_if (not (is_spark_mode profile.execution_mode)) environment_fingerprint_not_applicable
  raise_if (not probed.reachable) production_runtime_unreachable
  raise_if (is_some (get id st.fingerprints)) integrity_error
  let fingerprint : Fingerprint = record probed { environment_id = environment_id }
  let st₁ : ProductionStore = record st {
    fingerprints = put id (fingerprint_row now fingerprint) st.fingerprints;
  }
  let st₂ =
      log_event now st₁ "production_environment" ProductionEvent.production_environment_verified
        identity.actor_id none none
  commit
      (if fingerprint.runtime_identity_verified
        then log_event now st₂ "production_environment" ProductionEvent.runtime_identity_verified
            identity.actor_id none none
        else st₂)
      (ok fingerprint))
