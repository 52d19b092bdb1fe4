-- ===== src/Production/Deployments/Models/Targets.antt =====
-- Environments and the runtimes behind them (src/airi/production/models.py).
use airi.Prelude.{ℕ, String, Bool, true, false, ◌&&◌, Option}
use airi.Production.Gate.Requirements.{EnvironmentKind}

-- `ProductionExecutionMode`
pub data ExecutionMode : Type 0 where
  mock spark_production : ExecutionMode

-- `RuntimeMode`
pub data RuntimeMode : Type 0 where
  disabled mock spark_production : RuntimeMode

pub data VerificationSource : Type 0 where
  environment_validation_report synthetic_profile unverified : VerificationSource

-- `ProductionEnvironmentProfile`; its preflight is read-only by its schema
pub record ProductionEnvironmentProfile : Type 0 where
  pub environment_id : String
  pub name : String
  pub environment_kind : EnvironmentKind
  pub execution_mode : ExecutionMode
  pub deployment_enabled : Bool
  pub environment_validation_run_id : Option String
  pub verification_source : VerificationSource
  pub verified : Bool
  pub synthetic : Bool
  pub created_at : ℕ

-- `ProductionEnvironmentRequest`
pub record EnvironmentRequest : Type 0 where
  pub environment_id : String
  pub name : String
  pub environment_kind : EnvironmentKind
  pub execution_mode : ExecutionMode
  pub deployment_enabled : Bool
  pub environment_validation_run_id : Option String
  pub synthetic : Bool

-- `ProductionEnvironmentFingerprint`, the fields that the flow reads
pub record Fingerprint : Type 0 where
  pub environment_id : String
  pub fingerprint_hash : String
  pub reachable : Bool
  pub probed : Bool
  pub runtime_identity_verified : Bool
  pub observed_at : ℕ

abbrev pub is_production : EnvironmentKind → Bool
is_production EnvironmentKind.production = true
is_production EnvironmentKind.test = false

-- `ProductionEnvironmentProfile.deployable`
unfoldable pub deployable : ProductionEnvironmentProfile → Bool
deployable p = is_production p.environment_kind && p.verified && p.deployment_enabled

-- `ProductionEnvironmentFingerprint.verified`
abbrev pub fingerprint_verified : Fingerprint → Bool
fingerprint_verified f = f.reachable && f.probed
