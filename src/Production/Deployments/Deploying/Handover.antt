-- ===== src/Production/Deployments/Deploying/Handover.antt =====
-- The call of the provider and what follows its answer (src/airi/production/service.py,
-- DeploymentService.deploy and _record_deployment_evidence).
use Prim.Native.String.{String}
use airi.Prelude.{
  ℕ, Bool, true, false, not, ◌&&◌, ◌||◌, Option, none, some, List, [], ◌∷◌, ◌++◌, if◌then◌else◌,
  str_eq, opt_eq, is_some, keep, sorted_set, ok, err, ◌>>=◌,
}
use airi.Production.Models.{RuntimeState}
use airi.Production.Identity.{ActorIdentity}
use airi.Production.Deployments.Models.{
  RuntimeMode, DeploymentPackage, RuntimeBinding, DeploymentStatus, ProductionDeployment,
}
use airi.Production.Deployments.Store.{
  EvidenceRow, ProductionEvent, ProductionStore, Outcome, Committed, commit,
  production_deployment_status_unconfirmed, production_deployment_failed,
}
use airi.Production.Deployments.Environments.{log_event}
use airi.Production.Deployments.Session.{transition, validated, write}
use airi.Production.Deployments.Creation.{AdapterFacts}

pub data ProviderStatus : Type 0 where
  deployed failed not_verified : ProviderStatus

-- `ProductionDeploymentResult`
pub record DeploymentResult : Type 0 where
  pub status : ProviderStatus
  pub provider_job_id : Option String
  pub runtime_identity : Option String
  pub runtime_identity_verified : Bool
  pub environment_fingerprint_hash : Option String

-- `ProductionDeploymentStatus`, what the runtime says of itself
pub record RuntimeStatus : Type 0 where
  pub runtime_state : RuntimeState
  pub active_version_id : Option String

-- the answers of the adapter to `deploy` and to `status`
pub record DeployAnswers : Type 0 where
  pub deploy_package : DeploymentPackage → String → Outcome DeploymentResult
  pub runtime_status : String → Outcome RuntimeStatus

abbrev pub provider_deployed : DeploymentResult → Bool
provider_deployed r = elim r.status [ ProviderStatus.deployed ↦ true | _ ↦ false ]

abbrev pub is_active : RuntimeState → Bool
is_active s = elim s [ RuntimeState.active ↦ true | _ ↦ false ]

-- `status_confirmed`
abbrev pub confirmed : Option RuntimeStatus → String → Bool
confirmed none version_id = false
confirmed (some s) version_id =
    is_active s.runtime_state && opt_eq s.active_version_id (some version_id)

abbrev is_mock : RuntimeMode → Bool
is_mock m = elim m [ RuntimeMode.mock ↦ true | _ ↦ false ]

-- whether a text begins with another
unfoldable pub starts_with : String → String → Bool
starts_with String.[] s = true
starts_with (String.◌∷◌ c p) String.[] = false
starts_with (String.◌∷◌ c p) (String.◌∷◌ d s) =
    str_eq (String.◌∷◌ c String.[]) (String.◌∷◌ d String.[]) && starts_with p s

-- `p in s` of two texts
unfoldable pub has_substring : String → String → Bool
unfolding starts_with
has_substring p String.[] = starts_with p String.[]
has_substring p (String.◌∷◌ c s) = starts_with p (String.◌∷◌ c s) || has_substring p s

-- the list `missing` after the provider has answered
unfoldable pub missing_after : AdapterFacts → DeploymentResult → ProductionDeployment → List String
unfolding has_substring
missing_after adapter result d =
    (if result.runtime_identity_verified
      then keep (λ item. not (has_substring "runtime identity" item)) d.missing_evidence
      else d.missing_evidence ++ "real production runtime identity not verified" ∷ [])
    ++ ((if is_mock adapter.runtime_mode
          then "synthetic mock provider; no real production runtime" ∷ []
          else [])
        ++ (if is_some d.environment_fingerprint_hash
            then []
            else "no verified production environment fingerprint" ∷ []))

-- `production_deployed`
abbrev pub is_production_deployed :
    AdapterFacts → DeploymentResult → Bool → ProductionDeployment → Bool
is_production_deployed adapter result status_confirmed d =
    adapter.authoritative
    && provider_deployed result
    && result.runtime_identity_verified
    && status_confirmed
    && is_some d.environment_fingerprint_hash

abbrev pub binding_of : ℕ → ProductionDeployment → DeploymentResult → RuntimeBinding
binding_of now d result = record {
  metric_version_id = d.metric_version_id;
  environment_id = d.environment_id;
  provider_job_id = result.provider_job_id;
  runtime_identity = result.runtime_identity;
  runtime_identity_verified = result.runtime_identity_verified;
  environment_fingerprint_hash = result.environment_fingerprint_hash;
  activated_at = if provider_deployed result then some now else none;
}

-- `_record_deployment_evidence`; the document of the evidence is its row
unfoldable pub record_evidence :
    ℕ
    → AdapterFacts
    → ProductionStore
    → ProductionDeployment
    → DeploymentResult
    → Bool
    → ProductionStore
unfolding log_event
record_evidence now adapter st d result status_confirmed =
    let row : EvidenceRow = record {
      deployment_id = d.deployment_id;
      metric_version_id = d.metric_version_id;
      deployed = provider_deployed result;
      status_confirmed = status_confirmed;
      production_deployed =
          d.production_deployed
          || adapter.authoritative
            && provider_deployed result
            && result.runtime_identity_verified
            && status_confirmed;
      observed_at = now;
    } in
    log_event now (record st { evidence = row ∷ st.evidence }) d.metric_definition_id
      ProductionEvent.production_deployment_evidence_recorded "production-service"
      (some d.metric_version_id) (some d.release_id)

abbrev pub deployed_document :
    ℕ → AdapterFacts → DeploymentResult → Bool → ProductionDeployment → ProductionDeployment
deployed_document now adapter result status_confirmed d = record d {
  runtime_binding = some (binding_of now d result);
  runtime_identity = result.runtime_identity;
  runtime_identity_verified = result.runtime_identity_verified;
  production_deployed = is_production_deployed adapter result status_confirmed d;
  missing_evidence = sorted_set (missing_after adapter result d);
  deployed_at = some now;
}

-- the branch on a provider that deployed and a status that does not say so
unfoldable pub unconfirmed :
    ℕ
    → AdapterFacts
    → ProductionStore
    → ProductionDeployment
    → DeploymentResult
    → Outcome (Committed ProductionDeployment)
unconfirmed now adapter st d result = do
  let st₁ = record_evidence now adapter st d result false
  d₁ ← validated (record d {
    missing_evidence =
        sorted_set ("runtime status did not confirm the deploy" ∷ d.missing_evidence);
  })
  d₂ ← transition now d₁ DeploymentStatus.failed
  st₂ ← write now st₁ d₂
  commit st₂ (err production_deployment_status_unconfirmed)

-- the branch on a provider that did not deploy
unfoldable pub not_deployed :
    ℕ
    → AdapterFacts
    → ProductionStore
    → ProductionDeployment
    → DeploymentResult
    → Outcome (Committed ProductionDeployment)
unfolding missing_after
not_deployed now adapter st d result = do
  d₁ ← validated (record d {
    runtime_binding = some (binding_of now d result);
    missing_evidence = sorted_set (missing_after adapter result d);
  })
  d₂ ← transition now d₁ DeploymentStatus.failed
  st₁ ← write now st d₂
  commit st₁ (err production_deployment_failed)

-- the branch on a provider that deployed
unfoldable pub finish_deploy :
    ℕ
    → String
    → AdapterFacts
    → ProductionStore
    → ProductionDeployment
    → DeploymentResult
    → Bool
    → ActorIdentity
    → Outcome (Committed ProductionDeployment)
unfolding missing_after log_event
finish_deploy now evidence_id adapter st d result status_confirmed identity = do
  d₁ ← validated (deployed_document now adapter result status_confirmed d)
  d₂ ← transition now d₁ DeploymentStatus.deployed
  st₁ ← write now st d₂
  let st₂ = record_evidence now adapter st₁ d₂ result status_confirmed
  d₃ ← validated (record d₂ { deployment_evidence_id = some evidence_id })
  st₃ ← write now st₂ d₃
  commit
      (log_event now st₃ d₃.metric_definition_id ProductionEvent.production_deployed
        identity.actor_id (some d₃.metric_version_id) (some d₃.release_id))
      (ok d₃)

-- `adapter.status` is asked only where the provider says that it deployed
abbrev pub status_of : DeployAnswers → DeploymentResult → String → Outcome (Option RuntimeStatus)
status_of answers result id = elim (provider_deployed result) [
  | false ↦ ok none
  | true ↦ do s ← answers.runtime_status id; ok (some s)
]

-- the call of the provider and what follows its answer
unfoldable pub hand_over :
    ℕ
    → String
    → AdapterFacts
    → DeployAnswers
    → ProductionStore
    → ProductionDeployment
    → ActorIdentity
    → Outcome (Committed ProductionDeployment)
hand_over now evidence_id adapter answers st d identity = do
  result ← answers.deploy_package d.handover d.deployment_id
  status ← status_of answers result d.deployment_id
  let status_confirmed = confirmed status d.metric_version_id
  elim (provider_deployed result) [
    | false ↦ not_deployed now adapter st d result
    | true ↦ elim (adapter.authoritative && not status_confirmed) [
      | true ↦ unconfirmed now adapter st d result
      | false ↦ finish_deploy now evidence_id adapter st d result status_confirmed identity
    ]
  ]
