-- ===== src/Production/Deployments/Sample.antt =====
-- One deployment from the registration of a synthetic environment to the runtime, over the sample
-- registry (src/airi/production/service.py).
mod Documents
use airi.Prelude.{true, false, Option, none, some, [], ◌∷◌, ok, get, arith, is_some, ◌≡◌}
use airi.Approvals.Service.{ArtifactStatus, Artifact, ArtifactRow}
use airi.Registry.Models.{
  EvidenceStatus, ReleaseEligibility, ReviewDecision, ReleaseReview, ReleaseValidationReport,
}
use airi.Registry.Store.{Store}
use airi.Registry.Sample.{digest, orders, approved_store, v2_0}
use airi.Production.Gate.Requirements.{EnvironmentKind}
use airi.Production.Gate.Requirements.{VerificationStatus}
use airi.Production.Models.{RuntimeState}
use airi.Production.Deployments.Gatekeeping.{GateSettings}
use airi.Production.Deployments.Deploying.{ProviderStatus, DeployAnswers, deploy}
use airi.Production.Deployments.Governance.{IsGoverned}
use airi.Production.Deployments.Runs.{
  Run, stop, after, registered, created, preflighted, shadowed, review_opened, review_decided,
  handed_over,
}
use airi.Production.Identity.{ActorIdentity, AuthSource, Role}
use airi.Production.Deployments.Models.{
  ExecutionMode, RuntimeMode, EnvironmentRequest, DeploymentPackage, ShadowObservation, Verdict,
  ReviewRequest, DeploymentStatus,
}
use airi.Production.Deployments.Store.{ProductionStore, Outcome}
use airi.Production.Deployments.Packaging.{Digests}
use airi.Production.Deployments.Environments.{register}
use airi.Production.Deployments.Creation.{AdapterFacts, NewIds, create}
use airi.Production.Deployments.Preflight.{ValidationResult, preflight}
use airi.Production.Deployments.Shadow.{shadow}
use airi.Production.Deployments.Reviews.{create_review, decide_review}
pub use Documents.*

abbrev pub with_environment : ProductionStore
with_environment = (register 1 false empty_store request administrator).store

abbrev pub with_deployment : ProductionStore
with_deployment = (create digests 2 ids adapter with_environment "r" "e" deployer).store

abbrev pub after_preflight : ProductionStore
after_preflight = (preflight digests 3 adapter answer with_deployment "m" deployer).store

abbrev pub after_shadow : ProductionStore
after_shadow = (shadow digests 4 adapter observe after_preflight "m" deployer).store

abbrev pub with_review : ProductionStore
with_review = (create_review digests 5 "y" after_shadow "m" deployer).store

abbrev pub approved : ProductionStore
approved = (decide_review digests 6 "x" false with_review "y" approval deployer).store

abbrev pub status_of : ProductionStore → Option DeploymentStatus
status_of st = elim (get "m" st.deployments) [ none ↦ none | some row ↦ some row.status ]

abbrev pub with_runtime : ProductionStore
with_runtime = (deploy digests 7 "i" settings adapter provider approved "m" deployer).store

-- the calls above in their order
pub run_to_runtime : Run digests empty_store with_runtime
run_to_runtime =
    after
      (after
        (after
          (after
            (after
              (after (after stop (registered 1 false request administrator))
                (created 2 ids adapter "r" "e" deployer))
              (preflighted 3 adapter answer "m" deployer))
            (shadowed 4 adapter observe "m" deployer))
          (review_opened 5 "y" "m" deployer))
        (review_decided 6 "x" false "y" approval deployer))
      (handed_over 7 "i" settings adapter provider "m" deployer)

pub empty_store-IsGoverned : IsGoverned empty_store
unfolding get
empty_store-IsGoverned = record {
  sound = λ id row e. absurd (ground arith);
  bound = λ key row e. absurd (ground arith);
  distinct = tt;
}

pub nothing : false ≡ true → ⊥
nothing h = cc

-- the row that a lookup finds
abbrev pub found : {A : Type 0} → (o : Option A) → is_some o ≡ true → A
found none h = absurd (nothing h)
found (some a) h = a
