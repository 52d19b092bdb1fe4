-- ===== src/Production/Deployments/Packaging.antt =====
-- The deployment package and its verification (src/airi/production/packaging.py). The digests are
-- parameters: arbitrary functions of what they digest.
pub mod Failures
pub mod Soundness
use airi.Prelude.{
  ℕ, String, Bool, true, false, not, ◌&&◌, ◌||◌, Option, none, some, List, [], ◌∷◌, ◌++◌,
  if◌then◌else◌, str_eq, opt_eq, sorted_set, get, ok, err, ◌>>=◌, ◌>>◌, raise_if,
}
use airi.Approvals.Service.{Artifact, ArtifactRow}
use airi.Registry.Models.{
  MetricVersion, MetricRelease, ReleaseReview, ReleaseValidationReport, Document,
}
use airi.Registry.Session.{version_by_id}
use airi.Production.Deployments.Models.{
  ProductionEnvironmentProfile, Fingerprint, DeploymentPackage, PackageContent, DeploymentReview,
  RollbackReview,
}
use airi.Production.Deployments.Store.{
  ProductionStore, Outcome, from_registry, deployment_package_integrity_error,
}

-- `canonical_hash` of each kind of document, and `sha256` of a text
pub record Digests : Type 0 where
  pub document : Document → String
  pub package_content : PackageContent → String
  pub profile : ProductionEnvironmentProfile → String
  pub artifact : Artifact → String
  pub text : String → String
  pub review : DeploymentReview → String

abbrev pub content_of : DeploymentPackage → PackageContent
content_of p = record {
  metric_definition_id = p.metric_definition_id;
  metric_version_id = p.metric_version_id;
  metric_version_content_hash = p.metric_version_content_hash;
  metric_key = p.metric_key;
  version = p.version;
  metric_ir_hash = p.metric_ir_hash;
  artifact_id = p.artifact_id;
  artifact_hash = p.artifact_hash;
  sql_hash = p.sql_hash;
  release_id = p.release_id;
  release_review_id = p.release_review_id;
  release_validation_report_hash = p.release_validation_report_hash;
  environment_id = p.environment_id;
  environment_profile_hash = p.environment_profile_hash;
  environment_fingerprint_hash = p.environment_fingerprint_hash;
}

-- `if test: failures.append(name)`
abbrev pub when : Bool → String → List String
when true name = name ∷ []
when false name = []

abbrev pub differs : String → String → Bool
differs a b = not (str_eq a b)

abbrev pub hash_of : Option Fingerprint → Option String
hash_of none = none
hash_of (some f) = some f.fingerprint_hash

-- the failure of a packaged fingerprint against the observed one
abbrev pub fingerprint_failures : Option String → Option Fingerprint → List String
fingerprint_failures none observed = []
fingerprint_failures (some packaged) none = "environment_fingerprint_not_observed" ∷ []
fingerprint_failures (some packaged) (some f) =
    when (not (str_eq f.fingerprint_hash packaged)) "environment_fingerprint_mismatch"

module _ (D : Digests) where
  -- `deployment_package_hash`
  unfoldable pub deployment_package_hash : DeploymentPackage → String
  deployment_package_hash p = D.package_content (content_of p)

  -- `environment_profile_hash`; the moment of registration is not digested
  unfoldable pub environment_profile_hash : ProductionEnvironmentProfile → String
  environment_profile_hash p = D.profile (record p { created_at = 0 })

  -- the part of `artifact_failures` on the stored artifact and the version
  unfoldable pub lineage_failures : ArtifactRow → Artifact → MetricVersion → List String
  lineage_failures row artifact version =
      when (differs (D.artifact artifact) row.artifact_hash) "artifact_content_hash_mismatch"
      ++ (when (differs (D.document (Document.metric_ir row.snapshot.metric_ir)) row.metric_ir_hash)
            "artifact_metric_ir_hash_mismatch"
          ++ (when (differs row.artifact_hash version.artifact_hash)
                "version_artifact_hash_mismatch"
              ++ (when (differs row.metric_ir_hash version.metric_ir_hash)
                    "version_metric_ir_hash_mismatch"
                  ++ when
                      (differs (D.document (Document.metric_ir version.metric_ir))
                        version.metric_ir_hash)
                      "metric_ir_hash_mismatch")))

  -- the part of `artifact_failures` on the package
  unfoldable pub packaged_failures :
      String → Artifact → MetricVersion → DeploymentPackage → List String
  packaged_failures artifact_id artifact version p =
      when (differs p.artifact_id artifact_id) "package_artifact_id_mismatch"
      ++ (when (differs p.artifact_hash version.artifact_hash) "package_artifact_hash_mismatch"
          ++ (when (differs p.metric_ir_hash version.metric_ir_hash)
                "package_metric_ir_hash_mismatch"
              ++ (when (differs (D.document (Document.metric_ir p.metric_ir)) p.metric_ir_hash)
                    "package_metric_ir_hash_unverifiable"
                  ++ (when (differs (D.text p.sql) p.sql_hash) "package_sql_hash_mismatch"
                      ++ when (differs artifact.code p.sql)
                          "package_sql_not_from_governed_artifact"))))

  -- `artifact_failures`
  unfoldable pub artifact_failures :
      String → ArtifactRow → MetricVersion → Option DeploymentPackage → List String
  artifact_failures id row version p = elim row.snapshot.artifact [
    | none ↦ "artifact_document_unreadable" ∷ []
    | some artifact ↦
        lineage_failures row artifact version
        ++ elim p [ none ↦ [] | some p' ↦ packaged_failures id artifact version p' ]
  ]

  abbrev pub assembled :
      String
      → ℕ
      → ProductionEnvironmentProfile
      → MetricRelease
      → MetricVersion
      → ReleaseReview
      → ReleaseValidationReport
      → Option Fingerprint
      → String
      → DeploymentPackage
  assembled id now profile release version review report fingerprint sql = record {
    deployment_package_id = id;
    metric_definition_id = version.metric_definition_id;
    metric_version_id = version.metric_version_id;
    metric_key = version.metric_key;
    version = version.version;
    metric_version_content_hash = version.content_hash;
    metric_ir = version.metric_ir;
    metric_ir_hash = version.metric_ir_hash;
    artifact_id = version.artifact_id;
    artifact_hash = version.artifact_hash;
    sql = sql;
    sql_hash = D.text sql;
    release_id = release.release_id;
    release_review_id = review.release_review_id;
    release_validation_report_hash = D.document (Document.validation_report report);
    environment_id = profile.environment_id;
    environment_profile_hash = environment_profile_hash profile;
    environment_fingerprint_hash = hash_of fingerprint;
    synthetic_data = version.synthetic_data || profile.synthetic;
    content_hash = "";
    created_at = now;
  }

  -- `package.model_copy(update={"content_hash": ...})`
  abbrev pub sealed : DeploymentPackage → DeploymentPackage
  sealed p = record p { content_hash = deployment_package_hash p }

  -- `build_package`
  unfoldable pub build_package :
      String
      → ℕ
      → ProductionStore
      → ProductionEnvironmentProfile
      → MetricRelease
      → MetricVersion
      → ReleaseReview
      → ReleaseValidationReport
      → Option Fingerprint
      → Outcome DeploymentPackage
  unfolding lineage_failures environment_profile_hash deployment_package_hash
  build_package id now st profile release version review report fingerprint =
      elim (get version.artifact_id st.artifacts) [
        | none ↦ err deployment_package_integrity_error
        | some row ↦ elim row.snapshot.artifact [
          | none ↦ err deployment_package_integrity_error
          | some artifact ↦ elim (lineage_failures row artifact version) [
            | (f ∷ fs) ↦ err deployment_package_integrity_error
            | [] ↦ ok (
                sealed (
                  assembled id now profile release version review report fingerprint artifact.code))
          ]
        ]
      ]

  -- the failures of `package_failures` that need no artifact
  unfoldable pub environment_failures :
      DeploymentPackage
      → MetricVersion
      → ProductionEnvironmentProfile
      → Option Fingerprint
      → List String
  unfolding deployment_package_hash environment_profile_hash
  environment_failures p version profile fingerprint =
      when (differs (deployment_package_hash p) p.content_hash) "package_hash_mismatch"
      ++ (when (differs (environment_profile_hash profile) p.environment_profile_hash)
            "environment_profile_changed"
          ++ (when (differs p.environment_id profile.environment_id) "environment_id_mismatch"
              ++ (fingerprint_failures p.environment_fingerprint_hash fingerprint
                  ++ (when (differs p.metric_version_content_hash version.content_hash)
                        "metric_version_changed"
                      ++ when
                          (differs (D.document (Document.metric_ir p.metric_ir)) p.metric_ir_hash)
                          "package_metric_ir_hash_unverifiable"))))

  -- `package_failures`
  unfoldable pub package_failures :
      ProductionStore
      → DeploymentPackage
      → ProductionEnvironmentProfile
      → Option Fingerprint
      → Outcome (List String)
  package_failures st p profile fingerprint = do
    version ← from_registry (version_by_id D.document st.registry p.metric_version_id)
    let failures = environment_failures p version profile fingerprint
    elim (get p.artifact_id st.artifacts) [
      | none ↦ ok (sorted_set (failures ++ "release_artifact_not_found" ∷ []))
      | some row ↦
          ok (sorted_set (failures ++ artifact_failures p.artifact_id row version (some p)))
    ]
