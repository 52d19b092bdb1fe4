-- ===== src/Production/Deployments/Packaging/Soundness.antt =====
-- What the verification of a package establishes (src/airi/production/packaging.py).
use airi.Prelude.{
  subst, sym, inl, inr, ℕ, String, ◌≡◌, refl, Option, none, some, Option-cases, [], ◌∷◌, ◌++◌,
  arith, str_eq_self, sorted_set, get, ok, Result-cases,
}
use airi.Approvals.Service.{Artifact, ArtifactRow}
use airi.Registry.Models.{
  MetricVersion, MetricRelease, ReleaseReview, ReleaseValidationReport, Document,
}
use airi.Registry.Session.{version_by_id}
use airi.Production.Deployments.Models.{
  ProductionEnvironmentProfile, Fingerprint, DeploymentPackage,
}
use airi.Production.Deployments.Store.{ProductionStore}
use airi.Production.Deployments.Packaging.{
  Digests, assembled, sealed, deployment_package_hash, environment_profile_hash, lineage_failures,
  packaged_failures, artifact_failures, build_package, environment_failures, package_failures,
}
use airi.Production.Deployments.Packaging.Failures.{
  List-cases, sorted_set-nil, append-nil-left, ends-ne-nil, unnamed, observed_self, lineage-parts,
  packaged-parts, environment-parts,
}

module _ (D : Digests) where
  governed_artifact :
      (id : String) (row : ArtifactRow) (artifact : Artifact) (version : MetricVersion)
      (p : DeploymentPackage)
      → row.snapshot.artifact ≡ some artifact
      → lineage_failures D row artifact version ≡ []
      → packaged_failures D id artifact version p ≡ []
      → artifact_failures D id row version (some p) ≡ []
  unfolding artifact_failures
  governed_artifact id row artifact version p f g h = ground arith

  module _ (id : String) (now : ℕ) (st : ProductionStore) (profile : ProductionEnvironmentProfile)
      (release : MetricRelease) (version : MetricVersion) (review : ReleaseReview)
      (report : ReleaseValidationReport) (fingerprint : Option Fingerprint) where
    abbrev fresh : Artifact → DeploymentPackage
    fresh artifact =
        sealed D
          (assembled D id now profile release version review report fingerprint artifact.code)

    fresh-environment :
        (artifact : Artifact)
        → D.document (Document.metric_ir version.metric_ir) ≡ version.metric_ir_hash
        → environment_failures D (fresh artifact) version profile fingerprint ≡ []
    unfolding environment_failures deployment_package_hash
    fresh-environment artifact h = simp (str_eq_self, observed_self, h)

    fresh-packaged :
        (artifact : Artifact)
        → D.document (Document.metric_ir version.metric_ir) ≡ version.metric_ir_hash
        → packaged_failures D version.artifact_id artifact version (fresh artifact) ≡ []
    unfolding packaged_failures
    fresh-packaged artifact h = simp (str_eq_self, h)

    -- what build_package has found where it returns
    built_form :
        {p : DeploymentPackage}
        → build_package D id now st profile release version review report fingerprint ≡ ok p
        → (row : ArtifactRow) × (artifact : Artifact) × (get version.artifact_id st.artifacts
            ≡ some row)
          × (row.snapshot.artifact ≡ some artifact)
          × (lineage_failures D row artifact version ≡ [])
          × (p ≡ fresh artifact)
    unfolding build_package
    built_form {p} h = elim (Option-cases (get version.artifact_id st.artifacts)) [
      | inl e ↦ absurd (ground arith)
      | inr (row, e) ↦ elim (Option-cases row.snapshot.artifact) [
        | inl f ↦ absurd (ground arith)
        | inr (artifact, f) ↦ elim (List-cases (lineage_failures D row artifact version)) [
          | inl g ↦ (row, artifact, e, f, g, ground arith)
          | inr (x, xs, g) ↦ absurd (ground arith)
        ]
      ]
    ]

    fresh-verifies :
        (row : ArtifactRow) (artifact : Artifact)
        → get version.artifact_id st.artifacts ≡ some row
        → row.snapshot.artifact ≡ some artifact
        → lineage_failures D row artifact version ≡ []
        → version_by_id D.document st.registry version.metric_version_id ≡ ok version
        → package_failures D st (fresh artifact) profile fingerprint ≡ ok []
    unfolding package_failures sorted_set
    fresh-verifies row artifact e f g found =
        let digest = (lineage-parts D row artifact version g).4 in
        let governed =
          governed_artifact version.artifact_id row artifact version (fresh artifact) f g
            (fresh-packaged artifact digest) in
        rw found (rw e (rw (fresh-environment artifact digest, governed) refl))

    -- A package that build_package assembled passes the full verification at once: while the store,
    -- the profile and the fingerprint are as they were, package_failures finds nothing, whatever the
    -- digests are.
    pub build_package-verifies :
        {p : DeploymentPackage}
        → build_package D id now st profile release version review report fingerprint ≡ ok p
        → version_by_id D.document st.registry version.metric_version_id ≡ ok version
        → package_failures D st p profile fingerprint ≡ ok []
    build_package-verifies built found =
        let (row, artifact, e, f, g, form) = built_form built in
        subst (λ q. package_failures D st q profile fingerprint ≡ ok []) (sym form)
          (fresh-verifies row artifact e f g found)

  -- what `package_failures` has found where it finds no failure
  verified_form :
      (st : ProductionStore) (p : DeploymentPackage) (profile : ProductionEnvironmentProfile)
      (fingerprint : Option Fingerprint)
      → package_failures D st p profile fingerprint ≡ ok []
      → (version : MetricVersion) × (row : ArtifactRow) × (artifact : Artifact) × (version_by_id
            D.document st.registry p.metric_version_id
          ≡ ok version)
        × (get p.artifact_id st.artifacts ≡ some row)
        × (row.snapshot.artifact ≡ some artifact)
        × (environment_failures D p version profile fingerprint ≡ [])
        × (lineage_failures D row artifact version ≡ [])
        × (packaged_failures D p.artifact_id artifact version p ≡ [])
  unfolding package_failures artifact_failures
  verified_form st p profile fingerprint h =
      elim (Result-cases (version_by_id D.document st.registry p.metric_version_id)) [
        | inr (x, e) ↦ absurd (ground arith)
        | inl (version, v) ↦ elim (Option-cases (get p.artifact_id st.artifacts)) [
          | inl e ↦
              let none_found : sorted_set (
                    environment_failures D p version profile fingerprint
                    ++ "release_artifact_not_found" ∷ [])
                  ≡ [] =
                ground arith in
              absurd (ends-ne-nil _ _ (sorted_set-nil _ none_found))
          | inr (row, e) ↦ elim (Option-cases row.snapshot.artifact) [
            | inl f ↦
                let none_found : sorted_set (
                      environment_failures D p version profile fingerprint
                      ++ "artifact_document_unreadable" ∷ [])
                    ≡ [] =
                  ground arith in
                absurd (ends-ne-nil _ _ (sorted_set-nil _ none_found))
            | inr (artifact, f) ↦
                let none_found : sorted_set (
                      environment_failures D p version profile fingerprint
                      ++ (lineage_failures D row artifact version
                          ++ packaged_failures D p.artifact_id artifact version p))
                    ≡ [] =
                  ground arith in
                let (a, rest) = append-nil-left _ _ (sorted_set-nil _ none_found) in
                let (b, c) = append-nil-left _ _ rest in (version, row, artifact, v, e, f, a, b, c)
          ]
        ]
      ]

  -- Where package_failures finds nothing, the artifact of the package is in the store, its digest is
  -- the one that the package and the version name, the SQL to execute is that
  -- artifact's code under its own digest, and the package, the profile, the metric and the version
  -- have the digests that the package was sealed with.
  pub package_failures-none :
      (st : ProductionStore) (p : DeploymentPackage) (profile : ProductionEnvironmentProfile)
      (fingerprint : Option Fingerprint)
      → package_failures D st p profile fingerprint ≡ ok []
      → (version : MetricVersion) × (row : ArtifactRow) × (artifact : Artifact) × (version_by_id
            D.document st.registry p.metric_version_id
          ≡ ok version)
        × (get p.artifact_id st.artifacts ≡ some row)
        × (row.snapshot.artifact ≡ some artifact)
        × (p.sql ≡ artifact.code)
        × (D.text p.sql ≡ p.sql_hash)
        × (D.artifact artifact ≡ p.artifact_hash)
        × (version.artifact_hash ≡ p.artifact_hash)
        × (version.content_hash ≡ p.metric_version_content_hash)
        × (D.document (Document.metric_ir p.metric_ir) ≡ version.metric_ir_hash)
        × (environment_profile_hash D profile ≡ p.environment_profile_hash)
        × (deployment_package_hash D p ≡ p.content_hash)
  package_failures-none st p profile fingerprint h =
      let (version, row, artifact, v, e, f, a, b, c) = verified_form st p profile fingerprint h in
      let (l₁, l₂, l₃, l₄, l₅) = lineage-parts D row artifact version b in
      let (p₁, p₂, p₃, p₄, p₅, p₆) = packaged-parts D p.artifact_id artifact version p c in
      let (e₁, e₂, e₃, e₄, e₅) = environment-parts D p version profile fingerprint a in
      (version, row, artifact, v, e, f, sym p₆, p₅, cc, sym p₂, sym e₄, cc, e₂, e₁)

  -- With no fingerprint at hand, only a package that names none is found to be sound.
  pub package_failures-unobserved :
      (st : ProductionStore) (p : DeploymentPackage) (profile : ProductionEnvironmentProfile)
      → package_failures D st p profile none ≡ ok []
      → p.environment_fingerprint_hash ≡ none
  package_failures-unobserved st p profile h =
      let (version, row, artifact, v, e, f, a, b, c) = verified_form st p profile none h in
      unnamed p.environment_fingerprint_hash (environment-parts D p version profile none a).4
