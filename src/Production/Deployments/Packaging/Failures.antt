-- ===== src/Production/Deployments/Packaging/Failures.antt =====
-- What an empty list of failures says (src/airi/production/packaging.py).
use airi.Prelude.{
  ◌⊎◌, inl, inr, String, ◌≡◌, refl, Bool, true, false, not, Option, none, some, List, [], ◌∷◌, ◌++◌,
  arith, str_eq, str_eq_iff, str_eq_self, sorted_set, insert_sorted,
}
use airi.Approvals.Service.{Artifact, ArtifactRow}
use airi.Registry.Models.{MetricVersion, Document}
use airi.Production.Deployments.Models.{
  ProductionEnvironmentProfile, Fingerprint, DeploymentPackage,
}
use airi.Production.Deployments.Packaging.{
  Digests, when, hash_of, fingerprint_failures, deployment_package_hash, environment_profile_hash,
  lineage_failures, packaged_failures, environment_failures,
}

pub List-cases : {A : Type 0} (xs : List A) → (xs ≡ []) ⊎ ((y : A) × (ys : List A) × (xs ≡ y ∷ ys))
List-cases [] = inl refl
List-cases (x ∷ xs) = inr (x, xs, refl)

-- a list of failures that is empty
pub when-nil :
    (b : Bool) (n : String) (rest : List String) → when b n ++ rest ≡ [] → (b ≡ false) × (rest ≡ [])
when-nil true n rest h = cc
when-nil false n rest h = (refl, h)

pub last-nil : (b : Bool) (n : String) → when b n ≡ [] → b ≡ false
last-nil true n h = cc
last-nil false n h = refl

insert_sorted-ne-nil : (s : String) (xs : List String) → insert_sorted s xs ≡ [] → ⊥
unfolding insert_sorted
insert_sorted-ne-nil s [] h = cc
insert_sorted-ne-nil s (x ∷ xs) h = ground arith

pub sorted_set-nil : (xs : List String) → sorted_set xs ≡ [] → xs ≡ []
unfolding sorted_set
sorted_set-nil [] h = refl
sorted_set-nil (x ∷ xs) h = absurd (insert_sorted-ne-nil x (sorted_set xs) h)

pub append-nil-left : {A : Type 0} (xs ys : List A) → xs ++ ys ≡ [] → (xs ≡ []) × (ys ≡ [])
append-nil-left [] ys h = (refl, h)
append-nil-left (x ∷ xs) ys h = cc

pub ends-ne-nil : {A : Type 0} (xs : List A) (y : A) → xs ++ y ∷ [] ≡ [] → ⊥
ends-ne-nil [] y h = cc
ends-ne-nil (x ∷ xs) y h = cc

pub unnamed : (packaged : Option String) → fingerprint_failures packaged none ≡ [] → packaged ≡ none
unnamed none h = refl
unnamed (some s) h = cc

pub equal-of : (a b : String) → not (str_eq a b) ≡ false → a ≡ b
equal-of a b h = ground (arith, str_eq_iff a b)

pub observed_self : (f : Option Fingerprint) → fingerprint_failures (hash_of f) f ≡ []
observed_self none = refl
observed_self (some f) = ground (arith, str_eq_self f.fingerprint_hash)

module _ (D : Digests) where
  pub lineage-parts :
      (row : ArtifactRow) (artifact : Artifact) (version : MetricVersion)
      → lineage_failures D row artifact version ≡ []
      → (D.artifact artifact ≡ row.artifact_hash)
        × (D.document (Document.metric_ir row.snapshot.metric_ir) ≡ row.metric_ir_hash)
        × (row.artifact_hash ≡ version.artifact_hash)
        × (row.metric_ir_hash ≡ version.metric_ir_hash)
        × (D.document (Document.metric_ir version.metric_ir) ≡ version.metric_ir_hash)
  unfolding lineage_failures
  lineage-parts row artifact version h =
      let (a, h₁) = when-nil _ _ _ h in
      let (b, h₂) = when-nil _ _ _ h₁ in
      let (c, h₃) = when-nil _ _ _ h₂ in
      let (d, h₄) = when-nil _ _ _ h₃ in
      (
        equal-of _ _ a,
        equal-of _ _ b,
        equal-of _ _ c,
        equal-of _ _ d,
        equal-of _ _ (last-nil _ _ h₄),
      )

  pub packaged-parts :
      (id : String) (artifact : Artifact) (version : MetricVersion) (p : DeploymentPackage)
      → packaged_failures D id artifact version p ≡ []
      → (p.artifact_id ≡ id)
        × (p.artifact_hash ≡ version.artifact_hash)
        × (p.metric_ir_hash ≡ version.metric_ir_hash)
        × (D.document (Document.metric_ir p.metric_ir) ≡ p.metric_ir_hash)
        × (D.text p.sql ≡ p.sql_hash)
        × (artifact.code ≡ p.sql)
  unfolding packaged_failures
  packaged-parts id artifact version p h =
      let (a, h₁) = when-nil _ _ _ h in
      let (b, h₂) = when-nil _ _ _ h₁ in
      let (c, h₃) = when-nil _ _ _ h₂ in
      let (d, h₄) = when-nil _ _ _ h₃ in
      let (f, h₅) = when-nil _ _ _ h₄ in
      (
        equal-of _ _ a,
        equal-of _ _ b,
        equal-of _ _ c,
        equal-of _ _ d,
        equal-of _ _ f,
        equal-of _ _ (last-nil _ _ h₅),
      )

  pub environment-parts :
      (p : DeploymentPackage) (version : MetricVersion) (profile : ProductionEnvironmentProfile)
      (fingerprint : Option Fingerprint)
      → environment_failures D p version profile fingerprint ≡ []
      → (deployment_package_hash D p ≡ p.content_hash)
        × (environment_profile_hash D profile ≡ p.environment_profile_hash)
        × (p.environment_id ≡ profile.environment_id)
        × (p.metric_version_content_hash ≡ version.content_hash)
        × (fingerprint_failures p.environment_fingerprint_hash fingerprint ≡ [])
  unfolding environment_failures
  environment-parts p version profile fingerprint h =
      let (a, h₁) = when-nil _ _ _ h in
      let (b, h₂) = when-nil _ _ _ h₁ in
      let (c, h₃) = when-nil _ _ _ h₂ in
      let (observed, h₄) = append-nil-left _ _ h₃ in
      let (d, h₅) = when-nil _ _ _ h₄ in
      (equal-of _ _ a, equal-of _ _ b, equal-of _ _ c, equal-of _ _ d, observed)
