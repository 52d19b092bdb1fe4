-- ===== src/Production/Deployments/Rules.antt =====
-- Rules for the chains of the deployment service (src/airi/production/service.py): what a call
-- ensures of the store of its last commit is checked at each value that its steps return.
use airi.Prelude.{
  subst, sym, Ensures-bind, inl, inr, ℕ, String, ◌≡◌, true, false, some, Option-cases, arith, get,
  put, ok, err, ◌>>=◌, Ensures, Bool-cases,
}
use airi.Production.Deployments.Models.{
  DeploymentStatus, ProductionDeployment, dishonest_flag, deployment_transitions,
}
use airi.Production.Deployments.Store.{DeploymentRow, ProductionStore, Outcome, Committed, since}
use airi.Production.Deployments.Packaging.{Digests}
use airi.Production.Deployments.Session.{deployment, validated, transition, written_row, write}

-- a property of the store that a call leaves
abbrev pub Leaves : {A : Type 0} → (ProductionStore → Type 0) → Outcome (Committed A) → Type 0
Leaves P r = Ensures (λ c. P c.store) r

pub since-Leaves :
    {A : Type 0} (P : ProductionStore → Type 0) (st : ProductionStore) (r : Outcome (Committed A))
    → P st
    → Leaves P r
    → P (since st r).store
since-Leaves P st (ok c) p h = h
since-Leaves P st (err e) p h = p

-- A step that returns a document as it was, if it returns.
pub Ensures-validated :
    {A : Type 0} (P : A → Type 0) (d : ProductionDeployment) (k : ProductionDeployment → Outcome A)
    → (dishonest_flag d ≡ false → Ensures P (k d))
    → Ensures P (validated d >>= k)
unfolding validated
Ensures-validated P d k h = elim (Bool-cases (dishonest_flag d)) [
  | inl e ↦ rw e tt
  | inr e ↦ rw e (h e)
]

-- A transition of the diagram.
pub Ensures-transition :
    {A : Type 0} (P : A → Type 0) (now : ℕ) (d : ProductionDeployment) (s : DeploymentStatus)
    (k : ProductionDeployment → Outcome A)
    → (deployment_transitions d.status s ≡ true
        → Ensures P (k (record d { status = s; updated_at = now })))
    → Ensures P (transition now d s >>= k)
unfolding transition
Ensures-transition P now d s k h = elim (Bool-cases (deployment_transitions d.status s)) [
  | inr e ↦ rw e tt
  | inl e ↦ rw e (Ensures-validated P _ k (λ honest. h e))
]

pub deployment-row :
    (D : Digests) (st : ProductionStore) (id : String) {d : ProductionDeployment}
    → deployment D st id ≡ ok d
    → (row : DeploymentRow) × (get id st.deployments ≡ some row) × (d ≡ row.deployment_json)
unfolding deployment
deployment-row D st id h = elim (Option-cases (get id st.deployments)) [
  | inl e ↦ absurd (ground arith)
  | inr (row, e) ↦ elim (Bool-cases (dishonest_flag row.deployment_json)) [
    | inl f ↦ absurd (ground arith)
    | inr f ↦ (row, e, ground arith)
  ]
]

-- The read of a deployment: the document of its row.
pub Ensures-deployment :
    {A : Type 0} (D : Digests) (P : A → Type 0) (st : ProductionStore) (id : String)
    (k : ProductionDeployment → Outcome A)
    → ((row : DeploymentRow) → get id st.deployments ≡ some row → Ensures P (k row.deployment_json))
    → Ensures P (deployment D st id >>= k)
Ensures-deployment D P st id k h = Ensures-bind P (deployment D st id) k λ d e.
    let (row, found, same) = deployment-row D st id e in
    subst (λ x. Ensures P (k x)) (sym same) (h row found)

abbrev pub with_write : ℕ → ProductionStore → DeploymentRow → ProductionDeployment → ProductionStore
with_write now st row d = record st {
  deployments = put d.deployment_id (written_row now row d) st.deployments;
}

write-row :
    (now : ℕ) (st : ProductionStore) (d : ProductionDeployment) {st' : ProductionStore}
    → write now st d ≡ ok st'
    → (row : DeploymentRow) × (get d.deployment_id st.deployments ≡ some row)
      × (st' ≡ with_write now st row d)
unfolding write
write-row now st d h = elim (Option-cases (get d.deployment_id st.deployments)) [
  | inl e ↦ absurd (ground arith)
  | inr (row, e) ↦ (row, e, ground arith)
]

-- The write of a deployment that is there.
pub Ensures-write :
    {A : Type 0} (P : A → Type 0) (now : ℕ) (st : ProductionStore) (d : ProductionDeployment)
    (k : ProductionStore → Outcome A)
    → ((row : DeploymentRow)
        → get d.deployment_id st.deployments ≡ some row
        → Ensures P (k (with_write now st row d)))
    → Ensures P (write now st d >>= k)
Ensures-write P now st d k h = Ensures-bind P (write now st d) k λ st' e.
    let (row, found, same) = write-row now st d e in
    subst (λ x. Ensures P (k x)) (sym same) (h row found)

pub Ensures-write-last :
    (P : ProductionStore → Type 0) (now : ℕ) (st : ProductionStore) (d : ProductionDeployment)
    → ((row : DeploymentRow)
        → get d.deployment_id st.deployments ≡ some row
        → P (with_write now st row d))
    → Ensures P (write now st d)
unfolding write
Ensures-write-last P now st d h = elim (Option-cases (get d.deployment_id st.deployments)) [
  | inl e ↦ rw (e, Ensures) tt
  | inr (row, e) ↦ rw (e, Ensures) (h row e)
]
