-- ===== src/Production/Deployments/Governance/Writes.antt =====
-- The writes that keep the invariant of the deployment tables (src/airi/production/service.py).
use airi.Prelude.{
  ℕ, String, ◌≡◌, ◌≢◌, sym, subst, subst₂, inl, inr, none, some, arith, str_eq, str_eq_iff, Table,
  get, put, get-put, put-cases, put-Distinct, Bool-cases,
}
use airi.Production.Deployments.Models.{ReviewDecision, ProductionDeployment}
use airi.Production.Deployments.Store.{DeploymentRow, DeploymentReviewRow}
use airi.Production.Deployments.Session.{written_row}
use airi.Production.Deployments.Governance.{IsSound, IsTrue, IsBound, Governed}

-- A table that still holds every approved review.
abbrev pub KeepsApproved : Table DeploymentReviewRow → Table DeploymentReviewRow → Type 0
KeepsApproved before after =
    (key : String) (row : DeploymentReviewRow)
    → get key before ≡ some row
    → row.decision ≡ ReviewDecision.approved
    → get key after ≡ some row

IsSound-reviews :
    (before after : Table DeploymentReviewRow) (id : String) (row : DeploymentRow)
    → KeepsApproved before after
    → IsSound before id row
    → IsSound after id row
IsSound-reviews before after id row kept s = record {
  named = s.named;
  shown = s.shown;
  packaged = s.packaged;
  preflighted = s.preflighted;
  shadowed = s.shadowed;
  reviewed = λ past.
      let (key, r, names, there, approved, for_it, hash) = s.reviewed past in
      (key, r, names, kept key r there approved, approved, for_it, hash);
  undeployed = s.undeployed;
}

module _ (deployments : Table DeploymentRow) (reviews : Table DeploymentReviewRow) where
  put-KeepsApproved :
      (key : String) (row : DeploymentReviewRow)
      → ((r : DeploymentReviewRow)
          → get key reviews ≡ some r
          → r.decision ≡ ReviewDecision.approved
          → ⊥)
      → KeepsApproved reviews (put key row reviews)
  put-KeepsApproved key row never k r there approved = elim (Bool-cases (str_eq key k)) [
    | inl same ↦
        let at : key ≡ k = (str_eq_iff key k).0 same in absurd (never r (rw at there) approved)
    | inr other ↦ ground (arith, get-put key k row reviews)
  ]

  -- A new row is sound, and no review is bound to its place.
  pub add-Governed :
      (id : String) (row : DeploymentRow)
      → Governed deployments reviews
      → get id deployments ≡ none
      → IsSound reviews id row
      → Governed (put id row deployments) reviews
  add-Governed id row g fresh s = record {
    sound = λ j r e. elim (put-cases id j row deployments e) [
      | inl (same, is) ↦ subst₂ (IsSound reviews) (sym same) (sym is) s
      | inr (other, old) ↦ g.sound j r old
    ];
    bound = λ key r e.
        let (d, there, names, doc) = g.bound key r e in
        (
          d,
          ground (arith, get-put id r.deployment_id row deployments, str_eq_iff id r.deployment_id),
          names,
          doc,
        );
    distinct = g.distinct;
  }

  -- A row whose document changes under the same review stays in its place.
  pub change-Governed :
      (id : String) (old row : DeploymentRow)
      → Governed deployments reviews
      → get id deployments ≡ some old
      → row.deployment_json.review_id ≡ old.deployment_json.review_id
      → IsSound reviews id row
      → Governed (put id row deployments) reviews
  change-Governed id old row g there same s = record {
    sound = λ j r e. elim (put-cases id j row deployments e) [
      | inl (at, is) ↦ subst₂ (IsSound reviews) (sym at) (sym is) s
      | inr (other, before) ↦ g.sound j r before
    ];
    bound = λ key r e.
        let (d, at, names, doc) = g.bound key r e in
        elim (Bool-cases (str_eq id r.deployment_id)) [
          | inl is ↦ (
            row,
            ground (arith, get-put id r.deployment_id row deployments),
            ground (arith, str_eq_iff id r.deployment_id),
            doc,
          )
          | inr is ↦ (d, ground (arith, get-put id r.deployment_id row deployments), names, doc)
        ];
    distinct = g.distinct;
  }

  -- A review that is not approved may change its decision.
  pub review-Governed :
      (key : String) (old row : DeploymentReviewRow)
      → Governed deployments reviews
      → get key reviews ≡ some old
      → old.decision ≢ ReviewDecision.approved
      → row.deployment_id ≡ old.deployment_id
      → IsTrue row
      → Governed deployments (put key row reviews)
  review-Governed key old row g there undecided same doc = record {
    sound = λ id d e.
        IsSound-reviews reviews (put key row reviews) id d
          (put-KeepsApproved key row (λ r found approved.
            let is : r ≡ old = cc in
            undecided (
              subst (λ (x : DeploymentReviewRow). x.decision ≡ ReviewDecision.approved) is
                approved)))
          (g.sound id d e);
    bound = λ k r e. elim (put-cases key k row reviews e) [
      | inl (at, is) ↦
          let (d, found, names, doc') = g.bound key old there in
          subst₂ (IsBound deployments) (sym at) (sym is) (d, ground arith, names, doc)
      | inr (other, before) ↦ g.bound k r before
    ];
    distinct = put-Distinct key row reviews g.distinct;
  }

  -- A new review on a deployment that has none, with the deployment that names it.
  pub open-Governed :
      (key id : String) (review : DeploymentReviewRow) (old row : DeploymentRow)
      → Governed deployments reviews
      → get key reviews ≡ none
      → get id deployments ≡ some old
      → ((k : String) (r : DeploymentReviewRow) → get k reviews ≡ some r → r.deployment_id ≢ id)
      → review.deployment_id ≡ id
      → IsTrue review
      → row.deployment_json.review_id ≡ some key
      → IsSound reviews id row
      → Governed (put id row deployments) (put key review reviews)
  open-Governed key id review old row g fresh there alone for_it doc names s = record {
    sound = λ j r e. elim (put-cases id j row deployments e) [
      | inl (at, is) ↦ subst₂ (IsSound (put key review reviews)) (sym at) (sym is) (
          IsSound-reviews reviews _ id row (put-KeepsApproved key review (λ r' found approved. cc))
            s)
      | inr (other, before) ↦
          IsSound-reviews reviews _ j r (put-KeepsApproved key review (λ r' found approved. cc))
            (g.sound j r before)
    ];
    bound = λ k r e. elim (put-cases key k review reviews e) [
      | inl (at, is) ↦
          subst₂ (IsBound (put id row deployments)) (sym at) (sym is)
            (row, ground (arith, get-put id id row deployments, str_eq_iff id id), names, doc)
      | inr (other, before) ↦
          let (d, found, named, doc') = g.bound k r before in
          let apart = alone k r before in
          (
            d,
            ground
                (arith, get-put id r.deployment_id row deployments, str_eq_iff id r.deployment_id),
            named,
            doc',
          )
    ];
    distinct = put-Distinct key review reviews g.distinct;
  }

  -- The write of a document under the review and the identifier of the row that was read.
  pub written-Governed :
      (now : ℕ) (id : String) (old found : DeploymentRow) (d : ProductionDeployment)
      → Governed deployments reviews
      → get id deployments ≡ some old
      → get d.deployment_id deployments ≡ some found
      → d.deployment_id ≡ old.deployment_json.deployment_id
      → d.review_id ≡ old.deployment_json.review_id
      → IsSound reviews d.deployment_id (written_row now found d)
      → Governed (put d.deployment_id (written_row now found d) deployments) reviews
  written-Governed now id old found d g there again same review s =
      let named : old.deployment_json.deployment_id ≡ id = (g.sound id old there).named in
      let is : found ≡ old = cc in
      change-Governed d.deployment_id found (written_row now found d) g again
        (subst (λ (x : DeploymentRow). d.review_id ≡ x.deployment_json.review_id) (sym is) review) s
