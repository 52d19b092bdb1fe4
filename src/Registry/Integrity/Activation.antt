-- ===== src/Registry/Integrity/Activation.antt =====
-- Consistency of the registry's rows over `activate` (src/airi/registry/service.py).
use airi.Prelude.{
  ℕ, String, refl, Option, none, some, arith, err, Ensures, Ensures-bind, Ensures-raise_if,
  Ensures-then, sym, subst, inl, inr, Bool-cases, ◌&&◌, opt_eq, not,
}
use airi.Core.{Version}
use airi.Registry.Models.{
  ReleaseStatus, ReleaseEventType, MetricVersionStatus, MetricRelease, Document,
}
use airi.Registry.Store.{Table, ReleaseRow, Store}
use airi.Registry.Session.{activation_conflict, release, definition_by_id, same_release_status}
use airi.Registry.Writes.{transition, save_release, set_version_status, move_pointer, or_raise}
use airi.Registry.Decisions.{
  expected_pointer, retire, finish_activation, activate_approved, activate,
}
use airi.Registry.Integrity.Reads.{transition-eq-ok, or_raise-eq-ok, release-IsStored, Commits}
use airi.Registry.Integrity.{
  IsConsistent, IsStored, IsKnown, IsStored-IsKnown, GoodWith, set_version_status-GoodWith,
  save_release-IsConsistent, move_pointer-GoodWith, log_event-IsConsistent,
}

module _ (canonical_hash : Document → String) where
  retire-GoodWith :
      (st : Store) (t : Table ReleaseRow) (id : Option String)
      → GoodWith canonical_hash t st
      → Ensures (GoodWith canonical_hash t) (retire st id)
  unfolding retire
  retire-GoodWith st t none g = g
  retire-GoodWith st t (some id) g =
      set_version_status-GoodWith canonical_hash st id MetricVersionStatus.retired t g

  finish_activation-Commits :
      (now : ℕ) (st : Store) (r : MetricRelease)
      → IsConsistent canonical_hash st
      → IsStored st.releases r
      → Ensures (Commits canonical_hash) (finish_activation now st r)
  unfolding finish_activation
  finish_activation-Commits now st r c stored =
      let Q = GoodWith canonical_hash st.releases in
      Ensures-then Q (Commits canonical_hash) (retire st r.expected_active_version_id) _
        (retire-GoodWith st st.releases r.expected_active_version_id (c, refl))
        λ st₁ g₁.
          Ensures-then Q (Commits canonical_hash)
            (set_version_status st₁ r.metric_version_id MetricVersionStatus.active) _
            (set_version_status-GoodWith canonical_hash st₁ r.metric_version_id
              MetricVersionStatus.active st.releases g₁)
            λ st₂ g₂.
              Ensures-bind (Commits canonical_hash) (transition r ReleaseStatus.active) _ λ r₁ e.
                let same = (transition-eq-ok r ReleaseStatus.active e).1 in
                Ensures-then (IsConsistent canonical_hash) (Commits canonical_hash)
                  (save_release now st₂ (record r₁ { activated_at = some now })) _
                  (save_release-IsConsistent canonical_hash now st₂
                    (record r₁ { activated_at = some now }) g₂.0
                    (subst (λ t. IsKnown t (record r₁ { activated_at = some now })) (sym g₂.1)
                      (IsStored-IsKnown st.releases r (record r₁ { activated_at = some now }) stored
                        (ground arith))))
                  λ st₃ c₃.
                    log_event-IsConsistent canonical_hash now st₃ r.metric_definition_id
                      ReleaseEventType.activated "registry-service" (some r.metric_version_id)
                      (some r.release_id) c₃

  activate_approved-Commits :
      (now : ℕ) (st : Store) (r : MetricRelease) (expected : Option Version)
      → IsConsistent canonical_hash st
      → IsStored st.releases r
      → Ensures (Commits canonical_hash) (activate_approved canonical_hash now st r expected)
  unfolding activate_approved
  activate_approved-Commits now st r expected c stored =
      Ensures-raise_if (Commits canonical_hash)
        (not (same_release_status r.status ReleaseStatus.approved)) _ _
        λ _.
          Ensures-bind (Commits canonical_hash) (expected_pointer canonical_hash st r expected) _
            λ pointer _.
              Ensures-bind (Commits canonical_hash)
                (or_raise (move_pointer now st r.metric_definition_id pointer r.metric_version_id)
                  (err activation_conflict))
                _
                λ st₁ e.
                  let (c₁, same) =
                    move_pointer-GoodWith canonical_hash now st r.metric_definition_id pointer
                      r.metric_version_id st.releases (c, refl) (or_raise-eq-ok _ _ e) in
                  finish_activation-Commits now st₁ r c₁
                    (subst (λ t. IsStored t r) (sym same) stored)

  -- From a consistent store, every activation that commits leaves a consistent store: pointer column
  -- and document, status column and document, and every digest still agree.
  pub activate-IsConsistent :
      (now : ℕ) (st : Store) (id : String) (expected : Option Version)
      → IsConsistent canonical_hash st
      → Ensures (Commits canonical_hash) (activate canonical_hash now st id expected)
  unfolding activate
  activate-IsConsistent now st id expected c =
      Ensures-bind (Commits canonical_hash) (release canonical_hash st id) _ λ r e.
        Ensures-bind (Commits canonical_hash) (definition_by_id st r.metric_definition_id) _ λ d _.
          elim (Bool-cases (
            same_release_status r.status ReleaseStatus.active
            && opt_eq d.active_version_id (some r.metric_version_id))) [
              | inl already ↦ rw already c
              | inr other ↦ rw other (
                  activate_approved-Commits now st r expected c
                    (release-IsStored canonical_hash st id c e))
            ]
