-- ===== src/Refinement/Examples.antt =====
-- The window rewrite at a concrete metric (src/airi/refinement/transform.py).
use airi.Prelude.{String, ◌≡◌, inl, inr, refl, ok}
use airi.MetricIr.Models.{MetricIr, is_text}
use airi.MetricIr.Scenarios.Forms.{invoice_amount}
use airi.MetricIr.Scenarios.Recovery.{amount-accepted}
use airi.Refinement.Transform.{rewritten, restored, transform_window}
use airi.Refinement.Windows.{
  Window, candidate_of, differences, transform_window-returns, transform_window-restores,
}

abbrev amount : MetricIr
amount = invoice_amount "sum of the amounts"

abbrev digest : MetricIr → String
digest m = m.description

transform_window-returns_example :
    transform_window digest amount 60 ≡ ok (candidate_of amount 60, differences amount 60)
unfolding is_text
transform_window-returns_example =
    transform_window-returns digest amount 60 (amount-accepted "sum of the amounts" refl) refl
      (inl refl)

rewrite-run : transform_window digest amount 90 ≡ ok (candidate_of amount 90, differences amount 90)
unfolding is_text
rewrite-run =
    transform_window-returns digest amount 90 (amount-accepted "sum of the amounts" refl) refl
      (inr refl)

transform_window-restores_example :
    Window 90
    × (candidate_of amount 90 ≡ rewritten amount 90)
    × (restored amount (candidate_of amount 90) 30 ≡ amount)
transform_window-restores_example = transform_window-restores digest amount 90 rewrite-run
