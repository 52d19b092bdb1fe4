-- ===== src/Production/Convergence/Health.antt =====
-- The verdict of an execution and the aggregate health view
-- (src/airi/production/convergence.py).
use airi.Prelude.{String, Bool, true, false, ◌||◌, List, [], ◌∷◌, ◌++◌, if◌then◌else◌, str_eq}
use airi.Production.Models.{
  RuntimeState, ConvergenceState, ConvergenceVerdict, ProductionHealthStatus,
}
use airi.Production.Convergence.{is_unknown}

pub convergence_verdict : ConvergenceState → Bool → ConvergenceVerdict
convergence_verdict ConvergenceState.converged executed =
    if executed then ConvergenceVerdict.converged else ConvergenceVerdict.already_converged
convergence_verdict ConvergenceState.unknown executed = ConvergenceVerdict.not_verified
convergence_verdict ConvergenceState.mismatch executed =
    if executed
    then ConvergenceVerdict.still_mismatch
    else ConvergenceVerdict.manual_intervention_required

abbrev pub not_compared : ConvergenceState → Bool
not_compared ConvergenceState.unknown = true
not_compared _ = false

-- `f"the runtime reports {runtime_state}"` for the three states that are reported
abbrev runtime_reasons : RuntimeState → List String
runtime_reasons RuntimeState.failed = "the runtime reports failed" ∷ []
runtime_reasons RuntimeState.rolled_back = "the runtime reports rolled_back" ∷ []
runtime_reasons RuntimeState.mismatch = "the runtime reports mismatch" ∷ []
runtime_reasons _ = []

abbrev mismatch_reasons : ConvergenceState → List String
mismatch_reasons ConvergenceState.mismatch =
    "the registry and the runtime disagree with the desired state" ∷ []
mismatch_reasons _ = []

-- `workflow_status in (...)`: the two named recoveries, spelt out in the message
abbrev workflow_reasons : String → List String
workflow_reasons status =
    if str_eq status "rollback_reconciliation_required"
    then "the workflow is waiting on a named recovery: rollback_reconciliation_required" ∷ []
    else if str_eq status "reconciliation_verification_required"
    then "the workflow is waiting on a named recovery: reconciliation_verification_required" ∷ []
    else []

abbrev degraded_if : List String → ProductionHealthStatus
degraded_if [] = ProductionHealthStatus.healthy
degraded_if (r ∷ rs) = ProductionHealthStatus.degraded

unfoldable pub health_of :
    String → RuntimeState → ConvergenceState → ProductionHealthStatus × List String
health_of workflow_status runtime_state convergence =
    if str_eq workflow_status "failed"
    then (
      ProductionHealthStatus.unknown,
      "the deployment workflow failed; production health is unknown" ∷ [],
    )
    else if not_compared convergence || is_unknown runtime_state
    then (ProductionHealthStatus.unknown, "the runtime did not report a state" ∷ [])
    else let reasons =
        mismatch_reasons convergence
        ++ (runtime_reasons runtime_state ++ workflow_reasons workflow_status) in
      (degraded_if reasons, reasons)
