-- ===== src/Production/Gate.antt =====
-- The verification gate (src/airi/production/gate.py): which evidence an action needs, what an
-- emergency override may waive, and the decision.
pub mod Requirements
pub mod Decision
pub mod Soundness
pub mod Passing
