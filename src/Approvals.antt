-- ===== src/Approvals.antt =====
-- Human review of generated artifacts (src/airi/approvals): a draft is submitted, decided once, and
-- executed only while it is the approved text.
pub mod Service
pub mod Governance
pub mod Execution
pub mod Runs
mod Examples
