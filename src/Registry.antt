-- ===== src/Registry.antt =====
-- The metric registry (src/airi/registry): governed versions, releases and the active pointer.
pub mod Models
pub mod Store
pub mod Session
pub mod Writes
pub mod Integrity
pub mod Governance
pub mod Family
pub mod Versioning
pub mod Registration
pub mod Queries
pub mod Diagnostics
pub mod Releases
pub mod Decisions
pub mod Rollback
pub mod Runs
pub mod Sample
mod Examples
mod Walkthrough
