-- ===== src/Production.antt =====
-- Production governance (src/airi/production): vocabulary, three-way convergence, reconciliation
-- plans, the verification gate, monitoring and expectations.
pub mod Models
pub mod Convergence
pub mod Reconciliation
pub mod Gate
pub mod Identity
pub mod Deployments
mod Examples
