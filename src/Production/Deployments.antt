-- ===== src/Production/Deployments.antt =====
-- The production deployment service (src/airi/production/service.py): environments, packages, the
-- deployment's life from its creation to the runtime, and the human reviews on the way.
pub mod Models
pub mod Store
pub mod Packaging
pub mod Environments
pub mod Session
pub mod Creation
pub mod Preflight
pub mod Shadow
pub mod Reviews
pub mod Gatekeeping
pub mod Deploying
pub mod Rules
pub mod Governance
pub mod Runs
pub mod Sample
mod Examples
mod Incidents
