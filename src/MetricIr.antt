-- ===== src/MetricIr.antt =====
-- The structured metric (src/airi/metric_ir): its schema, the join mechanism gate, and the
-- declarations of the two scenarios.
pub mod Models
pub mod Equality
pub mod Joins
pub mod Scenarios
pub mod Derived
mod Examples
