-- ===== src/Refinement.antt =====
-- Window review (src/airi/refinement): the rewrite of a baseline metric into a longer window.
pub mod Transform
pub mod Windows
mod Examples
