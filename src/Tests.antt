-- ===== src/Tests.antt =====
-- Runs of the model at concrete inputs.
pub mod Models
pub mod Transitions
pub mod Sessions
pub mod Routes
pub mod Placements
pub mod Throttling
pub mod Cycles
pub mod Frontiers
