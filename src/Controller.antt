-- ===== src/Controller.antt =====
-- src/controller: the stages of a controller cycle.
pub mod Generation
pub mod Selection
pub mod Throttle
pub mod Runtime
