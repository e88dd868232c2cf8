-- ===== src/Model.antt =====
-- src/model: identities, states and state models, replica state maps, ideal states and sessions.
pub mod Identity
pub mod State
pub mod StateModel
pub mod Replica
pub mod Ideal
pub mod Builtins
pub mod Session
