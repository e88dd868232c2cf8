-- ===== src/Rebalance.antt =====
-- src/rebalance: the placement calculations.
pub mod SemiAuto
pub mod Topology
