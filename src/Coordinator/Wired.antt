-- ===== src/Coordinator/Wired.antt =====
-- The lookups of names in a coordinator, by parts.
pub mod Keys
pub mod Topology
pub mod Fine
pub mod Spares
pub mod Lookups
pub mod Start
pub mod Known
pub mod Ready
