-- ===== src/Coordinator.antt =====
-- include/cadmia/engine/coordinator.hpp: Algorithms 2 and 3, by parts.
pub mod Hull
pub mod State
pub mod Branching
pub mod Routing
pub mod Interface
pub mod Depth
pub mod Bounded
pub mod Offered
pub mod Candidates
pub mod Influence
pub mod Earliest
pub mod Sorted
pub mod Cut
pub mod OnTime
pub mod Progress
pub mod Wired
pub mod Nested
pub mod Frame
pub mod Equality
