-- ===== src/Examples.antt =====
-- Runs on concrete data: the theorems of each part applied where their hypotheses hold.
mod Intervals
mod Simulators
mod Topologies
mod Coordinators
mod Models
mod Routing
mod Runs
mod Programs
mod Nested
mod Roots
mod Frames
