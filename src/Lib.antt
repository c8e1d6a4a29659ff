-- ===== src/Lib.antt =====
-- A model of cadmia, a header-only simulator of IA-DEVS: discrete-event models whose states and times are
-- known up to intervals. Paths below are from the repository's root.
--
-- A `simulator` (include/cadmia/engine/simulator.hpp) drives one atomic model, four static functions on
-- intervals. A `coordinator` (engine/coordinator.hpp) holds the engines of a validated coupled model
-- (modeling/coupled.hpp, modeling/component.hpp), works out which of them may fire next and within which
-- limit, fires one, and passes its output on through translations. The engines of a coordinator are
-- simulators and coordinators behind one virtual interface (engine/engine.hpp). `root_coordinator`
-- (engine/root_coordinator.hpp) explores all branches breadth first and keeps a log, which engine/log.hpp
-- writes as lines of JSON. All of it rests on the intervals of modeling/interval.hpp. Four ready models
-- stand in include/cadmia/basic_model/iadevs/.
--
-- Which file models which part:
--   Prelude         exceptions as the values of `Result`, texts as lists of bytes, `std::unordered_map` as a
--                   list of pairs in the order of its walk, `int` as an integer whose overflow is an error
--   Scalar          the endpoint type: `operator<`, `operator==`, `numeric_limits`, + and - under a rounding
--                   mode. `Scalar.Laws` and `Scalar.Exact` state what the proofs use of it: a strict weak
--                   order, so no NaN, and outward rounding against exact numbers; `Scalar.Instances` has
--                   `int` and the integers with two infinities
--   Interval        modeling/interval.hpp, under its names; `open` is `open_interval`
--   AtomicModel     concepts/iadevs_atomic_model.hpp
--   Engine          engine/engine.hpp; `std::any` is a type `V`, the contents of it are `Castable`
--   Simulator       engine/simulator.hpp; a method that changes the object returns the new state, and an
--                   exception returns none. `Simulator.Exactly` has the calls in sequence and the exact runs
--                   of a model that they stand for
--   Component, CoupledModel  modeling/component.hpp, modeling/coupled.hpp
--   Coordinator     engine/coordinator.hpp: Hull (compute_t_last, compute_t_next), State (the fields, init,
--                   bound_ts), Branching (compute_branches), Routing (execute_branch, route, x_function),
--                   Interface (the virtual functions), Depth (coordinators inside coordinators). The other files
--                   there are proofs: the order of the branches (Earliest, Sorted, Cut, OnTime,
--                   Progress), what they fire (Offered, Candidates), the bounds (Bounded), the names
--                   (Influence, Wired), nested coordinators (Nested), what a branch
--                   leaves alone (Frame), when two coordinators are equal (Equality)
--   RootCoordinator engine/root_coordinator.hpp: the loop; Halt and Budget are about its end, Steps about what it
--                   logs, Extends and Longer how the log grows with the limit on steps, Fresh and
--                   Reached the identifiers of branches, Ready, Safe and
--                   Nested the exceptions of a run
--   CoupledGp       example/coupled_gp/main.cpp; the conversion of a time to `int` is a parameter
--   Log             engine/log.hpp
--   Models          basic_model/iadevs/
--   Examples        runs, and the theorems at concrete inputs
--
-- Choices. A coordinator's children have any type `E` with a record of the virtual functions; Depth makes
-- the type of engines of every nesting depth, by recursion on the depth. `std::sort` is an insertion sort:
-- the standard leaves the order of equal elements open, and the order of the map's walk, over which the
-- model is general, makes up for it. The loop of `simulate` runs on fuel, max_steps * (max_branches + 1) + 2
-- rounds: a round either takes a step, after which at most max_branches branches wait, or shortens the
-- queue. The decimal literals of the models are fields of `Literals`, and the readings of the
-- clock, their rounding and their formatting are arguments of the functions of the log.
--
-- Not modelled: the clock itself, the streams, memory management, and the unit tests, which check the
-- code that is modelled. Where the example's SELECT would read past the end of an empty set, the model
-- answers with the empty name.
pub mod Prelude
pub mod Scalar
pub mod Interval
pub mod AtomicModel
pub mod Engine
pub mod Simulator
pub mod Component
pub mod CoupledModel
pub mod Coordinator
pub mod RootCoordinator
pub mod CoupledGp
pub mod Log
pub mod Models
pub mod Examples
