-- ===== src/Examples/Roots.antt =====
-- Runs of include/cadmia/engine/root_coordinator.hpp and log.hpp over the pair of accumulators.
use cadmia.Prelude.{
  filter_by, not, map, arith, ◌≡◌, ◌≢◌, ◌≤◌, refl, ok, none, some, List, [], ◌∷◌, ◌++◌, ℕ, ◌/◌, All,
  Text, codes, text_eq, contains,
}
use cadmia.Prelude.Int.{ℤ, pos}
use cadmia.Prelude.Maps.{find, assign, find_edge}
use cadmia.Scalar.Instances.{int_scalar, int_arith}
use cadmia.Interval.{
  Interval, interval, empty_interval, closed, is_empty, is_subset_of, intersects, is_punctual,
  intersection, equals, add, print,
}
use cadmia.Engine.{identity_translation}
use cadmia.CoupledModel.{CoupledModel, self}
use cadmia.Simulator
use cadmia.Simulator.{Simulator, simulator_engine}
use cadmia.Models.Accumulator.{
  State, internal_transition, output_function, time_advance, state_scalar,
}
use cadmia.Coordinator.Hull.{compute_t_last, compute_t_next}
use cadmia.Coordinator.State.{Coordinator, init, new_coordinator, invert}
use cadmia.Coordinator.Branching.{BranchAction, compute_branches}
use cadmia.Coordinator.Routing.{Outcome, execute_branch, x_function}
use cadmia.Coordinator.Interface.{clone, engine_equals}
use cadmia.RootCoordinator.{
  LogEntry, Run, Branch, dedup_entry, deduplicate, simulate, int_to_string, to_string,
}
use cadmia.RootCoordinator.Halt.{deduplicate_lem}
use cadmia.RootCoordinator.Steps.{executed, simulate-executed}
use cadmia.RootCoordinator
use cadmia.RootCoordinator.Budget.{simulate-halts}
use cadmia.Log.{escape_json, to_ndjson, write_ndjson}
use cadmia.Log.Reading.{read_string, read_string-escape_json}
use cadmia.Log.Lines.{lines, to_string-one_line, lines-write_ndjson}
use cadmia.RootCoordinator.Extends.{Prefix}
use cadmia.RootCoordinator.Longer.{simulate-Prefix}
use cadmia.RootCoordinator.Fresh.{IsFresh}
use cadmia.RootCoordinator.Reached.{begun, rounded, reached-IsFresh}
use cadmia.Examples.Coordinators.{Value, Factory, child, span, start, pair, running, after_a}

simulate-halts_example :
    simulate child int_to_string start pair (span (pos 0) (pos 1)) (pos 10_000) (pos 1000) ≢ ok none
simulate-halts_example =
    simulate-halts child int_to_string (pos 10_000) (pos 1000) start pair (span (pos 0) (pos 1))

-- One step allowed: "a" fires, and the branch in which "b" fires is not begun.
abbrev first_step : LogEntry Value
first_step = record {
  step = 0;
  branch = codes "1";
  kind = codes "atomic";
  parent_branch = some (codes "0");
  time = codes "[0, 1]";
  component = codes "a";
  output = some (codes "[7, 7]");
  raw_output = some (span (pos 7) (pos 7));
  merged_into = none;
}

simulate-executed_example : executed (first_step ∷ []) ≤ 1
unfolding simulate is_empty assign text_eq compute_t_next intersects is_punctual intersection equals
    execute_branch find clone Simulator.engine_star Simulator.star is_subset_of output_function
    closed internal_transition cadmia.Coordinator.Branching.branches_of compute_branches
    cadmia.Coordinator.Branching.cut cadmia.Coordinator.Branching.imminents
    cadmia.Coordinator.Branching.meeting cadmia.Coordinator.Branching.place
    cadmia.Coordinator.Branching.restrict_upper cadmia.Coordinator.Branching.sooner
    cadmia.Coordinator.Branching.sort cadmia.Coordinator.Branching.wide_branches compute_t_last
    cadmia.Coordinator.Routing.clone_all cadmia.Coordinator.Routing.deliver_all
    cadmia.Coordinator.Routing.external_output cadmia.Coordinator.Routing.pass_on
    cadmia.Coordinator.Routing.route cadmia.Coordinator.Routing.settle
    cadmia.Coordinator.State.active_t_next cadmia.Coordinator.State.add_influence
    cadmia.Coordinator.State.add_influences cadmia.Coordinator.State.all_t_last
    cadmia.Coordinator.State.bound_ts init invert new_coordinator cadmia.Coordinator.State.start_all
    cadmia.CoupledModel.translation add empty_interval cadmia.Interval.is_lower_infinite
    cadmia.Interval.is_upper_infinite print find_edge contains deduplicate RootCoordinator.digits
    RootCoordinator.expand int_to_string RootCoordinator.interval_str RootCoordinator.loop
    RootCoordinator.make_entry RootCoordinator.round RootCoordinator.run_branches
    RootCoordinator.run_in_place RootCoordinator.to_string RootCoordinator.visit Simulator.schedule
    time_advance identity_translation
simulate-executed_example =
    simulate-executed child int_to_string (pos 1) (pos 5) start pair (span (pos 0) (pos 1))
      (first_step ∷ []) refl

-- Two steps allowed: each of the two has fired, on a branch of its own.
abbrev second_step : LogEntry Value
second_step = record first_step { branch = codes "2"; component = codes "b" }

simulate-Prefix_example :
    (l : List (LogEntry Value)) × (simulate child int_to_string start pair
        (span (pos 0) (pos 1))
        (pos 1)
        (pos 5)
      ≡ ok (some l))
    × Prefix l (first_step ∷ second_step ∷ [])
unfolding simulate is_empty assign text_eq compute_t_next intersects is_punctual intersection equals
    execute_branch find clone Simulator.engine_star Simulator.star is_subset_of output_function
    closed internal_transition cadmia.Coordinator.Branching.branches_of compute_branches
    cadmia.Coordinator.Branching.cut cadmia.Coordinator.Branching.imminents
    cadmia.Coordinator.Branching.meeting cadmia.Coordinator.Branching.place
    cadmia.Coordinator.Branching.restrict_upper cadmia.Coordinator.Branching.sooner
    cadmia.Coordinator.Branching.sort cadmia.Coordinator.Branching.wide_branches compute_t_last
    cadmia.Coordinator.Routing.clone_all cadmia.Coordinator.Routing.deliver_all
    cadmia.Coordinator.Routing.external_output cadmia.Coordinator.Routing.pass_on
    cadmia.Coordinator.Routing.route cadmia.Coordinator.Routing.settle
    cadmia.Coordinator.State.active_t_next cadmia.Coordinator.State.add_influence
    cadmia.Coordinator.State.add_influences cadmia.Coordinator.State.all_t_last
    cadmia.Coordinator.State.bound_ts init invert new_coordinator cadmia.Coordinator.State.start_all
    cadmia.CoupledModel.translation add empty_interval cadmia.Interval.is_lower_infinite
    cadmia.Interval.is_upper_infinite print find_edge contains deduplicate RootCoordinator.digits
    RootCoordinator.expand int_to_string RootCoordinator.interval_str RootCoordinator.loop
    RootCoordinator.make_entry RootCoordinator.round RootCoordinator.run_branches
    RootCoordinator.run_in_place RootCoordinator.to_string RootCoordinator.visit Simulator.schedule
    time_advance identity_translation
simulate-Prefix_example =
    simulate-Prefix child int_to_string (pos 1) (pos 2) (pos 5) (omega arith) start pair
      (span (pos 0) (pos 1)) (first_step ∷ second_step ∷ []) refl

abbrev branch : Text → Branch (Coordinator ℤ Value Factory (Simulator State ℤ))
branch id = record { branch_id = id; coordinator = running; parent_branch_id = none; step = 3 }

-- Behind "1", "2" is equal to it and is dropped, and "3" stays.
abbrev waiting : List (Branch (Coordinator ℤ Value Factory (Simulator State ℤ)))
waiting = branch (codes "2") ∷ record (branch (codes "3")) { coordinator = after_a } ∷ []

deduplicate_lem_example :
    ((deduplicate child int_to_string (branch (codes "1")) waiting).0
      ≡ filter_by (λ b. not (engine_equals child running b.coordinator)) waiting)
    × ((deduplicate child int_to_string (branch (codes "1")) waiting).1
        ≡ map
            (dedup_entry child int_to_string (branch (codes "1")))
            (filter_by (λ b. engine_equals child running b.coordinator) waiting))
    × All
        (λ e. (e.kind ≡ codes "dedup") × (e.merged_into ≡ some (codes "1")))
        (deduplicate child int_to_string (branch (codes "1")) waiting).1
deduplicate_lem_example = deduplicate_lem child int_to_string (branch (codes "1")) waiting

read_string-escape_json_example :
    read_string (escape_json (codes "a\"b") ++ (34 ∷ codes ",")) ≡ some (codes "a\"b", codes ",")
read_string-escape_json_example = read_string-escape_json (codes "a\"b") (codes ",")

abbrev entry : LogEntry Value
entry = record {
  step = 0;
  branch = codes "0";
  kind = codes "atomic";
  parent_branch = none;
  time = codes "[2, 2]";
  component = codes "a";
  output = some (codes "[7, 7]");
  raw_output = none;
  merged_into = none;
}

-- A clock that counts microseconds.
abbrev milliseconds : ℕ → ℕ
milliseconds n = n / 1000

lines-write_ndjson_example :
    lines [] (write_ndjson milliseconds to_string ((1_767_225_600_000_250, entry) ∷ []))
    ≡ to_ndjson milliseconds to_string 1_767_225_600_000_250 entry ∷ []
lines-write_ndjson_example =
    lines-write_ndjson milliseconds to_string to_string-one_line
      ((1_767_225_600_000_250, entry) ∷ [])

-- One round of the running coordinator: "a" fires in place.
abbrev fired_entry : LogEntry Value
fired_entry = record entry { raw_output = some (span (pos 7) (pos 7)) }

abbrev one_round : Run Value (Coordinator ℤ Value Factory (Simulator State ℤ))
one_round = record {
  queue =
      (record { branch_id = codes "0"; coordinator = after_a; parent_branch_id = none; step = 1 })
      ∷ [];
  log = fired_entry ∷ [];
  total_steps = 1;
  next_branch_id = 1;
}

reached-IsFresh_example : IsFresh 1 one_round.queue
unfolding simulate is_empty assign text_eq compute_t_next intersects is_punctual intersection equals
    execute_branch find clone Simulator.engine_star Simulator.star is_subset_of output_function
    closed internal_transition cadmia.Coordinator.Branching.branches_of compute_branches
    cadmia.Coordinator.Branching.cut cadmia.Coordinator.Branching.imminents
    cadmia.Coordinator.Branching.meeting cadmia.Coordinator.Branching.place
    cadmia.Coordinator.Branching.restrict_upper cadmia.Coordinator.Branching.sooner
    cadmia.Coordinator.Branching.sort cadmia.Coordinator.Branching.wide_branches compute_t_last
    cadmia.Coordinator.Routing.clone_all cadmia.Coordinator.Routing.deliver_all
    cadmia.Coordinator.Routing.external_output cadmia.Coordinator.Routing.pass_on
    cadmia.Coordinator.Routing.route cadmia.Coordinator.Routing.settle
    cadmia.Coordinator.State.active_t_next cadmia.Coordinator.State.add_influence
    cadmia.Coordinator.State.add_influences cadmia.Coordinator.State.all_t_last
    cadmia.Coordinator.State.bound_ts init invert new_coordinator cadmia.Coordinator.State.start_all
    cadmia.CoupledModel.translation add empty_interval cadmia.Interval.is_lower_infinite
    cadmia.Interval.is_upper_infinite print find_edge contains deduplicate RootCoordinator.digits
    RootCoordinator.expand int_to_string RootCoordinator.interval_str RootCoordinator.loop
    RootCoordinator.make_entry RootCoordinator.round RootCoordinator.run_branches
    RootCoordinator.run_in_place RootCoordinator.to_string RootCoordinator.visit Simulator.schedule
    time_advance identity_translation
reached-IsFresh_example =
    reached-IsFresh child int_to_string (pos 5) (pos 5) running one_round (rounded begun refl)
