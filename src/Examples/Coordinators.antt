-- ===== src/Examples/Coordinators.antt =====
-- Runs of include/cadmia/engine/coordinator.hpp. The children are accumulators, and `std::any` holds an interval of integers.
use cadmia.Prelude.{
  ◌≡◌, refl, true, false, ◌&&◌, ok, err, logic_error, some, List, [], ◌∷◌, All, all, any, Text,
  codes, Result, text_eq, contains,
}
use cadmia.Prelude.Int.{ℤ, pos, ◌+ℤ◌}
use cadmia.Prelude.Maps.{find, assign, find_edge}
use cadmia.Prelude.MachineInt.{int_add}
use cadmia.Scalar.Instances.{int_scalar, int_arith, ℤ-IsOrdered}
use cadmia.Interval.{
  Interval, interval, empty_interval, closed, is_empty, is_subset_of, intersects, is_punctual,
  intersection, equals, add, print,
}
use cadmia.Interval.Membership.{has, above_lower, below_upper}
use cadmia.Engine.{Castable, IadevsEngine, identity_translation}
use cadmia.CoupledModel.{CoupledModel, self}
use cadmia.Simulator
use cadmia.Simulator.{Simulator, simulator_engine}
use cadmia.Models.Accumulator.{
  State, accumulator, internal_transition, output_function, time_advance, external_transition,
  state_scalar,
}
use cadmia.Models.Accumulator
use cadmia.Models.Counter.{passive, output}
use cadmia.Coordinator.Hull.{compute_t_last, compute_t_next, compute_t_last_lem, compute_t_next_lem}
use cadmia.Coordinator.State.{Coordinator}
use cadmia.Coordinator.Branching.{BranchAction, compute_branches}
use cadmia.Coordinator.Routing.{Outcome, execute_branch, x_function}
use cadmia.Coordinator.Bounded.{Follows, execute_branch-IsBounded}
use cadmia.Coordinator.Candidates.{IsOffer, compute_branches-IsOffer}
use cadmia.RootCoordinator.{LogEntry, Branch, deduplicate, simulate, int_to_string, to_string}
use cadmia.RootCoordinator

abbrev pub Value : Type 0
Value = Interval ℤ

abbrev pub any_value : Castable Value Value
any_value = record { wrap = λ v. v; unwrap = λ v. some v }

abbrev pub child : IadevsEngine ℤ Value (Simulator State ℤ)
child = simulator_engine accumulator any_value any_value int_to_string

-- An engine that has a total to output at time `t`.
abbrev pub due : Interval ℤ → Simulator State ℤ
due t = record {
  state = interval (Accumulator.state output (pos 7)) (Accumulator.state output (pos 7)) true true;
  t_last = t;
  t_next = t;
}

abbrev pub span : ℤ → ℤ → Interval ℤ
span a b = interval a b true true

compute_t_last_lem_example :
    has (compute_t_last (span (pos 1) (pos 4)) (span (pos 2) (pos 3) ∷ [])) (pos 4) ≡ (
      all (λ i. above_lower i (pos 4)) (span (pos 1) (pos 4) ∷ span (pos 2) (pos 3) ∷ [])
      && any (λ i. below_upper i (pos 4)) (span (pos 1) (pos 4) ∷ span (pos 2) (pos 3) ∷ []))
compute_t_last_lem_example =
    compute_t_last_lem ℤ-IsOrdered (span (pos 1) (pos 4)) (span (pos 2) (pos 3) ∷ []) (pos 4)

compute_t_next_lem_example :
    has (compute_t_next (span (pos 1) (pos 4)) (span (pos 2) (pos 3) ∷ [])) (pos 1) ≡ (
      any (λ i. above_lower i (pos 1)) (span (pos 1) (pos 4) ∷ span (pos 2) (pos 3) ∷ [])
      && all (λ i. below_upper i (pos 1)) (span (pos 1) (pos 4) ∷ span (pos 2) (pos 3) ∷ []))
compute_t_next_lem_example =
    compute_t_next_lem ℤ-IsOrdered (span (pos 1) (pos 4)) (span (pos 2) (pos 3) ∷ []) (pos 1)

abbrev pub select_first : List Text → Text
select_first [] = []
select_first (n ∷ ns) = n

abbrev pub Factory : Type 0
Factory = Interval ℤ → Result (Simulator State ℤ)

abbrev pub start : Factory → Interval ℤ → Result (Simulator State ℤ)
start f t = f t

-- Two engines whose outputs leave the coupled model.
abbrev pub pair : CoupledModel ℤ Value Factory
pair = record {
  components = (codes "a", λ t. ok (due t)) ∷ (codes "b", λ t. ok (due t)) ∷ [];
  influencers = (codes "a", self ∷ []) ∷ (codes "b", []) ∷ (self, codes "a" ∷ codes "b" ∷ []) ∷ [];
  translations =
      ((codes "a", self), identity_translation)
      ∷ ((codes "b", self), identity_translation)
      ∷ ((self, codes "a"), identity_translation)
      ∷ [];
  select = select_first;
  zero_time = pos 0;
}

abbrev pub running : Coordinator ℤ Value Factory (Simulator State ℤ)
running = record {
  model = pair;
  engines = (codes "a", due (span (pos 2) (pos 2))) ∷ (codes "b", due (span (pos 2) (pos 6))) ∷ [];
  influenced_by = [];
  t_last = span (pos 2) (pos 6);
  t_next = span (pos 2) (pos 2);
}

-- "a" fires at 2, or it is passed over and "b" fires.
abbrev offered : List (BranchAction ℤ)
offered = record { engine_name = codes "a"; limit = span (pos 2) (pos 2); defer_engine = [] } ∷ []

compute_branches-IsOffer_example :
    All (IsOffer child select_first (span (pos 2) (pos 2)) running.engines) offered
unfolding compute_branches text_eq contains find is_empty intersects is_punctual intersection equals
compute_branches-IsOffer_example =
    compute_branches-IsOffer ℤ-IsOrdered child (span (pos 2) (pos 2)) running offered refl

-- "a" has fired at 2.
abbrev pub after_a : Coordinator ℤ Value Factory (Simulator State ℤ)
after_a = record {
  model = pair;
  engines =
      (
        codes "a",
        record {
          state =
              interval (Accumulator.state passive (pos 7)) (Accumulator.state passive (pos 7)) true
                true;
          t_last = span (pos 2) (pos 2);
          t_next = empty_interval;
        },
      )
      ∷ (codes "b", due (span (pos 2) (pos 6)))
      ∷ [];
  influenced_by = [];
  t_last = span (pos 2) (pos 6);
  t_next = span (pos 2) (pos 6);
}

abbrev pub outcome : Outcome Value
outcome = record {
  text = some (codes "[7, 7]");
  component_output = some (span (pos 7) (pos 7));
  eoc_output = some (span (pos 7) (pos 7));
}

abbrev pub fire_a : BranchAction ℤ
fire_a = record { engine_name = codes "a"; limit = span (pos 2) (pos 2); defer_engine = [] }

pub fires_a : execute_branch child fire_a running ≡ ok (after_a, outcome)
unfolding execute_branch text_eq contains find assign find_edge is_empty is_subset_of closed add
    output_function internal_transition time_advance empty_interval Simulator.engine_star print
    int_to_string identity_translation Simulator.star cadmia.CoupledModel.translation compute_t_last
    compute_t_next cadmia.RootCoordinator.to_string
fires_a = refl

execute_branch-IsBounded_example : Follows child running after_a
execute_branch-IsBounded_example =
    execute_branch-IsBounded child fire_a running after_a outcome fires_a

-- "a" has received 3 at 2.
abbrev pub after_input : Coordinator ℤ Value Factory (Simulator State ℤ)
after_input = record {
  model = pair;
  engines =
      (
        codes "a",
        record {
          state =
              interval (Accumulator.state output (pos 10)) (Accumulator.state output (pos 10)) true
                true;
          t_last = span (pos 2) (pos 2);
          t_next = span (pos 2) (pos 2);
        },
      )
      ∷ (codes "b", due (span (pos 2) (pos 6)))
      ∷ [];
  influenced_by = [];
  t_last = span (pos 2) (pos 6);
  t_next = span (pos 2) (pos 2);
}

pub takes_three :
    x_function child (span (pos 3) (pos 3)) (span (pos 2) (pos 2)) running ≡ ok after_input
unfolding x_function text_eq contains find assign find_edge is_empty closed add external_transition
    int_add ◌+ℤ◌ time_advance Simulator.engine_x identity_translation
    cadmia.CoupledModel.translation Simulator.x compute_t_last compute_t_next
takes_three = refl

abbrev started : Coordinator ℤ Value Factory (Simulator State ℤ)
started = record {
  model = pair;
  engines = (codes "a", due (span (pos 1) (pos 4))) ∷ (codes "b", due (span (pos 1) (pos 4))) ∷ [];
  influenced_by = [];
  t_last = span (pos 1) (pos 4);
  t_next = span (pos 1) (pos 4);
}

-- Three engines, of which one begins just after 5 and one at 5: the limit ends with 5 included, so that the
-- engine that begins at 5 may fire within a limit that begins before it, and its *-function throws.
abbrev mixed : Coordinator ℤ Value Factory (Simulator State ℤ)
mixed = record {
  model = pair;
  engines =
      (codes "a", due (span (pos 0) (pos 10)))
      ∷ (codes "b", due (interval (pos 5) (pos 6) false true))
      ∷ (codes "c", due (span (pos 5) (pos 9)))
      ∷ [];
  influenced_by = [];
  t_last = span (pos 5) (pos 10);
  t_next = span (pos 0) (pos 6);
}

abbrev within_five : Text → BranchAction ℤ
within_five name = record { engine_name = name; limit = span (pos 0) (pos 5); defer_engine = [] }

mixed_branches :
    compute_branches child (span (pos 0) (pos 6)) mixed
    ≡ ok (within_five (codes "a") ∷ within_five (codes "c") ∷ within_five [] ∷ [])
unfolding compute_branches is_empty intersects is_punctual intersection equals
mixed_branches = refl

mixed_throws :
    execute_branch child (within_five (codes "c")) mixed
    ≡ err (logic_error (codes "star: time t is not a subset of t_next"))
unfolding execute_branch find text_eq Simulator.engine_star Simulator.star is_subset_of is_empty
mixed_throws = refl
