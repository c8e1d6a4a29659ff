-- ===== src/Examples/Routing.antt =====
-- Runs of include/cadmia/engine/coordinator.hpp over a validated model of two accumulators.
use cadmia.Prelude.{
  text_eq_refl, text_eq_iff, arith, ◌≡◌, ◌≢◌, refl, true, false, ok, inl, inr, [], ◌∷◌, Text, codes,
  All, text_eq, contains,
}
use cadmia.Prelude.Int.{ℤ, pos}
use cadmia.Prelude.Maps.{find, assign, find_edge, keys}
use cadmia.Prelude.Distinct.{IsDistinct}
use cadmia.Scalar.Instances.{int_scalar, int_arith, ℤ-IsOrdered}
use cadmia.Interval.{interval, Interval, is_subset_of, is_empty, closed, right_open}
use cadmia.CoupledModel.{validate}
use cadmia.CoupledModel.Valid.{IsValid, validate_iff}
use cadmia.Engine.{identity_translation}
use cadmia.Simulator.{Simulator}
use cadmia.Models.Accumulator.{State, state_scalar, accumulator}
use cadmia.Coordinator.Hull.{compute_t_next, compute_t_last}
use cadmia.Coordinator.State.{Coordinator, init, invert, new_coordinator}
use cadmia.Coordinator.Branching.{BranchAction, compute_branches}
use cadmia.Coordinator.Routing.{execute_branch}
use cadmia.Coordinator.Bounded.{IsBounded}
use cadmia.Coordinator.Candidates.{Fires}
use cadmia.Coordinator.OnTime.{IsOrderly, compute_branches-OnTime}
use cadmia.Coordinator.Progress.{compute_branches-ne-nil}
use cadmia.Coordinator.Wired.Spares.{IsSafe, Total, AllGood}
use cadmia.Coordinator.Wired.Fine.{Spares, Fine, Fine-ok}
use cadmia.Coordinator.Wired.Ready.{IsSound}
use cadmia.Simulator.Safe.{AnySimulator, simulator_engine-IsSafe}
use cadmia.Models.Accumulator.Sparing.{accumulator-IsSparing}
use cadmia.Coordinator.Wired.Lookups.{IsWired, IsKnown, execute_branch-IsWired}
use cadmia.Coordinator.Wired.Start.{init-IsWired}
use cadmia.Coordinator.Wired.Known.{Answers}
use cadmia.RootCoordinator.{simulate, int_to_string}
use cadmia.RootCoordinator.Safe.{simulate-Spares}
use cadmia.Examples.Coordinators.{Value, Factory, any_value, child, due, span, pair, start, fire_a}

abbrev pub wired : Coordinator ℤ Value Factory (Simulator State ℤ)
wired = record {
  model = pair;
  engines = (codes "a", due (span (pos 2) (pos 2))) ∷ (codes "b", due (span (pos 2) (pos 6))) ∷ [];
  influenced_by = invert pair.influencers;
  t_last = span (pos 2) (pos 6);
  t_next = span (pos 2) (pos 2);
}

wired-IsBounded : IsBounded child wired
unfolding compute_t_last compute_t_next is_empty cadmia.Coordinator.State.all_t_last
    cadmia.Coordinator.State.active_t_next
wired-IsBounded = record { t_last_eq = refl; t_next_eq = refl }

wired-IsOrderly : IsOrderly (span (pos 2) (pos 2) ∷ span (pos 2) (pos 6) ∷ [])
wired-IsOrderly = record {
  proper = (refl, (refl, tt));
  opens = (λ h. absurd cc, (λ h. absurd cc, tt));
}

compute_branches-OnTime_example :
    All
      (Fires child pair.select (λ limit i. is_subset_of limit i ≡ true) wired.engines)
      (fire_a ∷ [])
unfolding compute_branches is_empty text_eq contains find cadmia.Coordinator.State.active_t_next
    cadmia.Interval.intersects cadmia.Interval.is_punctual cadmia.Interval.intersection
    cadmia.Interval.equals
compute_branches-OnTime_example =
    compute_branches-OnTime ℤ-IsOrdered child wired (fire_a ∷ []) wired-IsBounded wired-IsOrderly
      refl

compute_branches-ne-nil_example : compute_branches child wired.t_next wired ≢ ok []
unfolding is_empty cadmia.Interval.empty_interval cadmia.Coordinator.State.active_t_next
compute_branches-ne-nil_example =
    compute_branches-ne-nil ℤ-IsOrdered child wired refl wired-IsBounded (refl, (refl, tt)) refl

pub pair-IsValid : IsValid pair
unfolding validate text_eq contains find find_edge
pair-IsValid = (validate_iff pair).0 refl

abbrev pub AnyChild : Simulator State ℤ → Type 0
AnyChild = AnySimulator

pub child-IsSafe : IsSafe child AnyChild
child-IsSafe =
    simulator_engine-IsSafe accumulator any_value any_value int_to_string accumulator-IsSparing

apart : ¬ (codes "b" ≡ codes "a")
unfolding text_eq
apart e = let same : false ≡ true = (text_eq_iff (codes "b") (codes "a")).1 e in cc

pub wired-IsDistinct : IsDistinct (keys wired.engines)
wired-IsDistinct = ((λ l. elim l [ inl e ↦ apart e | inr m ↦ m ]), ((λ l. l), tt))

wired-IsWired : IsWired child wired
wired-IsWired = record {
  valid = pair-IsValid;
  distinct = wired-IsDistinct;
  covers = λ k. (λ l. l, λ l. l);
  influence_eq = refl;
}

pub pair-Total : Total pair
unfolding identity_translation
pair-Total = ((λ y h. cc), ((λ y h. cc), ((λ y h. cc), tt)))

fire_a-IsKnown : IsKnown child wired fire_a
fire_a-IsKnown = record { engine_known = inr (inl refl); defer_known = inl refl }

execute_branch-IsWired_example :
    Fine
      (λ r. AllGood AnyChild ((r.0).engines) × IsWired child r.0)
      (execute_branch child fire_a wired)
execute_branch-IsWired_example =
    execute_branch-IsWired child AnyChild child-IsSafe wired fire_a wired-IsWired pair-Total
      fire_a-IsKnown (tt, (tt, tt))

abbrev begun : Coordinator ℤ Value Factory (Simulator State ℤ)
begun = record {
  model = pair;
  engines = (codes "a", due (span (pos 1) (pos 4))) ∷ (codes "b", due (span (pos 1) (pos 4))) ∷ [];
  influenced_by = invert pair.influencers;
  t_last = span (pos 1) (pos 4);
  t_next = span (pos 1) (pos 4);
}

init-IsWired_example : IsWired child begun
unfolding init text_eq assign is_empty new_coordinator compute_t_last compute_t_next
init-IsWired_example = init-IsWired child start (span (pos 1) (pos 4)) pair begun pair-IsValid refl

pub select_first-Answers : Answers pair.select
unfolding contains text_eq
select_first-Answers n ns = ground (arith, text_eq_refl n)

pub pair-IsSound : IsSound child AnyChild start (span (pos 0) (pos 1)) pair
pair-IsSound = record {
  valid = pair-IsValid;
  total = pair-Total;
  answers = select_first-Answers;
  starts = (Fine-ok AnyChild _ tt, (Fine-ok AnyChild _ tt, tt));
}

simulate-Spares_example :
    Spares (simulate child int_to_string start pair (span (pos 0) (pos 1)) (pos 10_000) (pos 1000))
simulate-Spares_example =
    simulate-Spares child AnyChild int_to_string (pos 10_000) (pos 1000) start pair
      (span (pos 0) (pos 1)) child-IsSafe (λ e. refl) pair-IsSound

-- Two engines that may begin at 5, one of them open there: no branch has a limit that holds 5.
abbrev level : Coordinator ℤ Value Factory (Simulator State ℤ)
level = record {
  model = pair;
  engines =
      (codes "a", due (interval (pos 5) (pos 6) false true))
      ∷ (codes "b", due (span (pos 5) (pos 9)))
      ∷ [];
  influenced_by = [];
  t_last = span (pos 6) (pos 9);
  t_next = span (pos 5) (pos 6);
}

abbrev after_five : Text → BranchAction ℤ
after_five name = record {
  engine_name = name;
  limit = interval (pos 5) (pos 6) false true;
  defer_engine = [];
}

level_branches :
    compute_branches child (span (pos 5) (pos 6)) level
    ≡ ok (after_five (codes "a") ∷ after_five (codes "b") ∷ after_five [] ∷ [])
unfolding compute_branches is_empty cadmia.Interval.intersects cadmia.Interval.is_punctual
    cadmia.Interval.intersection cadmia.Interval.equals
level_branches = refl
