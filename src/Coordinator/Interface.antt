-- ===== src/Coordinator/Interface.antt =====
-- The virtual interface of `coordinator<T>`, over that of its children.
use cadmia.Prelude.{
  Bool, true, false, not, ◌||◌, if◌then◌else◌, List, [], ◌∷◌, Option, none, Text, Result, ok, ◌>>=◌,
  is_nil, length, ◌==◌, map_ok,
}
use cadmia.Scalar.{Scalar}
use cadmia.Interval.{Interval, equals}
use cadmia.Engine.{IadevsEngine}
use cadmia.Coordinator.State.{Coordinator, with_engines, bound_ts, new_coordinator}
use cadmia.Coordinator.Branching.{BranchAction, compute_branches}
use cadmia.Coordinator.Routing.{
  Outcome, execute_branch, x_function, advance_all, clone_all, all_equal,
}

-- The first action that is not a skip, or else the first one.
abbrev pub chosen_action {ℓ} :
    {T : Type ℓ} → BranchAction T → List (BranchAction T) → BranchAction T
chosen_action first [] = first
chosen_action first (a ∷ actions) =
    if not (is_nil a.engine_name) then a else chosen_action first actions

module _ {ℓ} {T V C E : Type ℓ} ⦃s : Scalar T⦄ (child : IadevsEngine T V E) where
  unfoldable pub as_star :
      Coordinator T V C E × Outcome V → Coordinator T V C E × Option Text × Option V
  as_star (c, outcome) = (c, outcome.text, outcome.eoc_output)

  unfoldable pub star_of :
      Coordinator T V C E
      → List (BranchAction T)
      → Result (Coordinator T V C E × Option Text × Option V)
  unfolding execute_branch as_star
  star_of c [] = ok (c, none, none)
  star_of c (first ∷ rest) =
      map_ok as_star (execute_branch child (chosen_action first (first ∷ rest)) c)

  unfoldable pub engine_star :
      Interval T → Coordinator T V C E → Result (Coordinator T V C E × Option Text × Option V)
  unfolding star_of compute_branches
  engine_star t c = do actions ← compute_branches child t c; star_of c actions

  unfoldable pub advance_t_next_past_limit : Interval T → Coordinator T V C E → Coordinator T V C E
  unfolding advance_all bound_ts
  advance_t_next_past_limit limit c =
      bound_ts child (with_engines c (advance_all child limit c.engines))

  -- A new coordinator over the same model, with its other fields copied.
  unfoldable pub clone : Coordinator T V C E → Coordinator T V C E
  unfolding new_coordinator clone_all
  clone c = record (new_coordinator c.model) {
    engines = clone_all child c.engines;
    influenced_by = c.influenced_by;
    t_last = c.t_last;
    t_next = c.t_next;
  }

  -- Once the `dynamic_cast` to `coordinator<T>` succeeded.
  unfoldable pub engine_equals : Coordinator T V C E → Coordinator T V C E → Bool
  unfolding all_equal
  engine_equals a b =
      if not (length a.engines == length b.engines)
      then false
      else if not (equals a.t_next b.t_next) || not (equals a.t_last b.t_last)
      then false
      else all_equal child a.engines b.engines

  abbrev pub coordinator_engine : IadevsEngine T V (Coordinator T V C E)
  coordinator_engine = record {
    t_next = λ c. c.t_next;
    t_last = λ c. c.t_last;
    engine_star = engine_star;
    engine_x = x_function child;
    advance_t_next_past_limit = advance_t_next_past_limit;
    clone = clone;
    engine_equals = engine_equals;
    is_coordinator = λ c. true;
  }
