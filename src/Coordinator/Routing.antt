-- ===== src/Coordinator/Routing.antt =====
-- `execute_branch`, `route`, `x_function`, and the virtual interface of the coordinator.
use cadmia.Prelude.{
  Bool, true, false, not, ◌&&◌, if◌then◌else◌, List, [], ◌∷◌, Option, none, some, Text, text_eq,
  contains, Result, ok, ◌>>=◌, is_nil, map_ok,
}
use cadmia.Prelude.Maps.{find, assign, map_at}
use cadmia.Scalar.{Scalar}
use cadmia.Interval.{Interval}
use cadmia.Engine.{IadevsEngine, Translation}
use cadmia.CoupledModel.{CoupledModel, self, translation}
use cadmia.Coordinator.State.{with_engines, Coordinator, targets, bound_ts}
use cadmia.Coordinator.Branching.{BranchAction}

-- The tuple that `execute_branch` returns.
pub record Outcome {ℓ} (V : Type ℓ) : Type ℓ where
  pub text : Option Text
  pub component_output : Option V
  pub eoc_output : Option V

abbrev pub silent {ℓ} : {V : Type ℓ} → Outcome V
silent = record { text = none; component_output = none; eoc_output = none }

module _ {ℓ} {T V E : Type ℓ} (child : IadevsEngine T V E) where
  -- `engines_.at(dest)->engine_x(z(y), t)`.
  unfoldable pub deliver :
      Interval T → V → Translation V → Text → List (Text × E) → Result (List (Text × E))
  deliver t y z dest engines = do
    e ← map_at dest engines
    input ← z y
    e' ← child.engine_x input t e
    ok (assign dest e' engines)

  -- `advance_t_next_past_limit` on every child.
  unfoldable pub advance_all : Interval T → List (Text × E) → List (Text × E)
  advance_all limit [] = []
  advance_all limit ((name, e) ∷ engines) =
      (name, child.advance_t_next_past_limit limit e) ∷ advance_all limit engines

  unfoldable pub clone_all : List (Text × E) → List (Text × E)
  clone_all [] = []
  clone_all ((name, e) ∷ engines) = (name, child.clone e) ∷ clone_all engines

  abbrev pub equals_found : E → Option E → Bool
  equals_found e none = false
  equals_found e (some e') = child.engine_equals e e'

  -- The loop of `engine_equals`.
  unfoldable pub all_equal : List (Text × E) → List (Text × E) → Bool
  all_equal [] others = true
  all_equal ((name, e) ∷ engines) others =
      equals_found e (find name others) && all_equal engines others

module _ {ℓ} {T V C E : Type ℓ} (child : IadevsEngine T V E) (model : CoupledModel T V C) where
  -- The loop of `route` over the influenced engines.
  unfoldable pub deliver_all :
      Interval T → V → Text → List Text → List (Text × E) → Result (List (Text × E))
  unfolding deliver
  deliver_all t y src [] engines = ok engines
  deliver_all t y src (dest ∷ dests) engines = do
    z ← translation model src dest
    engines' ← deliver child t y z dest engines
    deliver_all t y src dests engines'

  -- One round of the loop of `x_function`: an input reaches the engines that "self" influences.
  unfoldable pub receive :
      V → Interval T → Text → List Text → List (Text × E) → Result (List (Text × E))
  unfolding deliver
  receive x t dest sources engines =
      if contains self sources && not (text_eq dest self)
      then (translation model self dest >>= λ z. deliver child t x z dest engines)
      else ok engines

  unfoldable pub receive_all :
      V → Interval T → List (Text × List Text) → List (Text × E) → Result (List (Text × E))
  unfolding receive
  receive_all x t [] engines = ok engines
  receive_all x t ((dest, sources) ∷ entries) engines = do
    engines' ← receive x t dest sources engines
    receive_all x t entries engines'

  -- The external output: through the translation to "self", if "self" lists the engine.
  unfoldable pub external_output : Text → V → Result (Option V)
  external_output name y =
      if contains name (targets self model.influencers)
      then (translation model name self >>= λ z. map_ok some (z y))
      else ok none

module _ {ℓ} {T V C E : Type ℓ} ⦃s : Scalar T⦄ (child : IadevsEngine T V E) where
  -- What `route` does with the output of the engine that fired.
  unfoldable pub pass_on :
      Text
      → Interval T
      → Coordinator T V C E
      → Option Text × Option V
      → Result (Coordinator T V C E × Outcome V)
  unfolding deliver_all external_output
  pass_on name t c (text, none) = ok (c, silent)
  pass_on name t c (text, some y) = do
    engines ← deliver_all child c.model t y name (targets name c.influenced_by) c.engines
    eoc ← external_output child c.model name y
    ok (with_engines c engines, record { text = text; component_output = some y; eoc_output = eoc })

  unfoldable pub route :
      Text → Interval T → Coordinator T V C E → Result (Coordinator T V C E × Outcome V)
  unfolding pass_on
  route name t c = do
    e ← map_at name c.engines
    star ← child.engine_star t e
    pass_on name t (with_engines c (assign name star.0 c.engines)) (star.1, star.2)

  unfoldable pub settle : Coordinator T V C E × Outcome V → Coordinator T V C E × Outcome V
  unfolding bound_ts
  settle (c, outcome) = (bound_ts child c, outcome)

  -- The chosen engine is moved past the limit before the next candidate fires.
  unfoldable pub defer_and_route :
      BranchAction T → Coordinator T V C E → Result (Coordinator T V C E × Outcome V)
  unfolding route settle
  defer_and_route action c = do
    e ← map_at action.defer_engine c.engines
    let deferred = child.advance_t_next_past_limit action.limit e
    result ←
        route action.engine_name action.limit
          (with_engines c (assign action.defer_engine deferred c.engines))
    ok (settle result)

  unfoldable pub execute_branch :
      BranchAction T → Coordinator T V C E → Result (Coordinator T V C E × Outcome V)
  unfolding route settle advance_all defer_and_route
  execute_branch action c =
      if not (is_nil action.defer_engine)
      then defer_and_route action c
      else if is_nil action.engine_name
      then ok (settle (with_engines c (advance_all child action.limit c.engines), silent))
      else map_ok settle (route action.engine_name action.limit c)

  unfoldable pub x_function : V → Interval T → Coordinator T V C E → Result (Coordinator T V C E)
  unfolding receive_all bound_ts
  x_function x t c = do
    engines ← receive_all child c.model x t c.model.influencers c.engines
    ok (bound_ts child (with_engines c engines))
