-- ===== src/Simulator.antt =====
-- include/cadmia/engine/simulator.hpp: `simulator<M>`, Algorithm 1.
pub mod Schedule
pub mod Limit
pub mod Elapsed
pub mod Exactly
pub mod Tracks
pub mod Safe
use cadmia.Prelude.{
  Bool, true, false, not, ◌&&◌, ◌||◌, if◌then◌else◌, Option, some, none, Text, codes, Result, ok,
  err, ◌>>=◌, ◌>>◌, throw_if, logic_error,
}
use cadmia.Scalar.{Scalar, Arith, to_nearest}
use cadmia.Interval.{
  Interval, empty_interval, is_empty, is_subset_of, intersects, is_punctual, equals, add, subtract,
  print,
}
use cadmia.AtomicModel.{AtomicModel}
use cadmia.Engine.{Castable, any_cast, IadevsEngine}

pub record Simulator {ℓ} (S T : Type ℓ) : Type ℓ where
  pub state : Interval S
  pub t_last : Interval T
  pub t_next : Interval T

module _ {ℓ} {S T : Type ℓ} ⦃s : Scalar T⦄ where
  -- `advance_t_next_past_limit`.
  unfoldable pub advance : Interval T → Simulator S T → Simulator S T
  advance limit sim =
      if is_empty sim.t_next || not (intersects sim.t_next limit)
      then sim
      else if is_punctual limit
      then record sim { t_next = record (sim.t_next) { lower = limit.lower; lower_closed = false } }
      else record sim {
        t_next = record (sim.t_next) { lower = limit.upper; lower_closed = not limit.upper_closed };
      }

module _ {ℓ} {S T : Type ℓ} ⦃ss : Scalar S⦄ ⦃s : Scalar T⦄ where
  -- `simulator()`: `interval{}` three times.
  unfoldable pub initial_simulator : Simulator S T
  initial_simulator = record {
    state = empty_interval;
    t_last = empty_interval;
    t_next = empty_interval;
  }

  -- `engine_equals`, once the `dynamic_cast` to `simulator<M>` succeeded.
  unfoldable pub simulator_equals : Simulator S T → Simulator S T → Bool
  simulator_equals a b =
      equals a.state b.state && equals a.t_last b.t_last && equals a.t_next b.t_next

module _ {ℓ} {T : Type ℓ} ⦃s : Scalar T⦄ ⦃m : Arith T⦄ where
  -- `t_local`; these two subtractions are not rounded outward.
  unfoldable pub local_elapsed : Interval T → Interval T → Interval T
  local_elapsed t t_last = record {
    lower =
        if intersects t t_last then s.default_value else m.minus to_nearest t.lower t_last.upper;
    upper = m.minus to_nearest t.upper t_last.lower;
    lower_closed = if intersects t t_last then true else t.lower_closed && t_last.upper_closed;
    upper_closed = t.upper_closed && t_last.lower_closed;
  }

module _ {ℓ} {S T X Y : Type ℓ} ⦃s : Scalar T⦄ ⦃m : Arith T⦄ (model : AtomicModel S T X Y) where
  -- `t_last_ = t; t_next_ = t_last_ + M::time_advance(state_)`, which ends all three functions.
  unfoldable pub schedule : Interval S → Interval T → Result (Simulator S T)
  schedule state t = do
    ta ← model.time_advance state
    ok (record { state = state; t_last = t; t_next = add t ta })

  unfoldable pub init : Interval S → Interval T → Interval T → Result (Simulator S T)
  unfolding schedule
  init q_state q_time t = schedule q_state (subtract t q_time)

  unfoldable pub star : Interval T → Simulator S T → Result (Simulator S T × Option (Interval Y))
  unfolding schedule
  star t sim = do
    throw_if (not (is_subset_of t sim.t_next))
        (logic_error (codes "star: time t is not a subset of t_next"))
    y ← model.output sim.state
    state ← model.internal_transition sim.state
    next ← schedule state t
    ok (next, some y)

  -- The x-function.
  unfoldable pub x : Interval X → Interval T → Simulator S T → Result (Simulator S T)
  unfolding schedule local_elapsed
  x value t sim = do
    state ← model.external_transition sim.state (local_elapsed t sim.t_last) value
    schedule state t

-- The type-erased interface, for a `std::any` type `V` that holds inputs and outputs, and
-- `operator<<` of the output type.
module _ {ℓ} {S T X Y V : Type ℓ} ⦃ss : Scalar S⦄ ⦃s : Scalar T⦄ ⦃ys : Scalar Y⦄ ⦃m : Arith T⦄
    (model : AtomicModel S T X Y) (input : Castable V (Interval X))
    (output : Castable V (Interval Y)) (show : Y → Text) where
  format : Simulator S T × Option (Interval Y) → Simulator S T × Option Text × Option V
  format (sim, none) = (sim, none, none)
  format (sim, some y) = (sim, some (print show y), some (output.wrap y))

  unfoldable pub engine_star :
      Interval T → Simulator S T → Result (Simulator S T × Option Text × Option V)
  unfolding format
  engine_star t sim = do result ← star model t sim; ok (format result)

  unfoldable pub engine_x : V → Interval T → Simulator S T → Result (Simulator S T)
  engine_x value t sim = do typed ← any_cast input value; x model typed t sim

  abbrev pub simulator_engine : IadevsEngine T V (Simulator S T)
  simulator_engine = record {
    t_next = λ sim. sim.t_next;
    t_last = λ sim. sim.t_last;
    engine_star = engine_star;
    engine_x = engine_x;
    advance_t_next_past_limit = advance;
    clone = λ sim. sim;
    engine_equals = simulator_equals;
    is_coordinator = λ sim. false;
  }
