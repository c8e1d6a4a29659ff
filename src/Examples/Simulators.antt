-- ===== src/Examples/Simulators.antt =====
-- Runs of include/cadmia/engine/simulator.hpp, with the accumulator as the model.
use cadmia.Prelude.{◌≡◌, refl, true, not, ◌&&◌, ◌||◌, some, is_ok, ◌>>=◌}
use cadmia.Prelude.Int.{ℤ, pos, ◌+ℤ◌, ◌-ℤ◌}
use cadmia.Scalar.Instances.{int_scalar, int_arith, int_exact, ℤ-IsOrdered, ℤ-RoundsOutward}
use cadmia.Interval.{
  Interval, interval, empty_interval, closed, is_empty, is_subset_of, intersects, add,
}
use cadmia.Interval.Membership.{has}
use cadmia.Interval.Rounding.{encloses}
use cadmia.Interval.Beyond.{beyond}
use cadmia.AtomicModel.{AtomicModel}
use cadmia.Models.Accumulator.{
  State, accumulator, internal_transition, external_transition, output_function, time_advance,
}
use cadmia.Models.Accumulator
use cadmia.Models.Counter.{passive, output}
use cadmia.Simulator.{Simulator, star, schedule, advance, local_elapsed}
use cadmia.Simulator.Schedule.{IsScheduled, Fired, star_lem, star_returns_iff}
use cadmia.Simulator.Limit.{has-advance}
use cadmia.Simulator.Elapsed.{local_elapsed_sound}

abbrev model : AtomicModel State ℤ ℤ ℤ
model = accumulator

abbrev total : ℤ → Interval State
total n = interval (Accumulator.state passive n) (Accumulator.state passive n) true true

abbrev pending : ℤ → Interval State
pending n = interval (Accumulator.state output n) (Accumulator.state output n) true true

abbrev zero_time : Interval ℤ
zero_time = interval (pos 0) (pos 0) true true

-- The event may happen from 3 on and up to 5.
abbrev due : Simulator State ℤ
due = record {
  state = pending (pos 7);
  t_last = interval (pos 3) (pos 5) true true;
  t_next = interval (pos 3) (pos 5) true true;
}

abbrev at_four : Interval ℤ
at_four = interval (pos 4) (pos 4) true true

abbrev fired : Simulator State ℤ
fired = record { state = total (pos 7); t_last = at_four; t_next = empty_interval }

star_lem_example : Fired model at_four due fired (some (interval (pos 7) (pos 7) true true))
unfolding star is_subset_of is_empty output_function internal_transition time_advance closed
    empty_interval add schedule
star_lem_example = star_lem model at_four due fired (some (interval (pos 7) (pos 7) true true)) refl

star_returns_iff_example : is_ok (star model at_four due) ≡ (
    is_subset_of at_four due.t_next
    && is_ok (model.output due.state)
    && is_ok (model.internal_transition due.state >>= model.time_advance))
star_returns_iff_example = star_returns_iff model at_four due

abbrev received : Simulator State ℤ
received = record { state = pending (pos 9); t_last = at_four; t_next = at_four }

received-IsScheduled : IsScheduled model received
unfolding time_advance is_empty closed add ◌+ℤ◌
received-IsScheduled = record { advance = zero_time; advance_eq = refl; t_next_eq = refl }

has-advance_example :
    has (advance at_four due).t_next (pos 5)
    ≡ (has due.t_next (pos 5) && (not (intersects due.t_next at_four) || beyond at_four (pos 5)))
has-advance_example = has-advance ℤ-IsOrdered at_four due (pos 5)

local_elapsed_sound_example : encloses (local_elapsed at_four due.t_last) (pos 4 -ℤ pos 3) ≡ true
unfolding ◌-ℤ◌
local_elapsed_sound_example =
    local_elapsed_sound ℤ-RoundsOutward at_four due.t_last (pos 4) (pos 3) refl refl refl refl
