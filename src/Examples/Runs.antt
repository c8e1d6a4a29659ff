-- ===== src/Examples/Runs.antt =====
-- The models of include/cadmia/basic_model/iadevs beside exact ones, and a whole run of
-- include/cadmia/engine/simulator.hpp with the accumulator, on times that have an infinity.
use mathlib.Core.Option.{some-injective}
use cadmia.Prelude.{subst, ◌≡◌, refl, true, false, none, some, List, [], ◌∷◌}
use cadmia.Prelude.Int.{ℤ, pos, ltb_ℤ, ◌+ℤ◌, ◌-ℤ◌}
use cadmia.Prelude.MachineInt.{int_add}
use cadmia.Scalar.Instances.{
  Extended, fin, extended_scalar, extended_arith, extended_exact, int_scalar,
  Extended-RoundsOutward, Extended-IsOrdered,
}
use cadmia.Interval.{Interval, interval, empty_interval, closed, is_empty, is_subset_of, add}
use cadmia.Interval.Membership.{has}
use cadmia.Interval.Rounding.{encloses}
use cadmia.Simulator.{Simulator, init, star, x}
use cadmia.Simulator.Exactly.{
  Event, fire, arrive, defer, deferred, exact_beyond, operate, drive, Run, stay, fired, arrived,
  IsSound,
}
use cadmia.Simulator.Tracks.{Holds, operate_refines}
use cadmia.Models.Counter
use cadmia.Models.Accumulator
use cadmia.Models.Counter.{passive, counter}
use cadmia.Models.Counter.Sound.{exact_counter, counter-IsSound}
use cadmia.Models.Accumulator.{
  State, state, accumulator, internal_transition, external_transition, output_function,
  time_advance,
}
use cadmia.Models.Accumulator.Sound.{exact_accumulator, accumulator-IsSound, covers, has_total}

abbrev at : ℤ → ℤ → Interval Extended
at a b = interval (fin a) (fin b) true true

-- The total is between 3 and 4, and the accumulator is passive.
abbrev before : Interval State
before = interval (state passive (pos 3)) (state passive (pos 4)) true true

-- An input between 2 and 5 at a time between 1 and 6, and the output that follows, but not before 2.
abbrev events : List (Event Extended ℤ)
events =
    arrive (at (pos 1) (pos 6)) (interval (pos 2) (pos 5) true true)
    ∷ defer (at (pos 1) (pos 2))
    ∷ fire (at (pos 3) (pos 6))
    ∷ []

abbrev after : Simulator State Extended
after = record {
  state = interval (state passive (pos 5)) (state passive (pos 9)) true true;
  t_last = at (pos 3) (pos 6);
  t_next = empty_interval;
}

-- The exact run: a total of 4 receives 2 at time 3, and is output at time 3.
exact_run :
    Run
      (exact_accumulator (pos 0))
      events
      (state passive (pos 4))
      (pos 0)
      (state passive (pos 6))
      (pos 3)
      (pos 6 ∷ [])
unfolding ◌+ℤ◌ ◌-ℤ◌ cadmia.Models.Accumulator.Crisp.emit cadmia.Models.Accumulator.Crisp.receive
exact_run = arrived {now = pos 3} {a = pos 2} refl refl refl (
    deferred
      (λ r w.
        subst (λ d. exact_beyond {T = Extended} (at (pos 1) (pos 2)) (pos 3 +ℤ d) ≡ true)
          (some-injective _ _ w) refl)
      (fired {r = pos 0} refl refl (stay _ _)))

sound : IsSound {T = Extended} accumulator (exact_accumulator (pos 0))
sound = (accumulator-IsSound {T = Extended} (pos 0) refl refl).0

operate_refines_example :
    (covers after.state (state passive (pos 6)) ≡ true)
    × (encloses after.t_last (pos 3) ≡ true)
    × ((r : ℤ) → none ≡ some r → encloses after.t_next (pos 3 +ℤ r) ≡ true)
    × Holds has_total (some (interval (pos 5) (pos 9) true true) ∷ []) (pos 6 ∷ [])
unfolding operate ◌+ℤ◌ ◌-ℤ◌ init time_advance is_empty drive x external_transition int_add closed
    star is_subset_of add output_function internal_transition empty_interval
    cadmia.Simulator.advance cadmia.Interval.intersects cadmia.Interval.is_punctual
operate_refines_example =
    operate_refines Extended-IsOrdered Extended-RoundsOutward accumulator
      (exact_accumulator (pos 0)) sound before (at (pos 0) (pos 0)) (at (pos 0) (pos 0)) events
      after (some (interval (pos 5) (pos 9) true true) ∷ []) (state passive (pos 4))
      (state passive (pos 6)) (pos 0) (pos 0) (pos 3) (pos 6 ∷ []) refl refl refl refl exact_run
      refl

accumulator-IsSound_example :
    IsSound {T = Extended} accumulator (exact_accumulator (pos 0))
    × ((i : Interval State) (q : State)
        → covers i q ≡ true
        → has ⦃s = Accumulator.state_scalar⦄ i q ≡ true)
    × ((i : Interval State) (q : State)
        → i.lower.phase ≡ i.upper.phase
        → i.lower_closed ≡ true
        → i.upper_closed ≡ true
        → has ⦃s = Accumulator.state_scalar⦄ i q ≡ true
        → covers i q ≡ true)
accumulator-IsSound_example = accumulator-IsSound {T = Extended} (pos 0) refl refl

counter-IsSound_example :
    IsSound {T = Extended} counter (exact_counter (pos 0))
    × ((i : Interval Counter.State) (q : Counter.State)
        → Counter.state_equal i.upper Counter.max_state ≡ false
        → Counter.Covers.covers i q ≡ true
        → has ⦃s = Counter.state_scalar⦄ i q ≡ true)
    × ((i : Interval Counter.State) (q : Counter.State)
        → i.lower.phase ≡ i.upper.phase
        → i.lower_closed ≡ true
        → i.upper_closed ≡ true
        → ltb_ℤ q.count (pos 0) ≡ false
        → has ⦃s = Counter.state_scalar⦄ i q ≡ true
        → Counter.Covers.covers i q ≡ true)
counter-IsSound_example = counter-IsSound {T = Extended} (pos 0) refl refl
