-- ===== src/Models/Counter/Sound.antt =====
-- The counter beside an exact one on single states and counts.
use cadmia.Prelude.{◌≡◌, Bool, true, false, not, ◌&&◌, ◌||◌, some, ok, arith}
use cadmia.Prelude.Int.{ℤ, pos, ltb_ℤ}
use cadmia.Prelude.MachineInt.{int_max}
use cadmia.Scalar.{Scalar}
use cadmia.Scalar.Exact.{Exact}
use cadmia.Scalar.Instances.{equal_ℤ}
use cadmia.Interval.{Interval, interval, closed, right_open, is_empty}
use cadmia.Interval.Membership.{has}
use cadmia.Interval.Rounding.{encloses}
use cadmia.Simulator.Exactly.{ExactModel, IsSound}
use cadmia.Models.Accumulator.Sound.{delay}
use cadmia.Models.Counter.{
  event_eq, state_equal, max_state, Event, add, reset, State, state_scalar, event_scalar,
  external_transition, on_events, output_function, time_advance, counter,
}
use cadmia.Models.Counter.Crisp.{receive, emit}
use cadmia.Models.Counter.Covers.{
  covers, covers-has, has-covers, internal-covers, add-covers, reset-covers, uncertain-covers,
}

-- An interval of outputs that ends with INT_MAX has no upper bound either.
abbrev pub has_count : Interval ℤ → ℤ → Bool
has_count i n = not (ltb_ℤ n i.lower) && (equal_ℤ i.upper int_max || not (ltb_ℤ i.upper n))

abbrev pub allows : Interval Event → Event → Bool
allows x e = event_eq x.lower e || event_eq x.upper e

abbrev pub exact_counter : {R : Type 0} → R → ExactModel State Event ℤ State R Event ℤ
exact_counter now = record {
  internal = emit;
  external = λ s r e. receive s e;
  emit = λ s. s.count;
  wait = λ s. delay now s.phase;
  has_state = covers;
  has_input = allows;
  has_output = has_count;
}

output-has_count :
    (i : Interval State) (y : Interval ℤ) (q : State)
    → output_function i ≡ ok y
    → covers i q ≡ true
    → has_count y q.count ≡ true
unfolding output_function closed
output-has_count i y q h c = ground arith

events-covers :
    (i j : Interval State) (low high : Event) (q : State) (e : Event)
    → on_events low high i ≡ ok j
    → (event_eq low e || event_eq high e) ≡ true
    → covers i q ≡ true
    → covers j (receive q e) ≡ true
unfolding on_events
events-covers i j add reset q e h a c = uncertain-covers i j q e h c
events-covers i j reset add q e h a c = absurd cc
events-covers i j add add q add h a c = add-covers i j q h c
events-covers i j add add q reset h a c = absurd cc
events-covers i j reset reset q add h a c = absurd cc
events-covers i j reset reset q reset h a c = reset-covers i j q h c

external-covers {ℓ} :
    {T : Type ℓ} (i j : Interval State) (elapsed : Interval T) (x : Interval Event) (q : State)
    (e : Event)
    → external_transition i elapsed x ≡ ok j
    → allows x e ≡ true
    → covers i q ≡ true
    → covers j (receive q e) ≡ true
unfolding external_transition
external-covers i j elapsed x q e h a c = events-covers i j x.lower x.upper q e (ground arith) a c

module _ {T : Type 0} {R : Type 0} ⦃s : Scalar T⦄ ⦃e : Exact T R⦄ where
  advance_case :
      (now : R)
      → encloses (interval s.default_value s.default_value true true) now ≡ true
      → encloses (interval s.default_value s.infinity true false) now ≡ true
      → (i : Interval State) (ta : Interval T) (q : State) (r : R) → time_advance i ≡ ok ta
      → covers i q ≡ true
      → delay now q.phase ≡ some r
      → encloses ta r ≡ true
  unfolding time_advance closed right_open is_empty
  advance_case now at_zero from_zero i ta q r h c w = ground arith

  -- Read an interval of states as those whose phase and whose count both lie between the endpoints', with no
  -- upper bound on the count where the sentinel or, of outputs, INT_MAX is the upper end. By `operator<=>`
  -- an interval without the sentinel holds all of these, and, where both ends have one phase and belong to
  -- it, no others with a count that is not negative; between two phases it holds more, of which nothing
  -- is said. Then, where the exact time `now` lies in [0, 0] and in [0, inf), the four functions, where
  -- they return, lose no exact state whose count is not negative, no output and no wait, with `now` as
  -- the wait before an output.
  pub counter-IsSound :
      (now : R)
      → encloses (interval s.default_value s.default_value true true) now ≡ true
      → encloses (interval s.default_value s.infinity true false) now ≡ true
      → IsSound {T = T} counter (exact_counter now)
        × ((i : Interval State) (q : State)
            → state_equal i.upper max_state ≡ false
            → covers i q ≡ true
            → has i q ≡ true)
        × ((i : Interval State) (q : State)
            → i.lower.phase ≡ i.upper.phase
            → i.lower_closed ≡ true
            → i.upper_closed ≡ true
            → ltb_ℤ q.count (pos 0) ≡ false
            → has i q ≡ true
            → covers i q ≡ true)
  counter-IsSound now at_zero from_zero = (
    record {
      internal_sound = λ i j q h c. internal-covers i j q h c;
      external_sound =
          λ i j elapsed input q r a h c within held. external-covers i j elapsed input q a h held c;
      output_sound = λ i y q h c. output-has_count i y q h c;
      advance_sound = λ i ta q r h c w. advance_case now at_zero from_zero i ta q r h c w;
    },
    covers-has,
    has-covers,
  )
