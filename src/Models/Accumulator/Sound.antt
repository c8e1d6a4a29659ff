-- ===== src/Models/Accumulator/Sound.antt =====
-- The accumulator beside an exact one on single states and totals.
use cadmia.Prelude.{◌≡◌, refl, on_ok, Bool, true, false, not, ◌&&◌, Option, none, some, ok, arith}
use cadmia.Prelude.Int.{ℤ, ltb_ℤ}
use cadmia.Prelude.MachineInt.{int_add}
use cadmia.Scalar.{Scalar}
use cadmia.Scalar.Exact.{Exact}
use cadmia.Interval.{Interval, interval, closed, right_open, is_empty}
use cadmia.Interval.Membership.{has}
use cadmia.Interval.Rounding.{encloses}
use cadmia.Simulator.Exactly.{ExactModel, IsSound}
use cadmia.Models.Counter.{Phase, passive, output, phase_less}
use cadmia.Models.Accumulator.{
  State, state_scalar, internal_transition, external_transition, output_function, time_advance,
  accumulator,
}
use cadmia.Models.Accumulator.Crisp.{
  Covers, receive, emit, closed-bounds, internal_transition-Total, external_transition-Sum,
}

abbrev pub has_total : Interval ℤ → ℤ → Bool
has_total i n = not (ltb_ℤ n i.lower) && not (ltb_ℤ i.upper n)

-- A closed interval of states covers `s` when the phase of `s` lies between those of the endpoints, and its
-- total between theirs. `operator<=>` compares the totals only within one phase, and so an interval
-- with a passive and an output end has more states by it.
abbrev pub covers : Interval State → State → Bool
covers i s =
    i.lower_closed
    && i.upper_closed
    && not (phase_less s.phase i.lower.phase)
    && not (phase_less i.upper.phase s.phase)
    && not (ltb_ℤ s.total i.lower.total)
    && not (ltb_ℤ i.upper.total s.total)

-- An infinite wait while passive, and none before an output.
abbrev pub delay : {R : Type 0} → R → Phase → Option R
delay none_left passive = none
delay none_left output = some none_left

abbrev pub exact_accumulator : {R : Type 0} → R → ExactModel State ℤ ℤ State R ℤ ℤ
exact_accumulator now = record {
  internal = emit;
  external = λ s r n. receive s n;
  emit = λ s. s.total;
  wait = λ s. delay now s.phase;
  has_state = covers;
  has_input = has_total;
  has_output = has_total;
}

Covers-of : (i : Interval State) (s : State) → covers i s ≡ true → Covers i s
Covers-of i s h = record {
  phase_low = ground arith;
  phase_high = ground arith;
  total_low = ground arith;
  total_high = ground arith;
}

covers-of :
    (i : Interval State) (s : State)
    → i.lower_closed ≡ true
    → i.upper_closed ≡ true
    → Covers i s
    → covers i s ≡ true
covers-of i s p q c = ground arith

covers-has : (i : Interval State) (q : State) → covers i q ≡ true → has i q ≡ true
covers-has i q h = ground arith

has-covers :
    (i : Interval State) (q : State)
    → i.lower.phase ≡ i.upper.phase
    → i.lower_closed ≡ true
    → i.upper_closed ≡ true
    → has i q ≡ true
    → covers i q ≡ true
has-covers i q e c d h = ground arith

internal-closed :
    (i j : Interval State)
    → internal_transition i ≡ ok j
    → (j.lower_closed ≡ true) × (j.upper_closed ≡ true)
unfolding internal_transition
internal-closed i j h = rw (closed-bounds _ _ h) (refl, refl)

external-closed :
    {T : Type 0}
    → (i j : Interval State) (elapsed : Interval T) (x : Interval ℤ)
    → external_transition i elapsed x ≡ ok j
    → (j.lower_closed ≡ true) × (j.upper_closed ≡ true)
unfolding external_transition
external-closed i j elapsed x h = on_ok (int_add i.lower.total x.lower) _ h λ low e₁ h₁.
    on_ok (int_add i.upper.total x.upper) _ h₁ λ high e₂ h₂. rw (closed-bounds _ _ h₂) (refl, refl)

output-has_total :
    (i : Interval State) (y : Interval ℤ) (s : State)
    → output_function i ≡ ok y
    → covers i s ≡ true
    → has_total y s.total ≡ true
unfolding output_function closed
output-has_total i y s h c = ground arith

module _ {T : Type 0} {R : Type 0} ⦃s : Scalar T⦄ ⦃e : Exact T R⦄ where
  advance_case :
      (now : R)
      → encloses (interval s.default_value s.default_value true true) now ≡ true
      → encloses (interval s.default_value s.infinity true false) now ≡ true
      → (i : Interval State) (ta : Interval T) (q : State) (r : R) → time_advance i ≡ ok ta
      → covers i q ≡ true
      → delay now q.phase ≡ some r
      → encloses ta r ≡ true
  unfolding time_advance closed right_open is_empty
  advance_case now at_zero from_zero i ta q r h c w = ground arith

  -- Read an interval of states as those whose phase and whose total both lie between the endpoints'. By
  -- `operator<=>` an interval holds all of these, and, where both ends have one phase and belong to it, no
  -- others; between two phases it holds more, of which nothing is said. Then, where the exact time
  -- `now` lies in [0, 0] and in [0, inf), the four functions, where they return, lose no exact state,
  -- output or wait, with `now` as the wait before an output.
  pub accumulator-IsSound :
      (now : R)
      → encloses (interval s.default_value s.default_value true true) now ≡ true
      → encloses (interval s.default_value s.infinity true false) now ≡ true
      → IsSound {T = T} accumulator (exact_accumulator now)
        × ((i : Interval State) (q : State) → covers i q ≡ true → has i q ≡ true)
        × ((i : Interval State) (q : State)
            → i.lower.phase ≡ i.upper.phase
            → i.lower_closed ≡ true
            → i.upper_closed ≡ true
            → has i q ≡ true
            → covers i q ≡ true)
  unfolding internal_transition time_advance closed right_open is_empty
  accumulator-IsSound now at_zero from_zero = (
    record {
      internal_sound = λ i j q h c.
          let (low, high) = internal-closed i j h in
          covers-of j (emit q) low high (internal_transition-Total i j q (Covers-of i q c) h);
      external_sound = λ i j elapsed input q r a h c within held.
          let (low, high) = external-closed i j elapsed input h in
          covers-of j (receive q a) low high (
            external_transition-Sum i j elapsed input q a (Covers-of i q c) (ground arith)
              (ground arith) h);
      output_sound = λ i y q h c. output-has_total i y q h c;
      advance_sound = λ i ta q r h c w. advance_case now at_zero from_zero i ta q r h c w;
    },
    covers-has,
    has-covers,
  )
