-- ===== src/Models/Accumulator/Sparing.antt =====
-- The exceptions of the accumulator.
use cadmia.Prelude.{arith}
use cadmia.Prelude.Int.{ℤ}
use cadmia.Prelude.MachineInt.{int_add}
use cadmia.Scalar.{Scalar}
use cadmia.Interval.{Interval, closed, right_open}
use cadmia.Coordinator.Wired.Fine.{Spares}
use cadmia.Simulator.Safe.{IsSparing}
use cadmia.Models.Accumulator.{
  State, state_scalar, accumulator, internal_transition, external_transition, output_function,
  time_advance,
}

internal-Spares : (s : Interval State) → Spares (internal_transition s)
unfolding internal_transition closed
internal-Spares s h = absurd (ground arith)

output-Spares : (s : Interval State) → Spares (output_function s)
unfolding output_function closed
output-Spares s h = absurd (ground arith)

external-Spares {ℓ} :
    {T : Type ℓ} (s : Interval State) (elapsed : Interval T) (x : Interval ℤ)
    → Spares (external_transition s elapsed x)
unfolding external_transition int_add closed
external-Spares s elapsed x h = absurd (ground arith)

time_advance-Spares {ℓ} :
    {T : Type ℓ} ⦃s : Scalar T⦄ (i : Interval State) → Spares (time_advance {T = T} i)
unfolding time_advance closed right_open
time_advance-Spares i h = absurd (ground arith)

pub accumulator-IsSparing : {T : Type 0} ⦃s : Scalar T⦄ → IsSparing (accumulator {T = T})
accumulator-IsSparing = record {
  internal_spares = internal-Spares;
  external_spares = λ s elapsed x. external-Spares s elapsed x;
  output_spares = output-Spares;
  time_advance_spares = λ s. time_advance-Spares s;
}
