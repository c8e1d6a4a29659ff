-- ===== src/Models/Generator/Sparing.antt =====
-- The exceptions of the generator.
use cadmia.Prelude.{arith}
use cadmia.Scalar.{Scalar, Arith}
use cadmia.Interval.{Interval, closed}
use cadmia.Coordinator.Wired.Fine.{Spares}
use cadmia.Simulator.Safe.{IsSparing}
use cadmia.Models.Literals.{Literals}
use cadmia.Models.Generator.{
  validate_state_interval, internal_transition, external_transition, output, time_advance,
  generator,
}

module _ {ℓ} {T : Type ℓ} ⦃s : Scalar T⦄ ⦃m : Arith T⦄ (lit : Literals T) where
  internal-Spares : (i : Interval T) → Spares (internal_transition lit i)
  unfolding internal_transition validate_state_interval closed
  internal-Spares i h = absurd (ground arith)

  external-Spares : (i elapsed x : Interval T) → Spares (external_transition lit i elapsed x)
  unfolding external_transition validate_state_interval
  external-Spares i elapsed x h = absurd (ground arith)

  time_advance-Spares : (i : Interval T) → Spares (time_advance lit i)
  unfolding time_advance validate_state_interval closed
  time_advance-Spares i h = absurd (ground arith)

  output-Spares : (i : Interval T) → Spares (output lit i)
  unfolding output closed
  output-Spares i h = absurd (ground arith)

  pub generator-IsSparing : IsSparing (generator lit)
  generator-IsSparing = record {
    internal_spares = internal-Spares;
    external_spares = external-Spares;
    output_spares = output-Spares;
    time_advance_spares = time_advance-Spares;
  }
