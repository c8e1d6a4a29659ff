-- ===== src/CoupledGp/Runs.antt =====
-- The run of example/coupled_gp/main.cpp.
use cadmia.Prelude.{◌≡◌, ◌≢◌, refl, sym, subst, true, Text, ok, none, arith}
use cadmia.Prelude.Int.{ℤ, pos}
use cadmia.Scalar.{Scalar, Arith}
use cadmia.Scalar.Instances.{int_scalar}
use cadmia.Scalar.Laws.{IsOrdered}
use cadmia.Interval.{Interval, interval, closed}
use cadmia.Engine.{make_translation}
use cadmia.Component.{make_atomic_component, of_factory}
use cadmia.CoupledModel.{make_coupled_model}
use cadmia.Coordinator.Depth.{leaf, node, child_clone, engine_at, start_at}
use cadmia.Coordinator.Nested.{GoodChild, child_engine-IsSafe, SoundModel}
use cadmia.Coordinator.Wired.Fine.{Spares, Fine-map}
use cadmia.Coordinator.Wired.Spares.{IsSafe}
use cadmia.Simulator.Safe.{AnySimulator, init-Fine, simulator_engine-IsSafe}
use cadmia.Models.Accumulator.{state, state_scalar, accumulator}
use cadmia.Models.Accumulator.Sparing.{accumulator-IsSparing}
use cadmia.Models.Counter.{passive}
use cadmia.Models.Generator.{generator}
use cadmia.Models.Generator.Sparing.{generator-IsSparing}
use cadmia.Models.Literals.{Literals}
use cadmia.RootCoordinator.{simulate, int_to_string}
use cadmia.RootCoordinator.Nested.{nested-Spares}
use cadmia.RootCoordinator.Budget.{simulate-halts}
use cadmia.CoupledGp.{
  Payload, any_times, any_counts, gen_to_acc, Atom, atom, components, build, run,
}
use cadmia.CoupledGp.Fits.{program, program-Passes, program-IsValid, program-Answers}

module _ {T : Type 0} ⦃s : Scalar T⦄ ⦃m : Arith T⦄ (lit : Literals T) (to_int : T → ℤ)
    (show : T → Text) where
  abbrev AnyAtom : Atom lit to_int show → Type 0
  AnyAtom = GoodChild AnySimulator AnySimulator

  atom-IsSafe : IsSafe (atom lit to_int show) AnyAtom
  atom-IsSafe =
      child_engine-IsSafe _ _ AnySimulator AnySimulator
        (simulator_engine-IsSafe accumulator any_counts any_counts int_to_string
          accumulator-IsSparing)
        (simulator_engine-IsSafe (generator lit) any_times any_times show (generator-IsSparing lit))

  atom-copies : (a : Atom lit to_int show) → (atom lit to_int show).clone a ≡ a
  unfolding child_clone
  atom-copies (leaf a) = refl
  atom-copies (node c) = refl

  gen_to_acc-Spares : (y : Payload T) → Spares (gen_to_acc lit to_int show y)
  unfolding gen_to_acc make_translation closed
  gen_to_acc-Spares y h = absurd (ground arith)

  module _ (laws : IsOrdered T) where
    -- What the run needs of the model and its components.
    program-SoundModel :
        (zero_i t : Interval T)
        → SoundModel (atom lit to_int show) AnyAtom 1 t (program laws lit to_int show zero_i)
    program-SoundModel zero_i t = (
      program-IsValid laws lit to_int show zero_i,
      (gen_to_acc-Spares, tt),
      program-Answers laws lit to_int show zero_i,
      (
        Fine-map AnySimulator AnyAtom leaf _
            (init-Fine accumulator accumulator-IsSparing
              (interval (state passive (pos 0)) (state passive (pos 0)) true true) zero_i t)
            (λ a u. tt),
        (
          Fine-map AnySimulator AnyAtom node _
              (init-Fine (generator lit) (generator-IsSparing lit)
                (interval s.default_value s.default_value true true) zero_i t)
              (λ a u. tt),
          tt,
        ),
      ),
    )

    abbrev zero_i : Interval T
    zero_i = interval s.default_value s.default_value true true

    run_eq :
        run lit to_int show
        ≡ simulate
            (engine_at (atom lit to_int show) 1)
            show
            (start_at (atom lit to_int show) 1)
            (program laws lit to_int show zero_i)
            zero_i
            (pos 10)
            (pos 1000)
    unfolding run build components closed make_atomic_component of_factory make_coupled_model
    run_eq = rw (laws.irrefl s.default_value, program-Passes laws lit to_int show zero_i) refl

    -- Over a time type with a strict order, the run of the program ends, with the log or with an exception,
    -- and the exception is not `std::out_of_range`, whatever the literals and the conversion to `int`.
    pub run_ends : Spares (run lit to_int show) × (run lit to_int show ≢ ok none)
    run_ends =
        subst (λ m. Spares m × (m ≢ ok none)) (sym run_eq)
          (
            nested-Spares (atom lit to_int show) AnyAtom 1 show (pos 10) (pos 1000)
                (program laws lit to_int show zero_i) zero_i atom-IsSafe atom-copies
                (program-SoundModel zero_i zero_i),
            simulate-halts (engine_at (atom lit to_int show) 1) show (pos 10) (pos 1000)
                (start_at (atom lit to_int show) 1) (program laws lit to_int show zero_i) zero_i,
          )
