-- ===== src/CoupledGp.antt =====
-- example/coupled_gp/main.cpp: a generator that feeds an accumulator through a typed translation.
pub mod Select
pub mod Fits
pub mod Runs
use cadmia.Prelude.{
  Bool, true, false, not, ltb, ◌==◌, ◌||◌, ◌&&◌, ◌++◌, if◌then◌else◌, List, [], ◌∷◌, Option, none,
  some, Text, codes, is_nil, Result, ok, ◌>>=◌, ℕ, zero, suc,
}
use cadmia.Prelude.Int.{ℤ, pos}
use cadmia.Scalar.{Scalar, Arith}
use cadmia.Scalar.Instances.{int_scalar}
use cadmia.Interval.{Interval, closed}
use cadmia.Engine.{Castable, Translation, IadevsEngine, make_translation}
use cadmia.Component.{ComponentSpec, make_atomic_component}
use cadmia.CoupledModel.{CoupledModel, make_coupled_model}
use cadmia.Simulator.{Simulator, simulator_engine}
use cadmia.Coordinator.Depth.{Child, leaf, node, child_engine, Spec, Engine, engine_at, start_at}
use cadmia.RootCoordinator.{LogEntry, simulate, int_to_string, to_string}
use cadmia.Models.Literals.{Literals}
use cadmia.Models.Generator.{generator}
use cadmia.Models.Accumulator.{State, state, accumulator, state_scalar}
use cadmia.Models.Counter.{passive}

-- `operator<` on strings.
unfoldable pub text_less : Text → Text → Bool
text_less [] [] = false
text_less [] (b ∷ bs) = true
text_less (a ∷ s) [] = false
text_less (a ∷ s) (b ∷ bs) = ltb a b || a == b && text_less s bs

-- `std::min_element`, with `least` the smallest name so far.
unfoldable pub min_element : Text → List Text → Text
unfolding text_less
min_element least [] = least
min_element least (n ∷ names) = min_element (if text_less n least then n else least) names

-- `select_first`. Of no names the source reads past the end; the answer stands for that.
unfoldable pub select_first : List Text → Text
unfolding min_element
select_first [] = []
select_first (n ∷ names) = min_element n names

-- What `std::any` holds in this program.
pub data Payload (T : Type 0) : Type 0 where
  times : Interval T → Payload T
  counts : Interval ℤ → Payload T

abbrev pub as_times : {T : Type 0} → Payload T → Option (Interval T)
as_times (times i) = some i
as_times (counts i) = none

abbrev pub as_counts : {T : Type 0} → Payload T → Option (Interval ℤ)
as_counts (times i) = none
as_counts (counts i) = some i

abbrev pub any_times : {T : Type 0} → Castable (Payload T) (Interval T)
any_times = record { wrap = times; unwrap = as_times }

abbrev pub any_counts : {T : Type 0} → Castable (Payload T) (Interval ℤ)
any_counts = record { wrap = counts; unwrap = as_counts }

-- `to_int` is `static_cast<int>` of the time type, `show` its `operator<<`.
module _ {T : Type 0} ⦃s : Scalar T⦄ ⦃m : Arith T⦄ (lit : Literals T) (to_int : T → ℤ)
    (show : T → Text) where
  unfoldable pub gen_to_acc : Translation (Payload T)
  unfolding make_translation
  gen_to_acc = make_translation any_times any_counts (λ y. closed (to_int y.lower) (to_int y.upper))

  -- The two instances of `simulator<M>`, by the class of the object.
  abbrev pub Atom : Type 0
  Atom = Child (Simulator State T) (Simulator T T)

  abbrev pub atom : IadevsEngine T (Payload T) Atom
  atom =
      child_engine (simulator_engine accumulator any_counts any_counts int_to_string)
        (simulator_engine (generator lit) any_times any_times show)

  abbrev pub Model : Type 0
  Model = CoupledModel T (Payload T) (Spec atom 1)

  -- `comps`.
  unfoldable pub components : Interval T → Result (List (Text × Spec atom 1))
  unfolding make_atomic_component
  components zero_i = do
    gen_s0 ← closed s.default_value s.default_value
    acc_s0 ← closed (state passive (pos 0)) (state passive (pos 0))
    acc ← make_atomic_component accumulator leaf acc_s0 zero_i
    gen ← make_atomic_component (generator lit) node gen_s0 zero_i
    ok ((codes "acc", acc) ∷ (codes "gen", gen) ∷ [])

  -- `infl`.
  abbrev pub influencers : List (Text × List Text)
  influencers = (codes "gen", []) ∷ (codes "acc", codes "gen" ∷ []) ∷ []

  -- `model`.
  unfoldable pub build : Interval T → Result Model
  unfolding components gen_to_acc select_first
  build zero_i = do
    comps ← components zero_i
    make_coupled_model comps influencers (((codes "gen", codes "acc"), gen_to_acc) ∷ [])
        select_first s.default_value

  -- The log of the run of ten steps; the other limit is the default of `simulate`.
  unfoldable pub run : Result (Option (List (LogEntry (Payload T))))
  unfolding build
  run = do
    zero_i ← closed s.default_value s.default_value
    model ← build zero_i
    simulate (engine_at atom 1) show (start_at atom 1) model zero_i (pos 10) (pos 1000)

-- The table that is printed.
abbrev space : ℕ → Text
space zero = []
space (suc n) = 32 ∷ space n

unfoldable pub row {ℓ} : {V : Type ℓ} → LogEntry V → Text
row e =
    to_string e.step
    ++ (space 5
        ++ (e.branch
            ++ (space 7
                ++ (e.kind
                    ++ (space 3
                        ++ ((if is_nil e.component then codes "-" else e.component)
                            ++ (space 3 ++ (e.time ++ (10 ∷ [])))))))))

unfoldable pub rows {ℓ} : {V : Type ℓ} → List (LogEntry V) → Text
unfolding row
rows [] = []
rows (e ∷ es) = row e ++ rows es

unfoldable pub table {ℓ} : {V : Type ℓ} → List (LogEntry V) → Text
unfolding rows
table log = codes "step  branch  kind    component  time" ++ (10 ∷ rows log)
