-- ===== src/Models/Generator.antt =====
-- include/cadmia/basic_model/iadevs/generator.hpp. State, time, input and output are all `double`.
pub mod Clamp
pub mod Sound
pub mod Sparing
use cadmia.Prelude.{
  Bool, true, false, not, ◌&&◌, ◌||◌, ◌++◌, if◌then◌else◌, codes, Text, Result, ok, err, ◌>>=◌,
  ◌>>◌, throw_if, invalid_argument,
}
use cadmia.Scalar.{Scalar, Arith}
use cadmia.Interval.{Interval, closed, is_empty, add, subtract}
use cadmia.AtomicModel.{AtomicModel}
use cadmia.Models.Literals.{Literals}

module _ {ℓ} {T : Type ℓ} ⦃s : Scalar T⦄ where
  open s use {less, default_value}

  -- The bounds of an interval that is not empty lie in [0, limit].
  abbrev pub out_of_bounds : T → Interval T → Bool
  out_of_bounds limit i =
      less i.lower default_value
      || less i.upper default_value
      || less limit i.lower
      || less limit i.upper

  unfoldable pub clamp_time_interval : Interval T → Interval T
  clamp_time_interval i = if is_empty i then i else record {
    lower = if less i.lower default_value then default_value else i.lower;
    upper = if less i.upper default_value then default_value else i.upper;
    lower_closed = if less i.lower default_value then true else i.lower_closed;
    upper_closed = if less i.upper default_value then true else i.upper_closed;
  }

module _ {ℓ} {T : Type ℓ} ⦃s : Scalar T⦄ ⦃m : Arith T⦄ (lit : Literals T) where
  unfoldable pub validate_state_interval : Interval T → Text → Text → Result (Unit {0})
  validate_state_interval i place name =
      if is_empty i
      then ok tt
      else throw_if (out_of_bounds lit.long_period i)
          (invalid_argument (place ++ (codes ": " ++ (name ++ codes " outside [0, 1.005]"))))

  unfoldable pub internal_transition : Interval T → Result (Interval T)
  unfolding validate_state_interval
  internal_transition i = do
    validate_state_interval i (codes "internal_transition") (codes "state")
    closed s.default_value s.default_value

  unfoldable pub external_transition : Interval T → Interval T → Interval T → Result (Interval T)
  unfolding validate_state_interval
  external_transition i elapsed x = do
    validate_state_interval i (codes "external_transition") (codes "state")
    validate_state_interval elapsed (codes "external_transition") (codes "elapsed")
    let sum = add i elapsed
    validate_state_interval sum (codes "external_transition") (codes "state result")
    ok sum

  unfoldable pub output : Interval T → Result (Interval T)
  output i = closed lit.low_output lit.high_output

  unfoldable pub time_advance : Interval T → Result (Interval T)
  unfolding validate_state_interval clamp_time_interval
  time_advance i = do
    validate_state_interval i (codes "time_advance") (codes "state")
    period ← closed lit.short_period lit.long_period
    ok (clamp_time_interval (subtract period i))

  abbrev pub generator : AtomicModel T T T T
  generator = record {
    internal_transition = internal_transition;
    external_transition = external_transition;
    output = output;
    time_advance = time_advance;
  }
