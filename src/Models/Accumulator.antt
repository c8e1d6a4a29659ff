-- ===== src/Models/Accumulator.antt =====
-- include/cadmia/basic_model/iadevs/accumulator.hpp. It has the counter's two phases.
pub mod Crisp
pub mod Sound
pub mod Sparing
use cadmia.Prelude.{
  Bool, true, false, not, ◌&&◌, if◌then◌else◌, codes, Result, ok, err, ◌>>=◌, logic_error,
}
use cadmia.Prelude.Int.{ℤ, pos, ltb_ℤ}
use cadmia.Prelude.MachineInt.{int_add}
use cadmia.Scalar.{Scalar}
use cadmia.Scalar.Instances.{equal_ℤ, int_scalar}
use cadmia.Interval.{Interval, closed, right_open, is_empty, empty_interval}
use cadmia.AtomicModel.{AtomicModel}
use cadmia.Models.Counter.{Phase, passive, output, phase_less, phase_eq}

pub record State : Type 0 where
  pub phase : Phase
  pub total : ℤ

abbrev pub state : Phase → ℤ → State
state p n = record { phase = p; total = n }

-- `operator<=>`: the phase, then the total.
abbrev pub state_less : State → State → Bool
state_less a b =
    if not (phase_eq a.phase b.phase) then phase_less a.phase b.phase else ltb_ℤ a.total b.total

instance abbrev pub state_scalar : Scalar State
state_scalar = record {
  less = state_less;
  equal = λ a b. phase_eq a.phase b.phase && equal_ℤ a.total b.total;
  default_value = state passive (pos 0);
  has_infinity = false;
  infinity = state passive (pos 0);
  neg_infinity = state passive (pos 0);
}

unfoldable pub internal_transition : Interval State → Result (Interval State)
internal_transition s = closed (state passive s.lower.total) (state passive s.upper.total)

unfoldable pub external_transition {ℓ} :
    {T : Type ℓ} → Interval State → Interval T → Interval ℤ → Result (Interval State)
external_transition s elapsed x = do
  low ← int_add s.lower.total x.lower
  high ← int_add s.upper.total x.upper
  closed (state output low) (state output high)

unfoldable pub output_function : Interval State → Result (Interval ℤ)
output_function s = closed s.lower.total s.upper.total

unfoldable pub time_advance {ℓ} : {T : Type ℓ} ⦃t : Scalar T⦄ → Interval State → Result (Interval T)
time_advance ⦃t⦄ s =
    if is_empty s
    then ok empty_interval
    else if phase_eq s.lower.phase passive && phase_eq s.upper.phase passive
    then ok empty_interval
    else if phase_eq s.lower.phase output && phase_eq s.upper.phase output
    then closed t.default_value t.default_value
    else if phase_eq s.lower.phase passive && phase_eq s.upper.phase output
    then right_open t.default_value t.infinity
    else err (logic_error (codes "accumulator: lower phase OUTPUT > upper phase PASSIVE"))

abbrev pub accumulator : {T : Type 0} ⦃t : Scalar T⦄ → AtomicModel State T ℤ ℤ
accumulator = record {
  internal_transition = internal_transition;
  external_transition = external_transition;
  output = output_function;
  time_advance = time_advance;
}
