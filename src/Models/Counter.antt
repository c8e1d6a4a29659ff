-- ===== src/Models/Counter.antt =====
-- include/cadmia/basic_model/iadevs/counter.hpp.
pub mod Crisp
pub mod RoundTrip
pub mod Covers
pub mod Sound
use cadmia.Prelude.{
  Bool, true, false, not, ◌&&◌, ◌||◌, if◌then◌else◌, Option, none, some, codes, Result, ok, err,
  ◌>>=◌, ◌>>◌, throw_if, invalid_argument,
}
use cadmia.Prelude.Int.{ℤ, pos, ltb_ℤ, ◌+ℤ◌}
use cadmia.Prelude.MachineInt.{int_max, int_add}
use cadmia.Scalar.{Scalar}
use cadmia.Scalar.Instances.{equal_ℤ, int_scalar}
use cadmia.Interval.{Interval, closed, right_open, is_empty, empty_interval}
use cadmia.AtomicModel.{AtomicModel}

pub data Phase : Type 0 where
  passive output : Phase

pub record State : Type 0 where
  pub phase : Phase
  pub count : ℤ

pub data Event : Type 0 where
  add reset : Event

abbrev pub state : Phase → ℤ → State
state p c = record { phase = p; count = c }

abbrev pub phase_less : Phase → Phase → Bool
phase_less passive output = true
phase_less passive passive = false
phase_less output p = false

abbrev pub phase_eq : Phase → Phase → Bool
phase_eq passive passive = true
phase_eq passive output = false
phase_eq output passive = false
phase_eq output output = true

-- `operator<=>`: the phase, then the count.
abbrev pub state_less : State → State → Bool
state_less a b =
    if not (phase_eq a.phase b.phase) then phase_less a.phase b.phase else ltb_ℤ a.count b.count

abbrev pub state_equal : State → State → Bool
state_equal a b = phase_eq a.phase b.phase && equal_ℤ a.count b.count

-- `numeric_limits` has no infinity for a user's type, so the sentinels are never read.
instance abbrev pub state_scalar : Scalar State
state_scalar = record {
  less = state_less;
  equal = state_equal;
  default_value = state passive (pos 0);
  has_infinity = false;
  infinity = state passive (pos 0);
  neg_infinity = state passive (pos 0);
}

abbrev pub event_less : Event → Event → Bool
event_less add reset = true
event_less add add = false
event_less reset e = false

abbrev pub event_eq : Event → Event → Bool
event_eq add add = true
event_eq add reset = false
event_eq reset add = false
event_eq reset reset = true

instance abbrev pub event_scalar : Scalar Event
event_scalar = record {
  less = event_less;
  equal = event_eq;
  default_value = add;
  has_infinity = false;
  infinity = add;
  neg_infinity = add;
}

abbrev pub max_state : State
max_state = state output int_max

abbrev pub is_passive : State → Bool
is_passive s = phase_eq s.phase passive

abbrev pub is_output : State → Bool
is_output s = phase_eq s.phase output

unfoldable pub internal_transition : Interval State → Result (Interval State)
internal_transition s =
    if is_empty s
    then err (invalid_argument (codes "internal_transition: empty state interval"))
    else if is_passive s.lower && state_equal s.upper max_state
    then right_open (state passive (pos 0)) max_state
    else if is_output s.lower && state_equal s.upper max_state
    then closed (state passive (pos 0)) (state passive (pos 0))
    else if is_output s.lower && is_output s.upper
    then closed (state passive (pos 0)) (state passive (pos 0))
    else if is_passive s.lower && is_output s.upper
    then closed (state passive (pos 0)) (state passive s.upper.count)
    else err
        (invalid_argument (codes "internal_transition: invalid phase interval for internal event"))

-- The input interval [add, reset].
unfoldable pub uncertain_event : Interval State → Result (Interval State)
uncertain_event s =
    if state_equal s.upper max_state
    then right_open (state passive s.lower.count) max_state
    else (int_add s.upper.count (pos 1) >>= λ more.
        closed (state passive s.lower.count) (state output more))

unfoldable pub add_event : Interval State → Result (Interval State)
add_event s = do
  low ← int_add s.lower.count (pos 1)
  high ← int_add s.upper.count (pos 1)
  closed (state passive low) (state passive high)

unfoldable pub reset_event : Interval State → Result (Interval State)
reset_event s = closed (state output s.lower.count) (state output s.upper.count)

-- The event is one of the two, so the last `throw` of the source is never reached.
abbrev pub single_event : Event → Interval State → Result (Interval State)
single_event add s = add_event s
single_event reset s = reset_event s

on_events : Event → Event → Interval State → Result (Interval State)
unfolding uncertain_event add_event reset_event
on_events low high s =
    if event_eq low add && event_eq high reset
    then uncertain_event s
    else if not (event_eq low high)
    then err (invalid_argument (codes "external_transition: unsupported input interval form"))
    else single_event low s

unfoldable pub external_transition {ℓ} :
    {T : Type ℓ} → Interval State → Interval T → Interval Event → Result (Interval State)
unfolding on_events
external_transition s elapsed x =
    if is_empty s
    then err (invalid_argument (codes "external_transition: empty state interval"))
    else if is_empty x
    then err (invalid_argument (codes "external_transition: empty input interval"))
    else on_events x.lower x.upper s

unfoldable pub output_function : Interval State → Result (Interval ℤ)
output_function s =
    if is_empty s
    then err (invalid_argument (codes "output: empty state interval"))
    else if not (is_output s.lower) || not (is_output s.upper)
    then err (invalid_argument (codes "output: state must be in output phase"))
    else closed s.lower.count s.upper.count

unfoldable pub time_advance {ℓ} : {T : Type ℓ} ⦃t : Scalar T⦄ → Interval State → Result (Interval T)
time_advance ⦃t⦄ s =
    if is_empty s
    then ok empty_interval
    else if is_passive s.lower && is_passive s.upper
    then ok empty_interval
    else if is_output s.lower && is_output s.upper
    then closed t.default_value t.default_value
    else if is_passive s.lower && is_output s.upper
    then right_open t.default_value t.infinity
    else err (invalid_argument (codes "time_advance: invalid phase interval (output -> passive)"))

abbrev pub counter : {T : Type 0} ⦃t : Scalar T⦄ → AtomicModel State T Event ℤ
counter = record {
  internal_transition = internal_transition;
  external_transition = external_transition;
  output = output_function;
  time_advance = time_advance;
}
