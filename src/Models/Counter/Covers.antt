-- ===== src/Models/Counter/Covers.antt =====
-- The states that an interval of counter states covers, and the transitions on them.
use cadmia.Prelude.{
  ◌≡◌, refl, sym, subst, on_ok, inl, inr, Bool-cases, Bool, true, false, not, ◌&&◌, ◌||◌, ok, arith,
}
use cadmia.Prelude.Int.{ℤ, pos, ltb_ℤ, ◌+ℤ◌, +ℤ_parts}
use cadmia.Prelude.MachineInt.{int_add, int_max}
use cadmia.Scalar.Instances.{equal_ℤ}
use cadmia.Interval.{Interval, interval, closed, right_open, is_empty}
use cadmia.Interval.Membership.{has}
use cadmia.Models.Counter.{
  passive, output, phase_less, Event, add, reset, State, state, state_scalar, event_scalar,
  state_equal, max_state, internal_transition, uncertain_event, add_event, reset_event,
}
use cadmia.Models.Counter.Crisp.{receive, emit, closed-bounds}

-- A state of an interval that is not empty, between the endpoints in its phase and in its count, which is
-- not negative; an interval that ends with the sentinel has no upper bound on the count. `operator<=>`
-- compares the counts only within one phase, and so an interval with a passive and an output end has
-- more states by it.
abbrev pub covers : Interval State → State → Bool
covers i s =
    not (is_empty i)
    && i.lower_closed
    && not (phase_less s.phase i.lower.phase)
    && not (phase_less i.upper.phase s.phase)
    && not (ltb_ℤ s.count i.lower.count)
    && not (ltb_ℤ s.count (pos 0))
    && (state_equal i.upper max_state || i.upper_closed && not (ltb_ℤ i.upper.count s.count))

pub covers-has :
    (i : Interval State) (q : State)
    → state_equal i.upper max_state ≡ false
    → covers i q ≡ true
    → has i q ≡ true
covers-has i q finite c = ground arith

pub has-covers :
    (i : Interval State) (q : State)
    → i.lower.phase ≡ i.upper.phase
    → i.lower_closed ≡ true
    → i.upper_closed ≡ true
    → ltb_ℤ q.count (pos 0) ≡ false
    → has i q ≡ true
    → covers i q ≡ true
unfolding is_empty
has-covers i q e c d nonneg h = ground arith

above_low :
    (i : Interval State) (q : State) → covers i q ≡ true → ltb_ℤ q.count i.lower.count ≡ false
above_low i q c = ground arith

above_zero : (i : Interval State) (q : State) → covers i q ≡ true → ltb_ℤ q.count (pos 0) ≡ false
above_zero i q c = ground arith

below_top :
    (i : Interval State) (q : State)
    → covers i q ≡ true
    → (equal_ℤ i.upper.count int_max || not (ltb_ℤ i.upper.count q.count)) ≡ true
below_top i q c = ground arith

below_high :
    (i : Interval State) (q : State)
    → covers i q ≡ true
    → state_equal i.upper max_state ≡ false
    → ltb_ℤ i.upper.count q.count ≡ false
below_high i q c finite = ground arith

right_open-bounds :
    (a b : State) {j : Interval State} → right_open a b ≡ ok j → j ≡ interval a b true false
unfolding right_open
right_open-bounds a b h = ground arith

pub internal-covers :
    (i j : Interval State) (q : State)
    → internal_transition i ≡ ok j
    → covers i q ≡ true
    → covers j (emit q) ≡ true
unfolding internal_transition closed right_open emit is_empty
internal-covers i j q h c = ground arith

-- A bound on the count that has gone up by one.
count_up :
    (a b : ℤ) {c : ℤ} → int_add a (pos 1) ≡ ok c → ltb_ℤ a b ≡ false → ltb_ℤ c (b +ℤ pos 1) ≡ false
unfolding int_add
count_up a b h k = ground (arith, +ℤ_parts a (pos 1), +ℤ_parts b (pos 1))

sum_low :
    (a b : ℤ) {c : ℤ} → int_add a (pos 1) ≡ ok c → ltb_ℤ b a ≡ false → ltb_ℤ (b +ℤ pos 1) c ≡ false
unfolding int_add
sum_low a b h k = ground (arith, +ℤ_parts a (pos 1), +ℤ_parts b (pos 1))

stays_counted : (a b : ℤ) → ltb_ℤ b a ≡ false → ltb_ℤ (b +ℤ pos 1) a ≡ false
stays_counted a b h = ground (arith, +ℤ_parts b (pos 1))

not_largest : (a : ℤ) {c : ℤ} → int_add a (pos 1) ≡ ok c → equal_ℤ a int_max ≡ false
unfolding int_add
not_largest a h = ground (arith, +ℤ_parts a (pos 1))

stays_below : (a b : ℤ) {c : ℤ} → int_add a (pos 1) ≡ ok c → ltb_ℤ a b ≡ false → ltb_ℤ c b ≡ false
unfolding int_add
stays_below a b h k = ground (arith, +ℤ_parts a (pos 1))

or_false : (a : Bool) {b : Bool} → a ≡ false → (a || not b) ≡ true → b ≡ false
or_false a h k = ground arith

or_true : (b : Bool) → (b || true) ≡ true
or_true true = refl
or_true false = refl

pub add-covers :
    (i j : Interval State) (q : State)
    → add_event i ≡ ok j
    → covers i q ≡ true
    → covers j (receive q add) ≡ true
unfolding add_event receive is_empty
add-covers i j q h c = on_ok (int_add i.lower.count (pos 1)) _ h λ low e₁ h₁.
    on_ok (int_add i.upper.count (pos 1)) _ h₁ λ high e₂ h₂.
      let below = sum_low i.lower.count q.count e₁ (above_low i q c) in
      let above = count_up i.upper.count q.count e₂ (
        or_false (equal_ℤ i.upper.count int_max) (not_largest i.upper.count e₂)
          (below_top i q c)) in
      let nonneg = stays_counted (pos 0) q.count (above_zero i q c) in
      subst (λ k. covers k (state passive (q.count +ℤ pos 1)) ≡ true)
        (sym (closed-bounds (state passive low) (state passive high) h₂))
        (rw (below, above, nonneg) refl)

pub reset-covers :
    (i j : Interval State) (q : State)
    → reset_event i ≡ ok j
    → covers i q ≡ true
    → covers j (receive q reset) ≡ true
unfolding reset_event receive is_empty
reset-covers i j q h c =
    subst (λ k. covers k (state output q.count) ≡ true)
      (sym (closed-bounds (state output i.lower.count) (state output i.upper.count) h))
      (rw (above_low i q c, above_zero i q c) (below_top i q c))

bounded_add :
    (i : Interval State) (high : ℤ) (q : State)
    → int_add i.upper.count (pos 1) ≡ ok high
    → state_equal i.upper max_state ≡ false
    → covers i q ≡ true
    → covers (interval (state passive i.lower.count) (state output high) true true) (receive q add)
      ≡ true
unfolding receive is_empty
bounded_add i high q h finite c =
    let below = stays_counted i.lower.count q.count (above_low i q c) in
    let above = count_up i.upper.count q.count h (below_high i q c finite) in
    let nonneg = stays_counted (pos 0) q.count (above_zero i q c) in
    rw (below, above, nonneg) (or_true (equal_ℤ high int_max))

bounded_reset :
    (i : Interval State) (high : ℤ) (q : State)
    → int_add i.upper.count (pos 1) ≡ ok high
    → state_equal i.upper max_state ≡ false
    → covers i q ≡ true
    → covers
        (interval (state passive i.lower.count) (state output high) true true)
        (receive q reset)
      ≡ true
unfolding receive is_empty
bounded_reset i high q h finite c =
    let above = stays_below i.upper.count q.count h (below_high i q c finite) in
    rw (above_low i q c, above, above_zero i q c) (or_true (equal_ℤ high int_max))

bounded-covers :
    (i j : Interval State) (high : ℤ) (q : State) (e : Event)
    → int_add i.upper.count (pos 1) ≡ ok high
    → closed (state passive i.lower.count) (state output high) ≡ ok j
    → state_equal i.upper max_state ≡ false
    → covers i q ≡ true
    → covers j (receive q e) ≡ true
bounded-covers i j high q add h h₁ finite c =
    subst (λ k. covers k (receive q add) ≡ true)
      (sym (closed-bounds (state passive i.lower.count) (state output high) h₁))
      (bounded_add i high q h finite c)
bounded-covers i j high q reset h h₁ finite c =
    subst (λ k. covers k (receive q reset) ≡ true)
      (sym (closed-bounds (state passive i.lower.count) (state output high) h₁))
      (bounded_reset i high q h finite c)

unbounded-covers :
    (i j : Interval State) (q : State) (e : Event)
    → right_open (state passive i.lower.count) max_state ≡ ok j
    → covers i q ≡ true
    → covers j (receive q e) ≡ true
unfolding receive is_empty
unbounded-covers i j q add h c =
    let below = stays_counted i.lower.count q.count (above_low i q c) in
    let nonneg = stays_counted (pos 0) q.count (above_zero i q c) in
    subst (λ k. covers k (receive q add) ≡ true)
      (sym (right_open-bounds (state passive i.lower.count) max_state h)) (rw (below, nonneg) refl)
unbounded-covers i j q reset h c =
    subst (λ k. covers k (receive q reset) ≡ true)
      (sym (right_open-bounds (state passive i.lower.count) max_state h))
      (rw (above_low i q c, above_zero i q c) refl)

pub uncertain-covers :
    (i j : Interval State) (q : State) (e : Event)
    → uncertain_event i ≡ ok j
    → covers i q ≡ true
    → covers j (receive q e) ≡ true
unfolding uncertain_event
uncertain-covers i j q e h c = elim (Bool-cases (state_equal i.upper max_state)) [
  | inl p ↦ unbounded-covers i j q e (rw p at h) c
  | inr p ↦
      on_ok (int_add i.upper.count (pos 1)) _ (rw p at h)
        λ high e₁ h₁. bounded-covers i j high q e e₁ h₁ p c
]
