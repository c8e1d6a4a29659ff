-- ===== src/Models/Accumulator/Crisp.antt =====
-- The accumulator on single states, and the interval functions against it.
use cadmia.Prelude.{◌≡◌, refl, sym, subst, true, false, ok, on_ok, arith}
use cadmia.Prelude.Int.{ℤ, ◌+ℤ◌, ◌≤ℤ◌}
use cadmia.Prelude.MachineInt.{int_add, int_add-le, le-int_add}
use cadmia.Interval.{Interval, interval, closed}
use cadmia.Models.Counter.{passive, output, phase_less}
use cadmia.Models.Accumulator.{State, state, state_scalar, internal_transition, external_transition}

unfoldable pub receive : State → ℤ → State
receive s x = state output (s.total +ℤ x)

unfoldable pub emit : State → State
emit s = state passive s.total

-- `s` lies between the endpoints of `i` in its phase and in its total.
pub record Covers (i : Interval State) (s : State) : Type 0 where
  pub phase_low : phase_less s.phase i.lower.phase ≡ false
  pub phase_high : phase_less i.upper.phase s.phase ≡ false
  pub total_low : i.lower.total ≤ℤ s.total
  pub total_high : s.total ≤ℤ i.upper.total

pub closed-bounds :
    (a b : State) {j : Interval State} → closed a b ≡ ok j → j ≡ interval a b true true
unfolding closed
closed-bounds a b h = ground arith

-- A state that the interval covers adds an input between the input's bounds: the external transition, when
-- it returns, covers the sum.
pub external_transition-Sum {ℓ} :
    {T : Type ℓ} (i j : Interval State) (elapsed : Interval T) (x : Interval ℤ) (s : State) (v : ℤ)
    → Covers i s
    → x.lower ≤ℤ v
    → v ≤ℤ x.upper
    → external_transition i elapsed x ≡ ok j
    → Covers j (receive s v)
unfolding external_transition receive
external_transition-Sum i j elapsed x s v c below above h =
    on_ok (int_add i.lower.total x.lower) _ h λ low e₁ h₁.
      on_ok (int_add i.upper.total x.upper) _ h₁ λ high e₂ h₂.
        subst (λ k. Covers k (state output (s.total +ℤ v))) (sym (closed-bounds _ _ h₂))
          (record {
            phase_low = refl;
            phase_high = refl;
            total_low = int_add-le i.lower.total x.lower s.total v e₁ c.total_low below;
            total_high = le-int_add i.upper.total x.upper s.total v e₂ c.total_high above;
          })

-- The internal transition, when it returns, covers each state that the interval covered, with its
-- total kept and moved to the passive phase.
pub internal_transition-Total :
    (i j : Interval State) (s : State)
    → Covers i s
    → internal_transition i ≡ ok j
    → Covers j (emit s)
unfolding internal_transition emit
internal_transition-Total i j s c h =
    subst (λ k. Covers k (state passive s.total)) (sym (closed-bounds _ _ h))
      (record {
        phase_low = refl;
        phase_high = refl;
        total_low = c.total_low;
        total_high = c.total_high;
      })
