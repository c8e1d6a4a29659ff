-- ===== src/Models/Counter/Crisp.antt =====
-- The counter on single states, and the interval functions against it.
use cadmia.Prelude.{◌≡◌, refl, sym, subst, true, false, ok, on_ok, arith, ◌⊎◌}
use cadmia.Prelude.Int.{ℤ, pos, ◌+ℤ◌, ◌≤ℤ◌}
use cadmia.Prelude.MachineInt.{int_add, int_add-le, le-int_add, int_add_grows, ≤ℤ-int_add}
use cadmia.Interval.{Interval, interval, closed}
use cadmia.Models.Counter.{
  passive, output, State, state, Event, add, reset, state_scalar, event_scalar, phase_less,
  event_eq, max_state, state_equal, internal_transition, external_transition, on_events,
  uncertain_event, add_event, reset_event,
}

-- What one state does on one event, and on its internal event.
unfoldable pub receive : State → Event → State
receive s add = state passive (s.count +ℤ pos 1)
receive s reset = state output s.count

unfoldable pub emit : State → State
emit s = state passive (pos 0)

-- `s` lies between the endpoints of `i` in its phase and in its count.
pub record Covers (i : Interval State) (s : State) : Type 0 where
  pub phase_low : phase_less s.phase i.lower.phase ≡ false
  pub phase_high : phase_less i.upper.phase s.phase ≡ false
  pub count_low : i.lower.count ≤ℤ s.count
  pub count_high : s.count ≤ℤ i.upper.count

-- Whether an event interval allows an event.
abbrev pub Allows : Interval Event → Event → Type 0
Allows x e = (event_eq x.lower e ≡ true) ⊎ (event_eq x.upper e ≡ true)

pub closed-bounds :
    (a b : State) {j : Interval State} → closed a b ≡ ok j → j ≡ interval a b true true
unfolding closed
closed-bounds a b h = ground arith

add_event-Covers :
    (i j : Interval State) (s : State) → Covers i s → add_event i ≡ ok j → Covers j (receive s add)
unfolding add_event receive
add_event-Covers i j s c h = on_ok (int_add i.lower.count (pos 1)) _ h λ low e₁ h₁.
    on_ok (int_add i.upper.count (pos 1)) _ h₁ λ high e₂ h₂.
      subst (λ k. Covers k (state passive (s.count +ℤ pos 1))) (sym (closed-bounds _ _ h₂))
        (record {
          phase_low = refl;
          phase_high = refl;
          count_low = int_add-le i.lower.count (pos 1) s.count (pos 1) e₁ c.count_low (omega arith);
          count_high =
              le-int_add i.upper.count (pos 1) s.count (pos 1) e₂ c.count_high (omega arith);
        })

reset_event-Covers :
    (i j : Interval State) (s : State)
    → Covers i s
    → reset_event i ≡ ok j
    → Covers j (receive s reset)
unfolding reset_event receive
reset_event-Covers i j s c h =
    subst (λ k. Covers k (state output s.count)) (sym (closed-bounds _ _ h))
      (record {
        phase_low = refl;
        phase_high = refl;
        count_low = c.count_low;
        count_high = c.count_high;
      })

uncertain_event-Covers :
    (i j : Interval State) (s : State) (e : Event)
    → state_equal i.upper max_state ≡ false
    → Covers i s
    → uncertain_event i ≡ ok j
    → Covers j (receive s e)
unfolding uncertain_event receive
uncertain_event-Covers i j s e finite c h =
    on_ok (int_add i.upper.count (pos 1)) _ (rw finite at h) λ high e₁ h₁.
      subst (λ k. Covers k (receive s e)) (sym (closed-bounds _ _ h₁)) (within high e₁ e)
  where
    within :
        (high : ℤ)
        → int_add i.upper.count (pos 1) ≡ ok high
        → (e : Event)
        → Covers
            (interval (state passive i.lower.count) (state output high) true true)
            (receive s e)
    within high e₁ add = record {
      phase_low = refl;
      phase_high = refl;
      count_low = int_add_grows i.lower.count s.count c.count_low;
      count_high = le-int_add i.upper.count (pos 1) s.count (pos 1) e₁ c.count_high (omega arith);
    }
    within high e₁ reset = record {
      phase_low = refl;
      phase_high = refl;
      count_low = c.count_low;
      count_high = ≤ℤ-int_add i.upper.count s.count e₁ c.count_high;
    }

on_events-Covers :
    (i j : Interval State) (low high : Event) (s : State) (e : Event)
    → state_equal i.upper max_state ≡ false
    → Covers i s
    → (event_eq low e ≡ true) ⊎ (event_eq high e ≡ true)
    → on_events low high i ≡ ok j
    → Covers j (receive s e)
unfolding on_events
on_events-Covers i j add reset s e finite c a h = uncertain_event-Covers i j s e finite c h
on_events-Covers i j reset add s e finite c a h = absurd cc
on_events-Covers i j add add s add finite c a h = add_event-Covers i j s c h
on_events-Covers i j add add s reset finite c a h = absurd (ground arith)
on_events-Covers i j reset reset s add finite c a h = absurd (ground arith)
on_events-Covers i j reset reset s reset finite c a h = reset_event-Covers i j s c h

-- The external transition on an interval, when it returns, covers the external transition on each
-- state that the interval covers, for each event that the input allows; away from the sentinel of
-- unbounded intervals.
pub external_transition-Covers {ℓ} :
    {T : Type ℓ} (i j : Interval State) (elapsed : Interval T) (x : Interval Event) (s : State)
    (e : Event)
    → state_equal i.upper max_state ≡ false
    → Covers i s
    → Allows x e
    → external_transition i elapsed x ≡ ok j
    → Covers j (receive s e)
unfolding external_transition
external_transition-Covers i j elapsed x s e finite c a h =
    on_events-Covers i j x.lower x.upper s e finite c a (ground arith)

-- The internal transition on an interval, when it returns, covers the internal transition on each
-- state in the output phase, with a count that is not negative, that the interval covers; away
-- from the sentinel of unbounded intervals.
pub internal_transition-Covers :
    (i j : Interval State) (s : State)
    → state_equal i.upper max_state ≡ false
    → s.phase ≡ output
    → pos 0 ≤ℤ s.count
    → Covers i s
    → internal_transition i ≡ ok j
    → Covers j (emit s)
unfolding internal_transition emit closed
internal_transition-Covers i j s finite p nonneg c h = ground arith
