-- ===== src/Models/Counter/RoundTrip.antt =====
-- Counting up and reading the count back.
use cadmia.Prelude.{◌≡◌, ◌∙◌, ap, ℕ, zero, suc, ◌+◌, ◌≤◌, true, Result, ok, ◌>>=◌, arith}
use cadmia.Prelude.Int.{pos, ◌+ℤ◌}
use cadmia.Prelude.MachineInt.{int_add}
use cadmia.Interval.{Interval, interval, closed, is_empty}
use cadmia.Models.Counter.{
  passive, State, state, add, reset, event_scalar, state_scalar, external_transition,
  output_function,
}

abbrev point {ℓ} : {A : Type ℓ} → A → Interval A
point a = interval a a true true

module _ {ℓ} {T : Type ℓ} (elapsed : Interval T) where
  -- `n` add events in a row.
  pub add_times : ℕ → Interval State → Result (Interval State)
  add_times zero i = ok i
  add_times (suc n) i = external_transition i elapsed (point add) >>= add_times n

  add_once :
      (k : ℕ)
      → suc k ≤ 2_147_483_647
      → external_transition (point (state passive (pos k))) elapsed (point add)
        ≡ ok (point (state passive (pos (suc k))))
  unfolding external_transition is_empty closed int_add ◌+ℤ◌
  add_once k h = ground arith

  add_times_lem :
      (n k : ℕ)
      → n + k ≤ 2_147_483_647
      → add_times n (point (state passive (pos k))) ≡ ok (point (state passive (pos (n + k))))
  unfolding add_times
  add_times_lem zero k h = ap (λ (m : ℕ). ok (point (state passive (pos m)))) (omega arith)
  add_times_lem (suc n) k h = rw (add_once k (omega arith)) (
      add_times_lem n (suc k) (omega arith)
      ∙ ap (λ (m : ℕ). ok (point (state passive (pos m)))) (omega arith))

  read_back :
      (k : ℕ)
      → (external_transition (point (state passive (pos k))) elapsed (point reset)
          >>= output_function)
        ≡ ok (point (pos k))
  unfolding external_transition is_empty closed output_function
  read_back k = ground arith

  -- From the single state (passive, 0), after `n` single adds a single reset outputs exactly `n`, for every
  -- `n` that an `int` holds, INT_MAX included.
  pub add_times-read_back :
      (n : ℕ)
      → n ≤ 2_147_483_647
      → (add_times n (point (state passive (pos 0))) >>= λ i.
          external_transition i elapsed (point reset) >>= output_function)
        ≡ ok (point (pos n))
  add_times-read_back n h =
      rw (add_times_lem n 0 (omega arith))
        (read_back (n + 0) ∙ ap (λ (m : ℕ). ok (point (pos m))) (omega arith))
