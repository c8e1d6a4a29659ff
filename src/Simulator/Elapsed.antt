-- ===== src/Simulator/Elapsed.antt =====
-- The local elapsed time of the x-function against the exact times of the two events.
use cadmia.Prelude.{◌≡◌, true, false, arith, and-true_iff}
use cadmia.Scalar.{Scalar, Arith}
use cadmia.Scalar.Exact.{Exact, RoundsOutward}
use cadmia.Interval.{Interval}
use cadmia.Interval.Rounding.{
  encloses, exact_above, exact_below, difference_bounds-above, difference_bounds-below,
}
use cadmia.Simulator.{local_elapsed}

module _ {ℓ κ} {T : Type ℓ} {R : Type κ} ⦃s : Scalar T⦄ ⦃m : Arith T⦄ ⦃e : Exact T R⦄
    (outward : RoundsOutward T R) where
  -- With time arithmetic that rounds outward and is exact to nearest, that is, not floating
  -- point: an event at `a` that comes no earlier than the last event, at `b`, has its elapsed
  -- time `a - b` enclosed by `t_local`, also where the two intervals overlap and the lower bound
  -- is clamped to zero.
  pub local_elapsed_sound :
      (t t_last : Interval T) (a b : R)
      → m.is_floating ≡ false
      → encloses t a ≡ true
      → encloses t_last b ≡ true
      → e.under (e.difference a b) s.default_value ≡ false
      → encloses (local_elapsed t t_last) (e.difference a b) ≡ true
  unfolding local_elapsed
  local_elapsed_sound t t_last a b integral h k later =
      let (t_low, t_high) = (and-true_iff (exact_above t a) (exact_below t a)).0 h in
      let (last_low, last_high) =
        (and-true_iff (exact_above t_last b) (exact_below t_last b)).0 k in
      let low = difference_bounds-above outward t t_last a b t_low last_high in
      let high = difference_bounds-below outward t t_last a b t_high last_low in
      (and-true_iff (exact_above (local_elapsed t t_last) (e.difference a b))
          (exact_below (local_elapsed t t_last) (e.difference a b))).1
        (ground (arith, low), ground (arith, high))
