-- ===== src/Interval/Factories.antt =====
-- The four checked constructors of interval.hpp, and the unchecked empty interval.
use cadmia.Prelude.{◌≡◌, true, false, codes, ok, err, invalid_argument, arith}
use cadmia.Scalar.{Scalar}
use cadmia.Scalar.Laws.{IsOrdered}
use cadmia.Interval.{
  Interval, interval, closed, right_open, left_open, open_interval, empty_interval,
}

module _ {ℓ} {T : Type ℓ} ⦃s : Scalar T⦄ where
  pub closed-eq-ok :
      (lo hi : T) {i : Interval T}
      → closed lo hi ≡ ok i
      → (i ≡ interval lo hi true true) × (s.less hi lo ≡ false)
  unfolding closed
  closed-eq-ok lo hi h = ground arith

  pub closed_ok : (lo hi : T) → s.less hi lo ≡ false → closed lo hi ≡ ok (interval lo hi true true)
  unfolding closed
  closed_ok lo hi h = rw h

  -- Each of the four returns its endpoints under its flags, or throws if they are reversed.
  pub factories_lem :
      (lo hi : T)
      → (s.less hi lo ≡ false
          → (closed lo hi ≡ ok (interval lo hi true true))
            × (right_open lo hi ≡ ok (interval lo hi true false))
            × (left_open lo hi ≡ ok (interval lo hi false true))
            × (open_interval lo hi ≡ ok (interval lo hi false false)))
        × (s.less hi lo ≡ true
            → (closed lo hi ≡ err (invalid_argument (codes "interval.closed: hi < lo")))
              × (right_open lo hi ≡ err (invalid_argument (codes "interval.right_open: hi < lo")))
              × (left_open lo hi ≡ err (invalid_argument (codes "interval.left_open: hi < lo")))
              × (open_interval lo hi ≡ err (invalid_argument (codes "interval.open: hi < lo"))))
  unfolding closed right_open left_open open_interval
  factories_lem lo hi = (λ h. (rw h, rw h, rw h, rw h), λ h. (rw h, rw h, rw h, rw h))

  -- `empty_interval` never meets the check of `open`.
  pub open_interval-default :
      IsOrdered T → open_interval s.default_value s.default_value ≡ ok empty_interval
  unfolding open_interval empty_interval
  open_interval-default laws = rw (laws.irrefl s.default_value)
