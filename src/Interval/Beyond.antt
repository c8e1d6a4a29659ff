-- ===== src/Interval/Beyond.antt =====
-- The points that lie after every point of a limit.
use cadmia.Prelude.{◌≡◌, Bool, true, false, not, if◌then◌else◌, arith}
use cadmia.Scalar.{Scalar}
use cadmia.Scalar.Laws.{IsOrdered}
use cadmia.Interval.{Interval, is_empty, intersects, is_punctual, before}
use cadmia.Interval.Membership.{has, above_lower, order_of}

module _ {ℓ} {T : Type ℓ} ⦃s : Scalar T⦄ where
  -- `v` lies after every point that `limit` may hold.
  abbrev pub beyond : Interval T → T → Bool
  beyond limit v = if limit.upper_closed then s.less limit.upper v else not (s.less v limit.upper)

module _ {ℓ} {T : Type ℓ} ⦃s : Scalar T⦄ (laws : IsOrdered T) where
  open laws use {asymm, equal-eq}

  -- After a single point, the lower endpoint serves as well as the upper one.
  pub is_punctual-beyond :
      (limit : Interval T) (v : T)
      → is_punctual limit ≡ true
      → s.less limit.lower v ≡ beyond limit v
  unfolding is_punctual
  is_punctual-beyond limit v h =
      ground (arith, equal-eq limit.lower limit.upper, order_of laws limit.lower limit.upper v)

  -- What lies after a limit that does not end before `i` has passed the lower bound of `i`.
  not-before-beyond :
      (i limit : Interval T) (v : T)
      → before limit i ≡ false
      → beyond limit v ≡ true
      → above_lower i v ≡ true
  unfolding before
  not-before-beyond i limit v h k = ground (arith, order_of laws limit.upper i.lower v)

  pub beyond-above_lower :
      (i limit : Interval T) (v : T)
      → intersects i limit ≡ true
      → beyond limit v ≡ true
      → above_lower i v ≡ true
  unfolding intersects
  beyond-above_lower i limit v h k = ground (arith, not-before-beyond i limit v)

  pub has-not-beyond : (limit : Interval T) (v : T) → has limit v ≡ true → beyond limit v ≡ false
  has-not-beyond limit v h = ground (arith, asymm v limit.upper)

module _ {ℓ} {T : Type ℓ} ⦃s : Scalar T⦄ where
  pub intersects-not-is_empty :
      (i other : Interval T)
      → intersects i other ≡ true
      → (is_empty i ≡ false) × (is_empty other ≡ false)
  unfolding intersects
  intersects-not-is_empty i other h = ground arith
