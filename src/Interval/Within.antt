-- ===== src/Interval/Within.antt =====
-- The order of endpoints, by which intervals lie within one another, and intervals that hold a point.
use cadmia.Prelude.{◌≡◌, true, false, not, ◌&&◌, ◌||◌, arith}
use cadmia.Scalar.{Scalar}
use cadmia.Scalar.Laws.{IsOrdered}
use cadmia.Interval.{
  Interval, is_empty, is_subset_of, intersects, lower_within, upper_within, before, overlap,
}
use cadmia.Interval.Membership.{order_of}

module _ {ℓ} {T : Type ℓ} ⦃s : Scalar T⦄ where
  -- The endpoints are in order, and both closed if they are equal.
  abbrev pub IsProper : Interval T → Type 0
  IsProper i =
      (s.less i.lower i.upper || i.lower_closed && i.upper_closed && not (s.less i.upper i.lower))
      ≡ true

  pub IsProper-not-is_empty : (i : Interval T) → IsProper i → is_empty i ≡ false
  unfolding is_empty
  IsProper-not-is_empty i h = ground arith

  pub is_subset_of_within :
      (i j : Interval T)
      → is_empty j ≡ false
      → lower_within i j ≡ true
      → upper_within i j ≡ true
      → is_subset_of i j ≡ true
  unfolding is_subset_of
  is_subset_of_within i j h p q = ground arith

module _ {ℓ} {T : Type ℓ} ⦃s : Scalar T⦄ (laws : IsOrdered T) where
  pub lower_within_refl : (i : Interval T) → lower_within i i ≡ true
  unfolding lower_within
  lower_within_refl i = ground (arith, laws.irrefl i.lower)

  pub upper_within_refl : (i : Interval T) → upper_within i i ≡ true
  unfolding upper_within
  upper_within_refl i = ground (arith, laws.irrefl i.upper)

  pub lower_within_trans :
      (i j k : Interval T)
      → lower_within i j ≡ true
      → lower_within j k ≡ true
      → lower_within i k ≡ true
  unfolding lower_within
  lower_within_trans i j k p q = ground (arith, order_of laws i.lower j.lower k.lower)

  pub upper_within_trans :
      (i j k : Interval T)
      → upper_within i j ≡ true
      → upper_within j k ≡ true
      → upper_within i k ≡ true
  unfolding upper_within
  upper_within_trans i j k p q = ground (arith, order_of laws i.upper j.upper k.upper)

  -- What lies within a proper interval, between endpoints of a third, meets it.
  pub intersects_within :
      (i j : Interval T)
      → IsProper i
      → is_empty j ≡ false
      → lower_within i j ≡ true
      → upper_within i j ≡ true
      → intersects i j ≡ true
  unfolding intersects lower_within upper_within before
  intersects_within i j h e p q = ground (
    arith,
    IsProper-not-is_empty i h,
    order_of laws i.lower i.upper j.lower,
    order_of laws i.lower i.upper j.upper,
  )

  pub intersects_comm : (i j : Interval T) → intersects i j ≡ true → intersects j i ≡ true
  unfolding intersects
  intersects_comm i j h = ground arith

  pub IsProper-within :
      (i j : Interval T)
      → IsProper i
      → lower_within i j ≡ true
      → upper_within i j ≡ true
      → IsProper j
  unfolding lower_within upper_within
  IsProper-within i j h p q = ground (
    arith,
    order_of laws i.lower i.upper j.lower,
    order_of laws i.lower i.upper j.upper,
    order_of laws i.lower j.lower j.upper,
    order_of laws i.upper j.lower j.upper,
  )

  -- An overlap starts with the interval that starts later.
  pub overlap-start :
      (i j : Interval T)
      → lower_within i j ≡ true
      → ((overlap i j).lower ≡ i.lower) × ((overlap i j).lower_closed ≡ i.lower_closed)
  unfolding overlap lower_within
  overlap-start i j h = ground (arith, laws.asymm i.lower j.lower)

  pub overlap-upper_within :
      (i j : Interval T)
      → (upper_within (overlap i j) i ≡ true) × (upper_within (overlap i j) j ≡ true)
  unfolding overlap upper_within
  overlap-upper_within i j =
      ground (arith, laws.asymm i.upper j.upper, laws.irrefl i.upper, laws.irrefl j.upper)

  pub overlap-IsProper :
      (i j : Interval T) → IsProper i → IsProper j → intersects i j ≡ true → IsProper (overlap i j)
  unfolding overlap intersects before
  overlap-IsProper i j h k m = ground (
    arith,
    order_of laws i.lower i.upper j.lower,
    order_of laws i.lower i.upper j.upper,
    order_of laws i.lower j.lower j.upper,
    order_of laws i.upper j.lower j.upper,
  )
