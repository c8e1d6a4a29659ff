-- ===== src/Interval/Membership.antt =====
-- The points of an interval, and the set operations of interval.hpp against them.
use mathlib.Core.Path.{ap₂}
use cadmia.Prelude.{
  ◌≡◌, ◌∙◌, sym, Bool, true, false, not, ◌&&◌, if◌then◌else◌, arith, Bool-cases, inl, inr,
}
use cadmia.Scalar.{Scalar}
use cadmia.Scalar.Laws.{IsOrdered}
use cadmia.Interval.{
  Interval, is_empty, is_subset_of, intersects, intersection, empty_interval, lower_within,
  upper_within, before, overlap,
}

module _ {ℓ} {T : Type ℓ} ⦃s : Scalar T⦄ where
  open s use {less}

  abbrev pub above_lower : Interval T → T → Bool
  above_lower i v = if i.lower_closed then not (less v i.lower) else less i.lower v

  abbrev pub below_upper : Interval T → T → Bool
  below_upper i v = if i.upper_closed then not (less i.upper v) else less v i.upper

  -- `v` is a point of `i`.
  abbrev pub has : Interval T → T → Bool
  has i v = above_lower i v && below_upper i v

and_regroup : (a b c d : Bool) → ((a && b) && (c && d)) ≡ ((a && c) && (b && d))
and_regroup a b c d = ground arith

not_both : (a b : Bool) {c : Bool} → c ≡ false → (a ≡ true → b ≡ true → c ≡ true) → (a && b) ≡ false
not_both a b e f = ground arith

module _ {ℓ} {T : Type ℓ} ⦃s : Scalar T⦄ (laws : IsOrdered T) where
  open s use {less}
  open laws use {irrefl, asymm, neg_trans}

  pub trans : (a b c : T) → less a b ≡ true → less b c ≡ true → less a c ≡ true
  trans a b c p q = ground (arith, asymm a b, asymm b c, neg_trans a c b)

  -- All that the order says of three values.
  pub order_of :
      (a b c : T)
      → (less a b ≡ true → less b a ≡ false)
        × (less a c ≡ true → less c a ≡ false)
        × (less b c ≡ true → less c b ≡ false)
        × (less a b ≡ true → less b c ≡ true → less a c ≡ true)
        × (less a c ≡ true → less c b ≡ true → less a b ≡ true)
        × (less b a ≡ true → less a c ≡ true → less b c ≡ true)
        × (less b c ≡ true → less c a ≡ true → less b a ≡ true)
        × (less c a ≡ true → less a b ≡ true → less c b ≡ true)
        × (less c b ≡ true → less b a ≡ true → less c a ≡ true)
        × (less a b ≡ false → less b c ≡ false → less a c ≡ false)
        × (less a c ≡ false → less c b ≡ false → less a b ≡ false)
        × (less b a ≡ false → less a c ≡ false → less b c ≡ false)
        × (less b c ≡ false → less c a ≡ false → less b a ≡ false)
        × (less c a ≡ false → less a b ≡ false → less c b ≡ false)
        × (less c b ≡ false → less b a ≡ false → less c a ≡ false)
  order_of a b c = (
    asymm a b,
    asymm a c,
    asymm b c,
    trans a b c,
    trans a c b,
    trans b a c,
    trans b c a,
    trans c a b,
    trans c b a,
    neg_trans a b c,
    neg_trans a c b,
    neg_trans b a c,
    neg_trans b c a,
    neg_trans c a b,
    neg_trans c b a,
  )

  -- An interval that `is_empty` reports has no point.
  pub is_empty_sound : (i : Interval T) (v : T) → is_empty i ≡ true → has i v ≡ false
  unfolding is_empty
  is_empty_sound i v h =
      ground
        (arith, trans i.lower v i.upper, neg_trans i.lower i.upper v, neg_trans v i.lower i.upper)

  lower_within_sound :
      (i other : Interval T) (v : T)
      → lower_within i other ≡ true
      → above_lower i v ≡ true
      → above_lower other v ≡ true
  unfolding lower_within
  lower_within_sound i other v h k = ground (arith, order_of v other.lower i.lower)

  upper_within_sound :
      (i other : Interval T) (v : T)
      → upper_within i other ≡ true
      → below_upper i v ≡ true
      → below_upper other v ≡ true
  unfolding upper_within
  upper_within_sound i other v h k = ground (arith, order_of i.upper other.upper v)

  -- What `is_subset_of` accepts is a subset.
  pub is_subset_of_sound :
      (i other : Interval T) (v : T)
      → is_subset_of i other ≡ true
      → has i v ≡ true
      → has other v ≡ true
  unfolding is_subset_of
  is_subset_of_sound i other v h k =
      ground (arith, is_empty_sound i v, lower_within_sound i other v, upper_within_sound i other v)

  before_disjoint :
      (i other : Interval T) (v : T)
      → before i other ≡ true
      → below_upper i v ≡ true
      → above_lower other v ≡ false
  unfolding before
  before_disjoint i other v h k = ground (arith, order_of v i.upper other.lower)

  -- Two intervals with a common point intersect.
  pub intersects_complete :
      (i other : Interval T) (v : T)
      → has i v ≡ true
      → has other v ≡ true
      → intersects i other ≡ true
  unfolding intersects
  intersects_complete i other v h k = ground (
    arith,
    is_empty_sound i v,
    is_empty_sound other v,
    before_disjoint i other v,
    before_disjoint other i v,
  )

  overlap-above_lower :
      (i other : Interval T) (v : T)
      → above_lower (overlap i other) v ≡ (above_lower i v && above_lower other v)
  unfolding overlap
  overlap-above_lower i other v = ground (arith, order_of i.lower other.lower v)

  overlap-below_upper :
      (i other : Interval T) (v : T)
      → below_upper (overlap i other) v ≡ (below_upper i v && below_upper other v)
  unfolding overlap
  overlap-below_upper i other v = ground (arith, order_of i.upper other.upper v)

  pub has-empty_interval : (v : T) → has empty_interval v ≡ false
  unfolding empty_interval
  has-empty_interval v = ground (arith, asymm s.default_value v)

  has-overlap : (i other : Interval T) (v : T) → has (overlap i other) v ≡ (has i v && has other v)
  has-overlap i other v =
      ap₂ ◌&&◌ (overlap-above_lower i other v) (overlap-below_upper i other v)
      ∙ and_regroup (above_lower i v) (above_lower other v) (below_upper i v) (below_upper other v)

  -- `intersection` has exactly the common points, also where it returns the empty interval.
  pub has-intersection :
      (i other : Interval T) (v : T) → has (intersection i other) v ≡ (has i v && has other v)
  unfolding intersection
  has-intersection i other v = elim (Bool-cases (intersects i other)) [
    | inl e ↦ rw e (has-overlap i other v)
    | inr e ↦ rw e (
        has-empty_interval v
        ∙ sym (not_both (has i v) (has other v) e (intersects_complete i other v)))
  ]
