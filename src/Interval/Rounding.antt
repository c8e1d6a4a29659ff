-- ===== src/Interval/Rounding.antt =====
-- `operator+` and `operator-` of interval.hpp against the exact sums and differences.
use cadmia.Prelude.{◌≡◌, Bool, true, false, not, ◌&&◌, if◌then◌else◌, arith, and-true_iff}
use cadmia.Scalar.{Scalar, Arith}
use cadmia.Scalar.Exact.{Exact, RoundsOutward, plus_low, plus_high, minus_low, minus_high}
use cadmia.Interval.{Interval, interval, is_empty, add, subtract}

module _ {ℓ κ} {T : Type ℓ} {R : Type κ} ⦃e : Exact T R⦄ where
  abbrev pub exact_above : Interval T → R → Bool
  exact_above i r = if i.lower_closed then not (e.under r i.lower) else e.over i.lower r

  abbrev pub exact_below : Interval T → R → Bool
  exact_below i r = if i.upper_closed then not (e.over i.upper r) else e.under r i.upper

  -- The exact number `r` lies in `i`.
  abbrev pub encloses : Interval T → R → Bool
  encloses i r = exact_above i r && exact_below i r

module _ {ℓ κ} {T : Type ℓ} {R : Type κ} ⦃s : Scalar T⦄ ⦃m : Arith T⦄ ⦃e : Exact T R⦄
    (laws : RoundsOutward T R) where
  open laws use {
    over_under, over_of_le, under_of_le, over_of_lt, plus_low_le, plus_low_lt_left,
    plus_low_lt_right, plus_high_le, plus_high_lt_left, plus_high_lt_right, minus_low_le,
    minus_low_lt_left, minus_low_lt_right, minus_high_le, minus_high_lt_left, minus_high_lt_right,
  }

  -- An interval that `is_empty` reports encloses no number.
  is_empty-encloses : (i : Interval T) (r : R) → encloses i r ≡ true → is_empty i ≡ false
  unfolding is_empty
  is_empty-encloses i r h = ground (
    arith,
    over_under i.lower r,
    over_under i.upper r,
    over_of_le i.upper i.lower r,
    under_of_le i.upper i.lower r,
  )

  -- Endpoints that enclose a number are in order, whatever their flags.
  encloses-in_order :
      (i : Interval T) (r : R) → encloses i r ≡ true → s.less i.upper i.lower ≡ false
  encloses-in_order i r h =
      ground (arith, over_of_lt i.upper i.lower r, over_under i.lower r, over_under i.upper r)

  -- The endpoints of `operator+`, before its two checks.
  abbrev sum_bounds : Interval T → Interval T → Interval T
  sum_bounds a b =
      interval (plus_low a.lower b.lower) (plus_high a.upper b.upper)
        (a.lower_closed && b.lower_closed) (a.upper_closed && b.upper_closed)

  sum_bounds-above :
      (a b : Interval T) (x y : R)
      → exact_above a x ≡ true
      → exact_above b y ≡ true
      → exact_above (sum_bounds a b) (e.sum x y) ≡ true
  sum_bounds-above a b x y h k = ground (
    arith,
    over_under a.lower x,
    over_under b.lower y,
    plus_low_le a.lower b.lower x y,
    plus_low_lt_left a.lower b.lower x y,
    plus_low_lt_right a.lower b.lower x y,
  )

  sum_bounds-below :
      (a b : Interval T) (x y : R)
      → exact_below a x ≡ true
      → exact_below b y ≡ true
      → exact_below (sum_bounds a b) (e.sum x y) ≡ true
  sum_bounds-below a b x y h k = ground (
    arith,
    over_under a.upper x,
    over_under b.upper y,
    plus_high_le a.upper b.upper x y,
    plus_high_lt_left a.upper b.upper x y,
    plus_high_lt_right a.upper b.upper x y,
  )

  -- The endpoints of `operator-`, before its two checks.
  abbrev pub difference_bounds : Interval T → Interval T → Interval T
  difference_bounds a b =
      interval (minus_low a.lower b.upper) (minus_high a.upper b.lower)
        (a.lower_closed && b.upper_closed) (a.upper_closed && b.lower_closed)

  pub difference_bounds-above :
      (a b : Interval T) (x y : R)
      → exact_above a x ≡ true
      → exact_below b y ≡ true
      → exact_above (difference_bounds a b) (e.difference x y) ≡ true
  difference_bounds-above a b x y h k = ground (
    arith,
    over_under a.lower x,
    over_under b.upper y,
    minus_low_le a.lower b.upper x y,
    minus_low_lt_left a.lower b.upper x y,
    minus_low_lt_right a.lower b.upper x y,
  )

  pub difference_bounds-below :
      (a b : Interval T) (x y : R)
      → exact_below a x ≡ true
      → exact_above b y ≡ true
      → exact_below (difference_bounds a b) (e.difference x y) ≡ true
  difference_bounds-below a b x y h k = ground (
    arith,
    over_under a.upper x,
    over_under b.lower y,
    minus_high_le a.upper b.lower x y,
    minus_high_lt_left a.upper b.lower x y,
    minus_high_lt_right a.upper b.lower x y,
  )

  sum_bounds-encloses :
      (a b : Interval T) (x y : R)
      → encloses a x ≡ true
      → encloses b y ≡ true
      → encloses (sum_bounds a b) (e.sum x y) ≡ true
  sum_bounds-encloses a b x y h k =
      let (a_low, a_high) = (and-true_iff (exact_above a x) (exact_below a x)).0 h in
      let (b_low, b_high) = (and-true_iff (exact_above b y) (exact_below b y)).0 k in
      (and-true_iff _ _).1
        (sum_bounds-above a b x y a_low b_low, sum_bounds-below a b x y a_high b_high)

  difference_bounds-encloses :
      (a b : Interval T) (x y : R)
      → encloses a x ≡ true
      → encloses b y ≡ true
      → encloses (difference_bounds a b) (e.difference x y) ≡ true
  difference_bounds-encloses a b x y h k =
      let (a_low, a_high) = (and-true_iff (exact_above a x) (exact_below a x)).0 h in
      let (b_low, b_high) = (and-true_iff (exact_above b y) (exact_below b y)).0 k in
      (and-true_iff _ _).1
        (difference_bounds-above a b x y a_low b_high, difference_bounds-below a b x y a_high b_low)

  -- With endpoint arithmetic that rounds outward, the exact sum of two enclosed numbers is
  -- enclosed by the sum of the intervals.
  pub add_sound :
      (a b : Interval T) (x y : R)
      → encloses a x ≡ true
      → encloses b y ≡ true
      → encloses (add a b) (e.sum x y) ≡ true
  unfolding add
  add_sound a b x y h k =
      let inside = sum_bounds-encloses a b x y h k in
      rw
        (
          is_empty-encloses a x h,
          is_empty-encloses b y k,
          encloses-in_order (sum_bounds a b) (e.sum x y) inside,
        )
        inside

  -- With endpoint arithmetic that rounds outward, the exact difference of two enclosed numbers is
  -- enclosed by the difference of the intervals.
  pub subtract_sound :
      (a b : Interval T) (x y : R)
      → encloses a x ≡ true
      → encloses b y ≡ true
      → encloses (subtract a b) (e.difference x y) ≡ true
  unfolding subtract
  subtract_sound a b x y h k =
      let inside = difference_bounds-encloses a b x y h k in
      rw
        (
          is_empty-encloses a x h,
          is_empty-encloses b y k,
          encloses-in_order (difference_bounds a b) (e.difference x y) inside,
        )
        inside
