-- ===== src/Interval.antt =====
-- `interval<T>` of include/cadmia/modeling/interval.hpp: endpoints with closure flags.
pub mod Membership
pub mod Rounding
pub mod Beyond
pub mod Within
pub mod Factories
use cadmia.Prelude.{
  ◌≡◌, Bool, true, false, not, ◌&&◌, ◌||◌, if◌then◌else◌, same, Text, codes, ◌++◌, Result, ok, err,
  invalid_argument,
}
use cadmia.Scalar.{Scalar, Arith}
use cadmia.Scalar.Exact.{plus_low, plus_high, minus_low, minus_high}

pub record Interval {ℓ} (T : Type ℓ) : Type ℓ where
  pub lower : T
  pub upper : T
  pub lower_closed : Bool
  pub upper_closed : Bool

-- The constructor `interval(lo, hi, lc, uc)`, which checks nothing.
abbrev pub interval {ℓ} : {T : Type ℓ} → T → T → Bool → Bool → Interval T
interval lo hi lc uc = record { lower = lo; upper = hi; lower_closed = lc; upper_closed = uc }

module _ {ℓ} {T : Type ℓ} ⦃s : Scalar T⦄ where
  open s use {less, equal, default_value, has_infinity, infinity, neg_infinity}

  abbrev pub endpoint_less : T → T → Bool
  endpoint_less a b = less a b

  abbrev pub endpoint_equal : T → T → Bool
  endpoint_equal a b = not (less a b) && not (less b a)

  checked : Text → T → T → Bool → Bool → Result (Interval T)
  checked message lo hi lc uc =
      if less hi lo then err (invalid_argument message) else ok (interval lo hi lc uc)

  unfoldable pub closed : T → T → Result (Interval T)
  unfolding checked
  closed lo hi = checked (codes "interval.closed: hi < lo") lo hi true true

  unfoldable pub right_open : T → T → Result (Interval T)
  unfolding checked
  right_open lo hi = checked (codes "interval.right_open: hi < lo") lo hi true false

  unfoldable pub left_open : T → T → Result (Interval T)
  unfolding checked
  left_open lo hi = checked (codes "interval.left_open: hi < lo") lo hi false true

  -- `interval::open`; the word is reserved here.
  unfoldable pub open_interval : T → T → Result (Interval T)
  unfolding checked
  open_interval lo hi = checked (codes "interval.open: hi < lo") lo hi false false

  -- `open(T{}, T{})`, whose check passes since `<` is irreflexive.
  unfoldable pub empty_interval : Interval T
  empty_interval = interval default_value default_value false false

  unfoldable pub is_lower_infinite : Interval T → Bool
  is_lower_infinite i = if has_infinity then equal i.lower neg_infinity else false

  unfoldable pub is_upper_infinite : Interval T → Bool
  is_upper_infinite i = if has_infinity then equal i.upper infinity else false

  unfoldable pub is_empty : Interval T → Bool
  unfolding is_lower_infinite is_upper_infinite
  is_empty i =
      if i.lower_closed && i.upper_closed
      then false
      else if is_lower_infinite i || is_upper_infinite i
      then false
      else not (less i.lower i.upper)

  unfoldable pub is_punctual : Interval T → Bool
  unfolding is_lower_infinite is_upper_infinite
  is_punctual i =
      i.lower_closed
      && i.upper_closed
      && not (is_lower_infinite i)
      && not (is_upper_infinite i)
      && equal i.lower i.upper

  unfoldable pub lower_within : Interval T → Interval T → Bool
  lower_within i other =
      if less other.lower i.lower
      then true
      else if endpoint_equal other.lower i.lower
      then not (i.lower_closed && not other.lower_closed)
      else false

  unfoldable pub upper_within : Interval T → Interval T → Bool
  upper_within i other =
      if less i.upper other.upper
      then true
      else if endpoint_equal i.upper other.upper
      then not (i.upper_closed && not other.upper_closed)
      else false

  unfoldable pub is_subset_of : Interval T → Interval T → Bool
  unfolding lower_within upper_within
  is_subset_of i other =
      if is_empty i
      then true
      else if is_empty other
      then false
      else if not (lower_within i other)
      then false
      else upper_within i other

  -- `this_before`, and `other_before` with the two exchanged.
  unfoldable pub before : Interval T → Interval T → Bool
  before i other =
      less i.upper other.lower
      || endpoint_equal i.upper other.lower && not (i.upper_closed && other.lower_closed)

  unfoldable pub intersects : Interval T → Interval T → Bool
  unfolding before
  intersects i other =
      if is_empty i || is_empty other then false else not (before i other || before other i)

  unfoldable pub overlap : Interval T → Interval T → Interval T
  overlap i other = record {
    lower =
        if less i.lower other.lower
        then other.lower
        else if less other.lower i.lower
        then i.lower
        else i.lower;
    upper =
        if less i.upper other.upper
        then i.upper
        else if less other.upper i.upper
        then other.upper
        else i.upper;
    lower_closed =
        if less i.lower other.lower
        then other.lower_closed
        else if less other.lower i.lower
        then i.lower_closed
        else i.lower_closed && other.lower_closed;
    upper_closed =
        if less i.upper other.upper
        then i.upper_closed
        else if less other.upper i.upper
        then other.upper_closed
        else i.upper_closed && other.upper_closed;
  }

  unfoldable pub intersection : Interval T → Interval T → Interval T
  unfolding overlap
  intersection i other = if not (intersects i other) then empty_interval else overlap i other

  -- `operator==`: the same endpoints and closure flags.
  unfoldable pub equals : Interval T → Interval T → Bool
  equals a b =
      endpoint_equal a.lower b.lower
      && endpoint_equal a.upper b.upper
      && same a.lower_closed b.lower_closed
      && same a.upper_closed b.upper_closed

  -- `operator<<`, over `operator<<` of the endpoints.
  unfoldable pub print : (T → Text) → Interval T → Text
  unfolding is_lower_infinite is_upper_infinite
  print show i =
      codes (if i.lower_closed then "[" else "(")
      ++ ((if is_lower_infinite i then codes "-inf" else show i.lower)
          ++ (codes ", "
              ++ ((if is_upper_infinite i then codes "+inf" else show i.upper)
                  ++ codes (if i.upper_closed then "]" else ")"))))

module _ {ℓ} {T : Type ℓ} ⦃s : Scalar T⦄ ⦃m : Arith T⦄ where
  open s use {less}

  -- `operator+`.
  unfoldable pub add : Interval T → Interval T → Interval T
  add a b =
      let lo = plus_low a.lower b.lower in
      let hi = plus_high a.upper b.upper in
      if is_empty a || is_empty b
      then empty_interval
      else if less hi lo
      then empty_interval
      else interval lo hi (a.lower_closed && b.lower_closed) (a.upper_closed && b.upper_closed)

  -- `operator-`.
  unfoldable pub subtract : Interval T → Interval T → Interval T
  subtract l e =
      let lo = minus_low l.lower e.upper in
      let hi = minus_high l.upper e.lower in
      if is_empty l || is_empty e
      then empty_interval
      else if less hi lo
      then empty_interval
      else interval lo hi (l.lower_closed && e.upper_closed) (l.upper_closed && e.lower_closed)
