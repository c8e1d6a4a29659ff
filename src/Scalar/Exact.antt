-- ===== src/Scalar/Exact.antt =====
-- What the interval operators rely on from the arithmetic of `T`: its values stand beside exact numbers
-- `R`, and a sum or difference that is rounded outward lies on its side of the exact one. For `double`
-- these are the guarantees of IEEE 754 for directed rounding; for integers the operations are exact.
use cadmia.Prelude.{◌≡◌, Bool, true, false, if◌then◌else◌}
use cadmia.Scalar.{Scalar, Arith, Rounding, downward, upward, to_nearest}

-- `over a r` is a < r and `under r a` is r < a, for a value `a` and an exact number `r`. An infinite
-- value is over, or under, every number.
pub record Exact {ℓ κ} (T : Type ℓ) (R : Type κ) : Type (ℓ ⊔ κ) where
  pub over : T → R → Bool
  pub under : R → T → Bool
  pub sum : R → R → R
  pub difference : R → R → R

-- Under `if constexpr (std::floating_point<T>)` an endpoint is rounded outward.
abbrev pub outward : Bool → Rounding → Rounding
outward is_floating r = if is_floating then r else to_nearest

module _ {ℓ} {T : Type ℓ} ⦃m : Arith T⦄ where
  abbrev pub plus_low : T → T → T
  plus_low = m.plus (outward m.is_floating downward)

  abbrev pub plus_high : T → T → T
  plus_high = m.plus (outward m.is_floating upward)

  abbrev pub minus_low : T → T → T
  minus_low = m.minus (outward m.is_floating downward)

  abbrev pub minus_high : T → T → T
  minus_high = m.minus (outward m.is_floating upward)

-- `_le` is for two bounds that may be met, `_lt_left` and `_lt_right` for a strict one on one side.
pub record RoundsOutward {ℓ κ} (T : Type ℓ) (R : Type κ) ⦃s : Scalar T⦄ ⦃m : Arith T⦄
    ⦃e : Exact T R⦄ : Type (ℓ ⊔ κ) where
  pub over_under : (a : T) (r : R) → e.over a r ≡ true → e.under r a ≡ false
  pub over_of_le : (a b : T) (r : R) → s.less b a ≡ false → e.over b r ≡ true → e.over a r ≡ true
  pub under_of_le : (a b : T) (r : R) → s.less b a ≡ false → e.under r a ≡ true → e.under r b ≡ true
  pub over_of_lt : (a b : T) (r : R) → s.less a b ≡ true → e.under r b ≡ false → e.over a r ≡ true
  pub plus_low_le :
      (a b : T) (x y : R)
      → e.under x a ≡ false
      → e.under y b ≡ false
      → e.under (e.sum x y) (plus_low a b) ≡ false
  pub plus_low_lt_left :
      (a b : T) (x y : R)
      → e.over a x ≡ true
      → e.under y b ≡ false
      → e.over (plus_low a b) (e.sum x y) ≡ true
  pub plus_low_lt_right :
      (a b : T) (x y : R)
      → e.under x a ≡ false
      → e.over b y ≡ true
      → e.over (plus_low a b) (e.sum x y) ≡ true
  pub plus_high_le :
      (a b : T) (x y : R)
      → e.over a x ≡ false
      → e.over b y ≡ false
      → e.over (plus_high a b) (e.sum x y) ≡ false
  pub plus_high_lt_left :
      (a b : T) (x y : R)
      → e.under x a ≡ true
      → e.over b y ≡ false
      → e.under (e.sum x y) (plus_high a b) ≡ true
  pub plus_high_lt_right :
      (a b : T) (x y : R)
      → e.over a x ≡ false
      → e.under y b ≡ true
      → e.under (e.sum x y) (plus_high a b) ≡ true
  pub minus_low_le :
      (a b : T) (x y : R)
      → e.under x a ≡ false
      → e.over b y ≡ false
      → e.under (e.difference x y) (minus_low a b) ≡ false
  pub minus_low_lt_left :
      (a b : T) (x y : R)
      → e.over a x ≡ true
      → e.over b y ≡ false
      → e.over (minus_low a b) (e.difference x y) ≡ true
  pub minus_low_lt_right :
      (a b : T) (x y : R)
      → e.under x a ≡ false
      → e.under y b ≡ true
      → e.over (minus_low a b) (e.difference x y) ≡ true
  pub minus_high_le :
      (a b : T) (x y : R)
      → e.over a x ≡ false
      → e.under y b ≡ false
      → e.over (minus_high a b) (e.difference x y) ≡ false
  pub minus_high_lt_left :
      (a b : T) (x y : R)
      → e.under x a ≡ true
      → e.under y b ≡ false
      → e.under (e.difference x y) (minus_high a b) ≡ true
  pub minus_high_lt_right :
      (a b : T) (x y : R)
      → e.over a x ≡ false
      → e.over b y ≡ true
      → e.under (e.difference x y) (minus_high a b) ≡ true
