-- ===== src/Scalar.antt =====
-- What include/cadmia/modeling/interval.hpp asks of its endpoint type: `interval_scalar`, the part of
-- `std::numeric_limits` that it reads, and the arithmetic of the two operators. The numbers are
-- parameters: `double` is one instance, `int` another.
pub mod Laws
pub mod Exact
pub mod Instances
use cadmia.Prelude.{Bool}

-- `interval_scalar`: `operator<`, `operator==`, `T{}`, and `numeric_limits<T>`.
pub record Scalar {ℓ} (T : Type ℓ) : Type ℓ where
  pub less : T → T → Bool
  pub equal : T → T → Bool
  pub default_value : T
  pub has_infinity : Bool
  pub infinity : T
  pub neg_infinity : T

-- The rounding mode that `std::fesetround` leaves in force.
pub data Rounding : Type 0 where
  downward upward to_nearest : Rounding

-- `a + b` and `a - b` under a rounding mode; `is_floating` is `std::floating_point<T>`.
pub record Arith {ℓ} (T : Type ℓ) : Type ℓ where
  pub is_floating : Bool
  pub plus : Rounding → T → T → T
  pub minus : Rounding → T → T → T
