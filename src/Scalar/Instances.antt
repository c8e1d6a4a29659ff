-- ===== src/Scalar/Instances.antt =====
-- Concrete endpoints for runs: `int`, and integers with both infinities in the place of `double`, whose
-- operations are exact (its NaN cases, such as +inf - +inf, are left out of every run).
use cadmia.Prelude.{Bool, true, false, not, ◌&&◌, arith}
use cadmia.Prelude.Int.{ℤ, pos, ltb_ℤ, ◌+ℤ◌, ◌-ℤ◌}
use cadmia.Scalar.{Scalar, Arith}
use cadmia.Scalar.Laws.{IsOrdered}
use cadmia.Scalar.Exact.{Exact, RoundsOutward}

abbrev pub equal_ℤ : ℤ → ℤ → Bool
equal_ℤ a b = not (ltb_ℤ a b) && not (ltb_ℤ b a)

-- `int`: no infinity, so the two sentinels are never read.
instance abbrev pub int_scalar : Scalar ℤ
int_scalar = record {
  less = ltb_ℤ;
  equal = equal_ℤ;
  default_value = pos 0;
  has_infinity = false;
  infinity = pos 0;
  neg_infinity = pos 0;
}

pub ℤ-IsOrdered : IsOrdered ℤ
ℤ-IsOrdered = record {
  irrefl = λ a. ground arith;
  asymm = λ a b h. ground arith;
  neg_trans = λ a b c h k. ground arith;
  equal-eq = λ a b. ground arith;
  infinity_greatest = λ a h. ground arith;
  neg_infinity_least = λ a h. ground arith;
}

instance abbrev pub int_arith : Arith ℤ
int_arith = record { is_floating = false; plus = λ r. ◌+ℤ◌; minus = λ r. ◌-ℤ◌ }

instance abbrev pub int_exact : Exact ℤ ℤ
int_exact = record { over = ltb_ℤ; under = ltb_ℤ; sum = ◌+ℤ◌; difference = ◌-ℤ◌ }

pub ℤ-RoundsOutward : RoundsOutward ℤ ℤ
unfolding ◌+ℤ◌ ◌-ℤ◌
ℤ-RoundsOutward = record {
  over_under = λ a r h. ground arith;
  over_of_le = λ a b r h k. ground arith;
  under_of_le = λ a b r h k. ground arith;
  over_of_lt = λ a b r h k. ground arith;
  plus_low_le = λ a b x y h k. ground arith;
  plus_low_lt_left = λ a b x y h k. ground arith;
  plus_low_lt_right = λ a b x y h k. ground arith;
  plus_high_le = λ a b x y h k. ground arith;
  plus_high_lt_left = λ a b x y h k. ground arith;
  plus_high_lt_right = λ a b x y h k. ground arith;
  minus_low_le = λ a b x y h k. ground arith;
  minus_low_lt_left = λ a b x y h k. ground arith;
  minus_low_lt_right = λ a b x y h k. ground arith;
  minus_high_le = λ a b x y h k. ground arith;
  minus_high_lt_left = λ a b x y h k. ground arith;
  minus_high_lt_right = λ a b x y h k. ground arith;
}

pub data Extended : Type 0 where
  minus_inf plus_inf : Extended
  fin : ℤ → Extended

abbrev pub ext_less : Extended → Extended → Bool
ext_less minus_inf minus_inf = false
ext_less minus_inf b = true
ext_less plus_inf b = false
ext_less (fin a) minus_inf = false
ext_less (fin a) plus_inf = true
ext_less (fin a) (fin b) = ltb_ℤ a b

instance abbrev pub extended_scalar : Scalar Extended
extended_scalar = record {
  less = ext_less;
  equal = λ a b. not (ext_less a b) && not (ext_less b a);
  default_value = fin (pos 0);
  has_infinity = true;
  infinity = plus_inf;
  neg_infinity = minus_inf;
}

pub Extended-IsOrdered : IsOrdered Extended
Extended-IsOrdered = record {
  irrefl = λ a. ground arith;
  asymm = λ a b h. ground arith;
  neg_trans = λ a b c h k. ground arith;
  equal-eq = λ a b. ground arith;
  infinity_greatest = λ a h. ground arith;
  neg_infinity_least = λ a h. ground arith;
}

abbrev pub ext_plus : Extended → Extended → Extended
ext_plus minus_inf b = minus_inf
ext_plus plus_inf b = plus_inf
ext_plus (fin a) minus_inf = minus_inf
ext_plus (fin a) plus_inf = plus_inf
ext_plus (fin a) (fin b) = fin (a +ℤ b)

abbrev pub ext_minus : Extended → Extended → Extended
ext_minus minus_inf b = minus_inf
ext_minus plus_inf b = plus_inf
ext_minus (fin a) minus_inf = plus_inf
ext_minus (fin a) plus_inf = minus_inf
ext_minus (fin a) (fin b) = fin (a -ℤ b)

instance abbrev pub extended_arith : Arith Extended
extended_arith = record { is_floating = false; plus = λ r. ext_plus; minus = λ r. ext_minus }

instance abbrev pub extended_exact : Exact Extended ℤ
extended_exact = record {
  over = λ a r. ext_less a (fin r);
  under = λ r a. ext_less (fin r) a;
  sum = ◌+ℤ◌;
  difference = ◌-ℤ◌;
}

pub Extended-RoundsOutward : RoundsOutward Extended ℤ
unfolding ◌+ℤ◌ ◌-ℤ◌
Extended-RoundsOutward = record {
  over_under = λ a r h. ground arith;
  over_of_le = λ a b r h k. ground arith;
  under_of_le = λ a b r h k. ground arith;
  over_of_lt = λ a b r h k. ground arith;
  plus_low_le = λ a b x y h k. ground arith;
  plus_low_lt_left = λ a b x y h k. ground arith;
  plus_low_lt_right = λ a b x y h k. ground arith;
  plus_high_le = λ a b x y h k. ground arith;
  plus_high_lt_left = λ a b x y h k. ground arith;
  plus_high_lt_right = λ a b x y h k. ground arith;
  minus_low_le = λ a b x y h k. ground arith;
  minus_low_lt_left = λ a b x y h k. ground arith;
  minus_low_lt_right = λ a b x y h k. ground arith;
  minus_high_le = λ a b x y h k. ground arith;
  minus_high_lt_left = λ a b x y h k. ground arith;
  minus_high_lt_right = λ a b x y h k. ground arith;
}
