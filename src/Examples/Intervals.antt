-- ===== src/Examples/Intervals.antt =====
-- Runs of include/cadmia/modeling/interval.hpp over the integers and the extended integers.
use cadmia.Prelude.{◌≡◌, refl, true, false, ◌&&◌}
use cadmia.Prelude.Int.{ℤ, pos, negsuc, ◌+ℤ◌, ◌-ℤ◌}
use cadmia.Scalar.Instances.{
  int_scalar, ℤ-IsOrdered, int_arith, int_exact, Extended, fin, minus_inf, extended_scalar,
  extended_arith, extended_exact, Extended-RoundsOutward,
}
use cadmia.Interval.{Interval, interval, is_empty, intersection, add, subtract}
use cadmia.Interval.Membership.{has, has-intersection}
use cadmia.Interval.Rounding.{encloses, add_sound, subtract_sound}

abbrev two_five : Interval ℤ
two_five = interval (pos 2) (pos 5) true false

abbrev three_nine : Interval ℤ
three_nine = interval (pos 3) (pos 9) false true

closed_refuses : is_empty two_five ≡ false
unfolding is_empty
closed_refuses = refl

has-intersection_example :
    has (intersection two_five three_nine) (pos 4)
    ≡ (has two_five (pos 4) && has three_nine (pos 4))
has-intersection_example = has-intersection ℤ-IsOrdered two_five three_nine (pos 4)

-- (-inf, 10) and [2, 3], as in the unit tests.
abbrev below_ten : Interval Extended
below_ten = interval minus_inf (fin (pos 10)) false false

abbrev two_three : Interval Extended
two_three = interval (fin (pos 2)) (fin (pos 3)) true true

sum_runs : add below_ten two_three ≡ interval minus_inf (fin (pos 13)) false false
unfolding add is_empty ◌+ℤ◌
sum_runs = refl

add_sound_example : encloses (add below_ten two_three) (negsuc 4 +ℤ pos 3) ≡ true
add_sound_example =
    add_sound Extended-RoundsOutward below_ten two_three (negsuc 4) (pos 3) refl refl

subtract_sound_example : encloses (subtract two_three below_ten) (pos 3 -ℤ negsuc 4) ≡ true
subtract_sound_example =
    subtract_sound Extended-RoundsOutward two_three below_ten (pos 3) (negsuc 4) refl refl
