-- ===== src/Examples/Programs.antt =====
-- Runs of example/coupled_gp/main.cpp, on integer times in thousandths.
use cadmia.Prelude.{
  ◌≡◌, ◌≢◌, none, refl, false, true, ltb, if◌then◌else◌, err, bad_any_cast, [], ◌∷◌, ok, codes,
  contains, All,
}
use cadmia.Prelude.Int.{ℤ, pos, negsuc}
use cadmia.Scalar.Instances.{int_scalar, int_arith, ℤ-IsOrdered}
use cadmia.Interval.{Interval, interval}
use cadmia.Engine.{make_translation}
use cadmia.Models.Literals.{Literals}
use cadmia.RootCoordinator.{int_to_string}
use cadmia.CoupledGp.{counts, text_less, select_first, gen_to_acc, run}
use cadmia.CoupledGp.Select.{select_first-IsLeast}
use cadmia.CoupledGp.Runs.{run_ends}
use cadmia.Coordinator.Wired.Fine.{Spares}

abbrev thousandths : Literals ℤ
thousandths = record {
  short_period = pos 997;
  long_period = pos 1005;
  low_output = pos 1997;
  high_output = pos 2003;
  processing_time = pos 250;
}

abbrev whole : ℤ → ℤ
whole (pos n) = if ltb n 1000 then pos 0 else if ltb n 2000 then pos 1 else pos 2
whole (negsuc n) = pos 0

abbrev tick : Interval ℤ
tick = interval (pos 1997) (pos 2003) true true

-- A total where the generator's output is expected.
wrong_type :
    gen_to_acc thousandths whole int_to_string (counts (interval (pos 1) (pos 2) true true))
    ≡ err bad_any_cast
unfolding gen_to_acc make_translation
wrong_type = refl

select_first-IsLeast_example :
    (contains (select_first (codes "gen" ∷ codes "acc" ∷ [])) (codes "gen" ∷ codes "acc" ∷ [])
      ≡ true)
    × All
        (λ k. text_less k (select_first (codes "gen" ∷ codes "acc" ∷ [])) ≡ false)
        (codes "gen" ∷ codes "acc" ∷ [])
select_first-IsLeast_example = select_first-IsLeast (codes "gen") (codes "acc" ∷ [])

abbrev zero_i : Interval ℤ
zero_i = interval (pos 0) (pos 0) true true

run_ends_example :
    Spares (run thousandths whole int_to_string) × (run thousandths whole int_to_string ≢ ok none)
run_ends_example = run_ends thousandths whole int_to_string ℤ-IsOrdered
