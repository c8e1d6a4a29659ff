-- ===== src/CoupledGp/Fits.antt =====
-- The coupled model that example/coupled_gp/main.cpp builds.
use cadmia.Prelude.{refl, true, [], ◌∷◌, Text, codes, map_ok, text_eq, contains, Passes}
use cadmia.Prelude.Int.{ℤ, pos}
use cadmia.Prelude.Maps.{find, find_edge}
use cadmia.Scalar.{Scalar, Arith}
use cadmia.Scalar.Laws.{IsOrdered}
use cadmia.Interval.{Interval, interval}
use cadmia.Component.{atomic}
use cadmia.CoupledModel.{validate}
use cadmia.CoupledModel.Valid.{IsValid, validate_iff}
use cadmia.Simulator.{init}
use cadmia.Coordinator.Depth.{leaf, node}
use cadmia.Models.Generator.{generator}
use cadmia.Models.Accumulator.{state, accumulator, state_scalar}
use cadmia.Models.Counter.{passive}
use cadmia.Models.Literals.{Literals}
use cadmia.Coordinator.Wired.Known.{Answers}
use cadmia.CoupledGp.{Model, influencers, select_first, gen_to_acc}
use cadmia.CoupledGp.Select.{select_first-IsLeast}

module _ {T : Type 0} ⦃s : Scalar T⦄ ⦃m : Arith T⦄ (laws : IsOrdered T) (lit : Literals T)
    (to_int : T → ℤ) (show : T → Text) where
  -- The arguments of the constructor.
  abbrev pub program : Interval T → Model lit to_int show
  program zero_i = record {
    components =
        (
          codes "acc",
          atomic (λ t. map_ok leaf (
              init accumulator (interval (state passive (pos 0)) (state passive (pos 0)) true true)
                zero_i t)),
        )
        ∷ (
          codes "gen",
          atomic (λ t.
              map_ok node (
                init (generator lit) (interval s.default_value s.default_value true true) zero_i
                  t)),
        )
        ∷ [];
    influencers = influencers lit to_int show;
    translations = ((codes "gen", codes "acc"), gen_to_acc lit to_int show) ∷ [];
    select = select_first;
    zero_time = s.default_value;
  }

  pub program-Passes : (zero_i : Interval T) → Passes (validate (program zero_i))
  unfolding validate text_eq contains find find_edge
  program-Passes zero_i = refl

  pub program-IsValid : (zero_i : Interval T) → IsValid (program zero_i)
  program-IsValid zero_i = (validate_iff (program zero_i)).0 (program-Passes zero_i)

  pub program-Answers : (zero_i : Interval T) → Answers ((program zero_i).select)
  program-Answers zero_i n ns = (select_first-IsLeast n ns).0
