-- ===== src/Examples/Nested.antt =====
-- A run of a model that holds another one: the pair of accumulators, and a third that adds up what the first
-- of them puts out.
use cadmia.Prelude.{refl, [], ◌∷◌, ok, codes, text_eq, contains}
use cadmia.Prelude.Int.{ℤ, pos}
use cadmia.Prelude.Maps.{find, find_edge}
use cadmia.Scalar.Instances.{int_scalar}
use cadmia.Engine.{identity_translation}
use cadmia.Component.{atomic, coupled}
use cadmia.CoupledModel.{CoupledModel, self, validate}
use cadmia.CoupledModel.Valid.{IsValid, validate_iff}
use cadmia.Coordinator.Depth.{Spec, engine_at, start_at}
use cadmia.Coordinator.Nested.{SoundModel}
use cadmia.Coordinator.Wired.Fine.{Spares, Fine-ok}
use cadmia.RootCoordinator.{simulate, int_to_string}
use cadmia.RootCoordinator.Nested.{nested-Spares}
use cadmia.Examples.Coordinators.{Value, child, due, span, select_first, pair}
use cadmia.Examples.Routing.{AnyChild, child-IsSafe, pair-IsValid, pair-Total, select_first-Answers}

abbrev outer : CoupledModel ℤ Value (Spec child 1)
outer = record {
  components = (codes "inner", coupled pair) ∷ (codes "c", atomic (λ t. ok (due t))) ∷ [];
  influencers =
      (codes "inner", self ∷ []) ∷ (codes "c", codes "inner" ∷ []) ∷ (self, codes "c" ∷ []) ∷ [];
  translations =
      ((codes "inner", codes "c"), identity_translation)
      ∷ ((codes "c", self), identity_translation)
      ∷ ((self, codes "inner"), identity_translation)
      ∷ [];
  select = select_first;
  zero_time = pos 0;
}

outer-IsValid : IsValid outer
unfolding validate text_eq contains find find_edge
outer-IsValid = (validate_iff outer).0 refl

outer-SoundModel : SoundModel child AnyChild 1 (span (pos 0) (pos 1)) outer
unfolding identity_translation
outer-SoundModel = (
  outer-IsValid,
  ((λ y h. cc), ((λ y h. cc), ((λ y h. cc), tt))),
  select_first-Answers,
  (
    (
      pair-IsValid,
      pair-Total,
      select_first-Answers,
      (Fine-ok AnyChild _ tt, (Fine-ok AnyChild _ tt, tt)),
    ),
    (Fine-ok AnyChild _ tt, tt),
  ),
)

nested-Spares_example : Spares (
    simulate
      (engine_at child 1)
      int_to_string
      (start_at child 1)
      outer
      (span (pos 0) (pos 1))
      (pos 10_000)
      (pos 1000))
nested-Spares_example =
    nested-Spares child AnyChild 1 int_to_string (pos 10_000) (pos 1000) outer
      (span (pos 0) (pos 1)) child-IsSafe (λ e. refl) outer-SoundModel
