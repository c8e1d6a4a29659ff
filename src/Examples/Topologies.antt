-- ===== src/Examples/Topologies.antt =====
-- A coupled model of include/cadmia/modeling/coupled.hpp that is valid, and one that is not.
use cadmia.Prelude.{
  any, ◌&&◌, ◌≡◌, refl, ◌↔◌, err, List, [], ◌∷◌, Text, codes, Passes, text_eq, contains,
  invalid_argument,
}
use cadmia.Prelude.Int.{ℤ, pos}
use cadmia.Prelude.Maps.{find, find_edge}
use cadmia.Engine.{identity_translation}
use cadmia.CoupledModel.{CoupledModel, self, validate, make_coupled_model}
use cadmia.Coordinator.State.{targets, invert}
use cadmia.Coordinator.Influence.{invert_lem}
use cadmia.CoupledModel.Valid.{IsValid, validate_iff}

abbrev select_first : List Text → Text
select_first [] = []
select_first (n ∷ ns) = n

-- "b" listens to "a", and the environment to "b".
abbrev chain : CoupledModel ℤ ℤ ℤ
chain = record {
  components = (codes "a", pos 0) ∷ (codes "b", pos 1) ∷ [];
  influencers = (codes "a", []) ∷ (codes "b", codes "a" ∷ []) ∷ (self, codes "b" ∷ []) ∷ [];
  translations =
      ((codes "a", codes "b"), identity_translation)
      ∷ ((codes "b", self), identity_translation)
      ∷ [];
  select = select_first;
  zero_time = pos 0;
}

chain-Passes : Passes (validate chain)
unfolding validate text_eq contains find find_edge
chain-Passes = refl

validate_iff_example : Passes (validate chain) ↔ IsValid chain
validate_iff_example = validate_iff chain

-- "b" has no entry among the influencers.
no_entry :
    make_coupled_model {T = ℤ} {V = ℤ} {C = ℤ} ((codes "b", pos 1) ∷ []) [] [] select_first (pos 0)
    ≡ err (
        invalid_argument (
          codes
            "CoupledModel: component 'b' has no influencer entry (empty set is valid but must be explicit)"))
unfolding make_coupled_model validate text_eq contains find find_edge
no_entry = refl

invert_lem_example :
    contains (codes "b") (targets (codes "a") (invert chain.influencers))
    ≡ any (λ e. text_eq e.0 (codes "b") && contains (codes "a") e.1) chain.influencers
unfolding text_eq
invert_lem_example = invert_lem (codes "b") (codes "a") chain.influencers refl refl
