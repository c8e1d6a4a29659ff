-- ===== src/CoupledModel.antt =====
-- `CoupledModel<T>` of include/cadmia/modeling/coupled.hpp: the coupling topology, and its validation.
pub mod Valid
use cadmia.Prelude.{
  Bool, true, false, not, ◌||◌, List, [], ◌∷◌, ◌++◌, Option, none, some, Text, codes, text_eq,
  contains, Result, ok, err, ◌>>=◌, ◌>>◌, throw_if, invalid_argument, is_nil, for_each,
  if◌then◌else◌,
}
use cadmia.Prelude.Maps.{find, keys, find_edge, is_some, or_throw}
use cadmia.Engine.{Translation}

-- `spec` is the type of the component specifications, `V` that of `std::any`.
pub record CoupledModel {ℓ} (T V C : Type ℓ) : Type ℓ where
  pub components : List (Text × C)
  pub influencers : List (Text × List Text)
  pub translations : List ((Text × Text) × Translation V)
  pub select : List Text → Text
  pub zero_time : T

abbrev pub self : Text
self = codes "self"

module _ {ℓ} {T V C : Type ℓ} (model : CoupledModel T V C) where
  open model use {components, influencers, translations}

  unfoldable pub has_translation : Text → Text → Bool
  has_translation src dst = is_some (find_edge src dst translations)

  -- `translation`, which throws on a missing pair.
  unfoldable pub translation : Text → Text → Result (Translation V)
  translation src dst = or_throw (find_edge src dst translations)

  -- `valid`: the component names and "self".
  abbrev pub names : List Text
  names = self ∷ keys components

  -- Rule 2, for one entry.
  check_source : Text → Text → Result (Unit {0})
  check_source dest src = throw_if (not (contains src names)) (
      invalid_argument (
        codes "CoupledModel: influencer src '"
        ++ (src ++ (codes "' of dest '" ++ (dest ++ codes "' does not exist")))))

  check_influencer : Text × List Text → Result (Unit {0})
  unfolding check_source
  check_influencer (dest, sources) = do
    throw_if (not (contains dest names)) (
        invalid_argument
          (codes "CoupledModel: influencer dest '" ++ (dest ++ codes "' does not exist")))
    for_each (check_source dest) sources

  -- Rule 3, for one name.
  check_entry : Text → Result (Unit {0})
  check_entry name = throw_if (not (is_some (find name influencers))) (
      invalid_argument (
        codes "CoupledModel: component '"
        ++ (name ++ codes "' has no influencer entry (empty set is valid but must be explicit)")))

  -- Rule 4, for one translation.
  check_endpoints : (Text × Text) × Translation V → Result (Unit {0})
  check_endpoints ((src, dest), z) = do
    throw_if (not (contains src names)) (
        invalid_argument
          (codes "CoupledModel: translation src '" ++ (src ++ codes "' does not exist")))
    throw_if (not (contains dest names)) (
        invalid_argument
          (codes "CoupledModel: translation dest '" ++ (dest ++ codes "' does not exist")))

  abbrev lists : Option (List Text) → Text → Bool
  lists none src = false
  lists (some sources) src = contains src sources

  -- Rule 5, for one translation.
  check_declared : (Text × Text) × Translation V → Result (Unit {0})
  check_declared ((src, dest), z) =
      if text_eq src self || text_eq dest self
      then ok tt
      else throw_if (not (lists (find dest influencers) src)) (
          invalid_argument (
            codes "CoupledModel: translation '"
            ++ (src ++ (codes "'->'" ++ (dest ++ codes "' has no matching influencer entry")))))

  -- Rule 6, for one influencer pair.
  check_translated : Text → Text → Result (Unit {0})
  unfolding has_translation
  check_translated dest src = throw_if (not (has_translation src dest)) (
      invalid_argument (
        codes "CoupledModel: influencer '"
        ++ (src ++ (codes "'->'" ++ (dest ++ codes "' has no translation function registered")))))

  check_pairs : Text × List Text → Result (Unit {0})
  unfolding check_translated
  check_pairs (dest, sources) = for_each (check_translated dest) sources

  unfoldable pub validate : Result (Unit {0})
  unfolding check_influencer check_entry check_endpoints check_declared check_pairs
  validate = do
    throw_if (is_nil (keys components))
        (invalid_argument (codes "CoupledModel: must have at least one component"))
    throw_if (contains self (keys components))
        (invalid_argument (codes "CoupledModel: 'self' is reserved and cannot be a component name"))
    for_each check_influencer influencers
    for_each check_entry (keys components)
    for_each check_endpoints translations
    for_each check_declared translations
    for_each check_pairs influencers

-- The constructor: the fields are moved in, then validated.
unfoldable pub make_coupled_model {ℓ} :
    {T V C : Type ℓ}
    → List (Text × C)
    → List (Text × List Text)
    → List ((Text × Text) × Translation V)
    → (List Text → Text)
    → T
    → Result (CoupledModel T V C)
unfolding validate
make_coupled_model {T} {V} {C} components influencers translations select zero_time =
    let model : CoupledModel T V C = record {
      components = components;
      influencers = influencers;
      translations = translations;
      select = select;
      zero_time = zero_time;
    } in
    do validate model; ok model
