-- ===== src/CoupledModel/Valid.antt =====
-- What `CoupledModel::validate` accepts, as statements about the topology.
use mathlib.Core.Option.{some-injective}
use cadmia.Prelude.{
  subst, sym, ◌≡◌, refl, ◌≢◌, ◌↔◌, ◌⊎◌, inl, inr, true, false, not, List, [], ◌∷◌, none, some, Text,
  text_eq_iff, contains, throw_if, arith, All, Any, Passes, then_iff, Passes-throw_if, throw_if_iff,
  for_each, for_each_iff, is_nil, Option-cases,
}
use cadmia.Prelude.Maps.{
  find, keys, is_some, HasEdge, find_edge_iff, HasKey-find, Listed, contains_iff,
}
use cadmia.Engine.{Translation}
use cadmia.CoupledModel.{
  CoupledModel, self, names, has_translation, check_source, check_influencer, check_entry,
  check_endpoints, lists, check_declared, check_translated, check_pairs, validate,
}

not_some {ℓ} : {A : Type ℓ} {a : A} → none ≡ some a → ⊥
not_some h = cc

module _ {ℓ} {T V C : Type ℓ} (model : CoupledModel T V C) where
  open model use {components, influencers, translations}

  abbrev pub Influences : Text → Text → Type 0
  Influences src dest =
      (sources : List Text) × (find dest influencers ≡ some sources) × Listed src sources

  -- The seven rules.
  pub record IsValid : Type ℓ where
    pub populated : components ≢ []
    pub self_reserved : ¬ Listed self (keys components)
    pub influencers_known :
        All (λ e. Listed e.0 (names model) × All (λ src. Listed src (names model)) e.1) influencers
    pub entries : All (λ name. Any (λ e. e.0 ≡ name) influencers) (keys components)
    pub endpoints : All (λ e. Listed e.0.0 (names model) × Listed e.0.1 (names model)) translations
    pub declared : All (λ e. (e.0.0 ≡ self) ⊎ (e.0.1 ≡ self) ⊎ Influences e.0.0 e.0.1) translations
    pub translated : All (λ e. All (λ src. HasEdge src e.0 translations) e.1) influencers

  names_iff :
      (k : Text) (e : _)
      → Passes (throw_if (not (contains k (names model))) e) ↔ Listed k (names model)
  names_iff k e =
      ground (arith, contains_iff k (names model), throw_if_iff (not (contains k (names model))) e)

  check_influencer_iff :
      (e : Text × List Text)
      → Passes (check_influencer model e)
        ↔ (Listed e.0 (names model) × All (λ src. Listed src (names model)) e.1)
  unfolding check_influencer
  check_influencer_iff (dest, sources) =
      then_iff _ (for_each (check_source model dest) sources) (names_iff dest _) (
        for_each_iff (check_source model dest) (λ src. Listed src (names model))
          (λ src. names_iff src _) sources)

  check_entry_iff :
      (name : Text) → Passes (check_entry model name) ↔ Any (λ e. e.0 ≡ name) influencers
  unfolding check_entry
  check_entry_iff name =
      ground (
        arith,
        HasKey-find name influencers,
        throw_if_iff (not (is_some (find name influencers))) _,
      )

  check_endpoints_iff :
      (e : (Text × Text) × Translation V)
      → Passes (check_endpoints model e) ↔ (Listed e.0.0 (names model) × Listed e.0.1 (names model))
  unfolding check_endpoints
  check_endpoints_iff ((src, dest), z) = then_iff _ _ (names_iff src _) (names_iff dest _)

  lists_iff :
      (src dest : Text) → (lists model (find dest influencers) src ≡ true) ↔ Influences src dest
  lists_iff src dest = elim (Option-cases (find dest influencers)) [
    | inl e ↦ rw e (λ h. absurd cc, λ h. absurd (not_some h.1))
    | inr (sources, e) ↦ rw e (
      λ h. (sources, refl, (contains_iff src sources).0 h),
      λ h. (contains_iff src sources).1 (subst (Listed src) (sym (some-injective _ _ h.1)) h.2),
    )
  ]

  check_declared_iff :
      (e : (Text × Text) × Translation V)
      → Passes (check_declared model e) ↔ ((e.0.0 ≡ self) ⊎ (e.0.1 ≡ self) ⊎ Influences e.0.0 e.0.1)
  unfolding check_declared
  check_declared_iff ((src, dest), z) = ground (
    arith,
    text_eq_iff src self,
    text_eq_iff dest self,
    lists_iff src dest,
    throw_if_iff (not (lists model (find dest influencers) src)) _,
  )

  check_pairs_iff :
      (e : Text × List Text)
      → Passes (check_pairs model e) ↔ All (λ src. HasEdge src e.0 translations) e.1
  unfolding check_pairs
  check_pairs_iff (dest, sources) =
      for_each_iff (check_translated model dest) (λ src. HasEdge src dest translations)
        (λ src. ground (
          arith,
          find_edge_iff src dest translations,
          throw_if_iff (not (has_translation model src dest)) _,
        ))
        sources

  populated_iff : (cs : List (Text × C)) → (is_nil (keys cs) ≡ false) ↔ (cs ≢ [])
  populated_iff [] = (λ h. absurd cc, λ h. absurd (h refl))
  populated_iff (c ∷ cs) = (λ h k. cc, λ h. refl)

  reserved_iff : (xs : List Text) → (contains self xs ≡ false) ↔ (¬ Listed self xs)
  reserved_iff xs = ground (arith, contains_iff self xs)

  -- The constructor's validation passes exactly on the topologies that keep the seven rules.
  pub validate_iff : Passes (validate model) ↔ IsValid
  unfolding validate
  validate_iff =
      let rules = then_iff _ _ (Passes-throw_if _ _ (populated_iff components)) (
        then_iff _ _ (Passes-throw_if _ _ (reserved_iff (keys components))) (
          then_iff _ _ (for_each_iff (check_influencer model) _ check_influencer_iff influencers) (
            then_iff _ _ (for_each_iff (check_entry model) _ check_entry_iff (keys components)) (
              then_iff _ _ (for_each_iff (check_endpoints model) _ check_endpoints_iff translations)
                (then_iff _ _
                  (for_each_iff (check_declared model) _ check_declared_iff translations)
                  (for_each_iff (check_pairs model) _ check_pairs_iff influencers)))))) in
      (
        λ h.
            let (r₁, (r₂, (r₃, (r₄, (r₅, (r₆, r₇)))))) = rules.0 h in
            record {
              populated = r₁;
              self_reserved = r₂;
              influencers_known = r₃;
              entries = r₄;
              endpoints = r₅;
              declared = r₆;
              translated = r₇;
            },
        λ v. rules.1 (
          v.populated,
          (
            v.self_reserved,
            (v.influencers_known, (v.entries, (v.endpoints, (v.declared, v.translated)))),
          ),
        ),
      )
