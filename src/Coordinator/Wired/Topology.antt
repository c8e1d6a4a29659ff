-- ===== src/Coordinator/Wired/Topology.antt =====
-- What a validated topology says of the names that the coordinator looks up.
use cadmia.Prelude.{
  ◌≡◌, ◌≢◌, ◌∙◌, refl, sym, subst, inl, inr, Bool, true, false, ◌&&◌, ◌||◌, List, [], ◌∷◌, foldl,
  some, Text, text_eq, text_eq_iff, contains, err, any, All, Bool-cases, Option-cases, arith,
}
use cadmia.Prelude.Maps.{find, keys, HasEdge, find_edge, find_edge_iff, Listed, contains_iff}
use cadmia.CoupledModel.{CoupledModel, self, names, translation}
use cadmia.CoupledModel.Valid.{IsValid}
use cadmia.Coordinator.State.{targets, add_influences, add_influence, invert}
use cadmia.Coordinator.Influence.{targets-foldl, invert_lem}

any-All {ℓ κ} :
    {A : Type ℓ} (p : A → Bool) (P : A → Type κ) (xs : List A)
    → any p xs ≡ true
    → All P xs
    → (x : A) × (p x ≡ true) × P x
any-All p P [] h a = absurd cc
any-All p P (x ∷ xs) h (a, as') = elim (Bool-cases (p x)) [
  | inl e ↦ (x, e, a)
  | inr e ↦ any-All p P xs (ground arith) as'
]

All-find {ℓ κ} :
    {A : Type ℓ} (P : Text → A → Type κ) (k : Text) (m : List (Text × A)) {a : A}
    → All (λ e. P e.0 e.1) m
    → find k m ≡ some a
    → P k a
unfolding find
All-find P k [] h e = cc
All-find P k ((j, b) ∷ m) {a} (h, hs) e = elim (Bool-cases (text_eq j k)) [
  | inl q ↦
      let same : b ≡ a = cc (rw q at e) in
      subst (λ j. P j a) ((text_eq_iff j k).0 q) (subst (P j) same h)
  | inr q ↦ All-find P k m hs (rw q at e)
]

pub All-Listed {κ} : (P : Text → Type κ) (k : Text) (xs : List Text) → All P xs → Listed k xs → P k
All-Listed P k [] h l = absurd l
All-Listed P k (x ∷ xs) (h, hs) (inl e) = subst P e h
All-Listed P k (x ∷ xs) (h, hs) (inr l) = All-Listed P k xs hs l

-- No target of an engine is the coordinator itself.
foldl-targets-self :
    (j : Text) (entries : List (Text × List Text)) (m : List (Text × List Text))
    → text_eq j self ≡ false
    → contains self (targets j m) ≡ false
    → contains self (targets j (foldl add_influences m entries)) ≡ false
unfolding add_influences
foldl-targets-self j [] m h e = e
foldl-targets-self j ((dest, sources) ∷ entries) m h e = elim (Bool-cases (text_eq dest self)) [
  | inl q ↦ rw q (foldl-targets-self j entries m h e)
  | inr q ↦ rw q (
      foldl-targets-self j entries (foldl (add_influence dest) m sources) h
        (targets-foldl self j dest sources m h ∙ (rw (e, q) (and_false (contains j sources)))))
]
  where
    and_false : (b : Bool) → (false || b && false) ≡ false
    and_false b = ground arith

invert-self :
    (j : Text) (influencers : List (Text × List Text))
    → text_eq j self ≡ false
    → contains self (targets j (invert influencers)) ≡ false
unfolding invert contains find
invert-self j influencers h = foldl-targets-self j influencers [] h refl

module _ {ℓ} {T V C : Type ℓ} (model : CoupledModel T V C) (v : IsValid model) where
  -- The components' names are not the coordinator's.
  pub component-not-self : (k : Text) → Listed k (keys model.components) → text_eq k self ≡ false
  component-not-self k l = elim (Bool-cases (text_eq k self)) [
    | inl e ↦ absurd (
        v.self_reserved
          (subst (λ n. Listed n (keys model.components)) ((text_eq_iff k self).0 e) l))
    | inr e ↦ e
  ]

  pub component_of :
      (k : Text)
      → Listed k (names model)
      → text_eq k self ≡ false
      → Listed k (keys model.components)
  component_of k (inl e) h = absurd (ground (arith, text_eq_iff k self))
  component_of k (inr l) h = l

  -- An engine that an engine influences is a component, and the pair has a translation.
  pub targets_of :
      (src k : Text)
      → Listed src (keys model.components)
      → contains k (targets src (invert model.influencers)) ≡ true
      → Listed k (keys model.components) × HasEdge src k model.translations
  targets_of src k l h = elim (Bool-cases (text_eq k self)) [
    | inl e ↦
        let none_such = invert-self src model.influencers (component-not-self src l) in
        absurd (
          clash
            (subst (λ n. contains n (targets src (invert model.influencers)) ≡ true)
              ((text_eq_iff k self).0 e) h)
            none_such)
    | inr e ↦
        let found = sym (invert_lem k src model.influencers (component-not-self src l) e) ∙ h in
        let (entry, is_it, (known, translated)) =
          any-All (λ e. text_eq e.0 k && contains src e.1)
            (λ e. Listed e.0 (names model) × All (λ x. HasEdge x e.0 model.translations) e.1)
            model.influencers found (paired model.influencers v.influencers_known v.translated) in
        let dest : entry.0 ≡ k = (text_eq_iff entry.0 k).0 (ground arith) in
        let among : Listed src entry.1 = (contains_iff src entry.1).0 (ground arith) in
        (
          component_of k (subst (λ n. Listed n (names model)) dest known) e,
          subst (λ n. HasEdge src n model.translations) dest
              (All-Listed (λ x. HasEdge x entry.0 model.translations) src entry.1 translated among),
        )
  ]
    where
      clash : {b : Bool} → b ≡ true → b ≡ false → ⊥
      clash p q = cc

      paired :
          (entries : List (Text × List Text))
          → All (λ e. Listed e.0 (names model) × All (λ src. Listed src (names model)) e.1) entries
          → All (λ e. All (λ src. HasEdge src e.0 model.translations) e.1) entries
          → All
              (λ e. Listed e.0 (names model) × All (λ x. HasEdge x e.0 model.translations) e.1)
              entries
      paired [] p q = tt
      paired (e ∷ es) p q = ((p.0.0, q.0), paired es p.1 q.1)

  -- A source that an entry lists has a translation to the entry's destination.
  pub edge_of :
      (src k : Text) (sources : List Text)
      → find k model.influencers ≡ some sources
      → contains src sources ≡ true
      → HasEdge src k model.translations
  edge_of src k sources h c =
      All-Listed (λ x. HasEdge x k model.translations) src sources
        (All-find (λ d xs. All (λ x. HasEdge x d model.translations) xs) k model.influencers
          v.translated h)
        ((contains_iff src sources).0 c)

module _ {ℓ} {T V C : Type ℓ} (model : CoupledModel T V C) where
  -- A pair that has a translation is found.
  pub HasEdge-translation :
      (src k : Text) (e : _) → HasEdge src k model.translations → translation model src k ≢ err e
  unfolding translation
  HasEdge-translation src k e edge h = elim (Option-cases (find_edge src k model.translations)) [
    | inl q ↦ let there = (find_edge_iff src k model.translations).1 edge in absurd (ground arith)
    | inr (z, q) ↦ cc (rw q at h)
  ]
