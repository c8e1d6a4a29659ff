-- ===== src/Coordinator/Offered.antt =====
-- What `branches_of` offers, in terms of the imminent engines.
use cadmia.Prelude.{
  ◌≡◌, refl, subst, ◌⊎◌, inl, inr, true, not, ◌&&◌, List, [], ◌∷◌, Text, text_eq_iff, contains,
  Result, ok, on_ok, ok-injective, throw_if, throw_if-eq-ok, not-eq-false, is_nil, All, Any,
  All-append, any, Bool-cases, arith,
}
use cadmia.Prelude.Maps.{erase}
use cadmia.Scalar.{Scalar}
use cadmia.Interval.{Interval, is_empty, intersects, intersection, is_punctual, equals}
use cadmia.Engine.{IadevsEngine}
use cadmia.Coordinator.Branching.{
  BranchAction, Imminent, place, sort, cut, meeting, names_of, alternative, punctual_branches,
  fire_all, wide_branches, branches_of, imminents,
}

-- The name is SELECT's answer to a set of such names, which is not empty.
abbrev pub Asked : (List Text → Text) → (Text → Type 0) → Text → Type 0
Asked select Q name =
    (n : Text) × (ns : List Text) × (name ≡ select (n ∷ ns))
    × ((k : Text) → contains k (n ∷ ns) ≡ true → Q k)

module _ {ℓ} {T : Type ℓ} where
  -- An engine of `is` that has the name, and an interval that `Q` holds of.
  abbrev pub Named : (Interval T → Type 0) → Text → List (Imminent T) → Type 0
  Named Q name = Any λ i. (i.name ≡ name) × Q i.t_next

  pub Named-map :
      (P Q : Interval T → Type 0) (name : Text) (is : List (Imminent T))
      → All (λ i. P i.t_next → Q i.t_next) is
      → Named P name is
      → Named Q name is
  Named-map P Q name [] f h = h
  Named-map P Q name (i ∷ is) f (inl p) = inl (p.0, f.0 p.1)
  Named-map P Q name (i ∷ is) f (inr p) = inr (Named-map P Q name is f.1 p)

pub contains-erase :
    (k x : Text) (xs : List Text) → contains k (erase x xs) ≡ true → contains k xs ≡ true
unfolding contains erase
contains-erase k x [] h = h
contains-erase k x (y ∷ ys) h = ground (arith, contains-erase k x ys)

module _ {ℓ} {T : Type ℓ} ⦃s : Scalar T⦄ where
  place-Named :
      (Q : Interval T → Type 0) (name : Text) (i : Imminent T) (js : List (Imminent T))
      → Named Q name (place i js)
      → Named Q name (i ∷ js)
  unfolding place
  place-Named Q name i [] h = h
  place-Named Q name i (j ∷ js) h = ground (arith, place-Named Q name i js)

  sort-Named :
      (Q : Interval T → Type 0) (name : Text) (is : List (Imminent T))
      → Named Q name (sort is)
      → Named Q name is
  unfolding sort
  sort-Named Q name [] h = h
  sort-Named Q name (i ∷ is) h =
      ground (arith, place-Named Q name i (sort is) h, sort-Named Q name is)

module _ {ℓ} {T : Type ℓ} ⦃s : Scalar T⦄ (limit : Interval T) (select : List Text → Text) where
  abbrev pub Meets : Text → List (Imminent T) → Type 0
  Meets = Named λ i. intersects i limit ≡ true

  -- What every action has: the limit, and, but for a skip, an engine that meets it, or an answer of SELECT
  -- to a set of such engines.
  abbrev pub Offered : List (Imminent T) → BranchAction T → Type ℓ
  Offered is a =
      (a.limit ≡ limit)
      × ((is_nil a.engine_name ≡ true)
          ⊎ Meets a.engine_name is
          ⊎ Asked select (λ k. Meets k is) a.engine_name)

  pub meeting-Meets :
      (name : Text) (is : List (Imminent T))
      → contains name (names_of (meeting limit is)) ≡ true
      → Meets name is
  unfolding meeting contains
  meeting-Meets name [] h = absurd cc
  meeting-Meets name (i ∷ is) h = ground (arith, text_eq_iff i.name name, meeting-Meets name is)

  fire_all-Offered :
      (is js : List (Imminent T))
      → ((name : Text) → contains name (names_of js) ≡ true → Meets name is)
      → All (Offered is) (fire_all limit js)
  unfolding contains
  fire_all-Offered is [] sub = tt
  fire_all-Offered is (j ∷ js) sub = (
    (refl, inr (inl (sub j.name (ground (arith, text_eq_iff j.name j.name))))),
    fire_all-Offered is js (λ name h. sub name (ground arith)),
  )

  wide-Offered : (is : List (Imminent T)) → All (Offered is) (wide_branches limit is)
  unfolding wide_branches
  wide-Offered is =
      All-append (Offered is) (fire_all limit (meeting limit is)) _
        (fire_all-Offered is (meeting limit is) (λ name. meeting-Meets name is))
        (elim (Bool-cases (any (λ i. not (equals limit i.t_next)) (meeting limit is))) [
          | inl e ↦ rw e ((refl, inl refl), tt)
          | inr e ↦ rw e tt
        ])

  alternative-Offered :
      (is : List (Imminent T)) (chosen : Text) (left : List Text)
      → ((k : Text) → contains k left ≡ true → Meets k is)
      → Offered is (alternative select limit chosen left)
  alternative-Offered is chosen [] sub = (refl, inl refl)
  alternative-Offered is chosen (n ∷ ns) sub = (refl, inr (inr (n, ns, refl, sub)))

  punctual-Offered :
      (t_next_of : Text → Result (Interval T)) (is : List (Imminent T))
      {actions : List (BranchAction T)}
      → punctual_branches select t_next_of limit is ≡ ok actions
      → All (Offered is) actions
  unfolding punctual_branches
  punctual-Offered t_next_of is h =
      let candidates = names_of (meeting limit is) in
      let chosen = select candidates in
      on_ok (throw_if (not (contains chosen candidates)) _) _ h λ u guard h₁.
        on_ok (t_next_of chosen) _ h₁ λ tn e h₂.
          let found = meeting-Meets chosen is (not-eq-false _ (throw_if-eq-ok _ _ guard)) in
          let later =
            alternative-Offered is chosen (erase chosen candidates)
              (λ k m. meeting-Meets k is (contains-erase k chosen candidates m)) in
          subst (All (Offered is)) (ok-injective h₂) (
            (refl, inr (inl found)),
            (elim (Bool-cases (equals limit tn)) [ inl q ↦ rw q tt | inr q ↦ rw q (later, tt) ]),
          )

module _ {ℓ} {T : Type ℓ} ⦃s : Scalar T⦄ where
  pub branches_of-Offered :
      (select : List Text → Text) (t_next_of : Text → Result (Interval T)) (t : Interval T)
      (first : Imminent T) (rest : List (Imminent T)) (actions : List (BranchAction T))
      → branches_of select t_next_of t (first ∷ rest) ≡ ok actions
      → All
          (Offered (cut first.t_next (intersection first.t_next t) rest) select (first ∷ rest))
          actions
  unfolding branches_of
  branches_of-Offered select t_next_of t first rest actions h =
      let limit = cut first.t_next (intersection first.t_next t) rest in
      elim (Bool-cases (is_punctual limit)) [
        | inl p ↦ punctual-Offered limit select t_next_of (first ∷ rest) (rw p at h)
        | inr p ↦
            subst (All (Offered limit select (first ∷ rest))) (ok-injective (rw p at h))
              (wide-Offered limit select (first ∷ rest))
      ]

module _ {ℓ} {T V E : Type ℓ} ⦃s : Scalar T⦄ (child : IadevsEngine T V E) where
  -- A child that has the name, and whose `t_next` `Q` holds of.
  abbrev pub Candidate : (Interval T → Type 0) → List (Text × E) → Text → Type 0
  Candidate Q engines name = Any (λ e. (e.0 ≡ name) × Q (child.t_next e.1)) engines

  imminents-Candidate :
      (Q : Interval T → Type 0) (t : Interval T) (name : Text) (engines : List (Text × E))
      → Named Q name (imminents child t engines)
      → Candidate Q engines name
  unfolding imminents
  imminents-Candidate Q t name [] h = h
  imminents-Candidate Q t name ((n, e) ∷ engines) h =
      elim (Bool-cases (not (is_empty (child.t_next e)) && intersects (child.t_next e) t)) [
        | inl q ↦ elim (rw q at h) [
          | inl p ↦ inl p
          | inr r ↦ inr (imminents-Candidate Q t name engines r)
        ]
        | inr q ↦ inr (imminents-Candidate Q t name engines (rw q at h))
      ]

  pub sorted-Candidate :
      (Q : Interval T → Type 0) (t : Interval T) (name : Text) (engines : List (Text × E))
      → Named Q name (sort (imminents child t engines))
      → Candidate Q engines name
  sorted-Candidate Q t name engines h =
      imminents-Candidate Q t name engines (sort-Named Q name (imminents child t engines) h)
