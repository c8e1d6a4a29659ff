-- ===== src/Coordinator/Wired/Known.antt =====
-- The names in the branches of `compute_branches`.
use cadmia.Prelude.{
  ◌≡◌, ◌≢◌, refl, ◌⊎◌, inl, inr, true, not, List, [], ◌∷◌, Text, contains, is_nil, Result, ok, err,
  out_of_range, throw_if, not-eq-false, All, All-append, All-map, any, Bool-cases, arith,
  text_eq_iff,
}
use cadmia.Prelude.Maps.{keys, erase, Listed, map_at}
use cadmia.Scalar.{Scalar}
use cadmia.Interval.{Interval, is_empty, is_punctual, intersects, intersection, equals}
use cadmia.Engine.{IadevsEngine}
use cadmia.Coordinator.State.{Coordinator}
use cadmia.Coordinator.Branching.{
  BranchAction, Imminent, sort, cut, meeting, names_of, fire_all, alternative, punctual_branches,
  wide_branches, branches_of, imminents, t_next_at, compute_branches,
}
use cadmia.Coordinator.Offered.{contains-erase, meeting-Meets, Candidate, sorted-Candidate}
use cadmia.Coordinator.Wired.Keys.{map_at-Listed}
use cadmia.Coordinator.Wired.Fine.{Fine, Fine-ok, Fine-bind, Fine-throw_if}
use cadmia.Coordinator.Wired.Lookups.{IsKnown}

-- SELECT answers with one of the names, if there is one.
abbrev pub Answers : (List Text → Text) → Type 0
Answers select = (n : Text) (ns : List Text) → contains (select (n ∷ ns)) (n ∷ ns) ≡ true

module _ {ℓ} {T : Type ℓ} ⦃s : Scalar T⦄ where
  abbrev pub KnownIn : (Text → Type 0) → BranchAction T → Type 0
  KnownIn Q a =
      ((is_nil a.engine_name ≡ true) ⊎ Q a.engine_name)
      × ((is_nil a.defer_engine ≡ true) ⊎ (Q a.defer_engine × Q a.engine_name))

  fire_all-KnownIn :
      (Q : Text → Type 0) (limit : Interval T) (js : List (Imminent T))
      → ((k : Text) → contains k (names_of js) ≡ true → Q k)
      → All (KnownIn Q) (fire_all limit js)
  unfolding contains
  fire_all-KnownIn Q limit [] sub = tt
  fire_all-KnownIn Q limit (j ∷ js) sub = (
    (inr (sub j.name (ground (arith, text_eq_iff j.name j.name))), inl refl),
    fire_all-KnownIn Q limit js (λ k h. sub k (ground arith)),
  )

  wide-KnownIn :
      (Q : Text → Type 0) (limit : Interval T) (is : List (Imminent T))
      → ((k : Text) → contains k (names_of (meeting limit is)) ≡ true → Q k)
      → All (KnownIn Q) (wide_branches limit is)
  unfolding wide_branches
  wide-KnownIn Q limit is sub =
      All-append (KnownIn Q) (fire_all limit (meeting limit is)) _
        (fire_all-KnownIn Q limit (meeting limit is) sub)
        (elim (Bool-cases (any (λ i. not (equals limit i.t_next)) (meeting limit is))) [
          | inl e ↦ rw e ((inl refl, inl refl), tt)
          | inr e ↦ rw e tt
        ])

  alternative-KnownIn :
      (Q : Text → Type 0) (select : List Text → Text) (limit : Interval T) (chosen : Text)
      (left : List Text)
      → Answers select
      → Q chosen
      → ((k : Text) → contains k left ≡ true → Q k)
      → KnownIn Q (alternative select limit chosen left)
  alternative-KnownIn Q select limit chosen [] answers q sub = (inl refl, inl refl)
  alternative-KnownIn Q select limit chosen (n ∷ ns) answers q sub =
      let other = sub (select (n ∷ ns)) (answers n ns) in (inr other, inr (q, other))

  punctual-Fine :
      (Q : Text → Type 0) (select : List Text → Text) (t_next_of : Text → Result (Interval T))
      (limit : Interval T) (is : List (Imminent T))
      → Answers select
      → ((k : Text) → Q k → t_next_of k ≢ err out_of_range)
      → ((k : Text) → contains k (names_of (meeting limit is)) ≡ true → Q k)
      → Fine (All (KnownIn Q)) (punctual_branches select t_next_of limit is)
  unfolding punctual_branches
  punctual-Fine Q select t_next_of limit is answers found sub =
      let candidates = names_of (meeting limit is) in
      let chosen = select candidates in
      Fine-bind _ _ (throw_if (not (contains chosen candidates)) _) _
        (Fine-throw_if (not (contains chosen candidates)) _)
        λ u guard.
          let q = sub chosen (not-eq-false _ guard) in
          Fine-bind (λ tn. Unit {0}) _ (t_next_of chosen) _ (found chosen q, λ tn h. tt)
            λ tn u₁. Fine-ok (All (KnownIn Q)) _ (
              (inr q, inl refl),
              (elim (Bool-cases (equals limit tn)) [
                | inl e ↦ rw e tt
                | inr e ↦ rw e (
                  alternative-KnownIn Q select limit chosen (erase chosen candidates) answers q
                      (λ k m. sub k (contains-erase k chosen candidates m)),
                  tt,
                )
              ]),
            )

  branches_of-Fine :
      (Q : Text → Type 0) (select : List Text → Text) (t_next_of : Text → Result (Interval T))
      (t : Interval T) (is : List (Imminent T))
      → Answers select
      → ((k : Text) → Q k → t_next_of k ≢ err out_of_range)
      → ((limit : Interval T) (k : Text) → contains k (names_of (meeting limit is)) ≡ true → Q k)
      → Fine (All (KnownIn Q)) (branches_of select t_next_of t is)
  unfolding branches_of
  branches_of-Fine Q select t_next_of t [] answers found sub = Fine-ok (All (KnownIn Q)) [] tt
  branches_of-Fine Q select t_next_of t (first ∷ rest) answers found sub =
      let limit = cut first.t_next (intersection first.t_next t) rest in
      elim (Bool-cases (is_punctual limit)) [
        | inl p ↦
            rw p (punctual-Fine Q select t_next_of limit (first ∷ rest) answers found (sub limit))
        | inr p ↦
            rw p (Fine-ok (All (KnownIn Q)) _ (wide-KnownIn Q limit (first ∷ rest) (sub limit)))
      ]

module _ {ℓ} {T V E : Type ℓ} ⦃s : Scalar T⦄ (child : IadevsEngine T V E) where
  Candidate-Listed :
      (Q : Interval T → Type 0) (k : Text) (engines : List (Text × E))
      → Candidate child Q engines k
      → Listed k (keys engines)
  Candidate-Listed Q k [] h = absurd h
  Candidate-Listed Q k ((n, e) ∷ engines) (inl p) = inl p.0
  Candidate-Listed Q k ((n, e) ∷ engines) (inr r) = inr (Candidate-Listed Q k engines r)

  t_next_at-Listed :
      (k : Text) (engines : List (Text × E))
      → Listed k (keys engines)
      → t_next_at child engines k ≢ err out_of_range
  t_next_at-Listed k engines l =
      (Fine-bind (λ e. Unit {0}) (λ t. Unit {0}) (map_at k engines) (λ e. ok (child.t_next e))
        (map_at-Listed k engines out_of_range l, λ e h. tt)
        (λ e u. Fine-ok (λ t. Unit {0}) (child.t_next e) tt)).0

module _ {ℓ} {T V C E : Type ℓ} ⦃s : Scalar T⦄ (child : IadevsEngine T V E) where
  -- With such a SELECT, `compute_branches` throws no `std::out_of_range`, and every action that it returns
  -- fires and defers engines of the coordinator, or none.
  pub compute_branches-IsKnown :
      (t : Interval T) (c : Coordinator T V C E)
      → Answers c.model.select
      → Fine (All (IsKnown child c)) (compute_branches child t c)
  unfolding compute_branches
  compute_branches-IsKnown t c answers = elim (Bool-cases (is_empty c.t_next)) [
    | inl e ↦ rw e (Fine-ok (All (IsKnown child c)) [] tt)
    | inr e ↦
        let known =
          branches_of-Fine (λ k. Listed k (keys c.engines)) c.model.select
            (t_next_at child c.engines) t (sort (imminents child t c.engines)) answers
            (λ k l. t_next_at-Listed child k c.engines l)
            (λ limit k h.
              Candidate-Listed child (λ i. intersects i limit ≡ true) k c.engines
                (sorted-Candidate child (λ i. intersects i limit ≡ true) t k c.engines
                  (meeting-Meets limit c.model.select k (sort (imminents child t c.engines)) h))) in
        rw e (
          known.0,
          λ actions h.
              All-map _ _ (λ a q. record { engine_known = q.0; defer_known = q.1 }) actions
                (known.1 actions h),
        )
  ]
