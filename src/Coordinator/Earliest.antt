-- ===== src/Coordinator/Earliest.antt =====
-- The interval of the next event, between the intervals of the children.
use cadmia.Prelude.{
  ◌≡◌, ◌⊎◌, inl, inr, true, false, not, ◌&&◌, List, [], ◌∷◌, foldl, Text, All, Any, Bool-cases,
  arith,
}
use cadmia.Scalar.{Scalar}
use cadmia.Scalar.Laws.{IsOrdered}
use cadmia.Interval.{Interval, is_empty, intersects, lower_within, upper_within}
use cadmia.Interval.Within.{
  IsProper, lower_within_refl, upper_within_refl, lower_within_trans, upper_within_trans,
  intersects_within, IsProper-within,
}
use cadmia.Engine.{IadevsEngine}
use cadmia.Coordinator.Hull.{earlier, compute_t_next}
use cadmia.Coordinator.State.{active_t_next, hull}
use cadmia.Coordinator.Branching.{imminents}

module _ {ℓ} {T : Type ℓ} ⦃s : Scalar T⦄ where
  -- `t` begins no later than `i`, and ends no later.
  abbrev pub Leads : Interval T → Interval T → Type 0
  Leads t i = (lower_within i t ≡ true) × (upper_within t i ≡ true)

module _ {ℓ} {T : Type ℓ} ⦃s : Scalar T⦄ (laws : IsOrdered T) where
  earlier-Leads : (acc i : Interval T) → Leads (earlier acc i) acc × Leads (earlier acc i) i
  unfolding earlier lower_within upper_within
  earlier-Leads acc i = ground (
    arith,
    laws.irrefl acc.lower,
    laws.irrefl i.lower,
    laws.irrefl acc.upper,
    laws.irrefl i.upper,
    laws.asymm i.lower acc.lower,
    laws.asymm i.upper acc.upper,
  )

  -- It ends with one of the two.
  earlier-ends :
      (acc i : Interval T)
      → (upper_within acc (earlier acc i) ≡ true) ⊎ (upper_within i (earlier acc i) ≡ true)
  unfolding earlier upper_within
  earlier-ends acc i =
      ground (arith, laws.irrefl acc.upper, laws.irrefl i.upper, laws.asymm i.upper acc.upper)

  Leads-trans : (t u i : Interval T) → Leads t u → Leads u i → Leads t i
  Leads-trans t u i p q =
      (lower_within_trans laws i u t q.0 p.0, upper_within_trans laws t u i p.1 q.1)

  foldl-Leads :
      (acc : Interval T) (rest : List (Interval T))
      → Leads (foldl earlier acc rest) acc × All (Leads (foldl earlier acc rest)) rest
  foldl-Leads acc [] = ((lower_within_refl laws acc, upper_within_refl laws acc), tt)
  foldl-Leads acc (i ∷ rest) =
      let (now, later) = foldl-Leads (earlier acc i) rest in
      let (left, right) = earlier-Leads acc i in
      (
        Leads-trans _ (earlier acc i) acc now left,
        (Leads-trans _ (earlier acc i) i now right, later),
      )

  foldl-ends :
      (acc : Interval T) (rest : List (Interval T))
      → Any (λ i. upper_within i (foldl earlier acc rest) ≡ true) (acc ∷ rest)
  foldl-ends acc [] = inl (upper_within_refl laws acc)
  foldl-ends acc (i ∷ rest) = elim (foldl-ends (earlier acc i) rest) [
    | inl e ↦ elim (earlier-ends acc i) [
      | inl p ↦
          inl (upper_within_trans laws acc (earlier acc i) (foldl earlier (earlier acc i) rest) p e)
      | inr p ↦
          inr (
            inl
              (upper_within_trans laws i (earlier acc i) (foldl earlier (earlier acc i) rest) p e))
    ]
    | inr later ↦ inr (inr later)
  ]

  pub compute_t_next-Leads :
      (first : Interval T) (rest : List (Interval T))
      → All (Leads (compute_t_next first rest)) (first ∷ rest)
  unfolding compute_t_next
  compute_t_next-Leads first rest = foldl-Leads first rest

  pub hull-Leads : (is : List (Interval T)) → All (Leads (hull compute_t_next is)) is
  hull-Leads [] = tt
  hull-Leads (first ∷ rest) = compute_t_next-Leads first rest

  pub compute_t_next-ends :
      (first : Interval T) (rest : List (Interval T))
      → Any (λ i. upper_within i (compute_t_next first rest) ≡ true) (first ∷ rest)
  unfolding compute_t_next
  compute_t_next-ends first rest = foldl-ends first rest

  -- A proper interval that `t` leads and that ends no later than `t` meets `t`, and makes `t` proper.
  pub leader :
      (t : Interval T) (is : List (Interval T))
      → is_empty t ≡ false
      → All IsProper is
      → All (Leads t) is
      → Any (λ i. upper_within i t ≡ true) is
      → Any (λ i. intersects i t ≡ true) is × IsProper t
  leader t [] e p l a = absurd a
  leader t (i ∷ is) e (p, ps) (l, ls) (inl a) =
      (inl (intersects_within laws i t p e l.0 a), IsProper-within laws i t p l.0 a)
  leader t (i ∷ is) e (p, ps) (l, ls) (inr a) =
      let (meets, proper) = leader t is e ps ls a in (inr meets, proper)

module _ {ℓ} {T V E : Type ℓ} ⦃s : Scalar T⦄ (child : IadevsEngine T V E) where
  -- What holds of every active interval holds of the imminent engines.
  pub All-imminents {κ} :
      (P : Interval T → Type κ) (t : Interval T) (engines : List (Text × E))
      → All P (active_t_next child engines)
      → All (λ i. P i.t_next) (imminents child t engines)
  unfolding active_t_next imminents
  All-imminents P t [] h = tt
  All-imminents P t ((name, e) ∷ engines) h = elim (Bool-cases (is_empty (child.t_next e))) [
    | inl q ↦ rw q (All-imminents P t engines (rw q at h))
    | inr q ↦
        let h' : P (child.t_next e) × All P (active_t_next child engines) = rw q at h in
        elim (Bool-cases (intersects (child.t_next e) t)) [
          | inl m ↦ rw (q, m) (h'.0, All-imminents P t engines h'.1)
          | inr m ↦ rw (q, m) (All-imminents P t engines h'.1)
        ]
  ]

  pub imminents-intersects :
      (t : Interval T) (engines : List (Text × E))
      → All
          (λ i. (is_empty i.t_next ≡ false) × (intersects i.t_next t ≡ true))
          (imminents child t engines)
  unfolding imminents
  imminents-intersects t [] = tt
  imminents-intersects t ((name, e) ∷ engines) =
      elim (Bool-cases (not (is_empty (child.t_next e)) && intersects (child.t_next e) t)) [
        | inl q ↦ rw q ((ground arith, ground arith), imminents-intersects t engines)
        | inr q ↦ rw q (imminents-intersects t engines)
      ]

  -- An active interval that meets `t` is one of an imminent engine.
  pub Any-imminents :
      (t : Interval T) (engines : List (Text × E))
      → Any (λ i. intersects i t ≡ true) (active_t_next child engines)
      → imminents child t engines ≡ []
      → ⊥
  unfolding active_t_next imminents
  Any-imminents t [] a h = absurd a
  Any-imminents t ((name, e) ∷ engines) a h = elim (Bool-cases (is_empty (child.t_next e))) [
    | inl q ↦ Any-imminents t engines (rw q at a) (rw q at h)
    | inr q ↦
        let a' : (intersects (child.t_next e) t ≡ true)
            ⊎ Any (λ i. intersects i t ≡ true) (active_t_next child engines) =
          rw q at a in
        elim (Bool-cases (intersects (child.t_next e) t)) [
          | inl m ↦ absurd (ground arith)
          | inr m ↦ elim a' [
            | inl m' ↦ absurd (ground arith)
            | inr later ↦ Any-imminents t engines later (rw (q, m) at h)
          ]
        ]
  ]
