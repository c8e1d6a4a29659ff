-- ===== src/Coordinator/OnTime.antt =====
-- The limits of the branches of `compute_branches`, against the `t_next` of the children that they fire.
use cadmia.Prelude.{
  ◌≡◌, ◌∙◌, refl, sym, subst, inl, inr, true, false, List, [], ◌∷◌, Text, Result, ok, ok-injective,
  All, All-map, Bool-cases,
}
use cadmia.Scalar.{Scalar}
use cadmia.Scalar.Laws.{IsOrdered}
use cadmia.Interval.{
  Interval, is_empty, intersects, intersection, is_subset_of, lower_within, upper_within, overlap,
}
use cadmia.Interval.Within.{
  IsProper, is_subset_of_within, upper_within_trans, overlap-start, overlap-upper_within,
}
use cadmia.Engine.{IadevsEngine}
use cadmia.Coordinator.State.{Coordinator, active_t_next}
use cadmia.Coordinator.Branching.{
  BranchAction, Imminent, sort, cut, branches_of, imminents, t_next_at, compute_branches,
}
use cadmia.Coordinator.Bounded.{IsBounded}
use cadmia.Coordinator.Earliest.{Leads, hull-Leads, All-imminents, imminents-intersects}
use cadmia.Coordinator.Sorted.{All-sort, sort-IsSorted, IsSorted, OpensFirst}
use cadmia.Coordinator.Cut.{StartsWithin, cut-StartsWithin, cut-start, cut-upper_within, level}
use cadmia.Coordinator.Offered.{branches_of-Offered}
use cadmia.Coordinator.Candidates.{Fires, Offered-Fires}

module _ {ℓ} {T : Type ℓ} ⦃s : Scalar T⦄ where
  -- Each interval holds a point, and one that is open at its lower end begins no later than the others.
  pub record IsOrderly (active : List (Interval T)) : Type 0 where
    pub proper : All IsProper active
    pub opens :
        All (λ i. i.lower_closed ≡ false → All (λ j. s.less j.lower i.lower ≡ false) active) active

  abbrev pub Opened : Interval T → Interval T → Type 0
  Opened first i = i.lower_closed ≡ false → s.less first.lower i.lower ≡ false

  abbrev OnTime : Interval T → Interval T → Type 0
  OnTime limit i = is_subset_of limit i ≡ true

  pub intersection-overlap :
      (i j : Interval T) → intersects i j ≡ true → overlap i j ≡ intersection i j
  unfolding intersection
  intersection-overlap i j h = rw h

module _ {ℓ} {T V E : Type ℓ} ⦃s : Scalar T⦄ (laws : IsOrdered T) (child : IadevsEngine T V E) where
  both :
      (is : List (Imminent T)) (P Q R : Interval T → Type 0)
      → ((i : Interval T) → P i → Q i → R i)
      → All (λ i. P i.t_next) is
      → All (λ i. Q i.t_next) is
      → All (λ i. R i.t_next) is
  both [] P Q R f ps qs = tt
  both (i ∷ is) P Q R f ps qs = (f i.t_next ps.0 qs.0, both is P Q R f ps.1 qs.1)

  -- What holds of the sorted imminent engines.
  pub sorted-All :
      (P : Interval T → Type 0) (t : Interval T) (engines : List (Text × E))
      → All P (active_t_next child engines)
      → All (λ i. P i.t_next) (sort (imminents child t engines))
  sorted-All P t engines h =
      All-sort _ (imminents child t engines) (All-imminents child P t engines h)

  pub sorted_opens :
      (t : Interval T) (engines : List (Text × E)) (first : Imminent T) (rest : List (Imminent T))
      → sort (imminents child t engines) ≡ first ∷ rest
      → IsOrderly (active_t_next child engines)
      → OpensFirst first.t_next (first ∷ rest)
  sorted_opens t engines first rest e o =
      let pairs : All (λ i. i.lower_closed ≡ false → s.less (first.t_next).lower i.lower ≡ false)
          (active_t_next child engines) =
        All-map _ _
          (λ i h opened.
            (subst (All (λ j. s.less (j.t_next).lower i.lower ≡ false)) e
              (sorted-All (λ j. s.less j.lower i.lower ≡ false) t engines (h opened))).0)
          (active_t_next child engines) o.opens in
      subst (All (λ i. Opened first.t_next i.t_next)) e
        (sorted-All (Opened first.t_next) t engines pairs)

  -- Each engine that meets the limit may fire in all of it.
  limit-OnTime :
      (t : Interval T) (engines : List (Text × E)) (first : Imminent T) (rest : List (Imminent T))
      → sort (imminents child t engines) ≡ first ∷ rest
      → All (Leads t) (active_t_next child engines)
      → IsOrderly (active_t_next child engines)
      → All
          (λ i.
            intersects i.t_next (cut first.t_next (intersection first.t_next t) rest) ≡ true
            → OnTime (cut first.t_next (intersection first.t_next t) rest) i.t_next)
          (first ∷ rest)
  limit-OnTime t engines first rest e leads o =
      let i₁ = first.t_next in
      let whole = intersection i₁ t in
      let limit = cut i₁ whole rest in
      let led : All (λ i. Leads t i.t_next) (first ∷ rest) =
        subst (All (λ i. Leads t i.t_next)) e (sorted-All (Leads t) t engines leads) in
      let meets : All (λ i. (is_empty i.t_next ≡ false) × (intersects i.t_next t ≡ true))
          (first ∷ rest) =
        subst (All (λ i. (is_empty i.t_next ≡ false) × (intersects i.t_next t ≡ true))) e
          (All-sort _ (imminents child t engines) (imminents-intersects child t engines)) in
      let sorted : IsSorted (first ∷ rest) =
        subst IsSorted e (sort-IsSorted laws (imminents child t engines)) in
      let opens = sorted_opens t engines first rest e o in
      let same : overlap i₁ t ≡ whole = intersection-overlap i₁ t meets.0.1 in
      let start : (whole.lower ≡ i₁.lower) × (whole.lower_closed ≡ i₁.lower_closed) =
        subst (λ w. (w.lower ≡ i₁.lower) × (w.lower_closed ≡ i₁.lower_closed)) same
          (overlap-start laws i₁ t led.0.0) in
      let within : upper_within limit t ≡ true =
        upper_within_trans laws limit whole t (cut-upper_within laws i₁ whole rest)
          (subst (λ w. upper_within w t ≡ true) same (overlap-upper_within laws i₁ t).1) in
      let begins : StartsWithin limit (first ∷ rest) = (
        λ m.
            level laws i₁ i₁ limit ((cut-start laws i₁ whole rest).0 ∙ start.0)
              ((cut-start laws i₁ whole rest).1 ∙ start.1) (laws.irrefl i₁.lower)
              (laws.irrefl i₁.lower) (λ h. h),
        cut-StartsWithin laws i₁ whole rest start.0 start.1 sorted.0 sorted.1 opens.1,
      ) in
      both (first ∷ rest) (λ i. Leads t i × ((is_empty i ≡ false) × (intersects i t ≡ true)))
        (λ i. intersects i limit ≡ true → lower_within limit i ≡ true)
        (λ i. intersects i limit ≡ true → OnTime limit i)
        (λ i p q m.
          is_subset_of_within limit i p.1.0 (q m) (upper_within_trans laws limit t i within p.0.1))
        (both (first ∷ rest) (Leads t) (λ i. (is_empty i ≡ false) × (intersects i t ≡ true)) _
          (λ i p q. (p, q)) led meets)
        begins

module _ {ℓ} {T V E : Type ℓ} ⦃s : Scalar T⦄ (laws : IsOrdered T) (child : IadevsEngine T V E) where
  on_time :
      (select : List Text → Text) (t_next_of : Text → Result (Interval T)) (t : Interval T)
      (engines : List (Text × E)) (is : List (Imminent T)) (actions : List (BranchAction T))
      → sort (imminents child t engines) ≡ is
      → All (Leads t) (active_t_next child engines)
      → IsOrderly (active_t_next child engines)
      → branches_of select t_next_of t is ≡ ok actions
      → All (Fires child select OnTime engines) actions
  unfolding branches_of
  on_time select t_next_of t engines [] actions e leads o h =
      subst (All (Fires child select OnTime engines)) (ok-injective h) tt
  on_time select t_next_of t engines (first ∷ rest) actions e leads o h =
      let limit = cut first.t_next (intersection first.t_next t) rest in
      All-map _ _
        (λ a offer.
          Offered-Fires child select OnTime t limit engines
            (rw e (limit-OnTime laws child t engines first rest e leads o)) a (rw e offer))
        actions (branches_of-Offered select t_next_of t first rest actions h)

module _ {ℓ} {T V C E : Type ℓ} ⦃s : Scalar T⦄ (laws : IsOrdered T)
    (child : IadevsEngine T V E) where
  -- In a coordinator whose intervals bound those of its children, where the `t_next` of each active child
  -- holds a point, and begins no later than those of the others if it is open at its lower end: every
  -- branch for the coordinator's own `t_next` is a skip, or its limit is a subset of the `t_next` of the
  -- child that it fires, or of each child among which SELECT chooses the one that it fires.
  pub compute_branches-OnTime :
      (c : Coordinator T V C E) (actions : List (BranchAction T))
      → IsBounded child c
      → IsOrderly (active_t_next child c.engines)
      → compute_branches child c.t_next c ≡ ok actions
      → All (Fires child c.model.select (λ limit i. is_subset_of limit i ≡ true) c.engines) actions
  unfolding compute_branches
  compute_branches-OnTime c actions b o h = elim (Bool-cases (is_empty c.t_next)) [
    | inl e ↦
        subst (All (Fires child c.model.select OnTime c.engines)) (ok-injective (rw e at h)) tt
    | inr e ↦
        on_time laws child c.model.select (t_next_at child c.engines) c.t_next c.engines
          (sort (imminents child c.t_next c.engines)) actions refl
          (subst (λ t. All (Leads t) (active_t_next child c.engines)) (sym b.t_next_eq)
            (hull-Leads laws (active_t_next child c.engines)))
          o (rw e at h)
  ]
