-- ===== src/Coordinator/Progress.antt =====
-- The number of branches that `compute_branches` offers.
use cadmia.Prelude.{
  ◌≡◌, ◌≢◌, ◌∙◌, refl, sym, subst, inl, inr, true, false, not, List, [], ◌∷◌, Text, Result, ok,
  on_ok, ok-injective, throw_if, contains, All, Any, Bool-cases, arith,
}
use cadmia.Scalar.{Scalar}
use cadmia.Scalar.Laws.{IsOrdered}
use cadmia.Interval.{
  Interval, is_empty, intersects, intersection, is_punctual, lower_within, upper_within, overlap,
  empty_interval,
}
use cadmia.Interval.Within.{
  IsProper, intersects_within, intersects_comm, upper_within_trans, overlap-start,
  overlap-upper_within, overlap-IsProper,
}
use cadmia.Engine.{IadevsEngine}
use cadmia.Coordinator.Hull.{compute_t_next}
use cadmia.Coordinator.State.{Coordinator, active_t_next, hull}
use cadmia.Coordinator.Branching.{
  Imminent, sort, place, sooner, cut, meeting, names_of, punctual_branches, wide_branches,
  branches_of, imminents, t_next_at, compute_branches,
}
use cadmia.Coordinator.Bounded.{IsBounded}
use cadmia.Coordinator.Earliest.{
  Leads, hull-Leads, compute_t_next-ends, leader, Any-imminents, imminents-intersects,
}
use cadmia.Coordinator.Sorted.{All-sort}
use cadmia.Coordinator.Cut.{cut-start, cut-upper_within, cut-IsProper, level}
use cadmia.Coordinator.OnTime.{intersection-overlap, sorted-All}

module _ {ℓ} {T : Type ℓ} ⦃s : Scalar T⦄ where
  place-ne-nil : (i : Imminent T) (js : List (Imminent T)) → place i js ≢ []
  unfolding place
  place-ne-nil i [] h = cc
  place-ne-nil i (j ∷ js) h = elim (Bool-cases (sooner j.t_next i.t_next)) [
    | inl e ↦ absurd (ground arith)
    | inr e ↦ absurd (ground arith)
  ]

  sort-eq-nil : (is : List (Imminent T)) → sort is ≡ [] → is ≡ []
  unfolding sort
  sort-eq-nil [] h = refl
  sort-eq-nil (i ∷ is) h = absurd (place-ne-nil i (sort is) h)

  wide-ne-nil :
      (limit : Interval T) (first : Imminent T) (rest : List (Imminent T))
      → intersects first.t_next limit ≡ true
      → wide_branches limit (first ∷ rest) ≢ []
  unfolding wide_branches meeting
  wide-ne-nil limit first rest m h = absurd (ground arith)

  punctual-ne-nil :
      (select : List Text → Text) (t_next_of : Text → Result (Interval T)) (limit : Interval T)
      (is : List (Imminent T))
      → punctual_branches select t_next_of limit is ≢ ok []
  unfolding punctual_branches
  punctual-ne-nil select t_next_of limit is h =
      on_ok
        (throw_if
          (not (contains (select (names_of (meeting limit is))) (names_of (meeting limit is)))) _)
        _ h
        λ u guard h₁. on_ok (t_next_of (select (names_of (meeting limit is)))) _ h₁ λ tn e h₂. cc

module _ {ℓ} {T V E : Type ℓ} ⦃s : Scalar T⦄ (laws : IsOrdered T) (child : IadevsEngine T V E) where
  -- The engine that begins first meets the limit.
  first-intersects :
      (t : Interval T) (engines : List (Text × E)) (first : Imminent T) (rest : List (Imminent T))
      → sort (imminents child t engines) ≡ first ∷ rest
      → IsProper t
      → All (Leads t) (active_t_next child engines)
      → All IsProper (active_t_next child engines)
      → intersects first.t_next (cut first.t_next (intersection first.t_next t) rest) ≡ true
  first-intersects t engines first rest e proper leads each =
      let i = first.t_next in
      let whole = intersection i t in
      let limit = cut i whole rest in
      let led : All (λ j. Leads t j.t_next) (first ∷ rest) =
        subst (All (λ j. Leads t j.t_next)) e (sorted-All laws child (Leads t) t engines leads) in
      let full : All (λ j. IsProper j.t_next) (first ∷ rest) =
        subst (All (λ j. IsProper j.t_next)) e (sorted-All laws child IsProper t engines each) in
      let meets : All (λ j. (is_empty j.t_next ≡ false) × (intersects j.t_next t ≡ true))
          (first ∷ rest) =
        subst (All (λ j. (is_empty j.t_next ≡ false) × (intersects j.t_next t ≡ true))) e
          (All-sort _ (imminents child t engines) (imminents-intersects child t engines)) in
      let same : overlap i t ≡ whole = intersection-overlap i t meets.0.1 in
      let start : (whole.lower ≡ i.lower) × (whole.lower_closed ≡ i.lower_closed) =
        subst (λ w. (w.lower ≡ i.lower) × (w.lower_closed ≡ i.lower_closed)) same
          (overlap-start laws i t led.0.0) in
      let whole_proper : IsProper whole =
        subst IsProper same (overlap-IsProper laws i t full.0 proper meets.0.1) in
      let within : upper_within limit i ≡ true =
        upper_within_trans laws limit whole i (cut-upper_within laws i whole rest)
          (subst (λ w. upper_within w i ≡ true) same (overlap-upper_within laws i t).0) in
      let begins : lower_within limit i ≡ true =
        level laws i i limit ((cut-start laws i whole rest).0 ∙ start.0)
          ((cut-start laws i whole rest).1 ∙ start.1) (laws.irrefl i.lower) (laws.irrefl i.lower)
          (λ h. h) in
      intersects_comm laws limit i (
        intersects_within laws limit i (cut-IsProper laws i whole rest start.0 start.1 whole_proper)
          meets.0.0 begins within)

  progress :
      (select : List Text → Text) (t_next_of : Text → Result (Interval T)) (t : Interval T)
      (engines : List (Text × E)) (is : List (Imminent T))
      → sort (imminents child t engines) ≡ is
      → is ≢ []
      → IsProper t
      → All (Leads t) (active_t_next child engines)
      → All IsProper (active_t_next child engines)
      → branches_of select t_next_of t is ≢ ok []
  unfolding branches_of
  progress select t_next_of t engines [] e some proper leads each h = absurd (some refl)
  progress select t_next_of t engines (first ∷ rest) e some proper leads each h =
      let limit = cut first.t_next (intersection first.t_next t) rest in
      elim (Bool-cases (is_punctual limit)) [
        | inl p ↦ punctual-ne-nil select t_next_of limit (first ∷ rest) (rw p at h)
        | inr p ↦
            wide-ne-nil limit first rest (first-intersects t engines first rest e proper leads each)
              (ok-injective (rw p at h))
      ]

  some_meets :
      (is : List (Interval T)) (t : Interval T)
      → is_empty {T = T} empty_interval ≡ true
      → t ≡ hull compute_t_next is
      → is_empty t ≡ false
      → All IsProper is
      → Any (λ i. intersects i t ≡ true) is × IsProper t
  some_meets [] t finite e h each =
      let full : is_empty {T = T} empty_interval ≡ false = subst (λ q. is_empty q ≡ false) e h in
      absurd (ground arith)
  some_meets (first ∷ rest) t finite e h each =
      leader laws t (first ∷ rest) h each
        (subst (λ q. All (Leads q) (first ∷ rest)) (sym e) (hull-Leads laws (first ∷ rest)))
        (subst (λ q. Any (λ i. upper_within i q ≡ true) (first ∷ rest)) (sym e)
          (compute_t_next-ends laws first rest))

module _ {ℓ} {T V C E : Type ℓ} ⦃s : Scalar T⦄ (laws : IsOrdered T)
    (child : IadevsEngine T V E) where
  -- Where the default time is no infinity: a coordinator whose intervals bound those of its children, whose
  -- active children each have a proper interval, and which is not passive itself, has a branch to offer,
  -- unless SELECT makes it throw.
  pub compute_branches-ne-nil :
      (c : Coordinator T V C E)
      → is_empty {T = T} empty_interval ≡ true
      → IsBounded child c
      → All IsProper (active_t_next child c.engines)
      → is_empty c.t_next ≡ false
      → compute_branches child c.t_next c ≢ ok []
  unfolding compute_branches
  compute_branches-ne-nil c finite b each h k =
      let active = active_t_next child c.engines in
      let (meets, proper) = some_meets laws child active c.t_next finite b.t_next_eq h each in
      progress laws child c.model.select (t_next_at child c.engines) c.t_next c.engines
        (sort (imminents child c.t_next c.engines)) refl
        (λ e.
          Any-imminents child c.t_next c.engines meets
            (sort-eq-nil (imminents child c.t_next c.engines) e))
        proper (subst (λ t. All (Leads t) active) (sym b.t_next_eq) (hull-Leads laws active)) each
        (rw h at k)
