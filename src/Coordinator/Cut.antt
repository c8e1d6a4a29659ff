-- ===== src/Coordinator/Cut.antt =====
-- The limit that `cut` leaves.
use cadmia.Prelude.{
  ◌≡◌, refl, subst, ◌⊎◌, ◌∙◌, inl, inr, Bool, true, false, not, ◌&&◌, List, [], ◌∷◌, All, All-map,
  Bool-cases, arith,
}
use cadmia.Scalar.{Scalar}
use cadmia.Scalar.Laws.{IsOrdered}
use cadmia.Interval.{Interval, intersects, lower_within, upper_within, before, endpoint_equal}
use cadmia.Interval.Membership.{order_of}
use cadmia.Interval.Within.{IsProper, upper_within_refl}
use cadmia.Coordinator.Branching.{Imminent, restrict_upper, cut}
use cadmia.Coordinator.Sorted.{BeginsBefore, IsSorted, OpensFirst}

module _ {ℓ} {T : Type ℓ} ⦃s : Scalar T⦄ where
  abbrev pub StartsWithin : Interval T → List (Imminent T) → Type 0
  StartsWithin limit =
      All λ i. intersects i.t_next limit ≡ true → lower_within limit i.t_next ≡ true

module _ {ℓ} {T : Type ℓ} ⦃s : Scalar T⦄ (laws : IsOrdered T) where
  open s use {less}

  restrict_upper-start :
      (limit : Interval T) (v : T) (closed : Bool)
      → ((restrict_upper limit v closed).lower ≡ limit.lower)
        × ((restrict_upper limit v closed).lower_closed ≡ limit.lower_closed)
  unfolding restrict_upper
  restrict_upper-start limit v closed = ground arith

  restrict_upper-upper_within :
      (limit : Interval T) (v : T) (closed : Bool)
      → upper_within (restrict_upper limit v closed) limit ≡ true
  unfolding restrict_upper upper_within
  restrict_upper-upper_within limit v closed =
      ground (arith, laws.irrefl limit.upper, laws.asymm v limit.upper)

  -- A limit that is cut where a closed `i` begins ends before whatever begins no sooner than `i`.
  restrict_upper-excludes :
      (limit i j : Interval T)
      → i.lower_closed ≡ true
      → less j.lower i.lower ≡ false
      → intersects j (restrict_upper limit i.lower i.lower_closed) ≡ false
  unfolding restrict_upper intersects before
  restrict_upper-excludes limit i j closed h =
      ground (arith, order_of laws limit.upper i.lower j.lower, laws.irrefl i.lower)

  -- One that is cut to the point where an open `i` begins meets only what is closed there.
  restrict_upper-punctual :
      (limit i j : Interval T)
      → i.lower_closed ≡ false
      → less j.lower i.lower ≡ false
      → intersects j (restrict_upper limit i.lower i.lower_closed) ≡ true
      → (less i.lower j.lower ≡ false) × (j.lower_closed ≡ true)
  unfolding restrict_upper intersects before
  restrict_upper-punctual limit i j opened h k =
      ground (arith, order_of laws limit.upper i.lower j.lower, laws.irrefl i.lower)

  pub cut-start :
      (first limit : Interval T) (is : List (Imminent T))
      → ((cut first limit is).lower ≡ limit.lower)
        × ((cut first limit is).lower_closed ≡ limit.lower_closed)
  unfolding cut
  cut-start first limit [] = (refl, refl)
  cut-start first limit (i ∷ is) = ground (
    arith,
    cut-start first limit is,
    restrict_upper-start limit (i.t_next).lower (i.t_next).lower_closed,
  )

  pub cut-upper_within :
      (first limit : Interval T) (is : List (Imminent T))
      → upper_within (cut first limit is) limit ≡ true
  unfolding cut
  cut-upper_within first limit [] = upper_within_refl laws limit
  cut-upper_within first limit (i ∷ is) = ground (
    arith,
    cut-upper_within first limit is,
    restrict_upper-upper_within limit (i.t_next).lower (i.t_next).lower_closed,
  )

  late :
      (first limit i j : Interval T)
      → less first.lower i.lower ≡ true
      → (i.lower_closed ≡ false → less first.lower i.lower ≡ false)
      → less j.lower i.lower ≡ false
      → intersects j (restrict_upper limit i.lower i.lower_closed) ≡ true
      → lower_within (restrict_upper limit i.lower i.lower_closed) j ≡ true
  late first limit i j e opens h k =
      absurd (ground (arith, restrict_upper-excludes limit i j (ground arith) h))

  punctual :
      (first limit i j : Interval T)
      → limit.lower ≡ first.lower
      → less first.lower i.lower ≡ false
      → less i.lower first.lower ≡ false
      → i.lower_closed ≡ false
      → less j.lower i.lower ≡ false
      → intersects j (restrict_upper limit i.lower i.lower_closed) ≡ true
      → lower_within (restrict_upper limit i.lower i.lower_closed) j ≡ true
  unfolding lower_within
  punctual first limit i j start h h' opened k m = ground (
    arith,
    restrict_upper-start limit i.lower i.lower_closed,
    restrict_upper-punctual limit i j opened k m,
    order_of laws first.lower i.lower j.lower,
  )

  pub level :
      (first i cut_limit : Interval T)
      → cut_limit.lower ≡ first.lower
      → cut_limit.lower_closed ≡ first.lower_closed
      → less first.lower i.lower ≡ false
      → less i.lower first.lower ≡ false
      → (i.lower_closed ≡ false → first.lower_closed ≡ false)
      → lower_within cut_limit i ≡ true
  unfolding lower_within
  level first i cut_limit e e' h h' closed = ground arith

  -- The three cases of `cut`.
  cut-later :
      (first limit : Interval T) (i : Imminent T) (is : List (Imminent T))
      → less first.lower (i.t_next).lower ≡ true
      → restrict_upper limit (i.t_next).lower (i.t_next).lower_closed ≡ cut first limit (i ∷ is)
  unfolding cut
  cut-later first limit i is h = rw h

  abbrev opens_at : Interval T → Imminent T → Bool
  opens_at first i =
      endpoint_equal first.lower (i.t_next).lower
      && not (i.t_next).lower_closed
      && first.lower_closed

  cut-opens :
      (first limit : Interval T) (i : Imminent T) (is : List (Imminent T))
      → less first.lower (i.t_next).lower ≡ false
      → opens_at first i ≡ true
      → restrict_upper limit (i.t_next).lower (i.t_next).lower_closed ≡ cut first limit (i ∷ is)
  unfolding cut
  cut-opens first limit i is h k = ground arith

  cut-level :
      (first limit : Interval T) (i : Imminent T) (is : List (Imminent T))
      → less first.lower (i.t_next).lower ≡ false
      → opens_at first i ≡ false
      → cut first limit is ≡ cut first limit (i ∷ is)
  unfolding cut
  cut-level first limit i is h k = ground arith

  -- Every engine that meets the limit which `cut` leaves may fire from its beginning on.
  pub cut-StartsWithin :
      (first limit : Interval T) (is : List (Imminent T))
      → limit.lower ≡ first.lower
      → limit.lower_closed ≡ first.lower_closed
      → BeginsBefore first is
      → IsSorted is
      → OpensFirst first is
      → StartsWithin (cut first limit is) is
  cut-StartsWithin first limit [] e e' b sorted opens = tt
  cut-StartsWithin first limit (i ∷ is) e e' b sorted opens =
      elim (Bool-cases (less first.lower (i.t_next).lower)) [
        | inl later ↦
            subst (λ l. StartsWithin l (i ∷ is)) (cut-later first limit i is later)
              (
                late first limit i.t_next i.t_next later opens.0 (laws.irrefl (i.t_next).lower),
                All-map _ _ (λ j h. late first limit i.t_next j.t_next later opens.0 h) is sorted.0,
              )
        | inr same ↦ elim (Bool-cases (opens_at first i)) [
          | inl q ↦
              subst (λ l. StartsWithin l (i ∷ is)) (cut-opens first limit i is same q)
                (
                  punctual first limit i.t_next i.t_next e same b.0 (ground arith)
                      (laws.irrefl (i.t_next).lower),
                  All-map _ _
                      (λ j h. punctual first limit i.t_next j.t_next e same b.0 (ground arith) h) is
                      sorted.0,
                )
          | inr q ↦
              subst (λ l. StartsWithin l (i ∷ is)) (cut-level first limit i is same q)
                (
                  λ m.
                      level first i.t_next (cut first limit is) ((cut-start first limit is).0 ∙ e)
                        ((cut-start first limit is).1 ∙ e') same b.0 (ground arith),
                  cut-StartsWithin first limit is e e' b.1 sorted.1 opens.1,
                )
        ]
      ]

  restrict_upper-IsProper :
      (limit : Interval T) (v : T) (closed : Bool)
      → IsProper limit
      → (less limit.lower v ≡ true)
        ⊎ ((less v limit.lower ≡ false) × (closed ≡ false) × (limit.lower_closed ≡ true))
      → IsProper (restrict_upper limit v closed)
  unfolding restrict_upper
  restrict_upper-IsProper limit v closed h k =
      ground (arith, order_of laws limit.lower limit.upper v)

  -- A limit stays an interval with a point in it.
  pub cut-IsProper :
      (first limit : Interval T) (is : List (Imminent T))
      → limit.lower ≡ first.lower
      → limit.lower_closed ≡ first.lower_closed
      → IsProper limit
      → IsProper (cut first limit is)
  unfolding cut
  cut-IsProper first limit [] e e' h = h
  cut-IsProper first limit (i ∷ is) e e' h =
      let v = (i.t_next).lower in
      elim (Bool-cases (less first.lower v)) [
        | inl later ↦
            subst IsProper (cut-later first limit i is later)
              (restrict_upper-IsProper limit v (i.t_next).lower_closed h (inl (rw e later)))
        | inr same ↦ elim (Bool-cases (opens_at first i)) [
          | inl q ↦ subst IsProper (cut-opens first limit i is same q) (
              restrict_upper-IsProper limit v (i.t_next).lower_closed h
                (inr (rw e (ground arith), ground arith, e' ∙ ground arith)))
          | inr q ↦
              subst IsProper (cut-level first limit i is same q)
                (cut-IsProper first limit is e e' h)
        ]
      ]
