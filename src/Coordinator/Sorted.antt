-- ===== src/Coordinator/Sorted.antt =====
-- The order that `sort` makes.
use cadmia.Prelude.{◌≡◌, inl, inr, true, false, List, [], ◌∷◌, All, All-map, Bool-cases, arith}
use cadmia.Scalar.{Scalar}
use cadmia.Scalar.Laws.{IsOrdered}
use cadmia.Interval.{Interval}
use cadmia.Coordinator.Branching.{Imminent, sooner, place, sort}

module _ {ℓ} {T : Type ℓ} ⦃s : Scalar T⦄ where
  open s use {less}

  -- `i` begins no later than any of `is`.
  abbrev pub BeginsBefore : Interval T → List (Imminent T) → Type 0
  BeginsBefore i = All λ j. less (j.t_next).lower i.lower ≡ false

  abbrev pub IsSorted : List (Imminent T) → Type 0
  IsSorted [] = Unit
  IsSorted (i ∷ is) = BeginsBefore i.t_next is × IsSorted is

  -- Whatever is open at its lower end begins no later than `first`.
  abbrev pub OpensFirst : Interval T → List (Imminent T) → Type 0
  OpensFirst first =
      All λ i. (i.t_next).lower_closed ≡ false → less first.lower (i.t_next).lower ≡ false

  pub All-place {κ} :
      (P : Imminent T → Type κ) (i : Imminent T) (js : List (Imminent T))
      → P i
      → All P js
      → All P (place i js)
  unfolding place
  All-place P i [] p ps = (p, tt)
  All-place P i (j ∷ js) p ps = elim (Bool-cases (sooner j.t_next i.t_next)) [
    | inl e ↦ rw e (ps.0, All-place P i js p ps.1)
    | inr e ↦ rw e (p, ps)
  ]

  pub All-sort {κ} : (P : Imminent T → Type κ) (is : List (Imminent T)) → All P is → All P (sort is)
  unfolding sort
  All-sort P [] ps = tt
  All-sort P (i ∷ is) ps = All-place P i (sort is) ps.0 (All-sort P is ps.1)

module _ {ℓ} {T : Type ℓ} ⦃s : Scalar T⦄ (laws : IsOrdered T) where
  open s use {less}

  sooner-begins :
      (a b : Interval T)
      → (sooner a b ≡ true → less b.lower a.lower ≡ false)
        × (sooner a b ≡ false → less a.lower b.lower ≡ false)
  unfolding sooner
  sooner-begins a b = ground (arith, laws.asymm a.lower b.lower)

  BeginsBefore-trans :
      (a b : Interval T) (is : List (Imminent T))
      → less b.lower a.lower ≡ false
      → BeginsBefore b is
      → BeginsBefore a is
  BeginsBefore-trans a b is h =
      All-map _ _ (λ j k. laws.neg_trans (j.t_next).lower b.lower a.lower k h) is

  place-IsSorted : (i : Imminent T) (js : List (Imminent T)) → IsSorted js → IsSorted (place i js)
  unfolding place
  place-IsSorted i [] h = (tt, tt)
  place-IsSorted i (j ∷ js) h = elim (Bool-cases (sooner j.t_next i.t_next)) [
    | inl e ↦
        rw e (All-place _ i js ((sooner-begins j.t_next i.t_next).0 e) h.0, place-IsSorted i js h.1)
    | inr e ↦ rw e (
      (
        (sooner-begins j.t_next i.t_next).1 e,
        BeginsBefore-trans i.t_next j.t_next js ((sooner-begins j.t_next i.t_next).1 e) h.0,
      ),
      h,
    )
  ]

  pub sort-IsSorted : (is : List (Imminent T)) → IsSorted (sort is)
  unfolding sort
  sort-IsSorted [] = tt
  sort-IsSorted (i ∷ is) = place-IsSorted i (sort is) (sort-IsSorted is)
