-- ===== src/Coordinator/Candidates.antt =====
-- The branches of `compute_branches`: their limits, and the engines that they let fire.
use cadmia.Prelude.{
  ◌≡◌, refl, sym, subst, ◌⊎◌, inl, inr, Bool, true, List, [], ◌∷◌, Text, Result, ok, ok-injective,
  is_nil, All, All-map, Bool-cases, arith,
}
use cadmia.Scalar.{Scalar}
use cadmia.Scalar.Laws.{IsOrdered}
use cadmia.Interval.{Interval, is_empty, intersects, intersection}
use cadmia.Interval.Membership.{has, order_of, has-intersection}
use cadmia.Engine.{IadevsEngine}
use cadmia.Coordinator.State.{Coordinator}
use cadmia.Coordinator.Branching.{
  BranchAction, Imminent, sort, restrict_upper, cut, branches_of, imminents, t_next_at,
  compute_branches,
}
use cadmia.Coordinator.Offered.{
  Named, Asked, Named-map, Offered, branches_of-Offered, Candidate, sorted-Candidate,
}

module _ {ℓ} {T : Type ℓ} ⦃s : Scalar T⦄ (laws : IsOrdered T) where
  restrict_upper-subset :
      (i : Interval T) (b : T) (closed : Bool) (v : T)
      → has (restrict_upper i b closed) v ≡ true
      → has i v ≡ true
  unfolding restrict_upper
  restrict_upper-subset i b closed v h = ground (arith, order_of laws b i.upper v)

  cut-subset :
      (first limit : Interval T) (is : List (Imminent T)) (v : T)
      → has (cut first limit is) v ≡ true
      → has limit v ≡ true
  unfolding cut
  cut-subset first limit [] v h = h
  cut-subset first limit (i ∷ is) v h = ground (
    arith,
    cut-subset first limit is v,
    restrict_upper-subset limit i.t_next.lower i.t_next.lower_closed v,
  )

module _ {ℓ} {T V E : Type ℓ} ⦃s : Scalar T⦄ (child : IadevsEngine T V E)
    (select : List Text → Text) where
  -- The action is a skip, or it fires a child whose `t_next` stands to the limit as `Q` says, or it fires
  -- what SELECT answers to a set of such children.
  abbrev pub Fires : (Interval T → Interval T → Type 0) → List (Text × E) → BranchAction T → Type 0
  Fires Q engines a =
      (is_nil a.engine_name ≡ true)
      ⊎ Candidate child (Q a.limit) engines a.engine_name
      ⊎ Asked select (Candidate child (Q a.limit) engines) a.engine_name

  pub Offered-Fires :
      (Q : Interval T → Interval T → Type 0) (t limit : Interval T) (engines : List (Text × E))
      → All
          (λ i. intersects i.t_next limit ≡ true → Q limit i.t_next)
          (sort (imminents child t engines))
      → (a : BranchAction T) → Offered limit select (sort (imminents child t engines)) a
      → Fires Q engines a
  Offered-Fires Q t limit engines on a (e, c) =
      let found : (k : Text)
          → Named (λ i. intersects i limit ≡ true) k (sort (imminents child t engines))
          → Candidate child (Q a.limit) engines k =
        λ k m.
          subst (λ l. Candidate child (Q l) engines k) (sym e)
            (sorted-Candidate child (Q limit) t k engines
              (Named-map (λ i. intersects i limit ≡ true) (Q limit) k _ on m)) in
      elim c [
        | inl p ↦ inl p
        | inr (inl p) ↦ inr (inl (found a.engine_name p))
        | inr (inr (n, ns, asked, all)) ↦ inr (inr (n, ns, asked, λ k h. found k (all k h)))
      ]

  -- A limit within `t`, and an engine that meets it.
  pub record IsOffer (t : Interval T) (engines : List (Text × E)) (a : BranchAction T)
      : Type ℓ where
    pub within : (v : T) → has a.limit v ≡ true → has t v ≡ true
    pub candidate : Fires (λ limit i. intersects i limit ≡ true) engines a

module _ {ℓ} {T V E : Type ℓ} ⦃s : Scalar T⦄ (laws : IsOrdered T) (child : IadevsEngine T V E)
    (select : List Text → Text) where
  branches_of-IsOffer :
      (t_next_of : Text → Result (Interval T)) (t : Interval T) (engines : List (Text × E))
      (is : List (Imminent T)) (actions : List (BranchAction T))
      → sort (imminents child t engines) ≡ is
      → branches_of select t_next_of t is ≡ ok actions
      → All (IsOffer child select t engines) actions
  unfolding branches_of
  branches_of-IsOffer t_next_of t engines [] actions e h =
      subst (All (IsOffer child select t engines)) (ok-injective h) tt
  branches_of-IsOffer t_next_of t engines (first ∷ rest) actions e h =
      let limit = cut first.t_next (intersection first.t_next t) rest in
      let within : (v : T) → has limit v ≡ true → has t v ≡ true = λ v k. ground (
        arith,
        has-intersection laws first.t_next t v,
        cut-subset laws first.t_next (intersection first.t_next t) rest v k,
      ) in
      All-map _ _
        (λ a o. record {
          within = λ v k. within v (subst (λ i. has i v ≡ true) o.0 k);
          candidate =
              Offered-Fires child select (λ l i. intersects i l ≡ true) t limit engines
                (rw e (itself limit (first ∷ rest))) a (rw e o);
        })
        actions (branches_of-Offered select t_next_of t first rest actions h)
    where
      itself :
          (limit : Interval T) (is : List (Imminent T))
          → All (λ i. intersects i.t_next limit ≡ true → intersects i.t_next limit ≡ true) is
      itself limit [] = tt
      itself limit (i ∷ is) = (λ m. m, itself limit is)

module _ {ℓ} {T V C E : Type ℓ} ⦃s : Scalar T⦄ (laws : IsOrdered T)
    (child : IadevsEngine T V E) where
  -- Every branch that `compute_branches` returns has a limit within `t`; and it is a skip, or it lets a
  -- child fire whose `t_next` meets the limit, or what SELECT answers to a set of such children.
  pub compute_branches-IsOffer :
      (t : Interval T) (c : Coordinator T V C E) (actions : List (BranchAction T))
      → compute_branches child t c ≡ ok actions
      → All (IsOffer child c.model.select t c.engines) actions
  unfolding compute_branches
  compute_branches-IsOffer t c actions h = elim (Bool-cases (is_empty c.t_next)) [
    | inl e ↦ subst (All (IsOffer child c.model.select t c.engines)) (ok-injective (rw e at h)) tt
    | inr e ↦
        branches_of-IsOffer laws child c.model.select (t_next_at child c.engines) t c.engines
          (sort (imminents child t c.engines)) actions refl (rw e at h)
  ]
