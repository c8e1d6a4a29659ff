-- ===== src/Coordinator/Hull.antt =====
-- `compute_t_last` and `compute_t_next` of coordinator.hpp: the two hulls that `bound_ts` computes.
use cadmia.Prelude.{
  ◌≡◌, true, false, not, ◌&&◌, ◌||◌, if◌then◌else◌, List, [], ◌∷◌, foldl, any, all, arith,
}
use cadmia.Scalar.{Scalar}
use cadmia.Scalar.Laws.{IsOrdered}
use cadmia.Interval.{Interval, endpoint_equal}
use cadmia.Interval.Membership.{has, above_lower, below_upper, order_of}

module _ {ℓ} {T : Type ℓ} ⦃s : Scalar T⦄ where
  open s use {less}

  -- One round of the loop of `compute_t_last`, over `max_lo`, `max_hi` and their flags.
  unfoldable pub later : Interval T → Interval T → Interval T
  later acc i = record {
    lower = if less acc.lower i.lower then i.lower else acc.lower;
    upper = if less acc.upper i.upper then i.upper else acc.upper;
    lower_closed =
        if less acc.lower i.lower
        then i.lower_closed
        else if endpoint_equal acc.lower i.lower && not i.lower_closed
        then false
        else acc.lower_closed;
    upper_closed =
        if less acc.upper i.upper
        then i.upper_closed
        else if endpoint_equal acc.upper i.upper && i.upper_closed
        then true
        else acc.upper_closed;
  }

  -- One round of the loop of `compute_t_next`.
  unfoldable pub earlier : Interval T → Interval T → Interval T
  earlier acc i = record {
    lower = if less i.lower acc.lower then i.lower else acc.lower;
    upper = if less i.upper acc.upper then i.upper else acc.upper;
    lower_closed =
        if less i.lower acc.lower
        then i.lower_closed
        else if endpoint_equal i.lower acc.lower && i.lower_closed
        then true
        else acc.lower_closed;
    upper_closed =
        if less i.upper acc.upper
        then i.upper_closed
        else if endpoint_equal i.upper acc.upper && not i.upper_closed
        then false
        else acc.upper_closed;
  }

  -- Both start from the first of the vector, which is not empty.
  unfoldable pub compute_t_last : Interval T → List (Interval T) → Interval T
  unfolding later
  compute_t_last first rest = foldl later first rest

  unfoldable pub compute_t_next : Interval T → List (Interval T) → Interval T
  unfolding earlier
  compute_t_next first rest = foldl earlier first rest

module _ {ℓ} {T : Type ℓ} ⦃s : Scalar T⦄ (laws : IsOrdered T) where
  later-above_lower :
      (acc i : Interval T) (v : T)
      → above_lower (later acc i) v ≡ (above_lower acc v && above_lower i v)
  unfolding later
  later-above_lower acc i v = ground (arith, order_of laws acc.lower i.lower v)

  later-below_upper :
      (acc i : Interval T) (v : T)
      → below_upper (later acc i) v ≡ (below_upper acc v || below_upper i v)
  unfolding later
  later-below_upper acc i v = ground (arith, order_of laws acc.upper i.upper v)

  earlier-above_lower :
      (acc i : Interval T) (v : T)
      → above_lower (earlier acc i) v ≡ (above_lower acc v || above_lower i v)
  unfolding earlier
  earlier-above_lower acc i v = ground (arith, order_of laws acc.lower i.lower v)

  earlier-below_upper :
      (acc i : Interval T) (v : T)
      → below_upper (earlier acc i) v ≡ (below_upper acc v && below_upper i v)
  unfolding earlier
  earlier-below_upper acc i v = ground (arith, order_of laws acc.upper i.upper v)

  foldl-later :
      (acc : Interval T) (rest : List (Interval T)) (v : T)
      → has (foldl later acc rest) v ≡ (
          (above_lower acc v && all (λ i. above_lower i v) rest)
          && (below_upper acc v || any (λ i. below_upper i v) rest))
  foldl-later acc [] v = ground arith
  foldl-later acc (i ∷ rest) v = ground (
    arith,
    foldl-later (later acc i) rest v,
    later-above_lower acc i v,
    later-below_upper acc i v,
  )

  foldl-earlier :
      (acc : Interval T) (rest : List (Interval T)) (v : T)
      → has (foldl earlier acc rest) v ≡ (
          (above_lower acc v || any (λ i. above_lower i v) rest)
          && (below_upper acc v && all (λ i. below_upper i v) rest))
  foldl-earlier acc [] v = ground arith
  foldl-earlier acc (i ∷ rest) v = ground (
    arith,
    foldl-earlier (earlier acc i) rest v,
    earlier-above_lower acc i v,
    earlier-below_upper acc i v,
  )

  -- Over an ordered type: a value lies in `compute_t_last` exactly when it has passed the lower bound of
  -- every interval, and has not passed the upper bound of at least one.
  pub compute_t_last_lem :
      (first : Interval T) (rest : List (Interval T)) (v : T)
      → has (compute_t_last first rest) v
        ≡ (all (λ i. above_lower i v) (first ∷ rest) && any (λ i. below_upper i v) (first ∷ rest))
  unfolding compute_t_last
  compute_t_last_lem first rest v = foldl-later first rest v

  -- Over an ordered type: a value lies in `compute_t_next` exactly when it has passed the lower bound of at
  -- least one interval, and has not passed the upper bound of any.
  pub compute_t_next_lem :
      (first : Interval T) (rest : List (Interval T)) (v : T)
      → has (compute_t_next first rest) v
        ≡ (any (λ i. above_lower i v) (first ∷ rest) && all (λ i. below_upper i v) (first ∷ rest))
  unfolding compute_t_next
  compute_t_next_lem first rest v = foldl-earlier first rest v
