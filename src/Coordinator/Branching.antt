-- ===== src/Coordinator/Branching.antt =====
-- `compute_branches`: which engine may fire next, and within which limit (Algorithm 3).
use cadmia.Prelude.{
  Bool, true, false, not, ◌&&◌, ◌||◌, if◌then◌else◌, List, [], ◌∷◌, ◌++◌, Text, codes, contains,
  Result, ok, ◌>>=◌, ◌>>◌, throw_if, logic_error, any,
}
use cadmia.Prelude.Maps.{map_at, erase}
use cadmia.Scalar.{Scalar}
use cadmia.Interval.{
  Interval, interval, is_empty, intersects, intersection, is_punctual, endpoint_equal, equals,
}
use cadmia.Engine.{IadevsEngine}
use cadmia.Coordinator.State.{Coordinator}

-- The four comparisons are those of `operator==` on intervals.
abbrev pub interval_eq {ℓ} : {T : Type ℓ} ⦃s : Scalar T⦄ → Interval T → Interval T → Bool
interval_eq a b = equals a b

-- An empty `engine_name` is a skip; an empty `defer_engine` defers none.
pub record BranchAction {ℓ} (T : Type ℓ) : Type ℓ where
  pub engine_name : Text
  pub limit : Interval T
  pub defer_engine : Text

-- An imminent engine by its name, with the `t_next` that the code looks up under that name.
pub record Imminent {ℓ} (T : Type ℓ) : Type ℓ where
  pub name : Text
  pub t_next : Interval T

abbrev pub select_error : Text → Text
select_error chosen =
    codes "select function returned '"
    ++ (chosen ++ codes "' which is not among the imminent candidates")

module _ {ℓ} {T : Type ℓ} ⦃s : Scalar T⦄ where
  open s use {less}

  abbrev pub fires : Text → Interval T → BranchAction T
  fires name limit = record { engine_name = name; limit = limit; defer_engine = [] }

  -- The comparator of `std::sort`: by lower endpoint, then by upper endpoint.
  unfoldable pub sooner : Interval T → Interval T → Bool
  sooner a b =
      if less a.lower b.lower
      then true
      else if endpoint_equal a.lower b.lower
      then less a.upper b.upper
      else false

  -- `std::sort`. It may order equal elements in any way; here they keep the order of the map's walk,
  -- which is itself any order.
  unfoldable pub place : Imminent T → List (Imminent T) → List (Imminent T)
  place i [] = i ∷ []
  place i (j ∷ js) = if sooner j.t_next i.t_next then j ∷ place i js else i ∷ j ∷ js

  unfoldable pub sort : List (Imminent T) → List (Imminent T)
  unfolding place sooner
  sort [] = []
  sort (i ∷ is) = place i (sort is)

  unfoldable pub restrict_upper : Interval T → T → Bool → Interval T
  restrict_upper i value value_closed =
      if less value i.upper || endpoint_equal i.upper value && i.upper_closed && value_closed
      then interval i.lower value i.lower_closed (not value_closed)
      else i

  -- The loop that cuts the limit at the first engine that begins later, with its `break`.
  unfoldable pub cut : Interval T → Interval T → List (Imminent T) → Interval T
  unfolding restrict_upper
  cut first limit [] = limit
  cut first limit (i ∷ is) =
      if less first.lower i.t_next.lower
      then restrict_upper limit i.t_next.lower i.t_next.lower_closed
      else if endpoint_equal first.lower i.t_next.lower
          && not i.t_next.lower_closed
          && first.lower_closed
      then restrict_upper limit i.t_next.lower i.t_next.lower_closed
      else cut first limit is

  -- The engines that meet the limit, in order.
  unfoldable pub meeting : Interval T → List (Imminent T) → List (Imminent T)
  meeting limit [] = []
  meeting limit (i ∷ is) =
      if intersects i.t_next limit then i ∷ meeting limit is else meeting limit is

  abbrev pub names_of : List (Imminent T) → List Text
  names_of [] = []
  names_of (i ∷ is) = i.name ∷ names_of is

  -- The skip branch, or the branch in which the chosen engine is deferred.
  abbrev pub alternative : (List Text → Text) → Interval T → Text → List Text → BranchAction T
  alternative select limit chosen [] = fires [] limit
  alternative select limit chosen (n ∷ ns) = record {
    engine_name = select (n ∷ ns);
    limit = limit;
    defer_engine = chosen;
  }

  -- A punctual limit: SELECT fires; if the chosen engine may also fire later, a second branch follows.
  -- The second answer of SELECT is not checked.
  unfoldable pub punctual_branches :
      (List Text → Text)
      → (Text → Result (Interval T))
      → Interval T
      → List (Imminent T)
      → Result (List (BranchAction T))
  unfolding meeting
  punctual_branches select t_next_of limit imminents = do
    let candidates = names_of (meeting limit imminents)
    let chosen = select candidates
    throw_if (not (contains chosen candidates)) (logic_error (select_error chosen))
    chosen_tn ← t_next_of chosen
    ok (
        fires chosen limit
        ∷ (if interval_eq limit chosen_tn
            then []
            else alternative select limit chosen (erase chosen candidates) ∷ []))

  abbrev pub fire_all : Interval T → List (Imminent T) → List (BranchAction T)
  fire_all limit [] = []
  fire_all limit (i ∷ is) = fires i.name limit ∷ fire_all limit is

  -- Any other limit: every engine that meets it may fire, and none may, if one can do so later.
  unfoldable pub wide_branches : Interval T → List (Imminent T) → List (BranchAction T)
  unfolding meeting
  wide_branches limit imminents =
      let met = meeting limit imminents in
      fire_all limit met
      ++ (if any (λ i. not (interval_eq limit i.t_next)) met then fires [] limit ∷ [] else [])

  -- What follows the collection of the imminent engines, once sorted.
  unfoldable pub branches_of :
      (List Text → Text)
      → (Text → Result (Interval T))
      → Interval T
      → List (Imminent T)
      → Result (List (BranchAction T))
  unfolding cut punctual_branches wide_branches
  branches_of select t_next_of t [] = ok []
  branches_of select t_next_of t (first ∷ rest) =
      let limit = cut first.t_next (intersection first.t_next t) rest in
      if is_punctual limit
      then punctual_branches select t_next_of limit (first ∷ rest)
      else ok (wide_branches limit (first ∷ rest))

module _ {ℓ} {T V E : Type ℓ} ⦃s : Scalar T⦄ (child : IadevsEngine T V E) where
  unfoldable pub imminents : Interval T → List (Text × E) → List (Imminent T)
  imminents t [] = []
  imminents t ((name, e) ∷ engines) =
      let tn = child.t_next e in
      if not (is_empty tn) && intersects tn t
      then record { name = name; t_next = tn } ∷ imminents t engines
      else imminents t engines

  abbrev pub t_next_at : List (Text × E) → Text → Result (Interval T)
  t_next_at engines name = do e ← map_at name engines; ok (child.t_next e)

module _ {ℓ} {T V C E : Type ℓ} ⦃s : Scalar T⦄ (child : IadevsEngine T V E) where
  unfoldable pub compute_branches :
      Interval T → Coordinator T V C E → Result (List (BranchAction T))
  unfolding imminents sort branches_of
  compute_branches t c =
      if is_empty c.t_next
      then ok []
      else branches_of c.model.select (t_next_at child c.engines) t
          (sort (imminents child t c.engines))
