-- ===== src/Coordinator/State.antt =====
-- The state of `coordinator<T>`, its construction, `init` and `bound_ts`.
use cadmia.Prelude.{
  if◌then◌else◌, List, [], ◌∷◌, foldl, none, some, Text, text_eq, Result, ok, ◌>>=◌,
}
use cadmia.Prelude.Maps.{find, assign, insert}
use cadmia.Scalar.{Scalar}
use cadmia.Interval.{Interval, empty_interval, is_empty}
use cadmia.Engine.{IadevsEngine}
use cadmia.CoupledModel.{CoupledModel, self}
use cadmia.Coordinator.Hull.{compute_t_last, compute_t_next}

-- `C` is the type of component specifications, `E` that of the child engines.
pub record Coordinator {ℓ} (T V C E : Type ℓ) : Type ℓ where
  pub model : CoupledModel T V C
  pub engines : List (Text × E)
  pub influenced_by : List (Text × List Text)
  pub t_last : Interval T
  pub t_next : Interval T

-- The destinations that an engine influences; none without an entry.
abbrev pub targets : Text → List (Text × List Text) → List Text
targets src m = elim (find src m) [ none ↦ [] | some dests ↦ dests ]

-- `influenced_by_[src].insert(dest)`, unless one of the two is "self".
unfoldable pub add_influence : Text → List (Text × List Text) → Text → List (Text × List Text)
add_influence dest m src =
    if text_eq src self then m else assign src (insert dest (targets src m)) m

unfoldable pub add_influences : List (Text × List Text) → Text × List Text → List (Text × List Text)
unfolding add_influence
add_influences m (dest, sources) =
    if text_eq dest self then m else foldl (add_influence dest) m sources

unfoldable pub invert : List (Text × List Text) → List (Text × List Text)
unfolding add_influences
invert influencers = foldl add_influences [] influencers

abbrev pub hull {ℓ} :
    {T : Type ℓ} ⦃s : Scalar T⦄
    → (Interval T → List (Interval T) → Interval T)
    → List (Interval T)
    → Interval T
hull compute [] = empty_interval
hull compute (i ∷ rest) = compute i rest

module _ {ℓ} {T V E : Type ℓ} ⦃s : Scalar T⦄ (child : IadevsEngine T V E) where
  open child use {t_next, t_last}

  -- The two vectors that `bound_ts` fills.
  unfoldable pub all_t_last : List (Text × E) → List (Interval T)
  all_t_last [] = []
  all_t_last ((name, e) ∷ engines) = t_last e ∷ all_t_last engines

  unfoldable pub active_t_next : List (Text × E) → List (Interval T)
  active_t_next [] = []
  active_t_next ((name, e) ∷ engines) =
      if is_empty (t_next e) then active_t_next engines else t_next e ∷ active_t_next engines

module _ {ℓ} {T V C E : Type ℓ} where
  abbrev pub with_engines : Coordinator T V C E → List (Text × E) → Coordinator T V C E
  with_engines c engines = record c { engines = engines }

module _ {ℓ} {T V C E : Type ℓ} ⦃s : Scalar T⦄ where
  -- The constructor.
  unfoldable pub new_coordinator : CoupledModel T V C → Coordinator T V C E
  new_coordinator model = record {
    model = model;
    engines = [];
    influenced_by = [];
    t_last = empty_interval;
    t_next = empty_interval;
  }

module _ {ℓ} {T V C E : Type ℓ} ⦃s : Scalar T⦄ (child : IadevsEngine T V E) where
  -- With no engine both become an empty interval, and so does `t_next` with no active one.
  unfoldable pub bound_ts : Coordinator T V C E → Coordinator T V C E
  unfolding all_t_last active_t_next
  bound_ts c = record c {
    t_last = hull compute_t_last (all_t_last child c.engines);
    t_next = hull compute_t_next (active_t_next child c.engines);
  }

  -- `start` builds one child: by its factory, or by `init` of a sub-coordinator.
  unfoldable pub start_all :
      (C → Interval T → Result E)
      → Interval T
      → List (Text × C)
      → List (Text × E)
      → Result (List (Text × E))
  start_all start t [] engines = ok engines
  start_all start t ((name, spec) ∷ specs) engines = do
    e ← start spec t
    start_all start t specs (assign name e engines)

  unfoldable pub init :
      (C → Interval T → Result E) → Interval T → Coordinator T V C E → Result (Coordinator T V C E)
  unfolding start_all invert bound_ts
  init start t c = do
    engines ← start_all start t c.model.components []
    ok (bound_ts (record c { engines = engines; influenced_by = invert c.model.influencers }))
