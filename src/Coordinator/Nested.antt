-- ===== src/Coordinator/Nested.antt =====
-- Coordinators inside coordinators, at every depth: the lookups that they make of names.
use cadmia.Prelude.{◌≡◌, ap, ℕ, zero, suc, All, All-map}
use cadmia.Scalar.{Scalar}
use cadmia.Interval.{Interval}
use cadmia.Engine.{IadevsEngine}
use cadmia.Component.{atomic, coupled, unset, is_atomic, factory, coupled_model}
use cadmia.CoupledModel.{CoupledModel}
use cadmia.CoupledModel.Valid.{IsValid}
use cadmia.Coordinator.State.{init, new_coordinator}
use cadmia.Coordinator.Interface.{coordinator_engine}
use cadmia.Coordinator.Bounded.{clone-id}
use cadmia.Coordinator.Depth.{
  Child, leaf, node, child_engine, child_clone, child_star, child_x, child_advance, Spec, Engine,
  engine_at, start_at,
}
use cadmia.Coordinator.Wired.Fine.{Fine, Fine-map}
use cadmia.Coordinator.Wired.Spares.{IsSafe, Total}
use cadmia.Coordinator.Wired.Known.{Answers}
use cadmia.Coordinator.Wired.Ready.{IsReady, IsSound, init-IsReady, coordinator_engine-IsSafe}

module _ {ℓ} {A K : Type ℓ} where
  abbrev pub GoodChild : (A → Type ℓ) → (K → Type ℓ) → Child A K → Type ℓ
  GoodChild P Q (leaf a) = P a
  GoodChild P Q (node c) = Q c

module _ {ℓ} {T V A K : Type ℓ} (atom : IadevsEngine T V A) (coord : IadevsEngine T V K) where
  pub child_engine-IsSafe :
      (P : A → Type ℓ) (Q : K → Type ℓ)
      → IsSafe atom P
      → IsSafe coord Q
      → IsSafe (child_engine atom coord) (GoodChild P Q)
  unfolding child_star child_x child_advance
  child_engine-IsSafe P Q p q = record { star_safe = star; x_safe = x; advance_safe = advance }
    where
      star :
          (t : Interval T) (e : Child A K)
          → GoodChild P Q e
          → Fine (λ r. GoodChild P Q r.0) (child_star atom coord t e)
      star t (leaf a) g =
          Fine-map (λ r. P r.0) (λ r. GoodChild P Q r.0) _ (atom.engine_star t a)
            (p.star_safe t a g) λ r h. h
      star t (node c) g =
          Fine-map (λ r. Q r.0) (λ r. GoodChild P Q r.0) _ (coord.engine_star t c)
            (q.star_safe t c g) λ r h. h

      x :
          (v : V) (t : Interval T) (e : Child A K)
          → GoodChild P Q e
          → Fine (GoodChild P Q) (child_x atom coord v t e)
      x v t (leaf a) g =
          Fine-map P (GoodChild P Q) leaf (atom.engine_x v t a) (p.x_safe v t a g) λ r h. h
      x v t (node c) g =
          Fine-map Q (GoodChild P Q) node (coord.engine_x v t c) (q.x_safe v t c g) λ r h. h

      advance :
          (limit : Interval T) (e : Child A K)
          → GoodChild P Q e
          → GoodChild P Q (child_advance atom coord limit e)
      advance limit (leaf a) g = p.advance_safe limit a g
      advance limit (node c) g = q.advance_safe limit c g

module _ {ℓ} {T V A : Type ℓ} ⦃s : Scalar T⦄ (atom : IadevsEngine T V A) where
  -- When the clone of an atomic engine is a copy, the clone of an engine of any depth is a copy.
  pub clone_at-id :
      (n : ℕ) → ((a : A) → atom.clone a ≡ a) → (e : Engine atom n) → (engine_at atom n).clone e ≡ e
  unfolding child_clone
  clone_at-id zero copies a = copies a
  clone_at-id (suc n) copies (leaf a) = ap leaf (copies a)
  clone_at-id (suc n) copies (node c) =
      ap node (clone-id (engine_at atom n) (clone_at-id n copies) c)

module _ {ℓ} {T V A : Type ℓ} ⦃s : Scalar T⦄ (atom : IadevsEngine T V A) (Good : A → Type ℓ) where
  -- A good atomic engine, or a coordinator that is ready over such engines.
  abbrev pub GoodAt : (n : ℕ) → Engine atom n → Type ℓ
  GoodAt zero = Good
  GoodAt (suc n) = GoodChild Good (IsReady (engine_at atom n) (GoodAt n))

  -- A factory makes a good engine and throws no `std::out_of_range`; a component with neither factory nor
  -- model makes `init` throw another exception; a model is valid, its translations
  -- throw none, its SELECT answers, and its components are so in turn.
  abbrev pub SoundAt : (n : ℕ) → Interval T → Spec atom n → Type ℓ
  SoundAt zero t f = Fine Good (f t)
  SoundAt (suc n) t (atomic f) = Fine Good (f t)
  SoundAt (suc n) t (coupled m) =
      IsValid m × Total m × Answers m.select × All (λ e. SoundAt n t e.1) m.components
  SoundAt (suc n) t unset = Unit

  abbrev pub SoundModel : (n : ℕ) → Interval T → CoupledModel T V (Spec atom n) → Type ℓ
  SoundModel n t m = SoundAt (suc n) t (coupled m)

  pub engine_at-IsSafe : (n : ℕ) → IsSafe atom Good → IsSafe (engine_at atom n) (GoodAt n)
  engine_at-IsSafe zero safe = safe
  engine_at-IsSafe (suc n) safe =
      child_engine-IsSafe atom (coordinator_engine (engine_at atom n)) Good
        (IsReady (engine_at atom n) (GoodAt n)) safe
        (coordinator_engine-IsSafe (engine_at atom n) (GoodAt n) (engine_at-IsSafe n safe))

  starts_of :
      (n : ℕ) (t : Interval T) (m : CoupledModel T V (Spec atom n))
      → ((c : Spec atom n) → SoundAt n t c → Fine (GoodAt n) (start_at atom n c t))
      → SoundModel n t m
      → IsSound (engine_at atom n) (GoodAt n) (start_at atom n) t m
  starts_of n t m start (valid, total, answers, sound) = record {
    valid = valid;
    total = total;
    answers = answers;
    starts = All-map _ _ (λ e h. start e.1 h) m.components sound;
  }

  start_at-Fine :
      (n : ℕ) (t : Interval T) (c : Spec atom n)
      → SoundAt n t c
      → Fine (GoodAt n) (start_at atom n c t)
  unfolding start_at is_atomic factory coupled_model
  start_at-Fine zero t f sound = sound
  start_at-Fine (suc n) t (atomic f) sound =
      Fine-map Good (GoodAt (suc n)) leaf (f t) sound λ a g. g
  start_at-Fine (suc n) t (coupled m) sound =
      Fine-map (IsReady (engine_at atom n) (GoodAt n)) (GoodAt (suc n)) node
        (init (engine_at atom n) (start_at atom n) t (new_coordinator m))
        (init-IsReady (engine_at atom n) (GoodAt n) (start_at atom n) t m
          (starts_of n t m (λ c h. start_at-Fine n t c h) sound))
        λ c g. g
  start_at-Fine (suc n) t unset sound = ((λ h. cc), (λ e h. absurd cc))

  -- The topology of every model of the tree, and the construction of its atomic engines, give what a run
  -- needs of its children.
  pub SoundModel-IsSound :
      (n : ℕ) (t : Interval T) (m : CoupledModel T V (Spec atom n))
      → SoundModel n t m
      → IsSound (engine_at atom n) (GoodAt n) (start_at atom n) t m
  SoundModel-IsSound n t m sound = starts_of n t m (λ c h. start_at-Fine n t c h) sound
