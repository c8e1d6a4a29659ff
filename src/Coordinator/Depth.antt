-- ===== src/Coordinator/Depth.antt =====
-- Coordinators inside coordinators: at depth n + 1 a component is an atomic engine, or a coordinator
-- whose own components have depth n.
use cadmia.Prelude.{if◌then◌else◌, Bool, false, ℕ, zero, suc, Text, Option, Result, ◌>>=◌, map_ok}
use cadmia.Scalar.{Scalar}
use cadmia.Interval.{Interval}
use cadmia.Engine.{IadevsEngine}
use cadmia.Component.{ComponentSpec, is_atomic, factory, coupled_model}
use cadmia.CoupledModel.{CoupledModel}
use cadmia.Coordinator.State.{Coordinator, init, new_coordinator}
use cadmia.Coordinator.Interface.{coordinator_engine}

-- `std::unique_ptr<IADEVSEngine<T>>`, by the class of the object.
pub data Child {ℓ} (A K : Type ℓ) : Type ℓ where
  leaf : A → Child A K
  node : K → Child A K

-- Virtual dispatch; two engines of different classes are not equal.
module _ {ℓ} {T V A K : Type ℓ} (atom : IadevsEngine T V A) (coord : IadevsEngine T V K) where
  unfoldable pub child_t_next : Child A K → Interval T
  child_t_next (leaf a) = atom.t_next a
  child_t_next (node c) = coord.t_next c

  unfoldable pub child_t_last : Child A K → Interval T
  child_t_last (leaf a) = atom.t_last a
  child_t_last (node c) = coord.t_last c

  unfoldable pub child_star : Interval T → Child A K → Result (Child A K × Option Text × Option V)
  child_star t (leaf a) = map_ok (λ r. (leaf r.0, r.1, r.2)) (atom.engine_star t a)
  child_star t (node c) = map_ok (λ r. (node r.0, r.1, r.2)) (coord.engine_star t c)

  unfoldable pub child_x : V → Interval T → Child A K → Result (Child A K)
  child_x x t (leaf a) = map_ok leaf (atom.engine_x x t a)
  child_x x t (node c) = map_ok node (coord.engine_x x t c)

  unfoldable pub child_advance : Interval T → Child A K → Child A K
  child_advance limit (leaf a) = leaf (atom.advance_t_next_past_limit limit a)
  child_advance limit (node c) = node (coord.advance_t_next_past_limit limit c)

  unfoldable pub child_clone : Child A K → Child A K
  child_clone (leaf a) = leaf (atom.clone a)
  child_clone (node c) = node (coord.clone c)

  unfoldable pub child_equals : Child A K → Child A K → Bool
  child_equals (leaf a) (leaf b) = atom.engine_equals a b
  child_equals (leaf a) (node d) = false
  child_equals (node c) (leaf b) = false
  child_equals (node c) (node d) = coord.engine_equals c d

  unfoldable pub child_is_coordinator : Child A K → Bool
  child_is_coordinator (leaf a) = atom.is_coordinator a
  child_is_coordinator (node c) = coord.is_coordinator c

  abbrev pub child_engine : IadevsEngine T V (Child A K)
  child_engine = record {
    t_next = child_t_next;
    t_last = child_t_last;
    engine_star = child_star;
    engine_x = child_x;
    advance_t_next_past_limit = child_advance;
    clone = child_clone;
    engine_equals = child_equals;
    is_coordinator = child_is_coordinator;
  }

module _ {ℓ} {T V A : Type ℓ} ⦃s : Scalar T⦄ (atom : IadevsEngine T V A) where
  -- A factory of atomic engines.
  abbrev pub Factory : Type ℓ
  Factory = Interval T → Result A

  abbrev pub Spec : ℕ → Type ℓ
  Spec zero = Factory
  Spec (suc n) = ComponentSpec Factory (CoupledModel T V (Spec n))

  abbrev pub Engine : ℕ → Type ℓ
  Engine zero = A
  Engine (suc n) = Child A (Coordinator T V (Spec n) (Engine n))

  abbrev pub engine_at : (n : ℕ) → IadevsEngine T V (Engine n)
  engine_at zero = atom
  engine_at (suc n) = child_engine atom (coordinator_engine (engine_at n))

  -- How `init` makes the engine of a component: its factory, or a sub-coordinator that is initialised.
  unfoldable pub start_at : (n : ℕ) → Spec n → Interval T → Result (Engine n)
  unfolding is_atomic factory coupled_model init new_coordinator
  start_at zero f t = f t
  start_at (suc n) spec t =
      let sub = λ (m : CoupledModel T V (Spec n)).
        map_ok node (init (engine_at n) (start_at n) t (new_coordinator m)) in
      if is_atomic spec
      then (factory spec >>= λ f. map_ok leaf (f t))
      else (coupled_model spec >>= sub)
