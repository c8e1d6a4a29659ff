-- ===== src/Component.antt =====
-- include/cadmia/modeling/component.hpp: what a coupled model holds for each of its components.
use cadmia.Prelude.{
  map_ok, Bool, true, false, Option, none, some, codes, Result, ok, err, invalid_argument,
  logic_error,
}
use cadmia.Scalar.{Scalar, Arith}
use cadmia.Interval.{Interval}
use cadmia.AtomicModel.{AtomicModel}
use cadmia.Simulator.{Simulator, init}

-- A factory `F` of initialised engines, or a coupled model `M`: the two fields of the class, of which its
-- named constructors fill exactly one, and its default constructor none.
pub data ComponentSpec {ℓ} (F M : Type ℓ) : Type ℓ where
  atomic : F → ComponentSpec F M
  coupled : M → ComponentSpec F M
  unset : ComponentSpec F M

module _ {ℓ} {F M : Type ℓ} where
  unfoldable pub is_atomic : ComponentSpec F M → Bool
  is_atomic (atomic f) = true
  is_atomic (coupled m) = false
  is_atomic unset = false

  unfoldable pub is_coupled : ComponentSpec F M → Bool
  is_coupled (atomic f) = false
  is_coupled (coupled m) = true
  is_coupled unset = false

  unfoldable pub factory : ComponentSpec F M → Result F
  factory (atomic f) = ok f
  factory (coupled m) = err (logic_error (codes "ComponentSpec: not an atomic component"))
  factory unset = err (logic_error (codes "ComponentSpec: not an atomic component"))

  unfoldable pub coupled_model : ComponentSpec F M → Result M
  coupled_model (atomic f) = err (logic_error (codes "ComponentSpec: not a coupled component"))
  coupled_model (coupled m) = ok m
  coupled_model unset = err (logic_error (codes "ComponentSpec: not a coupled component"))

  -- `ComponentSpec::atomic` and `ComponentSpec::coupled`, with a null as `none`.
  unfoldable pub of_factory : Option F → Result (ComponentSpec F M)
  of_factory none = err (invalid_argument (codes "ComponentSpec::atomic: factory must not be null"))
  of_factory (some f) = ok (atomic f)

  unfoldable pub of_model : Option M → Result (ComponentSpec F M)
  of_model none = err (invalid_argument (codes "ComponentSpec::coupled: model must not be null"))
  of_model (some m) = ok (coupled m)

-- `make_atomic_component<M>`; `as_engine` is the conversion to the base class of the engines.
unfoldable pub make_atomic_component {ℓ} :
    {S T X Y E : Type ℓ} ⦃s : Scalar T⦄ ⦃m : Arith T⦄
    → AtomicModel S T X Y
    → (Simulator S T → E)
    → Interval S
    → Interval T
    → {M : Type ℓ} → Result (ComponentSpec (Interval T → Result E) M)
make_atomic_component model as_engine initial_state initial_elapsed =
    of_factory (some (λ t. map_ok as_engine (init model initial_state initial_elapsed t)))
