-- ===== src/RootCoordinator/Nested.antt =====
-- Runs of models whose components are coupled models themselves, at any depth.
use cadmia.Prelude.{◌≡◌, ℕ, Text}
use cadmia.Prelude.Int.{ℤ}
use cadmia.Scalar.{Scalar}
use cadmia.Interval.{Interval}
use cadmia.Engine.{IadevsEngine}
use cadmia.CoupledModel.{CoupledModel}
use cadmia.Coordinator.Depth.{Spec, engine_at, start_at}
use cadmia.Coordinator.Nested.{
  clone_at-id, GoodAt, SoundModel, engine_at-IsSafe, SoundModel-IsSound,
}
use cadmia.Coordinator.Wired.Fine.{Spares}
use cadmia.Coordinator.Wired.Spares.{IsSafe}
use cadmia.RootCoordinator.{simulate}
use cadmia.RootCoordinator.Safe.{simulate-Spares}

-- A run of a model with sub-models to any depth throws no `std::out_of_range`, whatever the limits, if the
-- model and each of its sub-models is valid, with translations that throw none and a SELECT that answers
-- with one of the names that it is given, where there is one; and if each factory throws none and makes a
-- good atomic engine, good atomic engines throw none and stay good, and their `clone` makes an equal one.
-- A component may hold neither a factory nor a model.
pub nested-Spares {ℓ} :
    {T V A : Type ℓ} ⦃s : Scalar T⦄ (atom : IadevsEngine T V A) (Good : A → Type ℓ) (n : ℕ)
    (val_str : T → Text) (max_steps max_branches : ℤ) (model : CoupledModel T V (Spec atom n))
    (t : Interval T)
    → IsSafe atom Good
    → ((a : A) → atom.clone a ≡ a)
    → SoundModel atom Good n t model
    → Spares (simulate (engine_at atom n) val_str (start_at atom n) model t max_steps max_branches)
nested-Spares atom Good n val_str max_steps max_branches model t safe copies sound =
    simulate-Spares (engine_at atom n) (GoodAt atom Good n) val_str max_steps max_branches
      (start_at atom n) model t (engine_at-IsSafe atom Good n safe) (clone_at-id atom n copies)
      (SoundModel-IsSound atom Good n t model sound)
