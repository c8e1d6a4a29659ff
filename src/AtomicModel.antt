-- ===== src/AtomicModel.antt =====
-- include/cadmia/concepts/iadevs_atomic_model.hpp: the four static functions that the concept
-- `IADEVSAtomicModel` asks of a model. Each may throw.
use cadmia.Prelude.{Result}
use cadmia.Interval.{Interval}

pub record AtomicModel {ℓ} (S T X Y : Type ℓ) : Type ℓ where
  pub internal_transition : Interval S → Result (Interval S)
  pub external_transition : Interval S → Interval T → Interval X → Result (Interval S)
  pub output : Interval S → Result (Interval Y)
  pub time_advance : Interval S → Result (Interval T)
