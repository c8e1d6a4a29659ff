-- ===== src/Models/Literals.antt =====
-- The floating-point literals of the models, as values of the time type.
pub record Literals {ℓ} (T : Type ℓ) : Type ℓ where
  -- 0.997 and 1.005 of the generator's period, the latter its largest elapsed time too.
  pub short_period : T
  pub long_period : T
  -- 1.997 and 2.003.
  pub low_output : T
  pub high_output : T
  -- 0.250.
  pub processing_time : T
