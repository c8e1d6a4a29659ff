-- ===== src/Engine.antt =====
-- include/cadmia/engine/engine.hpp: `std::any`, translation functions, and the virtual interface
-- `IADEVSEngine<T>` that the simulator and the coordinator fill and the coordinator calls.
use cadmia.Prelude.{Bool, Option, none, some, Result, ok, err, bad_any_cast, ◌>>=◌, Text}
use cadmia.Interval.{Interval}

-- One type that `std::any` may hold: `std::any{a}`, and `std::any_cast<A>` on a pointer.
pub record Castable {ℓ} (V A : Type ℓ) : Type ℓ where
  pub wrap : A → V
  pub unwrap : V → Option A

-- `std::any_cast<A>`, which throws on another type.
abbrev pub any_cast {ℓ} : {V A : Type ℓ} → Castable V A → V → Result A
any_cast c v = elim (c.unwrap v) [ none ↦ err bad_any_cast | some a ↦ ok a ]

-- `translation_fn`.
abbrev pub Translation {ℓ} : Type ℓ → Type ℓ
Translation V = V → Result V

-- `make_translation<SrcOutput, DstInput>`; the user's function may throw.
unfoldable pub make_translation {ℓ} :
    {V A B : Type ℓ} → Castable V A → Castable V B → (A → Result B) → Translation V
make_translation source destination z y = do a ← any_cast source y; b ← z a; ok (destination.wrap b)

unfoldable pub identity_translation {ℓ} : {V : Type ℓ} → Translation V
identity_translation y = ok y

-- `IADEVSEngine<T>`: a method that mutates returns the new engine. `is_coordinator` stands for the
-- `dynamic_cast` to the coordinator type.
pub record IadevsEngine {ℓ} (T V E : Type ℓ) : Type ℓ where
  pub t_next : E → Interval T
  pub t_last : E → Interval T
  pub engine_star : Interval T → E → Result (E × Option Text × Option V)
  pub engine_x : V → Interval T → E → Result E
  pub advance_t_next_past_limit : Interval T → E → E
  pub clone : E → E
  pub engine_equals : E → E → Bool
  pub is_coordinator : E → Bool
