-- ===== src/Scalar/Laws.antt =====
-- `std::totally_ordered<T>`, away from NaN: a strict weak order, so that two values which compare
-- equal (as 0.0 and -0.0) need not be identical.
use cadmia.Prelude.{◌≡◌, true, false, not, ◌&&◌}
use cadmia.Scalar.{Scalar}

pub record IsOrdered {ℓ} (T : Type ℓ) ⦃s : Scalar T⦄ : Type ℓ where
  pub irrefl : (a : T) → s.less a a ≡ false
  pub asymm : (a b : T) → s.less a b ≡ true → s.less b a ≡ false
  pub neg_trans : (a b c : T) → s.less a b ≡ false → s.less b c ≡ false → s.less a c ≡ false
  pub equal-eq : (a b : T) → s.equal a b ≡ (not (s.less a b) && not (s.less b a))
  pub infinity_greatest : (a : T) → s.has_infinity ≡ true → s.less s.infinity a ≡ false
  pub neg_infinity_least : (a : T) → s.has_infinity ≡ true → s.less a s.neg_infinity ≡ false
