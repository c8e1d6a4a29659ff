-- ===== src/Models/Processor/Time.antt =====
-- The time advance of the processor against exact times.
use cadmia.Prelude.{◌≡◌, refl, sym, subst, true, false, ok, on_ok, ok-injective, arith, is_nil, ◌∙◌}
use cadmia.Scalar.{Scalar, Arith}
use cadmia.Scalar.Exact.{Exact, RoundsOutward}
use cadmia.Interval.{Interval, interval, closed, is_empty, subtract}
use cadmia.Interval.Rounding.{encloses, subtract_sound}
use cadmia.Interval.Factories.{closed-eq-ok}
use cadmia.Models.Literals.{Literals}
use cadmia.Models.Generator.{clamp_time_interval}
use cadmia.Models.Generator.Clamp.{clamp_time_interval-encloses}
use cadmia.Models.Processor.{Jobs, jobs_scalar, clamp_non_negative, remaining, time_advance}

module _ {ℓ} {T : Type ℓ} ⦃s : Scalar T⦄ where
  -- The processor's clamp is the generator's.
  clamps_agree : (i : Interval T) → clamp_non_negative i ≡ clamp_time_interval i
  unfolding clamp_non_negative clamp_time_interval
  clamps_agree i = refl

module _ {κ} {T : Type 0} {R : Type κ} ⦃s : Scalar T⦄ ⦃m : Arith T⦄ ⦃e : Exact T R⦄
    (outward : RoundsOutward T R) where
  busy-remaining :
      (lit : Literals T) (i : Interval (Jobs T)) {ta : Interval T}
      → is_empty i ≡ false
      → is_nil i.lower.qj ≡ false
      → is_nil i.upper.qj ≡ false
      → time_advance lit i ≡ ok ta
      → remaining lit i ≡ ok ta
  unfolding time_advance
  busy-remaining lit i h a b k = ground arith

  -- For a state interval that is not empty, with a job at both ends, and with time arithmetic
  -- that rounds outward: when the processing time is `p` and `c` of it is spent, the time
  -- advance, when it returns, encloses the `p - c` that is left, if that is not negative.
  pub remaining_sound :
      (lit : Literals T) (i : Interval (Jobs T)) (ta : Interval T) (c p : R)
      → is_empty i ≡ false
      → is_nil i.lower.qj ≡ false
      → is_nil i.upper.qj ≡ false
      → time_advance lit i ≡ ok ta
      → encloses (interval i.lower.tocj i.upper.tocj true true) c ≡ true
      → encloses (interval lit.processing_time lit.processing_time true true) p ≡ true
      → e.under (e.difference p c) s.default_value ≡ false
      → encloses ta (e.difference p c) ≡ true
  unfolding remaining
  remaining_sound lit i ta c p full a b h k l later =
      on_ok (closed lit.processing_time lit.processing_time) _ (busy-remaining lit i full a b h)
        λ processing e₁ h₁. on_ok (closed i.lower.tocj i.upper.tocj) _ h₁ λ spent e₂ h₂.
          let whole : encloses processing p ≡ true =
            subst (λ q. encloses q p ≡ true)
              (sym (closed-eq-ok lit.processing_time lit.processing_time e₁).0) l in
          let part : encloses spent c ≡ true =
            subst (λ q. encloses q c ≡ true) (sym (closed-eq-ok i.lower.tocj i.upper.tocj e₂).0)
              k in
          subst (λ q. encloses q (e.difference p c) ≡ true)
            (sym (clamps_agree (subtract processing spent)) ∙ ok-injective h₂)
            (clamp_time_interval-encloses outward (subtract processing spent) (e.difference p c)
              later (subtract_sound outward processing spent p c whole part))
