-- ===== src/Models/Generator/Clamp.antt =====
-- The time advance of the generator against exact times.
use cadmia.Prelude.{◌≡◌, sym, subst, true, false, codes, ok, on_ok, ok-injective, arith}
use cadmia.Scalar.{Scalar, Arith}
use cadmia.Scalar.Laws.{IsOrdered}
use cadmia.Scalar.Exact.{Exact, RoundsOutward}
use cadmia.Interval.{Interval, interval, closed, subtract}
use cadmia.Interval.Membership.{has, is_empty_sound}
use cadmia.Interval.Rounding.{encloses, subtract_sound}
use cadmia.Interval.Factories.{closed-eq-ok}
use cadmia.Models.Literals.{Literals}
use cadmia.Models.Generator.{clamp_time_interval, time_advance, validate_state_interval}

module _ {ℓ} {T : Type ℓ} ⦃s : Scalar T⦄ (laws : IsOrdered T) where
  -- Over an ordered time type a clamped interval has no negative point.
  pub clamp_time_interval_nonneg :
      (i : Interval T) (v : T)
      → has (clamp_time_interval i) v ≡ true
      → s.less v s.default_value ≡ false
  unfolding clamp_time_interval
  clamp_time_interval_nonneg i v h = ground (
    arith,
    is_empty_sound laws i v,
    laws.asymm i.lower v,
    laws.neg_trans v i.lower s.default_value,
    laws.asymm v s.default_value,
  )

module _ {ℓ κ} {T : Type ℓ} {R : Type κ} ⦃s : Scalar T⦄ ⦃m : Arith T⦄ ⦃e : Exact T R⦄
    (outward : RoundsOutward T R) where
  -- Clamping loses no number that is not negative.
  pub clamp_time_interval-encloses :
      (i : Interval T) (r : R)
      → e.under r s.default_value ≡ false
      → encloses i r ≡ true
      → encloses (clamp_time_interval i) r ≡ true
  unfolding clamp_time_interval
  clamp_time_interval-encloses i r h k =
      ground (arith, outward.over_of_lt i.upper s.default_value r, outward.over_under i.upper r)

  -- With time arithmetic that rounds outward, a generator that has waited for `a` and whose
  -- period is `p` may wait for `p - a` more, if that is not negative: the time advance, when it
  -- returns, encloses it.
  pub time_advance_sound :
      (lit : Literals T) (i ta : Interval T) (a p : R)
      → time_advance lit i ≡ ok ta
      → encloses i a ≡ true
      → encloses (interval lit.short_period lit.long_period true true) p ≡ true
      → e.under (e.difference p a) s.default_value ≡ false
      → encloses ta (e.difference p a) ≡ true
  unfolding time_advance
  time_advance_sound lit i ta a p h k l later =
      on_ok (validate_state_interval lit i (codes "time_advance") (codes "state")) _ h
        λ u passed h₁. on_ok (closed lit.short_period lit.long_period) _ h₁ λ period e₁ h₂.
          let whole : encloses period p ≡ true =
            subst (λ q. encloses q p ≡ true)
              (sym (closed-eq-ok lit.short_period lit.long_period e₁).0) l in
          subst (λ q. encloses q (e.difference p a) ≡ true) (ok-injective h₂)
            (clamp_time_interval-encloses (subtract period i) (e.difference p a) later
              (subtract_sound outward period i p a whole k))
