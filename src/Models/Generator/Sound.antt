-- ===== src/Models/Generator/Sound.antt =====
-- The generator beside those with an exact period and an exact output.
use cadmia.Prelude.{
  ◌≡◌, sym, subst, Bool, true, false, if◌then◌else◌, none, some, codes, ok, on_ok, ok-injective,
}
use cadmia.Scalar.{Scalar, Arith}
use cadmia.Scalar.Exact.{Exact, RoundsOutward}
use cadmia.Interval.{Interval, interval, closed, add}
use cadmia.Interval.Rounding.{encloses, add_sound}
use cadmia.Interval.Factories.{closed-eq-ok}
use cadmia.Simulator.Exactly.{ExactModel, IsSound}
use cadmia.Models.Literals.{Literals}
use cadmia.Models.Generator.{
  generator, internal_transition, external_transition, output, validate_state_interval,
}
use cadmia.Models.Generator.Clamp.{time_advance_sound}

module _ {ℓ κ} {T : Type ℓ} {R : Type κ} ⦃s : Scalar T⦄ ⦃e : Exact T R⦄ where
  -- A generator of period `p` that outputs `y`; its state is the time since the last output, zero after
  -- one. A period that has passed leaves nothing to wait for.
  abbrev pub exact_generator : R → R → R → ExactModel T T T R R R R
  exact_generator zero p y = record {
    internal = λ q. zero;
    external = λ q r a. e.sum q r;
    emit = λ q. y;
    wait =
        λ q. if e.under (e.difference p q) s.default_value then none else some (e.difference p q);
    has_state = encloses;
    has_input = encloses;
    has_output = encloses;
  }

  closed-encloses :
      (a b : T) (i : Interval T) (r : R)
      → closed a b ≡ ok i
      → encloses (interval a b true true) r ≡ true
      → encloses i r ≡ true
  closed-encloses a b i r h k = subst (λ j. encloses j r ≡ true) (sym (closed-eq-ok a b h).0) k

module _ {ℓ κ} {T : Type ℓ} {R : Type κ} ⦃s : Scalar T⦄ ⦃m : Arith T⦄ ⦃e : Exact T R⦄
    (outward : RoundsOutward T R) (lit : Literals T) where
  some_wait : (b : Bool) (q r : R) → (if b then none else some q) ≡ some r → (b ≡ false) × (q ≡ r)
  some_wait true q r h = absurd cc
  some_wait false q r h = (cc, cc)

  -- With time arithmetic that rounds outward: for each period and each output between the literals of the
  -- source, the four functions of the generator, where they return, lose no exact state, output or wait.
  pub generator-IsSound :
      (zero p y : R)
      → encloses (interval s.default_value s.default_value true true) zero ≡ true
      → encloses (interval lit.short_period lit.long_period true true) p ≡ true
      → encloses (interval lit.low_output lit.high_output true true) y ≡ true
      → IsSound (generator lit) (exact_generator zero p y)
  unfolding internal_transition external_transition output
  generator-IsSound zero p y at_zero period level = record {
    internal_sound = λ i j q h c.
        on_ok (validate_state_interval lit i (codes "internal_transition") (codes "state")) _ h
          λ u passed h₁. closed-encloses s.default_value s.default_value j zero h₁ at_zero;
    external_sound = λ i j elapsed input q r a h c within held.
        on_ok (validate_state_interval lit i (codes "external_transition") (codes "state")) _ h
          λ u passed h₁.
            on_ok
              (validate_state_interval lit elapsed (codes "external_transition") (codes "elapsed"))
              _ h₁
              λ u₁ passed₁ h₂.
                on_ok
                  (validate_state_interval lit (add i elapsed) (codes "external_transition")
                    (codes "state result"))
                  _ h₂
                  λ u₂ passed₂ h₃.
                    subst (λ k. encloses k (e.sum q r) ≡ true) (ok-injective h₃)
                      (add_sound outward i elapsed q r c within);
    output_sound = λ i out q h c. closed-encloses lit.low_output lit.high_output out y h level;
    advance_sound = λ i ta q r h c w.
        let (later, same) =
          some_wait (e.under (e.difference p q) s.default_value) (e.difference p q) r w in
        subst (λ r. encloses ta r ≡ true) same
          (time_advance_sound outward lit i ta q p h c period later);
  }
