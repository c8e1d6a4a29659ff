-- ===== src/Simulator/Exactly.antt =====
-- Exact runs of a model, on single states, times and values, beside `simulator<M>` on intervals of them.
use cadmia.Prelude.{
  ◌≡◌, true, false, not, Bool, if◌then◌else◌, Option, some, List, [], ◌∷◌, Result, ok, ◌>>=◌,
}
use cadmia.Scalar.{Scalar, Arith}
use cadmia.Scalar.Exact.{Exact}
use cadmia.Interval.{Interval}
use cadmia.Interval.Rounding.{encloses}
use cadmia.AtomicModel.{AtomicModel}
use cadmia.Simulator.{Simulator, init, star, x, advance}

-- A DEVS model on single states: its four functions, `none` for an infinite time advance, and which of
-- its states, inputs and outputs an interval stands for.
pub record ExactModel {ℓ κ} (S X Y : Type ℓ) (Q R A B : Type κ) : Type (ℓ ⊔ κ) where
  pub internal : Q → Q
  pub external : Q → R → A → Q
  pub emit : Q → B
  pub wait : Q → Option R
  pub has_state : Interval S → Q → Bool
  pub has_input : Interval X → A → Bool
  pub has_output : Interval Y → B → Bool

-- The four functions of the model, where they return, lose no exact state, wait or output.
pub record IsSound {ℓ κ} {S T X Y : Type ℓ} {Q R A B : Type κ} ⦃e : Exact T R⦄
    (model : AtomicModel S T X Y) (exact : ExactModel S X Y Q R A B) : Type (ℓ ⊔ κ) where
  pub internal_sound :
      (i j : Interval S) (q : Q)
      → model.internal_transition i ≡ ok j
      → exact.has_state i q ≡ true
      → exact.has_state j (exact.internal q) ≡ true
  pub external_sound :
      (i j : Interval S) (elapsed : Interval T) (input : Interval X) (q : Q) (r : R) (a : A)
      → model.external_transition i elapsed input ≡ ok j
      → exact.has_state i q ≡ true
      → encloses elapsed r ≡ true
      → exact.has_input input a ≡ true
      → exact.has_state j (exact.external q r a) ≡ true
  pub output_sound :
      (i : Interval S) (y : Interval Y) (q : Q)
      → model.output i ≡ ok y
      → exact.has_state i q ≡ true
      → exact.has_output y (exact.emit q) ≡ true
  pub advance_sound :
      (i : Interval S) (ta : Interval T) (q : Q) (r : R)
      → model.time_advance i ≡ ok ta
      → exact.has_state i q ≡ true
      → exact.wait q ≡ some r
      → encloses ta r ≡ true

-- What a simulator is asked to do: `star` within an interval of time, `x` with an input, or
-- `advance_t_next_past_limit`.
pub data Event {ℓ} (T X : Type ℓ) : Type ℓ where
  fire : Interval T → Event T X
  defer : Interval T → Event T X
  arrive : Interval T → Interval X → Event T X

module _ {ℓ} {S T X Y : Type ℓ} ⦃s : Scalar T⦄ ⦃m : Arith T⦄ (model : AtomicModel S T X Y) where
  -- The calls one after the other, with the outputs of the stars; an exception ends them.
  unfoldable pub drive :
      List (Event T X) → Simulator S T → Result (Simulator S T × List (Option (Interval Y)))
  drive [] sim = ok (sim, [])
  drive (fire t ∷ events) sim = do
    (next, out) ← star model t sim
    (last, outs) ← drive events next
    ok (last, out ∷ outs)
  drive (defer limit ∷ events) sim = drive events (advance limit sim)
  drive (arrive t value ∷ events) sim = do next ← x model value t sim; drive events next

  -- `init` and then the calls.
  unfoldable pub operate :
      Interval S
      → Interval T
      → Interval T
      → List (Event T X)
      → Result (Simulator S T × List (Option (Interval Y)))
  operate q_state q_time t events = do sim ← init model q_state q_time t; drive events sim

module _ {ℓ κ} {T : Type ℓ} {R : Type κ} ⦃e : Exact T R⦄ where
  -- The exact time comes after all of the interval.
  abbrev pub exact_beyond : Interval T → R → Bool
  exact_beyond i r = if i.upper_closed then e.over i.upper r else not (e.under r i.upper)

module _ {ℓ κ} {S T X Y : Type ℓ} {Q R A B : Type κ} ⦃s : Scalar T⦄ ⦃e : Exact T R⦄
    (exact : ExactModel S X Y Q R A B) where
  -- An exact run from a state entered at a time, through one event for each call of star or x, at an exact
  -- time of the call's interval; with the state and time it ends in, and its outputs.
  pub data Run : List (Event T X) → Q → R → Q → R → List B → Type (ℓ ⊔ κ) where
    stay : (q : Q) (last : R) → Run [] q last q last []
    fired :
        {events : List (Event T X)} {t : Interval T} {q q' : Q} {last last' r : R} {outs : List B}
        → exact.wait q ≡ some r
        → encloses t (e.sum last r) ≡ true
        → Run events (exact.internal q) (e.sum last r) q' last' outs
        → Run (fire t ∷ events) q last q' last' (exact.emit q ∷ outs)
    -- A call that changes nothing of the exact run, whose next event comes after the limit.
    deferred :
        {events : List (Event T X)} {limit : Interval T} {q q' : Q} {last last' : R} {outs : List B}
        → ((r : R) → exact.wait q ≡ some r → exact_beyond limit (e.sum last r) ≡ true)
        → Run events q last q' last' outs
        → Run (defer limit ∷ events) q last q' last' outs
    arrived :
        {events : List (Event T X)} {t : Interval T} {value : Interval X} {q q' : Q}
        {last last' now : R} {a : A} {outs : List B}
        → exact.has_input value a ≡ true
        → encloses t now ≡ true
        → e.under (e.difference now last) s.default_value ≡ false
        → Run events (exact.external q (e.difference now last) a) now q' last' outs
        → Run (arrive t value ∷ events) q last q' last' outs
