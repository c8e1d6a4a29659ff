-- ===== src/Simulator/Schedule.antt =====
-- init, * and x of `simulator<M>`: what they refuse, and the schedule that they leave behind.
use mathlib.Core.Path.{subst₂}
use cadmia.Prelude.{
  ok-injective, on_ok, subst, throw_if-eq-ok, not-eq-false, ap, ◌≡◌, refl, true, false, not, Option,
  some, codes, ok, err, throw_if, logic_error, is_ok, ◌>>=◌, ◌>>◌, ◌&&◌, Bool, Result, arith,
}
use cadmia.Scalar.{Scalar, Arith}
use cadmia.Scalar.Exact.{Exact, RoundsOutward}
use cadmia.Interval.{Interval, is_subset_of, add, subtract}
use cadmia.Interval.Rounding.{encloses, add_sound}
use cadmia.AtomicModel.{AtomicModel}
use cadmia.Simulator.{Simulator, init, star, x, schedule, local_elapsed}

module _ {ℓ} {S T X Y : Type ℓ} ⦃s : Scalar T⦄ ⦃m : Arith T⦄ (model : AtomicModel S T X Y) where
  -- Algorithm 1's invariant: `t_next` is `t_last` plus the time advance of the state.
  pub record IsScheduled (sim : Simulator S T) : Type ℓ where
    pub advance : Interval T
    pub advance_eq : model.time_advance sim.state ≡ ok advance
    pub t_next_eq : sim.t_next ≡ add sim.t_last advance

  schedule-IsScheduled :
      (state : Interval S) (t : Interval T) (sim : Simulator S T)
      → schedule model state t ≡ ok sim
      → IsScheduled sim × (sim.t_last ≡ t) × (sim.state ≡ state)
  unfolding schedule
  schedule-IsScheduled state t sim h = on_ok (model.time_advance state) _ h λ ta e k.
      subst (λ q. IsScheduled q × (q.t_last ≡ t) × (q.state ≡ state)) (ok-injective k)
        (record { advance = ta; advance_eq = e; t_next_eq = refl }, refl, refl)

  -- `init`, when it returns, sets the last event back by the elapsed time and schedules the next
  -- one from there.
  pub init_lem :
      (q_state : Interval S) (q_time t : Interval T) (sim : Simulator S T)
      → init model q_state q_time t ≡ ok sim
      → IsScheduled sim × (sim.t_last ≡ subtract t q_time) × (sim.state ≡ q_state)
  unfolding init
  init_lem q_state q_time t sim h = schedule-IsScheduled q_state (subtract t q_time) sim h

  -- The postcondition of `star`.
  pub record Fired (t : Interval T) (sim next : Simulator S T) (out : Option (Interval Y))
      : Type ℓ where
    pub on_time : is_subset_of t sim.t_next ≡ true
    pub emitted : (y : Interval Y) × (model.output sim.state ≡ ok y) × (out ≡ some y)
    pub moved : model.internal_transition sim.state ≡ ok next.state
    pub stamped : next.t_last ≡ t
    pub scheduled : IsScheduled next

  -- A *-function that returns was called inside `t_next`; it emits the output of the old state, makes the
  -- internal transition, stamps the event time, and schedules the next event.
  pub star_lem :
      (t : Interval T) (sim next : Simulator S T) (out : Option (Interval Y))
      → star model t sim ≡ ok (next, out)
      → Fired t sim next out
  unfolding star
  star_lem t sim next out h = on_ok (throw_if (not (is_subset_of t sim.t_next)) _) _ h λ u guard h₁.
      on_ok (model.output sim.state) _ h₁ λ y emitted h₂.
        on_ok (model.internal_transition sim.state) _ h₂ λ state moved h₃.
          on_ok (schedule model state t) _ h₃ λ sim' scheduled h₄.
            let pair = ok-injective h₄ in
            let on_time : is_subset_of t sim.t_next ≡ true =
              not-eq-false _ (throw_if-eq-ok _ _ guard) in
            let (invariant, stamped, kept) = schedule-IsScheduled state t sim' scheduled in
            subst₂ (Fired t sim) (ap (λ p. p.0) pair) (ap (λ p. p.1) pair) (record {
              on_time = on_time;
              emitted = (y, emitted, refl);
              moved = rw kept moved;
              stamped = stamped;
              scheduled = invariant;
            })

  -- The *-function returns exactly when its time is inside `t_next` and the model's output, its internal
  -- transition, and the time advance of the state after it return.
  pub star_returns_iff :
      (t : Interval T) (sim : Simulator S T)
      → is_ok (star model t sim) ≡ (
          is_subset_of t sim.t_next
          && is_ok (model.output sim.state)
          && is_ok (model.internal_transition sim.state >>= model.time_advance))
  unfolding star schedule
  star_returns_iff t sim =
      returns (is_subset_of t sim.t_next) (model.output sim.state)
        (model.internal_transition sim.state)
    where
      returns :
          (on_time : Bool) (y : Result (Interval Y)) (state : Result (Interval S))
          → is_ok {A = Simulator S T × Option (Interval Y)} (do
            throw_if (not on_time) (logic_error (codes "star: time t is not a subset of t_next"))
            out ← y
            next ← state
            after ← schedule model next t
            ok (after, some out))
            ≡ (on_time && is_ok y && is_ok (state >>= model.time_advance))
      returns false y state = refl
      returns true (err e) state = refl
      returns true (ok y) (err e) = refl
      returns true (ok y) (ok state) = ground arith

  -- The x-function, when it returns, has applied the external transition to the local elapsed
  -- time, stamped the event time, and scheduled the next event.
  pub x_lem :
      (value : Interval X) (t : Interval T) (sim next : Simulator S T)
      → x model value t sim ≡ ok next
      → IsScheduled next
        × (next.t_last ≡ t)
        × (model.external_transition sim.state (local_elapsed t sim.t_last) value ≡ ok next.state)
  unfolding x
  x_lem value t sim next h =
      on_ok (model.external_transition sim.state (local_elapsed t sim.t_last) value) _ h
        λ state moved k.
          let (invariant, stamped, kept) = schedule-IsScheduled state t next k in
          (invariant, stamped, rw kept moved)

module _ {ℓ κ} {S T X Y : Type ℓ} {R : Type κ} ⦃s : Scalar T⦄ ⦃m : Arith T⦄ ⦃e : Exact T R⦄
    (outward : RoundsOutward T R) (model : AtomicModel S T X Y) where
  -- With time arithmetic that rounds outward, and `t_next` as the time advance schedules it: if
  -- the last event happened at `a`, and the model may wait for `d`, then `a + d` is in `t_next`.
  pub next_event_enclosed :
      (sim : Simulator S T) (invariant : IsScheduled model sim) (a d : R)
      → encloses sim.t_last a ≡ true
      → encloses invariant.advance d ≡ true
      → encloses sim.t_next (e.sum a d) ≡ true
  next_event_enclosed sim invariant a d h k =
      rw invariant.t_next_eq (add_sound outward sim.t_last invariant.advance a d h k)
