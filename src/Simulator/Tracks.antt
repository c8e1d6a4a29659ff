-- ===== src/Simulator/Tracks.antt =====
-- `simulator<M>` against the exact runs of its model.
use cadmia.Prelude.{
  ◌≡◌, refl, inl, inr, not, ◌||◌, Bool-cases, sym, subst, true, false, Bool, Option, some, none,
  List, [], ◌∷◌, ok, on_ok, ok-injective, arith,
}
use cadmia.Scalar.{Scalar, Arith}
use cadmia.Scalar.Laws.{IsOrdered}
use cadmia.Scalar.Exact.{Exact, RoundsOutward}
use cadmia.Interval.{Interval, is_punctual, is_empty, intersects}
use cadmia.Interval.Rounding.{encloses, subtract_sound}
use cadmia.AtomicModel.{AtomicModel}
use cadmia.Simulator.{Simulator, init, star, x, local_elapsed, advance}
use cadmia.Simulator.Schedule.{IsScheduled, init_lem, star_lem, x_lem, next_event_enclosed}
use cadmia.Simulator.Elapsed.{local_elapsed_sound}
use cadmia.Simulator.Exactly.{
  ExactModel, IsSound, Event, fire, arrive, defer, deferred, exact_beyond, drive, operate, Run,
  stay, fired, arrived,
}

module _ {ℓ κ} {Y : Type ℓ} {B : Type κ} (has_output : Interval Y → B → Bool) where
  -- The outputs of the calls hold those of the exact run, one by one.
  abbrev pub Holds : List (Option (Interval Y)) → List B → Type 0
  Holds [] [] = Unit
  Holds [] (b ∷ bs) = ⊥
  Holds (none ∷ outs) bs = ⊥
  Holds (some y ∷ outs) [] = ⊥
  Holds (some y ∷ outs) (b ∷ bs) = (has_output y b ≡ true) × Holds outs bs

module _ {ℓ} {S T : Type ℓ} ⦃s : Scalar T⦄ where
  advance_keeps :
      (limit : Interval T) (sim : Simulator S T)
      → ((advance limit sim).state ≡ sim.state) × ((advance limit sim).t_last ≡ sim.t_last)
  unfolding advance
  advance_keeps limit sim =
      elim (Bool-cases (is_empty sim.t_next || not (intersects sim.t_next limit))) [
        | inl e ↦ rw e (refl, refl)
        | inr e ↦ elim (Bool-cases (is_punctual limit)) [
          | inl p ↦ rw (e, p) (refl, refl)
          | inr p ↦ rw (e, p) (refl, refl)
        ]
      ]

module _ {ℓ κ} {S T X Y : Type ℓ} {Q R A B : Type κ} ⦃e : Exact T R⦄
    (exact : ExactModel S X Y Q R A B) where
  -- A simulator stands for an exact state, for the time at which it was entered, and for its next event.
  pub record Tracks (sim : Simulator S T) (q : Q) (last : R) : Type (ℓ ⊔ κ) where
    pub state_held : exact.has_state sim.state q ≡ true
    pub last_held : encloses sim.t_last last ≡ true
    pub next_held : (r : R) → exact.wait q ≡ some r → encloses sim.t_next (e.sum last r) ≡ true

module _ {ℓ κ} {S T X Y : Type ℓ} {Q R A B : Type κ} ⦃s : Scalar T⦄ ⦃m : Arith T⦄ ⦃e : Exact T R⦄
    (laws : IsOrdered T) (outward : RoundsOutward T R) (model : AtomicModel S T X Y)
    (exact : ExactModel S X Y Q R A B) (sound : IsSound model exact) where
  entered :
      (sim : Simulator S T) (q : Q) (last : R)
      → IsScheduled model sim
      → exact.has_state sim.state q ≡ true
      → encloses sim.t_last last ≡ true
      → Tracks exact sim q last
  entered sim q last scheduled held since = record {
    state_held = held;
    last_held = since;
    next_held = λ r w.
        next_event_enclosed outward model sim scheduled last r since
          (sound.advance_sound sim.state scheduled.advance q r scheduled.advance_eq held w);
  }

  star-Tracks :
      (t : Interval T) (sim next : Simulator S T) (out : Option (Interval Y)) (q : Q) (last r : R)
      → Tracks exact sim q last
      → encloses t (e.sum last r) ≡ true
      → star model t sim ≡ ok (next, out)
      → Tracks exact next (exact.internal q) (e.sum last r)
        × (y : Interval Y) × (out ≡ some y)
        × (exact.has_output y (exact.emit q) ≡ true)
  star-Tracks t sim next out q last r k within h =
      let done = star_lem model t sim next out h in
      let (y, output_eq, out_eq) = done.emitted in
      (
        entered next (exact.internal q) (e.sum last r) done.scheduled
            (sound.internal_sound sim.state next.state q done.moved k.state_held)
            (subst (λ i. encloses i (e.sum last r) ≡ true) (sym done.stamped) within),
        y,
        out_eq,
        sound.output_sound sim.state y q output_eq k.state_held,
      )

  x-Tracks :
      (value : Interval X) (t : Interval T) (sim next : Simulator S T) (q : Q) (last now : R)
      (a : A)
      → m.is_floating ≡ false
      → Tracks exact sim q last
      → exact.has_input value a ≡ true
      → encloses t now ≡ true
      → e.under (e.difference now last) s.default_value ≡ false
      → x model value t sim ≡ ok next
      → Tracks exact next (exact.external q (e.difference now last) a) now
  x-Tracks value t sim next q last now a integral k input within later h =
      let (scheduled, stamped, moved) = x_lem model value t sim next h in
      entered next (exact.external q (e.difference now last) a) now scheduled
        (sound.external_sound sim.state next.state (local_elapsed t sim.t_last) value q
          (e.difference now last) a moved k.state_held
          (local_elapsed_sound outward t sim.t_last now last integral within k.last_held later)
          input)
        (subst (λ i. encloses i now ≡ true) (sym stamped) within)

  -- What is left of `t_next` after a limit encloses the times after it.
  advance-encloses :
      (limit : Interval T) (sim : Simulator S T) (r : R)
      → encloses sim.t_next r ≡ true
      → exact_beyond limit r ≡ true
      → encloses (advance limit sim).t_next r ≡ true
  unfolding advance is_punctual
  advance-encloses limit sim r h later = ground (
    arith,
    laws.equal-eq limit.lower limit.upper,
    outward.over_under limit.upper r,
    outward.over_of_le limit.lower limit.upper r,
  )

  advance-Tracks :
      (limit : Interval T) (sim : Simulator S T) (q : Q) (last : R)
      → ((r : R) → exact.wait q ≡ some r → exact_beyond limit (e.sum last r) ≡ true)
      → Tracks exact sim q last
      → Tracks exact (advance limit sim) q last
  advance-Tracks limit sim q last later k = record {
    state_held =
        subst (λ i. exact.has_state i q ≡ true) (sym (advance_keeps limit sim).0) k.state_held;
    last_held = subst (λ i. encloses i last ≡ true) (sym (advance_keeps limit sim).1) k.last_held;
    next_held = λ r w. advance-encloses limit sim (e.sum last r) (k.next_held r w) (later r w);
  }

  drive-Tracks :
      (events : List (Event T X)) (sim next : Simulator S T) (outs : List (Option (Interval Y)))
      (q q' : Q) (last last' : R) (ys : List B)
      → m.is_floating ≡ false
      → Tracks exact sim q last
      → Run exact events q last q' last' ys
      → drive model events sim ≡ ok (next, outs)
      → Tracks exact next q' last' × Holds exact.has_output outs ys
  unfolding drive
  drive-Tracks [] sim next outs q q' last last' ys integral k (stay q₁ last₁) h =
      subst (λ p. Tracks exact p.0 q last × Holds exact.has_output p.1 []) (ok-injective h) (k, tt)
  drive-Tracks (fire t ∷ events) sim next outs q q' last last' ys integral k (fired w within run)
        h =
      on_ok (star model t sim) _ h λ step e₁ h₁.
        on_ok (drive model events step.0) _ h₁ λ rest e₂ h₂.
          let (tracked, y, out_eq, held) = star-Tracks t sim step.0 step.1 q last _ k within e₁ in
          let (after, outputs) =
            drive-Tracks events step.0 rest.0 rest.1 _ q' _ last' _ integral tracked run e₂ in
          subst (λ p. Tracks exact p.0 q' last' × Holds exact.has_output p.1 ys) (ok-injective h₂)
            (after, rw out_eq (held, outputs))
  drive-Tracks (defer limit ∷ events) sim next outs q q' last last' ys integral k
        (deferred later run) h =
      drive-Tracks events (advance limit sim) next outs q q' last last' ys integral
        (advance-Tracks limit sim q last later k) run h
  drive-Tracks (arrive t value ∷ events) sim next outs q q' last last' ys integral k
        (arrived input within later run) h =
      on_ok (x model value t sim) _ h λ step e₁ h₁.
        drive-Tracks events step next outs _ q' _ last' ys integral
          (x-Tracks value t sim step q last _ _ integral k input within later e₁) run h₁

  -- With sound model functions, and ordered times whose arithmetic rounds outward and is exact to nearest:
  -- a simulator is initialised with an interval that holds the state, at a time and with an elapsed time
  -- that enclose exact ones; it is called once for each event of an exact run, at an interval that encloses
  -- the event's time, and in between to pass limits that end before the run's next event. If no call
  -- throws, it ends with the run's state and time, and with `t_next` enclosing the run's next event, and
  -- its outputs hold those of the run.
  pub operate_refines :
      (q_state : Interval S) (q_time t : Interval T) (events : List (Event T X))
      (next : Simulator S T) (outs : List (Option (Interval Y))) (q q' : Q) (elapsed now last' : R)
      (ys : List B)
      → m.is_floating ≡ false
      → exact.has_state q_state q ≡ true
      → encloses q_time elapsed ≡ true
      → encloses t now ≡ true
      → Run exact events q (e.difference now elapsed) q' last' ys
      → operate model q_state q_time t events ≡ ok (next, outs)
      → (exact.has_state next.state q' ≡ true)
        × (encloses next.t_last last' ≡ true)
        × ((r : R) → exact.wait q' ≡ some r → encloses next.t_next (e.sum last' r) ≡ true)
        × Holds exact.has_output outs ys
  unfolding operate
  operate_refines q_state q_time t events next outs q q' elapsed now last' ys integral held since at
        run h =
      on_ok (init model q_state q_time t) _ h λ sim e₁ h₁.
        let (scheduled, stamped, kept) = init_lem model q_state q_time t sim e₁ in
        let begun : Tracks exact sim q (e.difference now elapsed) =
          entered sim q (e.difference now elapsed) scheduled
            (subst (λ i. exact.has_state i q ≡ true) (sym kept) held)
            (subst (λ i. encloses i (e.difference now elapsed) ≡ true) (sym stamped)
              (subtract_sound outward t q_time now elapsed at since)) in
        let (k, outputs) =
          drive-Tracks events sim next outs q q' (e.difference now elapsed) last' ys integral begun
            run h₁ in
        (k.state_held, k.last_held, k.next_held, outputs)
