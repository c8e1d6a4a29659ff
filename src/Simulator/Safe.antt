-- ===== src/Simulator/Safe.antt =====
-- The exceptions of `simulator<M>`, apart from those of its model.
use cadmia.Prelude.{not, Text, Result, ok, throw_if, none, some, Option, err, bad_any_cast}
use cadmia.Scalar.{Scalar, Arith}
use cadmia.Interval.{Interval, is_subset_of}
use cadmia.AtomicModel.{AtomicModel}
use cadmia.Engine.{Castable, any_cast}
use cadmia.Coordinator.Wired.Fine.{Spares, Fine, Fine-ok, Fine-bind, Fine-throw_if}
use cadmia.Coordinator.Wired.Spares.{IsSafe}
use cadmia.Simulator.{
  Simulator, schedule, star, x, init, engine_star, engine_x, local_elapsed, simulator_engine,
}

module _ {ℓ} {S T X Y : Type ℓ} where
  -- The four functions of a model throw no `std::out_of_range`.
  pub record IsSparing (model : AtomicModel S T X Y) : Type ℓ where
    pub internal_spares : (s : Interval S) → Spares (model.internal_transition s)
    pub external_spares :
        (s : Interval S) (elapsed : Interval T) (value : Interval X)
        → Spares (model.external_transition s elapsed value)
    pub output_spares : (s : Interval S) → Spares (model.output s)
    pub time_advance_spares : (s : Interval S) → Spares (model.time_advance s)

module _ {ℓ} {S T : Type ℓ} where
  abbrev pub AnySimulator : Simulator S T → Type ℓ
  AnySimulator sim = Unit

module _ {ℓ} {A : Type ℓ} where
  Fine-any : (m : Result A) → Spares m → Fine (λ a. Unit {0}) m
  Fine-any m p = (p, λ a h. tt)

module _ {ℓ} {S T X Y : Type ℓ} ⦃s : Scalar T⦄ ⦃m : Arith T⦄ (model : AtomicModel S T X Y)
    (sparing : IsSparing model) where
  schedule-Fine : (q : Interval S) (t : Interval T) → Fine AnySimulator (schedule model q t)
  unfolding schedule
  schedule-Fine q t =
      Fine-bind (λ ta. Unit {0}) AnySimulator (model.time_advance q) _
        (Fine-any (model.time_advance q) (sparing.time_advance_spares q))
        λ ta u. Fine-ok AnySimulator _ tt

  -- A new simulator.
  pub init-Fine :
      (q : Interval S) (elapsed t : Interval T) → Fine AnySimulator (init model q elapsed t)
  unfolding init
  init-Fine q elapsed t = schedule-Fine q _

  star-Fine : (t : Interval T) (sim : Simulator S T) → Fine (λ r. Unit {0}) (star model t sim)
  unfolding star
  star-Fine t sim =
      Fine-bind _ (λ r. Unit {0}) (throw_if (not (is_subset_of t sim.t_next)) _) _
        (Fine-throw_if (not (is_subset_of t sim.t_next)) _)
        λ u v.
          Fine-bind (λ y. Unit {0}) (λ r. Unit {0}) (model.output sim.state) _
            (Fine-any (model.output sim.state) (sparing.output_spares sim.state))
            λ y v₁.
              Fine-bind (λ q. Unit {0}) (λ r. Unit {0}) (model.internal_transition sim.state) _
                (Fine-any (model.internal_transition sim.state) (sparing.internal_spares sim.state))
                λ q v₂.
                  Fine-bind AnySimulator (λ r. Unit {0}) (schedule model q t) _ (schedule-Fine q t)
                    λ next v₃. Fine-ok (λ r. Unit {0}) _ tt

  x-Fine :
      (value : Interval X) (t : Interval T) (sim : Simulator S T)
      → Fine AnySimulator (x model value t sim)
  unfolding x
  x-Fine value t sim =
      let elapsed = local_elapsed t sim.t_last in
      Fine-bind (λ q. Unit {0}) AnySimulator (model.external_transition sim.state elapsed value) _
        (Fine-any (model.external_transition sim.state elapsed value)
          (sparing.external_spares sim.state elapsed value))
        λ q u. schedule-Fine q t

any_cast-Fine {ℓ} : {V A : Type ℓ} (c : Castable V A) (v : V) → Fine (λ a. Unit {0}) (any_cast c v)
any_cast-Fine {A} c v = cast (c.unwrap v)
  where
    cast :
        (o : Option A) → Fine (λ a. Unit {0}) (elim o [ none ↦ err bad_any_cast | some a ↦ ok a ])
    cast none = (λ h. cc, λ a h. tt)
    cast (some a) = Fine-ok (λ a. Unit {0}) a tt

module _ {ℓ} {S T X Y V : Type ℓ} ⦃ss : Scalar S⦄ ⦃s : Scalar T⦄ ⦃ys : Scalar Y⦄ ⦃m : Arith T⦄
    (model : AtomicModel S T X Y) (input : Castable V (Interval X))
    (output : Castable V (Interval Y)) (show : Y → Text) where
  -- The simulator of a model whose functions throw no `std::out_of_range` is a safe child.
  pub simulator_engine-IsSafe :
      IsSparing model → IsSafe (simulator_engine model input output show) AnySimulator
  unfolding engine_star engine_x
  simulator_engine-IsSafe sparing = record {
    star_safe = λ t sim u.
        Fine-bind (λ r. Unit {0}) (λ r. AnySimulator r.0) (star model t sim) _
          (star-Fine model sparing t sim) λ r v. Fine-ok (λ r. AnySimulator r.0) _ tt;
    x_safe = λ value t sim u.
        Fine-bind (λ typed. Unit {0}) AnySimulator (any_cast input value) _
          (any_cast-Fine input value) λ typed v. x-Fine model sparing typed t sim;
    advance_safe = λ limit sim u. tt;
  }
