-- ===== src/Coordinator/Wired/Ready.antt =====
-- The lookups of names in `init` and in the virtual functions of the coordinator.
use cadmia.Prelude.{
  ◌≡◌, refl, sym, subst, ◌↔◌, Bool-cases, inl, inr, not, List, [], ◌∷◌, Text, Result, is_nil, All,
}
use cadmia.Prelude.Maps.{assign, keys, Listed}
use cadmia.Prelude.Distinct.{IsDistinct}
use cadmia.Scalar.{Scalar}
use cadmia.Interval.{Interval}
use cadmia.Engine.{IadevsEngine}
use cadmia.CoupledModel.{CoupledModel}
use cadmia.CoupledModel.Valid.{IsValid}
use cadmia.Coordinator.State.{Coordinator, init, new_coordinator, start_all, bound_ts}
use cadmia.Coordinator.Branching.{BranchAction, compute_branches}
use cadmia.Coordinator.Routing.{Outcome, execute_branch, x_function}
use cadmia.Coordinator.Interface.{
  chosen_action, star_of, as_star, engine_star, advance_t_next_past_limit, coordinator_engine,
}
use cadmia.Coordinator.Bounded.{execute_branch-IsBounded, x_function-IsBounded, init-IsBounded}
use cadmia.Coordinator.Wired.Keys.{keys-advance_all, keys-execute_branch}
use cadmia.Coordinator.Wired.Spares.{IsSafe, Total, AllGood, advance_all-AllGood}
use cadmia.Coordinator.Wired.Lookups.{IsWired, IsKnown, execute_branch-IsWired, x_function-IsWired}
use cadmia.Coordinator.Wired.Start.{init-IsWired}
use cadmia.Coordinator.Wired.Known.{Answers, compute_branches-IsKnown}
use cadmia.Coordinator.Wired.Fine.{Fine, Fine-ok, Fine-bind, Fine-map, All-assign}

chosen-All {ℓ κ} :
    {T : Type ℓ} (P : BranchAction T → Type κ) (first : BranchAction T)
    (actions : List (BranchAction T))
    → P first
    → All P actions
    → P (chosen_action first actions)
chosen-All P first [] p ps = p
chosen-All P first (a ∷ actions) p (q, ps) = elim (Bool-cases (not (is_nil a.engine_name))) [
  | inl e ↦ rw e q
  | inr e ↦ rw e (chosen-All P first actions p ps)
]

module _ {ℓ} {T V C E : Type ℓ} ⦃s : Scalar T⦄ (child : IadevsEngine T V E)
    (Good : E → Type ℓ) where
  -- A wired coordinator with good children, whose translations throw no `std::out_of_range`, and whose
  -- SELECT answers.
  pub record IsReady (c : Coordinator T V C E) : Type ℓ where
    pub wired : IsWired child c
    pub total : Total c.model
    pub answers : Answers c.model.select
    pub good : AllGood Good c.engines

  carried_on :
      (c next : Coordinator T V C E)
      → IsReady c
      → next.model ≡ c.model
      → IsWired child next
      → AllGood Good next.engines
      → IsReady next
  carried_on c next ready same wired good = record {
    wired = wired;
    total = subst Total (sym same) ready.total;
    answers = subst (λ m. Answers m.select) (sym same) ready.answers;
    good = good;
  }

  abbrev pub Continues : Coordinator T V C E → Coordinator T V C E × Outcome V → Type ℓ
  Continues c r = IsReady r.0 × (keys ((r.0).engines) ≡ keys c.engines)

  -- A ready coordinator executes a known branch without `std::out_of_range`, and what results is ready,
  -- with the same engine names.
  pub execute_branch-Continues :
      (c : Coordinator T V C E) (action : BranchAction T)
      → IsSafe child Good
      → IsReady c
      → IsKnown child c action
      → Fine (Continues c) (execute_branch child action c)
  execute_branch-Continues c action safe ready known =
      let step =
        execute_branch-IsWired child Good safe c action ready.wired ready.total known ready.good in
      (
        step.0,
        λ r h. (
          carried_on c r.0 ready (execute_branch-IsBounded child action c r.0 r.1 h).model_eq
              (step.1 r h).1 (step.1 r h).0,
          keys-execute_branch child action c r.0 r.1 h,
        ),
      )

  x_function-IsReady :
      (x : V) (t : Interval T) (c : Coordinator T V C E)
      → IsSafe child Good
      → IsReady c
      → Fine IsReady (x_function child x t c)
  x_function-IsReady x t c safe ready =
      let step = x_function-IsWired child Good safe x t c ready.wired ready.total ready.good in
      (
        step.0,
        λ n h.
            carried_on c n ready (x_function-IsBounded child x t c n h).model_eq (step.1 n h).1
              (step.1 n h).0,
      )

  star_of-IsReady :
      (c : Coordinator T V C E) (actions : List (BranchAction T))
      → IsSafe child Good
      → IsReady c
      → All (IsKnown child c) actions
      → Fine (λ r. IsReady r.0) (star_of child c actions)
  unfolding star_of as_star
  star_of-IsReady c [] safe ready known = Fine-ok (λ r. IsReady r.0) _ ready
  star_of-IsReady c (first ∷ rest) safe ready known =
      Fine-map (Continues c) (λ r. IsReady r.0) (as_star child)
        (execute_branch child (chosen_action first (first ∷ rest)) c)
        (execute_branch-Continues c (chosen_action first (first ∷ rest)) safe ready
          (chosen-All (IsKnown child c) first (first ∷ rest) known.0 known))
        λ r p. p.0

  engine_star-IsReady :
      (t : Interval T) (c : Coordinator T V C E)
      → IsSafe child Good
      → IsReady c
      → Fine (λ r. IsReady r.0) (engine_star child t c)
  unfolding engine_star
  engine_star-IsReady t c safe ready =
      Fine-bind (All (IsKnown child c)) (λ r. IsReady r.0) (compute_branches child t c) _
        (compute_branches-IsKnown child t c ready.answers)
        λ actions known. star_of-IsReady c actions safe ready known

  advance-IsReady :
      (limit : Interval T) (c : Coordinator T V C E)
      → IsSafe child Good
      → IsReady c
      → IsReady (advance_t_next_past_limit child limit c)
  unfolding advance_t_next_past_limit bound_ts
  advance-IsReady limit c safe ready =
      carried_on c _ ready refl
        (record {
          valid = ready.wired.valid;
          distinct =
              subst IsDistinct (sym (keys-advance_all child limit c.engines)) ready.wired.distinct;
          covers = λ k.
              subst (λ ks. Listed k (keys c.model.components) ↔ Listed k ks)
                (sym (keys-advance_all child limit c.engines)) (ready.wired.covers k);
          influence_eq = ready.wired.influence_eq;
        })
        (advance_all-AllGood child Good safe limit c.engines ready.good)

  -- Ready coordinators over safe children are themselves safe children.
  pub coordinator_engine-IsSafe : IsSafe child Good → IsSafe (coordinator_engine child) IsReady
  coordinator_engine-IsSafe safe = record {
    star_safe = λ t c ready. engine_star-IsReady t c safe ready;
    x_safe = λ x t c ready. x_function-IsReady x t c safe ready;
    advance_safe = λ limit c ready. advance-IsReady limit c safe ready;
  }

  start_all-Fine :
      (start : C → Interval T → Result E) (t : Interval T) (specs : List (Text × C))
      (engines : List (Text × E))
      → All (λ e. Fine Good (start e.1 t)) specs
      → AllGood Good engines
      → Fine (AllGood Good) (start_all child start t specs engines)
  unfolding start_all
  start_all-Fine start t [] engines starts good = Fine-ok (AllGood Good) engines good
  start_all-Fine start t ((name, spec) ∷ specs) engines (first, starts) good =
      Fine-bind Good (AllGood Good) (start spec t) _ first λ e g.
        start_all-Fine start t specs (assign name e engines) starts
          (All-assign Good name e engines g good)

  -- What `init` needs of a model to make a ready coordinator.
  pub record IsSound (start : C → Interval T → Result E) (t : Interval T)
      (model : CoupledModel T V C) : Type ℓ where
    pub valid : IsValid model
    pub total : Total model
    pub answers : Answers model.select
    pub starts : All (λ e. Fine Good (start e.1 t)) model.components

  init-AllGood :
      (start : C → Interval T → Result E) (t : Interval T) (model : CoupledModel T V C)
      → All (λ e. Fine Good (start e.1 t)) model.components
      → Fine (λ c. AllGood Good c.engines) (init child start t (new_coordinator model))
  unfolding init new_coordinator bound_ts
  init-AllGood start t model starts =
      Fine-bind (AllGood Good) (λ c. AllGood Good c.engines)
        (start_all child start t model.components []) _
        (start_all-Fine start t model.components [] starts tt)
        λ engines g. Fine-ok (λ c. AllGood Good c.engines) _ g

  pub init-IsReady :
      (start : C → Interval T → Result E) (t : Interval T) (model : CoupledModel T V C)
      → IsSound start t model
      → Fine IsReady (init child start t (new_coordinator model))
  unfolding new_coordinator
  init-IsReady start t model sound =
      let begun = init-AllGood start t model sound.starts in
      (
        begun.0,
        λ root h.
            let same = (init-IsBounded child start t (new_coordinator model) root h).1 in
            record {
              wired = init-IsWired child start t model root sound.valid h;
              total = subst Total (sym same) sound.total;
              answers = subst (λ m. Answers m.select) (sym same) sound.answers;
              good = begun.1 root h;
            },
      )
