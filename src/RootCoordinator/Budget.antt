-- ===== src/RootCoordinator/Budget.antt =====
-- The rounds of the loop of `simulate` against its fuel.
use native.Mathlib.Nat.{mul-le-mul_right, suc-mul}
use cadmia.Prelude.{
  ◌≡◌, ◌≢◌, refl, subst, ap, ◌∙◌, ◌⊎◌, inl, inr, Bool, true, false, if◌then◌else◌, List, [], ◌∷◌,
  ◌++◌, Option, none, some, Text, Result, ok, err, ◌>>=◌, on_ok, ok-injective, throw_if,
  throw_if-eq-ok, length, ltb, Bool-cases, arith, ℕ, zero, suc, ◌+◌, ◌-◌, ◌*◌, ◌≤◌, ◌<◌,
}
use cadmia.Prelude.Int.{ℤ, pos_part}
use cadmia.Scalar.{Scalar}
use cadmia.Interval.{Interval, is_empty}
use cadmia.Engine.{IadevsEngine}
use cadmia.CoupledModel.{CoupledModel}
use cadmia.Coordinator.State.{Coordinator, new_coordinator, init}
use cadmia.Coordinator.Branching.{BranchAction, compute_branches}
use cadmia.RootCoordinator.{
  Run, Branch, to_size, spent, deduplicate, expand, visit, visit_head, round, loop, simulate,
}
use cadmia.RootCoordinator.Halt.{run_in_place-Grows, run_branches-Grows, deduplicate-length}

all_left : (m : ℕ) → m - 0 ≡ m
all_left m = omega arith

-- With M steps allowed, u of them spent before and u' after, and room for B branches.
measure_step :
    (M u u' L L' B : ℕ)
    → u < M
    → suc u ≤ u'
    → (L' ≤ suc L) ⊎ (L' ≤ B)
    → (M - u') * suc B + L' < (M - u) * suc B + suc L
measure_step M u u' L L' B p q r =
    let fewer : (M - u') * suc B ≤ (M - suc u) * suc B = mul-le-mul_right (suc B) (omega arith) in
    let split : (M - u) * suc B ≡ (M - suc u) * suc B + suc B =
      ap (λ k. k * suc B) (omega arith) ∙ suc-mul (M - suc u) (suc B) in
    omega (arith, fewer, split, r)

module _ {ℓ} {T V C E : Type ℓ} ⦃s : Scalar T⦄ (child : IadevsEngine T V E) (val_str : T → Text)
    (max_steps max_branches : ℤ) where
  abbrev measure : Run V (Coordinator T V C E) → ℕ
  measure r = (pos_part max_steps - r.total_steps) * suc (to_size max_branches) + length r.queue

  expand-descends :
      (b : Branch (Coordinator T V C E)) (actions : List (BranchAction T))
      (r r' : Run V (Coordinator T V C E))
      → spent max_steps r.total_steps ≡ false
      → expand child val_str max_steps max_branches b actions r ≡ ok r'
      → measure r' < suc (measure r)
  unfolding expand
  expand-descends b [] r r' e h =
      subst (λ q. measure q < suc (measure r)) (ok-injective h) (omega arith)
  expand-descends b (action ∷ []) r r' e h =
      let grows = run_in_place-Grows child val_str action b r r' h in
      omega (
        arith,
        measure_step (pos_part max_steps) r.total_steps r'.total_steps (length r.queue)
            (length r'.queue) (to_size max_branches) (ground arith) (omega (arith, grows.taken))
            (inl (omega (arith, grows.queued))),
      )
  expand-descends b (a₁ ∷ a₂ ∷ actions) r r' e h =
      on_ok (throw_if (ltb (to_size max_branches) (length r.queue + length (a₁ ∷ a₂ ∷ actions))) _)
        _ h
        λ u guard h₁.
          let fits = throw_if-eq-ok _ _ guard in
          let grows =
            (run_branches-Grows child val_str max_steps (a₁ ∷ a₂ ∷ actions) b r r' h₁).1 e
              (λ q. cc) in
          let room : length r.queue + length (a₁ ∷ a₂ ∷ actions) ≤ to_size max_branches =
            ground arith in
          omega (
            arith,
            measure_step (pos_part max_steps) r.total_steps r'.total_steps (length r.queue)
                (length r'.queue) (to_size max_branches) (ground arith) (omega (arith, grows.taken))
                (inr (omega (arith, grows.queued, room))),
          )

  discard_or_expand :
      (passive : Bool) (b : Branch (Coordinator T V C E)) (m : Result (List (BranchAction T)))
      (r r' : Run V (Coordinator T V C E))
      → spent max_steps r.total_steps ≡ false
      → (if passive
          then ok r
          else (m >>= λ actions. expand child val_str max_steps max_branches b actions r))
        ≡ ok r'
      → measure r' < suc (measure r)
  discard_or_expand true b m r r' e h =
      subst (λ z. measure z < suc (measure r)) (ok-injective h) (omega arith)
  discard_or_expand false b (ok actions) r r' e h = expand-descends b actions r r' e h
  discard_or_expand false b (err q) r r' e h = absurd cc

  visit-descends :
      (b : Branch (Coordinator T V C E)) (bs : List (Branch (Coordinator T V C E)))
      (r r' : Run V (Coordinator T V C E))
      → spent max_steps r.total_steps ≡ false
      → visit child val_str max_steps max_branches b bs r ≡ ok r'
      → measure r' < measure (record r { queue = b ∷ bs })
  unfolding visit
  visit-descends b bs r r' e h =
      let split = deduplicate child val_str b bs in
      let rest = record r { queue = split.0; log = r.log ++ split.1 } in
      let shorter = deduplicate-length child val_str b bs in
      omega (
        arith,
        shorter,
        discard_or_expand (is_empty (b.coordinator).t_next) b
            (compute_branches child (b.coordinator).t_next b.coordinator) rest r' e h,
      )

  visit_head-descends :
      (bs : List (Branch (Coordinator T V C E))) (r r' : Run V (Coordinator T V C E))
      → spent max_steps r.total_steps ≡ false
      → visit_head child val_str max_steps max_branches bs r ≡ ok (some r')
      → measure r' < measure (record r { queue = bs })
  visit_head-descends [] r r' e h = absurd cc
  visit_head-descends (b ∷ bs) r r' e h = visit-descends b bs r r' e (ground arith)

  round-descends :
      (r r' : Run V (Coordinator T V C E))
      → round child val_str max_steps max_branches r ≡ ok (some r')
      → measure r' < measure r
  unfolding round
  round-descends r r' h = elim (Bool-cases (spent max_steps r.total_steps)) [
    | inl e ↦ absurd (ground arith)
    | inr e ↦ visit_head-descends r.queue r r' e (rw e at h)
  ]

  finish :
      (fuel : ℕ) (r : Run V (Coordinator T V C E)) (next : Option (Run V (Coordinator T V C E)))
      → ((r' : Run V (Coordinator T V C E))
          → next ≡ some r'
          → loop child val_str max_steps max_branches fuel r' ≢ ok none)
      → (elim next [
        | none ↦ ok (some r.log)
        | some r' ↦ loop child val_str max_steps max_branches fuel r'
      ])
        ≢ ok none
  finish fuel r none more h = cc
  finish fuel r (some r') more h = more r' refl h

  -- With more fuel than the measure, the loop does not run out of it.
  pub loop-halts :
      (fuel : ℕ) (r : Run V (Coordinator T V C E))
      → measure r < fuel
      → loop child val_str max_steps max_branches fuel r ≢ ok none
  unfolding loop
  loop-halts zero r p h = absurd (omega arith)
  loop-halts (suc fuel) r p h =
      on_ok (round child val_str max_steps max_branches r) _ h λ next e h₁.
        finish fuel r next
          (λ r' q. loop-halts fuel r' (omega (arith, round-descends r r' (e ∙ ap ok q)))) h₁

  -- `simulate` never runs out of fuel: for every model, time and limits it returns the log, or throws what
  -- the model or the limit on branches makes it throw.
  pub simulate-halts :
      (start : C → Interval T → Result E) (model : CoupledModel T V C) (t : Interval T)
      → simulate child val_str start model t max_steps max_branches ≢ ok none
  unfolding simulate
  simulate-halts start model t h =
      on_ok (init child start t (new_coordinator model)) _ h λ root e h₁.
        loop-halts (pos_part max_steps * suc (to_size max_branches) + 2) _
          (omega (arith, ap (λ k. k * suc (to_size max_branches)) (all_left (pos_part max_steps))))
          h₁
