-- ===== src/RootCoordinator/Longer.antt =====
-- Runs of `simulate` with different limits on steps, side by side.
use cadmia.Prelude.{
  ◌≡◌, refl, sym, subst, ap, ◌∙◌, ◌⊎◌, inl, inr, Bool, true, false, if◌then◌else◌, List, [], ◌∷◌,
  Option, none, some, Text, Result, ok, err, ◌>>=◌, map_ok, on_ok, ok-injective, throw_if, length,
  Bool-cases, arith, ℕ, zero, suc, ◌+◌, ◌*◌, ltb,
}
use cadmia.Prelude.Int.{ℤ, ◌≤ℤ◌, pos_part}
use cadmia.Scalar.{Scalar}
use cadmia.Interval.{Interval, is_empty}
use cadmia.Engine.{IadevsEngine}
use cadmia.CoupledModel.{CoupledModel}
use cadmia.Coordinator.State.{Coordinator, new_coordinator, init}
use cadmia.Coordinator.Branching.{BranchAction, compute_branches}
use cadmia.Coordinator.Routing.{execute_branch}
use cadmia.Coordinator.Interface.{clone}
use cadmia.RootCoordinator.{
  Run, Branch, LogEntry, to_size, spent, to_string, make_entry, run_branches, expand, visit,
  visit_head, round, loop, simulate,
}
use cadmia.RootCoordinator.Extends.{
  Prefix, Prefix-refl, Prefix-trans, run_branches-Extends, loop-Extends,
}
use cadmia.RootCoordinator.Budget.{simulate-halts}

-- The call returns a value with `P`.
abbrev Returns {ℓ κ} : {A : Type ℓ} → (A → Type κ) → Result A → Type (ℓ ⊔ κ)
Returns {A} P m = (a : A) × (m ≡ ok a) × P a

Returns-bind {ℓ κ ν μ} :
    {A : Type ℓ} {B : Type ν} (P : A → Type κ) (Q : B → Type μ) (m : Result A) (f : A → Result B)
    → Returns P m
    → ((a : A) → P a → Returns Q (f a))
    → Returns Q (m >>= f)
Returns-bind P Q (ok a) f (b, e, p) q = q a (subst P (sym (ok-injective e)) p)
Returns-bind P Q (err x) f (b, e, p) q = absurd cc

map_ok-Returns {ℓ κ} :
    {A : Type ℓ} {B : Type κ} (f : A → B) (m : Result A) (b : B)
    → map_ok f m ≡ ok b
    → Returns (λ a. f a ≡ b) m
map_ok-Returns f (ok a) b h = (a, refl, ok-injective h)
map_ok-Returns f (err x) b h = absurd cc

still_going :
    (short long : ℤ) (n : ℕ) → short ≤ℤ long → spent short n ≡ false → spent long n ≡ false
still_going short long n fewer h = ground arith

-- What the shorter run returns is a log that `log` begins with, unless its fuel ran out.
abbrev Begins {ℓ} : {A : Type ℓ} → List A → Option (List A) → Type ℓ
Begins {A} log o = (l : List A) → o ≡ some l → Prefix l log

module _ {ℓ} {T V C E : Type ℓ} ⦃s : Scalar T⦄ (child : IadevsEngine T V E) (val_str : T → Text)
    (short long max_branches : ℤ) (fewer : short ≤ℤ long) where
  -- The state of the shorter run and that of the longer one, after the same round from the same state:
  -- the same, or the shorter one has spent its steps.
  abbrev Ahead : Run V (Coordinator T V C E) → Run V (Coordinator T V C E) → Type ℓ
  Ahead r₁ r₂ = (r₁ ≡ r₂) ⊎ ((spent short r₁.total_steps ≡ true) × Prefix r₁.log r₂.log)

  run_branches-Ahead :
      (actions : List (BranchAction T)) (b : Branch (Coordinator T V C E))
      (r r₂ : Run V (Coordinator T V C E))
      → run_branches child val_str long actions b r ≡ ok r₂
      → Returns (λ r₁. Ahead r₁ r₂) (run_branches child val_str short actions b r)
  unfolding run_branches
  run_branches-Ahead [] b r r₂ h = (r, refl, inl (ok-injective h))
  run_branches-Ahead (action ∷ actions) b r r₂ h = elim (Bool-cases (spent short r.total_steps)) [
    | inl e ↦
        rw e (r, refl, inr (e, run_branches-Extends child val_str long (action ∷ actions) b r r₂ h))
    | inr e ↦
        on_ok (execute_branch child action (clone child b.coordinator)) _
          (rw (still_going short long r.total_steps fewer e) at h)
          λ result e₁ h₁.
            on_ok
              (make_entry child val_str b.step (to_string r.next_branch_id) (some b.branch_id)
                action result.1 result.0)
              _ h₁ λ entry e₂ h₂. rw (e, e₁, e₂) (run_branches-Ahead actions b _ r₂ h₂)
  ]

  expand-Ahead :
      (b : Branch (Coordinator T V C E)) (actions : List (BranchAction T))
      (r r₂ : Run V (Coordinator T V C E))
      → expand child val_str long max_branches b actions r ≡ ok r₂
      → Returns (λ r₁. Ahead r₁ r₂) (expand child val_str short max_branches b actions r)
  unfolding expand
  expand-Ahead b [] r r₂ h = (r₂, h, inl refl)
  expand-Ahead b (action ∷ []) r r₂ h = (r₂, h, inl refl)
  expand-Ahead b (a₁ ∷ a₂ ∷ actions) r r₂ h =
      on_ok (throw_if (ltb (to_size max_branches) (length r.queue + length (a₁ ∷ a₂ ∷ actions))) _)
        _ h λ u guard h₁. rw guard (run_branches-Ahead (a₁ ∷ a₂ ∷ actions) b r r₂ h₁)

  discard_or_expand-Ahead :
      (passive : Bool) (b : Branch (Coordinator T V C E)) (m : Result (List (BranchAction T)))
      (r r₂ : Run V (Coordinator T V C E))
      → (if passive
          then ok r
          else (m >>= λ actions. expand child val_str long max_branches b actions r))
        ≡ ok r₂
      → Returns
          (λ r₁. Ahead r₁ r₂)
          (if passive
            then ok r
            else (m >>= λ actions. expand child val_str short max_branches b actions r))
  discard_or_expand-Ahead true b m r r₂ h = (r₂, h, inl refl)
  discard_or_expand-Ahead false b (ok actions) r r₂ h = expand-Ahead b actions r r₂ h
  discard_or_expand-Ahead false b (err q) r r₂ h = absurd cc

  visit-Ahead :
      (b : Branch (Coordinator T V C E)) (bs : List (Branch (Coordinator T V C E)))
      (r r₂ : Run V (Coordinator T V C E))
      → visit child val_str long max_branches b bs r ≡ ok r₂
      → Returns (λ r₁. Ahead r₁ r₂) (visit child val_str short max_branches b bs r)
  unfolding visit
  visit-Ahead b bs r r₂ h =
      discard_or_expand-Ahead (is_empty (b.coordinator).t_next) b
        (compute_branches child (b.coordinator).t_next b.coordinator) _ r₂ h

  loop_over :
      (fuel : ℕ) (r : Run V (Coordinator T V C E)) (log : List (LogEntry V))
      → spent short r.total_steps ≡ true
      → Prefix r.log log
      → Returns (Begins log) (loop child val_str short max_branches fuel r)
  unfolding loop round
  loop_over zero r log e p = (none, refl, λ l q. absurd cc)
  loop_over (suc fuel) r log e p =
      rw e (some r.log, refl, λ l q. let same : r.log ≡ l = cc in subst (λ k. Prefix k log) same p)

  abbrev goes_on :
      ℤ
      → ℕ
      → Run V (Coordinator T V C E)
      → Option (Run V (Coordinator T V C E))
      → Result (Option (List (LogEntry V)))
  goes_on max_steps fuel r next = elim next [
    | none ↦ ok (some r.log)
    | some r' ↦ loop child val_str max_steps max_branches fuel r'
  ]

  heads-Begin :
      (f₁ f₂ : ℕ) (bs : List (Branch (Coordinator T V C E))) (r : Run V (Coordinator T V C E))
      (next : Option (Run V (Coordinator T V C E))) (log : List (LogEntry V))
      → ((r' : Run V (Coordinator T V C E))
          → loop child val_str long max_branches f₂ r' ≡ ok (some log)
          → Returns (Begins log) (loop child val_str short max_branches f₁ r'))
      → visit_head child val_str long max_branches bs r ≡ ok next
      → goes_on long f₂ r next ≡ ok (some log)
      → Returns
          (Begins log)
          (visit_head child val_str short max_branches bs r >>= goes_on short f₁ r)
  heads-Begin f₁ f₂ [] r next log more e h =
      let none_left : none ≡ next = ok-injective e in
      let whole : r.log ≡ log = cc (ap (goes_on long f₂ r) none_left ∙ h) in
      (
        some r.log,
        refl,
        λ l q.
            let same : r.log ≡ l = cc in
            subst (λ k. Prefix k log) same (subst (Prefix r.log) whole (Prefix-refl r.log)),
      )
  heads-Begin f₁ f₂ (b ∷ bs) r next log more e h =
      let (r₂, e₂, q) = map_ok-Returns some (visit child val_str long max_branches b bs r) next e in
      let h₂ : loop child val_str long max_branches f₂ r₂ ≡ ok (some log) =
        ap (goes_on long f₂ r) q ∙ h in
      let (r₁, e₁, ahead) = visit-Ahead b bs r r₂ e₂ in
      rw e₁ (elim ahead [
        | inl same ↦
            subst (λ r'. Returns (Begins log) (loop child val_str short max_branches f₁ r'))
              (sym same) (more r₂ h₂)
        | inr (over, p) ↦ loop_over f₁ r₁ log over (
            Prefix-trans r₁.log r₂.log log p
              (loop-Extends child val_str long max_branches f₂ r₂ log h₂))
      ])

  loop-Begins :
      (f₁ f₂ : ℕ) (r : Run V (Coordinator T V C E)) (log : List (LogEntry V))
      → loop child val_str long max_branches f₂ r ≡ ok (some log)
      → Returns (Begins log) (loop child val_str short max_branches f₁ r)
  unfolding loop round
  loop-Begins zero f₂ r log h = (none, refl, λ l q. absurd cc)
  loop-Begins (suc f₁) zero r log h = absurd cc
  loop-Begins (suc f₁) (suc f₂) r log h = elim (Bool-cases (spent short r.total_steps)) [
    | inl e ↦
        loop_over (suc f₁) r log e (loop-Extends child val_str long max_branches (suc f₂) r log h)
    | inr e ↦
        on_ok (visit_head child val_str long max_branches r.queue r) _
          (rw (still_going short long r.total_steps fewer e) at h)
          λ next e₁ h₁.
            rw e (heads-Begin f₁ f₂ r.queue r next log (λ r' q. loop-Begins f₁ f₂ r' log q) e₁ h₁)
  ]

  -- When `simulate` returns a log, then it also returns one with a lower limit on steps and the same limit
  -- on branches, and the log with the higher limit begins with the one with the lower limit.
  pub simulate-Prefix :
      (start : C → Interval T → Result E) (model : CoupledModel T V C) (t : Interval T)
      (log : List (LogEntry V))
      → simulate child val_str start model t long max_branches ≡ ok (some log)
      → (l : List (LogEntry V)) × (simulate child val_str start model t short max_branches
          ≡ ok (some l))
        × Prefix l log
  unfolding simulate
  simulate-Prefix start model t log h =
      on_ok (init child start t (new_coordinator model)) _ h λ root e h₁.
        let (o, e₁, begins) =
          loop-Begins (pos_part short * suc (to_size max_branches) + 2)
            (pos_part long * suc (to_size max_branches) + 2) _ log h₁ in
        ended o (rw e e₁) begins
    where
      ended :
          (o : Option (List (LogEntry V)))
          → simulate child val_str start model t short max_branches ≡ ok o
          → Begins log o
          → (l : List (LogEntry V)) × (simulate child val_str start model t short max_branches
              ≡ ok (some l))
            × Prefix l log
      ended none e begins = absurd (simulate-halts child val_str short max_branches start model t e)
      ended (some l) e begins = (l, e, begins l refl)
