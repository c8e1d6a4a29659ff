-- ===== src/RootCoordinator/Safe.antt =====
-- The lookups of names in the loop of `simulate`.
use cadmia.Prelude.{
  ◌≡◌, refl, sym, subst, inl, inr, Bool, true, false, if◌then◌else◌, List, [], ◌∷◌, Option, none,
  some, Text, Result, ok, err, ◌>>=◌, throw_if, map_ok, length, ltb, ◌+◌, All, All-append,
  Bool-cases, ℕ, zero, suc, simulation_limit,
}
use cadmia.Prelude.Int.{ℤ}
use cadmia.Prelude.Maps.{keys}
use cadmia.Scalar.{Scalar}
use cadmia.Interval.{Interval, is_empty}
use cadmia.Engine.{IadevsEngine}
use cadmia.CoupledModel.{CoupledModel}
use cadmia.Coordinator.State.{Coordinator, init, new_coordinator}
use cadmia.Coordinator.Branching.{BranchAction, compute_branches}
use cadmia.Coordinator.Routing.{execute_branch}
use cadmia.Coordinator.Interface.{clone}
use cadmia.Coordinator.Bounded.{clone-id}
use cadmia.Coordinator.Wired.Spares.{IsSafe}
use cadmia.Coordinator.Wired.Lookups.{IsKnown}
use cadmia.Coordinator.Wired.Known.{compute_branches-IsKnown}
use cadmia.Coordinator.Wired.Fine.{Fine, Fine-ok, Fine-bind, Spares}
use cadmia.Coordinator.Wired.Ready.{
  IsReady, Continues, execute_branch-Continues, IsSound, init-IsReady,
}
use cadmia.RootCoordinator.{
  Run, Branch, LogEntry, to_size, spent, to_string, make_entry, run_in_place, run_branches, expand,
  visit, visit_head, round, loop, simulate, limit_error,
}
use cadmia.RootCoordinator.Ready.{
  AllReady, make_entry-Spares, unless_passive-AllReady, deduplicate-AllReady,
}

module _ {ℓ} {T V C E : Type ℓ} ⦃s : Scalar T⦄ (child : IadevsEngine T V E)
    (val_str : T → Text) where
  module _ (Good : E → Type ℓ) (safe : IsSafe child Good)
      (copies : (e : E) → child.clone e ≡ e) where
    abbrev Kept : Run V (Coordinator T V C E) → Type ℓ
    Kept r = AllReady child Good r.queue

    run_in_place-Kept :
        (action : BranchAction T) (b : Branch (Coordinator T V C E))
        (r : Run V (Coordinator T V C E))
        → IsReady child Good b.coordinator
        → IsKnown child b.coordinator action
        → Kept r
        → Fine Kept (run_in_place child val_str action b r)
    unfolding run_in_place
    run_in_place-Kept action b r ready known kept =
        Fine-bind (Continues child Good b.coordinator) Kept
          (execute_branch child action b.coordinator) _
          (execute_branch-Continues child Good b.coordinator action safe ready known)
          λ result next.
            Fine-bind (λ entry. Unit {0}) Kept
              (make_entry child val_str b.step b.branch_id b.parent_branch_id action result.1
                result.0)
              _
              (make_entry-Spares child val_str b.step b.branch_id b.parent_branch_id action result.1
                result.0 (keys (b.coordinator).engines) (sym next.1) known.engine_known)
              λ entry u.
                Fine-ok Kept _ (unless_passive-AllReady child Good val_str _ r.queue next.0 kept)

    run_branches-Kept :
        (max_steps : ℤ) (actions : List (BranchAction T)) (b : Branch (Coordinator T V C E))
        (r : Run V (Coordinator T V C E))
        → IsReady child Good b.coordinator
        → All (IsKnown child b.coordinator) actions
        → Kept r
        → Fine Kept (run_branches child val_str max_steps actions b r)
    unfolding run_branches
    run_branches-Kept max_steps [] b r ready known kept = Fine-ok Kept r kept
    run_branches-Kept max_steps (action ∷ actions) b r ready (known, more) kept =
        elim (Bool-cases (spent max_steps r.total_steps)) [
          | inl e ↦ rw e (Fine-ok Kept r kept)
          | inr e ↦ rw e (
              Fine-bind (Continues child Good b.coordinator) Kept
                (execute_branch child action (clone child b.coordinator)) _
                (subst
                  (λ c. Fine (Continues child Good b.coordinator) (execute_branch child action c))
                  (sym (clone-id child copies b.coordinator))
                  (execute_branch-Continues child Good b.coordinator action safe ready known))
                λ result next.
                  Fine-bind (λ entry. Unit {0}) Kept
                    (make_entry child val_str b.step (to_string r.next_branch_id) (some b.branch_id)
                      action result.1 result.0)
                    _
                    (make_entry-Spares child val_str b.step (to_string r.next_branch_id)
                      (some b.branch_id) action result.1 result.0 (keys (b.coordinator).engines)
                      (sym next.1) known.engine_known)
                    λ entry u. run_branches-Kept max_steps actions b _ ready more (
                      All-append _ r.queue _ kept
                        (unless_passive-AllReady child Good val_str _ [] next.0 tt)))
        ]

    expand-Kept :
        (max_steps max_branches : ℤ) (b : Branch (Coordinator T V C E))
        (actions : List (BranchAction T)) (r : Run V (Coordinator T V C E))
        → IsReady child Good b.coordinator
        → All (IsKnown child b.coordinator) actions
        → Kept r
        → Fine Kept (expand child val_str max_steps max_branches b actions r)
    unfolding expand
    expand-Kept max_steps max_branches b [] r ready known kept = Fine-ok Kept r kept
    expand-Kept max_steps max_branches b (action ∷ []) r ready known kept =
        run_in_place-Kept action b r ready known.0 kept
    expand-Kept max_steps max_branches b (a₁ ∷ a₂ ∷ actions) r ready known kept =
        Fine-bind (λ u. Unit {0}) Kept
          (throw_if (ltb (to_size max_branches) (length r.queue + length (a₁ ∷ a₂ ∷ actions))) _) _
          (limited (ltb (to_size max_branches) (length r.queue + length (a₁ ∷ a₂ ∷ actions))))
          λ u v. run_branches-Kept max_steps (a₁ ∷ a₂ ∷ actions) b r ready known kept
      where
        limited :
            (b : Bool)
            → Fine
                (λ u. Unit {0})
                (throw_if b (simulation_limit (limit_error max_branches r.total_steps)))
        limited true = (λ h. cc, λ u h. tt)
        limited false = (λ h. cc, λ u h. tt)

    discard_or_expand-Kept :
        (max_steps max_branches : ℤ) (passive : Bool) (b : Branch (Coordinator T V C E))
        (m : Result (List (BranchAction T))) (r : Run V (Coordinator T V C E))
        → IsReady child Good b.coordinator
        → Fine (All (IsKnown child b.coordinator)) m
        → Kept r
        → Fine Kept (
            if passive
            then ok r
            else (m >>= λ actions. expand child val_str max_steps max_branches b actions r))
    discard_or_expand-Kept max_steps max_branches true b m r ready known kept = Fine-ok Kept r kept
    discard_or_expand-Kept max_steps max_branches false b m r ready known kept =
        Fine-bind (All (IsKnown child b.coordinator)) Kept m _ known
          λ actions some_known. expand-Kept max_steps max_branches b actions r ready some_known kept

    visit-Kept :
        (max_steps max_branches : ℤ) (b : Branch (Coordinator T V C E))
        (bs : List (Branch (Coordinator T V C E))) (r : Run V (Coordinator T V C E))
        → IsReady child Good b.coordinator
        → AllReady child Good bs
        → Fine Kept (visit child val_str max_steps max_branches b bs r)
    unfolding visit
    visit-Kept max_steps max_branches b bs r ready more =
        let kept = deduplicate-AllReady child Good val_str b bs more in
        discard_or_expand-Kept max_steps max_branches (is_empty (b.coordinator).t_next) b
          (compute_branches child (b.coordinator).t_next b.coordinator) _ ready
          (compute_branches-IsKnown child (b.coordinator).t_next b.coordinator ready.answers) kept

    abbrev KeptIf : Option (Run V (Coordinator T V C E)) → Type ℓ
    KeptIf none = Unit
    KeptIf (some r) = Kept r

    round-Kept :
        (max_steps max_branches : ℤ) (r : Run V (Coordinator T V C E))
        → Kept r
        → Fine KeptIf (round child val_str max_steps max_branches r)
    unfolding round
    round-Kept max_steps max_branches r kept = elim (Bool-cases (spent max_steps r.total_steps)) [
      | inl e ↦ rw e (Fine-ok KeptIf none tt)
      | inr e ↦ rw e (head_of r.queue kept)
    ]
      where
        some_of :
            (m : Result (Run V (Coordinator T V C E))) → Fine Kept m → Fine KeptIf (map_ok some m)
        some_of (ok r') p = Fine-ok KeptIf (some r') (p.1 r' refl)
        some_of (err x) p = (λ h. p.0 cc, λ b h. absurd cc)

        head_of :
            (bs : List (Branch (Coordinator T V C E)))
            → AllReady child Good bs
            → Fine KeptIf (visit_head child val_str max_steps max_branches bs r)
        head_of [] h = Fine-ok KeptIf none tt
        head_of (b ∷ bs) (h, hs) =
            some_of (visit child val_str max_steps max_branches b bs r)
              (visit-Kept max_steps max_branches b bs r h hs)

    go_on :
        (log : List (LogEntry V))
        (rest : Run V (Coordinator T V C E) → Result (Option (List (LogEntry V))))
        → ((r : Run V (Coordinator T V C E)) → Kept r → Fine (λ log. Unit {0}) (rest r))
        → (o : Option (Run V (Coordinator T V C E))) → KeptIf o
        → Fine (λ log. Unit {0}) (elim o [ none ↦ ok (some log) | some r ↦ rest r ])
    go_on log rest p none k = Fine-ok _ (some log) tt
    go_on log rest p (some r) k = p r k

    loop-Spares :
        (max_steps max_branches : ℤ) (fuel : ℕ) (r : Run V (Coordinator T V C E))
        → Kept r
        → Fine (λ log. Unit {0}) (loop child val_str max_steps max_branches fuel r)
    unfolding loop
    loop-Spares max_steps max_branches zero r kept = Fine-ok _ none tt
    loop-Spares max_steps max_branches (suc fuel) r kept =
        Fine-bind KeptIf (λ log. Unit {0}) (round child val_str max_steps max_branches r) _
          (round-Kept max_steps max_branches r kept)
          (go_on r.log (loop child val_str max_steps max_branches fuel)
            (λ r' k. loop-Spares max_steps max_branches fuel r' k))

module _ {ℓ} {T V C E : Type ℓ} ⦃s : Scalar T⦄ (child : IadevsEngine T V E) (Good : E → Type ℓ)
    (val_str : T → Text) where
  -- A run throws no `std::out_of_range`, whatever the limits, if the model is valid; its translations throw
  -- none; its SELECT answers with one of the names that it is given, where there is one; the construction
  -- of each child throws none and makes a good one; good children throw none and stay good; and `clone`
  -- makes an equal child.
  pub simulate-Spares :
      (max_steps max_branches : ℤ) (start : C → Interval T → Result E) (model : CoupledModel T V C)
      (t : Interval T)
      → IsSafe child Good
      → ((e : E) → child.clone e ≡ e)
      → IsSound child Good start t model
      → Spares (simulate child val_str start model t max_steps max_branches)
  unfolding simulate
  simulate-Spares max_steps max_branches start model t safe copies sound =
      (Fine-bind (IsReady child Good) (λ log. Unit {0}) (init child start t (new_coordinator model))
        _ (init-IsReady child Good start t model sound)
        λ root ready.
          loop-Spares child val_str Good safe copies max_steps max_branches _ _ (ready, tt)).0
