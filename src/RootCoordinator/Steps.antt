-- ===== src/RootCoordinator/Steps.antt =====
-- The log of `simulate` against its count of steps.
use cadmia.Prelude.{
  ◌≡◌, refl, subst, ap, ◌∙◌, Bool, true, false, if◌then◌else◌, List, [], ◌∷◌, ◌++◌, Option, none,
  some, Text, Result, ok, err, ◌>>=◌, on_ok, ok-injective, throw_if, length, Bool-cases, inl, inr,
  arith, ℕ, zero, suc, ◌+◌, ◌≤◌, ltb, ◌*◌,
}
use cadmia.Prelude.Int.{ℤ, pos_part}
use cadmia.Prelude.Maps.{is_some}
use cadmia.Scalar.{Scalar}
use cadmia.Interval.{Interval, is_empty}
use cadmia.Engine.{IadevsEngine}
use cadmia.CoupledModel.{CoupledModel}
use cadmia.Coordinator.State.{Coordinator, new_coordinator, init}
use cadmia.Coordinator.Branching.{BranchAction, compute_branches}
use cadmia.Coordinator.Routing.{Outcome, execute_branch}
use cadmia.Coordinator.Interface.{clone, engine_equals}
use cadmia.RootCoordinator.{
  Run, Branch, LogEntry, to_size, spent, to_string, kind_of, make_entry, deduplicate, drop_first,
  dedup_entry, run_in_place, run_branches, expand, visit, visit_head, round, loop, simulate,
}

-- The entries of executed actions: those of no merged branch.
pub executed {ℓ} : {V : Type ℓ} → List (LogEntry V) → ℕ
executed [] = 0
executed (e ∷ es) = (if is_some e.merged_into then 0 else 1) + executed es

executed-append {ℓ} :
    {V : Type ℓ} (es fs : List (LogEntry V)) → executed (es ++ fs) ≡ executed es + executed fs
unfolding executed
executed-append [] fs = omega arith
executed-append (e ∷ es) fs = ground (arith, executed-append es fs)

module _ {ℓ} {T V C E : Type ℓ} ⦃s : Scalar T⦄ (child : IadevsEngine T V E)
    (val_str : T → Text) where
  executed-make_entry :
      (step : ℕ) (id : Text) (parent : Option Text) (action : BranchAction T) (o : Outcome V)
      (c : Coordinator T V C E) {e : LogEntry V}
      → make_entry child val_str step id parent action o c ≡ ok e
      → executed (e ∷ []) ≡ 1
  unfolding make_entry executed
  executed-make_entry step id parent action o c h =
      on_ok (kind_of child val_str action.engine_name c) _ h
        λ kind e h₁. subst (λ q. executed (q ∷ []) ≡ 1) (ok-injective h₁) refl

  executed-drop_first :
      (equal : Bool) (head b : Branch (Coordinator T V C E))
      (p : List (Branch (Coordinator T V C E)) × List (LogEntry V))
      → executed (drop_first child val_str equal b (dedup_entry child val_str head b) p).1
        ≡ executed p.1
  unfolding executed dedup_entry
  executed-drop_first true head b (kept, entries) = omega arith
  executed-drop_first false head b (kept, entries) = refl

  executed-deduplicate :
      (head : Branch (Coordinator T V C E)) (bs : List (Branch (Coordinator T V C E)))
      → executed (deduplicate child val_str head bs).1 ≡ 0
  unfolding deduplicate executed
  executed-deduplicate head [] = refl
  executed-deduplicate head (b ∷ bs) =
      executed-drop_first (engine_equals child head.coordinator b.coordinator) head b
        (deduplicate child val_str head bs)
      ∙ executed-deduplicate head bs

  module _ (max_steps : ℤ) where
    -- Each step has its entry, and the limit is kept.
    record IsCounted (r : Run V (Coordinator T V C E)) : Type 0 where
      counted : executed r.log ≡ r.total_steps
      limited : r.total_steps ≤ pos_part max_steps

    run_in_place-IsCounted :
        (action : BranchAction T) (b : Branch (Coordinator T V C E))
        (r r' : Run V (Coordinator T V C E))
        → spent max_steps r.total_steps ≡ false
        → IsCounted r
        → run_in_place child val_str action b r ≡ ok r'
        → IsCounted r'
    unfolding run_in_place
    run_in_place-IsCounted action b r r' go i h =
        on_ok (execute_branch child action b.coordinator) _ h λ result e h₁.
          on_ok
            (make_entry child val_str b.step b.branch_id b.parent_branch_id action result.1
              result.0)
            _ h₁
            λ entry e₁ h₂. subst IsCounted (ok-injective h₂) (record {
              counted = omega (
                arith,
                i.counted,
                executed-append r.log (entry ∷ []),
                executed-make_entry b.step b.branch_id b.parent_branch_id action result.1 result.0
                    e₁,
              );
              limited = ground arith;
            })

    run_branches-IsCounted :
        (actions : List (BranchAction T)) (b : Branch (Coordinator T V C E))
        (r r' : Run V (Coordinator T V C E))
        → IsCounted r
        → run_branches child val_str max_steps actions b r ≡ ok r'
        → IsCounted r'
    unfolding run_branches
    run_branches-IsCounted [] b r r' i h = subst IsCounted (ok-injective h) i
    run_branches-IsCounted (action ∷ actions) b r r' i h =
        elim (Bool-cases (spent max_steps r.total_steps)) [
          | inl e ↦ subst IsCounted (ok-injective (rw e at h)) i
          | inr e ↦
              on_ok (execute_branch child action (clone child b.coordinator)) _ (rw e at h)
                λ result e₁ h₁.
                  let new_id = to_string r.next_branch_id in
                  on_ok
                    (make_entry child val_str b.step new_id (some b.branch_id) action result.1
                      result.0)
                    _ h₁
                    λ entry e₂ h₂.
                      run_branches-IsCounted actions b _ r'
                        (record {
                          counted = omega (
                            arith,
                            i.counted,
                            executed-append r.log (entry ∷ []),
                            executed-make_entry b.step new_id (some b.branch_id) action result.1
                                result.0 e₂,
                          );
                          limited = ground arith;
                        })
                        h₂
        ]

    module _ (max_branches : ℤ) where
      expand-IsCounted :
          (b : Branch (Coordinator T V C E)) (actions : List (BranchAction T))
          (r r' : Run V (Coordinator T V C E))
          → spent max_steps r.total_steps ≡ false
          → IsCounted r
          → expand child val_str max_steps max_branches b actions r ≡ ok r'
          → IsCounted r'
      unfolding expand
      expand-IsCounted b [] r r' e i h = subst IsCounted (ok-injective h) i
      expand-IsCounted b (action ∷ []) r r' e i h = run_in_place-IsCounted action b r r' e i h
      expand-IsCounted b (a₁ ∷ a₂ ∷ actions) r r' e i h =
          on_ok
            (throw_if (ltb (to_size max_branches) (length r.queue + length (a₁ ∷ a₂ ∷ actions))) _)
            _ h λ u guard h₁. run_branches-IsCounted (a₁ ∷ a₂ ∷ actions) b r r' i h₁

      discard_or_expand-IsCounted :
          (passive : Bool) (b : Branch (Coordinator T V C E)) (m : Result (List (BranchAction T)))
          (r r' : Run V (Coordinator T V C E))
          → spent max_steps r.total_steps ≡ false
          → IsCounted r
          → (if passive
              then ok r
              else (m >>= λ actions. expand child val_str max_steps max_branches b actions r))
            ≡ ok r'
          → IsCounted r'
      discard_or_expand-IsCounted true b m r r' e i h = subst IsCounted (ok-injective h) i
      discard_or_expand-IsCounted false b (ok actions) r r' e i h =
          expand-IsCounted b actions r r' e i h
      discard_or_expand-IsCounted false b (err q) r r' e i h = absurd cc

      visit_head-IsCounted :
          (bs : List (Branch (Coordinator T V C E))) (r r' : Run V (Coordinator T V C E))
          → spent max_steps r.total_steps ≡ false
          → IsCounted r
          → visit_head child val_str max_steps max_branches bs r ≡ ok (some r')
          → IsCounted r'
      unfolding visit
      visit_head-IsCounted [] r r' e i h = absurd cc
      visit_head-IsCounted (b ∷ bs) r r' e i h =
          let split = deduplicate child val_str b bs in
          discard_or_expand-IsCounted (is_empty (b.coordinator).t_next) b
            (compute_branches child (b.coordinator).t_next b.coordinator)
            (record r { queue = split.0; log = r.log ++ split.1 }) r' e
            (record {
              counted =
                  omega
                    (arith, i.counted, executed-append r.log split.1, executed-deduplicate b bs);
              limited = i.limited;
            })
            (ground arith)

      finish-IsCounted :
          (fuel : ℕ) (r : Run V (Coordinator T V C E)) (next : Option (Run V (Coordinator T V C E)))
          (log : List (LogEntry V))
          → IsCounted r
          → ((r' : Run V (Coordinator T V C E))
              → next ≡ some r'
              → loop child val_str max_steps max_branches fuel r' ≡ ok (some log)
              → executed log ≤ pos_part max_steps)
          → (elim next [
            | none ↦ ok (some r.log)
            | some r' ↦ loop child val_str max_steps max_branches fuel r'
          ])
            ≡ ok (some log)
          → executed log ≤ pos_part max_steps
      finish-IsCounted fuel r none log i more h =
          let e : r.log ≡ log = cc in omega (arith, i.counted, i.limited, ap executed e)
      finish-IsCounted fuel r (some r') log i more h = more r' refl h

      loop-executed :
          (fuel : ℕ) (r : Run V (Coordinator T V C E)) (log : List (LogEntry V))
          → IsCounted r
          → loop child val_str max_steps max_branches fuel r ≡ ok (some log)
          → executed log ≤ pos_part max_steps
      unfolding loop round
      loop-executed zero r log i h = absurd cc
      loop-executed (suc fuel) r log i h = elim (Bool-cases (spent max_steps r.total_steps)) [
        | inl e ↦ finish-IsCounted fuel r none log i (λ r' q. absurd cc) (rw e at h)
        | inr e ↦
            on_ok (visit_head child val_str max_steps max_branches r.queue r) _ (rw e at h)
              λ next e₁ h₁.
                finish-IsCounted fuel r next log i
                  (λ r' q.
                    loop-executed fuel r' log
                      (visit_head-IsCounted r.queue r r' e i (e₁ ∙ ap ok q)))
                  h₁
      ]

      -- A log that `simulate` returns has no more entries of executed actions than `max_steps`; a
      -- negative limit allows none.
      pub simulate-executed :
          (start : C → Interval T → Result E) (model : CoupledModel T V C) (t : Interval T)
          (log : List (LogEntry V))
          → simulate child val_str start model t max_steps max_branches ≡ ok (some log)
          → executed log ≤ pos_part max_steps
      unfolding simulate executed
      simulate-executed start model t log h =
          on_ok (init child start t (new_coordinator model)) _ h λ root e h₁.
            loop-executed (pos_part max_steps * suc (to_size max_branches) + 2) _ log
              (record { counted = refl; limited = omega arith }) h₁
