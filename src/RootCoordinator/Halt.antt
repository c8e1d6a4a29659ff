-- ===== src/RootCoordinator/Halt.antt =====
-- Deduplication, and the steps and branches that a round of `simulate` adds.
use cadmia.Prelude.{
  ◌≡◌, ◌≢◌, refl, sym, ap, subst, not, map, codes, filter_by, inl, inr, Bool, true, false, List, [],
  ◌∷◌, some, Text, ok, on_ok, ok-injective, length, length-append, All, Bool-cases, arith, ℕ, suc,
  ◌+◌, ◌≤◌,
}
use cadmia.Prelude.Int.{ℤ}
use cadmia.Scalar.{Scalar}
use cadmia.Engine.{IadevsEngine}
use cadmia.Coordinator.State.{Coordinator}
use cadmia.Coordinator.Branching.{BranchAction}
use cadmia.Coordinator.Routing.{execute_branch}
use cadmia.Coordinator.Interface.{clone, engine_equals}
use cadmia.RootCoordinator.{
  Run, Branch, LogEntry, spent, to_string, make_entry, deduplicate, drop_first, dedup_entry,
  unless_passive, run_in_place, run_branches,
}

module _ {ℓ} {T V C E : Type ℓ} ⦃s : Scalar T⦄ (child : IadevsEngine T V E)
    (val_str : T → Text) where
  drop_first-length :
      (equal : Bool) (b : Branch (Coordinator T V C E)) (entry : LogEntry V)
      (p : List (Branch (Coordinator T V C E)) × List (LogEntry V))
      → length (drop_first child val_str equal b entry p).0
          + length (drop_first child val_str equal b entry p).1
        ≡ suc (length p.0 + length p.1)
  drop_first-length true b entry (kept, entries) = omega arith
  drop_first-length false b entry (kept, entries) = omega arith

  -- Deduplication turns each branch after the head into a branch that stays or into one log entry.
  pub deduplicate-length :
      (head : Branch (Coordinator T V C E)) (bs : List (Branch (Coordinator T V C E)))
      → length (deduplicate child val_str head bs).0 + length (deduplicate child val_str head bs).1
        ≡ length bs
  unfolding deduplicate
  deduplicate-length head [] = refl
  deduplicate-length head (b ∷ bs) = omega (
    arith,
    deduplicate-length head bs,
    drop_first-length (engine_equals child head.coordinator b.coordinator) b
        (dedup_entry child val_str head b) (deduplicate child val_str head bs),
  )

  -- Whether a branch is dropped.
  abbrev pub is_duplicate : Branch (Coordinator T V C E) → Branch (Coordinator T V C E) → Bool
  is_duplicate head b = engine_equals child head.coordinator b.coordinator

  deduplicate-filter_by :
      (head : Branch (Coordinator T V C E)) (bs : List (Branch (Coordinator T V C E)))
      → deduplicate child val_str head bs ≡ (
        filter_by (λ b. not (is_duplicate head b)) bs,
        map (dedup_entry child val_str head) (filter_by (is_duplicate head) bs),
      )
  unfolding deduplicate
  deduplicate-filter_by head [] = refl
  deduplicate-filter_by head (b ∷ bs) =
      elim (Bool-cases (engine_equals child head.coordinator b.coordinator)) [
        | inl e ↦ rw (e, deduplicate-filter_by head bs) refl
        | inr e ↦ rw (e, deduplicate-filter_by head bs) refl
      ]

  merged :
      (head : Branch (Coordinator T V C E)) (bs : List (Branch (Coordinator T V C E)))
      → All
          (λ e. (e.kind ≡ codes "dedup") × (e.merged_into ≡ some head.branch_id))
          (map (dedup_entry child val_str head) bs)
  unfolding dedup_entry
  merged head [] = tt
  merged head (b ∷ bs) = ((refl, refl), merged head bs)

  -- Of the branches behind the head, those that stay are the ones that are not equal to it, in their order,
  -- and there is one log entry for each of the others, in their order: a "dedup" entry that names the
  -- head as the branch it is merged into.
  pub deduplicate_lem :
      (head : Branch (Coordinator T V C E)) (bs : List (Branch (Coordinator T V C E)))
      → ((deduplicate child val_str head bs).0 ≡ filter_by (λ b. not (is_duplicate head b)) bs)
        × ((deduplicate child val_str head bs).1
            ≡ map (dedup_entry child val_str head) (filter_by (is_duplicate head) bs))
        × All
            (λ e. (e.kind ≡ codes "dedup") × (e.merged_into ≡ some head.branch_id))
            (deduplicate child val_str head bs).1
  deduplicate_lem head bs =
      let e = deduplicate-filter_by head bs in
      (
        ap (λ p. p.0) e,
        ap (λ p. p.1) e,
        subst (λ p. All (λ e. (e.kind ≡ codes "dedup") × (e.merged_into ≡ some head.branch_id)) p.1)
            (sym e) (merged head (filter_by (is_duplicate head) bs)),
      )

  unless_passive-length :
      (b : Branch (Coordinator T V C E)) (bs : List (Branch (Coordinator T V C E)))
      → length (unless_passive child val_str b bs) ≤ suc (length bs)
  unless_passive-length b bs = ground arith

  -- How far a run has come: at least so many steps, and at most so many new branches.
  pub record Grows (r r' : Run V (Coordinator T V C E)) (steps added : ℕ) : Type 0 where
    pub taken : r.total_steps + steps ≤ r'.total_steps
    pub queued : length r'.queue ≤ length r.queue + added

  pub run_in_place-Grows :
      (action : BranchAction T) (b : Branch (Coordinator T V C E))
      (r r' : Run V (Coordinator T V C E))
      → run_in_place child val_str action b r ≡ ok r'
      → Grows r r' 1 1
  unfolding run_in_place
  run_in_place-Grows action b r r' h =
      on_ok (execute_branch child action b.coordinator) _ h λ result e h₁.
        on_ok
          (make_entry child val_str b.step b.branch_id b.parent_branch_id action result.1 result.0)
          _ h₁
          λ entry e₁ h₂.
            subst (λ q. Grows r q 1 1) (ok-injective h₂)
              (record {
                taken = omega arith;
                queued = omega (
                  arith,
                  unless_passive-length (record b { coordinator = result.0; step = suc b.step })
                      r.queue,
                );
              })

  pub run_branches-Grows :
      (max_steps : ℤ) (actions : List (BranchAction T)) (b : Branch (Coordinator T V C E))
      (r r' : Run V (Coordinator T V C E))
      → run_branches child val_str max_steps actions b r ≡ ok r'
      → Grows r r' 0 (length actions)
        × (spent max_steps r.total_steps ≡ false → actions ≢ [] → Grows r r' 1 (length actions))
  unfolding run_branches
  run_branches-Grows max_steps [] b r r' h = (
    subst (λ q. Grows r q 0 0) (ok-injective h)
        (record { taken = omega arith; queued = omega arith }),
    λ p q. absurd (q refl),
  )
  run_branches-Grows max_steps (action ∷ actions) b r r' h =
      elim (Bool-cases (spent max_steps r.total_steps)) [
        | inl e ↦ (
          subst (λ q. Grows r q 0 (suc (length actions))) (ok-injective (rw e at h))
              (record { taken = omega arith; queued = omega arith }),
          λ p q. absurd cc,
        )
        | inr e ↦
            on_ok (execute_branch child action (clone child b.coordinator)) _ (rw e at h)
              λ result e₁ h₁.
                let new_id = to_string r.next_branch_id in
                on_ok
                  (make_entry child val_str b.step new_id (some b.branch_id) action result.1
                    result.0)
                  _ h₁
                  λ entry e₂ h₂.
                    let new : Branch (Coordinator T V C E) = record {
                      branch_id = new_id;
                      coordinator = result.0;
                      parent_branch_id = some b.branch_id;
                      step = suc b.step;
                    } in
                    let more = unless_passive child val_str new [] in
                    let rest = (run_branches-Grows max_steps actions b _ r' h₂).0 in
                    let grows : Grows r r' 1 (suc (length actions)) = record {
                      taken = omega (arith, rest.taken);
                      queued = omega (
                        arith,
                        rest.queued,
                        unless_passive-length new [],
                        length-append r.queue more,
                      );
                    } in
                    (
                      record { taken = omega (arith, grows.taken); queued = grows.queued },
                      λ p q. grows,
                    )
      ]
