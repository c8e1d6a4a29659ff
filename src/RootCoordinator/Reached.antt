-- ===== src/RootCoordinator/Reached.antt =====
-- The states that the loop of `simulate` reaches, and the identifiers of the branches in their queues.
use mathlib.Core.List.{append-nil}
use cadmia.Prelude.{
  ◌≡◌, refl, sym, subst, Bool, true, false, if◌then◌else◌, List, [], ◌∷◌, ◌++◌, none, some, Text,
  codes, Result, ok, err, ◌>>=◌, on_ok, ok-injective, throw_if, length, Bool-cases, inl, inr, arith,
  ℕ, suc, ◌+◌, ltb,
}
use cadmia.Prelude.Int.{ℤ}
use cadmia.Prelude.Maps.{Listed}
use cadmia.Scalar.{Scalar}
use cadmia.Interval.{is_empty}
use cadmia.Engine.{IadevsEngine}
use cadmia.Coordinator.State.{Coordinator}
use cadmia.Coordinator.Branching.{BranchAction, compute_branches}
use cadmia.Coordinator.Routing.{execute_branch}
use cadmia.Coordinator.Interface.{clone, engine_equals}
use cadmia.RootCoordinator.{
  Run, Branch, LogEntry, to_size, spent, to_string, make_entry, deduplicate, drop_first,
  dedup_entry, unless_passive, run_in_place, run_branches, expand, visit, visit_head, round, digits,
}
use cadmia.RootCoordinator.Fresh.{ids, IsFresh, later, added}

module _ {ℓ} {T V C E : Type ℓ} ⦃s : Scalar T⦄ (child : IadevsEngine T V E) (val_str : T → Text)
    (max_steps max_branches : ℤ) where
  -- The state in which the loop begins.
  abbrev pub first_run : Coordinator T V C E → Run V (Coordinator T V C E)
  first_run root = record {
    queue =
        (record { branch_id = codes "0"; coordinator = root; parent_branch_id = none; step = 0 })
        ∷ [];
    log = [];
    total_steps = 0;
    next_branch_id = 1;
  }

  -- Reached from the first state, by rounds.
  pub data Reached (root : Coordinator T V C E) : Run V (Coordinator T V C E) → Type ℓ where
    begun : Reached root (first_run root)
    rounded :
        {r r' : Run V (Coordinator T V C E)}
        → Reached root r
        → round child val_str max_steps max_branches r ≡ ok (some r')
        → Reached root r'

  abbrev Numbered : Run V (Coordinator T V C E) → Type 0
  Numbered r = IsFresh r.next_branch_id r.queue

  drop_first-fewer :
      (equal : Bool) (b : Branch (Coordinator T V C E)) (entry : LogEntry V)
      (p : List (Branch (Coordinator T V C E)) × List (LogEntry V)) (k : Text)
      → Listed k (ids (drop_first child val_str equal b entry p).0)
      → Listed k (b.branch_id ∷ ids p.0)
  drop_first-fewer true b entry (kept, entries) k l = inr l
  drop_first-fewer false b entry (kept, entries) k l = l

  deduplicate-fewer :
      (head : Branch (Coordinator T V C E)) (bs : List (Branch (Coordinator T V C E))) (k : Text)
      → Listed k (ids (deduplicate child val_str head bs).0)
      → Listed k (ids bs)
  unfolding deduplicate
  deduplicate-fewer head [] k l = l
  deduplicate-fewer head (b ∷ bs) k l =
      elim (drop_first-fewer (engine_equals child head.coordinator b.coordinator) b
        (dedup_entry child val_str head b) (deduplicate child val_str head bs) k l) [
          | inl e ↦ inl e
          | inr m ↦ inr (deduplicate-fewer head bs k m)
        ]

  drop_first-IsFresh :
      (next : ℕ) (equal : Bool) (b : Branch (Coordinator T V C E)) (entry : LogEntry V)
      (p : List (Branch (Coordinator T V C E)) × List (LogEntry V))
      → IsFresh next (b ∷ p.0)
      → IsFresh next (drop_first child val_str equal b entry p).0
  drop_first-IsFresh next true b entry (kept, entries) f = record {
    numbered = f.numbered.1;
    distinct = f.distinct.1;
  }
  drop_first-IsFresh next false b entry (kept, entries) f = f

  deduplicate-IsFresh :
      (next : ℕ) (head : Branch (Coordinator T V C E)) (bs : List (Branch (Coordinator T V C E)))
      → IsFresh next bs
      → IsFresh next (deduplicate child val_str head bs).0
  unfolding deduplicate
  deduplicate-IsFresh next head [] f = f
  deduplicate-IsFresh next head (b ∷ bs) f =
      let kept =
        deduplicate-IsFresh next head bs
          (record { numbered = f.numbered.1; distinct = f.distinct.1 }) in
      drop_first-IsFresh next (engine_equals child head.coordinator b.coordinator) b
        (dedup_entry child val_str head b) (deduplicate child val_str head bs)
        (record {
          numbered = (f.numbered.0, kept.numbered);
          distinct = (λ l. f.distinct.0 (deduplicate-fewer head bs b.branch_id l), kept.distinct);
        })

  unless_passive-IsFresh :
      (next : ℕ) (b : Branch (Coordinator T V C E)) (bs : List (Branch (Coordinator T V C E)))
      → IsFresh next (b ∷ bs)
      → IsFresh next (unless_passive child val_str b bs)
  unless_passive-IsFresh next b bs f = elim (Bool-cases (is_empty (b.coordinator).t_next)) [
    | inl e ↦ rw e (record { numbered = f.numbered.1; distinct = f.distinct.1 })
    | inr e ↦ rw e f
  ]

  behind :
      (next : ℕ) (b : Branch (Coordinator T V C E)) (bs : List (Branch (Coordinator T V C E)))
      → b.branch_id ≡ to_string next
      → IsFresh next bs
      → IsFresh (suc next) (bs ++ unless_passive child val_str b [])
  behind next b bs e f = elim (Bool-cases (is_empty (b.coordinator).t_next)) [
    | inl q ↦ rw q (subst (IsFresh (suc next)) (sym (append-nil bs)) (later next bs f))
    | inr q ↦ rw q (added next bs b e f)
  ]

  run_in_place-Numbered :
      (action : BranchAction T) (b : Branch (Coordinator T V C E))
      (r r' : Run V (Coordinator T V C E))
      → IsFresh r.next_branch_id (b ∷ r.queue)
      → run_in_place child val_str action b r ≡ ok r'
      → Numbered r'
  unfolding run_in_place
  run_in_place-Numbered action b r r' f h =
      on_ok (execute_branch child action b.coordinator) _ h λ result e h₁.
        on_ok
          (make_entry child val_str b.step b.branch_id b.parent_branch_id action result.1 result.0)
          _ h₁
          λ entry e₁ h₂. subst Numbered (ok-injective h₂) (
            unless_passive-IsFresh r.next_branch_id _ r.queue
              (record { numbered = f.numbered; distinct = f.distinct }))

  run_branches-Numbered :
      (actions : List (BranchAction T)) (b : Branch (Coordinator T V C E))
      (r r' : Run V (Coordinator T V C E))
      → Numbered r
      → run_branches child val_str max_steps actions b r ≡ ok r'
      → Numbered r'
  unfolding run_branches
  run_branches-Numbered [] b r r' f h = subst Numbered (ok-injective h) f
  run_branches-Numbered (action ∷ actions) b r r' f h =
      elim (Bool-cases (spent max_steps r.total_steps)) [
        | inl e ↦ subst Numbered (ok-injective (rw e at h)) f
        | inr e ↦
            on_ok (execute_branch child action (clone child b.coordinator)) _ (rw e at h)
              λ result e₁ h₁.
                on_ok
                  (make_entry child val_str b.step (to_string r.next_branch_id) (some b.branch_id)
                    action result.1 result.0)
                  _ h₁
                  λ entry e₂ h₂.
                    run_branches-Numbered actions b _ r' (behind r.next_branch_id _ r.queue refl f)
                      h₂
      ]

  expand-Numbered :
      (b : Branch (Coordinator T V C E)) (actions : List (BranchAction T))
      (r r' : Run V (Coordinator T V C E))
      → IsFresh r.next_branch_id (b ∷ r.queue)
      → expand child val_str max_steps max_branches b actions r ≡ ok r'
      → Numbered r'
  unfolding expand
  expand-Numbered b [] r r' f h =
      subst Numbered (ok-injective h) (record { numbered = f.numbered.1; distinct = f.distinct.1 })
  expand-Numbered b (action ∷ []) r r' f h = run_in_place-Numbered action b r r' f h
  expand-Numbered b (a₁ ∷ a₂ ∷ actions) r r' f h =
      on_ok (throw_if (ltb (to_size max_branches) (length r.queue + length (a₁ ∷ a₂ ∷ actions))) _)
        _ h
        λ u guard h₁.
          run_branches-Numbered (a₁ ∷ a₂ ∷ actions) b r r'
            (record { numbered = f.numbered.1; distinct = f.distinct.1 }) h₁

  discard_or_expand-Numbered :
      (passive : Bool) (b : Branch (Coordinator T V C E)) (m : Result (List (BranchAction T)))
      (r r' : Run V (Coordinator T V C E))
      → IsFresh r.next_branch_id (b ∷ r.queue)
      → (if passive
          then ok r
          else (m >>= λ actions. expand child val_str max_steps max_branches b actions r))
        ≡ ok r'
      → Numbered r'
  discard_or_expand-Numbered true b m r r' f h =
      subst Numbered (ok-injective h) (record { numbered = f.numbered.1; distinct = f.distinct.1 })
  discard_or_expand-Numbered false b (ok actions) r r' f h = expand-Numbered b actions r r' f h
  discard_or_expand-Numbered false b (err q) r r' f h = absurd cc

  visit_head-Numbered :
      (bs : List (Branch (Coordinator T V C E))) (r r' : Run V (Coordinator T V C E))
      → IsFresh r.next_branch_id bs
      → visit_head child val_str max_steps max_branches bs r ≡ ok (some r')
      → Numbered r'
  unfolding visit
  visit_head-Numbered [] r r' f h = absurd cc
  visit_head-Numbered (b ∷ bs) r r' f h =
      let split = deduplicate child val_str b bs in
      let kept =
        deduplicate-IsFresh r.next_branch_id b bs
          (record { numbered = f.numbered.1; distinct = f.distinct.1 }) in
      discard_or_expand-Numbered (is_empty (b.coordinator).t_next) b
        (compute_branches child (b.coordinator).t_next b.coordinator)
        (record r { queue = split.0; log = r.log ++ split.1 }) r'
        (record {
          numbered = (f.numbered.0, kept.numbered);
          distinct = (λ l. f.distinct.0 (deduplicate-fewer b bs b.branch_id l), kept.distinct);
        })
        (ground arith)

  round-Numbered :
      (r r' : Run V (Coordinator T V C E))
      → Numbered r
      → round child val_str max_steps max_branches r ≡ ok (some r')
      → Numbered r'
  unfolding round
  round-Numbered r r' f h = elim (Bool-cases (spent max_steps r.total_steps)) [
    | inl e ↦ absurd (ground arith)
    | inr e ↦ visit_head-Numbered r.queue r r' f (rw e at h)
  ]

  -- In every state that the loop reaches, no two branches of the queue have one identifier, and each
  -- identifier is the decimal of a number below `next_branch_id`, so that the next one is new.
  pub reached-IsFresh :
      (root : Coordinator T V C E) (r : Run V (Coordinator T V C E))
      → Reached root r
      → IsFresh r.next_branch_id r.queue
  unfolding to_string digits
  reached-IsFresh root _ begun = record {
    numbered = ((0, refl, omega arith), tt);
    distinct = (λ l. l, tt);
  }
  reached-IsFresh root r' (rounded {r} before h) =
      round-Numbered r r' (reached-IsFresh root r before) h
