-- ===== src/RootCoordinator/Extends.antt =====
-- The log of `simulate` from round to round.
use mathlib.Core.List.{append_assoc, append-nil}
use cadmia.Prelude.{
  ◌≡◌, refl, sym, subst, ap, ◌∙◌, Bool, true, false, if◌then◌else◌, List, [], ◌∷◌, ◌++◌, Option,
  none, some, Text, Result, ok, err, ◌>>=◌, on_ok, ok-injective, throw_if, length, Bool-cases, inl,
  inr, arith, ℕ, zero, suc, ◌+◌, ltb,
}
use cadmia.Prelude.Int.{ℤ}
use cadmia.Scalar.{Scalar}
use cadmia.Interval.{is_empty}
use cadmia.Engine.{IadevsEngine}
use cadmia.Coordinator.State.{Coordinator}
use cadmia.Coordinator.Branching.{BranchAction, compute_branches}
use cadmia.Coordinator.Routing.{execute_branch}
use cadmia.Coordinator.Interface.{clone}
use cadmia.RootCoordinator.{
  Run, Branch, LogEntry, to_size, spent, to_string, make_entry, deduplicate, run_in_place,
  run_branches, expand, visit, visit_head, round, loop,
}

-- The second list begins with the first.
abbrev pub Prefix {ℓ} : {A : Type ℓ} → List A → List A → Type ℓ
Prefix {A} xs ys = (zs : List A) × (xs ++ zs ≡ ys)

module _ {ℓ} {A : Type ℓ} where
  pub Prefix-refl : (xs : List A) → Prefix xs xs
  Prefix-refl xs = ([], append-nil xs)

  Prefix-append : (xs zs : List A) → Prefix xs (xs ++ zs)
  Prefix-append xs zs = (zs, refl)

  pub Prefix-trans : (xs ys zs : List A) → Prefix xs ys → Prefix ys zs → Prefix xs zs
  Prefix-trans xs ys zs (us, e) (vs, q) =
      (us ++ vs, sym (append_assoc xs us vs) ∙ ap (λ l. l ++ vs) e ∙ q)

module _ {ℓ} {T V C E : Type ℓ} ⦃s : Scalar T⦄ (child : IadevsEngine T V E)
    (val_str : T → Text) where
  abbrev pub Extends : Run V (Coordinator T V C E) → Run V (Coordinator T V C E) → Type ℓ
  Extends r r' = Prefix r.log r'.log

  same-Extends : (r r' : Run V (Coordinator T V C E)) → r ≡ r' → Extends r r'
  same-Extends r r' e = subst (Extends r) e (Prefix-refl r.log)

  run_in_place-Extends :
      (action : BranchAction T) (b : Branch (Coordinator T V C E))
      (r r' : Run V (Coordinator T V C E))
      → run_in_place child val_str action b r ≡ ok r'
      → Extends r r'
  unfolding run_in_place
  run_in_place-Extends action b r r' h =
      on_ok (execute_branch child action b.coordinator) _ h λ result e h₁.
        on_ok
          (make_entry child val_str b.step b.branch_id b.parent_branch_id action result.1 result.0)
          _ h₁ λ entry e₁ h₂. subst (Extends r) (ok-injective h₂) (Prefix-append r.log (entry ∷ []))

  pub run_branches-Extends :
      (max_steps : ℤ) (actions : List (BranchAction T)) (b : Branch (Coordinator T V C E))
      (r r' : Run V (Coordinator T V C E))
      → run_branches child val_str max_steps actions b r ≡ ok r'
      → Extends r r'
  unfolding run_branches
  run_branches-Extends max_steps [] b r r' h = same-Extends r r' (ok-injective h)
  run_branches-Extends max_steps (action ∷ actions) b r r' h =
      elim (Bool-cases (spent max_steps r.total_steps)) [
        | inl e ↦ same-Extends r r' (ok-injective (rw e at h))
        | inr e ↦
            on_ok (execute_branch child action (clone child b.coordinator)) _ (rw e at h)
              λ result e₁ h₁.
                on_ok
                  (make_entry child val_str b.step (to_string r.next_branch_id) (some b.branch_id)
                    action result.1 result.0)
                  _ h₁
                  λ entry e₂ h₂.
                    Prefix-trans r.log (r.log ++ (entry ∷ [])) r'.log
                      (Prefix-append r.log (entry ∷ []))
                      (run_branches-Extends max_steps actions b _ r' h₂)
      ]

  module _ (max_steps max_branches : ℤ) where
    expand-Extends :
        (b : Branch (Coordinator T V C E)) (actions : List (BranchAction T))
        (r r' : Run V (Coordinator T V C E))
        → expand child val_str max_steps max_branches b actions r ≡ ok r'
        → Extends r r'
    unfolding expand
    expand-Extends b [] r r' h = same-Extends r r' (ok-injective h)
    expand-Extends b (action ∷ []) r r' h = run_in_place-Extends action b r r' h
    expand-Extends b (a₁ ∷ a₂ ∷ actions) r r' h =
        on_ok
          (throw_if (ltb (to_size max_branches) (length r.queue + length (a₁ ∷ a₂ ∷ actions))) _) _
          h λ u guard h₁. run_branches-Extends max_steps (a₁ ∷ a₂ ∷ actions) b r r' h₁

    discard_or_expand-Extends :
        (passive : Bool) (b : Branch (Coordinator T V C E)) (m : Result (List (BranchAction T)))
        (r r' : Run V (Coordinator T V C E))
        → (if passive
            then ok r
            else (m >>= λ actions. expand child val_str max_steps max_branches b actions r))
          ≡ ok r'
        → Extends r r'
    discard_or_expand-Extends true b m r r' h = same-Extends r r' (ok-injective h)
    discard_or_expand-Extends false b (ok actions) r r' h = expand-Extends b actions r r' h
    discard_or_expand-Extends false b (err q) r r' h = absurd cc

    pub visit-Extends :
        (b : Branch (Coordinator T V C E)) (bs : List (Branch (Coordinator T V C E)))
        (r r' : Run V (Coordinator T V C E))
        → visit child val_str max_steps max_branches b bs r ≡ ok r'
        → Extends r r'
    unfolding visit
    visit-Extends b bs r r' h =
        let split = deduplicate child val_str b bs in
        Prefix-trans r.log (r.log ++ split.1) r'.log (Prefix-append r.log split.1) (
          discard_or_expand-Extends (is_empty (b.coordinator).t_next) b
            (compute_branches child (b.coordinator).t_next b.coordinator)
            (record r { queue = split.0; log = r.log ++ split.1 }) r' h)

    visit_head-Extends :
        (bs : List (Branch (Coordinator T V C E))) (r r' : Run V (Coordinator T V C E))
        → visit_head child val_str max_steps max_branches bs r ≡ ok (some r')
        → Extends r r'
    visit_head-Extends [] r r' h = absurd cc
    visit_head-Extends (b ∷ bs) r r' h = visit-Extends b bs r r' (ground arith)

    ends_or_goes_on :
        (fuel : ℕ) (r : Run V (Coordinator T V C E)) (next : Option (Run V (Coordinator T V C E)))
        (log : List (LogEntry V))
        → ((r' : Run V (Coordinator T V C E))
            → next ≡ some r'
            → loop child val_str max_steps max_branches fuel r' ≡ ok (some log)
            → Prefix r.log log)
        → (elim next [
          | none ↦ ok (some r.log)
          | some r' ↦ loop child val_str max_steps max_branches fuel r'
        ])
          ≡ ok (some log)
        → Prefix r.log log
    ends_or_goes_on fuel r none log more h =
        let e : r.log ≡ log = cc in subst (Prefix r.log) e (Prefix-refl r.log)
    ends_or_goes_on fuel r (some r') log more h = more r' refl h

    -- The log that the loop returns begins with the one that it was given.
    pub loop-Extends :
        (fuel : ℕ) (r : Run V (Coordinator T V C E)) (log : List (LogEntry V))
        → loop child val_str max_steps max_branches fuel r ≡ ok (some log)
        → Prefix r.log log
    unfolding loop round
    loop-Extends zero r log h = absurd cc
    loop-Extends (suc fuel) r log h = elim (Bool-cases (spent max_steps r.total_steps)) [
      | inl e ↦ ends_or_goes_on fuel r none log (λ r' q. absurd cc) (rw e at h)
      | inr e ↦
          on_ok (visit_head child val_str max_steps max_branches r.queue r) _ (rw e at h)
            λ next e₁ h₁.
              ends_or_goes_on fuel r next log
                (λ r' q h₂.
                  Prefix-trans r.log r'.log log (visit_head-Extends r.queue r r' (e₁ ∙ ap ok q))
                    (loop-Extends fuel r' log h₂))
                h₁
    ]
