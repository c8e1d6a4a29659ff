-- ===== src/RootCoordinator/Ready.antt =====
-- The lookups of names in the log entries of `simulate`, and the branches that stay in its queue.
use cadmia.Prelude.{
  ◌≡◌, subst, ◌⊎◌, inl, inr, Bool, true, false, List, [], ◌∷◌, Option, Text, out_of_range, is_nil,
  All, Bool-cases, ℕ,
}
use cadmia.Prelude.Maps.{keys, map_at, Listed}
use cadmia.Scalar.{Scalar}
use cadmia.Interval.{is_empty}
use cadmia.Engine.{IadevsEngine}
use cadmia.Coordinator.State.{Coordinator}
use cadmia.Coordinator.Branching.{BranchAction}
use cadmia.Coordinator.Routing.{Outcome}
use cadmia.Coordinator.Interface.{engine_equals}
use cadmia.Coordinator.Wired.Keys.{map_at-Listed}
use cadmia.Coordinator.Wired.Fine.{Fine, Fine-ok, Fine-bind}
use cadmia.Coordinator.Wired.Ready.{IsReady}
use cadmia.RootCoordinator.{
  Branch, LogEntry, kind_of, make_entry, deduplicate, drop_first, dedup_entry, unless_passive,
}

module _ {ℓ} {T V C E : Type ℓ} ⦃s : Scalar T⦄ (child : IadevsEngine T V E)
    (Good : E → Type ℓ) where
  abbrev pub AllReady : List (Branch (Coordinator T V C E)) → Type ℓ
  AllReady = All λ b. IsReady child Good b.coordinator

module _ {ℓ} {T V C E : Type ℓ} ⦃s : Scalar T⦄ (child : IadevsEngine T V E)
    (val_str : T → Text) where
  pub make_entry-Spares :
      (step : ℕ) (id : Text) (parent : Option Text) (action : BranchAction T) (o : Outcome V)
      (c : Coordinator T V C E) (ks : List Text)
      → ks ≡ keys c.engines
      → (is_nil action.engine_name ≡ true) ⊎ Listed action.engine_name ks
      → Fine (λ entry. Unit {0}) (make_entry child val_str step id parent action o c)
  unfolding make_entry
  make_entry-Spares step id parent action o c ks same known =
      Fine-bind (λ kind. Unit {0}) _ (kind_of child val_str action.engine_name c) _
        (kind-Fine action.engine_name known) λ kind u. Fine-ok _ _ tt
    where
      kind-Fine :
          (name : Text)
          → (is_nil name ≡ true) ⊎ Listed name ks
          → Fine (λ kind. Unit {0}) (kind_of child val_str name c)
      kind-Fine [] k = Fine-ok _ _ tt
      kind-Fine (n ∷ ns) (inl e) = absurd cc
      kind-Fine (n ∷ ns) (inr l) =
          Fine-bind (λ e. Unit {0}) _ (map_at (n ∷ ns) c.engines) _
            (
              map_at-Listed (n ∷ ns) c.engines out_of_range (subst (Listed (n ∷ ns)) same l),
              λ e h. tt,
            )
            λ e u. Fine-ok _ _ tt

module _ {ℓ} {T V C E : Type ℓ} ⦃s : Scalar T⦄ (child : IadevsEngine T V E) (Good : E → Type ℓ)
    (val_str : T → Text) where
  pub unless_passive-AllReady :
      (b : Branch (Coordinator T V C E)) (bs : List (Branch (Coordinator T V C E)))
      → IsReady child Good b.coordinator
      → AllReady child Good bs
      → AllReady child Good (unless_passive child val_str b bs)
  unless_passive-AllReady b bs p ps = elim (Bool-cases (is_empty (b.coordinator).t_next)) [
    | inl e ↦ rw e ps
    | inr e ↦ rw e (p, ps)
  ]

  pub drop_first-AllReady :
      (equal : Bool) (b : Branch (Coordinator T V C E)) (entry : LogEntry V)
      (p : List (Branch (Coordinator T V C E)) × List (LogEntry V))
      → IsReady child Good b.coordinator
      → AllReady child Good p.0
      → AllReady child Good (drop_first child val_str equal b entry p).0
  drop_first-AllReady true b entry (kept, entries) q h = h
  drop_first-AllReady false b entry (kept, entries) q h = (q, h)

  pub deduplicate-AllReady :
      (head : Branch (Coordinator T V C E)) (bs : List (Branch (Coordinator T V C E)))
      → AllReady child Good bs
      → AllReady child Good (deduplicate child val_str head bs).0
  unfolding deduplicate
  deduplicate-AllReady head [] h = tt
  deduplicate-AllReady head (b ∷ bs) (p, ps) =
      drop_first-AllReady (engine_equals child head.coordinator b.coordinator) b
        (dedup_entry child val_str head b) (deduplicate child val_str head bs) p
        (deduplicate-AllReady head bs ps)
