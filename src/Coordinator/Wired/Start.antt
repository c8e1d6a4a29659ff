-- ===== src/Coordinator/Wired/Start.antt =====
-- The names of the engines that `init` makes.
use cadmia.Prelude.{
  ◌≡◌, refl, sym, subst, text_eq, text_eq_iff, Bool-cases, ◌⊎◌, inl, inr, ◌↔◌, List, [], ◌∷◌, Text,
  Result, ok, on_ok, ok-injective, arith,
}
use cadmia.Prelude.Maps.{assign, keys, Listed}
use cadmia.Prelude.Distinct.{IsDistinct}
use cadmia.Scalar.{Scalar}
use cadmia.Interval.{Interval}
use cadmia.Engine.{IadevsEngine}
use cadmia.CoupledModel.{CoupledModel}
use cadmia.CoupledModel.Valid.{IsValid}
use cadmia.Coordinator.State.{Coordinator, start_all, bound_ts, init, new_coordinator}
use cadmia.Coordinator.Wired.Keys.{Listed-assign}
use cadmia.Coordinator.Wired.Lookups.{IsWired}

module _ {ℓ} {A : Type ℓ} where
  assign-IsDistinct :
      (k : Text) (e : A) (m : List (Text × A))
      → IsDistinct (keys m)
      → IsDistinct (keys (assign k e m))
  unfolding assign
  assign-IsDistinct k e [] d = (λ l. l, tt)
  assign-IsDistinct k e ((j, b) ∷ m) (fresh, d) = elim (Bool-cases (text_eq j k)) [
    | inl q ↦ rw (q, sym ((text_eq_iff j k).0 q)) (fresh, d)
    | inr q ↦ rw q (
      λ l. elim ((Listed-assign k j e m).0 l) [
        | inl same ↦ absurd (ground (arith, text_eq_iff j k))
        | inr there ↦ fresh there
      ],
      assign-IsDistinct k e m d,
    )
  ]

module _ {ℓ} {T V C E : Type ℓ} ⦃s : Scalar T⦄ (child : IadevsEngine T V E) where
  Listed-start_all :
      (start : C → Interval T → Result E) (t : Interval T) (specs : List (Text × C))
      (engines : List (Text × E)) {next : List (Text × E)} (k : Text)
      → start_all child start t specs engines ≡ ok next
      → Listed k (keys next) ↔ (Listed k (keys specs) ⊎ Listed k (keys engines))
  unfolding start_all
  Listed-start_all start t [] engines {next} k h =
      subst (λ m. Listed k (keys m) ↔ (⊥ ⊎ Listed k (keys engines))) (ok-injective h)
        (λ l. inr l, λ l. elim l [ inl n ↦ absurd n | inr m ↦ m ])
  Listed-start_all start t ((name, spec) ∷ specs) engines k h = on_ok (start spec t) _ h λ e e₁ h₁.
      let rest = Listed-start_all start t specs (assign name e engines) k h₁ in
      let one = Listed-assign name k e engines in ground (arith, rest, one)

  start_all-IsDistinct :
      (start : C → Interval T → Result E) (t : Interval T) (specs : List (Text × C))
      (engines : List (Text × E)) {next : List (Text × E)}
      → IsDistinct (keys engines)
      → start_all child start t specs engines ≡ ok next
      → IsDistinct (keys next)
  unfolding start_all
  start_all-IsDistinct start t [] engines d h = subst (λ m. IsDistinct (keys m)) (ok-injective h) d
  start_all-IsDistinct start t ((name, spec) ∷ specs) engines d h =
      on_ok (start spec t) _ h λ e e₁ h₁.
        start_all-IsDistinct start t specs (assign name e engines)
          (assign-IsDistinct name e engines d) h₁

  -- `init` of a new coordinator over a validated model, when it returns, leaves an engine name for each
  -- component name and no other, each once, and the influencers inverted.
  pub init-IsWired :
      (start : C → Interval T → Result E) (t : Interval T) (model : CoupledModel T V C)
      (next : Coordinator T V C E)
      → IsValid model
      → init child start t (new_coordinator model) ≡ ok next
      → IsWired child next
  unfolding init bound_ts new_coordinator
  init-IsWired start t model next v h =
      on_ok (start_all child start t model.components []) _ h λ engines e h₁.
        subst (IsWired child) (ok-injective h₁) (record {
          valid = v;
          distinct = start_all-IsDistinct start t model.components [] tt e;
          covers =
              λ k. let l = Listed-start_all start t model.components [] k e in ground (arith, l);
          influence_eq = refl;
        })
