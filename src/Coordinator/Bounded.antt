-- ===== src/Coordinator/Bounded.antt =====
-- The invariant of a coordinator: its two intervals bound those of its children.
use mathlib.Core.Path.{ap₂}
use cadmia.Prelude.{
  ◌≡◌, refl, subst, ap, ◌∙◌, List, [], ◌∷◌, Option, none, some, Text, Result, ok, err, on_ok,
  ok-injective, is_nil, map_ok, Bool-cases, inl, inr,
}
use cadmia.Prelude.Maps.{map_at, assign}
use cadmia.Scalar.{Scalar}
use cadmia.Interval.{Interval}
use cadmia.Engine.{IadevsEngine}
use cadmia.Coordinator.Hull.{compute_t_last, compute_t_next}
use cadmia.Coordinator.State.{
  Coordinator, hull, all_t_last, active_t_next, targets, bound_ts, init, with_engines, start_all,
  invert,
}
use cadmia.Coordinator.Branching.{BranchAction}
use cadmia.Coordinator.Routing.{
  Outcome, route, pass_on, settle, defer_and_route, execute_branch, x_function, receive_all,
  deliver_all, external_output, advance_all, clone_all, silent,
}
use cadmia.Coordinator.Interface.{clone}

module _ {ℓ} {T V E : Type ℓ} (child : IadevsEngine T V E) where
  clone_all-id :
      ((e : E) → child.clone e ≡ e)
      → (engines : List (Text × E)) → clone_all child engines ≡ engines
  unfolding clone_all
  clone_all-id copies [] = refl
  clone_all-id copies ((name, e) ∷ engines) =
      ap₂ ◌∷◌ (ap (λ q. (name, q)) (copies e)) (clone_all-id copies engines)

module _ {ℓ} {T V C E : Type ℓ} ⦃s : Scalar T⦄ (child : IadevsEngine T V E) where
  -- Algorithms 5 and 6 hold of the children as they are.
  pub record IsBounded (c : Coordinator T V C E) : Type ℓ where
    pub t_last_eq : c.t_last ≡ hull compute_t_last (all_t_last child c.engines)
    pub t_next_eq : c.t_next ≡ hull compute_t_next (active_t_next child c.engines)

  -- What a step of a coordinator leaves as it is.
  pub record Follows (c next : Coordinator T V C E) : Type ℓ where
    pub bounded : IsBounded next
    pub model_eq : next.model ≡ c.model
    pub influenced_by_eq : next.influenced_by ≡ c.influenced_by

  bound_ts-Follows :
      (c next : Coordinator T V C E)
      → next.model ≡ c.model
      → next.influenced_by ≡ c.influenced_by
      → Follows c (bound_ts child next)
  unfolding bound_ts
  bound_ts-Follows c next p q = record {
    bounded = record { t_last_eq = refl; t_next_eq = refl };
    model_eq = p;
    influenced_by_eq = q;
  }

  pub init-IsBounded :
      (start : C → Interval T → Result E) (t : Interval T) (c next : Coordinator T V C E)
      → init child start t c ≡ ok next
      → IsBounded next × (next.model ≡ c.model) × (next.influenced_by ≡ invert c.model.influencers)
  unfolding init bound_ts
  init-IsBounded start t c next h =
      on_ok (start_all child start t c.model.components []) _ h λ engines e k.
        subst
          (λ n. IsBounded n × (n.model ≡ c.model) × (n.influenced_by ≡ invert c.model.influencers))
          (ok-injective k) (record { t_last_eq = refl; t_next_eq = refl }, refl, refl)

  abbrev Keeps : Coordinator T V C E → Coordinator T V C E → Type ℓ
  Keeps c next = (next.model ≡ c.model) × (next.influenced_by ≡ c.influenced_by)

  pass_on-Keeps :
      (name : Text) (t : Interval T) (c : Coordinator T V C E) (out : Option Text × Option V)
      {next : Coordinator T V C E} {o : Outcome V}
      → pass_on child name t c out ≡ ok (next, o)
      → Keeps c next
  unfolding pass_on
  pass_on-Keeps name t c (text, none) h = subst (λ r. Keeps c (r.0)) (ok-injective h) (refl, refl)
  pass_on-Keeps name t c (text, some y) h =
      on_ok (deliver_all child c.model t y name (targets name c.influenced_by) c.engines) _ h
        λ engines e h₁.
          on_ok (external_output child c.model name y) _ h₁
            λ eoc e₁ h₂. subst (λ r. Keeps c (r.0)) (ok-injective h₂) (refl, refl)

  route-Keeps :
      (name : Text) (t : Interval T) (c : Coordinator T V C E) {next : Coordinator T V C E}
      {o : Outcome V}
      → route child name t c ≡ ok (next, o)
      → Keeps c next
  unfolding route
  route-Keeps name t c h = on_ok (map_at name c.engines) _ h λ e e₁ h₁.
      on_ok (child.engine_star t e) _ h₁ λ star e₂ h₂.
        pass_on-Keeps name t (with_engines c (assign name star.0 c.engines)) (star.1, star.2) h₂

  settled :
      (c : Coordinator T V C E) (m : Result (Coordinator T V C E × Outcome V))
      {next : Coordinator T V C E} {o : Outcome V}
      → ((n : Coordinator T V C E) (q : Outcome V) → m ≡ ok (n, q) → Keeps c n)
      → map_ok (settle child) m ≡ ok (next, o)
      → Follows c next
  unfolding settle
  settled c (ok (n, q)) keeps h =
      let (p, r) = keeps n q refl in
      subst (λ z. Follows c (z.0)) (ok-injective h) (bound_ts-Follows c n p r)
  settled c (err e) keeps h = absurd cc

  defer_and_route-Follows :
      (action : BranchAction T) (c : Coordinator T V C E) {next : Coordinator T V C E}
      {o : Outcome V}
      → defer_and_route child action c ≡ ok (next, o)
      → Follows c next
  unfolding defer_and_route
  defer_and_route-Follows action c h = on_ok (map_at action.defer_engine c.engines) _ h λ e e₁ h₁.
      let deferred =
        with_engines c
          (assign action.defer_engine (child.advance_t_next_past_limit action.limit e) c.engines) in
      on_ok (route child action.engine_name action.limit deferred) _ h₁ λ result e₂ h₂.
        settled c (ok result)
          (λ n q eq. route-Keeps action.engine_name action.limit deferred (e₂ ∙ eq)) h₂

  -- Each of the three kinds of branch, when it returns, leaves a coordinator whose intervals bound those
  -- of its children, over the same model and the same coupling.
  pub execute_branch-IsBounded :
      (action : BranchAction T) (c next : Coordinator T V C E) (o : Outcome V)
      → execute_branch child action c ≡ ok (next, o)
      → Follows c next
  unfolding execute_branch
  execute_branch-IsBounded action c next o h = elim (Bool-cases (is_nil action.defer_engine)) [
    | inr e ↦ defer_and_route-Follows action c (rw e at h)
    | inl e ↦ elim (Bool-cases (is_nil action.engine_name)) [
      | inl e₁ ↦
          settled c (ok (with_engines c (advance_all child action.limit c.engines), silent))
            (λ n q eq. subst (λ z. Keeps c (z.0)) (ok-injective eq) (refl, refl)) (rw (e, e₁) at h)
      | inr e₁ ↦
          settled c (route child action.engine_name action.limit c)
            (λ n q eq. route-Keeps action.engine_name action.limit c eq) (rw (e, e₁) at h)
    ]
  ]

  pub x_function-IsBounded :
      (x : V) (t : Interval T) (c next : Coordinator T V C E)
      → x_function child x t c ≡ ok next
      → Follows c next
  unfolding x_function
  x_function-IsBounded x t c next h =
      on_ok (receive_all child c.model x t c.model.influencers c.engines) _ h λ engines e h₁.
        subst (Follows c) (ok-injective h₁) (bound_ts-Follows c (with_engines c engines) refl refl)

  -- When the children's clones are copies, the clone of a coordinator is a copy.
  pub clone-id : ((e : E) → child.clone e ≡ e) → (c : Coordinator T V C E) → clone child c ≡ c
  unfolding clone
  clone-id copies c = ap (with_engines c) (clone_all-id child copies c.engines)
