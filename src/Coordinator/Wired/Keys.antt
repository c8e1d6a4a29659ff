-- ===== src/Coordinator/Wired/Keys.antt =====
-- The names of the engines, before and after each step of a coordinator.
use cadmia.Prelude.{
  ◌≡◌, ◌≢◌, ◌∙◌, refl, sym, subst, ap, ◌⊎◌, inl, inr, ◌↔◌, Bool, true, false, if◌then◌else◌, List,
  [], ◌∷◌, Option, none, some, Text, text_eq, text_eq_iff, Result, ok, err, ◌>>=◌, on_ok,
  ok-injective, map_ok, is_nil, Bool-cases, arith,
}
use cadmia.Prelude.Maps.{find, assign, keys, map_at, Listed}
use cadmia.Scalar.{Scalar}
use cadmia.Interval.{Interval}
use cadmia.Engine.{IadevsEngine, Translation}
use cadmia.CoupledModel.{CoupledModel, self, translation}
use cadmia.Coordinator.State.{Coordinator, targets, with_engines, bound_ts}
use cadmia.Coordinator.Branching.{BranchAction}
use cadmia.Coordinator.Routing.{
  Outcome, deliver, advance_all, deliver_all, receive, receive_all, external_output, pass_on, route,
  settle, defer_and_route, execute_branch, x_function, silent,
}

module _ {ℓ} {A : Type ℓ} where
  -- Writing under a name that is there adds none.
  pub keys-assign :
      (k : Text) (a : A) {b : A} (m : List (Text × A))
      → map_at k m ≡ ok b
      → keys (assign k a m) ≡ keys m
  unfolding assign find
  keys-assign k a [] h = cc
  keys-assign k a ((j, b) ∷ m) h = elim (Bool-cases (text_eq j k)) [
    | inl e ↦ rw e (ap (λ x. x ∷ keys m) (sym ((text_eq_iff j k).0 e)))
    | inr e ↦ rw e (ap (λ ks. j ∷ ks) (keys-assign k a m (rw e at h)))
  ]

  -- A name that is there is found.
  pub map_at-Listed :
      (k : Text) (m : List (Text × A)) (e : _) → Listed k (keys m) → map_at k m ≢ err e
  unfolding find
  map_at-Listed k [] e l h = absurd l
  map_at-Listed k ((j, b) ∷ m) e l h = elim (Bool-cases (text_eq j k)) [
    | inl q ↦ cc (rw q at h)
    | inr q ↦ elim l [
      | inl p ↦ absurd (ground (arith, text_eq_iff j k))
      | inr p ↦ map_at-Listed k m e p (rw q at h)
    ]
  ]

module _ {ℓ} {T V E : Type ℓ} (child : IadevsEngine T V E) where
  pub keys-deliver :
      (t : Interval T) (y : V) (z : Translation V) (dest : Text) (engines : List (Text × E))
      {next : List (Text × E)}
      → deliver child t y z dest engines ≡ ok next
      → keys next ≡ keys engines
  unfolding deliver
  keys-deliver t y z dest engines h = on_ok (map_at dest engines) _ h λ e e₁ h₁.
      on_ok (z y) _ h₁ λ input e₂ h₂. on_ok (child.engine_x input t e) _ h₂ λ e' e₃ h₃.
        subst (λ q. keys q ≡ keys engines) (ok-injective h₃) (keys-assign dest e' engines e₁)

  pub keys-advance_all :
      (limit : Interval T) (engines : List (Text × E))
      → keys (advance_all child limit engines) ≡ keys engines
  unfolding advance_all
  keys-advance_all limit [] = refl
  keys-advance_all limit ((name, e) ∷ engines) =
      ap (λ ks. name ∷ ks) (keys-advance_all limit engines)

module _ {ℓ} {T V C E : Type ℓ} (child : IadevsEngine T V E) (model : CoupledModel T V C) where
  pub keys-deliver_all :
      (t : Interval T) (y : V) (src : Text) (dests : List Text) (engines : List (Text × E))
      {next : List (Text × E)}
      → deliver_all child model t y src dests engines ≡ ok next
      → keys next ≡ keys engines
  unfolding deliver_all
  keys-deliver_all t y src [] engines h = ap keys (sym (ok-injective h))
  keys-deliver_all t y src (dest ∷ dests) engines h =
      on_ok (translation model src dest) _ h λ z e₁ h₁.
        on_ok (deliver child t y z dest engines) _ h₁ λ engines' e₂ h₂.
          keys-deliver_all t y src dests engines' h₂ ∙ keys-deliver child t y z dest engines e₂

  pub keys-receive :
      (x : V) (t : Interval T) (dest : Text) (sources : List Text) (engines : List (Text × E))
      {next : List (Text × E)}
      → receive child model x t dest sources engines ≡ ok next
      → keys next ≡ keys engines
  unfolding receive
  keys-receive x t dest sources engines h = chosen _ h
    where
      chosen :
          (b : Bool) {next : List (Text × E)}
          → (if b
              then (translation model self dest >>= λ z. deliver child t x z dest engines)
              else ok engines)
            ≡ ok next
          → keys next ≡ keys engines
      chosen false h = ap keys (sym (ok-injective h))
      chosen true h =
          on_ok (translation model self dest) _ h
            λ z e₁ h₁. keys-deliver child t x z dest engines h₁

  pub keys-receive_all :
      (x : V) (t : Interval T) (entries : List (Text × List Text)) (engines : List (Text × E))
      {next : List (Text × E)}
      → receive_all child model x t entries engines ≡ ok next
      → keys next ≡ keys engines
  unfolding receive_all
  keys-receive_all x t [] engines h = ap keys (sym (ok-injective h))
  keys-receive_all x t ((dest, sources) ∷ entries) engines h =
      on_ok (receive child model x t dest sources engines) _ h λ engines' e₁ h₁.
        keys-receive_all x t entries engines' h₁ ∙ keys-receive x t dest sources engines e₁

module _ {ℓ} {T V C E : Type ℓ} ⦃s : Scalar T⦄ (child : IadevsEngine T V E) where
  keys-pass_on :
      (name : Text) (t : Interval T) (c : Coordinator T V C E) (out : Option Text × Option V)
      {next : Coordinator T V C E} {o : Outcome V}
      → pass_on child name t c out ≡ ok (next, o)
      → keys next.engines ≡ keys c.engines
  unfolding pass_on
  keys-pass_on name t c (text, none) h = ap (λ r. keys ((r.0).engines)) (sym (ok-injective h))
  keys-pass_on name t c (text, some y) h =
      on_ok (deliver_all child c.model t y name (targets name c.influenced_by) c.engines) _ h
        λ engines e h₁. on_ok (external_output child c.model name y) _ h₁ λ eoc e₁ h₂.
          ap (λ r. keys ((r.0).engines)) (sym (ok-injective h₂))
          ∙ keys-deliver_all child c.model t y name (targets name c.influenced_by) c.engines e

  keys-route :
      (name : Text) (t : Interval T) (c : Coordinator T V C E) {next : Coordinator T V C E}
      {o : Outcome V}
      → route child name t c ≡ ok (next, o)
      → keys next.engines ≡ keys c.engines
  unfolding route
  keys-route name t c h = on_ok (map_at name c.engines) _ h λ e e₁ h₁.
      on_ok (child.engine_star t e) _ h₁ λ star e₂ h₂.
        keys-pass_on name t (with_engines c (assign name star.0 c.engines)) (star.1, star.2) h₂
        ∙ keys-assign name star.0 c.engines e₁

  keys-settle :
      (c : Coordinator T V C E) (m : Result (Coordinator T V C E × Outcome V))
      {next : Coordinator T V C E} {o : Outcome V}
      → ((n : Coordinator T V C E) (q : Outcome V)
          → m ≡ ok (n, q)
          → keys n.engines ≡ keys c.engines)
      → map_ok (settle child) m ≡ ok (next, o)
      → keys next.engines ≡ keys c.engines
  unfolding settle bound_ts
  keys-settle c (ok (n, q)) same h =
      ap (λ r. keys ((r.0).engines)) (sym (ok-injective h)) ∙ same n q refl
  keys-settle c (err e) same h = cc

  keys-defer_and_route :
      (action : BranchAction T) (c : Coordinator T V C E) {next : Coordinator T V C E}
      {o : Outcome V}
      → defer_and_route child action c ≡ ok (next, o)
      → keys next.engines ≡ keys c.engines
  unfolding defer_and_route
  keys-defer_and_route action c h = on_ok (map_at action.defer_engine c.engines) _ h λ e e₁ h₁.
      let moved =
        assign action.defer_engine (child.advance_t_next_past_limit action.limit e) c.engines in
      on_ok (route child action.engine_name action.limit (with_engines c moved)) _ h₁
        λ result e₂ h₂.
          keys-settle (with_engines c moved) (ok result)
            (λ n q eq. keys-route action.engine_name action.limit (with_engines c moved) (e₂ ∙ eq))
            h₂
          ∙ keys-assign action.defer_engine (child.advance_t_next_past_limit action.limit e)
              c.engines e₁

  pub keys-execute_branch :
      (action : BranchAction T) (c next : Coordinator T V C E) (o : Outcome V)
      → execute_branch child action c ≡ ok (next, o)
      → keys next.engines ≡ keys c.engines
  unfolding execute_branch
  keys-execute_branch action c next o h = elim (Bool-cases (is_nil action.defer_engine)) [
    | inr e ↦ keys-defer_and_route action c (rw e at h)
    | inl e ↦ elim (Bool-cases (is_nil action.engine_name)) [
      | inl e₁ ↦
          keys-settle c (ok (with_engines c (advance_all child action.limit c.engines), silent))
            (λ n q eq.
              ap (λ r. keys ((r.0).engines)) (sym (ok-injective eq))
              ∙ keys-advance_all child action.limit c.engines)
            (rw (e, e₁) at h)
      | inr e₁ ↦
          keys-settle c (route child action.engine_name action.limit c)
            (λ n q eq. keys-route action.engine_name action.limit c eq) (rw (e, e₁) at h)
    ]
  ]

  pub keys-x_function :
      (x : V) (t : Interval T) (c next : Coordinator T V C E)
      → x_function child x t c ≡ ok next
      → keys next.engines ≡ keys c.engines
  unfolding x_function bound_ts
  keys-x_function x t c next h =
      on_ok (receive_all child c.model x t c.model.influencers c.engines) _ h λ engines e h₁.
        ap (λ r. keys (r.engines)) (sym (ok-injective h₁))
        ∙ keys-receive_all child c.model x t c.model.influencers c.engines e

module _ {ℓ} {A : Type ℓ} where
  pub Listed-assign :
      (k n : Text) (a : A) (m : List (Text × A))
      → Listed n (keys (assign k a m)) ↔ ((k ≡ n) ⊎ Listed n (keys m))
  unfolding assign
  Listed-assign k n a [] = (λ h. h, λ h. h)
  Listed-assign k n a ((j, b) ∷ m) = elim (Bool-cases (text_eq j k)) [
    | inl e ↦ rw e (ground (arith, text_eq_iff j k))
    | inr e ↦ rw e (ground (arith, Listed-assign k n a m))
  ]
