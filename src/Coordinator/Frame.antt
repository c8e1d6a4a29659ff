-- ===== src/Coordinator/Frame.antt =====
-- What a branch and an input leave alone.
use cadmia.Prelude.{
  ◌≡◌, refl, sym, ap, ◌∙◌, inl, inr, false, not, ◌&&◌, List, [], ◌∷◌, Option, none, some, Text,
  text_eq, contains, is_nil, Result, ok, err, map_ok, on_ok, ok-injective, Bool-cases, All, arith,
}
use cadmia.Prelude.Maps.{find, assign, find-assign, map_at}
use cadmia.Scalar.{Scalar}
use cadmia.Interval.{Interval}
use cadmia.Engine.{IadevsEngine, Translation}
use cadmia.CoupledModel.{CoupledModel, self, translation}
use cadmia.Coordinator.State.{Coordinator, targets, with_engines, bound_ts}
use cadmia.Coordinator.Branching.{BranchAction}
use cadmia.Coordinator.Routing.{
  Outcome, deliver, deliver_all, receive, receive_all, external_output, pass_on, route, settle,
  defer_and_route, execute_branch, x_function,
}

module _ {ℓ} {T V E : Type ℓ} (child : IadevsEngine T V E) (k : Text) where
  assign_elsewhere :
      (j : Text) (e : E) (engines : List (Text × E))
      → text_eq j k ≡ false
      → find k (assign j e engines) ≡ find k engines
  assign_elsewhere j e engines h = find-assign j k e engines ∙ rw h refl

  deliver_elsewhere :
      (t : Interval T) (y : V) (z : Translation V) (dest : Text) (engines next : List (Text × E))
      → text_eq dest k ≡ false
      → deliver child t y z dest engines ≡ ok next
      → find k next ≡ find k engines
  unfolding deliver
  deliver_elsewhere t y z dest engines next other h = on_ok (map_at dest engines) _ h λ e e₁ h₁.
      on_ok (z y) _ h₁ λ input e₂ h₂.
        on_ok (child.engine_x input t e) _ h₂
          λ e' e₃ h₃. ap (find k) (sym (ok-injective h₃)) ∙ assign_elsewhere dest e' engines other

module _ {ℓ} {T V C E : Type ℓ} (child : IadevsEngine T V E) (model : CoupledModel T V C)
    (k : Text) where
  deliver_all_elsewhere :
      (t : Interval T) (y : V) (src : Text) (dests : List Text) (engines next : List (Text × E))
      → contains k dests ≡ false
      → deliver_all child model t y src dests engines ≡ ok next
      → find k next ≡ find k engines
  unfolding deliver_all contains
  deliver_all_elsewhere t y src [] engines next other h = ap (find k) (sym (ok-injective h))
  deliver_all_elsewhere t y src (dest ∷ dests) engines next other h =
      on_ok (translation model src dest) _ h λ z e₁ h₁.
        on_ok (deliver child t y z dest engines) _ h₁ λ engines' e₂ h₂.
          deliver_all_elsewhere t y src dests engines' next (ground arith) h₂
          ∙ deliver_elsewhere child k t y z dest engines engines' (ground arith) e₂

  receive_elsewhere :
      (x : V) (t : Interval T) (dest : Text) (sources : List Text) (engines next : List (Text × E))
      → (text_eq dest k && contains self sources) ≡ false
      → receive child model x t dest sources engines ≡ ok next
      → find k next ≡ find k engines
  unfolding receive
  receive_elsewhere x t dest sources engines next other h =
      elim (Bool-cases (contains self sources && not (text_eq dest self))) [
        | inr q ↦ ap (find k) (sym (ok-injective (rw q at h)))
        | inl q ↦
            on_ok (translation model self dest) _ (rw q at h)
              λ z e₁ h₁. deliver_elsewhere child k t x z dest engines next (ground arith) h₁
      ]

  receive_all_elsewhere :
      (x : V) (t : Interval T) (entries : List (Text × List Text)) (engines next : List (Text × E))
      → All (λ e. (text_eq e.0 k && contains self e.1) ≡ false) entries
      → receive_all child model x t entries engines ≡ ok next
      → find k next ≡ find k engines
  unfolding receive_all
  receive_all_elsewhere x t [] engines next other h = ap (find k) (sym (ok-injective h))
  receive_all_elsewhere x t ((dest, sources) ∷ entries) engines next (other, others) h =
      on_ok (receive child model x t dest sources engines) _ h λ engines' e h₁.
        receive_all_elsewhere x t entries engines' next others h₁
        ∙ receive_elsewhere x t dest sources engines engines' other e

module _ {ℓ} {T V C E : Type ℓ} ⦃s : Scalar T⦄ (child : IadevsEngine T V E) (k : Text) where
  pass_on_elsewhere :
      (name : Text) (t : Interval T) (c : Coordinator T V C E) (out : Option Text × Option V)
      {next : Coordinator T V C E} {o : Outcome V}
      → contains k (targets name c.influenced_by) ≡ false
      → pass_on child name t c out ≡ ok (next, o)
      → find k next.engines ≡ find k c.engines
  unfolding pass_on
  pass_on_elsewhere name t c (text, none) other h =
      ap (λ r. find k ((r.0).engines)) (sym (ok-injective h))
  pass_on_elsewhere name t c (text, some y) other h =
      on_ok (deliver_all child c.model t y name (targets name c.influenced_by) c.engines) _ h
        λ engines e h₁. on_ok (external_output child c.model name y) _ h₁ λ eoc e₁ h₂.
          ap (λ r. find k ((r.0).engines)) (sym (ok-injective h₂))
          ∙ deliver_all_elsewhere child c.model k t y name (targets name c.influenced_by) c.engines
              engines other e

  route_elsewhere :
      (name : Text) (t : Interval T) (c : Coordinator T V C E) {next : Coordinator T V C E}
      {o : Outcome V}
      → text_eq name k ≡ false
      → contains k (targets name c.influenced_by) ≡ false
      → route child name t c ≡ ok (next, o)
      → find k next.engines ≡ find k c.engines
  unfolding route
  route_elsewhere name t c other apart h = on_ok (map_at name c.engines) _ h λ e e₁ h₁.
      on_ok (child.engine_star t e) _ h₁ λ star e₂ h₂.
        pass_on_elsewhere name t (with_engines c (assign name star.0 c.engines)) (star.1, star.2)
          apart h₂
        ∙ assign_elsewhere child k name star.0 c.engines other

  settle_elsewhere :
      (c : Coordinator T V C E) (m : Result (Coordinator T V C E × Outcome V))
      {next : Coordinator T V C E} {o : Outcome V}
      → ((n : Coordinator T V C E) (q : Outcome V)
          → m ≡ ok (n, q)
          → find k n.engines ≡ find k c.engines)
      → map_ok (settle child) m ≡ ok (next, o)
      → find k next.engines ≡ find k c.engines
  unfolding settle bound_ts
  settle_elsewhere c (ok (n, q)) same h =
      ap (λ r. find k ((r.0).engines)) (sym (ok-injective h)) ∙ same n q refl
  settle_elsewhere c (err e) same h = cc

  defer_elsewhere :
      (action : BranchAction T) (c : Coordinator T V C E) {next : Coordinator T V C E}
      {o : Outcome V}
      → text_eq action.engine_name k ≡ false
      → text_eq action.defer_engine k ≡ false
      → contains k (targets action.engine_name c.influenced_by) ≡ false
      → defer_and_route child action c ≡ ok (next, o)
      → find k next.engines ≡ find k c.engines
  unfolding defer_and_route
  defer_elsewhere action c fired deferred apart h =
      on_ok (map_at action.defer_engine c.engines) _ h λ e e₁ h₁.
        let moved = child.advance_t_next_past_limit action.limit e in
        let c' = with_engines c (assign action.defer_engine moved c.engines) in
        on_ok (route child action.engine_name action.limit c') _ h₁ λ result e₂ h₂.
          settle_elsewhere c' (ok result)
            (λ n q eq. route_elsewhere action.engine_name action.limit c' fired apart (e₂ ∙ eq)) h₂
          ∙ assign_elsewhere child k action.defer_engine moved c.engines deferred

  -- A branch that fires an engine, when it returns, leaves alone every engine that it neither fires nor
  -- defers, and that the one fired does not influence.
  pub execute_branch_frame :
      (action : BranchAction T) (c next : Coordinator T V C E) (o : Outcome V)
      → is_nil action.engine_name ≡ false
      → text_eq action.engine_name k ≡ false
      → text_eq action.defer_engine k ≡ false
      → contains k (targets action.engine_name c.influenced_by) ≡ false
      → execute_branch child action c ≡ ok (next, o)
      → find k next.engines ≡ find k c.engines
  unfolding execute_branch
  execute_branch_frame action c next o fires fired deferred apart h =
      elim (Bool-cases (is_nil action.defer_engine)) [
        | inr e ↦ defer_elsewhere action c fired deferred apart (rw e at h)
        | inl e ↦
            settle_elsewhere c (route child action.engine_name action.limit c)
              (λ n q eq. route_elsewhere action.engine_name action.limit c fired apart eq)
              (rw (e, fires) at h)
      ]

  -- An external input, when the x-function returns, leaves alone every engine that "self" does not
  -- influence.
  pub x_function_frame :
      (x : V) (t : Interval T) (c next : Coordinator T V C E)
      → All (λ e. (text_eq e.0 k && contains self e.1) ≡ false) c.model.influencers
      → x_function child x t c ≡ ok next
      → find k next.engines ≡ find k c.engines
  unfolding x_function bound_ts
  x_function_frame x t c next other h =
      on_ok (receive_all child c.model x t c.model.influencers c.engines) _ h λ engines e h₁.
        ap (λ n. find k n.engines) (sym (ok-injective h₁))
        ∙ receive_all_elsewhere child c.model k x t c.model.influencers c.engines engines other e
