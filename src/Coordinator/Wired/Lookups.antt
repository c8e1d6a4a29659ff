-- ===== src/Coordinator/Wired/Lookups.antt =====
-- The lookups of names in `route`, `execute_branch` and `x_function`.
use cadmia.Prelude.{
  ◌≡◌, ◌∙◌, sym, subst, ap, ◌⊎◌, inl, inr, ◌↔◌, true, Option, none, some, Text, contains, ok,
  is_nil, Result, map_ok, Bool-cases, arith,
}
use cadmia.Prelude.Maps.{assign, keys, map_at, Listed}
use cadmia.Prelude.Distinct.{IsDistinct}
use cadmia.Scalar.{Scalar}
use cadmia.Interval.{Interval}
use cadmia.Engine.{IadevsEngine}
use cadmia.CoupledModel.Valid.{IsValid}
use cadmia.Coordinator.State.{Coordinator, targets, invert, with_engines, bound_ts}
use cadmia.Coordinator.Branching.{BranchAction}
use cadmia.Coordinator.Bounded.{Follows, execute_branch-IsBounded, x_function-IsBounded}
use cadmia.Coordinator.Routing.{
  Outcome, deliver_all, receive_all, external_output, pass_on, route, defer_and_route,
  execute_branch, x_function, settle,
}
use cadmia.Coordinator.Wired.Keys.{keys-assign, keys-execute_branch, keys-x_function}
use cadmia.Coordinator.Wired.Topology.{targets_of}
use cadmia.Coordinator.Wired.Spares.{
  IsSafe, Total, AllGood, deliver_all-Fine, receive_all-Fine, external_output-Fine,
  advance_all-AllGood,
}
use cadmia.Coordinator.Wired.Fine.{
  Fine, Fine-ok, Fine-bind, Fine-map, Fine-with, All-assign, map_at-Fine,
}

module _ {ℓ} {T V C E : Type ℓ} ⦃s : Scalar T⦄ (child : IadevsEngine T V E) where
  -- The engines are those of the components of a validated model, each name once, and `influenced_by` its
  -- influencers inverted.
  pub record IsWired (c : Coordinator T V C E) : Type ℓ where
    pub valid : IsValid c.model
    pub distinct : IsDistinct (keys c.engines)
    pub covers : (k : Text) → Listed k (keys c.model.components) ↔ Listed k (keys c.engines)
    pub influence_eq : c.influenced_by ≡ invert c.model.influencers

  -- The names of an action: an engine of the coordinator, or none; and one to defer, or none.
  pub record IsKnown (c : Coordinator T V C E) (action : BranchAction T) : Type 0 where
    pub engine_known :
        (is_nil action.engine_name ≡ true) ⊎ Listed action.engine_name (keys c.engines)
    pub defer_known :
        (is_nil action.defer_engine ≡ true)
        ⊎ (Listed action.defer_engine (keys c.engines) × Listed action.engine_name (keys c.engines))

  rewired :
      (c next : Coordinator T V C E)
      → IsWired c
      → Follows child c next
      → keys next.engines ≡ keys c.engines
      → IsWired next
  rewired c next w f same = record {
    valid = subst IsValid (sym f.model_eq) w.valid;
    distinct = subst IsDistinct (sym same) w.distinct;
    covers = λ k.
        subst (λ m. Listed k (keys m.components) ↔ Listed k (keys next.engines)) (sym f.model_eq)
          (subst (λ ks. Listed k (keys c.model.components) ↔ Listed k ks) (sym same) (w.covers k));
    influence_eq =
        f.influenced_by_eq ∙ w.influence_eq ∙ ap (λ m. invert m.influencers) (sym f.model_eq);
  }

module _ {ℓ} {T V C E : Type ℓ} ⦃s : Scalar T⦄ (child : IadevsEngine T V E) (Good : E → Type ℓ)
    (safe : IsSafe child Good) where
  abbrev GoodAfter : Coordinator T V C E × Outcome V → Type ℓ
  GoodAfter r = AllGood Good ((r.0).engines)

  pass_on-Fine :
      (c : Coordinator T V C E) (name : Text) (t : Interval T) (text : Option Text) (y : Option V)
      → c.influenced_by ≡ invert c.model.influencers
      → ((k : Text) → Listed k (keys c.model.components) → Listed k (keys c.engines))
      → IsValid c.model
      → Total c.model
      → Listed name (keys c.model.components)
      → AllGood Good c.engines
      → Fine GoodAfter (pass_on child name t c (text, y))
  unfolding pass_on
  pass_on-Fine c name t text none i covers v total l good = Fine-ok GoodAfter _ good
  pass_on-Fine c name t text (some y) i covers v total l good =
      Fine-bind (AllGood Good) GoodAfter
        (deliver_all child c.model t y name (targets name c.influenced_by) c.engines) _
        (deliver_all-Fine child Good safe c.model v total t y name (targets name c.influenced_by)
          c.engines
          (λ k h.
            let (there, edge) =
              targets_of c.model v name k l (subst (λ m. contains k (targets name m) ≡ true) i h) in
            (covers k there, edge))
          good)
        λ engines good'.
          Fine-bind (λ o. Unit {0}) GoodAfter (external_output child c.model name y) _
            (external_output-Fine child Good safe c.model v total name y)
            λ eoc u. Fine-ok GoodAfter _ good'

  route-Fine :
      (c : Coordinator T V C E) (name : Text) (t : Interval T)
      → IsWired child c
      → Total c.model
      → Listed name (keys c.engines)
      → AllGood Good c.engines
      → Fine GoodAfter (route child name t c)
  unfolding route
  route-Fine c name t w total l good =
      Fine-bind (λ e. Good e × (map_at name c.engines ≡ ok e)) GoodAfter (map_at name c.engines) _
        (Fine-with Good (λ e. map_at name c.engines ≡ ok e) (map_at name c.engines) (λ e h. h)
          (map_at-Fine Good name c.engines l good))
        λ e found.
          Fine-bind (λ r. Good r.0) GoodAfter (child.engine_star t e) _ (safe.star_safe t e found.0)
            λ star g.
              pass_on-Fine (with_engines c (assign name star.0 c.engines)) name t star.1 star.2
                w.influence_eq
                (λ k m.
                  subst (Listed k) (sym (keys-assign name star.0 c.engines found.1))
                    ((w.covers k).0 m))
                w.valid total ((w.covers name).1 l) (All-assign Good name star.0 c.engines g good)

  settle-Fine :
      (m : Result (Coordinator T V C E × Outcome V))
      → Fine GoodAfter m
      → Fine GoodAfter (map_ok (settle child) m)
  unfolding settle bound_ts
  settle-Fine m p = Fine-map GoodAfter GoodAfter (settle child) m p λ r g. g

  defer-Fine :
      (c : Coordinator T V C E) (action : BranchAction T)
      → IsWired child c
      → Total c.model
      → Listed action.defer_engine (keys c.engines)
      → Listed action.engine_name (keys c.engines)
      → AllGood Good c.engines
      → Fine GoodAfter (defer_and_route child action c)
  unfolding defer_and_route settle bound_ts
  defer-Fine c action w total d l good =
      Fine-bind (λ e. Good e × (map_at action.defer_engine c.engines ≡ ok e)) GoodAfter
        (map_at action.defer_engine c.engines) _
        (Fine-with Good (λ e. map_at action.defer_engine c.engines ≡ ok e)
          (map_at action.defer_engine c.engines) (λ e h. h)
          (map_at-Fine Good action.defer_engine c.engines d good))
        λ e found.
          let moved = child.advance_t_next_past_limit action.limit e in
          let same = keys-assign action.defer_engine moved c.engines found.1 in
          let c' = with_engines c (assign action.defer_engine moved c.engines) in
          Fine-bind GoodAfter GoodAfter (route child action.engine_name action.limit c') _
            (route-Fine c' action.engine_name action.limit
              (record {
                valid = w.valid;
                distinct = subst IsDistinct (sym same) w.distinct;
                covers = λ k.
                    subst (λ ks. Listed k (keys c.model.components) ↔ Listed k ks) (sym same)
                      (w.covers k);
                influence_eq = w.influence_eq;
              })
              total (subst (Listed action.engine_name) (sym same) l)
              (All-assign Good action.defer_engine moved c.engines
                (safe.advance_safe action.limit e found.0) good))
            λ result g. Fine-ok GoodAfter _ g

  execute-Fine :
      (c : Coordinator T V C E) (action : BranchAction T)
      → IsWired child c
      → Total c.model
      → IsKnown child c action
      → AllGood Good c.engines
      → Fine GoodAfter (execute_branch child action c)
  unfolding execute_branch settle bound_ts
  execute-Fine c action w total known good = elim (Bool-cases (is_nil action.defer_engine)) [
    | inr q ↦ elim known.defer_known [
      | inl p ↦ absurd (ground arith)
      | inr (d, l) ↦ rw q (defer-Fine c action w total d l good)
    ]
    | inl q ↦ elim (Bool-cases (is_nil action.engine_name)) [
      | inl q₁ ↦
          rw (q, q₁)
            (Fine-ok GoodAfter _ (advance_all-AllGood child Good safe action.limit c.engines good))
      | inr q₁ ↦ elim known.engine_known [
        | inl p ↦ absurd (ground arith)
        | inr l ↦
            rw (q, q₁)
              (settle-Fine (route child action.engine_name action.limit c)
                (route-Fine c action.engine_name action.limit w total l good))
      ]
    ]
  ]

  x_function-AllGood :
      (x : V) (t : Interval T) (c : Coordinator T V C E)
      → IsWired child c
      → Total c.model
      → AllGood Good c.engines
      → Fine (λ n. AllGood Good n.engines) (x_function child x t c)
  unfolding x_function bound_ts
  x_function-AllGood x t c w total good =
      Fine-bind (AllGood Good) (λ n. AllGood Good n.engines)
        (receive_all child c.model x t c.model.influencers c.engines) _
        (receive_all-Fine child Good safe c.model w.valid total x t c.model.influencers c.engines
          (λ k. (w.covers k).0) w.valid.influencers_known w.valid.translated good)
        λ engines g. Fine-ok (λ n. AllGood Good n.engines) _ g

  -- Over a validated model, with good children, which throw no `std::out_of_range` and stay good, and with
  -- translations that throw none, executing a branch whose names are those of engines throws none; and
  -- when it returns, its engines are those of the model again, and good.
  pub execute_branch-IsWired :
      (c : Coordinator T V C E) (action : BranchAction T)
      → IsWired child c
      → Total c.model
      → IsKnown child c action
      → AllGood Good c.engines
      → Fine (λ r. AllGood Good ((r.0).engines) × IsWired child r.0) (execute_branch child action c)
  execute_branch-IsWired c action w total known good =
      Fine-with GoodAfter (λ r. IsWired child r.0) (execute_branch child action c)
        (λ r h.
          rewired child c r.0 w (execute_branch-IsBounded child action c r.0 r.1 h)
            (keys-execute_branch child action c r.0 r.1 h))
        (execute-Fine c action w total known good)

  -- The same of an external input.
  pub x_function-IsWired :
      (x : V) (t : Interval T) (c : Coordinator T V C E)
      → IsWired child c
      → Total c.model
      → AllGood Good c.engines
      → Fine (λ n. AllGood Good n.engines × IsWired child n) (x_function child x t c)
  x_function-IsWired x t c w total good =
      Fine-with (λ n. AllGood Good n.engines) (IsWired child) (x_function child x t c)
        (λ n h.
          rewired child c n w (x_function-IsBounded child x t c n h)
            (keys-x_function child x t c n h))
        (x_function-AllGood x t c w total good)
