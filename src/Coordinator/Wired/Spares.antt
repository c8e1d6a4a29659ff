-- ===== src/Coordinator/Wired/Spares.antt =====
-- The lookups of names when a coordinator delivers inputs and outputs.
use cadmia.Prelude.{
  ◌≡◌, refl, sym, subst, inl, inr, true, not, ◌&&◌, List, [], ◌∷◌, Option, none, some, Text,
  text_eq, text_eq_iff, contains, Result, out_of_range, ◌>>=◌, All, Bool-cases, Option-cases, arith,
}
use cadmia.Prelude.Maps.{find, find_edge, keys, map_at, Listed, HasEdge, contains_iff}
use cadmia.Interval.{Interval}
use cadmia.Engine.{IadevsEngine, Translation}
use cadmia.CoupledModel.{CoupledModel, self, names, translation}
use cadmia.CoupledModel.Valid.{IsValid}
use cadmia.Coordinator.State.{targets}
use cadmia.Coordinator.Routing.{
  deliver, advance_all, deliver_all, receive, receive_all, external_output,
}
use cadmia.Coordinator.Wired.Keys.{keys-deliver, keys-receive}
use cadmia.Coordinator.Wired.Topology.{All-Listed, component_of, edge_of, HasEdge-translation}
use cadmia.Coordinator.Wired.Fine.{
  Spares, Fine, Fine-ok, Fine-bind, Fine-map, Fine-with, All-assign, map_at-Fine,
}

find_edge-All {ℓ κ} :
    {A : Type ℓ} (P : A → Type κ) (m : List ((Text × Text) × A)) (a b : Text) (z : A)
    → All (λ e. P e.1) m
    → find_edge a b m ≡ some z
    → P z
unfolding find_edge
find_edge-All P [] a b z h e = cc
find_edge-All P (((i, j), y) ∷ m) a b z (h, hs) e = elim (Bool-cases (text_eq i a && text_eq j b)) [
  | inl q ↦ let same : y ≡ z = cc (rw q at e) in subst P same h
  | inr q ↦ find_edge-All P m a b z hs (rw q at e)
]

found_in :
    (k : Text) (o : Option (List Text))
    → contains k (elim o [ none ↦ [] | some dests ↦ dests ]) ≡ true
    → (sources : List Text) × (o ≡ some sources) × (contains k sources ≡ true)
unfolding contains
found_in k none h = absurd cc
found_in k (some sources) h = (sources, refl, h)

find-targets :
    (k src : Text) (m : List (Text × List Text))
    → contains k (targets src m) ≡ true
    → (sources : List Text) × (find src m ≡ some sources) × (contains k sources ≡ true)
find-targets k src m h = found_in k (find src m) h

-- The translations throw no `std::out_of_range`.
abbrev pub Total {ℓ} : {T V C : Type ℓ} → CoupledModel T V C → Type ℓ
Total {T} {V} {C} model = All (λ e. (y : V) → Spares (e.1 y)) model.translations

abbrev pub AllGood {ℓ} : {E : Type ℓ} → (E → Type ℓ) → List (Text × E) → Type ℓ
AllGood Good = All λ e. Good e.1

module _ {ℓ} {T V E : Type ℓ} (child : IadevsEngine T V E) (Good : E → Type ℓ) where
  -- A good child throws no `std::out_of_range`, and stays good.
  pub record IsSafe : Type ℓ where
    pub star_safe : (t : Interval T) (e : E) → Good e → Fine (λ r. Good r.0) (child.engine_star t e)
    pub x_safe : (x : V) (t : Interval T) (e : E) → Good e → Fine Good (child.engine_x x t e)
    pub advance_safe :
        (limit : Interval T) (e : E) → Good e → Good (child.advance_t_next_past_limit limit e)

  pub deliver-Fine :
      (safe : IsSafe) (t : Interval T) (y : V) (z : Translation V) (dest : Text)
      (engines : List (Text × E))
      → ((v : V) → Spares (z v))
      → Listed dest (keys engines)
      → AllGood Good engines
      → Fine (AllGood Good) (deliver child t y z dest engines)
  unfolding deliver
  deliver-Fine safe t y z dest engines total l good =
      Fine-bind Good (AllGood Good) (map_at dest engines) _ (map_at-Fine Good dest engines l good)
        λ e g.
          Fine-bind (λ input. Unit {0}) (AllGood Good) (z y) _ (total y, λ v h. tt)
            λ input u.
              Fine-bind Good (AllGood Good) (child.engine_x input t e) _ (safe.x_safe input t e g)
                λ e' g'. Fine-ok (AllGood Good) _ (All-assign Good dest e' engines g' good)

  pub advance_all-AllGood :
      (safe : IsSafe) (limit : Interval T) (engines : List (Text × E))
      → AllGood Good engines
      → AllGood Good (advance_all child limit engines)
  unfolding advance_all
  advance_all-AllGood safe limit [] good = tt
  advance_all-AllGood safe limit ((name, e) ∷ engines) (g, gs) =
      (safe.advance_safe limit e g, advance_all-AllGood safe limit engines gs)

module _ {ℓ} {T V C E : Type ℓ} (child : IadevsEngine T V E) (Good : E → Type ℓ)
    (safe : IsSafe child Good) (model : CoupledModel T V C) (v : IsValid model)
    (total : Total model) where
  translated {κ} :
      {B : Type ℓ} (Q : B → Type κ) (src k : Text) (f : Translation V → Result B)
      → HasEdge src k model.translations
      → ((z : Translation V) → ((y : V) → Spares (z y)) → Fine Q (f z))
      → Fine Q (translation model src k >>= f)
  unfolding translation
  translated Q src k f edge rest = elim (Option-cases (find_edge src k model.translations)) [
    | inl q ↦ absurd (HasEdge-translation model src k out_of_range edge (rw q))
    | inr (z, q) ↦
        rw q
          (rest z (find_edge-All (λ z. (y : V) → Spares (z y)) model.translations src k z total q))
  ]

  pub deliver_all-Fine :
      (t : Interval T) (y : V) (src : Text) (dests : List Text) (engines : List (Text × E))
      → ((k : Text)
          → contains k dests ≡ true
          → Listed k (keys engines) × HasEdge src k model.translations)
      → AllGood Good engines
      → Fine (AllGood Good) (deliver_all child model t y src dests engines)
  unfolding deliver_all contains
  deliver_all-Fine t y src [] engines each good = Fine-ok (AllGood Good) engines good
  deliver_all-Fine t y src (dest ∷ dests) engines each good =
      let (there, edge) = each dest (ground (arith, text_eq_iff dest dest)) in
      translated (AllGood Good) src dest _ edge λ z spares.
        Fine-bind (λ n. AllGood Good n × (keys n ≡ keys engines)) (AllGood Good)
          (deliver child t y z dest engines) _
          (Fine-with (AllGood Good) (λ n. keys n ≡ keys engines) (deliver child t y z dest engines)
            (λ n e. keys-deliver child t y z dest engines e)
            (deliver-Fine child Good safe t y z dest engines spares there good))
          λ engines' kept.
            deliver_all-Fine t y src dests engines'
              (λ k h.
                subst (λ ks. Listed k ks × HasEdge src k model.translations) (sym kept.1)
                  (each k (ground arith)))
              kept.0

  abbrev pub Covers : List (Text × E) → Type 0
  Covers engines = (k : Text) → Listed k (keys model.components) → Listed k (keys engines)

  pub receive-Fine :
      (x : V) (t : Interval T) (dest : Text) (sources : List Text) (engines : List (Text × E))
      → Covers engines
      → Listed dest (names model)
      → All (λ src. HasEdge src dest model.translations) sources
      → AllGood Good engines
      → Fine (AllGood Good) (receive child model x t dest sources engines)
  unfolding receive
  receive-Fine x t dest sources engines covers known edges good =
      elim (Bool-cases (contains self sources && not (text_eq dest self))) [
        | inr q ↦ rw q (Fine-ok (AllGood Good) engines good)
        | inl q ↦ rw q (
            translated (AllGood Good) self dest _
              (All-Listed (λ src. HasEdge src dest model.translations) self sources edges
                ((contains_iff self sources).0 (ground arith)))
              λ z spares.
                deliver-Fine child Good safe t x z dest engines spares
                  (covers dest (component_of model v dest known (ground arith))) good)
      ]

  pub receive_all-Fine :
      (x : V) (t : Interval T) (entries : List (Text × List Text)) (engines : List (Text × E))
      → Covers engines
      → All (λ e. Listed e.0 (names model) × All (λ src. Listed src (names model)) e.1) entries
      → All (λ e. All (λ src. HasEdge src e.0 model.translations) e.1) entries
      → AllGood Good engines
      → Fine (AllGood Good) (receive_all child model x t entries engines)
  unfolding receive_all
  receive_all-Fine x t [] engines covers known edges good = Fine-ok (AllGood Good) engines good
  receive_all-Fine x t ((dest, sources) ∷ entries) engines covers (k, ks) (e, es) good =
      Fine-bind (λ n. AllGood Good n × (keys n ≡ keys engines)) (AllGood Good)
        (receive child model x t dest sources engines) _
        (Fine-with (AllGood Good) (λ n. keys n ≡ keys engines)
          (receive child model x t dest sources engines)
          (λ n eq. keys-receive child model x t dest sources engines eq)
          (receive-Fine x t dest sources engines covers k.0 e good))
        λ engines' kept.
          receive_all-Fine x t entries engines' (λ n l. subst (Listed n) (sym kept.1) (covers n l))
            ks es kept.0

  pub external_output-Fine :
      (name : Text) (y : V) → Fine (λ o. Unit {0}) (external_output child model name y)
  unfolding external_output
  external_output-Fine name y = elim (Bool-cases (contains name (targets self model.influencers))) [
    | inr c ↦ rw c (Fine-ok (λ o. Unit {0}) none tt)
    | inl c ↦
        let (sources, found, among) = find-targets name self model.influencers c in
        rw c (
          translated (λ o. Unit {0}) name self _ (edge_of model v name self sources found among)
            λ z spares.
              Fine-map (λ o. Unit {0}) (λ o. Unit {0}) some (z y) (spares y, λ o h. tt) λ o u. tt)
  ]
