-- ===== src/Coordinator/Equality.antt =====
-- `engine_equals` of coordinators as a relation of maps.
use cadmia.Prelude.{
  ◌≡◌, refl, sym, subst, ◌↔◌, inl, inr, true, List, [], ◌∷◌, Option, none, some, Option-cases, Text,
  text_eq, text_eq_iff, text_eq_refl, length, Bool-cases, arith,
}
use cadmia.Prelude.Maps.{find, keys, is_some, Listed}
use cadmia.Prelude.Distinct.{IsDistinct, distinct-length, distinct-onto}
use cadmia.Scalar.{Scalar}
use cadmia.Interval.{equals}
use cadmia.Engine.{IadevsEngine}
use cadmia.Coordinator.State.{Coordinator}
use cadmia.Coordinator.Routing.{all_equal, equals_found}
use cadmia.Coordinator.Interface.{engine_equals}

module _ {ℓ} {A : Type ℓ} where
  find-Listed : (k : Text) (m : List (Text × A)) → (is_some (find k m) ≡ true) ↔ Listed k (keys m)
  unfolding find
  find-Listed k [] = (λ h. absurd cc, λ h. absurd h)
  find-Listed k ((j, a) ∷ m) = ground (arith, text_eq_iff j k, find-Listed k m)

  length-keys : (m : List (Text × A)) → length (keys m) ≡ length m
  length-keys [] = refl
  length-keys ((j, a) ∷ m) = omega (arith, length-keys m)

module _ {ℓ} {T V E : Type ℓ} (child : IadevsEngine T V E) where
  -- The two engines of a name: both missing, or equal.
  abbrev pub Agree : Option E → Option E → Type 0
  Agree none none = Unit
  Agree none (some e) = ⊥
  Agree (some e) none = ⊥
  Agree (some e) (some e') = child.engine_equals e e' ≡ true

  matched : (e : E) (o : Option E) → equals_found child e o ≡ true → Agree (some e) o
  matched e none h = absurd cc
  matched e (some e') h = h

  all_equal-at :
      (k : Text) (e : E) (xs ys : List (Text × E))
      → all_equal child xs ys ≡ true
      → find k xs ≡ some e
      → equals_found child e (find k ys) ≡ true
  unfolding all_equal find
  all_equal-at k e [] ys h q = absurd cc
  all_equal-at k e ((j, a) ∷ xs) ys h q = elim (Bool-cases (text_eq j k)) [
    | inl p ↦
        let same : a ≡ e = cc (rw p at q) in
        let first : equals_found child a (find j ys) ≡ true = ground arith in
        subst (λ z. equals_found child z (find k ys) ≡ true) same
          (subst (λ z. equals_found child a (find z ys) ≡ true) ((text_eq_iff j k).0 p) first)
    | inr p ↦ all_equal-at k e xs ys (ground arith) (rw p at q)
  ]

  all_equal-of :
      (xs ys : List (Text × E))
      → IsDistinct (keys xs)
      → ((k : Text) (e : E) → find k xs ≡ some e → equals_found child e (find k ys) ≡ true)
      → all_equal child xs ys ≡ true
  unfolding all_equal find
  all_equal-of [] ys d each = refl
  all_equal-of ((j, a) ∷ xs) ys (fresh, d) each =
      let first : equals_found child a (find j ys) ≡ true = each j a (rw (text_eq_refl j) refl) in
      let rest = all_equal-of xs ys d (λ k e q. each k e (elim (Bool-cases (text_eq j k)) [
        | inl p ↦ absurd (
            fresh (
              subst (λ z. Listed z (keys xs)) (sym ((text_eq_iff j k).0 p))
                ((find-Listed k xs).0 (rw q refl))))
        | inr p ↦ rw p q
      ])) in
      rw (first, rest) refl

  abbrev pub AllAgree : List (Text × E) → List (Text × E) → Type 0
  AllAgree xs ys = (k : Text) → Agree (find k xs) (find k ys)

  Agree-Listed :
      (k : Text) (xs ys : List (Text × E))
      → Agree (find k xs) (find k ys)
      → Listed k (keys xs) ↔ Listed k (keys ys)
  Agree-Listed k xs ys h =
      let (to_x, from_x) = find-Listed k xs in
      let (to_y, from_y) = find-Listed k ys in
      let (there, back) = both (find k xs) (find k ys) h in
      (λ l. to_y (there (from_x l)), λ l. to_x (back (from_y l)))
    where
      both : (o p : Option E) → Agree o p → (is_some o ≡ true) ↔ (is_some p ≡ true)
      both none none h = (λ q. q, λ q. q)
      both none (some e) h = absurd h
      both (some e) none h = absurd h
      both (some e) (some e') h = (λ q. refl, λ q. refl)

  all_equal-Listed :
      (xs ys : List (Text × E)) (k : Text)
      → all_equal child xs ys ≡ true
      → Listed k (keys xs)
      → Listed k (keys ys)
  all_equal-Listed xs ys k h l = elim (Option-cases (find k xs)) [
    | inl p ↦ absurd (missing p ((find-Listed k xs).1 l))
    | inr (a, p) ↦ (find-Listed k ys).0 (present a (find k ys) (all_equal-at k a xs ys h p))
  ]
    where
      missing : find k xs ≡ none → is_some (find k xs) ≡ true → ⊥
      missing p q = cc

      present : (a : E) (o : Option E) → equals_found child a o ≡ true → is_some o ≡ true
      present a none q = absurd cc
      present a (some e) q = refl

  AllAgree-of :
      (xs ys : List (Text × E))
      → IsDistinct (keys xs)
      → length xs ≡ length ys
      → all_equal child xs ys ≡ true
      → AllAgree xs ys
  AllAgree-of xs ys d same h k = elim (Option-cases (find k xs)) [
    | inr (e, q) ↦
        subst (λ o. Agree o (find k ys)) (sym q)
          (matched e (find k ys) (all_equal-at k e xs ys h q))
    | inl q ↦ elim (Option-cases (find k ys)) [
      | inl q' ↦ subst (λ o. Agree o (find k ys)) (sym q) (subst (Agree none) (sym q') tt)
      | inr (e, q') ↦ absurd (
          missing q (
            (find-Listed k xs).1 (
              distinct-onto (keys xs) (keys ys) d (λ j l. all_equal-Listed xs ys j h l)
                (omega (arith, length-keys xs, length-keys ys, same)) k
                ((find-Listed k ys).0 (rw q' refl)))))
    ]
  ]
    where
      missing : find k xs ≡ none → is_some (find k xs) ≡ true → ⊥
      missing p q = cc

  -- For maps with no repeated key: the same size and every entry of the one matched in the other, or, the
  -- same keys with equal values.
  all_equal_iff :
      (xs ys : List (Text × E))
      → IsDistinct (keys xs)
      → IsDistinct (keys ys)
      → ((length xs ≡ length ys) × (all_equal child xs ys ≡ true)) ↔ AllAgree xs ys
  all_equal_iff xs ys d d' = (
    λ h. AllAgree-of xs ys d h.0 h.1,
    λ agree.
        let most =
          distinct-length (keys xs) (keys ys) d (λ k l. (Agree-Listed k xs ys (agree k)).0 l) in
        let least =
          distinct-length (keys ys) (keys xs) d' (λ k l. (Agree-Listed k xs ys (agree k)).1 l) in
        (
          omega (arith, length-keys xs, length-keys ys, most, least),
          all_equal-of xs ys d
              (λ k e q. found e (find k ys) (subst (λ o. Agree o (find k ys)) q (agree k))),
        ),
  )
    where
      found : (e : E) (o : Option E) → Agree (some e) o → equals_found child e o ≡ true
      found e none h = absurd h
      found e (some e') h = h

module _ {ℓ} {T V C E : Type ℓ} ⦃s : Scalar T⦄ (child : IadevsEngine T V E) where
  -- Two coordinators, each with no engine name twice, are equal for `engine_equals` just when their next
  -- times are equal, and their last times, and under every name both have an engine, and the two are equal,
  -- or neither has one.
  pub engine_equals_iff :
      (a b : Coordinator T V C E)
      → IsDistinct (keys a.engines)
      → IsDistinct (keys b.engines)
      → (engine_equals child a b ≡ true) ↔ (
          (equals a.t_next b.t_next ≡ true)
          × (equals a.t_last b.t_last ≡ true)
          × AllAgree child a.engines b.engines)
  unfolding engine_equals
  engine_equals_iff a b d d' =
      let (to, from) = all_equal_iff child a.engines b.engines d d' in
      (
        λ h. (ground arith, ground arith, to (ground arith, ground arith)),
        λ h.
            let (same, all) = from h.2 in
            let n : equals a.t_next b.t_next ≡ true = h.0 in
            let l : equals a.t_last b.t_last ≡ true = h.1 in ground arith,
      )
