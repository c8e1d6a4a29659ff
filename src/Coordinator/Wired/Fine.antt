-- ===== src/Coordinator/Wired/Fine.antt =====
-- Calls that throw no `std::out_of_range`, with what holds of the value when they return.
use cadmia.Prelude.{
  ◌≡◌, ◌≢◌, refl, subst, Bool, false, Text, Result, ok, err, out_of_range, logic_error, ◌>>=◌,
  map_ok, ok-injective, throw_if, throw_if-eq-ok, List, [], ◌∷◌, All, Bool-cases, inl, inr, text_eq,
  arith,
}
use cadmia.Prelude.Maps.{find, assign, keys, map_at, Listed}
use cadmia.Coordinator.Wired.Keys.{map_at-Listed}

-- No `std::out_of_range`.
abbrev pub Spares {ℓ} : {A : Type ℓ} → Result A → Type ℓ
Spares m = m ≢ err out_of_range

-- The call throws no `std::out_of_range`, and if it returns, `P` holds of what it returns.
abbrev pub Fine {ℓ κ} : {A : Type ℓ} → (A → Type κ) → Result A → Type (ℓ ⊔ κ)
Fine {A} P m = Spares m × ((a : A) → m ≡ ok a → P a)

pub Fine-ok {ℓ κ} : {A : Type ℓ} (P : A → Type κ) (a : A) → P a → Fine P (ok a)
Fine-ok P a p = (λ h. cc, λ b h. subst P (ok-injective h) p)

pub Fine-bind {ℓ κ ν μ} :
    {A : Type ℓ} {B : Type ν} (P : A → Type κ) (Q : B → Type μ) (m : Result A) (f : A → Result B)
    → Fine P m
    → ((a : A) → P a → Fine Q (f a))
    → Fine Q (m >>= f)
Fine-bind P Q (ok a) f p q = q a (p.1 a refl)
Fine-bind P Q (err e) f p q = (λ h. p.0 cc, λ b h. absurd cc)

pub Fine-map {ℓ κ ν μ} :
    {A : Type ℓ} {B : Type ν} (P : A → Type κ) (Q : B → Type μ) (f : A → B) (m : Result A)
    → Fine P m
    → ((a : A) → P a → Q (f a))
    → Fine Q (map_ok f m)
Fine-map P Q f (ok a) p q = Fine-ok Q (f a) (q a (p.1 a refl))
Fine-map P Q f (err e) p q = (λ h. p.0 cc, λ b h. absurd cc)

-- What holds of the value besides, by a lemma on the call.
pub Fine-with {ℓ κ ν} :
    {A : Type ℓ} (P : A → Type κ) (Q : A → Type ν) (m : Result A)
    → ((a : A) → m ≡ ok a → Q a)
    → Fine P m
    → Fine (λ a. P a × Q a) m
Fine-with P Q m q p = (p.0, λ a h. (p.1 a h, q a h))

-- A check whose exception is another one.
pub Fine-throw_if : (b : Bool) (text : Text) → Fine (λ u. b ≡ false) (throw_if b (logic_error text))
Fine-throw_if b text = (λ h. absurd (ground arith), λ u h. throw_if-eq-ok _ _ h)

module _ {ℓ κ} {A : Type ℓ} (P : A → Type κ) where
  -- What holds of each value of a map holds of the one that is found, and still of each after a good one
  -- is written.
  pub All-assign :
      (k : Text) (a : A) (m : List (Text × A))
      → P a
      → All (λ e. P e.1) m
      → All (λ e. P e.1) (assign k a m)
  unfolding assign
  All-assign k a [] p ps = (p, tt)
  All-assign k a ((j, b) ∷ m) p (q, qs) = elim (Bool-cases (text_eq j k)) [
    | inl e ↦ rw e (p, qs)
    | inr e ↦ rw e (q, All-assign k a m p qs)
  ]

  map_at-All :
      (k : Text) (m : List (Text × A)) (a : A) → All (λ e. P e.1) m → map_at k m ≡ ok a → P a
  unfolding find
  map_at-All k [] a ps h = cc
  map_at-All k ((j, b) ∷ m) a (p, ps) h = elim (Bool-cases (text_eq j k)) [
    | inl e ↦ subst P (ok-injective (rw e at h)) p
    | inr e ↦ map_at-All k m a ps (rw e at h)
  ]

  pub map_at-Fine :
      (k : Text) (m : List (Text × A))
      → Listed k (keys m)
      → All (λ e. P e.1) m
      → Fine P (map_at k m)
  map_at-Fine k m l ps = (map_at-Listed k m out_of_range l, λ a h. map_at-All k m a ps h)
