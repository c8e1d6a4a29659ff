-- ===== src/Prelude/Maps.antt =====
-- `std::unordered_map` and `std::unordered_set`: entries in the order in which the container is walked,
-- which the standard leaves open. A key stands in a map once.
use cadmia.Prelude.{
  ◌≡◌, refl, ◌&&◌, ◌↔◌, contains, Any, true, false, Bool, if◌then◌else◌, List, [], ◌∷◌, Option,
  none, some, Result, ok, err, out_of_range, arith, Text, text_eq, text_eq_iff,
}

module _ {ℓ} {A : Type ℓ} where
  -- `find`, with `end()` as `none`.
  unfoldable pub find : Text → List (Text × A) → Option A
  find k [] = none
  find k ((j, a) ∷ m) = if text_eq j k then some a else find k m

  -- `operator[]=`: a new key is inserted.
  unfoldable pub assign : Text → A → List (Text × A) → List (Text × A)
  assign k a [] = (k, a) ∷ []
  assign k a ((j, b) ∷ m) = if text_eq j k then (k, a) ∷ m else (j, b) ∷ assign k a m

  abbrev pub keys : List (Text × A) → List Text
  keys [] = []
  keys ((k, a) ∷ m) = k ∷ keys m

  pub find-assign :
      (k j : Text) (a : A) (m : List (Text × A))
      → find j (assign k a m) ≡ (if text_eq k j then some a else find j m)
  unfolding find assign
  find-assign k j a [] = refl
  find-assign k j a ((i, b) ∷ m) =
      ground (arith, text_eq_iff k j, text_eq_iff i k, text_eq_iff i j, find-assign k j a m)

-- `at`, which throws on a missing key.
abbrev pub or_throw {ℓ} : {A : Type ℓ} → Option A → Result A
or_throw none = err out_of_range
or_throw (some a) = ok a

abbrev pub map_at {ℓ} : {A : Type ℓ} → Text → List (Text × A) → Result A
map_at k m = or_throw (find k m)

-- `contains` on a map.
abbrev pub is_some {ℓ} : {A : Type ℓ} → Option A → Bool
is_some none = false
is_some (some a) = true

-- A map keyed by pairs of names.
module _ {ℓ} {A : Type ℓ} where
  unfoldable pub find_edge : Text → Text → List ((Text × Text) × A) → Option A
  find_edge a b [] = none
  find_edge a b (((i, j), z) ∷ m) = if text_eq i a && text_eq j b then some z else find_edge a b m

  abbrev pub HasEdge : Text → Text → List ((Text × Text) × A) → Type 0
  HasEdge a b = Any λ entry. (entry.0.0 ≡ a) × (entry.0.1 ≡ b)

  pub find_edge_iff :
      (a b : Text) (m : List ((Text × Text) × A))
      → (is_some (find_edge a b m) ≡ true) ↔ HasEdge a b m
  unfolding find_edge
  find_edge_iff a b [] = (λ h. absurd cc, λ h. absurd h)
  find_edge_iff a b (((i, j), z) ∷ m) =
      ground (arith, text_eq_iff i a, text_eq_iff j b, find_edge_iff a b m)

  pub HasKey-find :
      (k : Text) (m : List (Text × A)) → (is_some (find k m) ≡ true) ↔ Any (λ e. e.0 ≡ k) m
  unfolding find
  HasKey-find k [] = (λ h. absurd cc, λ h. absurd h)
  HasKey-find k ((j, a) ∷ m) = ground (arith, text_eq_iff j k, HasKey-find k m)

-- A name stands in a set.
abbrev pub Listed : Text → List Text → Type 0
Listed k = Any λ x. x ≡ k

pub contains_iff : (k : Text) (xs : List Text) → (contains k xs ≡ true) ↔ Listed k xs
unfolding contains
contains_iff k [] = (λ h. absurd cc, λ h. absurd h)
contains_iff k (x ∷ xs) = ground (arith, text_eq_iff x k, contains_iff k xs)

unfoldable pub insert : Text → List Text → List Text
insert k xs = if contains k xs then xs else k ∷ xs

unfoldable pub erase : Text → List Text → List Text
erase k [] = []
erase k (x ∷ xs) = if text_eq x k then erase k xs else x ∷ erase k xs
