-- ===== src/RootCoordinator/Fresh.antt =====
-- The identifiers of the branches that wait in the queue of `simulate`.
use cadmia.Prelude.{
  ◌≡◌, refl, sym, subst, ap, ◌∙◌, List, [], ◌∷◌, ◌++◌, Text, All, All-map, All-append, Bool-cases,
  inl, inr, arith, ℕ, zero, suc, ◌+◌, ◌*◌, ◌-◌, ◌/◌, ◌%◌, ◌<◌, ltb,
}
use cadmia.Prelude.Maps.{Listed}
use cadmia.Prelude.Distinct.{IsDistinct}
use cadmia.RootCoordinator.{Branch, digits, to_string}

-- The number that a text of decimal digits denotes, after the digits of `n`.
pub read_digits : ℕ → Text → ℕ
read_digits n [] = n
read_digits n (c ∷ s) = read_digits (n * 10 + (c - 48)) s

read_digits-digits :
    (fuel n : ℕ) (after : Text)
    → n < fuel
    → read_digits 0 (digits fuel n after) ≡ read_digits n after
unfolding digits read_digits
read_digits-digits zero n after h = absurd (omega arith)
read_digits-digits (suc fuel) n after h = elim (Bool-cases (ltb n 10)) [
  | inl e ↦ rw e (ap (λ k. read_digits k after) (ground arith))
  | inr e ↦ rw e (
      read_digits-digits fuel (n / 10) ((48 + n % 10) ∷ after) (ground arith)
      ∙ ap (λ k. read_digits k after) (ground arith))
]

-- Reading a number as it is printed gives it back.
pub read_digits-to_string : (n : ℕ) → read_digits 0 (to_string n) ≡ n
unfolding to_string read_digits
read_digits-to_string n = read_digits-digits (suc n) n [] (omega arith)

to_string-injective : (m n : ℕ) → to_string m ≡ to_string n → m ≡ n
to_string-injective m n e =
    sym (read_digits-to_string m) ∙ ap (read_digits 0) e ∙ read_digits-to_string n

Listed-append : (k x : Text) (xs : List Text) → Listed k (xs ++ (x ∷ [])) → ¬ (x ≡ k) → Listed k xs
Listed-append k x [] (inl e) apart = absurd (apart e)
Listed-append k x [] (inr l) apart = l
Listed-append k x (y ∷ xs) (inl e) apart = inl e
Listed-append k x (y ∷ xs) (inr l) apart = inr (Listed-append k x xs l apart)

IsDistinct-append :
    (x : Text) (xs : List Text) → IsDistinct xs → ¬ Listed x xs → IsDistinct (xs ++ (x ∷ []))
IsDistinct-append x [] d fresh = (λ l. l, tt)
IsDistinct-append x (y ∷ xs) (other, d) fresh = (
  λ l. other (Listed-append y x xs l (λ e. fresh (inl (sym e)))),
  IsDistinct-append x xs d (λ l. fresh (inr l)),
)

module _ {ℓ} {K : Type ℓ} where
  abbrev pub ids : List (Branch K) → List Text
  ids [] = []
  ids (b ∷ bs) = b.branch_id ∷ ids bs

  -- Each identifier is the decimal of a number below `next`, and none stands there twice.
  pub record IsFresh (next : ℕ) (bs : List (Branch K)) : Type 0 where
    pub numbered : All (λ b. (n : ℕ) × (b.branch_id ≡ to_string n) × (n < next)) bs
    pub distinct : IsDistinct (ids bs)

  ids-append :
      (bs : List (Branch K)) (b : Branch K) → ids (bs ++ (b ∷ [])) ≡ ids bs ++ (b.branch_id ∷ [])
  ids-append [] b = refl
  ids-append (a ∷ bs) b = ap (λ l. a.branch_id ∷ l) (ids-append bs b)

  unused :
      (next : ℕ) (bs : List (Branch K))
      → All (λ b. (n : ℕ) × (b.branch_id ≡ to_string n) × (n < next)) bs
      → ¬ Listed (to_string next) (ids bs)
  unused next [] h l = l
  unused next (b ∷ bs) ((n, e, p), h) (inl q) =
      let same = to_string-injective n next (sym e ∙ q) in omega (arith, same)
  unused next (b ∷ bs) (p, h) (inr l) = unused next bs h l

  pub later : (next : ℕ) (bs : List (Branch K)) → IsFresh next bs → IsFresh (suc next) bs
  later next bs f = record {
    numbered = All-map _ _ (λ b h. (h.0, h.1, omega (arith, h.2))) bs f.numbered;
    distinct = f.distinct;
  }

  pub added :
      (next : ℕ) (bs : List (Branch K)) (b : Branch K)
      → b.branch_id ≡ to_string next
      → IsFresh next bs
      → IsFresh (suc next) (bs ++ (b ∷ []))
  added next bs b e f = record {
    numbered = All-append _ bs (b ∷ []) (later next bs f).numbered ((next, e, omega arith), tt);
    distinct = subst IsDistinct (sym (ids-append bs b)) (
        IsDistinct-append b.branch_id (ids bs) f.distinct
          (subst (λ k. ¬ Listed k (ids bs)) (sym e) (unused next bs f.numbered)));
  }
