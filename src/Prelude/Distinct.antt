-- ===== src/Prelude/Distinct.antt =====
-- Lists of names that stand there once, as the keys of a map do.
use cadmia.Prelude.{
  ◌≡◌, refl, subst, inl, inr, List, [], ◌∷◌, Text, text_eq_iff, contains, length, Bool-cases, arith,
  ◌≤◌, ◌<◌,
}
use cadmia.Prelude.Maps.{erase, Listed, contains_iff}

abbrev pub IsDistinct : List Text → Type 0
IsDistinct [] = Unit
IsDistinct (x ∷ xs) = (¬ Listed x xs) × IsDistinct xs

length-erase : (k : Text) (xs : List Text) → length (erase k xs) ≤ length xs
unfolding erase
length-erase k [] = omega arith
length-erase k (x ∷ xs) = ground (arith, length-erase k xs)

erase-shorter : (k : Text) (xs : List Text) → Listed k xs → length (erase k xs) < length xs
unfolding erase
erase-shorter k [] l = absurd l
erase-shorter k (x ∷ xs) l =
    let rest : Listed k xs → length (erase k xs) < length xs = erase-shorter k xs in
    ground (arith, text_eq_iff x k, length-erase k xs, rest)

erase-Listed : (k j : Text) (xs : List Text) → ¬ (k ≡ j) → Listed j xs → Listed j (erase k xs)
unfolding erase
erase-Listed k j [] apart l = absurd l
erase-Listed k j (x ∷ xs) apart l = ground (arith, text_eq_iff x k, erase-Listed k j xs apart)

-- The names of a list with no repetition are at most as many as those of a list that has them all.
pub distinct-length :
    (xs ys : List Text)
    → IsDistinct xs
    → ((k : Text) → Listed k xs → Listed k ys)
    → length xs ≤ length ys
distinct-length [] ys d sub = omega arith
distinct-length (x ∷ xs) ys (fresh, d) sub =
    let fewer = distinct-length xs (erase x ys) d (λ k l.
      erase-Listed x k ys (λ e. fresh (subst (λ q. Listed q xs) (cc e) l)) (sub k (inr l))) in
    omega (arith, fewer, erase-shorter x ys (sub x (inl refl)))

-- A list that has all the names of another, as long as it, has no others.
pub distinct-onto :
    (xs ys : List Text)
    → IsDistinct xs
    → ((k : Text) → Listed k xs → Listed k ys)
    → length xs ≡ length ys
    → (k : Text) → Listed k ys
    → Listed k xs
distinct-onto xs ys d sub same k l = elim (Bool-cases (contains k xs)) [
  | inl e ↦ (contains_iff k xs).0 e
  | inr e ↦
      let fresh : ¬ Listed k xs = λ m. absurd (ground (arith, contains_iff k xs)) in
      let more =
        distinct-length (k ∷ xs) ys (fresh, d)
          (λ j h. elim h [ inl q ↦ subst (λ z. Listed z ys) q l | inr m ↦ sub j m ]) in
      absurd (omega (arith, more))
]
