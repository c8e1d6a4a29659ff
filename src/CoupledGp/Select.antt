-- ===== src/CoupledGp/Select.antt =====
-- `select_first` of example/coupled_gp/main.cpp.
use cadmia.Prelude.{
  ◌≡◌, refl, sym, subst, ap, Bool, true, false, if◌then◌else◌, List, [], ◌∷◌, Text, text_eq_refl,
  contains, All, Bool-cases, inl, inr, arith,
}
use cadmia.CoupledGp.{text_less, min_element, select_first}

text_less_irrefl : (s : Text) → text_less s s ≡ false
unfolding text_less
text_less_irrefl [] = refl
text_less_irrefl (a ∷ s) = ground (arith, text_less_irrefl s)

-- Not being less goes on along a chain.
text_less_trans :
    (r s t : Text) → text_less r s ≡ false → text_less s t ≡ false → text_less r t ≡ false
unfolding text_less
text_less_trans [] [] t h k = k
text_less_trans [] (b ∷ s) t h k = absurd cc
text_less_trans (a ∷ r) [] [] h k = refl
text_less_trans (a ∷ r) [] (c ∷ t) h k = absurd cc
text_less_trans (a ∷ r) (b ∷ s) [] h k = refl
text_less_trans (a ∷ r) (b ∷ s) (c ∷ t) h k = ground (arith, text_less_trans r s t)

text_less_asymm : (s t : Text) → text_less s t ≡ true → text_less t s ≡ false
unfolding text_less
text_less_asymm [] [] h = refl
text_less_asymm [] (b ∷ t) h = refl
text_less_asymm (a ∷ s) [] h = absurd cc
text_less_asymm (a ∷ s) (b ∷ t) h = ground (arith, text_less_asymm s t)

-- The smallest of `least` and the names: one of them, and none of them comes before it.
abbrev IsLeast : Text → List Text → Type 0
IsLeast m names = (contains m names ≡ true) × All (λ k. text_less k m ≡ false) names

IsLeast-less :
    (m least n : Text) (names : List Text)
    → text_less n least ≡ true
    → IsLeast m (n ∷ names)
    → IsLeast m (least ∷ n ∷ names)
unfolding contains
IsLeast-less m least n names e (found, (first, rest)) =
    (ground arith, (text_less_trans least n m (text_less_asymm n least e) first, (first, rest)))

IsLeast-stays :
    (m least n : Text) (names : List Text)
    → text_less n least ≡ false
    → IsLeast m (least ∷ names)
    → IsLeast m (least ∷ n ∷ names)
unfolding contains
IsLeast-stays m least n names e (found, (first, rest)) =
    (ground arith, (first, (text_less_trans n least m e first, rest)))

min_element-IsLeast :
    (least : Text) (names : List Text) → IsLeast (min_element least names) (least ∷ names)
unfolding min_element contains
min_element-IsLeast least [] = (ground (arith, text_eq_refl least), (text_less_irrefl least, tt))
min_element-IsLeast least (n ∷ names) =
    let go_on = λ (b : Bool). min_element (if b then n else least) names in
    elim (Bool-cases (text_less n least)) [
      | inl e ↦
          subst (λ m. IsLeast m (least ∷ n ∷ names)) (ap go_on (sym e))
            (IsLeast-less (min_element n names) least n names e (min_element-IsLeast n names))
      | inr e ↦
          subst (λ m. IsLeast m (least ∷ n ∷ names)) (ap go_on (sym e))
            (IsLeast-stays (min_element least names) least n names e
              (min_element-IsLeast least names))
    ]

-- The answer to a set of names that is not empty is one of them, and none of them comes before it in the
-- order of strings.
pub select_first-IsLeast :
    (n : Text) (ns : List Text)
    → (contains (select_first (n ∷ ns)) (n ∷ ns) ≡ true)
      × All (λ k. text_less k (select_first (n ∷ ns)) ≡ false) (n ∷ ns)
unfolding select_first
select_first-IsLeast n ns = min_element-IsLeast n ns
