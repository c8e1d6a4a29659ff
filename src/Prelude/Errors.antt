-- ===== src/Prelude/Errors.antt =====
-- Exceptions as values: what the code throws, with its message where the source builds one.
use mathlib.Core.Path.{◌≡◌, refl}
use mathlib.Core.Bool.{Bool, true, false}
use mathlib.Core.Logic.{◌↔◌}
use mathlib.Core.List.{List, [], ◌∷◌}
use cadmia.Prelude.Lists.{All}
use cadmia.Prelude.Texts.{Text}

pub data Error : Type 0 where
  invalid_argument logic_error : Text → Error
  -- `std::map::at` on a missing key, `std::any_cast` to another type.
  out_of_range bad_any_cast : Error
  -- `SimulationLimitError`.
  simulation_limit : Text → Error
  -- Signed overflow, which C++ leaves undefined: no run continues past it.
  signed_overflow : Error

-- What a function of the source does: it returns a value, or an exception leaves it.
pub data Result {ℓ} (Value : Type ℓ) : Type ℓ where
  ok : Value → Result Value
  err : Error → Result Value

-- Sequence: an exception of the first statement skips the rest.
infixl 5 ◌>>=◌
abbrev pub ◌>>=◌ {ℓ κ} :
    {Before : Type ℓ} {After : Type κ} → Result Before → (Before → Result After) → Result After
ok value >>= rest = rest value
err exception >>= rest = err exception

infixl 5 ◌>>◌
abbrev pub ◌>>◌ {ℓ} : {After : Type ℓ} → Result (Unit {0}) → Result After → Result After
check >> rest = check >>= λ passed. rest

-- `if (bad) throw e;`
abbrev pub throw_if : Bool → Error → Result (Unit {0})
throw_if true e = err e
throw_if false e = ok tt

abbrev pub is_ok {ℓ} : {A : Type ℓ} → Result A → Bool
is_ok (ok a) = true
is_ok (err e) = false

pub ok-injective {ℓ} : {A : Type ℓ} {a b : A} → ok a ≡ ok b → a ≡ b
ok-injective h = cc

pub throw_if-eq-ok : (b : Bool) (e : Error) {u : Unit {0}} → throw_if b e ≡ ok u → b ≡ false
throw_if-eq-ok true e h = cc
throw_if-eq-ok false e h = refl

-- Inversion of a successful step, handing its value and equations on as variables.
pub on_ok {ℓ κ μ} :
    {Before : Type ℓ} {After : Type κ} {Goal : Type μ} (first : Result Before)
    (rest : Before → Result After) {last : After}
    → (first >>= rest) ≡ ok last
    → ((value : Before) → first ≡ ok value → rest value ≡ ok last → Goal)
    → Goal
on_ok (ok value) rest returned continue = continue value refl returned
on_ok (err exception) rest returned continue = absurd cc

abbrev pub map_ok {ℓ κ} : {A : Type ℓ} {B : Type κ} → (A → B) → Result A → Result B
map_ok f (ok a) = ok (f a)
map_ok f (err e) = err e

-- A loop whose body may throw.
abbrev pub for_each {ℓ} : {A : Type ℓ} → (A → Result (Unit {0})) → List A → Result (Unit {0})
for_each f [] = ok tt
for_each f (x ∷ xs) = f x >> for_each f xs

-- When checks pass.
abbrev pub Passes : Result (Unit {0}) → Type 0
Passes m = m ≡ ok tt

pub throw_if_iff : (b : Bool) (e : Error) → Passes (throw_if b e) ↔ (b ≡ false)
throw_if_iff true e = (λ h. absurd cc, λ h. absurd cc)
throw_if_iff false e = (λ h. refl, λ h. refl)

pub Passes-throw_if {ℓ} :
    (b : Bool) (e : Error) {P : Type ℓ} → (b ≡ false) ↔ P → Passes (throw_if b e) ↔ P
Passes-throw_if b e p = (λ h. p.0 ((throw_if_iff b e).0 h), λ h. (throw_if_iff b e).1 (p.1 h))

pub >>_iff : (m k : Result (Unit {0})) → Passes (m >> k) ↔ (Passes m × Passes k)
>>_iff (ok tt) k = (λ h. (refl, h), λ h. h.1)
>>_iff (err e) k = (λ h. absurd cc, λ h. absurd cc)

pub then_iff {ℓ κ} :
    {P : Type ℓ} {Q : Type κ} (m k : Result (Unit {0}))
    → Passes m ↔ P
    → Passes k ↔ Q
    → Passes (m >> k) ↔ (P × Q)
then_iff m k p q =
    let split = >>_iff m k in
    (λ h. (p.0 (split.0 h).0, q.0 (split.0 h).1), λ h. split.1 (p.1 h.0, q.1 h.1))

pub for_each_iff {ℓ κ} :
    {A : Type ℓ} (f : A → Result (Unit {0})) (P : A → Type κ)
    → ((x : A) → Passes (f x) ↔ P x)
    → (xs : List A) → Passes (for_each f xs) ↔ All P xs
for_each_iff f P each [] = (λ h. tt, λ h. refl)
for_each_iff f P each (x ∷ xs) = then_iff (f x) (for_each f xs) (each x) (for_each_iff f P each xs)
