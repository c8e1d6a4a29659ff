-- ===== src/Prelude/MachineInt.antt =====
-- `int`: 32 bits, with signed overflow undefined in C++.
use cadmia.Prelude.{◌≡◌, ◌||◌, if◌then◌else◌, Result, ok, err, signed_overflow, arith}
use cadmia.Prelude.Int.{ℤ, pos, negsuc, ◌+ℤ◌, ◌≤ℤ◌, ltb_ℤ, +ℤ_mono, int_laws}

abbrev pub int_max : ℤ
int_max = pos 2_147_483_647

abbrev pub int_min : ℤ
int_min = negsuc 2_147_483_647

-- `a + b` on `int`.
unfoldable pub int_add : ℤ → ℤ → Result ℤ
int_add a b =
    let c = a +ℤ b in if ltb_ℤ int_max c || ltb_ℤ c int_min then err signed_overflow else ok c

-- Within the range the addition returns the sum.
pub int_add-ok : (a b : ℤ) → int_min ≤ℤ (a +ℤ b) → (a +ℤ b) ≤ℤ int_max → int_add a b ≡ ok (a +ℤ b)
unfolding int_add
int_add-ok a b h k = ground arith

pub int_add-eq-ok : (a b : ℤ) {c : ℤ} → int_add a b ≡ ok c → c ≡ a +ℤ b
unfolding int_add
int_add-eq-ok a b h = ground arith

-- A sum that returned lies below, and above, the sum of larger, and smaller, numbers.
pub int_add-le : (a b a' b' : ℤ) {c : ℤ} → int_add a b ≡ ok c → a ≤ℤ a' → b ≤ℤ b' → c ≤ℤ (a' +ℤ b')
int_add-le a b a' b' h p q = rw (int_add-eq-ok a b h) (+ℤ_mono a a' b b' p q)

pub le-int_add : (a b a' b' : ℤ) {c : ℤ} → int_add a b ≡ ok c → a' ≤ℤ a → b' ≤ℤ b → (a' +ℤ b') ≤ℤ c
le-int_add a b a' b' h p q = rw (int_add-eq-ok a b h) (+ℤ_mono a' a b' b p q)

pub int_add_grows : (a b : ℤ) → a ≤ℤ b → a ≤ℤ (b +ℤ pos 1)
int_add_grows a b h = omega int_laws

pub ≤ℤ-int_add : (a b : ℤ) {c : ℤ} → int_add a (pos 1) ≡ ok c → b ≤ℤ a → b ≤ℤ c
≤ℤ-int_add a b h p = rw (int_add-eq-ok a (pos 1) h) (int_add_grows b a p)
