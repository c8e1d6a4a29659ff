-- ===== src/Log/Reading.antt =====
-- Reading back the strings of a log line.
use mathlib.Core.List.{append_assoc}
use cadmia.Prelude.{
  ◌≡◌, refl, false, ◌==◌, if◌then◌else◌, [], ◌∷◌, ◌++◌, Option, none, some, Text, ℕ, arith,
}
use cadmia.Log.{escape_char, escape_json}

-- The byte that an escape of two bytes stands for.
abbrev unescaped : ℕ → Option ℕ
unescaped c =
    if c == 110
    then some 10
    else if c == 114
    then some 13
    else if c == 116
    then some 9
    else if c == 34
    then some 34
    else if c == 92
    then some 92
    else none

abbrev push : Option ℕ → Option (Text × Text) → Option (Text × Text)
push none rest = none
push (some c) none = none
push (some c) (some (s, rest)) = some (c ∷ s, rest)

-- A JSON string from behind its opening quote: its text, and what follows the closing quote.
unfoldable pub read_string : Text → Option (Text × Text)
read_string [] = none
read_string (c ∷ []) = if c == 34 then some ([], []) else none
read_string (c ∷ d ∷ s) =
    let plain = read_string (d ∷ s) in
    let escape = read_string s in
    if c == 34
    then some ([], d ∷ s)
    else if c == 92
    then push (unescaped d) escape
    else push (some c) plain

read_plain :
    (c : ℕ) (s : Text)
    → (c == 34) ≡ false
    → (c == 92) ≡ false
    → read_string (c ∷ s) ≡ push (some c) (read_string s)
unfolding read_string
read_plain c [] p q = ground arith
read_plain c (d ∷ s) p q = ground arith

read_quote : (rest : Text) → read_string (34 ∷ rest) ≡ some ([], rest)
unfolding read_string
read_quote [] = refl
read_quote (d ∷ rest) = refl

read_char : (c : ℕ) (s : Text) → read_string (escape_char c ++ s) ≡ push (some c) (read_string s)
unfolding read_string escape_char
read_char c s = ground (arith, read_plain c s)

-- An escaped string is read back whole, up to its closing quote and no further.
pub read_string-escape_json :
    (s rest : Text) → read_string (escape_json s ++ (34 ∷ rest)) ≡ some (s, rest)
unfolding escape_json
read_string-escape_json [] rest = read_quote rest
read_string-escape_json (c ∷ s) rest = rw (
  append_assoc (escape_char c) (escape_json s) (34 ∷ rest),
  read_char c (escape_json s ++ (34 ∷ rest)),
  read_string-escape_json s rest,
)
