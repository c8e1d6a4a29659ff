-- ===== src/Log/Lines.antt =====
-- The lines of a log.
use mathlib.Core.List.{append_assoc, append-nil}
use cadmia.Prelude.{
  ◌≡◌, refl, sym, ap, ◌∙◌, Bool, true, not, ◌&&◌, ◌==◌, if◌then◌else◌, List, [], ◌∷◌, ◌++◌, Option,
  none, some, Text, codes, is_nil, ℕ, zero, suc, ◌+◌, ◌%◌, ◌/◌, all, map, arith,
}
use cadmia.RootCoordinator.{LogEntry, to_string, digits}
use cadmia.Log.{
  escape_char, escape_json, field, optional_field, now_iso8601, to_ndjson, write_ndjson,
}

-- Text without a line break.
abbrev one_line : Text → Bool
one_line = all λ c. not (c == 10)

-- The lines of a text, each ended by a line break, with `line` what stands before it on the first.
unfoldable pub lines : Text → Text → List Text
lines line [] = []
lines line (c ∷ s) =
    let ended = lines [] s in
    let longer = lines (line ++ (c ∷ [])) s in if c == 10 then line ∷ ended else longer

one_line-append : (s t : Text) → one_line (s ++ t) ≡ (one_line s && one_line t)
one_line-append [] t = refl
one_line-append (c ∷ s) t = ground (arith, one_line-append s t)

both : (s t : Text) → one_line s ≡ true → one_line t ≡ true → one_line (s ++ t) ≡ true
both s t h k = rw (one_line-append s t, h, k)

digits-one_line :
    (fuel n : ℕ) (after : Text) → one_line after ≡ true → one_line (digits fuel n after) ≡ true
unfolding digits
digits-one_line zero n after h = h
digits-one_line (suc fuel) n after h =
    ground (arith, digits-one_line fuel (n / 10) ((48 + n % 10) ∷ after))

-- A number has no line break.
pub to_string-one_line : (n : ℕ) → one_line (to_string n) ≡ true
unfolding to_string
to_string-one_line n = digits-one_line (suc n) n [] refl

escape_char-one_line : (c : ℕ) → one_line (escape_char c) ≡ true
unfolding escape_char
escape_char-one_line c = ground arith

escape_json-one_line : (s : Text) → one_line (escape_json s) ≡ true
unfolding escape_json
escape_json-one_line [] = refl
escape_json-one_line (c ∷ s) =
    both (escape_char c) (escape_json s) (escape_char-one_line c) (escape_json-one_line s)

field-one_line : (key value : Text) → one_line key ≡ true → one_line (field key value) ≡ true
unfolding field
field-one_line key value h = simp (one_line-append, h, escape_json-one_line value)

optional-one_line :
    (key : Text) (value : Option Text)
    → one_line key ≡ true
    → one_line (optional_field key value) ≡ true
unfolding optional_field
optional-one_line key none h = refl
optional-one_line key (some value) h = field-one_line key value h

lines-append :
    (line l s : Text) → one_line l ≡ true → lines line (l ++ (10 ∷ s)) ≡ (line ++ l) ∷ lines [] s
unfolding lines
lines-append line [] s h = ap (λ q. q ∷ lines [] s) (sym (append-nil line))
lines-append line (c ∷ l) s h =
    ground (arith, lines-append (line ++ (c ∷ [])) l s, append_assoc line (c ∷ []) l)

module _ {ℓ} {Now Milliseconds : Type ℓ} (floor : Now → Milliseconds) (format : Milliseconds → Text)
    (stamped : (t : Milliseconds) → one_line (format t) ≡ true) where
  to_ndjson-one_line :
      {V : Type ℓ} (now : Now) (e : LogEntry V) → one_line (to_ndjson floor format now e) ≡ true
  unfolding to_ndjson to_string now_iso8601
  to_ndjson-one_line now e = simp (
    one_line-append,
    stamped (floor now),
    event_line e.component,
    component_line e.component,
    to_string-one_line e.step,
    escape_json-one_line,
    optional-one_line (codes "parent_branch") e.parent_branch refl,
    optional-one_line (codes "output") e.output refl,
    optional-one_line (codes "merged_into") e.merged_into refl,
  )
    where
      event_line : (name : Text) → one_line (codes (if is_nil name then "skip" else "step")) ≡ true
      event_line [] = refl
      event_line (c ∷ name) = refl

      component_line :
          (name : Text)
          → one_line (if is_nil name then [] else field (codes "component") name) ≡ true
      component_line [] = refl
      component_line (c ∷ name) = field-one_line (codes "component") (c ∷ name) refl

  -- Each entry of a log stands on a line of its own, when no time has a line break as it is formatted.
  pub lines-write_ndjson :
      {V : Type ℓ} (entries : List (Now × LogEntry V))
      → lines [] (write_ndjson floor format entries)
        ≡ map (λ e. to_ndjson floor format e.0 e.1) entries
  unfolding write_ndjson lines
  lines-write_ndjson [] = refl
  lines-write_ndjson ((now, e) ∷ entries) =
      lines-append [] (to_ndjson floor format now e) (write_ndjson floor format entries)
        (to_ndjson-one_line now e)
      ∙ ap (λ q. to_ndjson floor format now e ∷ q) (lines-write_ndjson entries)
