-- ===== src/Log.antt =====
-- include/cadmia/engine/log.hpp: log entries as lines of JSON.
pub mod Reading
pub mod Lines
use cadmia.Prelude.{
  Bool, true, false, ◌==◌, if◌then◌else◌, List, [], ◌∷◌, ◌++◌, Option, none, some, Text, codes,
  is_nil, ℕ,
}
use cadmia.RootCoordinator.{LogEntry, to_string}

unfoldable pub escape_char : ℕ → Text
escape_char c =
    if c == 34
    then 92 ∷ 34 ∷ []
    else if c == 92
    then 92 ∷ 92 ∷ []
    else if c == 10
    then 92 ∷ 110 ∷ []
    else if c == 13
    then 92 ∷ 114 ∷ []
    else if c == 9
    then 92 ∷ 116 ∷ []
    else c ∷ []

unfoldable pub escape_json : Text → Text
unfolding escape_char
escape_json [] = []
escape_json (c ∷ s) = escape_char c ++ escape_json s

-- `,"key":"value"`.
unfoldable pub field : Text → Text → Text
unfolding escape_json
field key value = codes ",\"" ++ (key ++ (codes "\":\"" ++ (escape_json value ++ codes "\"")))

-- A field that is left out when it has no value.
unfoldable pub optional_field : Text → Option Text → Text
unfolding field
optional_field key none = []
optional_field key (some value) = field key value

-- `floor` is `std::chrono::floor<std::chrono::milliseconds>`, and `format` is `std::format` with the pattern
-- of the source; `now` is what the system's clock reads.
module _ {ℓ} {Now Milliseconds : Type ℓ} (floor : Now → Milliseconds)
    (format : Milliseconds → Text) where
  unfoldable pub now_iso8601 : Now → Text
  now_iso8601 now = format (floor now) ++ codes "Z"

  unfoldable pub to_ndjson : {V : Type ℓ} → Now → LogEntry V → Text
  unfolding field optional_field now_iso8601
  to_ndjson now e =
      codes "{\"ts\":\""
      ++ (now_iso8601 now
          ++ (codes "\",\"level\":\"info\",\"event\":\""
              ++ (codes (if is_nil e.component then "skip" else "step")
                  ++ (codes "\",\"step\":"
                      ++ (to_string e.step
                          ++ (field (codes "branch") e.branch
                              ++ (field (codes "sim_time") e.time
                                  ++ (field (codes "kind") e.kind
                                      ++ (optional_field (codes "parent_branch") e.parent_branch
                                          ++ ((if is_nil e.component
                                                then []
                                                else field (codes "component") e.component)
                                              ++ (optional_field (codes "output") e.output
                                                  ++ (optional_field (codes "merged_into")
                                                        e.merged_into
                                                      ++ codes "}"))))))))))))

  -- Each entry with the reading of the clock when it is written.
  unfoldable pub write_ndjson : {V : Type ℓ} → List (Now × LogEntry V) → Text
  unfolding to_ndjson
  write_ndjson [] = []
  write_ndjson ((now, e) ∷ entries) = to_ndjson now e ++ (10 ∷ write_ndjson entries)
