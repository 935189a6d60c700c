-- ===== src/Client/Config/Toml.antt =====
-- client/config.py: _save_toml, the serializer of sections with their settings.
use Prim.Native.String.{◌++◌}
use cpip.Common.{
  ℕ, zero, suc, ◌/◌, ◌%◌, String, Option, some, none, List, [], ◌∷◌, eqb, ltb, if◌then◌else◌,
}
use cpip.Shared.Json.{Json, Fields}

abbrev digit : ℕ → String
digit n =
    if eqb n 0
    then "0"
    else if eqb n 1
    then "1"
    else if eqb n 2
    then "2"
    else if eqb n 3
    then "3"
    else if eqb n 4
    then "4"
    else if eqb n 5
    then "5"
    else if eqb n 6
    then "6"
    else if eqb n 7
    then "7"
    else if eqb n 8
    then "8"
    else "9"

-- `str(n)`, for fuel that is at least `n`.
unfoldable pub decimal : ℕ → ℕ → String
decimal zero n = digit n
decimal (suc fuel) n =
    let front = decimal fuel (n / 10) in if ltb n 10 then digit n else front ++ digit (n % 10)

abbrev pub setting : String → String → String
setting key v = key ++ (" = " ++ v)

-- The line of a setting: a value that is no truth value, whole number or text has none.
unfoldable pub setting_line : String → Json → Option String
setting_line key (Json.boolean b) = some (setting key (if b then "true" else "false"))
setting_line key (Json.number n) = some (setting key (decimal n n))
setting_line key (Json.string s) = some (setting key ("\"" ++ (s ++ "\"")))
setting_line key _ = none

-- The lines of a section, in front of `rest`.
abbrev pub with_settings : Fields → List String → List String
with_settings Fields.no_fields rest = rest
with_settings (Fields.entry key v vs) rest =
    let lines = with_settings vs rest in
    elim (setting_line key v) [ some line ↦ line ∷ lines | none ↦ lines ]

abbrev pub with_section : String → Json → List String → List String
with_section name (Json.object d) rest = ("[" ++ (name ++ "]")) ∷ with_settings d ("" ∷ rest)
with_section name _ rest = rest

unfoldable pub toml_lines : Fields → List String
toml_lines Fields.no_fields = []
toml_lines (Fields.entry name v vs) = with_section name v (toml_lines vs)

-- `"\n".join(lines)`
unfoldable pub join_lines : List String → String
join_lines [] = ""
join_lines (line ∷ []) = line
join_lines (line ∷ next ∷ lines) = line ++ ("\n" ++ join_lines (next ∷ lines))

-- What `_save_toml` writes.
unfoldable pub toml_text : Fields → String
toml_text d = join_lines (toml_lines d)
