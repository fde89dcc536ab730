-- ===== src/Zeppelin/Json.antt =====
-- src/mcp_stdio/plugins/zeppelin/service.py: the JSON of the interpreter bindings, as
-- `json.dumps(…, ensure_ascii=False, separators=(",", ":"))` writes it.
use etl_mcp_suite.Text.{join, codes, Str}
use etl_mcp_suite.Zeppelin.Models.{InterpreterBindingsResult, InterpreterBinding}
use etl_mcp_suite.Base.{
  ℕ, ◌+◌, ◌/◌, ◌%◌, Bool, true, false, ◌||◌, List, [], ◌∷◌, ◌++◌, map, ltb, ◌==◌, if◌then◌else◌,
}

abbrev hex_digit : ℕ → ℕ
hex_digit d = if ltb d 10 then 0x30 + d else 0x57 + d

-- A character of a JSON string.
unfoldable pub json_char : ℕ → Str
json_char c =
    if c == b'"' || c == 0x5c
    then 0x5c ∷ c ∷ []
    else if c == 10
    then 0x5c ∷ b'n' ∷ []
    else if c == 13
    then 0x5c ∷ b'r' ∷ []
    else if c == 9
    then 0x5c ∷ b't' ∷ []
    else if c == 12
    then 0x5c ∷ b'f' ∷ []
    else if c == 8
    then 0x5c ∷ b'b' ∷ []
    else if ltb c 32
    then 0x5c ∷ b'u' ∷ b'0' ∷ b'0' ∷ hex_digit (c / 16) ∷ hex_digit (c % 16) ∷ []
    else c ∷ []

unfoldable pub json_chars : Str → Str
json_chars [] = []
json_chars (c ∷ s) = json_char c ++ json_chars s

abbrev pub quote : Str
quote = 0x22 ∷ []

unfoldable pub json_string : Str → Str
json_string s = quote ++ json_chars s ++ quote

unfoldable pub json_bool : Bool → Str
json_bool true = codes "true"
json_bool false = codes "false"

unfoldable pub json_list : List Str → Str
json_list parts = codes "[" ++ join (codes ",") parts ++ codes "]"

-- `{…}` of names, which need no escape, and values that are JSON already.
unfoldable pub json_fields : List (Str × Str) → List Str
json_fields [] = []
json_fields ((name, value) ∷ rest) = (json_string name ++ codes ":" ++ value) ∷ json_fields rest

unfoldable pub json_object : List (Str × Str) → Str
json_object fields = codes "{" ++ join (codes ",") (json_fields fields) ++ codes "}"

unfoldable pub json_binding : InterpreterBinding → Str
json_binding b = json_object (
    (codes "setting_id", json_string b.setting_id)
    ∷ (codes "name", json_string b.name)
    ∷ (codes "interpreters", json_list (map json_string b.interpreters))
    ∷ (codes "selected", json_bool b.selected)
    ∷ (codes "restart_allowed", json_bool b.restart_allowed)
    ∷ [])

-- The serialized `result.model_dump(mode="json")`.
unfoldable pub json_result : InterpreterBindingsResult → Str
json_result r = json_object (
    (codes "notebook_id", json_string r.notebook_id)
    ∷ (codes "bindings", json_list (map json_binding r.bindings))
    ∷ [])
