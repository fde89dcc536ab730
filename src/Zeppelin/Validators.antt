-- ===== src/Zeppelin/Validators.antt =====
-- src/mcp_stdio/plugins/zeppelin/models.py: the status map and the validators of what a tool call
-- hands over. `encode_error_text` stands for the message of the interpreter's `UnicodeEncodeError`,
-- which is a `ValueError` too.
pub mod Accepted
use etl_mcp_suite.Text.{
  first_word, mem_str, starts_with, lstrip, is_control, encoded_length, upper, splitlines, strip,
  is_digit, str_eq, codes, is_letter, Str,
}
use etl_mcp_suite.Value.{text, Value}
use etl_mcp_suite.Base.{
  ℕ, Bool, false, ◌&&◌, ◌||◌, Option, none, some, List, [], ◌∷◌, ◌++◌, ltb, leb, ◌==◌,
  if◌then◌else◌, length, is_empty, any, all, Result, ok, err,
}

-- The `ValueError`s that the validators raise.
pub data ValueError : Type 0 where
  value_error : Str → ValueError
  unicode_encode_error : Str → ValueError

-- `str(exc)`
abbrev pub error_text : (Str → Str) → ValueError → Str
error_text encode_error_text (value_error message) = message
error_text encode_error_text (unicode_encode_error s) = encode_error_text s

pub data ParagraphStatus : Type 0 where
  pending running finished error cancelled unknown : ParagraphStatus

-- `_STATUS_MAP`
unfoldable pub status_map : List (Str × ParagraphStatus)
status_map =
    (codes "READY", pending)
    ∷ (codes "PENDING", pending)
    ∷ (codes "RUNNING", running)
    ∷ (codes "FINISHED", finished)
    ∷ (codes "ERROR", error)
    ∷ (codes "ABORT", cancelled)
    ∷ (codes "ABORTED", cancelled)
    ∷ (codes "CANCEL", cancelled)
    ∷ (codes "CANCELLED", cancelled)
    ∷ []

unfoldable pub status_of : Str → List (Str × ParagraphStatus) → ParagraphStatus
status_of name [] = unknown
status_of name ((key, status) ∷ rest) = if str_eq name key then status else status_of name rest

unfoldable pub normalize_paragraph_status : Value → ParagraphStatus
normalize_paragraph_status (text upstream) = status_of (upper (strip upstream)) status_map
normalize_paragraph_status _ = unknown

unfoldable pub validate_notebook_name : ℕ → Value → Result ValueError Str
validate_notebook_name max_chars (text value) =
    if is_empty (strip value)
    then err (value_error (codes "notebook name must not be empty"))
    else if ltb max_chars (length value)
    then err (value_error (codes "notebook name exceeds the configured length limit"))
    else ok value
validate_notebook_name max_chars _ = err (value_error (codes "notebook name must be a string"))

unfoldable pub validate_paragraph_title : ℕ → Value → Result ValueError Str
validate_paragraph_title max_chars (text value) =
    if ltb max_chars (length value)
    then err (value_error (codes "paragraph title exceeds the configured length limit"))
    else ok value
validate_paragraph_title max_chars _ = err (value_error (codes "paragraph title must be a string"))

-- The end of `validate_paragraph_body`, on the length of the encoded text.
unfoldable pub within_bytes : ℕ → Str → Option ℕ → Result ValueError Str
within_bytes max_bytes value none = err (unicode_encode_error value)
within_bytes max_bytes value (some size) =
    if ltb max_bytes size
    then err (value_error (codes "paragraph body exceeds the configured byte limit"))
    else ok value

unfoldable pub validate_paragraph_body : ℕ → Value → Result ValueError Str
validate_paragraph_body max_bytes (text value) =
    if is_empty value
    then err (value_error (codes "paragraph body must not be empty"))
    else within_bytes max_bytes value (encoded_length value)
validate_paragraph_body max_bytes _ = err (value_error (codes "paragraph body must be a string"))

unfoldable pub is_interpreter_char : ℕ → Bool
is_interpreter_char c = is_letter c || is_digit c || c == b'_' || c == b'.' || c == b'-'

-- `_INTERPRETER_PATTERN.fullmatch(value)`: `[A-Za-z][A-Za-z0-9_.-]{0,63}`
unfoldable pub is_interpreter_name : Str → Bool
is_interpreter_name [] = false
is_interpreter_name (c ∷ s) = is_letter c && all is_interpreter_char s && leb (length s) 63

unfoldable pub validate_interpreter_name : Value → Result ValueError Str
validate_interpreter_name (text value) =
    if is_interpreter_name value
    then ok value
    else err (value_error (codes "interpreter name is malformed"))
validate_interpreter_name _ = err (value_error (codes "interpreter name is malformed"))

unfoldable pub validate_opaque_id : ℕ → Value → Result ValueError Str
validate_opaque_id max_chars (text value) =
    if is_empty value
    then err (value_error (codes "opaque id is required"))
    else if ltb max_chars (length value)
    then err (value_error (codes "opaque id exceeds the configured length limit"))
    else if any is_control value
    then err (value_error (codes "opaque id must not contain control characters"))
    else ok value
validate_opaque_id max_chars _ = err (value_error (codes "opaque id must be a string"))

-- The lines of a body as `parse_paragraph_interpreter` reads them.
unfoldable pub shebang_of_line : Str → Result ValueError (Option Str)
shebang_of_line [] = ok none
shebang_of_line (c ∷ rest) =
    if c == b'%'
    then (if is_interpreter_name rest
        then ok (some rest)
        else err (value_error (codes "interpreter shebang is malformed")))
    else ok none

unfoldable pub shebang_of_lines : List Str → Result ValueError (Option Str)
shebang_of_lines [] = ok none
shebang_of_lines (line ∷ lines) =
    if is_empty (strip line) then shebang_of_lines lines else shebang_of_line (lstrip line)

unfoldable pub parse_paragraph_interpreter : Str → Result ValueError (Option Str)
parse_paragraph_interpreter body = shebang_of_lines (splitlines body)

-- The lines of a body as `validate_sh_command` reads them: the command of the first that is one.
unfoldable pub command_of_lines : List Str → Option Str
command_of_lines [] = none
command_of_lines (line ∷ lines) =
    let stripped = strip line in
    if is_empty stripped || starts_with stripped (codes "#") || starts_with stripped (codes "%")
    then command_of_lines lines
    else some (first_word stripped)

unfoldable pub validate_sh_command : List Str → Str → Result ValueError Str
validate_sh_command allowed_commands body = elim (command_of_lines (splitlines body)) [
  | none ↦ err (value_error (codes "sh command is not allowlisted"))
  | some command ↦
      if mem_str command allowed_commands
      then ok body
      else err (value_error (codes "sh command '" ++ command ++ codes "' is not allowlisted"))
]

-- `_validate_binding_text`
unfoldable pub validate_binding_text : Str → ℕ → Str → Result ValueError Str
validate_binding_text label max_chars value =
    if is_empty value
    then err (value_error (label ++ codes " must not be empty"))
    else if ltb max_chars (length value)
    then err (value_error (label ++ codes " exceeds the length limit"))
    else if any is_control value
    then err (value_error (label ++ codes " must not contain control characters"))
    else ok value
