-- ===== src/Zeppelin/SqlTargets.antt =====
-- src/mcp_stdio/plugins/zeppelin/models.py: `_SQL_WRITE_TARGET_PATTERNS`, read as matchers that try the
-- choices in the order in which Python's `re` does, and `validate_sql_write_target`. A matcher takes
-- what is to follow it, which answers with the first group of the pattern. `is_word_char` stands for
-- the class `\w` of the interpreter's Unicode tables, which `\b` looks at.
pub mod Refused
use Prim.Native.String.{String}
use etl_mcp_suite.Text.{
  mem_str, contains, str_eq, codes, is_digit, is_letter, is_space, lower_char, Str,
}
use etl_mcp_suite.Zeppelin.Sql.{statements, leading_keyword}
use etl_mcp_suite.Zeppelin.Validators.{value_error, ValueError}
use etl_mcp_suite.Base.{
  ℕ, Bool, false, ◌&&◌, ◌||◌, not, Option, none, some, List, [], ◌∷◌, ◌++◌, map, ◌==◌,
  if◌then◌else◌, Result, ok, err, ◌>>=◌, ◌>>◌,
}

abbrev pub Follow : Type 0
Follow = Str → Option Str

abbrev pub or_else : Option Str → Option Str → Option Str
or_else (some a) _ = some a
or_else none o = o

-- A letter of a pattern, under `re.IGNORECASE`.
unfoldable pub same_letter : ℕ → ℕ → Bool
same_letter letter c =
    lower_char letter == lower_char c
    || (lower_char letter == b'i' && (c == 0x130 || c == 0x131))
    || (lower_char letter == b's' && c == 0x17f)
    || (lower_char letter == b'k' && c == 0x212a)

unfoldable pub word : Str → Follow → Follow
word [] k s = k s
word (letter ∷ letters) k [] = none
word (letter ∷ letters) k (c ∷ s) = if same_letter letter c then word letters k s else none

-- `\s*`, and `\s+`
unfoldable pub spaces_or_none : Follow → Follow
spaces_or_none k [] = k []
spaces_or_none k (c ∷ s) =
    if is_space c then or_else (spaces_or_none k s) (k (c ∷ s)) else k (c ∷ s)

unfoldable pub spaces : Follow → Follow
spaces k [] = none
spaces k (c ∷ s) = if is_space c then spaces_or_none k s else none

-- `(?:…)?`
abbrev maybe : (Follow → Follow) → Follow → Follow
maybe m k s = or_else (m k s) (k s)

-- `[\s\S]*?`
unfoldable pub anything : Follow → Follow
anything k [] = k []
anything k (c ∷ s) = or_else (k (c ∷ s)) (anything k s)

-- `[A-Za-z_]` under `re.IGNORECASE`
unfoldable pub starts_identifier : ℕ → Bool
starts_identifier c =
    is_letter c || c == b'_' || c == 0x130 || c == 0x131 || c == 0x17f || c == 0x212a

-- The dot and the table name behind a database name.
unfoldable pub dot_table : Str → Follow
dot_table database (dot ∷ c ∷ s) =
    if dot == b'.' && starts_identifier c then some database else none
dot_table database _ = none

unfoldable pub identifier_rest : Str → Follow
identifier_rest read [] = dot_table read []
identifier_rest read (c ∷ s) =
    if starts_identifier c || is_digit c
    then or_else (identifier_rest (read ++ c ∷ []) s) (dot_table read (c ∷ s))
    else dot_table read (c ∷ s)

-- `(` `_SQL_IDENTIFIER` `)\.(` `_SQL_IDENTIFIER` `)`
unfoldable pub target : Follow
target [] = none
target (c ∷ s) = if starts_identifier c then identifier_rest (c ∷ []) s else none

-- A word and the white space behind it.
abbrev pub spaced : String → Follow → Follow
spaced w k = word (codes w) (spaces k)

abbrev if_exists : Follow → Follow
if_exists k = maybe (λ k'. spaced "IF" (spaced "EXISTS" k')) k

abbrev if_not_exists : Follow → Follow
if_not_exists k = maybe (λ k'. spaced "IF" (spaced "NOT" (spaced "EXISTS" k'))) k

abbrev table_or_view : Follow → Follow
table_or_view k s = or_else (spaced "TABLE" k s) (spaced "VIEW" k s)

abbrev into_or_overwrite : Follow → Follow
into_or_overwrite k s =
    or_else (spaced "INTO" (maybe (spaced "TABLE") k) s) (spaced "OVERWRITE" (spaced "TABLE" k) s)

-- `_SQL_WRITE_TARGET_BY_KEYWORD`
unfoldable pub write_target_patterns : List (Str × Follow)
write_target_patterns =
    (codes "INSERT", spaced "INSERT" (into_or_overwrite (if_not_exists target)))
    ∷ (codes "UPDATE", spaced "UPDATE" target)
    ∷ (codes "DELETE", spaced "DELETE" (spaced "FROM" target))
    ∷ (codes "MERGE", spaced "MERGE" (spaced "INTO" target))
    ∷ (
      codes "CREATE",
      spaced "CREATE"
          (maybe (λ k. spaced "OR" (spaced "REPLACE" k)) (table_or_view (if_not_exists target))),
    )
    ∷ (codes "ALTER", spaced "ALTER" (table_or_view target))
    ∷ (codes "DROP", spaced "DROP" (table_or_view (if_exists target)))
    ∷ (codes "TRUNCATE", spaced "TRUNCATE" (spaced "TABLE" target))
    ∷ (
      codes "LOAD",
      spaced "LOAD" (word (codes "DATA") (anything (spaced "INTO" (spaced "TABLE" target)))),
    )
    ∷ []

unfoldable pub pattern_of : Str → List (Str × Follow) → Option Follow
pattern_of keyword [] = none
pattern_of keyword ((name, p) ∷ rest) =
    if str_eq keyword name then some p else pattern_of keyword rest

module _ (is_word_char : ℕ → Bool) where
  -- `search` for a pattern that starts with `\b` and a letter, behind a word character or not.
  unfoldable pub search_from : Bool → Follow → Str → Option Str
  search_from in_word p [] = none
  search_from in_word p (c ∷ s) =
      let later = search_from (is_word_char c) p s in
      if not in_word && is_word_char c then or_else (p (c ∷ s)) later else later

  -- The test of the database that a statement writes to.
  unfoldable pub check_database : List Str → Option Str → Result ValueError (Unit {0})
  check_database allowed none =
      err (value_error (codes "sql write target database cannot be determined from the statement"))
  check_database allowed (some database) =
      if mem_str database allowed
      then ok tt
      else err (
          value_error
            (codes "sql write target database '" ++ database ++ codes "' is not allowlisted"))

  unfoldable pub check_pattern : List Str → Str → Option Follow → Result ValueError (Unit {0})
  check_pattern allowed statement none = ok tt
  check_pattern allowed statement (some p) = check_database allowed (search_from false p statement)

  -- What the loop asks of one statement.
  unfoldable pub check_target : List Str → Str → Result ValueError (Unit {0})
  check_target allowed statement =
      check_pattern allowed statement (pattern_of (leading_keyword statement) write_target_patterns)

  unfoldable pub check_targets : List Str → List Str → Result ValueError (Unit {0})
  check_targets allowed [] = ok tt
  check_targets allowed (statement ∷ rest) = do
    check_target allowed statement
    check_targets allowed rest

  unfoldable pub validate_sql_write_target : Str → List Str → Result ValueError Str
  validate_sql_write_target body allowed_databases = do
    check_targets allowed_databases (statements body)
    ok body

  -- `SqlWriteTargetChecker.check` in zeppelin/safety.py
  unfoldable pub sql_write_target_checker : List Str → Str → Str → Result ValueError (Unit {0})
  sql_write_target_checker allowed_databases interpreter body =
      if contains (codes "sql") (map lower_char interpreter)
      then (do checked ← validate_sql_write_target body allowed_databases; ok tt)
      else ok tt
