-- ===== src/Tests/Sql.antt =====
-- Runs of the checks of SQL, and their theorems at concrete inputs.
use etl_mcp_suite.Text.{
  lower_char, contains, join, mem_str, str_eq, starts_with, lstrip, is_space, upper_char, upper,
  codes, is_digit, Str, is_letter,
}
use etl_mcp_suite.Zeppelin.Sql.{
  letters, leading_keyword, without_block_comments, without_line_comments, split_from,
  strip_sql_noise, statements,
}
use etl_mcp_suite.Zeppelin.SqlTargets.{
  same_letter, word, spaces_or_none, spaces, anything, starts_identifier, dot_table,
  identifier_rest, write_target_patterns, pattern_of, check_database, check_pattern, check_target,
  target, check_targets, spaced, validate_sql_write_target, search_from, sql_write_target_checker,
}
use etl_mcp_suite.Base.{ℕ, ◌≡◌, refl, Bool, false, ◌||◌, some, List, [], ◌∷◌, ◌==◌, ok}

-- `\w` on ASCII.
abbrev is_ascii_word : ℕ → Bool
is_ascii_word c = is_letter c || is_digit c || c == b'_'

abbrev databases : List Str
databases = codes "tmp" ∷ []

program : Unit {0}
unfolding sql_write_target_checker validate_sql_write_target check_targets check_target
    check_pattern check_database search_from pattern_of write_target_patterns target identifier_rest
    dot_table starts_identifier anything spaces spaces_or_none word same_letter statements
    strip_sql_noise split_from without_line_comments without_block_comments leading_keyword letters
    upper upper_char is_letter is_digit is_space lower_char lstrip starts_with contains str_eq
    mem_str join
program = tt

listed :
    sql_write_target_checker is_ascii_word databases
      (codes "sql")
      (codes "insert into TABLE tmp.a select 1; select 2")
    ≡ ok tt
unfolding program
listed = refl

-- What follows the `--` of a literal is taken for a comment.
literal_hides : statements (codes "SELECT '--'; DROP TABLE x") ≡ codes "SELECT '" ∷ []
unfolding program
literal_hides = refl

-- The search finds a target inside a literal, where that of the statement has no database.
literal_passes :
    sql_write_target_checker is_ascii_word databases
      (codes "sql")
      (codes "INSERT INTO secret SELECT 'INSERT INTO tmp.t'")
    ≡ ok tt
unfolding program
literal_passes = refl

unlisted :
    search_from is_ascii_word false (spaced "UPDATE" target) (codes "update prod.t set a = 1")
    ≡ some (codes "prod")
unfolding program
unlisted = refl
