-- ===== src/Zeppelin/SqlTargets/Refused.antt =====
-- The writes that the write-target checker refuses.
use etl_mcp_suite.Base.{ℕ, ◌≡◌, Bool, true, ◌||◌, List, ◌∷◌, ◌++◌, ◌==◌, ok}
use etl_mcp_suite.Zeppelin.SqlTargets.{check_target}
use etl_mcp_suite.Text.{Str, codes, is_letter, is_digit}

-- What stands in front of the table that a statement writes to.
pub data IsWrite : Str → Type 0 where
  updates : IsWrite (codes "UPDATE ")
  deletes_from : IsWrite (codes "DELETE FROM ")
  merges_into : IsWrite (codes "MERGE INTO ")
  truncates : IsWrite (codes "TRUNCATE TABLE ")
  alters : IsWrite (codes "ALTER TABLE ")

-- A letter of ASCII or `_`, and one of these or a digit.
unfoldable pub is_name_start : ℕ → Bool
is_name_start c = is_letter c || c == b'_'

unfoldable pub is_name_rest : ℕ → Bool
unfolding is_name_start
is_name_rest c = is_name_start c || is_digit c

abbrev pub dotted : Str → ℕ → Str → Str
dotted name c after = name ++ b'.' ∷ c ∷ after

module _ (is_word_char : ℕ → Bool)
    (letters_are : (c : ℕ) → is_letter c ≡ true → is_word_char c ≡ true) (allowed : List Str) where
  abbrev Passed : Str → Type 0
  Passed s = check_target is_word_char allowed s ≡ ok tt
