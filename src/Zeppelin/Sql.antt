-- ===== src/Zeppelin/Sql.antt =====
-- src/mcp_stdio/plugins/zeppelin/models.py: the removal of what is no SQL from a body, its statements,
-- and the refusal of forbidden leading keywords.
pub mod Plain
pub mod Forbidden
use etl_mcp_suite.Text.{
  lower_char, lstrip, codes, contains, mem_str, upper, is_letter, join, starts_with, Str,
}
use etl_mcp_suite.Zeppelin.Validators.{value_error, ValueError}
use etl_mcp_suite.Base.{
  ℕ, ◌≡◌, refl, ◌↔◌, inl, inr, Bool, true, false, ◌&&◌, List, [], ◌∷◌, ◌++◌, map, arith, ◌==◌,
  if◌then◌else◌, Bool-cases, drop, All, Result, ok, err, ◌>>=◌, ◌>>◌, Result-cases,
}

-- `_SQL_LINE_COMMENT.sub("", …)`, with the mark that a comment is being skipped.
unfoldable pub without_line_comments : Bool → Str → Str
without_line_comments in_comment [] = []
without_line_comments true (c ∷ s) =
    if c == 10 then c ∷ without_line_comments false s else without_line_comments true s
without_line_comments false (c ∷ s) =
    if starts_with (c ∷ s) (codes "--")
    then without_line_comments true s
    else c ∷ without_line_comments false s

-- Where a scan for block comments stands: outside, behind the slash that opens one, inside, or behind
-- the star that closes it.
pub data BlockScan : Type 0 where
  outside opening inside closing : BlockScan

-- `_SQL_BLOCK_COMMENT.sub("", …)`; what is never closed is no comment.
unfoldable pub without_block_comments : BlockScan → Str → Str
without_block_comments scan [] = []
without_block_comments outside (c ∷ s) =
    if starts_with (c ∷ s) (codes "/*") && contains (codes "*/") (drop 1 s)
    then without_block_comments opening s
    else c ∷ without_block_comments outside s
without_block_comments opening (c ∷ s) = without_block_comments inside s
without_block_comments inside (c ∷ s) =
    if starts_with (c ∷ s) (codes "*/")
    then without_block_comments closing s
    else without_block_comments inside s
without_block_comments closing (c ∷ s) = without_block_comments outside s

-- `s.split(sep)` for one character, with the part that is being read.
unfoldable pub split_from : ℕ → Str → Str → List Str
split_from sep part [] = part ∷ []
split_from sep part (c ∷ s) =
    if c == sep then part ∷ split_from sep [] s else split_from sep (part ++ c ∷ []) s

-- A line of `_SQL_SHEBANG_LINE.sub("", …)`.
abbrev pub without_shebang : Str → Str
without_shebang line = if starts_with (lstrip line) (codes "%") then [] else line

-- `_strip_sql_noise`
unfoldable pub strip_sql_noise : Str → Str
strip_sql_noise body =
    let cleaned = without_block_comments outside (without_line_comments false body) in
    join (10 ∷ []) (map without_shebang (split_from 10 [] cleaned))

-- `cleaned.split(";")`
unfoldable pub statements : Str → List Str
statements body = split_from b';' [] (strip_sql_noise body)

unfoldable pub letters : Str → Str
letters [] = []
letters (c ∷ s) = if is_letter c then c ∷ letters s else []

-- `match.group(1).upper() if match else ""`
unfoldable pub leading_keyword : Str → Str
leading_keyword statement = upper (letters (lstrip statement))

-- The loop of `validate_sql_forbidden_keywords`.
unfoldable pub check_statements : List Str → List Str → Result ValueError (Unit {0})
check_statements forbidden [] = ok tt
check_statements forbidden (statement ∷ rest) =
    let more = check_statements forbidden rest in
    let keyword = leading_keyword statement in
    if mem_str keyword forbidden
    then err
        (value_error (codes "sql keyword '" ++ keyword ++ codes "' is forbidden by the blacklist"))
    else more

unfoldable pub validate_sql_forbidden_keywords : List Str → Str → Result ValueError Str
validate_sql_forbidden_keywords forbidden_keywords body = do
  check_statements (map upper forbidden_keywords) (statements body)
  ok body

-- `SqlForbiddenKeywordChecker.check` in zeppelin/safety.py
unfoldable pub sql_forbidden_keyword_checker : List Str → Str → Str → Result ValueError (Unit {0})
sql_forbidden_keyword_checker forbidden interpreter body =
    if contains (codes "sql") (map lower_char interpreter)
    then (do checked ← validate_sql_forbidden_keywords forbidden body; ok tt)
    else ok tt

-- A statement that starts with no forbidden keyword, whatever its case.
abbrev pub IsPermitted : List Str → Str → Type 0
IsPermitted forbidden statement = mem_str (leading_keyword statement) (map upper forbidden) ≡ false

check_statements_iff :
    (forbidden ss : List Str)
    → (check_statements (map upper forbidden) ss ≡ ok tt) ↔ All (IsPermitted forbidden) ss
unfolding check_statements
check_statements_iff forbidden [] = (λ _. tt, λ _. refl)
check_statements_iff forbidden (s ∷ ss) =
    let (f, g) = check_statements_iff forbidden ss in
    elim (Bool-cases (mem_str (leading_keyword s) (map upper forbidden))) [
      | inl bad ↦ (rw bad (λ h. cc), λ h. absurd (ground (arith, h.0)))
      | inr good ↦ (rw good (λ h. (refl, f h)), λ h. rw good (g h.1))
    ]

-- For an interpreter whose name contains `sql`, in any case, the keyword checker lets a body pass
-- exactly when no statement of it, read without comments and shebang lines, starts with a forbidden
-- keyword.
pub sql_forbidden_keyword_checker_iff :
    (forbidden : List Str) (interpreter body : Str)
    → contains (codes "sql") (map lower_char interpreter) ≡ true
    → (sql_forbidden_keyword_checker forbidden interpreter body ≡ ok tt)
      ↔ All (IsPermitted forbidden) (statements body)
unfolding sql_forbidden_keyword_checker validate_sql_forbidden_keywords
sql_forbidden_keyword_checker_iff forbidden interpreter body sql =
    let (f, g) = check_statements_iff forbidden (statements body) in
    (
      rw sql (λ h.
          f (elim (Result-cases (check_statements (map upper forbidden) (statements body))) [
            | inl (t, e) ↦ e
            | inr (x, e) ↦ absurd (ground (arith, e, h))
          ])),
      λ h. rw (sql, g h) refl,
    )
