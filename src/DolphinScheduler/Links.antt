-- ===== src/DolphinScheduler/Links.antt =====
-- src/mcp_stdio/plugins/dolphinscheduler/service.py: the patterns of `extract_log_links`. A matcher
-- answers with the length of the match at the start of a text. `is_decimal` stands for the class `\d`
-- of the interpreter's Unicode tables.
use etl_mcp_suite.DolphinScheduler.Pages.{dedupe}
use etl_mcp_suite.Text.{starts_with, codes, is_space, Str}
use etl_mcp_suite.Base.{
  ℕ, zero, suc, ◌+◌, ◌-◌, Bool, false, ◌&&◌, ◌||◌, not, Option, none, some, List, [], ◌∷◌, ◌++◌,
  map, ltb, if◌then◌else◌, length, take, drop, filter,
}

-- `pattern.findall(text)`: matches from the left that do not overlap, of `skip` characters of which
-- the last match still covers the rest.
unfoldable pub find_all : (Str → Option ℕ) → ℕ → Str → List Str
find_all matcher skip [] = []
find_all matcher (suc skip) (c ∷ s) = find_all matcher skip s
find_all matcher zero (c ∷ s) = elim (matcher (c ∷ s)) [
  | none ↦ find_all matcher zero s
  | some n ↦ take n (c ∷ s) ∷ find_all matcher (n - 1) s
]

-- How many characters pass a test, from the left.
unfoldable pub span_length : (ℕ → Bool) → Str → ℕ
span_length p [] = 0
span_length p (c ∷ s) = if p c then suc (span_length p s) else 0

abbrev pub is_not_space : ℕ → Bool
is_not_space c = not (is_space c)

module _ (is_decimal : ℕ → Bool) where
  -- `_YARN_APPLICATION_ID`. No digit is an underscore, so that the first run of digits is whole.
  unfoldable pub yarn_application_id : Str → Option ℕ
  yarn_application_id s =
      let prefix = codes "application_" in
      let first = span_length is_decimal (drop (length prefix) s) in
      let behind = drop (length prefix + first) s in
      let second = span_length is_decimal (drop 1 behind) in
      if starts_with s prefix && ltb 0 first && starts_with behind (codes "_") && ltb 0 second
      then some (length prefix + first + 1 + second)
      else none

  abbrev proxied : Str → Bool
  proxied s = elim (yarn_application_id (drop (length (codes "/proxy/")) s)) [
    | none ↦ false
    | some _ ↦ starts_with s (codes "/proxy/")
  ]

  -- Whether `\S*/proxy/application_\d+_\d+` matches at the start.
  unfoldable pub has_proxy : Str → Bool
  has_proxy [] = false
  has_proxy (c ∷ s) = proxied (c ∷ s) || (is_not_space c && has_proxy s)

  -- `_SPARK_PROXY_URL`. The last `\S*` takes all that is no space, whatever the first one takes.
  unfoldable pub spark_proxy_url : Str → Option ℕ
  spark_proxy_url s =
      if (starts_with s (codes "http://") && has_proxy (drop 7 s))
        || (starts_with s (codes "https://") && has_proxy (drop 8 s))
      then some (span_length is_not_space s)
      else none

-- The length of a match of `_SPARK_UI_LINE`.
unfoldable pub spark_ui_line : Str → Option ℕ
spark_ui_line s =
    let prefix = codes "Spark UI:" in
    let spaces = span_length is_space (drop (length prefix) s) in
    let url = span_length is_not_space (drop (length prefix + spaces) s) in
    if starts_with s prefix && ltb 0 url then some (length prefix + spaces + url) else none

-- The group of a match.
unfoldable pub spark_ui_group : Str → Str
spark_ui_group match =
    let rest = drop (length (codes "Spark UI:")) match in drop (span_length is_space rest) rest

-- The urls of the lines that start with `http`.
unfoldable pub spark_ui_urls : Str → List Str
spark_ui_urls log_text =
    filter (λ url. starts_with url (codes "http"))
      (map spark_ui_group (find_all spark_ui_line 0 log_text))

-- The two lists of links.
unfoldable pub yarn_application_ids : (ℕ → Bool) → ℕ → Str → List Str
yarn_application_ids is_decimal max_detail_items log_text =
    take max_detail_items (dedupe (find_all (yarn_application_id is_decimal) 0 log_text))

unfoldable pub spark_urls : (ℕ → Bool) → ℕ → Str → List Str
spark_urls is_decimal max_detail_items log_text =
    take max_detail_items
      (dedupe (dedupe (find_all (spark_proxy_url is_decimal) 0 log_text) ++ spark_ui_urls log_text))
