-- ===== src/DolphinScheduler/Pages/Deduped.antt =====
-- `_dedupe` keeps the first occurrence of each value.
use etl_mcp_suite.Base.{
  ◌≡◌, refl, sym, ap, ◌∙◌, inl, inr, true, List, [], ◌∷◌, arith, if◌then◌else◌, Bool-cases,
}
use etl_mcp_suite.Text.{Str, mem_str, str_eq, eq_of_str_eq}
use etl_mcp_suite.DolphinScheduler.Pages.{dedupe, dedupe_from}

-- The values other than one.
unfoldable pub without : Str → List Str → List Str
without v [] = []
without v (x ∷ xs) = if str_eq x v then without v xs else x ∷ without v xs

-- The first occurrences: behind each value, what is equal to it is left out.
unfoldable pub first_occurrences : List Str → List Str
first_occurrences [] = []
first_occurrences (v ∷ values) = v ∷ without v (first_occurrences values)

-- What has not been seen.
unseen : List Str → List Str → List Str
unseen seen [] = []
unseen seen (v ∷ values) = if mem_str v seen then unseen seen values else v ∷ unseen seen values

unseen-without :
    (seen : List Str) (v : Str) (values : List Str)
    → unseen seen (without v values) ≡ unseen (v ∷ seen) values
unfolding without unseen mem_str
unseen-without seen v [] = refl
unseen-without seen v (x ∷ values) = ground (arith, unseen-without seen v values)

mem_str-same : (v w : Str) (seen : List Str) → str_eq v w ≡ true → mem_str v seen ≡ mem_str w seen
mem_str-same v w seen h = ap (λ x. mem_str x seen) (eq_of_str_eq v w h)

-- A value that has been seen may be left out before.
unseen-without_seen :
    (seen : List Str) (v : Str) (values : List Str)
    → mem_str v seen ≡ true
    → unseen seen (without v values) ≡ unseen seen values
unfolding without unseen
unseen-without_seen seen v [] h = refl
unseen-without_seen seen v (x ∷ values) h =
    ground (arith, unseen-without_seen seen v values h, mem_str-same x v seen)

dedupe_from-first_occurrences :
    (seen values : List Str) → dedupe_from seen values ≡ unseen seen (first_occurrences values)
unfolding dedupe_from first_occurrences unseen
dedupe_from-first_occurrences seen [] = refl
dedupe_from-first_occurrences seen (v ∷ values) = elim (Bool-cases (mem_str v seen)) [
  | inl old ↦ rw old (
      dedupe_from-first_occurrences seen values
      ∙ sym (unseen-without_seen seen v (first_occurrences values) old))
  | inr new ↦ rw new (
      ap (λ x. v ∷ x)
        (dedupe_from-first_occurrences (v ∷ seen) values
          ∙ sym (unseen-without seen v (first_occurrences values))))
]

unseen-nil : (values : List Str) → unseen [] values ≡ values
unfolding unseen mem_str
unseen-nil [] = refl
unseen-nil (v ∷ values) = ap (λ x. v ∷ x) (unseen-nil values)

-- Deduplication, with its set of the values seen, keeps the first occurrence of each value, in the
-- order in which they come.
pub dedupe-first_occurrences : (values : List Str) → dedupe values ≡ first_occurrences values
unfolding dedupe
dedupe-first_occurrences values =
    dedupe_from-first_occurrences [] values ∙ unseen-nil (first_occurrences values)
