-- ===== src/Zeppelin/Sql/Plain.antt =====
-- The texts that lose nothing to `_strip_sql_noise`.
use etl_mcp_suite.Zeppelin.Sql.{
  outside, without_shebang, strip_sql_noise, split_from, without_block_comments,
  without_line_comments,
}
use etl_mcp_suite.Text.{codes, starts_with, join, lstrip, Str}
use etl_mcp_suite.Base.{
  ℕ, ◌≡◌, refl, sym, ap, ◌∙◌, inl, inr, Bool, true, false, ◌||◌, not, List, [], ◌∷◌, ◌++◌, map,
  append-nil, append_assoc, arith, ◌==◌, Bool-cases, &&-eq-true, all, all-append,
}

-- A character that begins no comment and no shebang line.
unfoldable pub is_plain : ℕ → Bool
is_plain c = not (c == b'-' || c == b'/' || c == b'%')

without_line_comments-plain : (s : Str) → all is_plain s ≡ true → without_line_comments false s ≡ s
unfolding without_line_comments is_plain starts_with
without_line_comments-plain [] h = refl
without_line_comments-plain (c ∷ s) h =
    ground (arith, without_line_comments-plain s (&&-eq-true (is_plain c) _ h).1)

without_block_comments-plain :
    (s : Str) → all is_plain s ≡ true → without_block_comments outside s ≡ s
unfolding without_block_comments is_plain starts_with
without_block_comments-plain [] h = refl
without_block_comments-plain (c ∷ s) h =
    ground (arith, without_block_comments-plain s (&&-eq-true (is_plain c) _ h).1)

lstrip-plain : (s : Str) → all is_plain s ≡ true → starts_with (lstrip s) (codes "%") ≡ false
unfolding lstrip is_plain starts_with
lstrip-plain [] h = refl
lstrip-plain (c ∷ s) h = ground (arith, lstrip-plain s (&&-eq-true (is_plain c) _ h).1)

-- The first part of a split begins with what has been read.
pub split_from-first :
    (sep : ℕ) (part s : Str)
    → (more : Str) × (rest : List Str) × (split_from sep part s ≡ (part ++ more) ∷ rest)
unfolding split_from
split_from-first sep part [] = ([], [], rw (append-nil part) refl)
split_from-first sep part (c ∷ s) = elim (Bool-cases (c == sep)) [
  | inl e ↦ ([], split_from sep [] s, rw (e, append-nil part) refl)
  | inr e ↦
      let (more, rest, split) = split_from-first sep (part ++ c ∷ []) s in
      (c ∷ more, rest, rw e (split ∙ ap (λ x. x ∷ rest) (append_assoc part (c ∷ []) more)))
]

-- The lines of a plain text are joined to the text again.
lines-plain :
    (part s : Str)
    → all is_plain part ≡ true
    → all is_plain s ≡ true
    → join (10 ∷ []) (map without_shebang (split_from 10 part s)) ≡ part ++ s
unfolding split_from join
lines-plain part [] h k = rw (lstrip-plain part h, append-nil part) refl
lines-plain part (c ∷ s) h k = elim (Bool-cases (c == 10)) [
  | inl e ↦
      let (_, ks) = &&-eq-true (is_plain c) _ k in
      let (more, rest, split) = split_from-first 10 [] s in
      let line : c ≡ 10 = ground arith in
      let later : join (10 ∷ []) (map without_shebang (more ∷ rest)) ≡ s =
        ap (λ x. join (10 ∷ []) (map without_shebang x)) (sym split) ∙ lines-plain [] s refl ks in
      rw (e, split, lstrip-plain part h)
        (ap (λ x. part ++ 10 ∷ x) later ∙ ap (λ x. part ++ x ∷ s) (sym line))
  | inr e ↦
      let (plain, ks) = &&-eq-true (is_plain c) _ k in
      let read : all is_plain (part ++ c ∷ []) ≡ true =
        all-append is_plain part (c ∷ []) ∙ rw (h, plain) refl in
      rw e (lines-plain (part ++ c ∷ []) s read ks ∙ append_assoc part (c ∷ []) s)
]

pub strip_sql_noise-plain : (s : Str) → all is_plain s ≡ true → strip_sql_noise s ≡ s
unfolding strip_sql_noise
strip_sql_noise-plain s h =
    rw (without_line_comments-plain s h, without_block_comments-plain s h) (lines-plain [] s refl h)
