-- ===== src/Zeppelin/Sql/Forbidden.antt =====
-- The forbidden keywords that the keyword checker finds.
use etl_mcp_suite.Zeppelin.Sql.{
  sql_forbidden_keyword_checker_iff, IsPermitted, sql_forbidden_keyword_checker, statements,
  leading_keyword, letters, split_from,
}
use etl_mcp_suite.Zeppelin.Validators.{ValueError}
use etl_mcp_suite.Text.{
  mem_str, lower_char, contains, upper, codes, is_space, is_letter, lstrip, Str,
}
use etl_mcp_suite.Base.{
  ℕ, ◌≡◌, refl, ap, ◌∙◌, subst, ◌≢◌, inl, inr, Bool, true, false, not, List, [], ◌∷◌, ◌++◌, map,
  append-nil, append_assoc, arith, ◌==◌, Bool-cases, &&-eq-true, all, All, all-append, err,
  Result-cases,
}
use etl_mcp_suite.Zeppelin.Sql.Plain.{is_plain, split_from-first, strip_sql_noise-plain}

-- Where a statement of a body begins: at its start, or behind a semicolon.
pub data IsStart : Str → Type 0 where
  at_start : IsStart []
  behind_semicolon : (s : Str) → IsStart (s ++ b';' ∷ [])

-- A text that does not go on with a letter.
unfoldable pub ends_word : Str → Bool
ends_word [] = true
ends_word (c ∷ s) = not (is_letter c)

split_from-append :
    (sep : ℕ) (part s r : Str)
    → split_from sep part (s ++ sep ∷ r) ≡ split_from sep part s ++ split_from sep [] r
unfolding split_from
split_from-append sep part [] r = let same : (sep == sep) ≡ true = ground arith in rw same refl
split_from-append sep part (c ∷ s) r = elim (Bool-cases (c == sep)) [
  | inl e ↦ rw e (ap (λ x. part ∷ x) (split_from-append sep [] s r))
  | inr e ↦ rw e (split_from-append sep (part ++ c ∷ []) s r)
]

pub split_from-inside :
    (sep : ℕ) (part w s : Str)
    → all (λ c. not (c == sep)) w ≡ true
    → split_from sep part (w ++ s) ≡ split_from sep (part ++ w) s
unfolding split_from
split_from-inside sep part [] s h = rw (append-nil part) refl
split_from-inside sep part (c ∷ w) s h =
    let (other, others) = &&-eq-true (not (c == sep)) _ h in
    let apart : (c == sep) ≡ false = ground arith in
    rw apart (
      split_from-inside sep (part ++ c ∷ []) w s others
      ∙ ap (λ x. split_from sep x s) (append_assoc part (c ∷ []) w))

-- What the split leaves of a text that does not go on with a letter does not either.
split_from-ends_word :
    (part s : Str)
    → ends_word s ≡ true
    → (more : Str) × (rest : List Str) × (split_from b';' part s ≡ (part ++ more) ∷ rest)
      × (ends_word more ≡ true)
unfolding split_from ends_word
split_from-ends_word part [] h = ([], [], rw (append-nil part) refl, refl)
split_from-ends_word part (c ∷ s) h = elim (Bool-cases (c == b';')) [
  | inl e ↦ ([], split_from b';' [] s, rw (e, append-nil part) refl, refl)
  | inr e ↦
      let (more, rest, split) = split_from-first b';' (part ++ c ∷ []) s in
      (c ∷ more, rest, rw e (split ∙ ap (λ x. x ∷ rest) (append_assoc part (c ∷ []) more)), h)
]

lstrip-blank : (blank s : Str) → all is_space blank ≡ true → lstrip (blank ++ s) ≡ lstrip s
unfolding lstrip
lstrip-blank [] s h = refl
lstrip-blank (c ∷ blank) s h =
    let (space, spaces) = &&-eq-true (is_space c) _ h in rw space (lstrip-blank blank s spaces)

letters-word :
    (word more : Str)
    → all is_letter word ≡ true
    → ends_word more ≡ true
    → letters (word ++ more) ≡ word
unfolding letters ends_word
letters-word [] [] h k = refl
letters-word [] (c ∷ more) h k = ground arith
letters-word (c ∷ word) more h k =
    let (letter, rest) = &&-eq-true (is_letter c) _ h in
    rw letter (ap (λ x. c ∷ x) (letters-word word more rest k))

lstrip-letter : (c : ℕ) (s : Str) → is_letter c ≡ true → lstrip (c ∷ s) ≡ c ∷ s
unfolding lstrip is_letter is_space
lstrip-letter c s h = ground arith

leading_keyword-word :
    (blank word more : Str)
    → all is_space blank ≡ true
    → all is_letter word ≡ true
    → word ≢ []
    → ends_word more ≡ true
    → leading_keyword ((blank ++ word) ++ more) ≡ upper word
unfolding leading_keyword
leading_keyword-word blank [] more b h ne k = absurd (ne refl)
leading_keyword-word blank (c ∷ word) more b h ne k =
    let stripped =
      ap lstrip (append_assoc blank (c ∷ word) more)
      ∙ lstrip-blank blank ((c ∷ word) ++ more) b
      ∙ lstrip-letter c (word ++ more) (&&-eq-true (is_letter c) _ h).0 in
    ap (λ x. upper (letters x)) stripped ∙ ap upper (letters-word (c ∷ word) more h k)

All-member :
    (P : Str → Type 0) (xs : List Str) (x : Str) (ys : List Str) → All P (xs ++ x ∷ ys) → P x
All-member P [] x ys h = h.0
All-member P (_ ∷ xs) x ys h = All-member P xs x ys h.1

-- What holds of the statements of a body holds of the first one from where a statement begins.
pub All-first :
    (P : Str → Type 0) (before body statement : Str) (rest : List Str)
    → IsStart before
    → split_from b';' [] body ≡ statement ∷ rest
    → All P (split_from b';' [] (before ++ body))
    → P statement
All-first P before body statement rest at_start split h = (subst (All P) split h).0
All-first P before body statement rest (behind_semicolon s) split h =
    let whole =
      ap (split_from b';' []) (append_assoc s (b';' ∷ []) body)
      ∙ split_from-append b';' [] s body
      ∙ ap (λ x. split_from b';' [] s ++ x) split in
    All-member P (split_from b';' [] s) statement rest (subst (All P) whole h)

is_space-no_semicolon : (c : ℕ) → is_space c ≡ true → not (c == b';') ≡ true
unfolding is_space
is_space-no_semicolon c h = ground arith

pub is_letter-no_semicolon : (c : ℕ) → is_letter c ≡ true → not (c == b';') ≡ true
unfolding is_letter
is_letter-no_semicolon c h = ground arith

pub all-weaken :
    (p q : ℕ → Bool) (s : Str)
    → ((c : ℕ) → p c ≡ true → q c ≡ true)
    → all p s ≡ true
    → all q s ≡ true
all-weaken p q [] f h = refl
all-weaken p q (c ∷ s) f h =
    let (pc, ps) = &&-eq-true (p c) _ h in rw (f c pc, all-weaken p q s f ps)

module _ (blank word after : Str) (b : all is_space blank ≡ true) (l : all is_letter word ≡ true)
    (ne : word ≢ []) (e : ends_word after ≡ true) where
  -- The statement at the start of a text.
  first_statement :
      (more : Str) × (rest : List Str) × (split_from b';' [] ((blank ++ word) ++ after)
        ≡ ((blank ++ word) ++ more) ∷ rest)
      × (ends_word more ≡ true)
  first_statement =
      let (more, rest, split, ends) = split_from-ends_word (blank ++ word) after e in
      let inside : all (λ c. not (c == b';')) (blank ++ word) ≡ true =
        all-append _ blank word
        ∙ rw
            (
              all-weaken is_space (λ c. not (c == b';')) blank is_space-no_semicolon b,
              all-weaken is_letter (λ c. not (c == b';')) word is_letter-no_semicolon l,
            )
            refl in
      (more, rest, split_from-inside b';' [] (blank ++ word) after inside ∙ split, ends)

  -- The statement is one of the body.
  word_leads :
      (P : Str → Type 0) (before : Str)
      → IsStart before
      → All P (split_from b';' [] (before ++ (blank ++ word ++ after)))
      → (statement : Str) × P statement × (leading_keyword statement ≡ upper word)
  word_leads P before start h =
      let (more, rest, split, ends) = first_statement in
      (
        (blank ++ word) ++ more,
        All-first P before (blank ++ word ++ after) ((blank ++ word) ++ more) rest start split h,
        leading_keyword-word blank word more b l ne ends,
      )

-- For an interpreter whose name contains `sql`, in any case, the keyword checker refuses a body in
-- which a forbidden keyword, in any case, is the first word of a statement: at the start of the body
-- or behind a semicolon, with any white space in front of it and no letter behind it. The body has
-- no `-`, `/` and `%`, so that nothing of it is left out as a comment or as a shebang line.
pub sql_forbidden_keyword_checker_refuses :
    (forbidden : List Str) (interpreter before blank word after : Str)
    → contains (codes "sql") (map lower_char interpreter) ≡ true
    → all is_plain (before ++ (blank ++ word ++ after)) ≡ true
    → IsStart before
    → all is_space blank ≡ true
    → all is_letter word ≡ true
    → word ≢ []
    → ends_word after ≡ true
    → mem_str (upper word) (map upper forbidden) ≡ true
    → (e : ValueError) × (sql_forbidden_keyword_checker forbidden interpreter
          (before ++ (blank ++ word ++ after))
        ≡ err e)
unfolding statements
sql_forbidden_keyword_checker_refuses forbidden interpreter before blank word after sql plain start
      b l ne ends bad =
    let body = before ++ (blank ++ word ++ after) in
    elim (Result-cases (sql_forbidden_keyword_checker forbidden interpreter body)) [
      | inr (e, h) ↦ (e, h)
      | inl (t, h) ↦
          let passed =
            subst (λ x. All (IsPermitted forbidden) (split_from b';' [] x))
              (strip_sql_noise-plain body plain)
              ((sql_forbidden_keyword_checker_iff forbidden interpreter body sql).0 h) in
          let (statement, permitted, leads) =
            word_leads blank word after b l ne ends (IsPermitted forbidden) before start passed in
          absurd (cc (permitted, leads, bad))
    ]
