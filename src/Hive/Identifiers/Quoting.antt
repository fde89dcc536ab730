-- ===== src/Hive/Identifiers/Quoting.antt =====
-- A quoted identifier cannot be escaped from.
use etl_mcp_suite.Base.{
  ℕ, ◌≡◌, refl, ap, true, false, ◌||◌, [], ◌∷◌, ◌++◌, map, append_assoc, arith, ◌==◌, &&-eq-true,
  all, ok,
}
use etl_mcp_suite.Text.{Str, is_letter, is_digit, lower_char}
use etl_mcp_suite.Value.{Value, text}
use etl_mcp_suite.Hive.Identifiers.{HiveIdentifier, is_word, is_identifier, hive_identifier, quoted}

is_word-ne-backtick : (c : ℕ) → is_word c ≡ true → (c == b'`') ≡ false
unfolding is_word is_letter is_digit
is_word-ne-backtick c h = ground arith

pub all-is_word : (s : Str) → is_identifier s ≡ true → all is_word s ≡ true
unfolding is_identifier is_word
all-is_word [] h = refl
all-is_word (c ∷ s) h = ground arith

word-before_backtick :
    (s t x y : Str)
    → all is_word s ≡ true
    → all is_word t ≡ true
    → s ++ b'`' ∷ x ≡ t ++ b'`' ∷ y
    → (s ≡ t) × (x ≡ y)
word-before_backtick [] [] x y h k e = (refl, cc e)
word-before_backtick [] (d ∷ t) x y h k e =
    absurd (ground (arith, is_word-ne-backtick d (&&-eq-true (is_word d) _ k).0, e))
word-before_backtick (c ∷ s) [] x y h k e =
    absurd (ground (arith, is_word-ne-backtick c (&&-eq-true (is_word c) _ h).0, e))
word-before_backtick (c ∷ s) (d ∷ t) x y h k e =
    let rest : s ++ b'`' ∷ x ≡ t ++ b'`' ∷ y = cc e in
    let (same, after) =
      word-before_backtick s t x y (&&-eq-true (is_word c) _ h).1 (&&-eq-true (is_word d) _ k).1
        rest in
    (cc (e, same), after)

-- `HiveIdentifier` accepts a value only if it is a text of the pattern, and keeps that text.
pub hive_identifier-ok :
    (value : Value) (i : HiveIdentifier)
    → hive_identifier value ≡ ok i
    → (value ≡ text i.value) × (is_identifier i.value ≡ true)
unfolding hive_identifier
hive_identifier-ok (text s) i h = ground arith
hive_identifier-ok _ i h = cc

-- A text of the pattern is accepted.
pub hive_identifier_of :
    (s : Str) → is_identifier s ≡ true → hive_identifier (text s) ≡ ok (record { value = s })
unfolding hive_identifier
hive_identifier_of s h = rw h

-- The identifiers that `HiveIdentifier` accepts are quoted unambiguously: if two texts that begin with
-- quoted identifiers are equal, then the identifiers are, and so is what follows them. No part of an
-- identifier can be taken for its closing quote, whatever text comes behind it.
pub quoted_unambiguous :
    (value value' : Value) (i j : HiveIdentifier) (rest rest' : Str)
    → hive_identifier value ≡ ok i
    → hive_identifier value' ≡ ok j
    → quoted i ++ rest ≡ quoted j ++ rest'
    → (i ≡ j) × (rest ≡ rest')
unfolding quoted
quoted_unambiguous value value' i j rest rest' h k e =
    let (_, valid) = hive_identifier-ok value i h in
    let (_, valid') = hive_identifier-ok value' j k in
    let behind : i.value ++ b'`' ∷ rest ≡ j.value ++ b'`' ∷ rest' =
      cc (e, append_assoc i.value (b'`' ∷ []) rest, append_assoc j.value (b'`' ∷ []) rest') in
    let (same, after) =
      word-before_backtick i.value j.value rest rest' (all-is_word i.value valid)
        (all-is_word j.value valid') behind in
    (ap (λ v. record { value = v }) same, after)

lower_char-is_word : (c : ℕ) → is_word c ≡ true → is_word (lower_char c) ≡ true
unfolding is_word is_letter is_digit lower_char
lower_char-is_word c h = ground arith

lower_char-start :
    (c : ℕ)
    → (is_letter c || c == b'_') ≡ true
    → (is_letter (lower_char c) || lower_char c == b'_') ≡ true
unfolding is_letter lower_char
lower_char-start c h = ground arith

all-is_word-lower : (s : Str) → all is_word s ≡ true → all is_word (map lower_char s) ≡ true
all-is_word-lower [] h = refl
all-is_word-lower (c ∷ s) h =
    let (w, ws) = &&-eq-true (is_word c) _ h in rw (lower_char-is_word c w, all-is_word-lower s ws)

-- Folding the case of an identifier gives an identifier.
pub map-lower_char-is_identifier :
    (s : Str) → is_identifier s ≡ true → is_identifier (map lower_char s) ≡ true
unfolding is_identifier
map-lower_char-is_identifier [] h = h
map-lower_char-is_identifier (c ∷ s) h =
    let (w, ws) = &&-eq-true (is_letter c || c == b'_') _ h in
    rw (lower_char-start c w, all-is_word-lower s ws)

lower_char_idem : (c : ℕ) → lower_char (lower_char c) ≡ lower_char c
unfolding lower_char
lower_char_idem c = ground arith

-- Folding twice is folding once.
pub map-lower_char_idem : (s : Str) → map lower_char (map lower_char s) ≡ map lower_char s
map-lower_char_idem [] = refl
map-lower_char_idem (c ∷ s) = cc (lower_char_idem c, map-lower_char_idem s)
