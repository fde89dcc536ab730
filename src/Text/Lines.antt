-- ===== src/Text/Lines.antt =====
-- Python's `str.splitlines`, the first word of `str.split`, `str.upper` and the size in UTF-8.
use etl_mcp_suite.Base.{
  ◌-◌, ℕ, ◌+◌, Bool, false, ◌&&◌, ◌||◌, Option, none, some, List, [], ◌∷◌, ◌++◌, ltb, leb, ◌==◌,
  if◌then◌else◌,
}
use etl_mcp_suite.Text.Defs.{Str, codes, is_space}

-- What ends a line for `splitlines`.
unfoldable pub is_line_break : ℕ → Bool
is_line_break c =
    (leb 10 c && leb c 13) || (leb 28 c && leb c 30) || c == 0x85 || c == 0x2028 || c == 0x2029

abbrev before_lines : ℕ → List Str → List Str
before_lines c [] = (c ∷ []) ∷ []
before_lines c (line ∷ lines) = (c ∷ line) ∷ lines

-- The lines of the rest of a text; a line feed directly after a carriage return ends no line.
unfoldable pub lines_from : Bool → Str → List Str
unfolding is_line_break
lines_from after_return [] = []
lines_from after_return (c ∷ s) =
    if after_return && c == 10
    then lines_from false s
    else if is_line_break c
    then [] ∷ lines_from (c == 13) s
    else before_lines c (lines_from false s)

-- `s.splitlines()`
unfoldable pub splitlines : Str → List Str
unfolding lines_from
splitlines s = lines_from false s

-- `s.split()[0]`, for a text that starts with no space.
unfoldable pub first_word : Str → Str
first_word [] = []
first_word (c ∷ s) = if is_space c then [] else c ∷ first_word s

-- The upper case of a character, exact where it is ASCII: what has another upper case, none of it
-- ASCII, is left as it is, so that tests against ASCII text give what they give in Python.
unfoldable pub upper_char : ℕ → Str
upper_char c =
    if leb 0x61 c && leb c 0x7a
    then (c - 32) ∷ []
    else if c == 0xdf
    then codes "SS"
    else if c == 0x131
    then codes "I"
    else if c == 0x17f
    then codes "S"
    else if c == 0xfb00
    then codes "FF"
    else if c == 0xfb01
    then codes "FI"
    else if c == 0xfb02
    then codes "FL"
    else if c == 0xfb03
    then codes "FFI"
    else if c == 0xfb04
    then codes "FFL"
    else if c == 0xfb05 || c == 0xfb06
    then codes "ST"
    else c ∷ []

-- `s.upper()`, compared with ASCII text.
unfoldable pub upper : Str → Str
unfolding upper_char
upper [] = []
upper (c ∷ s) = upper_char c ++ upper s

-- The bytes of a character in UTF-8; a surrogate has none.
unfoldable pub char_size : ℕ → Option ℕ
char_size c =
    if ltb c 0x80
    then some 1
    else if ltb c 0x800
    then some 2
    else if leb 0xd800 c && leb c 0xdfff
    then none
    else if ltb c 0x10000
    then some 3
    else some 4

abbrev add_sizes : Option ℕ → Option ℕ → Option ℕ
add_sizes (some m) (some n) = some (m + n)
add_sizes _ _ = none

-- `len(s.encode("utf-8"))`, and `none` where `encode` raises.
unfoldable pub encoded_length : Str → Option ℕ
unfolding char_size
encoded_length [] = some 0
encoded_length (c ∷ s) = add_sizes (char_size c) (encoded_length s)
