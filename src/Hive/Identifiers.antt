-- ===== src/Hive/Identifiers.antt =====
-- src/mcp_stdio/plugins/hive/identifiers.py
pub mod Quoting
use etl_mcp_suite.Base.{
  ℕ, zero, suc, ◌+◌, ◌-◌, ◌*◌, ◌/◌, ◌%◌, ◌^◌, ◌≤◌, ◌<◌, min, ◌≡◌, refl, sym, ap, ◌∙◌, subst, ◌≢◌,
  ◌↔◌, ◌⊎◌, inl, inr, Bool, true, false, ◌&&◌, ◌||◌, not, Option, none, some, List, [], ◌∷◌, ◌++◌,
  map, foldl, append-nil, append_assoc, arith, ltb, leb, ◌==◌, if◌then◌else◌, ltb→lt, lt→ltb,
  leb→le, ==_iff, tests, Bool-cases, Option-cases, &&-eq-true, ||-eq-false, length, take, drop,
  is_empty, any, all, filter, All, length-append, length-take-le, all-append, All-append, All-map,
  All-filter, length-filter-le, Result, ok, err, ◌>>=◌, ◌>>◌, raise_if, Result-cases, >>=-eq-ok,
}
use etl_mcp_suite.Text.{Str, is_letter, is_digit}
use etl_mcp_suite.Value.{Value, null, boolean, integer, text, binary, sequence, mapping, opaque}

-- `[A-Za-z0-9_]`
unfoldable pub is_word : ℕ → Bool
unfolding is_letter is_digit
is_word c = is_letter c || is_digit c || c == b'_'

-- `_HIVE_IDENTIFIER.fullmatch(value)`: `[A-Za-z_][A-Za-z0-9_]*\Z`
unfoldable pub is_identifier : Str → Bool
unfolding is_word
is_identifier [] = false
is_identifier (c ∷ s) = (is_letter c || c == b'_') && all is_word s

pub data ValueError : Type 0 where
  value_error : ValueError

pub record HiveIdentifier : Type 0 where
  pub value : Str

-- `HiveIdentifier(value)` with its `__post_init__`.
unfoldable pub hive_identifier : Value → Result ValueError HiveIdentifier
unfolding is_identifier
hive_identifier (text value) =
    if is_identifier value then ok (record { value = value }) else err value_error
hive_identifier _ = err value_error

-- `HiveIdentifier.quoted`
unfoldable pub quoted : HiveIdentifier → Str
quoted i = b'`' ∷ i.value ++ b'`' ∷ []
