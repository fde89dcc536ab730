-- ===== src/Hive/Parser.antt =====
-- src/mcp_stdio/plugins/hive/parser.py: rows of `DESCRIBE` and of `SHOW CREATE TABLE`.
pub mod Shape
pub mod Description
pub mod Accepted
pub mod Ddl
use etl_mcp_suite.Base.{
  ℕ, zero, suc, ◌+◌, ◌-◌, ◌*◌, ◌/◌, ◌%◌, ◌^◌, ◌≤◌, ◌<◌, min, ◌≡◌, refl, sym, ap, ◌∙◌, subst, ◌≢◌,
  ◌↔◌, ◌⊎◌, inl, inr, Bool, true, false, ◌&&◌, ◌||◌, not, Option, none, some, List, [], ◌∷◌, ◌++◌,
  map, foldl, append-nil, append_assoc, arith, ltb, leb, ◌==◌, if◌then◌else◌, ltb→lt, lt→ltb,
  leb→le, ==_iff, tests, Bool-cases, Option-cases, &&-eq-true, ||-eq-false, length, take, drop,
  is_empty, any, all, filter, All, length-append, length-take-le, all-append, All-append, All-map,
  All-filter, length-filter-le, Result, ok, err, ◌>>=◌, ◌>>◌, raise_if, Result-cases, >>=-eq-ok,
}
use etl_mcp_suite.Text.{Str, codes, str_eq, strip, starts_with, join}
use etl_mcp_suite.Value.{
  Value, null, boolean, integer, text, binary, sequence, mapping, opaque, items,
}
use etl_mcp_suite.Hive.Models.{
  ResponseKind, Exception, hive_response_shape_error, ColumnMetadata, column_metadata,
}

abbrev pub partition_marker : Str
partition_marker = codes "# Partition Information"

abbrev pub column_header : Str
column_header = codes "# col_name"

abbrev pub describe_error : Exception
describe_error = hive_response_shape_error ResponseKind.describe

-- `_row_of_length`
unfoldable pub row_of_length : Value → ℕ → ResponseKind → Result Exception (List Value)
row_of_length (sequence row) n kind =
    if length (items row) == n then ok (items row) else err (hive_response_shape_error kind)
row_of_length _ n kind = err (hive_response_shape_error kind)

-- `not s.strip()`
unfoldable pub is_blank_text : Str → Bool
is_blank_text s = is_empty (strip s)

-- `_is_blank`
unfoldable pub is_blank : Value → Bool
unfolding is_blank_text
is_blank null = true
is_blank (text s) = is_blank_text s
is_blank _ = false

-- `isinstance(value, str) and value.strip() == word`
unfoldable pub strips_to : Str → Value → Bool
strips_to word (text s) = str_eq (strip s) word
strips_to word _ = false

-- `_is_column_header`, on the row's second and third cell.
unfoldable pub is_column_header : Value → Value → Bool
is_column_header data_type comment =
    strips_to (codes "data_type") data_type
    && (is_blank comment || strips_to (codes "comment") comment)

-- The variables of the loop of `parse_describe_rows`.
pub record Described : Type 0 where
  pub columns : List ColumnMetadata
  pub partition_columns : List ColumnMetadata
  pub parsing_partitions : Bool

-- `None if raw_comment is None or not raw_comment.strip() else raw_comment`, for a comment that is
-- `None` or a text.
unfoldable pub column_comment : Value → Result Exception (Option Str)
column_comment null = ok none
column_comment (text s) = ok (if is_blank_text s then none else some s)
column_comment _ = err describe_error

-- A type that is a text and not blank.
unfoldable pub column_type : Value → Result Exception Str
column_type (text s) = if is_blank_text s then err describe_error else ok s
column_type _ = err describe_error

-- `target.append(ColumnMetadata(…))`
unfoldable pub append_column : Described → Str → Str → Option Str → Result Exception Described
append_column d name type comment =
    if d.parsing_partitions
    then (do
      column ← column_metadata name type comment (length d.partition_columns + 1)
      ok (record d { partition_columns = d.partition_columns ++ column ∷ [] }))
    else (do
      column ← column_metadata name type comment (length d.columns + 1)
      ok (record d { columns = d.columns ++ column ∷ [] }))

-- A row whose first cell is the text `raw_name`, not blank.
unfoldable pub describe_named : Described → Str → Value → Value → Result Exception Described
describe_named d raw_name raw_type raw_comment =
    let normalized_name = strip raw_name in
    if str_eq normalized_name partition_marker
    then (if d.parsing_partitions
          || is_empty d.columns
          || not (is_blank raw_type && is_blank raw_comment)
        then err describe_error
        else ok (record d { parsing_partitions = true }))
    else if str_eq normalized_name column_header
    then (if not (is_column_header raw_type raw_comment) then err describe_error else ok d)
    else if starts_with normalized_name (codes "#")
    then err describe_error
    else (do
      type ← column_type raw_type
      comment ← column_comment raw_comment
      append_column d raw_name type comment)

unfoldable pub describe_cells : Described → List Value → Result Exception Described
describe_cells d (text raw_name ∷ raw_type ∷ raw_comment ∷ []) =
    if is_blank_text raw_name
    then (if is_blank raw_type && is_blank raw_comment then ok d else err describe_error)
    else describe_named d raw_name raw_type raw_comment
describe_cells d cells = if all is_blank cells then ok d else err describe_error

-- One round of the loop.
unfoldable pub describe_row : Described → Value → Result Exception Described
describe_row d raw_row = do
  row ← row_of_length raw_row 3 ResponseKind.describe
  describe_cells d row

unfoldable pub describe_rows : Described → List Value → Result Exception Described
describe_rows d [] = ok d
describe_rows d (row ∷ rows) = describe_row d row >>= λ d'. describe_rows d' rows

abbrev pub not_described : Described
not_described = record { columns = []; partition_columns = []; parsing_partitions = false }

-- The test after the loop.
unfoldable pub described : Described → Result Exception (List ColumnMetadata × List ColumnMetadata)
described d =
    if is_empty d.columns || (d.parsing_partitions && is_empty d.partition_columns)
    then err describe_error
    else ok (d.columns, d.partition_columns)

unfoldable pub parse_describe_rows :
    List Value → Result Exception (List ColumnMetadata × List ColumnMetadata)
unfolding described
parse_describe_rows rows = describe_rows not_described rows >>= described

abbrev pub ddl_error : Exception
ddl_error = hive_response_shape_error ResponseKind.show_create_table

-- `row[0]`, a text that is not blank.
unfoldable pub ddl_cell : List Value → Result Exception Str
ddl_cell (text s ∷ _) = if is_blank_text s then err ddl_error else ok s
ddl_cell _ = err ddl_error

-- The loop of `parse_show_create_rows`.
unfoldable pub ddl_parts : List Value → Result Exception (List Str)
ddl_parts [] = ok []
ddl_parts (raw_row ∷ rows) = do
  row ← row_of_length raw_row 1 ResponseKind.show_create_table
  part ← ddl_cell row
  rest ← ddl_parts rows
  ok (part ∷ rest)

unfoldable pub parse_show_create_rows : List Value → Result Exception Str
parse_show_create_rows rows = do
  parts ← ddl_parts rows
  if is_empty parts then err ddl_error else ok (join (10 ∷ []) parts)
