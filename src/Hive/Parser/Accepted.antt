-- ===== src/Hive/Parser/Accepted.antt =====
-- What `parse_describe_rows` makes of rows that describe a table.
use etl_mcp_suite.Base.{
  ℕ, ◌+◌, ◌≤◌, ◌≡◌, refl, sym, subst, inl, inr, true, false, Option, List, [], ◌∷◌, ◌++◌,
  append-nil, append_assoc, arith, if◌then◌else◌, Bool-cases, length, length-append, ok,
}
use etl_mcp_suite.Text.{Str, codes, str_eq, eq_of_str_eq, strip, starts_with}
use etl_mcp_suite.Value.{Value, null, text}
use etl_mcp_suite.Hive.Models.{ColumnMetadata, column_metadata, is_named}
use etl_mcp_suite.Hive.Parser.{
  Described, is_blank, is_blank_text, describe_row, describe_rows, describe_cells, describe_named,
  described, not_described, parse_describe_rows, append_column, column_type, column_comment,
  row_of_length, partition_marker, column_header,
}
use etl_mcp_suite.Hive.Parser.Shape.{Numbered, IsColumn}
use etl_mcp_suite.Hive.Parser.Description.{
  IsCommentCell, absent_comment, blank_comment, given_comment, IsColumnRow, column_row, IsFiller,
  blank_row, header_row, IsMarker, marker_row, AreRowsOf, no_row, filler, column, IsDescription,
  unpartitioned, with_partitions,
}

-- A name that is no `#` heading is neither the marker nor the header.
not_heading :
    (s word : Str)
    → starts_with s (codes "#") ≡ false
    → starts_with word (codes "#") ≡ true
    → str_eq s word ≡ false
not_heading s word h w = elim (Bool-cases (str_eq s word)) [
  | inl e ↦ cc (h, w, eq_of_str_eq s word e)
  | inr e ↦ e
]

named_of : (s : Str) → is_blank_text s ≡ false → is_named s ≡ true
unfolding is_blank_text strip
named_of [] h = cc
named_of (c ∷ s) h = refl

-- The target list with one more column.
abbrev added : Described → ColumnMetadata → Described
added d c =
    if d.parsing_partitions
    then record d { partition_columns = d.partition_columns ++ c ∷ [] }
    else record d { columns = d.columns ++ c ∷ [] }

abbrev partitioned : List ColumnMetadata → List ColumnMetadata → Described
partitioned columns partition_columns = record {
  columns = columns;
  partition_columns = partition_columns;
  parsing_partitions = true;
}

abbrev next_ordinal : Described → ℕ
next_ordinal d =
    if d.parsing_partitions then length d.partition_columns + 1 else length d.columns + 1

column_comment-cell :
    (o : Option Str) (cell : Value) → IsCommentCell o cell → column_comment cell ≡ ok o
unfolding column_comment
column_comment-cell o cell absent_comment = refl
column_comment-cell o cell (blank_comment h) = rw h
column_comment-cell o cell (given_comment h) = rw h

column_metadata_self :
    (c : ColumnMetadata) (n : ℕ)
    → IsColumn c
    → c.ordinal ≡ n
    → 1 ≤ n
    → column_metadata c.name c.type c.comment n ≡ ok c
unfolding column_metadata
column_metadata_self c n v e h =
    rw (named_of c.name v.named, named_of c.type v.typed) (ground arith)

append_column-added :
    (d : Described) (c : ColumnMetadata)
    → IsColumn c
    → c.ordinal ≡ next_ordinal d
    → append_column d c.name c.type c.comment ≡ ok (added d c)
unfolding append_column
append_column-added d c v e = elim (Bool-cases d.parsing_partitions) [
  | inl p ↦ ground (arith, column_metadata_self c (length d.partition_columns + 1) v)
  | inr p ↦ ground (arith, column_metadata_self c (length d.columns + 1) v)
]

describe_row-column :
    (d : Described) (c : ColumnMetadata) (r : Value)
    → IsColumnRow c r
    → c.ordinal ≡ next_ordinal d
    → describe_row d r ≡ ok (added d c)
unfolding describe_row row_of_length describe_cells describe_named column_type starts_with
describe_row-column d c r (column_row {cell} v comment) e = rw (
  v.named,
  not_heading (strip c.name) partition_marker v.no_heading refl,
  not_heading (strip c.name) column_header v.no_heading refl,
  v.no_heading,
  v.typed,
  column_comment-cell c.comment cell comment,
  append_column-added d c v e,
)

-- A heading is not blank, and no two headings are the same.
is_blank_text-heading :
    (name word : Str)
    → str_eq (strip name) word ≡ true
    → starts_with word (codes "#") ≡ true
    → is_blank_text name ≡ false
unfolding is_blank_text starts_with
is_blank_text-heading name [] h w = cc
is_blank_text-heading name (c ∷ word) h w = rw (eq_of_str_eq (strip name) (c ∷ word) h) refl

other_heading :
    (name word other : Str)
    → str_eq (strip name) word ≡ true
    → str_eq word other ≡ false
    → str_eq (strip name) other ≡ false
other_heading name word other h w = rw (eq_of_str_eq (strip name) word h) w

describe_cells-blank :
    (d : Described) (a b c : Value)
    → is_blank a ≡ true
    → is_blank b ≡ true
    → is_blank c ≡ true
    → describe_cells d (a ∷ b ∷ c ∷ []) ≡ ok d
unfolding describe_cells is_blank
describe_cells-blank d (text s) b c h k l = rw (h, k, l)
describe_cells-blank d null b c h k l = rw (k, l)
describe_cells-blank d _ b c h k l = cc h

describe_row-filler : (d : Described) (r : Value) → IsFiller r → describe_row d r ≡ ok d
unfolding describe_row row_of_length describe_cells describe_named starts_with str_eq is_blank
describe_row-filler d r (blank_row {a} {b} {c} blank_a blank_b blank_c) =
    describe_cells-blank d a b c blank_a blank_b blank_c
describe_row-filler d r (header_row {name} {b} {c} header columns) = rw (
  is_blank_text-heading name column_header header refl,
  other_heading name column_header partition_marker header refl,
  header,
  columns,
)

describe_row-marker :
    (c : ColumnMetadata) (cs : List ColumnMetadata) (r : Value)
    → IsMarker r
    → describe_row (record not_described { columns = c ∷ cs }) r ≡ ok (partitioned (c ∷ cs) [])
unfolding describe_row row_of_length describe_cells describe_named starts_with
describe_row-marker c cs r (marker_row {name} marker blank_b blank_c) =
    rw (is_blank_text-heading name partition_marker marker refl, marker, blank_b, blank_c)

-- The rows of regular columns, before the marker.
describe_rows-columns :
    (cs before : List ColumnMetadata) (rows rest : List Value)
    → Numbered (length before + 1) cs
    → AreRowsOf cs rows
    → describe_rows (record not_described { columns = before }) (rows ++ rest)
      ≡ describe_rows (record not_described { columns = before ++ cs }) rest
unfolding describe_rows
describe_rows-columns cs before rows rest n no_row = rw (append-nil before)
describe_rows-columns cs before all_rows rest n (filler {r} {rows = rows} blank h) =
    rw (describe_row-filler (record not_described { columns = before }) r blank)
      (describe_rows-columns cs before rows rest n h)
describe_rows-columns all_cs before all_rows rest n (column {r} {c} {cs} {rows} row_of h) =
    let e = describe_row-column (record not_described { columns = before }) c r row_of n.0 in
    let n' : Numbered (length (before ++ c ∷ []) + 1) cs =
      subst (λ k. Numbered k cs) (omega (arith, length-append before (c ∷ []))) n.1 in
    rw (
      e,
      describe_rows-columns cs (before ++ c ∷ []) rows rest n' h,
      append_assoc before (c ∷ []) cs,
    )

-- The rows of partition columns, behind the marker.
describe_rows-partitions :
    (ps columns before : List ColumnMetadata) (rows : List Value)
    → Numbered (length before + 1) ps
    → AreRowsOf ps rows
    → describe_rows (partitioned columns before) rows ≡ ok (partitioned columns (before ++ ps))
unfolding describe_rows
describe_rows-partitions ps columns before rows n no_row = rw (append-nil before)
describe_rows-partitions ps columns before all_rows n (filler {r} {rows = rows} blank h) =
    rw (describe_row-filler (partitioned columns before) r blank)
      (describe_rows-partitions ps columns before rows n h)
describe_rows-partitions all_ps columns before all_rows n
      (column {r} {c = p} {cs = ps} {rows} row_of h) =
    let e = describe_row-column (partitioned columns before) p r row_of n.0 in
    let n' : Numbered (length (before ++ p ∷ []) + 1) ps =
      subst (λ k. Numbered k ps) (omega (arith, length-append before (p ∷ []))) n.1 in
    rw (
      e,
      describe_rows-partitions ps columns (before ++ p ∷ []) rows n' h,
      append_assoc before (p ∷ []) ps,
    )

-- Rows that describe a table parse to its columns: at least one regular column and any number of
-- partition columns, each numbered from 1. A column's row has its name and its type, which are not
-- blank, a name that does not begin with `#`, and a comment, for which `None` and blank texts tell of
-- none. Blank rows and headings of the columns may stand anywhere, and partition columns follow a
-- marker.
pub parse_describe_rows-description :
    (c : ColumnMetadata) (cs ps : List ColumnMetadata) (rows : List Value)
    → Numbered 1 (c ∷ cs)
    → Numbered 1 ps
    → IsDescription (c ∷ cs) ps rows
    → parse_describe_rows rows ≡ ok (c ∷ cs, ps)
unfolding parse_describe_rows described describe_rows
parse_describe_rows-description c cs [] rows n m (unpartitioned h) =
    rw (sym (append-nil rows), describe_rows-columns (c ∷ cs) [] rows [] n h)
parse_describe_rows-description c cs (p ∷ ps) rows n m
      (with_partitions {before} {after} {marker} h is_marker k) =
    rw (
      describe_rows-columns (c ∷ cs) [] before (marker ∷ after) n h,
      describe_row-marker c cs marker is_marker,
      describe_rows-partitions (p ∷ ps) (c ∷ cs) [] after m k,
    )
