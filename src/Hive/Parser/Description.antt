-- ===== src/Hive/Parser/Description.antt =====
-- What rows of `DESCRIBE` tell of a table: its columns, and the fillers between them.
use etl_mcp_suite.Base.{◌≡◌, true, false, Option, none, some, List, [], ◌∷◌, ◌++◌}
use etl_mcp_suite.Text.{Str, str_eq, strip}
use etl_mcp_suite.Value.{Value, null, text, sequence, nil, cons}
use etl_mcp_suite.Hive.Models.{ColumnMetadata}
use etl_mcp_suite.Hive.Parser.{
  is_blank, is_blank_text, is_column_header, partition_marker, column_header,
}
use etl_mcp_suite.Hive.Parser.Shape.{IsColumn}

abbrev pub row : Value → Value → Value → Value
row a b c = sequence (cons a (cons b (cons c nil)))

-- How a cell tells of a comment: `None` and a blank text tell of none.
pub data IsCommentCell : Option Str → Value → Type 0 where
  absent_comment : IsCommentCell none null
  blank_comment : {s : Str} → is_blank_text s ≡ true → IsCommentCell none (text s)
  given_comment : {s : Str} → is_blank_text s ≡ false → IsCommentCell (some s) (text s)

-- The row of a column.
pub data IsColumnRow (c : ColumnMetadata) : Value → Type 0 where
  column_row :
      {cell : Value}
      → IsColumn c
      → IsCommentCell c.comment cell
      → IsColumnRow c (row (text c.name) (text c.type) cell)

-- A row that tells of no column: blank, or a heading of the columns.
pub data IsFiller : Value → Type 0 where
  blank_row :
      {a b c : Value}
      → is_blank a ≡ true
      → is_blank b ≡ true
      → is_blank c ≡ true
      → IsFiller (row a b c)
  header_row :
      {name : Str} {b c : Value}
      → str_eq (strip name) column_header ≡ true
      → is_column_header b c ≡ true
      → IsFiller (row (text name) b c)

-- The row in front of the partition columns.
pub data IsMarker : Value → Type 0 where
  marker_row :
      {name : Str} {b c : Value}
      → str_eq (strip name) partition_marker ≡ true
      → is_blank b ≡ true
      → is_blank c ≡ true
      → IsMarker (row (text name) b c)

-- Rows that tell of some columns, in their order, with any fillers between them.
pub data AreRowsOf : List ColumnMetadata → List Value → Type 0 where
  no_row : AreRowsOf [] []
  filler :
      {r : Value} {cs : List ColumnMetadata} {rows : List Value}
      → IsFiller r
      → AreRowsOf cs rows
      → AreRowsOf cs (r ∷ rows)
  column :
      {r : Value} {c : ColumnMetadata} {cs : List ColumnMetadata} {rows : List Value}
      → IsColumnRow c r
      → AreRowsOf cs rows
      → AreRowsOf (c ∷ cs) (r ∷ rows)

-- Rows that describe a table: those of its columns, and, if it has partition columns, the marker and
-- the rows of these.
pub data IsDescription (cs : List ColumnMetadata) : List ColumnMetadata → List Value → Type 0 where
  unpartitioned : {rows : List Value} → AreRowsOf cs rows → IsDescription cs [] rows
  with_partitions :
      {p : ColumnMetadata} {ps : List ColumnMetadata} {before after : List Value} {marker : Value}
      → AreRowsOf cs before
      → IsMarker marker
      → AreRowsOf (p ∷ ps) after
      → IsDescription cs (p ∷ ps) (before ++ marker ∷ after)
