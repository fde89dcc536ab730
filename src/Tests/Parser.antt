-- ===== src/Tests/Parser.antt =====
-- Runs of parser.py, and its theorems at concrete inputs.
use etl_mcp_suite.Base.{◌≡◌, refl, ◌≢◌, ◌↔◌, none, some, List, [], ◌∷◌, map, All, ok, err}
use etl_mcp_suite.Text.{codes, Str, join, str_eq, strip, is_space, starts_with}
use etl_mcp_suite.Value.{Value, text}
use etl_mcp_suite.Hive.Models.{ColumnMetadata, column_metadata}
use etl_mcp_suite.Hive.Parser.{
  parse_describe_rows, parse_show_create_rows, describe_error, describe_rows, describe_row,
  row_of_length, describe_cells, describe_named, is_blank, strips_to, is_column_header, column_type,
  column_comment, append_column, described, is_blank_text, ddl_parts, ddl_cell,
}
use etl_mcp_suite.Hive.Parser.Shape.{Numbered, IsColumn, parse_describe_rows-shape}
use etl_mcp_suite.Hive.Parser.Description.{
  row, blank_comment, given_comment, column_row, blank_row, header_row, marker_row, no_row, filler,
  column, IsDescription, with_partitions,
}
use etl_mcp_suite.Hive.Parser.Accepted.{parse_describe_rows-description}
use etl_mcp_suite.Hive.Parser.Ddl.{ddl_row, IsPart, parse_show_create_rows_iff}

program : Unit {0}
unfolding str_eq strip is_space starts_with column_metadata parse_describe_rows describe_rows
    describe_row row_of_length describe_cells describe_named is_blank is_column_header column_type
    column_comment append_column described is_blank_text ddl_parts ddl_cell parse_show_create_rows
    strips_to
program = tt

abbrev id_column : ColumnMetadata
id_column = record { name = codes "id"; type = codes "bigint"; comment = none; ordinal = 1 }

abbrev day_column : ColumnMetadata
day_column = record {
  name = codes "day";
  type = codes "string";
  comment = some (codes "UTC");
  ordinal = 1;
}

id_column-IsColumn : IsColumn id_column
unfolding program
id_column-IsColumn = record { named = refl; no_heading = refl; typed = refl; commented = tt }

day_column-IsColumn : IsColumn day_column
unfolding program
day_column-IsColumn = record { named = refl; no_heading = refl; typed = refl; commented = refl }

-- The rows of tests/unit/plugins/hive/test_parser.py, with one partition column.
abbrev partitioned_rows : List Value
partitioned_rows =
    row (text (codes "id")) (text (codes "bigint")) (text [])
    ∷ row (text (codes "# Partition Information")) (text []) (text [])
    ∷ row (text []) (text []) (text [])
    ∷ row (text (codes "# col_name")) (text (codes "data_type")) (text (codes "comment"))
    ∷ row (text (codes "day")) (text (codes "string")) (text (codes "UTC"))
    ∷ []

parse_partitioned : parse_describe_rows partitioned_rows ≡ ok (id_column ∷ [], day_column ∷ [])
unfolding program
parse_partitioned = refl

parse_nothing : parse_describe_rows [] ≡ err describe_error
unfolding program
parse_nothing = refl

parse_describe_rows-shape_example :
    ((id_column ∷ []) ≢ [])
    × Numbered 1 (id_column ∷ [])
    × Numbered 1 (day_column ∷ [])
    × All IsColumn (id_column ∷ [])
    × All IsColumn (day_column ∷ [])
parse_describe_rows-shape_example =
    parse_describe_rows-shape partitioned_rows (id_column ∷ []) (day_column ∷ []) parse_partitioned

partitioned_rows-IsDescription : IsDescription (id_column ∷ []) (day_column ∷ []) partitioned_rows
unfolding program
partitioned_rows-IsDescription =
    with_partitions (column (column_row id_column-IsColumn (blank_comment refl)) no_row)
      (marker_row refl refl refl)
      (filler (blank_row refl refl refl) (
        filler (header_row refl refl)
          (column (column_row day_column-IsColumn (given_comment refl)) no_row)))

parse_describe_rows-description_example :
    parse_describe_rows partitioned_rows ≡ ok (id_column ∷ [], day_column ∷ [])
parse_describe_rows-description_example =
    parse_describe_rows-description id_column [] (day_column ∷ []) partitioned_rows (refl, tt)
      (refl, tt) partitioned_rows-IsDescription

parse_show_create_rows_iff_example :
    (parse_show_create_rows (ddl_row (codes "CREATE") ∷ []) ≡ ok (codes "CREATE")) ↔ (
      (parts : List Str) × ((ddl_row (codes "CREATE") ∷ []) ≡ map ddl_row parts)
      × All IsPart parts
      × (parts ≢ [])
      × (codes "CREATE" ≡ join (10 ∷ []) parts))
parse_show_create_rows_iff_example =
    parse_show_create_rows_iff (ddl_row (codes "CREATE") ∷ []) (codes "CREATE")
