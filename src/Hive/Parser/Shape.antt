-- ===== src/Hive/Parser/Shape.antt =====
-- The columns that parser.py returns.
use etl_mcp_suite.Base.{
  ℕ, suc, ◌+◌, ◌≡◌, refl, sym, ap, ◌∙◌, subst, ◌≢◌, inl, inr, true, false, ◌&&◌, ◌||◌, not, Option,
  none, some, List, [], ◌∷◌, ◌++◌, arith, leb, Bool-cases, length, is_empty, all, All, All-append,
  ok, Ensures, returns, raises, Ensures-any, of_Ensures, Ensures-if, Ensures-bind, >>=-eq-ok,
}
use etl_mcp_suite.Text.{Str, codes, str_eq, strip, starts_with}
use etl_mcp_suite.Value.{Value, null, text}
use etl_mcp_suite.Hive.Models.{is_named, ColumnMetadata, column_metadata, is_named}
use etl_mcp_suite.Hive.Parser.{
  describe_error, Described, is_blank, is_blank_text, describe_row, describe_rows, describe_cells,
  describe_named, described, not_described, parse_describe_rows, append_column, column_type,
  column_comment, is_column_header, partition_marker, column_header,
}

-- Ordinals count up from `n`.
abbrev pub Numbered : ℕ → List ColumnMetadata → Type 0
Numbered n [] = Unit
Numbered n (c ∷ cs) = (c.ordinal ≡ n) × Numbered (suc n) cs

abbrev pub IsComment : Option Str → Type 0
IsComment none = Unit
IsComment (some s) = is_blank_text s ≡ false

-- A column as it is accepted: its name and type are not blank, its name is no `#` heading, and it
-- has no blank comment.
pub record IsColumn (c : ColumnMetadata) : Type 0 where
  pub named : is_blank_text c.name ≡ false
  pub no_heading : starts_with (strip c.name) (codes "#") ≡ false
  pub typed : is_blank_text c.type ≡ false
  pub commented : IsComment c.comment

pub Numbered-append_one :
    (n : ℕ) (cs : List ColumnMetadata) (c : ColumnMetadata)
    → Numbered n cs
    → c.ordinal ≡ n + length cs
    → Numbered n (cs ++ c ∷ [])
Numbered-append_one n [] c h e = (omega arith, tt)
Numbered-append_one n (b ∷ cs) c h e = (h.0, Numbered-append_one (suc n) cs c h.1 (omega arith))

pub record IsDescribed (d : Described) : Type 0 where
  pub columns_numbered : Numbered 1 d.columns
  pub partitions_numbered : Numbered 1 d.partition_columns
  pub columns_shaped : All IsColumn d.columns
  pub partitions_shaped : All IsColumn d.partition_columns
  pub none_before_marker : d.parsing_partitions ≡ false → d.partition_columns ≡ []

-- A column as `append_column` builds it.
abbrev IsBuilt : Str → Str → Option Str → ℕ → ColumnMetadata → Type 0
IsBuilt name type comment ordinal c =
    (c.name ≡ name) × (c.type ≡ type) × (c.comment ≡ comment) × (c.ordinal ≡ ordinal)

column_metadata-IsBuilt :
    (name type : Str) (comment : Option Str) (ordinal : ℕ)
    → Ensures (IsBuilt name type comment ordinal) (column_metadata name type comment ordinal)
unfolding column_metadata
column_metadata-IsBuilt name type comment ordinal =
    Ensures-if (is_named name && is_named type && leb 1 ordinal)
      (λ h. returns (refl, refl, refl, refl)) (λ h. raises)

column_type-not_blank : (v : Value) → Ensures (λ t. is_blank_text t ≡ false) (column_type v)
unfolding column_type
column_type-not_blank (text s) = Ensures-if (is_blank_text s) (λ h. raises) (λ h. returns h)
column_type-not_blank _ = raises

column_comment-IsComment : (v : Value) → Ensures IsComment (column_comment v)
unfolding column_comment
column_comment-IsComment null = returns tt
column_comment-IsComment (text s) = elim (Bool-cases (is_blank_text s)) [
  | inl b ↦ rw b (returns tt)
  | inr b ↦ rw b (returns b)
]
column_comment-IsComment _ = raises

append_column-IsDescribed :
    (d : Described) (name type : Str) (comment : Option Str)
    → IsDescribed d
    → is_blank_text name ≡ false
    → starts_with (strip name) (codes "#") ≡ false
    → is_blank_text type ≡ false
    → IsComment comment
    → Ensures IsDescribed (append_column d name type comment)
unfolding append_column
append_column-IsDescribed d name type comment v a b c e =
    let built = λ (x : ColumnMetadata) (n : ℕ) (h : IsBuilt name type comment n x).
      let y : IsColumn x = record {
        named = rw (h.0) a;
        no_heading = rw (h.0) b;
        typed = rw (h.1) c;
        commented = subst IsComment (sym h.2) e;
      } in
      y in
    Ensures-if d.parsing_partitions
      (λ p. Ensures-bind (column_metadata-IsBuilt name type comment _) (λ x h. returns (record {
        columns_numbered = v.columns_numbered;
        partitions_numbered =
            Numbered-append_one 1 d.partition_columns x v.partitions_numbered (omega (arith, h.3));
        columns_shaped = v.columns_shaped;
        partitions_shaped =
            All-append IsColumn d.partition_columns (x ∷ []) v.partitions_shaped (built x _ h, tt);
        none_before_marker = λ q. absurd (ground arith);
      })))
      (λ p. Ensures-bind (column_metadata-IsBuilt name type comment _) (λ x h. returns (record {
        columns_numbered =
            Numbered-append_one 1 d.columns x v.columns_numbered (omega (arith, h.3));
        partitions_numbered = v.partitions_numbered;
        columns_shaped = All-append IsColumn d.columns (x ∷ []) v.columns_shaped (built x _ h, tt);
        partitions_shaped = v.partitions_shaped;
        none_before_marker = v.none_before_marker;
      })))

describe_named-IsDescribed :
    (d : Described) (name : Str) (type comment : Value)
    → IsDescribed d
    → is_blank_text name ≡ false
    → Ensures IsDescribed (describe_named d name type comment)
unfolding describe_named
describe_named-IsDescribed d name type comment v named =
    Ensures-if (str_eq (strip name) partition_marker)
      (λ marker.
        Ensures-if
          (d.parsing_partitions || is_empty d.columns || not (is_blank type && is_blank comment))
          (λ bad. raises)
          (λ fine. returns {a = record d { parsing_partitions = true }} (record {
            columns_numbered = v.columns_numbered;
            partitions_numbered = v.partitions_numbered;
            columns_shaped = v.columns_shaped;
            partitions_shaped = v.partitions_shaped;
            none_before_marker = λ q. cc q;
          })))
      (λ _.
        Ensures-if (str_eq (strip name) column_header)
          (λ header.
            Ensures-if (not (is_column_header type comment)) (λ bad. raises) (λ fine. returns v))
          (λ _.
            Ensures-if (starts_with (strip name) (codes "#")) (λ bad. raises)
              (λ no_heading. Ensures-bind (column_type-not_blank type) (λ t typed.
                Ensures-bind (column_comment-IsComment comment) (λ c commented.
                  append_column-IsDescribed d name t c v named no_heading typed commented)))))

describe_cells-IsDescribed :
    (d : Described) (cells : List Value)
    → IsDescribed d
    → Ensures IsDescribed (describe_cells d cells)
unfolding describe_cells
describe_cells-IsDescribed d (text name ∷ type ∷ comment ∷ []) v =
    Ensures-if (is_blank_text name)
      (λ blank. Ensures-if (is_blank type && is_blank comment) (λ _. returns v) (λ _. raises))
      (λ named. describe_named-IsDescribed d name type comment v named)
describe_cells-IsDescribed d cells v =
    Ensures-if (all is_blank cells) (λ _. returns v) (λ _. raises {e = describe_error})

describe_rows-IsDescribed :
    (rows : List Value) (d : Described) → IsDescribed d → Ensures IsDescribed (describe_rows d rows)
unfolding describe_rows describe_row
describe_rows-IsDescribed [] d v = returns v
describe_rows-IsDescribed (row ∷ rows) d v =
    Ensures-bind (Ensures-bind (Ensures-any _) (λ cells _. describe_cells-IsDescribed d cells v))
      (λ d' v'. describe_rows-IsDescribed rows d' v')

described-ok :
    (d : Described) (columns partition_columns : List ColumnMetadata)
    → described d ≡ ok (columns, partition_columns)
    → (columns ≢ []) × (d.columns ≡ columns) × (d.partition_columns ≡ partition_columns)
unfolding described
described-ok d columns partition_columns h =
    let same : (d.columns ≡ columns) × (d.partition_columns ≡ partition_columns) = ground arith in
    let full : is_empty d.columns ≡ false = ground arith in
    (λ e. cc (full, ap is_empty (same.0 ∙ e)), same.0, same.1)

-- A description that is returned has at least one regular column. The ordinals of the regular
-- columns count up from 1, and so do those of the partition columns; every column has a name and a
-- type that are not blank, no name that begins with `#`, and no blank comment.
pub parse_describe_rows-shape :
    (rows : List Value) (columns partition_columns : List ColumnMetadata)
    → parse_describe_rows rows ≡ ok (columns, partition_columns)
    → (columns ≢ [])
      × Numbered 1 columns
      × Numbered 1 partition_columns
      × All IsColumn columns
      × All IsColumn partition_columns
unfolding parse_describe_rows described
parse_describe_rows-shape rows columns partition_columns h =
    let start : IsDescribed not_described = record {
      columns_numbered = tt;
      partitions_numbered = tt;
      columns_shaped = tt;
      partitions_shaped = tt;
      none_before_marker = λ _. refl;
    } in
    let (d, e, done) = >>=-eq-ok (describe_rows not_described rows) _ h in
    let v = of_Ensures (describe_rows-IsDescribed rows not_described start) e in
    let (full, same, same') = described-ok d columns partition_columns done in
    (
      full,
      subst (Numbered 1) same v.columns_numbered,
      subst (Numbered 1) same' v.partitions_numbered,
      subst (All IsColumn) same v.columns_shaped,
      subst (All IsColumn) same' v.partitions_shaped,
    )
