-- ===== src/Hive/Parser/Ddl.antt =====
-- What `parse_show_create_rows` accepts, and what it makes of it.
use etl_mcp_suite.Base.{
  ◌≡◌, refl, sym, ◌∙◌, subst, ◌≢◌, ◌↔◌, inl, inr, false, List, [], ◌∷◌, map, arith, if◌then◌else◌,
  is_empty, All, Result, ok, err, ◌>>=◌, Result-cases, >>=-eq-ok,
}
use etl_mcp_suite.Text.{Str, join}
use etl_mcp_suite.Value.{Value, text, sequence, nil, cons}
use etl_mcp_suite.Hive.Models.{Exception, ResponseKind}
use etl_mcp_suite.Hive.Parser.{
  is_blank_text, row_of_length, ddl_cell, ddl_parts, ddl_error, parse_show_create_rows,
}

abbrev pub ddl_row : Str → Value
ddl_row s = sequence (cons (text s) nil)

abbrev pub IsPart : Str → Type 0
IsPart s = is_blank_text s ≡ false

-- One row, read as the loop reads it.
pub ddl_row_cell : Value → Result Exception Str
ddl_row_cell raw_row = row_of_length raw_row 1 ResponseKind.show_create_table >>= ddl_cell

-- A row is read only if it is one text that is not blank.
ddl_row_cell-ok : (v : Value) (s : Str) → ddl_row_cell v ≡ ok s → (v ≡ ddl_row s) × IsPart s
unfolding ddl_row_cell row_of_length ddl_cell
ddl_row_cell-ok (sequence nil) s h = cc
ddl_row_cell-ok (sequence (cons (text t) nil)) s h = ground arith
ddl_row_cell-ok (sequence (cons v nil)) s h = cc
ddl_row_cell-ok (sequence (cons v (cons w xs))) s h = ground arith
ddl_row_cell-ok _ s h = cc

ddl_row_cell-part : (s : Str) → IsPart s → ddl_row_cell (ddl_row s) ≡ ok s
unfolding ddl_row_cell row_of_length ddl_cell
ddl_row_cell-part s h = rw h

ddl_parts-cons :
    (v : Value) (rows : List Value)
    → ddl_parts (v ∷ rows)
      ≡ (ddl_row_cell v >>= λ part. ddl_parts rows >>= λ rest. ok (part ∷ rest))
unfolding ddl_parts ddl_row_cell
ddl_parts-cons v rows = elim (Result-cases (row_of_length v 1 ResponseKind.show_create_table)) [
  | inl (a, e) ↦ rw e
  | inr (a, e) ↦ rw e
]

ddl_parts-ok :
    (rows : List Value) (parts : List Str)
    → ddl_parts rows ≡ ok parts
    → (rows ≡ map ddl_row parts) × All IsPart parts
unfolding ddl_parts
ddl_parts-ok [] parts h =
    let e : ◌≡◌ {A = List Str} [] parts = cc h in
    subst (λ ps. ◌≡◌ {A = List Value} [] (map ddl_row ps) × All IsPart ps) e (refl, tt)
ddl_parts-ok (v ∷ rows) parts h =
    let (part, e, more) = >>=-eq-ok (ddl_row_cell v) _ (sym (ddl_parts-cons v rows) ∙ h) in
    let (rest, e', done) = >>=-eq-ok (ddl_parts rows) _ more in
    let (one, shaped) = ddl_row_cell-ok v part e in
    let (many, all_shaped) = ddl_parts-ok rows rest e' in
    let ends : part ∷ rest ≡ parts = cc done in
    subst (λ ps. ((v ∷ rows) ≡ map ddl_row ps) × All IsPart ps) ends
      (cc (one, many), (shaped, all_shaped))

ddl_parts-map : (parts : List Str) → All IsPart parts → ddl_parts (map ddl_row parts) ≡ ok parts
unfolding ddl_parts
ddl_parts-map [] h = refl
ddl_parts-map (s ∷ parts) h =
    ddl_parts-cons (ddl_row s) (map ddl_row parts)
    ∙ rw (ddl_row_cell-part s h.0, ddl_parts-map parts h.1)

-- The test after the loop.
abbrev joined : List Str → Result Exception Str
joined parts = if is_empty parts then err ddl_error else ok (join (10 ∷ []) parts)

joined_parts :
    (parts : List Str) (ddl : Str)
    → joined parts ≡ ok ddl
    → (parts ≢ []) × (ddl ≡ join (10 ∷ []) parts)
joined_parts [] ddl h = cc
joined_parts (s ∷ parts) ddl h = (λ e. cc e, cc h)

join_of_parts :
    (parts : List Str) (ddl : Str) → parts ≢ [] → ddl ≡ join (10 ∷ []) parts → joined parts ≡ ok ddl
join_of_parts [] ddl h e = absurd (h refl)
join_of_parts (s ∷ parts) ddl h e = cc e

-- The rows of `SHOW CREATE TABLE` are accepted exactly when there is one or more of them and each is
-- a single text that is not blank; the result is these texts in order, joined by line feeds, with
-- none of them changed.
pub parse_show_create_rows_iff :
    (rows : List Value) (ddl : Str)
    → (parse_show_create_rows rows ≡ ok ddl) ↔ (
        (parts : List Str) × (rows ≡ map ddl_row parts)
        × All IsPart parts
        × (parts ≢ [])
        × (ddl ≡ join (10 ∷ []) parts))
unfolding parse_show_create_rows
parse_show_create_rows_iff rows ddl = (
  (λ h.
      let (parts, e, joined) = >>=-eq-ok (ddl_parts rows) _ h in
      let (same, shaped) = ddl_parts-ok rows parts e in
      let (full, content) = joined_parts parts ddl joined in (parts, same, shaped, full, content)),
  (λ x.
      let (parts, same, shaped, full, content) = x in
      rw (same, ddl_parts-map parts shaped) (join_of_parts parts ddl full content)),
)
