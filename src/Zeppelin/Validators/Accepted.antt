-- ===== src/Zeppelin/Validators/Accepted.antt =====
-- What the validators of zeppelin/models.py accept, in terms of the texts alone.
use etl_mcp_suite.Value.{null, boolean, integer, binary, sequence, mapping, opaque, text, Value}
use etl_mcp_suite.Text.{strip, encoded_length, is_control, Str}
use etl_mcp_suite.Zeppelin.Validators.{
  validate_notebook_name, validate_paragraph_body, within_bytes, validate_paragraph_title,
  validate_opaque_id,
}
use etl_mcp_suite.Base.{
  ℕ, ◌≤◌, ◌≡◌, refl, subst, false, Option, none, some, [], ◌∷◌, arith, length, is_empty, any, ok,
}

-- A text that may stand for an upstream object: not empty, bounded, and free of control characters.
abbrev pub IsOpaqueId : ℕ → Str → Type 0
IsOpaqueId max_chars s = (is_empty s ≡ false) × (length s ≤ max_chars) × (any is_control s ≡ false)

-- A body that is not empty and fits its bytes.
abbrev pub IsBody : ℕ → Str → Type 0
IsBody max_bytes s =
    (is_empty s ≡ false) × ((n : ℕ) × (encoded_length s ≡ some n) × (n ≤ max_bytes))

pub validate_opaque_id-ok :
    (max_chars : ℕ) (value : Value) (s : Str)
    → validate_opaque_id max_chars value ≡ ok s
    → (value ≡ text s) × IsOpaqueId max_chars s
unfolding validate_opaque_id
validate_opaque_id-ok max_chars (text t) s h = ground arith
validate_opaque_id-ok max_chars null s h = cc
validate_opaque_id-ok max_chars (boolean b) s h = cc
validate_opaque_id-ok max_chars (integer i) s h = cc
validate_opaque_id-ok max_chars (binary b) s h = cc
validate_opaque_id-ok max_chars (sequence x) s h = cc
validate_opaque_id-ok max_chars (mapping x) s h = cc
validate_opaque_id-ok max_chars (opaque x) s h = cc

pub validate_opaque_id-accepts :
    (max_chars : ℕ) (s : Str)
    → IsOpaqueId max_chars s
    → validate_opaque_id max_chars (text s) ≡ ok s
unfolding validate_opaque_id
validate_opaque_id-accepts max_chars s (a, b, c) = ground arith

pub validate_paragraph_title-ok :
    (max_chars : ℕ) (value : Value) (s : Str)
    → validate_paragraph_title max_chars value ≡ ok s
    → (value ≡ text s) × (length s ≤ max_chars)
unfolding validate_paragraph_title
validate_paragraph_title-ok max_chars (text t) s h = ground arith
validate_paragraph_title-ok max_chars null s h = cc
validate_paragraph_title-ok max_chars (boolean b) s h = cc
validate_paragraph_title-ok max_chars (integer i) s h = cc
validate_paragraph_title-ok max_chars (binary b) s h = cc
validate_paragraph_title-ok max_chars (sequence x) s h = cc
validate_paragraph_title-ok max_chars (mapping x) s h = cc
validate_paragraph_title-ok max_chars (opaque x) s h = cc

within_bytes-ok :
    (max_bytes : ℕ) (t s : Str) (size : Option ℕ)
    → within_bytes max_bytes t size ≡ ok s
    → (t ≡ s) × ((n : ℕ) × (size ≡ some n) × (n ≤ max_bytes))
unfolding within_bytes
within_bytes-ok max_bytes t s none h = cc
within_bytes-ok max_bytes t s (some n) h =
    let (same, small) : (t ≡ s) × (n ≤ max_bytes) = ground arith in (same, (n, refl, small))

pub validate_paragraph_body-ok :
    (max_bytes : ℕ) (value : Value) (s : Str)
    → validate_paragraph_body max_bytes value ≡ ok s
    → (value ≡ text s) × IsBody max_bytes s
unfolding validate_paragraph_body
validate_paragraph_body-ok max_bytes (text []) s h = cc
validate_paragraph_body-ok max_bytes (text (c ∷ t)) s h =
    let (same, size) = within_bytes-ok max_bytes (c ∷ t) s _ h in
    subst (λ u. (text (c ∷ t) ≡ text u) × IsBody max_bytes u) same (refl, (refl, size))
validate_paragraph_body-ok max_bytes null s h = cc
validate_paragraph_body-ok max_bytes (boolean b) s h = cc
validate_paragraph_body-ok max_bytes (integer i) s h = cc
validate_paragraph_body-ok max_bytes (binary b) s h = cc
validate_paragraph_body-ok max_bytes (sequence x) s h = cc
validate_paragraph_body-ok max_bytes (mapping x) s h = cc
validate_paragraph_body-ok max_bytes (opaque x) s h = cc

pub validate_notebook_name-ok :
    (max_chars : ℕ) (value : Value) (s : Str)
    → validate_notebook_name max_chars value ≡ ok s
    → (value ≡ text s) × (is_empty (strip s) ≡ false) × (length s ≤ max_chars)
unfolding validate_notebook_name
validate_notebook_name-ok max_chars (text t) s h = ground arith
validate_notebook_name-ok max_chars null s h = cc
validate_notebook_name-ok max_chars (boolean b) s h = cc
validate_notebook_name-ok max_chars (integer i) s h = cc
validate_notebook_name-ok max_chars (binary b) s h = cc
validate_notebook_name-ok max_chars (sequence x) s h = cc
validate_notebook_name-ok max_chars (mapping x) s h = cc
validate_notebook_name-ok max_chars (opaque x) s h = cc

pub validate_paragraph_title-accepts :
    (max_chars : ℕ) (s : Str)
    → length s ≤ max_chars
    → validate_paragraph_title max_chars (text s) ≡ ok s
unfolding validate_paragraph_title
validate_paragraph_title-accepts max_chars s h = ground arith

pub validate_paragraph_body-accepts :
    (max_bytes : ℕ) (s : Str)
    → IsBody max_bytes s
    → validate_paragraph_body max_bytes (text s) ≡ ok s
unfolding validate_paragraph_body within_bytes
validate_paragraph_body-accepts max_bytes s (given, (n, size, small)) =
    rw (given, size) (ground arith)
