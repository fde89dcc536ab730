-- ===== src/Zeppelin/Requests/Arguments.antt =====
-- What the checks of a request accept.
use etl_mcp_suite.Zeppelin.Validators.Accepted.{
  validate_paragraph_body-ok, validate_paragraph_title-ok, validate_opaque_id-ok, IsBody,
  IsOpaqueId,
}
use etl_mcp_suite.Zeppelin.Validators.{
  validate_paragraph_body, validate_paragraph_title, parse_paragraph_interpreter,
  validate_opaque_id,
}
use etl_mcp_suite.Zeppelin.Interpreters.{is_none, restart_arguments, allowed_restart, optional_id}
use etl_mcp_suite.Zeppelin.Gateway.{ZeppelinGateway}
use etl_mcp_suite.Zeppelin.Service.{declared, paragraph_arguments, paragraph_ids, Settings}
use etl_mcp_suite.Text.{mem_str, Str}
use etl_mcp_suite.Value.{Value}
use etl_mcp_suite.Base.{
  ◌≤◌, ◌≡◌, subst, inl, inr, true, Option, none, some, List, arith, Bool-cases, length, ok, ◌>>=◌,
  >>=-eq-ok,
}

module _ (encode_error_text : Str → Str) (correlation_id : Str) where
  module _ (gateway : ZeppelinGateway) (s : Settings) where
    pub paragraph_ids-ok :
        (nb pid : Value) (ids : Str × Str)
        → paragraph_ids encode_error_text correlation_id gateway s nb pid ≡ ok ids
        → IsOpaqueId s.max_opaque_id_chars ids.0 × IsOpaqueId s.max_opaque_id_chars ids.1
    unfolding paragraph_ids
    paragraph_ids-ok nb pid ids h =
        let (i, e, k) = >>=-eq-ok (validate_opaque_id s.max_opaque_id_chars nb) _ h in
        let (j, e', same) = >>=-eq-ok (validate_opaque_id s.max_opaque_id_chars pid) _ k in
        let eq : ((i, j) ≡ ids) = ground arith in
        subst (λ x. IsOpaqueId s.max_opaque_id_chars x.0 × IsOpaqueId s.max_opaque_id_chars x.1) eq
          ((validate_opaque_id-ok _ _ _ e).1, (validate_opaque_id-ok _ _ _ e').1)

    -- What the arguments of an accepted paragraph are.
    abbrev pub IsParagraph : (Str × Str × Str) × Option Str → Type 0
    IsParagraph a =
        IsOpaqueId s.max_opaque_id_chars a.0.0
        × (length a.0.1 ≤ s.max_paragraph_title_chars)
        × IsBody s.max_paragraph_body_bytes a.0.2
        × (parse_paragraph_interpreter a.0.2 ≡ ok a.1)

    pub paragraph_arguments-ok :
        (nb title body : Value) (a : (Str × Str × Str) × Option Str)
        → paragraph_arguments encode_error_text correlation_id gateway s nb title body ≡ ok a
        → IsParagraph a
    unfolding paragraph_arguments
    paragraph_arguments-ok nb title body a h =
        let (i, e, h) = >>=-eq-ok (validate_opaque_id s.max_opaque_id_chars nb) _ h in
        let (t, e', h) =
          >>=-eq-ok (validate_paragraph_title s.max_paragraph_title_chars title) _ h in
        let (b, e'', h) = >>=-eq-ok (validate_paragraph_body s.max_paragraph_body_bytes body) _ h in
        let (c, parsed, h) = >>=-eq-ok (parse_paragraph_interpreter b) _ h in
        let eq : (((i, t, b), c) ≡ a) = ground arith in
        subst IsParagraph eq (
          (validate_opaque_id-ok _ _ _ e).1,
          (validate_paragraph_title-ok _ _ _ e').1,
          (validate_paragraph_body-ok _ _ _ e'').1,
          parsed,
        )

    pub declared-ok :
        (o : Option Str) (interpreter : Str)
        → declared encode_error_text correlation_id o ≡ ok interpreter
        → o ≡ some interpreter
    unfolding declared
    declared-ok none interpreter h = cc
    declared-ok (some i) interpreter h = ground arith

    pub optional_id-ok :
        (nb : Value) (o : Option Str)
        → optional_id encode_error_text correlation_id gateway s nb ≡ ok o
        → (i : Str) → o ≡ some i
        → IsOpaqueId s.max_opaque_id_chars i
    unfolding optional_id
    optional_id-ok nb o h i e = elim (Bool-cases (is_none nb)) [
      | inl absent ↦ absurd (ground arith)
      | inr present ↦
          let found : (do nb' ← validate_opaque_id s.max_opaque_id_chars nb; ok (some nb')) ≡ ok o =
            ground arith in
          let (j, valid, same) = >>=-eq-ok (validate_opaque_id s.max_opaque_id_chars nb) _ found in
          let eq : j ≡ i = ground arith in
          subst (IsOpaqueId s.max_opaque_id_chars) eq (validate_opaque_id-ok _ _ _ valid).1
    ]

    pub allowed_restart-ok :
        (identifiers : List (Str × Str)) (ids allowed : Str × Option Str)
        → allowed_restart encode_error_text correlation_id gateway s identifiers ids ≡ ok allowed
        → (ids ≡ allowed) × (mem_str ids.0 s.restartable ≡ true)
    unfolding allowed_restart
    allowed_restart-ok identifiers ids allowed h = ground arith

    pub restart_arguments-ok :
        (sid nb : Value) (ids : Str × Option Str)
        → restart_arguments encode_error_text correlation_id gateway s sid nb ≡ ok ids
        → IsOpaqueId s.max_opaque_id_chars ids.0
          × ((i : Str) → ids.1 ≡ some i → IsOpaqueId s.max_opaque_id_chars i)
    unfolding restart_arguments
    restart_arguments-ok sid nb ids h =
        let (i, e, h) = >>=-eq-ok (validate_opaque_id s.max_opaque_id_chars sid) _ h in
        let (o, e', h) =
          >>=-eq-ok (optional_id encode_error_text correlation_id gateway s nb) _ h in
        let eq : ((i, o) ≡ ids) = ground arith in
        subst
          (λ x.
            IsOpaqueId s.max_opaque_id_chars x.0
            × ((i : Str) → x.1 ≡ some i → IsOpaqueId s.max_opaque_id_chars i))
          eq ((validate_opaque_id-ok _ _ _ e).1, optional_id-ok nb o e')
