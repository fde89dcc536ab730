-- ===== src/Zeppelin/Requests.antt =====
-- What the requests of the notebook service ask of the gateway: the calls that the settings allow.
pub mod Arguments
pub mod Safe
use etl_mcp_suite.Effects.{
  return, ◌then_do◌, Keeps, Keeps-return, Keeps-then, Keeps-check, Gives, Gives-return, Gives-check,
  perform, perform-Keeps,
}
use etl_mcp_suite.Text.{mem_str, strip, Str}
use etl_mcp_suite.Zeppelin.Validators.Accepted.{IsBody, IsOpaqueId}
use etl_mcp_suite.Zeppelin.Validators.{ValueError, parse_paragraph_interpreter}
use etl_mcp_suite.Errors.{ToolOperation}
use etl_mcp_suite.Zeppelin.Gateway.{Exception, GatewayCall, History}
use etl_mcp_suite.Zeppelin.Safety.{Passes, ParagraphChecker}
use etl_mcp_suite.Zeppelin.Service.{or_identified, or_explained, or_invalid, Action, Settings}
use etl_mcp_suite.Base.{
  ℕ, zero, suc, ◌+◌, ◌-◌, ◌*◌, ◌/◌, ◌%◌, ◌^◌, ◌≤◌, ◌<◌, min, ◌≡◌, refl, sym, ap, ◌∙◌, subst, ◌≢◌,
  ◌↔◌, ◌⊎◌, inl, inr, Bool, true, false, ◌&&◌, ◌||◌, not, Option, none, some, List, [], ◌∷◌, ◌++◌,
  map, foldl, append-nil, append_assoc, arith, ltb, leb, ◌==◌, if◌then◌else◌, ltb→lt, lt→ltb,
  leb→le, ==_iff, tests, Bool-cases, Option-cases, &&-eq-true, ||-eq-false, length, take, drop,
  is_empty, any, all, filter, All, length-append, length-take-le, all-append, All-append, All-map,
  All-filter, length-filter-le, drop-append_one, Result, ok, err, Ensures, returns, raises,
  Ensures-any, of_Ensures, Ensures-if, Ensures-bind, ◌>>=◌, ◌>>◌, raise_if, Result-cases, >>=-eq-ok,
}

-- The paragraph's interpreter is the one that its first line declares, and every checker of the
-- safety hook lets it pass.
abbrev pub IsChecked : List ParagraphChecker → Str → Type 0
IsChecked checkers body =
    (interpreter : Str) × (parse_paragraph_interpreter body ≡ ok (some interpreter))
    × All (Passes interpreter body) checkers

-- A call that the settings allow.
abbrev pub IsSafeCall : Settings → GatewayCall → Type 0
IsSafeCall s GatewayCall.list_notebooks = Unit
IsSafeCall s (GatewayCall.create_notebook name) =
    (is_empty (strip name) ≡ false) × (length name ≤ s.max_notebook_name_chars)
IsSafeCall s (GatewayCall.add_paragraph nb title body) =
    IsOpaqueId s.max_opaque_id_chars nb
    × (length title ≤ s.max_paragraph_title_chars)
    × IsBody s.max_paragraph_body_bytes body
    × IsChecked s.safety_hook body
IsSafeCall s (GatewayCall.run_paragraph nb pid) =
    IsOpaqueId s.max_opaque_id_chars nb × IsOpaqueId s.max_opaque_id_chars pid
IsSafeCall s (GatewayCall.get_paragraph_status nb pid) =
    IsOpaqueId s.max_opaque_id_chars nb × IsOpaqueId s.max_opaque_id_chars pid
IsSafeCall s (GatewayCall.get_paragraph_result nb pid) =
    IsOpaqueId s.max_opaque_id_chars nb × IsOpaqueId s.max_opaque_id_chars pid
IsSafeCall s (GatewayCall.cancel_paragraph nb pid) =
    IsOpaqueId s.max_opaque_id_chars nb × IsOpaqueId s.max_opaque_id_chars pid
IsSafeCall s (GatewayCall.get_interpreter_bindings nb) = IsOpaqueId s.max_opaque_id_chars nb
IsSafeCall s (GatewayCall.restart_interpreter sid nb) =
    IsOpaqueId s.max_opaque_id_chars sid
    × (mem_str sid s.restartable ≡ true)
    × ((i : Str) → nb ≡ some i → IsOpaqueId s.max_opaque_id_chars i)

module _ (s : Settings) where
  abbrev pub HasSafeCalls : History → Type 0
  HasSafeCalls w = All (IsSafeCall s) w

module _ (encode_error_text : Str → Str) (correlation_id : Str) where
  module _ {A : Type 0} where
    pub or_invalid-ok :
        (operation : ToolOperation) (r : Result ValueError A) (a : A)
        → or_invalid encode_error_text correlation_id operation r ≡ ok a
        → r ≡ ok a
    unfolding or_invalid
    or_invalid-ok operation (ok x) a h = ground arith
    or_invalid-ok operation (err e) a h = cc

    pub or_explained-ok :
        (operation : ToolOperation) (r : Result ValueError A) (a : A)
        → or_explained encode_error_text correlation_id operation r ≡ ok a
        → r ≡ ok a
    unfolding or_explained
    or_explained-ok operation (ok x) a h = ground arith
    or_explained-ok operation (err e) a h = cc

    pub or_identified-ok :
        (operation : ToolOperation) (ids : List (Str × Str)) (r : Result ValueError A) (a : A)
        → or_identified encode_error_text correlation_id operation ids r ≡ ok a
        → r ≡ ok a
    unfolding or_identified
    or_identified-ok operation ids (ok x) a h = ground arith
    or_identified-ok operation ids (err e) a h = cc
