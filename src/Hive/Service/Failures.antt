-- ===== src/Hive/Service/Failures.antt =====
-- The error paths of the Hive service.
use etl_mcp_suite.Effects.{return, ◌then_do◌}
use etl_mcp_suite.Errors.Safety.{create_one}
use etl_mcp_suite.Hive.Models.{Exception, hive_gateway_error, gateway_error}
use etl_mcp_suite.Hive.Identifiers.{hive_identifier, ValueError, is_identifier, is_word}
use etl_mcp_suite.Errors.{
  error_message, allowed_identifier_keys, ToolOperation, ErrorCategory, identifier_key_is_safe,
  identifier_value_is_safe,
}
use etl_mcp_suite.Text.{
  str_eq, codes, mem_str, contains, is_digit, is_control, is_letter, Str, lower_char,
}
use etl_mcp_suite.Hive.Identifiers.Quoting.{all-is_word}
use etl_mcp_suite.Hive.Service.{
  raw_names, Gateway, validated_identifier, service_error, metadata_names, do_list_tables,
}
use etl_mcp_suite.Value.{text, Value}
use etl_mcp_suite.Hive.Cache.Entries.{World}
use etl_mcp_suite.Base.{
  ℕ, ◌≡◌, refl, inl, inr, true, false, none, [], ◌∷◌, arith, ltb, leb, if◌then◌else◌, Bool-cases,
  &&-eq-true, length, any, all, err,
}

refused :
    (correlation_id : Str) (operation : ToolOperation) (value : Value) (x : ValueError)
    → hive_identifier value ≡ err x
    → validated_identifier correlation_id operation value
      ≡ err (service_error correlation_id ErrorCategory.invalid_input operation [])
unfolding validated_identifier
refused correlation_id operation value x h = rw (h, validated_identifier)

-- An argument that is no identifier is refused with `INVALID_INPUT`: nothing is asked of the gateway
-- and the cache is not touched.
pub list_tables_invalid :
    (correlation_id : Str) (gateway : Gateway) (ttl : ℕ) (value : Value) (w : World)
    (x : ValueError)
    → hive_identifier value ≡ err x
    → do_list_tables correlation_id gateway ttl value w ≡ (
      err (service_error correlation_id ErrorCategory.invalid_input ToolOperation.list_tables []),
      w,
    )
unfolding do_list_tables return ◌then_do◌
list_tables_invalid correlation_id gateway ttl value w x h =
    rw (refused correlation_id ToolOperation.list_tables value x h)

is_word-not-control : (c : ℕ) → is_word c ≡ true → is_control c ≡ false
unfolding is_word is_letter is_digit is_control
is_word-not-control c h = ground arith

not-any-control : (s : Str) → all is_word s ≡ true → any is_control s ≡ false
not-any-control [] h = refl
not-any-control (c ∷ s) h =
    let (w, ws) = &&-eq-true (is_word c) _ h in rw (is_word-not-control c w, not-any-control s ws)

pos-length : (s : Str) → is_identifier s ≡ true → ltb 0 (length s) ≡ true
unfolding is_identifier
pos-length [] h = cc
pos-length (c ∷ s) h = ground arith

-- Whether an error value may carry an identifier of Hive.
identifier_value_iff :
    (s : Str) → is_identifier s ≡ true → identifier_value_is_safe (text s) ≡ leb (length s) 256
unfolding identifier_value_is_safe
identifier_value_iff s h = rw (pos-length s h, not-any-control s (all-is_word s h)) (ground arith)

database_key : identifier_key_is_safe ToolOperation.list_tables (text (codes "database")) ≡ true
unfolding identifier_key_is_safe contains mem_str str_eq allowed_identifier_keys lower_char
database_key = refl

-- Rows of `SHOW TABLES` that are not understood become an `UNEXPECTED_RESPONSE` that names the
-- database if the database's name has at most 256 characters. If it is longer the error value cannot
-- be built, and a bare `ValueError` is raised instead.
pub list_tables_unexpected :
    (correlation_id : Str) (database : Str) (rows : Value)
    → is_identifier database ≡ true
    → raw_names rows ≡ none
    → metadata_names correlation_id ToolOperation.list_tables
        ((codes "database", database) ∷ [])
        rows
      ≡ err (
          if leb (length database) 256
          then hive_gateway_error (record {
            category = ErrorCategory.unexpected_response;
            operation = ToolOperation.list_tables;
            retryable = false;
            identifiers = (codes "database", database) ∷ [];
            explanation = none;
            message = error_message ErrorCategory.unexpected_response;
            correlation_id = correlation_id;
          })
          else Exception.value_error)
unfolding metadata_names service_error gateway_error
list_tables_unexpected correlation_id database rows h bad =
    let made =
      create_one correlation_id ErrorCategory.unexpected_response ToolOperation.list_tables false
        (codes "database") database database_key in
    rw (bad, metadata_names)
      (rw (made, gateway_error)
        (elim (Bool-cases (leb (length database) 256)) [
          | inl short ↦ rw (identifier_value_iff database h, short)
          | inr long ↦ rw (identifier_value_iff database h, long)
        ]))
