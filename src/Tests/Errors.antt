-- ===== src/Tests/Errors.antt =====
-- Runs of core/errors.py, and its theorems at concrete inputs.
use etl_mcp_suite.Base.{◌≡◌, refl, ◌↔◌, ◌⊎◌, true, false, none, some, [], ◌∷◌, All, ok}
use etl_mcp_suite.Text.{codes, contains, str_eq, mem_str, lower_char, is_control}
use etl_mcp_suite.Value.{text, null}
use etl_mcp_suite.Errors.{
  ErrorCategory, ToolOperation, RawIdentifiers, ToolError, safe_error_identifiers, create, to_dict,
  unexpected_tool_error, error_message, identifier_key_is_safe, identifier_value_is_safe,
  allowed_identifier_keys,
}
use etl_mcp_suite.Errors.Safety.{
  as_raw, IsOk, IsSafeItem, Hides, create-safe_error_identifiers, create-IsOk_iff,
  to_dict-Hides_secret, unexpected_tool_error_total,
}

abbrev raw : RawIdentifiers
raw =
    (text (codes "database"), text (codes "sales"))
    ∷ (text (codes "password"), text (codes "hunter2"))
    ∷ (null, text (codes "x"))
    ∷ []

abbrev error : ToolError
error = record {
  category = ErrorCategory.not_found;
  operation = ToolOperation.list_tables;
  retryable = false;
  identifiers = (codes "database", codes "hunter2") ∷ [];
  explanation = some (codes "no hunter2");
  message = error_message ErrorCategory.not_found;
  correlation_id = codes "id";
}

safe_error_identifiers-raw :
    safe_error_identifiers ToolOperation.list_tables (some raw)
    ≡ (codes "database", codes "sales") ∷ []
unfolding safe_error_identifiers identifier_key_is_safe identifier_value_is_safe
    allowed_identifier_keys contains str_eq mem_str lower_char is_control
safe_error_identifiers-raw = refl

to_dict-error : (to_dict (codes "hunter2" ∷ []) error).identifiers ≡ []
unfolding to_dict contains
to_dict-error = refl

create-safe_error_identifiers_example :
    create
      (codes "id")
      ErrorCategory.not_found
      ToolOperation.list_tables
      false
      (as_raw (safe_error_identifiers ToolOperation.list_tables (some raw)))
      none
    ≡ ok (record {
      category = ErrorCategory.not_found;
      operation = ToolOperation.list_tables;
      retryable = false;
      identifiers = safe_error_identifiers ToolOperation.list_tables (some raw);
      explanation = none;
      message = error_message ErrorCategory.not_found;
      correlation_id = codes "id";
    })
create-safe_error_identifiers_example =
    create-safe_error_identifiers (codes "id") ErrorCategory.not_found ToolOperation.list_tables
      false (some raw) none

create-IsOk_iff_example :
    IsOk (create (codes "id") ErrorCategory.timeout ToolOperation.list_tables true raw none)
    ↔ All (IsSafeItem ToolOperation.list_tables) raw
create-IsOk_iff_example =
    create-IsOk_iff (codes "id") ErrorCategory.timeout ToolOperation.list_tables true raw none

to_dict-Hides_secret_example :
    All
      (λ item. contains (codes "hunter2") item.1 ≡ false)
      (to_dict (codes "hunter2" ∷ []) error).identifiers
    × Hides (codes "hunter2") (to_dict (codes "hunter2" ∷ []) error).explanation
unfolding mem_str str_eq
to_dict-Hides_secret_example =
    to_dict-Hides_secret (codes "hunter2" ∷ []) error (codes "hunter2") refl (λ e. cc e)

unexpected_tool_error_total_example :
    (e : ToolError) × (unexpected_tool_error (codes "a") (codes "b") ToolOperation.list_tables raw
      ≡ ok e)
    × (e.category ≡ ErrorCategory.upstream_error)
    × (e.retryable ≡ false)
    × (e.explanation ≡ none)
    × ((All (IsSafeItem ToolOperation.list_tables) raw
          × (e.operation ≡ ToolOperation.list_tables)
          × (raw ≡ as_raw e.identifiers))
        ⊎ ((¬ All (IsSafeItem ToolOperation.list_tables) raw)
            × (e.operation ≡ ToolOperation.runtime)
            × (e.identifiers ≡ [])))
unexpected_tool_error_total_example =
    unexpected_tool_error_total (codes "a") (codes "b") ToolOperation.list_tables raw
