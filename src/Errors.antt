-- ===== src/Errors.antt =====
-- src/mcp_stdio/core/errors.py: the error values that cross every boundary of the suite, with the
-- filters that keep unsafe identifiers and secrets out of them. A correlation id comes from `uuid4`, so it is an argument.
-- The type checks of `__post_init__` on `category`, `operation`, `retryable` and `explanation` hold
-- by the types here; the keys and values of `identifiers` stay any Python object.
pub mod Safety
use etl_mcp_suite.Base.{
  ℕ, Bool, false, ◌&&◌, not, Option, none, some, List, [], ◌∷◌, map, ltb, leb, if◌then◌else◌,
  length, is_empty, any, filter, Result, ok, err, ◌>>=◌,
}
use etl_mcp_suite.Text.{Str, codes, mem_str, contains, lower_char, is_control}
use etl_mcp_suite.Value.{Value, text}

pub data ErrorCategory : Type 0 where
  config_error invalid_input authentication_failed permission_denied not_found : ErrorCategory
  connection_failed timeout upstream_error unexpected_response : ErrorCategory

pub data ToolOperation : Type 0 where
  list_databases list_tables get_table_schema : ToolOperation
  list_notebooks create_notebook add_paragraph run_paragraph get_paragraph_status : ToolOperation
  get_paragraph_result get_interpreter_bindings restart_interpreter cancel_paragraph : ToolOperation
  get_server_status list_objects get_object search_objects start_workflow : ToolOperation
  get_task_log extract_log_links fetch_spark_executor_log fetch_spark_event_log : ToolOperation
  inspect_spark_event_log query_spark_events get_spark_stage_metrics : ToolOperation
  get_spark_task_distribution runtime : ToolOperation

-- `category.value`
unfoldable pub category_value : ErrorCategory → Str
category_value ErrorCategory.config_error = codes "CONFIG_ERROR"
category_value ErrorCategory.invalid_input = codes "INVALID_INPUT"
category_value ErrorCategory.authentication_failed = codes "AUTHENTICATION_FAILED"
category_value ErrorCategory.permission_denied = codes "PERMISSION_DENIED"
category_value ErrorCategory.not_found = codes "NOT_FOUND"
category_value ErrorCategory.connection_failed = codes "CONNECTION_FAILED"
category_value ErrorCategory.timeout = codes "TIMEOUT"
category_value ErrorCategory.upstream_error = codes "UPSTREAM_ERROR"
category_value ErrorCategory.unexpected_response = codes "UNEXPECTED_RESPONSE"

-- `operation.value`
unfoldable pub operation_value : ToolOperation → Str
operation_value ToolOperation.list_databases = codes "list_databases"
operation_value ToolOperation.list_tables = codes "list_tables"
operation_value ToolOperation.get_table_schema = codes "get_table_schema"
operation_value ToolOperation.list_notebooks = codes "list_notebooks"
operation_value ToolOperation.create_notebook = codes "create_notebook"
operation_value ToolOperation.add_paragraph = codes "add_paragraph"
operation_value ToolOperation.run_paragraph = codes "run_paragraph"
operation_value ToolOperation.get_paragraph_status = codes "get_paragraph_status"
operation_value ToolOperation.get_paragraph_result = codes "get_paragraph_result"
operation_value ToolOperation.get_interpreter_bindings = codes "get_interpreter_bindings"
operation_value ToolOperation.restart_interpreter = codes "restart_interpreter"
operation_value ToolOperation.cancel_paragraph = codes "cancel_paragraph"
operation_value ToolOperation.get_server_status = codes "get_server_status"
operation_value ToolOperation.list_objects = codes "list_objects"
operation_value ToolOperation.get_object = codes "get_object"
operation_value ToolOperation.search_objects = codes "search_objects"
operation_value ToolOperation.start_workflow = codes "start_workflow"
operation_value ToolOperation.get_task_log = codes "get_task_log"
operation_value ToolOperation.extract_log_links = codes "extract_log_links"
operation_value ToolOperation.fetch_spark_executor_log = codes "fetch_spark_executor_log"
operation_value ToolOperation.fetch_spark_event_log = codes "fetch_spark_event_log"
operation_value ToolOperation.inspect_spark_event_log = codes "inspect_spark_event_log"
operation_value ToolOperation.query_spark_events = codes "query_spark_events"
operation_value ToolOperation.get_spark_stage_metrics = codes "get_spark_stage_metrics"
operation_value ToolOperation.get_spark_task_distribution = codes "get_spark_task_distribution"
operation_value ToolOperation.runtime = codes "runtime"

-- `_ERROR_MESSAGES`
unfoldable pub error_message : ErrorCategory → Str
error_message ErrorCategory.config_error = codes "Configuration is invalid."
error_message ErrorCategory.invalid_input = codes "The request input is invalid."
error_message ErrorCategory.authentication_failed = codes "Authentication failed."
error_message ErrorCategory.permission_denied = codes "Permission was denied."
error_message ErrorCategory.not_found = codes "The requested resource was not found."
error_message ErrorCategory.connection_failed = codes "Could not connect to the upstream service."
error_message ErrorCategory.timeout = codes "The upstream operation timed out."
error_message ErrorCategory.upstream_error = codes "The upstream operation failed."
error_message ErrorCategory.unexpected_response = codes "The upstream response was not understood."

abbrev spark_application : List Str
spark_application = codes "application_id" ∷ codes "attempt_id" ∷ []

-- `_ALLOWED_IDENTIFIER_KEYS`
unfoldable pub allowed_identifier_keys : ToolOperation → List Str
allowed_identifier_keys ToolOperation.list_tables = codes "database" ∷ []
allowed_identifier_keys ToolOperation.get_table_schema = codes "database" ∷ codes "table" ∷ []
allowed_identifier_keys ToolOperation.add_paragraph = codes "notebook_id" ∷ []
allowed_identifier_keys ToolOperation.run_paragraph =
    codes "notebook_id" ∷ codes "paragraph_id" ∷ []
allowed_identifier_keys ToolOperation.get_paragraph_status =
    codes "notebook_id" ∷ codes "paragraph_id" ∷ []
allowed_identifier_keys ToolOperation.get_paragraph_result =
    codes "notebook_id" ∷ codes "paragraph_id" ∷ []
allowed_identifier_keys ToolOperation.get_interpreter_bindings = codes "notebook_id" ∷ []
allowed_identifier_keys ToolOperation.restart_interpreter =
    codes "setting_id" ∷ codes "notebook_id" ∷ []
allowed_identifier_keys ToolOperation.cancel_paragraph =
    codes "notebook_id" ∷ codes "paragraph_id" ∷ []
allowed_identifier_keys ToolOperation.fetch_spark_executor_log =
    codes "application_id" ∷ codes "attempt_id" ∷ codes "executor_id" ∷ codes "log_type" ∷ []
allowed_identifier_keys ToolOperation.fetch_spark_event_log = spark_application
allowed_identifier_keys ToolOperation.inspect_spark_event_log = spark_application
allowed_identifier_keys ToolOperation.query_spark_events = spark_application
allowed_identifier_keys ToolOperation.get_spark_stage_metrics = spark_application
allowed_identifier_keys ToolOperation.get_spark_task_distribution = spark_application
allowed_identifier_keys _ = []

abbrev pub max_identifier_length : ℕ
max_identifier_length = 256

-- `_SENSITIVE_IDENTIFIER_KEY_PARTS`
abbrev pub sensitive_identifier_key_parts : List Str
sensitive_identifier_key_parts =
    codes "authorization"
    ∷ codes "cookie"
    ∷ codes "credential"
    ∷ codes "header"
    ∷ codes "password"
    ∷ codes "secret"
    ∷ codes "token"
    ∷ []

-- `key.lower()` matters on ASCII only: the allowed keys are ASCII, and another key is refused anyway.
unfoldable pub identifier_key_is_safe : ToolOperation → Value → Bool
identifier_key_is_safe operation (text key) =
    let normalized_key = map lower_char key in
    not (any (λ part. contains part normalized_key) sensitive_identifier_key_parts)
    && mem_str key (allowed_identifier_keys operation)
identifier_key_is_safe operation _ = false

unfoldable pub identifier_value_is_safe : Value → Bool
identifier_value_is_safe (text value) =
    ltb 0 (length value) && leb (length value) max_identifier_length && not (any is_control value)
identifier_value_is_safe _ = false

-- A Python mapping, as the items that `dict(identifiers).items()` yields.
abbrev pub RawIdentifiers : Type 0
RawIdentifiers = List (Value × Value)

abbrev pub with_text : Value → Value → List (Str × Str) → List (Str × Str)
with_text (text key) (text value) rest = (key, value) ∷ rest
with_text _ _ rest = rest

-- The loop of `safe_error_identifiers`.
unfoldable pub safe_items : ToolOperation → RawIdentifiers → List (Str × Str)
safe_items operation [] = []
safe_items operation ((key, value) ∷ rest) =
    if identifier_key_is_safe operation key && identifier_value_is_safe value
    then with_text key value (safe_items operation rest)
    else safe_items operation rest

-- `none` is Python's `None`.
unfoldable pub safe_error_identifiers : ToolOperation → Option RawIdentifiers → List (Str × Str)
unfolding safe_items
safe_error_identifiers operation none = []
safe_error_identifiers operation (some identifiers) = safe_items operation identifiers

pub record ToolError : Type 0 where
  pub category : ErrorCategory
  pub operation : ToolOperation
  pub retryable : Bool
  pub identifiers : List (Str × Str)
  pub explanation : Option Str
  pub message : Str
  pub correlation_id : Str

-- The `ValueError`s of `__post_init__`.
pub data ToolErrorFailure : Type 0 where
  key_not_allowed value_unsafe : ToolErrorFailure

-- The loop of `__post_init__`: it refuses what `safe_error_identifiers` drops.
unfoldable pub checked_identifiers :
    ToolOperation → RawIdentifiers → Result ToolErrorFailure (List (Str × Str))
checked_identifiers operation [] = ok []
checked_identifiers operation ((key, value) ∷ rest) =
    let more = checked_identifiers operation rest in
    if not (identifier_key_is_safe operation key)
    then err key_not_allowed
    else if not (identifier_value_is_safe value)
    then err value_unsafe
    else (do checked ← more; ok (with_text key value checked))

-- `ToolError.create` with the `__post_init__` that it runs. `None` for `identifiers` is `[]`.
unfoldable pub create :
    Str
    → ErrorCategory
    → ToolOperation
    → Bool
    → RawIdentifiers
    → Option Str
    → Result ToolErrorFailure ToolError
unfolding checked_identifiers
create correlation_id category operation retryable identifiers explanation = do
  checked ← checked_identifiers operation identifiers
  ok (record {
    category = category;
    operation = operation;
    retryable = retryable;
    identifiers = checked;
    explanation = explanation;
    message = error_message category;
    correlation_id = correlation_id;
  })

-- The dictionary that `to_dict` returns; `explanation` is `none` where the key is absent.
pub record ErrorPayload : Type 0 where
  pub category : Str
  pub operation : Str
  pub message : Str
  pub retryable : Bool
  pub identifiers : List (Str × Str)
  pub correlation_id : Str
  pub explanation : Option Str

-- `any(secret in value for secret in secrets)`
unfoldable pub has_secret : List Str → Str → Bool
has_secret secrets value = any (λ secret. contains secret value) secrets

abbrev shown_explanation : List Str → Option Str → Option Str
shown_explanation secrets none = none
shown_explanation secrets (some e) =
    if not (is_empty e) && not (has_secret secrets e) then some e else none

unfoldable pub to_dict : List Str → ToolError → ErrorPayload
unfolding category_value operation_value has_secret
to_dict secret_values e =
    let secrets = filter (λ secret. not (is_empty secret)) secret_values in
    record {
      category = category_value e.category;
      operation = operation_value e.operation;
      message = e.message;
      retryable = e.retryable;
      identifiers = filter (λ item. not (has_secret secrets item.1)) e.identifiers;
      correlation_id = e.correlation_id;
      explanation = shown_explanation secrets e.explanation;
    }

-- The error of the second attempt, which has no identifiers to refuse.
abbrev recovered : Str → Result ToolErrorFailure ToolError → Result ToolErrorFailure ToolError
recovered id (ok e) = ok e
recovered id (err _) = create id ErrorCategory.upstream_error ToolOperation.runtime false [] none

-- `unexpected_tool_error`, less the line that it logs. Each attempt draws a correlation id.
unfoldable pub unexpected_tool_error :
    Str → Str → ToolOperation → RawIdentifiers → Result ToolErrorFailure ToolError
unfolding create
unexpected_tool_error id id' operation identifiers =
    recovered id' (create id ErrorCategory.upstream_error operation false identifiers none)
