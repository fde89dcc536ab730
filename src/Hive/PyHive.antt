-- ===== src/Hive/PyHive.antt =====
-- src/mcp_stdio/plugins/hive/pyhive.py: the adapter for the four metadata statements. PyHive is a
-- parameter: what each of its calls returns or raises, its exceptions by the classes that the adapter
-- tells apart. A call is logged.
pub mod Closing
use etl_mcp_suite.Effects.{Step, return, ◌then_do◌}
use etl_mcp_suite.Errors.{ErrorCategory, ToolOperation}
use etl_mcp_suite.Hive.Identifiers.{HiveIdentifier, hive_identifier, quoted}
use etl_mcp_suite.Hive.Models.{
  Exception, GatewayCall, gateway_error, show_databases, show_tables, describe_table, show_create,
}
use etl_mcp_suite.Hive.Service.{identifiers_of}
use etl_mcp_suite.Text.{Str, codes, str_eq, mem_str, starts_with, is_letter, is_digit}
use etl_mcp_suite.Value.{Value, text, sequence, Items, nil, cons}
use etl_mcp_suite.Base.{
  ℕ, zero, suc, ◌+◌, ◌-◌, ◌*◌, ◌/◌, ◌%◌, ◌^◌, ◌≤◌, ◌<◌, min, ◌≡◌, refl, sym, ap, ◌∙◌, subst, ◌≢◌,
  ◌↔◌, ◌⊎◌, inl, inr, Bool, true, false, ◌&&◌, ◌||◌, not, Option, none, some, List, [], ◌∷◌, ◌++◌,
  map, foldl, append-nil, append_assoc, arith, ltb, leb, ◌==◌, if◌then◌else◌, ltb→lt, lt→ltb,
  leb→le, ==_iff, tests, Bool-cases, Option-cases, &&-eq-true, ||-eq-false, length, take, drop,
  is_empty, any, all, filter, All, length-append, length-take-le, all-append, All-append, All-map,
  All-filter, length-filter-le, drop-append_one, Result, ok, err, Ensures, returns, raises,
  Ensures-any, of_Ensures, Ensures-if, Ensures-bind, ◌>>=◌, ◌>>◌, raise_if, Result-cases, >>=-eq-ok,
}

-- What is caught as `primary_failure`, by the first class that `_category_for_exception` tests for.
-- `operational` holds the `sqlState` of the response that it carries, if it has one.
pub data Failure : Type 0 where
  rows_shape_error timeout_error transport_timed_out transport_error : Failure
  interface_error os_error : Failure
  operational : Option Value → Failure
  database_error : Failure
  other_failure : ℕ → Failure

pub data DriverCall : Type 0 where
  connect open_cursor : DriverCall
  execute : Str → DriverCall
  fetchall close_cursor close_connection force_close : DriverCall

abbrev pub Trace : Type 0
Trace = List DriverCall

-- What a call returns, which matters of `fetchall` only, or raises.
abbrev pub Driver : Type 0
Driver = DriverCall → Trace → Result Failure Value

abbrev pub Session {ℓ} : Type ℓ → Type ℓ
Session A = Step Trace Failure A

abbrev is_sequence : Value → Bool
is_sequence (sequence _) = true
is_sequence _ = false

abbrev all_sequences : Items → Bool
all_sequences nil = true
all_sequences (cons row rows) = is_sequence row && all_sequences rows

-- `_snapshot_rows`. A list and a tuple are one value here.
unfoldable pub snapshot_rows : Value → Result Failure Items
snapshot_rows (sequence rows) = if all_sequences rows then ok rows else err rows_shape_error
snapshot_rows _ = err rows_shape_error

-- `value.upper()` of an ASCII letter or digit
abbrev upper : ℕ → ℕ
upper c = if leb 0x61 c && leb c 0x7a then c - 32 else c

abbrev is_alphanumeric : ℕ → Bool
is_alphanumeric c = is_letter c || is_digit c

-- `_sql_state`
unfoldable pub sql_state : Option Value → Option Str
sql_state (some (text value)) =
    if length value == 5 && all is_alphanumeric value then some (map upper value) else none
sql_state _ = none

-- The category of an `OperationalError`.
unfoldable pub state_category : Option Str → ErrorCategory × Bool
state_category none = (ErrorCategory.upstream_error, false)
state_category (some state) =
    if starts_with state (codes "28")
    then (ErrorCategory.authentication_failed, false)
    else if str_eq state (codes "42501")
    then (ErrorCategory.permission_denied, false)
    else if mem_str state (codes "42P01" ∷ codes "42S02" ∷ [])
    then (ErrorCategory.not_found, false)
    else if mem_str state (codes "HYT00" ∷ codes "HYT01" ∷ [])
    then (ErrorCategory.timeout, true)
    else if starts_with state (codes "08")
    then (ErrorCategory.connection_failed, true)
    else (ErrorCategory.upstream_error, false)

-- `_category_for_exception`
unfoldable pub category_for_exception : Failure → ErrorCategory × Bool
category_for_exception rows_shape_error = (ErrorCategory.unexpected_response, false)
category_for_exception timeout_error = (ErrorCategory.timeout, true)
category_for_exception transport_timed_out = (ErrorCategory.timeout, true)
category_for_exception transport_error = (ErrorCategory.connection_failed, true)
category_for_exception interface_error = (ErrorCategory.connection_failed, true)
category_for_exception os_error = (ErrorCategory.connection_failed, true)
category_for_exception (operational value) = state_category (sql_state value)
category_for_exception database_error = (ErrorCategory.upstream_error, false)
category_for_exception (other_failure _) = (ErrorCategory.upstream_error, false)

-- The first failure wins.
unfoldable pub first_failure :
    {A : Type 0} → Result Failure A → Result Failure Value → Result Failure A
first_failure (err e) _ = err e
first_failure (ok rows) (ok _) = ok rows
first_failure (ok rows) (err e) = err e

module _ (driver : Driver) where
  unfoldable pub drive : DriverCall → Session Value
  drive call w = (driver call w, w ++ call ∷ [])

  -- With a cursor: the statement and its rows.
  unfoldable pub fetch_rows : Str → Session Items
  fetch_rows statement = drive (execute statement) then_do λ _.
      drive fetchall then_do λ raw_rows. return (snapshot_rows raw_rows)

  -- The closing of the cursor, if there is one, after what was done with it.
  unfoldable pub with_cursor : {A : Type 0} → Session A → Session A
  with_cursor body w =
      let (r, w') = body w in
      let (closed, w'') = drive close_cursor w' in (first_failure r closed, w'')

  -- The closing of the connection, by force if it fails.
  unfoldable pub closed_connection : Session Value
  closed_connection w =
      let (closed, w') = drive close_connection w in
      elim closed [ ok v ↦ (ok v, w') | err e ↦ (err e, w' ++ force_close ∷ []) ]

  unfoldable pub with_connection : {A : Type 0} → Session A → Session A
  with_connection body w =
      let (r, w') = body w in
      let (closed, w'') = closed_connection w' in (first_failure r closed, w'')

  -- `_execute_blocking`, less the error value.
  unfoldable pub session : Str → Session Items
  session statement = drive connect then_do λ _.
      with_connection (drive open_cursor then_do λ _. with_cursor (fetch_rows statement))

  module _ (correlation_id : Str) where
    -- `_gateway_error`
    unfoldable pub failure_error : ToolOperation → List (Str × Str) → Failure → Exception
    failure_error operation identifiers failure =
        let (category, retryable) = category_for_exception failure in
        gateway_error correlation_id category operation retryable (identifiers_of identifiers)

    -- `_execute_blocking`
    unfoldable pub execute_blocking :
        Str → ToolOperation → List (Str × Str) → Step Trace Exception Items
    execute_blocking statement operation identifiers w =
        let (r, w') = session statement w in
        elim r [
          | ok rows ↦ (ok rows, w')
          | err e ↦ (err (failure_error operation identifiers e), w')
        ]

    -- `_validated_identifier`
    unfoldable pub checked_identifier : ToolOperation → Str → Result Exception HiveIdentifier
    checked_identifier operation value = elim (hive_identifier (text value)) [
      | ok i ↦ ok i
      | err _ ↦ err (gateway_error correlation_id ErrorCategory.invalid_input operation false [])
    ]

    abbrev dot : Str
    dot = b'.' ∷ []

    -- `describe_table` and `show_create_table`
    unfoldable pub table_rows : Str → Str → Str → Step Trace Exception Items
    table_rows command database table =
        return (checked_identifier ToolOperation.get_table_schema database) then_do λ d.
        return (checked_identifier ToolOperation.get_table_schema table) then_do λ t.
        execute_blocking (command ++ quoted d ++ dot ++ quoted t) ToolOperation.get_table_schema
          ((codes "database", d.value) ∷ (codes "table", t.value) ∷ [])

    -- The methods of `PyHiveMetadataAdapter`.
    unfoldable pub adapter_call : GatewayCall → Step Trace Exception Items
    adapter_call show_databases =
        execute_blocking (codes "SHOW DATABASES") ToolOperation.list_databases []
    adapter_call (show_tables database) =
        return (checked_identifier ToolOperation.list_tables database) then_do λ d.
        execute_blocking (codes "SHOW TABLES IN " ++ quoted d) ToolOperation.list_tables
          ((codes "database", d.value) ∷ [])
    adapter_call (describe_table database table) = table_rows (codes "DESCRIBE ") database table
    adapter_call (show_create database table) =
        table_rows (codes "SHOW CREATE TABLE ") database table
