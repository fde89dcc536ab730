-- ===== src/Tests/Service.antt =====
-- Runs of service.py, and its theorems at concrete inputs.
use etl_mcp_suite.Effects.{return, ◌then_do◌}
use etl_mcp_suite.Base.{
  ◌+◌, ◌≡◌, refl, false, none, [], ◌∷◌, arith, leb, if◌then◌else◌, length, ok, err,
}
use etl_mcp_suite.Text.{codes, Str, strip, is_space}
use etl_mcp_suite.Value.{Value, text, sequence, cons, nil, null}
use etl_mcp_suite.Errors.{ErrorCategory, ToolOperation, error_message}
use etl_mcp_suite.Hive.Identifiers.{hive_identifier, is_identifier}
use etl_mcp_suite.Hive.Models.{Exception, hive_gateway_error, show_tables, list_tables_result}
use etl_mcp_suite.Hive.Parser.{is_blank_text}
use etl_mcp_suite.Hive.Cache.{tables_result}
use etl_mcp_suite.Hive.Cache.Entries.{World}
use etl_mcp_suite.Hive.Cache.Entries.Lru.{IsValid}
use etl_mcp_suite.Hive.Service.{
  Gateway, Request, handle, load_tables, metadata_names, names_of_rows, metadata_name, perform,
}
use etl_mcp_suite.Hive.Service.Requests.{
  HasSafeCalls, KeepsEntries, handle-HasSafeCalls, handle-IsValid,
}
use etl_mcp_suite.Hive.Service.Failures.{list_tables_unexpected}

-- A gateway that answers every call with one row, `orders`.
abbrev gateway : Gateway
gateway call w = (ok (cons (sequence (cons (text (codes "orders")) nil)) nil), w.entries, w.now + 1)

abbrev start : World
start = record { entries = []; now = 0; calls = [] }

abbrev id : Str
id = codes "id"

abbrev sales : Value
sales = text (codes "sales")

start-IsValid : IsValid start.entries
start-IsValid = record { bounded = omega arith; distinct = tt; stored = tt }

gateway-KeepsEntries : KeepsEntries gateway
gateway-KeepsEntries call w v = v

program : Unit {0}
unfolding load_tables metadata_names names_of_rows metadata_name return perform ◌then_do◌
    is_blank_text strip is_space list_tables_result is_identifier hive_identifier
program = tt

load_tables-orders : load_tables id gateway (codes "sales") start ≡ (
  ok (
      tables_result
        (record { database = codes "sales"; tables = codes "orders" ∷ []; cached = false })),
  record { entries = []; now = 1; calls = show_tables (codes "sales") ∷ [] },
)
unfolding program
load_tables-orders = refl

handle-HasSafeCalls_example :
    HasSafeCalls (handle id gateway 30 (Request.list_tables sales) start).1
handle-HasSafeCalls_example = handle-HasSafeCalls id gateway 30 (Request.list_tables sales) start tt

handle-IsValid_example : IsValid (handle id gateway 30 (Request.list_tables sales) start).1.entries
handle-IsValid_example =
    handle-IsValid id gateway 30 (Request.list_tables sales) start gateway-KeepsEntries
      start-IsValid

list_tables_unexpected_example :
    metadata_names id ToolOperation.list_tables ((codes "database", codes "sales") ∷ []) null
    ≡ err (
        if leb (length (codes "sales")) 256
        then hive_gateway_error (record {
          category = ErrorCategory.unexpected_response;
          operation = ToolOperation.list_tables;
          retryable = false;
          identifiers = (codes "database", codes "sales") ∷ [];
          explanation = none;
          message = error_message ErrorCategory.unexpected_response;
          correlation_id = id;
        })
        else Exception.value_error)
unfolding program
list_tables_unexpected_example = list_tables_unexpected id (codes "sales") null refl refl
