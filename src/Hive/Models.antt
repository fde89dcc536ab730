-- ===== src/Hive/Models.antt =====
-- src/mcp_stdio/plugins/hive/models.py and gateway.py: the results of the plugin with the constraints
-- that pydantic checks when one is built, and the exceptions that the plugin's layers raise.
use etl_mcp_suite.Base.{
  ℕ, Bool, ◌&&◌, not, Option, none, List, leb, if◌then◌else◌, is_empty, all, Result, ok, err,
}
use etl_mcp_suite.Text.{Str}
use etl_mcp_suite.Errors.{ErrorCategory, ToolOperation, ToolError, RawIdentifiers, create}
use etl_mcp_suite.Hive.Identifiers.{is_identifier}

-- `_ResponseKind`
pub data ResponseKind : Type 0 where
  describe show_create_table : ResponseKind

-- What a call may raise. `other` is any exception of a loader or a gateway that the plugin does not
-- name, a cancelled task included.
pub data Exception : Type 0 where
  value_error type_error : Exception
  hive_response_shape_error : ResponseKind → Exception
  hive_gateway_error : ToolError → Exception
  other : ℕ → Exception

-- `HiveGatewayError(ToolError.create(…))`. `create` itself raises a `ValueError` where it refuses an
-- identifier, and then there is no gateway error to raise.
unfoldable pub gateway_error :
    Str → ErrorCategory → ToolOperation → Bool → RawIdentifiers → Exception
gateway_error correlation_id category operation retryable identifiers =
    elim (create correlation_id category operation retryable identifiers none) [
      | ok e ↦ hive_gateway_error e
      | err _ ↦ value_error
    ]

pub record ColumnMetadata : Type 0 where
  pub name : Str
  pub type : Str
  pub comment : Option Str
  pub ordinal : ℕ

pub record ListDatabasesResult : Type 0 where
  pub databases : List Str
  pub cached : Bool

pub record ListTablesResult : Type 0 where
  pub database : Str
  pub tables : List Str
  pub cached : Bool

pub record TableSchemaResult : Type 0 where
  pub database : Str
  pub table : Str
  pub columns : List ColumnMetadata
  pub partition_columns : List ColumnMetadata
  pub ddl : Option Str
  pub cached : Bool

-- `Field(min_length=1)`
abbrev pub is_named : Str → Bool
is_named s = not (is_empty s)

-- The constructors, with the validation that they run.
unfoldable pub column_metadata : Str → Str → Option Str → ℕ → Result Exception ColumnMetadata
column_metadata name type comment ordinal =
    if is_named name && is_named type && leb 1 ordinal
    then ok (record { name = name; type = type; comment = comment; ordinal = ordinal })
    else err value_error

unfoldable pub list_databases_result : List Str → Bool → Result Exception ListDatabasesResult
list_databases_result databases cached =
    if all is_named databases
    then ok (record { databases = databases; cached = cached })
    else err value_error

unfoldable pub list_tables_result : Str → List Str → Bool → Result Exception ListTablesResult
list_tables_result database tables cached =
    if is_identifier database && all is_named tables
    then ok (record { database = database; tables = tables; cached = cached })
    else err value_error

unfoldable pub table_schema_result :
    Str
    → Str
    → List ColumnMetadata
    → List ColumnMetadata
    → Option Str
    → Bool
    → Result Exception TableSchemaResult
table_schema_result database table columns partition_columns ddl cached =
    if is_identifier database && is_identifier table
    then ok (record {
      database = database;
      table = table;
      columns = columns;
      partition_columns = partition_columns;
      ddl = ddl;
      cached = cached;
    })
    else err value_error

-- The calls of `HiveMetadataGateway`.
pub data GatewayCall : Type 0 where
  show_databases : GatewayCall
  show_tables : Str → GatewayCall
  describe_table show_create : Str → Str → GatewayCall
