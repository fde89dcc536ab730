-- ===== src/Hive/Service.antt =====
-- src/mcp_stdio/plugins/hive/service.py: the use cases over a gateway and the cache. The gateway is a
-- parameter: what an awaited call returns or raises, and the entries and the clock as they stand
-- when it ends, which other tasks may have changed. A call of the gateway is logged. Each error
-- value takes the correlation id that is drawn for the call.
pub mod Requests
pub mod Answers
pub mod Failures
use etl_mcp_suite.Effects.{
  return, ◌then_do◌, Keeps, Keeps-return, Keeps-then, Keeps-check, Gives, Gives-return, Gives-check,
  Step,
}
use etl_mcp_suite.Hive.Cache.{
  Entries, CacheableHiveResult, databases_result, tables_result, schema_result, HiveCacheKey,
  key_tuple, make_hive_cache_key,
}
use etl_mcp_suite.Value.{
  Items, Value, null, boolean, integer, text, binary, sequence, mapping, opaque, items,
}
use etl_mcp_suite.Hive.Models.{
  describe_table, ColumnMetadata, show_create, show_tables, show_databases, GatewayCall, Exception,
  value_error, hive_response_shape_error, gateway_error, ListDatabasesResult, ListTablesResult,
  TableSchemaResult, list_databases_result, list_tables_result, table_schema_result,
}
use etl_mcp_suite.Base.{
  ℕ, zero, suc, ◌+◌, ◌-◌, ◌*◌, ◌/◌, ◌%◌, ◌^◌, ◌≤◌, ◌<◌, min, ◌≡◌, refl, sym, ap, ◌∙◌, subst, ◌≢◌,
  ◌↔◌, ◌⊎◌, inl, inr, Bool, true, false, ◌&&◌, ◌||◌, not, Option, none, some, List, [], ◌∷◌, ◌++◌,
  map, foldl, append-nil, append_assoc, arith, ltb, leb, ◌==◌, if◌then◌else◌, ltb→lt, lt→ltb,
  leb→le, ==_iff, tests, Bool-cases, Option-cases, &&-eq-true, ||-eq-false, length, take, drop,
  is_empty, any, all, filter, All, length-append, length-take-le, all-append, All-append, All-map,
  All-filter, length-filter-le, drop-append_one, Result, ok, err, Ensures, returns, raises,
  Ensures-any, of_Ensures, Ensures-if, Ensures-bind, ◌>>=◌, ◌>>◌, raise_if, Result-cases, >>=-eq-ok,
}
use etl_mcp_suite.Text.{Str, codes, strip}
use etl_mcp_suite.Errors.{ErrorCategory, ToolOperation, RawIdentifiers}
use etl_mcp_suite.Hive.Identifiers.{hive_identifier}
use etl_mcp_suite.Hive.Parser.{is_blank_text, parse_describe_rows, parse_show_create_rows}
use etl_mcp_suite.Hive.Cache.Entries.{World, get_or_load}

-- Code that runs in a request.
abbrev pub Action {ℓ} : Type ℓ → Type ℓ
Action A = Step World Exception A

-- An awaited gateway call: rows or an exception, and the entries and the clock when it ends.
abbrev pub Gateway : Type 0
Gateway = GatewayCall → World → Result Exception Items × Entries × ℕ

-- `await self._gateway.…`
unfoldable pub perform : Gateway → GatewayCall → Action Items
perform gateway call w =
    let (rows, entries, now) = gateway call w in
    (rows, record { entries = entries; now = now; calls = w.calls ++ call ∷ [] })

-- The methods of `HiveSchemaService`, with the arguments that a tool call hands over.
pub data Request : Type 0 where
  list_databases : Request
  list_tables : Value → Request
  get_table_schema : Value → Value → Value → Request

abbrev pub identifiers_of : List (Str × Str) → RawIdentifiers
identifiers_of [] = []
identifiers_of ((key, value) ∷ rest) = (text key, text value) ∷ identifiers_of rest

-- One row of `_metadata_names`: a sequence of one text that is not blank.
unfoldable pub metadata_name : Value → Option Str
metadata_name (sequence row) = elim (items row) [
  | [] ↦ none
  | v ∷ rest ↦ elim rest [
    | [] ↦ elim v [ text name ↦ if is_blank_text name then none else some name | _ ↦ none ]
    | _ ∷ _ ↦ none
  ]
]
metadata_name _ = none

unfoldable pub names_of_rows : List Value → Option (List Str)
names_of_rows [] = some []
names_of_rows (row ∷ rows) = elim (metadata_name row) [
  | none ↦ none
  | some name ↦ elim (names_of_rows rows) [ none ↦ none | some names ↦ some (name ∷ names) ]
]

abbrev raw_names : Value → Option (List Str)
raw_names (sequence rows) = names_of_rows (items rows)
raw_names _ = none

module _ (correlation_id : Str) where
  -- `_service_error`
  unfoldable pub service_error : ErrorCategory → ToolOperation → List (Str × Str) → Exception
  service_error category operation identifiers =
      gateway_error correlation_id category operation false (identifiers_of identifiers)

  -- `_validated_identifier`
  unfoldable pub validated_identifier : ToolOperation → Value → Result Exception Str
  validated_identifier operation value = elim (hive_identifier value) [
    | ok i ↦ ok i.value
    | err _ ↦ err (service_error ErrorCategory.invalid_input operation [])
  ]

  -- `_validated_include_ddl`
  unfoldable pub validated_include_ddl : Value → Result Exception Bool
  validated_include_ddl (boolean b) = ok b
  validated_include_ddl _ =
      err (service_error ErrorCategory.invalid_input ToolOperation.get_table_schema [])

  -- `_metadata_names`
  unfoldable pub metadata_names :
      ToolOperation → List (Str × Str) → Value → Result Exception (List Str)
  unfolding names_of_rows
  metadata_names operation identifiers rows = elim (raw_names rows) [
    | none ↦ err (service_error ErrorCategory.unexpected_response operation identifiers)
    | some names ↦ ok names
  ]

  module _ (gateway : Gateway) where
    -- `load` of `HiveSchemaService.list_databases`
    unfoldable pub load_databases : Action CacheableHiveResult
    load_databases = perform gateway show_databases then_do λ rows.
        return (metadata_names ToolOperation.list_databases [] (sequence rows)) then_do λ names.
        return (list_databases_result names false) then_do λ r. return (ok (databases_result r))

    -- `load` of `HiveSchemaService.list_tables`
    unfoldable pub load_tables : Str → Action CacheableHiveResult
    load_tables database = perform gateway (show_tables database) then_do λ rows.
        return (
          metadata_names ToolOperation.list_tables ((codes "database", database) ∷ [])
            (sequence rows))
        then_do λ names. return (list_tables_result database names false) then_do λ r.
            return (ok (tables_result r))

    -- The DDL, if it is asked for.
    unfoldable pub load_ddl : Str → Str → Bool → Action (Option Str)
    load_ddl database table false = return (ok none)
    load_ddl database table true = perform gateway (show_create database table) then_do λ rows.
        return (parse_show_create_rows (items rows)) then_do λ ddl. return (ok (some ddl))

    -- `except HiveResponseShapeError`
    unfoldable pub reshaped : {A : Type 0} → Str → Str → Result Exception A → Result Exception A
    reshaped database table (err (hive_response_shape_error _)) = err (
        service_error ErrorCategory.unexpected_response ToolOperation.get_table_schema
          ((codes "database", database) ∷ (codes "table", table) ∷ []))
    reshaped database table r = r

    abbrev pub SchemaParts : Type 0
    SchemaParts = (List ColumnMetadata × List ColumnMetadata) × Option Str

    -- `try: … except HiveResponseShapeError: …`
    unfoldable pub catch_shape : {A : Type 0} → Str → Str → Action A → Action A
    unfolding reshaped
    catch_shape database table m w = let (r, w') = m w in (reshaped database table r, w')

    -- The `try` block of `load`.
    unfoldable pub try_schema : Str → Str → Bool → Action SchemaParts
    try_schema database table include_ddl =
        perform gateway (describe_table database table) then_do λ rows.
        return (parse_describe_rows (items rows)) then_do λ columns.
        load_ddl database table include_ddl then_do λ ddl. return (ok (columns, ddl))

    -- `load` of `HiveSchemaService.get_table_schema`
    unfoldable pub load_schema : Str → Str → Bool → Action CacheableHiveResult
    load_schema database table include_ddl =
        catch_shape database table (try_schema database table include_ddl) then_do λ parts.
        return (table_schema_result database table parts.0.0 parts.0.1 parts.1 false) then_do λ r.
        return (ok (schema_result r))

    module _ (ttl : ℕ) where
      -- `self._cache.get_or_load(make_hive_cache_key(…), load)`
      unfoldable pub cached_load :
          Result Exception HiveCacheKey → Action CacheableHiveResult → Action CacheableHiveResult
      cached_load (ok key) load = get_or_load ttl (key_tuple key) load
      cached_load (err e) load = return (err e)

      -- `HiveSchemaService.list_databases`
      unfoldable pub do_list_databases : Action CacheableHiveResult
      do_list_databases =
          cached_load (make_hive_cache_key (codes "list_databases") none none (boolean false))
            load_databases

      -- `HiveSchemaService.list_tables`
      unfoldable pub do_list_tables : Value → Action CacheableHiveResult
      do_list_tables value =
          return (validated_identifier ToolOperation.list_tables value) then_do λ database.
          cached_load
            (make_hive_cache_key (codes "list_tables") (some database) none (boolean false))
            (load_tables database)

      -- `HiveSchemaService.get_table_schema`
      unfoldable pub do_get_table_schema : Value → Value → Value → Action CacheableHiveResult
      do_get_table_schema raw_database raw_table raw_include_ddl =
          return (validated_identifier ToolOperation.get_table_schema raw_database)
          then_do λ database.
              return (validated_identifier ToolOperation.get_table_schema raw_table)
              then_do λ table. return (validated_include_ddl raw_include_ddl) then_do λ include_ddl.
                  cached_load
                    (make_hive_cache_key (codes "get_table_schema") (some database) (some table)
                      (boolean include_ddl))
                    (load_schema database table include_ddl)

      unfoldable pub handle : Request → Action CacheableHiveResult
      handle Request.list_databases = do_list_databases
      handle (Request.list_tables database) = do_list_tables database
      handle (Request.get_table_schema database table include_ddl) =
          do_get_table_schema database table include_ddl
