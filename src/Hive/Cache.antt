-- ===== src/Hive/Cache.antt =====
-- src/mcp_stdio/plugins/hive/cache.py: the TTL and LRU cache of successful results. Times are whole
-- ticks of the monotonic clock, and `ttl_seconds` counts the same ticks. What runs under the lock is
-- one step; the loader runs outside it and may find, and leave, any entries.
pub mod Keys
pub mod Entries
use etl_mcp_suite.Base.{
  ℕ, zero, suc, ◌+◌, ◌-◌, ◌*◌, ◌/◌, ◌%◌, ◌^◌, ◌≤◌, ◌<◌, min, ◌≡◌, refl, sym, ap, ◌∙◌, subst, ◌≢◌,
  ◌↔◌, ◌⊎◌, inl, inr, Bool, true, false, ◌&&◌, ◌||◌, not, Option, none, some, List, [], ◌∷◌, ◌++◌,
  map, foldl, append-nil, append_assoc, arith, ltb, leb, ◌==◌, if◌then◌else◌, ltb→lt, lt→ltb,
  leb→le, ==_iff, tests, Bool-cases, Option-cases, &&-eq-true, ||-eq-false, length, take, drop,
  is_empty, any, all, filter, All, length-append, length-take-le, all-append, All-append, All-map,
  All-filter, length-filter-le, Result, ok, err, Ensures, returns, raises, Ensures-any, of_Ensures,
  Ensures-if, Ensures-bind, ◌>>=◌, ◌>>◌, raise_if, Result-cases, >>=-eq-ok,
}
use etl_mcp_suite.Text.{Str, codes, str_eq, lower_char}
use etl_mcp_suite.Value.{Value, null, boolean, integer, text, binary, sequence, mapping, opaque}
use etl_mcp_suite.Hive.Identifiers.{HiveIdentifier, hive_identifier}
use etl_mcp_suite.Hive.Models.{
  Exception, value_error, type_error, ListDatabasesResult, ListTablesResult, TableSchemaResult,
}
use etl_mcp_suite.OrderedDict.{OrderedDict, Eq, lookup, erase, set_item, move_to_end, pop_oldest}

abbrev pub max_cache_entries : ℕ
max_cache_entries = 256

pub data HiveCacheKey : Type 0 where
  list_databases : HiveCacheKey
  list_tables : Str → HiveCacheKey
  get_table_schema : Str → Str → Bool → HiveCacheKey

pub data CacheableHiveResult : Type 0 where
  databases_result : ListDatabasesResult → CacheableHiveResult
  tables_result : ListTablesResult → CacheableHiveResult
  schema_result : TableSchemaResult → CacheableHiveResult

-- `s.casefold()`, which is applied to identifiers only, and these are ASCII.
abbrev pub casefold : Str → Str
casefold s = map lower_char s

-- `_normalized_identifier`
unfoldable pub normalized_identifier : Option Str → Result Exception Str
normalized_identifier none = err value_error
normalized_identifier (some s) = elim (hive_identifier (text s)) [
  | ok i ↦ ok (casefold i.value)
  | err _ ↦ err value_error
]

abbrev pub is_given : Option Str → Bool
is_given none = false
is_given (some _) = true

-- `make_hive_cache_key`, for an `include_ddl` that is a boolean.
abbrev make_key : Str → Option Str → Option Str → Bool → Result Exception HiveCacheKey
make_key tool_name database table include_ddl =
    if str_eq tool_name (codes "list_databases")
    then (if is_given database || is_given table || include_ddl
        then err value_error
        else ok list_databases)
    else if str_eq tool_name (codes "list_tables")
    then (if is_given table || include_ddl
        then err value_error
        else (do name ← normalized_identifier database; ok (list_tables name)))
    else if str_eq tool_name (codes "get_table_schema")
    then (do
      name ← normalized_identifier database
      name' ← normalized_identifier table
      ok (get_table_schema name name' include_ddl))
    else err value_error

unfoldable pub make_hive_cache_key :
    Str → Option Str → Option Str → Value → Result Exception HiveCacheKey
make_hive_cache_key tool_name database table (boolean include_ddl) =
    make_key tool_name database table include_ddl
make_hive_cache_key tool_name database table _ = err type_error

-- The tuple that a key is in Python.
unfoldable pub key_tuple : HiveCacheKey → List Value
key_tuple list_databases = text (codes "list_databases") ∷ []
key_tuple (list_tables database) = text (codes "list_tables") ∷ text database ∷ []
key_tuple (get_table_schema database table include_ddl) =
    text (codes "get_table_schema") ∷ text database ∷ text table ∷ boolean include_ddl ∷ []

abbrev eq_bool : Bool → Bool → Bool
eq_bool true b = b
eq_bool false b = not b

-- `==` on keys, which are tuples of texts and booleans.
unfoldable pub key_eq : HiveCacheKey → HiveCacheKey → Bool
key_eq list_databases list_databases = true
key_eq (list_tables d) (list_tables d') = str_eq d d'
key_eq (get_table_schema d t i) (get_table_schema d' t' i') =
    str_eq d d' && str_eq t t' && eq_bool i i'
key_eq _ _ = false

-- `canonical != raw_key`, where the canonical key was made from the raw one or not at all.
abbrev same_key : HiveCacheKey → Result Exception HiveCacheKey → Result Exception HiveCacheKey
same_key raw (ok canonical) = if key_eq canonical raw then ok canonical else err value_error
same_key raw (err _) = err value_error

-- `_validated_key`, on a tuple.
unfoldable pub validated_key : List Value → Result Exception HiveCacheKey
validated_key (text tool ∷ []) =
    if str_eq tool (codes "list_databases") then ok list_databases else err value_error
validated_key (text tool ∷ text database ∷ []) =
    if str_eq tool (codes "list_tables")
    then same_key (list_tables database)
        (make_hive_cache_key (codes "list_tables") (some database) none (boolean false))
    else err value_error
validated_key (text tool ∷ text database ∷ text table ∷ boolean include_ddl ∷ []) =
    if str_eq tool (codes "get_table_schema")
    then same_key (get_table_schema database table include_ddl) (
        make_hive_cache_key (codes "get_table_schema") (some database) (some table)
          (boolean include_ddl))
    else err value_error
validated_key _ = err value_error

-- `_validated_result`, on a result of one of the three types.
unfoldable pub validated_result :
    HiveCacheKey → CacheableHiveResult → Result Exception CacheableHiveResult
validated_result list_databases (databases_result r) = ok (databases_result r)
validated_result (list_tables database) (tables_result r) =
    if str_eq (casefold r.database) database then ok (tables_result r) else err type_error
validated_result (get_table_schema database table include_ddl) (schema_result r) =
    if str_eq (casefold r.database) database
      && str_eq (casefold r.table) table
      && eq_bool (is_given r.ddl) include_ddl
    then ok (schema_result r)
    else err type_error
validated_result _ _ = err type_error

-- `_with_cache_status`
unfoldable pub with_cache_status : CacheableHiveResult → Bool → CacheableHiveResult
with_cache_status (databases_result r) cached = databases_result (record r { cached = cached })
with_cache_status (tables_result r) cached = tables_result (record r { cached = cached })
with_cache_status (schema_result r) cached = schema_result (record r { cached = cached })

pub record CacheEntry : Type 0 where
  pub value : CacheableHiveResult
  pub expires_at : ℕ

abbrev pub Entries : Type 0
Entries = OrderedDict HiveCacheKey CacheEntry
