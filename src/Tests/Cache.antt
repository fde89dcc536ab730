-- ===== src/Tests/Cache.antt =====
-- Runs of cache.py, and its theorems at concrete inputs.
use etl_mcp_suite.Base.{
  ◌+◌, ◌≡◌, refl, false, none, some, List, [], ◌∷◌, ◌++◌, arith, ltb, if◌then◌else◌, length, drop,
  ok, err,
}
use etl_mcp_suite.Text.{codes, str_eq, lower_char}
use etl_mcp_suite.Value.{Value, text, boolean}
use etl_mcp_suite.Hive.Identifiers.{hive_identifier}
use etl_mcp_suite.Hive.Models.{Exception}
use etl_mcp_suite.OrderedDict.{lookup, erase, set_item, move_to_end, pop_oldest}
use etl_mcp_suite.Hive.Cache.{
  normalized_identifier, make_hive_cache_key, key_tuple, validated_key, validated_result,
  with_cache_status, key_eq, CacheableHiveResult, databases_result, tables_result, HiveCacheKey,
  Entries, max_cache_entries,
}
use etl_mcp_suite.Hive.Cache.Keys.{key_instance}
use etl_mcp_suite.Hive.Cache.Entries.{get, put, init, RawTtl, World, Loader, get_or_load}
use etl_mcp_suite.Hive.Cache.Entries.Lru.{IsValid, put-IsValid, get-put, put_evicts, others}
use etl_mcp_suite.Hive.Cache.Entries.Loading.{Fits, get_or_load-IsValid}

program : Unit {0}
unfolding str_eq lower_char hive_identifier normalized_identifier make_hive_cache_key key_tuple
    validated_key validated_result with_cache_status key_eq lookup erase set_item move_to_end
    pop_oldest get put init get_or_load
program = tt

abbrev sales_key : HiveCacheKey
sales_key = HiveCacheKey.list_tables (codes "sales")

abbrev sales : CacheableHiveResult
sales =
    tables_result
      (record { database = codes "Sales"; tables = codes "orders" ∷ []; cached = false })

abbrev all_databases : CacheableHiveResult
all_databases = databases_result (record { databases = codes "sales" ∷ []; cached = false })

abbrev one_entry : Entries
one_entry = (sales_key, record { value = sales; expires_at = 40 }) ∷ []

abbrev raw_key : List Value
raw_key = text (codes "list_tables") ∷ text (codes "sales") ∷ []

abbrev at_ten : World
at_ten = record { entries = one_entry; now = 10; calls = [] }

abbrev late : World
late = record at_ten { now = 50 }

abbrev loader : Loader
loader w = (ok sales, w)

abbrev failing : Loader
failing w = (err Exception.type_error, w)

one_entry-IsValid : IsValid one_entry
unfolding program
one_entry-IsValid = record { bounded = omega arith; distinct = (refl, tt); stored = (refl, tt) }

init-negative : init RawTtl.negative ≡ err Exception.value_error
unfolding program
init-negative = refl

get-expired : get 40 sales_key one_entry ≡ (none, [])
unfolding program
get-expired = refl

put-two :
    put 30 10 HiveCacheKey.list_databases all_databases one_entry
    ≡ (sales_key, record { value = sales; expires_at = 40 })
      ∷ (HiveCacheKey.list_databases, record { value = all_databases; expires_at = 40 })
      ∷ []
unfolding program
put-two = refl

raw_key-sales : validated_key raw_key ≡ ok sales_key
unfolding program
raw_key-sales = refl

make_key-sales :
    make_hive_cache_key (codes "list_tables") (some (codes "SALES")) none (boolean false)
    ≡ ok sales_key
unfolding program
make_key-sales = refl

hit-at_ten : (get 10 sales_key one_entry).0 ≡ some sales
unfolding program
hit-at_ten = refl

miss-late : (get 50 sales_key one_entry).0 ≡ none
unfolding program
miss-late = refl

put-IsValid_example : IsValid (put 30 10 HiveCacheKey.list_databases all_databases one_entry)
unfolding program
put-IsValid_example =
    put-IsValid 30 10 HiveCacheKey.list_databases all_databases one_entry refl one_entry-IsValid

get-put_example :
    (get 39 sales_key (put 30 10 sales_key sales one_entry)).0
    ≡ (if ltb 39 (10 + 30) then some sales else none)
get-put_example = get-put 30 10 39 sales_key sales one_entry one_entry-IsValid

put_evicts_example :
    put 30 10 HiveCacheKey.list_databases all_databases one_entry
    ≡ (if ltb (length (others 10 HiveCacheKey.list_databases one_entry)) max_cache_entries
        then others 10 HiveCacheKey.list_databases one_entry
        else drop 1 (others 10 HiveCacheKey.list_databases one_entry))
      ++ (HiveCacheKey.list_databases, record { value = all_databases; expires_at = 10 + 30 }) ∷ []
put_evicts_example =
    put_evicts 30 10 HiveCacheKey.list_databases all_databases one_entry one_entry-IsValid

get_or_load-IsValid_example :
    IsValid (get_or_load 30 raw_key loader at_ten).1.entries
    × Fits sales_key (get_or_load 30 raw_key loader at_ten).0
get_or_load-IsValid_example =
    get_or_load-IsValid 30 raw_key sales_key loader at_ten raw_key-sales (λ w v. v)
      one_entry-IsValid
