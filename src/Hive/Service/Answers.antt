-- ===== src/Hive/Service/Answers.antt =====
-- The results of the Hive service are about what was asked for.
use etl_mcp_suite.Effects.{return, ◌then_do◌, Keeps}
use etl_mcp_suite.Hive.Cache.Entries.Loading.{get_or_load-IsValid, Fits}
use etl_mcp_suite.Hive.Service.Requests.{
  HasValidEntries, perform-IsValid, load_tables-Keeps, KeepsEntries,
}
use etl_mcp_suite.Errors.{ErrorCategory, ToolOperation}
use etl_mcp_suite.Hive.Cache.{
  key_tuple, validated_key, databases_result, is_given, casefold, tables_result, schema_result,
  HiveCacheKey, CacheableHiveResult, make_hive_cache_key, normalized_identifier, validated_result,
}
use etl_mcp_suite.Hive.Service.{
  service_error, Action, cached_load, do_list_tables, validated_identifier, Gateway,
}
use etl_mcp_suite.Hive.Identifiers.Quoting.{hive_identifier-ok, hive_identifier_of}
use etl_mcp_suite.Hive.Cache.Keys.{validated_key-make_hive_cache_key}
use etl_mcp_suite.Hive.Identifiers.{hive_identifier, is_identifier}
use etl_mcp_suite.Hive.Cache.Entries.Lru.{IsValid}
use etl_mcp_suite.Hive.Cache.Entries.{World}
use etl_mcp_suite.Value.{text, boolean}
use etl_mcp_suite.Text.{eq_of_str_eq, codes, str_eq, Str}
use etl_mcp_suite.Hive.Models.{Exception}
use etl_mcp_suite.Base.{
  ℕ, ◌≡◌, ap, subst, ◌⊎◌, inl, inr, Bool, true, false, none, some, [], arith, Result, ok, err,
  Ensures, returns, raises, Result-cases,
}

-- A schema result for the names, up to their case, with a DDL just if one is asked for.
abbrev pub IsSchemaOf : Str → Str → Bool → CacheableHiveResult → Type 0
IsSchemaOf database table include_ddl (schema_result r) =
    (casefold r.database ≡ casefold database)
    × (casefold r.table ≡ casefold table)
    × (is_given r.ddl ≡ include_ddl)
IsSchemaOf database table include_ddl _ = ⊥

-- A list of tables of the database, up to its case.
abbrev pub IsTablesOf : Str → CacheableHiveResult → Type 0
IsTablesOf database (tables_result r) = casefold r.database ≡ casefold database
IsTablesOf database _ = ⊥

IsTablesOf-fit :
    (d : Str) (value : CacheableHiveResult)
    → validated_result (HiveCacheKey.list_tables (casefold d)) value ≡ ok value
    → IsTablesOf d value
unfolding validated_result
IsTablesOf-fit d (databases_result r) h = cc
IsTablesOf-fit d (tables_result r) h =
    ground (arith, eq_of_str_eq (casefold r.database) (casefold d))
IsTablesOf-fit d (schema_result r) h = cc

normalized : (s : Str) → is_identifier s ≡ true → normalized_identifier (some s) ≡ ok (casefold s)
unfolding normalized_identifier
normalized s h = rw (hive_identifier_of s h, normalized_identifier)

tables_key :
    (d : Str)
    → is_identifier d ≡ true
    → make_hive_cache_key (codes "list_tables") (some d) none (boolean false)
      ≡ ok (HiveCacheKey.list_tables (casefold d))
unfolding make_hive_cache_key str_eq
tables_key d h = rw (normalized d h)

Ensures-of_Fits :
    (P : CacheableHiveResult → Type 0) (key : HiveCacheKey)
    (r : Result Exception CacheableHiveResult)
    → ((value : CacheableHiveResult) → validated_result key value ≡ ok value → P value)
    → Fits key r
    → Ensures P r
Ensures-of_Fits P key (ok value) f h = returns (f value h)
Ensures-of_Fits P key (err e) f h = raises

module _ (correlation_id : Str) (gateway : Gateway) (ttl : ℕ) where
  validated :
      (operation : ToolOperation) (s : Str)
      → (validated_identifier correlation_id operation (text s) ≡ ok s) × (is_identifier s ≡ true)
        ⊎ (x : Exception) × (validated_identifier correlation_id operation (text s) ≡ err x)
  unfolding validated_identifier
  validated operation s = elim (Result-cases (hive_identifier (text s))) [
    | inl (i, h) ↦
        let (same, valid) = hive_identifier-ok (text s) i h in
        let e : i.value ≡ s = cc same in
        inl (rw (h, validated_identifier) (ap ok e), subst (λ x. is_identifier x ≡ true) e valid)
    | inr (x, h) ↦ inr (
      service_error correlation_id ErrorCategory.invalid_input operation [],
      rw (h, validated_identifier),
    )
  ]

  cached_load-Fits :
      (made : Result Exception HiveCacheKey) (key : HiveCacheKey)
      (load : Action CacheableHiveResult) (w : World)
      → made ≡ ok key
      → validated_key (key_tuple key) ≡ ok key
      → Keeps HasValidEntries load
      → IsValid w.entries
      → Fits key (cached_load correlation_id gateway ttl made load w).0
  unfolding cached_load
  cached_load-Fits made key load w e canonical h v =
      rw (e, cached_load) (get_or_load-IsValid ttl (key_tuple key) key load w canonical h.keeps v).1

  -- If `list_tables` returns, it returns the tables of the database that was asked for, whether they
  -- were cached or loaded, as long as the entries are valid and the other tasks keep them so.
  pub list_tables-IsTablesOf :
      (database : Str) (w : World)
      → KeepsEntries gateway
      → IsValid w.entries
      → Ensures
          (IsTablesOf database)
          (do_list_tables correlation_id gateway ttl (text database) w).0
  unfolding do_list_tables return ◌then_do◌
  list_tables-IsTablesOf database w other v = elim (validated ToolOperation.list_tables database) [
    | inr (x, e) ↦ rw e raises
    | inl (e, d) ↦
        let key = tables_key database d in
        let canonical = validated_key-make_hive_cache_key _ _ _ _ _ key in
        rw e (
          Ensures-of_Fits (IsTablesOf database) _ _ (IsTablesOf-fit database) (
            cached_load-Fits _ _ _ w key canonical
              (load_tables-Keeps correlation_id gateway
                (perform-IsValid correlation_id gateway other) database d)
              v))
  ]
