-- ===== src/Hive/Service/Requests.antt =====
-- What the requests of the Hive service do to the gateway and to the cache.
use etl_mcp_suite.Effects.{Keeps, Keeps-return, Keeps-then, Keeps-check}
use etl_mcp_suite.Hive.Cache.Entries.Loading.{
  get_or_load-bad_key, get_or_load-IsValid, get_or_load-keeps,
}
use etl_mcp_suite.Hive.Cache.{validated_key, key_tuple, CacheableHiveResult, HiveCacheKey}
use etl_mcp_suite.Hive.Service.{
  catch_shape, Request, do_get_table_schema, do_list_tables, cached_load, do_list_databases, handle,
  load_schema, try_schema, load_ddl, load_tables, load_databases, perform, Gateway,
  validated_identifier, Action,
}
use etl_mcp_suite.Hive.Identifiers.Quoting.{hive_identifier-ok}
use etl_mcp_suite.Hive.Identifiers.{hive_identifier, is_identifier}
use etl_mcp_suite.Hive.Models.{
  show_create, describe_table, show_databases, show_tables, Exception, GatewayCall,
}
use etl_mcp_suite.Value.{text, Value}
use etl_mcp_suite.Errors.{ToolOperation}
use etl_mcp_suite.Text.{Str}
use etl_mcp_suite.Hive.Cache.Entries.{World}
use etl_mcp_suite.Base.{
  ℕ, ◌≡◌, subst, inl, inr, Bool, true, false, [], ◌∷◌, arith, All, All-append, Result, ok, err,
  Result-cases,
}
use etl_mcp_suite.Hive.Cache.Entries.Lru.{IsValid}

-- A gateway call with names that are identifiers only.
abbrev pub IsSafeCall : GatewayCall → Type 0
IsSafeCall show_databases = Unit
IsSafeCall (show_tables database) = is_identifier database ≡ true
IsSafeCall (describe_table database table) =
    (is_identifier database ≡ true) × (is_identifier table ≡ true)
IsSafeCall (show_create database table) =
    (is_identifier database ≡ true) × (is_identifier table ≡ true)

abbrev pub HasSafeCalls : World → Type 0
HasSafeCalls w = All IsSafeCall w.calls

abbrev pub HasValidEntries : World → Type 0
HasValidEntries w = IsValid w.entries

-- The other tasks leave valid entries behind.
abbrev pub KeepsEntries : Gateway → Type 0
KeepsEntries gateway =
    (call : GatewayCall) (w : World) → IsValid w.entries → IsValid (gateway call w).1

module _ (correlation_id : Str) where
  validated_identifier-ok :
      (operation : ToolOperation) (value : Value) (s : Str)
      → validated_identifier correlation_id operation value ≡ ok s
      → (value ≡ text s) × (is_identifier s ≡ true)
  unfolding validated_identifier
  validated_identifier-ok operation value s h = elim (Result-cases (hive_identifier value)) [
    | inl (i, e) ↦
        let (same, valid) = hive_identifier-ok value i e in
        let name : i.value ≡ s = ground arith in
        (subst (λ x. value ≡ text x) name same, subst (λ x. is_identifier x ≡ true) name valid)
    | inr (x, e) ↦ absurd (ground arith)
  ]

  module _ (gateway : Gateway) where
    -- A property that the gateway's calls keep, as long as they name identifiers.
    module _ {P : World → Type 0}
        (performs : (call : GatewayCall) → IsSafeCall call → Keeps P (perform gateway call)) where
      load_databases-Keeps : Keeps P (load_databases correlation_id gateway)
      unfolding load_databases
      load_databases-Keeps =
          Keeps-then (performs show_databases tt)
            (λ rows. Keeps-check (λ names _. Keeps-check (λ r _. Keeps-return _)))

      pub load_tables-Keeps :
          (database : Str)
          → is_identifier database ≡ true
          → Keeps P (load_tables correlation_id gateway database)
      unfolding load_tables
      load_tables-Keeps database safe =
          Keeps-then (performs (show_tables database) safe)
            (λ rows. Keeps-check (λ names _. Keeps-check (λ r _. Keeps-return _)))

      load_ddl-Keeps :
          (database table : Str) (include_ddl : Bool)
          → is_identifier database ≡ true
          → is_identifier table ≡ true
          → Keeps P (load_ddl correlation_id gateway database table include_ddl)
      unfolding load_ddl
      load_ddl-Keeps database table false d t = Keeps-return _
      load_ddl-Keeps database table true d t =
          Keeps-then (performs (show_create database table) (d, t))
            (λ rows. Keeps-check (λ ddl _. Keeps-return _))

      try_schema-Keeps :
          (database table : Str) (include_ddl : Bool)
          → is_identifier database ≡ true
          → is_identifier table ≡ true
          → Keeps P (try_schema correlation_id gateway database table include_ddl)
      unfolding try_schema
      try_schema-Keeps database table include_ddl d t =
          Keeps-then (performs (describe_table database table) (d, t)) (λ rows.
            Keeps-check (λ columns _.
              Keeps-then (load_ddl-Keeps database table include_ddl d t) (λ ddl. Keeps-return _)))

      catch_shape-Keeps :
          {P : World → Type 0} {A : Type 0} (database table : Str) {m : Action A}
          → Keeps P m
          → Keeps P (catch_shape correlation_id gateway database table m)
      unfolding catch_shape
      catch_shape-Keeps database table h = record { keeps = h.keeps }

      pub load_schema-Keeps :
          (database table : Str) (include_ddl : Bool)
          → is_identifier database ≡ true
          → is_identifier table ≡ true
          → Keeps P (load_schema correlation_id gateway database table include_ddl)
      unfolding load_schema
      load_schema-Keeps database table include_ddl d t =
          Keeps-then
            (catch_shape-Keeps database table (try_schema-Keeps database table include_ddl d t))
            (λ parts. Keeps-check (λ r _. Keeps-return _))

      module _ (ttl : ℕ)
          (cached : (key : Result Exception HiveCacheKey) (load : Action CacheableHiveResult)
            → Keeps P load
            → Keeps P (cached_load correlation_id gateway ttl key load)) where
        handle-Keeps : (request : Request) → Keeps P (handle correlation_id gateway ttl request)
        unfolding handle do_list_databases do_list_tables do_get_table_schema
        handle-Keeps Request.list_databases = cached _ _ load_databases-Keeps
        handle-Keeps (Request.list_tables value) = Keeps-check (λ database e.
            let (_, safe) = validated_identifier-ok ToolOperation.list_tables value database e in
            cached _ _ (load_tables-Keeps database safe))
        handle-Keeps (Request.get_table_schema value value' include_ddl) =
            Keeps-check (λ database e.
              let (_, d) =
                validated_identifier-ok ToolOperation.get_table_schema value database e in
              Keeps-check (λ table e'.
                let (_, t) =
                  validated_identifier-ok ToolOperation.get_table_schema value' table e' in
                Keeps-check (λ b _. cached _ _ (load_schema-Keeps database table b d t))))

    perform-HasSafeCalls :
        (call : GatewayCall) → IsSafeCall call → Keeps HasSafeCalls (perform gateway call)
    unfolding perform
    perform-HasSafeCalls call safe = record {
      keeps = λ w p. All-append IsSafeCall w.calls (call ∷ []) p (safe, tt);
    }

    pub perform-IsValid :
        KeepsEntries gateway
        → (call : GatewayCall) → IsSafeCall call
        → Keeps HasValidEntries (perform gateway call)
    unfolding perform
    perform-IsValid other call safe = record { keeps = λ w v. other call w v }

    module _ (ttl : ℕ) where
      cached_load-HasSafeCalls :
          (key : Result Exception HiveCacheKey) (load : Action CacheableHiveResult)
          → Keeps HasSafeCalls load
          → Keeps HasSafeCalls (cached_load correlation_id gateway ttl key load)
      unfolding cached_load
      cached_load-HasSafeCalls (ok key) load h = record {
        keeps = get_or_load-keeps HasSafeCalls (λ w entries q. q) ttl load h.keeps (key_tuple key);
      }
      cached_load-HasSafeCalls (err e) load h = Keeps-return (err e)

      -- Whatever arguments a request has and whatever the gateway answers, every gateway call that
      -- it makes names only valid Hive identifiers.
      pub handle-HasSafeCalls :
          (request : Request) (w : World)
          → HasSafeCalls w
          → HasSafeCalls (handle correlation_id gateway ttl request w).1
      handle-HasSafeCalls request =
          (handle-Keeps perform-HasSafeCalls ttl cached_load-HasSafeCalls request).keeps

      cached_load-IsValid :
          (key : Result Exception HiveCacheKey) (load : Action CacheableHiveResult)
          → Keeps HasValidEntries load
          → Keeps HasValidEntries (cached_load correlation_id gateway ttl key load)
      unfolding cached_load
      cached_load-IsValid (err e) load h = Keeps-return (err e)
      cached_load-IsValid (ok key) load h = record {
        keeps = λ w v. elim (Result-cases (validated_key (key_tuple key))) [
          | inl (k, e) ↦ (get_or_load-IsValid ttl (key_tuple key) k load w e h.keeps v).0
          | inr (x, e) ↦ rw (get_or_load-bad_key ttl (key_tuple key) load w x e) v
        ];
      }

      -- Every request keeps the entries of the cache valid, as long as the tasks that run while it
      -- awaits the gateway do.
      pub handle-IsValid :
          (request : Request) (w : World)
          → KeepsEntries gateway
          → IsValid w.entries
          → IsValid (handle correlation_id gateway ttl request w).1.entries
      handle-IsValid request w other v =
          (handle-Keeps (perform-IsValid other) ttl cached_load-IsValid request).keeps w v
