-- ===== src/Hive/Cache/Entries/Loading.antt =====
-- `get_or_load`: hits, misses and failures.
use etl_mcp_suite.Hive.Cache.{
  schema_result, tables_result, databases_result, Entries, validated_key, CacheableHiveResult,
  with_cache_status, validated_result, HiveCacheKey,
}
use etl_mcp_suite.OrderedDict.{lookup, move_to_end}
use etl_mcp_suite.Value.{Value}
use etl_mcp_suite.Hive.Models.{Exception}
use etl_mcp_suite.Hive.Cache.Entries.Lru.{IsStored, get-IsValid, get-some_iff, put-IsValid, IsValid}
use etl_mcp_suite.OrderedDict.Laws.{All-lookup}
use etl_mcp_suite.Hive.Cache.Entries.{find_or_load, load, store, get, World, get_or_load, Loader}
use etl_mcp_suite.Base.{
  ℕ, ◌<◌, ◌≡◌, refl, ap, subst, inl, inr, Bool, true, false, some, List, arith, ltb, lt→ltb,
  Bool-cases, Option-cases, Result, ok, err, ◌>>=◌, Result-cases,
}
use etl_mcp_suite.Hive.Cache.Keys.{key_instance}

-- A loader that keeps the entries valid, whatever the other tasks do meanwhile.
abbrev pub KeepsValid : Loader → Type 0
KeepsValid loader = (w : World) → IsValid w.entries → IsValid (loader w).1.entries

-- A result, if there is one, is what the key stands for.
abbrev pub Fits : HiveCacheKey → Result Exception CacheableHiveResult → Type 0
Fits key (ok value) = validated_result key value ≡ ok value
Fits key (err e) = Unit

-- The cache status is no part of what a key stands for.
validated_result-with_cache_status :
    (key : HiveCacheKey) (value : CacheableHiveResult) (cached : Bool)
    → validated_result key value ≡ ok value
    → validated_result key (with_cache_status value cached) ≡ ok (with_cache_status value cached)
unfolding validated_result with_cache_status
validated_result-with_cache_status HiveCacheKey.list_databases (databases_result r) cached h = refl
validated_result-with_cache_status (HiveCacheKey.list_tables d) (tables_result r) cached h =
    ground arith
validated_result-with_cache_status (HiveCacheKey.get_table_schema d t i) (schema_result r) cached
      h =
    ground arith
validated_result-with_cache_status _ _ cached h = cc

-- A result that is accepted is returned as it is.
validated_result-same :
    (key : HiveCacheKey) (value value' : CacheableHiveResult)
    → validated_result key value ≡ ok value'
    → validated_result key value' ≡ ok value'
unfolding validated_result
validated_result-same HiveCacheKey.list_databases (databases_result r) v h = ground arith
validated_result-same (HiveCacheKey.list_tables d) (tables_result r) v h = ground arith
validated_result-same (HiveCacheKey.get_table_schema d t i) (schema_result r) v h = ground arith
validated_result-same _ _ v h = cc

get_hit-entries :
    (now : ℕ) (key : HiveCacheKey) (entries : Entries) (value : CacheableHiveResult)
    → (get now key entries).0 ≡ some value
    → (get now key entries).1 ≡ move_to_end key entries
unfolding get
get_hit-entries now key entries value h = elim (Option-cases (lookup key entries)) [
  | inl e ↦ absurd (ground arith)
  | inr (entry, e) ↦ ground arith
]

-- A fresh entry is returned without a call of the loader, marked as cached; the entry becomes the
-- most recently used one and nothing else changes.
pub get_or_load-hit :
    (ttl : ℕ) (raw : List Value) (key : HiveCacheKey) (loader : Loader) (w : World)
    (value : CacheableHiveResult)
    → 0 < ttl
    → validated_key raw ≡ ok key
    → (get w.now key w.entries).0 ≡ some value
    → get_or_load ttl raw loader w
      ≡ (ok (with_cache_status value true), record w { entries = move_to_end key w.entries })
unfolding get_or_load get
get_or_load-hit ttl raw key loader w value pos e hit =
    rw (e, get_or_load, lt→ltb 0 ttl pos, hit)
      (ap (λ entries. (ok (with_cache_status value true), record w { entries = entries }))
        (get_hit-entries w.now key w.entries value hit))

store-disabled :
    (key : HiveCacheKey) (r : Result Exception CacheableHiveResult) (w : World)
    → (store 0 key r w).1 ≡ w
store-disabled key (ok value) w = refl
store-disabled key (err e) w = refl

-- With a time to live of zero every call runs the loader, on the entries as they are, and stores
-- nothing.
pub get_or_load-disabled :
    (raw : List Value) (key : HiveCacheKey) (loader : Loader) (w : World)
    → validated_key raw ≡ ok key
    → (get_or_load 0 raw loader w).1 ≡ (loader w).1
unfolding get_or_load
get_or_load-disabled raw key loader w e =
    rw (e, get_or_load) (store-disabled key ((loader w).0 >>= validated_result key) (loader w).1)

Fits-validated_result :
    (key : HiveCacheKey) (r : Result Exception CacheableHiveResult)
    → Fits key (r >>= validated_result key)
Fits-validated_result key (err e) = tt
Fits-validated_result key (ok value) = elim (Result-cases (validated_result key value)) [
  | inl (value', e) ↦ rw e (validated_result-same key value value' e)
  | inr (x, e) ↦ rw e tt
]

-- The world is valid, and the result fits.
abbrev IsGood : HiveCacheKey → Result Exception CacheableHiveResult × World → Type 0
IsGood key (r, w) = IsValid w.entries × Fits key r

module _ (ttl : ℕ) (key : HiveCacheKey) where
  store-IsGood :
      (r : Result Exception CacheableHiveResult) (w : World)
      → Fits key r
      → IsValid w.entries
      → IsGood key (store ttl key r w)
  store-IsGood (err e) w fits v = (v, tt)
  store-IsGood (ok value) w fits v =
      let fresh = validated_result-with_cache_status key value false fits in
      (
        elim (Bool-cases (ltb 0 ttl)) [
          | inl on ↦ rw on (put-IsValid ttl w.now key _ w.entries fresh v)
          | inr off ↦ rw off v
        ],
        fresh,
      )

  load-IsGood :
      (loader : Loader) (w : World)
      → KeepsValid loader
      → IsValid w.entries
      → IsGood key (load ttl key loader w)
  load-IsGood loader w keeps v =
      store-IsGood ((loader w).0 >>= validated_result key) (loader w).1
        (Fits-validated_result key (loader w).0) (keeps w v)

  hit-Fits :
      (now : ℕ) (entries : Entries) (value : CacheableHiveResult)
      → IsValid entries
      → (get now key entries).0 ≡ some value
      → validated_result key value ≡ ok value
  hit-Fits now entries value v h =
      let (entry, found, live, same) = (get-some_iff now key entries value).0 h in
      subst (λ x. validated_result key x ≡ ok x) same
        (All-lookup IsStored key entries v.stored found)

  find_or_load-IsGood :
      (loader : Loader) (w : World)
      → KeepsValid loader
      → IsValid w.entries
      → IsGood key (find_or_load ttl key loader w)
  find_or_load-IsGood loader w keeps v = elim (Bool-cases (ltb 0 ttl)) [
    | inr off ↦ rw off (load-IsGood loader w keeps v)
    | inl on ↦
        let v' = get-IsValid w.now key w.entries v in
        elim (Option-cases (get w.now key w.entries).0) [
          | inl miss ↦
              rw (on, miss)
                (load-IsGood loader (record w { entries = (get w.now key w.entries).1 }) keeps v')
          | inr (value, hit) ↦
              rw (on, hit)
                (
                  v',
                  validated_result-with_cache_status key value true
                      (hit-Fits w.now w.entries value v hit),
                )
        ]
  ]

-- Every call keeps the entries valid, if its loader does; its result, if it returns one, is what the
-- key stands for.
pub get_or_load-IsValid :
    (ttl : ℕ) (raw : List Value) (key : HiveCacheKey) (loader : Loader) (w : World)
    → validated_key raw ≡ ok key
    → KeepsValid loader
    → IsValid w.entries
    → IsValid (get_or_load ttl raw loader w).1.entries × Fits key (get_or_load ttl raw loader w).0
unfolding get_or_load
get_or_load-IsValid ttl raw key loader w e keeps v =
    rw (e, get_or_load) (find_or_load-IsGood ttl key loader w keeps v)

-- What a loader keeps and a change of the entries does not touch, a call keeps.
module _ {ℓ} (P : World → Type ℓ)
    (stable : (w : World) (entries : Entries) → P w → P (record w { entries = entries })) (ttl : ℕ)
    (loader : Loader) (keeps : (w : World) → P w → P (loader w).1) where
  store-keeps :
      (key : HiveCacheKey) (r : Result Exception CacheableHiveResult) (w : World)
      → P w
      → P (store ttl key r w).1
  store-keeps key (err e) w p = p
  store-keeps key (ok value) w p = elim (Bool-cases (ltb 0 ttl)) [
    | inl on ↦ rw on (stable w _ p)
    | inr off ↦ rw off p
  ]

  find_or_load-keeps : (key : HiveCacheKey) (w : World) → P w → P (find_or_load ttl key loader w).1
  find_or_load-keeps key w p =
      let loaded = λ (v : World) (q : P v).
        store-keeps key ((loader v).0 >>= validated_result key) (loader v).1 (keeps v q) in
      elim (Bool-cases (ltb 0 ttl)) [
        | inr off ↦ rw off (loaded w p)
        | inl on ↦ elim (Option-cases (get w.now key w.entries).0) [
          | inl miss ↦ rw (on, miss) (loaded _ (stable w _ p))
          | inr (value, hit) ↦ rw (on, hit) (stable w _ p)
        ]
      ]

  pub get_or_load-keeps : (raw : List Value) (w : World) → P w → P (get_or_load ttl raw loader w).1
  unfolding get_or_load
  get_or_load-keeps raw w p = elim (Result-cases (validated_key raw)) [
    | inl (key, e) ↦ rw (e, get_or_load) (find_or_load-keeps key w p)
    | inr (x, e) ↦ rw (e, get_or_load) p
  ]

-- A key that is not canonical is refused before anything else happens.
pub get_or_load-bad_key :
    (ttl : ℕ) (raw : List Value) (loader : Loader) (w : World) (x : Exception)
    → validated_key raw ≡ err x
    → get_or_load ttl raw loader w ≡ (err x, w)
unfolding get_or_load
get_or_load-bad_key ttl raw loader w x e = rw (e, get_or_load)
