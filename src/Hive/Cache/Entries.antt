-- ===== src/Hive/Cache/Entries.antt =====
-- The methods of `HiveMetadataCache` in cache.py, on the entries from the least to the most recently
-- used. `ttl` is the cache's `_ttl_seconds`, and `now` what the clock reads in the step.
pub mod Lru
pub mod Loading
use etl_mcp_suite.Hive.Models.{GatewayCall, Exception, value_error}
use etl_mcp_suite.Base.{
  ℕ, zero, suc, ◌+◌, ◌-◌, ◌*◌, ◌/◌, ◌%◌, ◌^◌, ◌≤◌, ◌<◌, min, ◌≡◌, refl, sym, ap, ◌∙◌, subst, ◌≢◌,
  ◌↔◌, ◌⊎◌, inl, inr, Bool, true, false, ◌&&◌, ◌||◌, not, Option, none, some, List, [], ◌∷◌, ◌++◌,
  map, foldl, append-nil, append_assoc, arith, ltb, leb, ◌==◌, if◌then◌else◌, ltb→lt, lt→ltb,
  leb→le, ==_iff, tests, Bool-cases, Option-cases, &&-eq-true, ||-eq-false, length, take, drop,
  is_empty, any, all, filter, All, length-append, length-take-le, all-append, All-append, All-map,
  All-filter, length-filter-le, Result, ok, err, Ensures, returns, raises, Ensures-any, of_Ensures,
  Ensures-if, Ensures-bind, ◌>>=◌, ◌>>◌, raise_if, Result-cases, >>=-eq-ok,
}
use etl_mcp_suite.OrderedDict.{lookup, erase, set_item, move_to_end, pop_oldest}
use etl_mcp_suite.Hive.Cache.{
  HiveCacheKey, CacheableHiveResult, CacheEntry, Entries, validated_key, validated_result,
  with_cache_status, max_cache_entries,
}
use etl_mcp_suite.Hive.Cache.Keys.{key_instance}
use etl_mcp_suite.Value.{Value}

-- The arguments that the constructor looks at.
pub data RawTtl : Type 0 where
  truth_value not_finite negative : RawTtl
  ticks : ℕ → RawTtl

-- `HiveMetadataCache.__init__`: the time to live, and no entries.
unfoldable pub init : RawTtl → Result Exception (ℕ × Entries)
init (ticks n) = ok (n, [])
init _ = err value_error

-- `_get`
unfoldable pub get : ℕ → HiveCacheKey → Entries → Option CacheableHiveResult × Entries
get now key entries = elim (lookup key entries) [
  | none ↦ (none, entries)
  | some entry ↦
      if leb entry.expires_at now
      then (none, erase key entries)
      else (some entry.value, move_to_end key entries)
]

abbrev pub is_live : ℕ → HiveCacheKey × CacheEntry → Bool
is_live now item = not (leb item.1.expires_at now)

-- `_put`
unfoldable pub put : ℕ → ℕ → HiveCacheKey → CacheableHiveResult → Entries → Entries
put ttl now key value entries =
    let live = filter (is_live now) entries in
    let entry : CacheEntry = record { value = value; expires_at = now + ttl } in
    pop_oldest max_cache_entries (move_to_end key (set_item key entry live))

-- What a call shares with the other tasks, the entries and the clock, and the gateway calls that it
-- has made so far, the latest last.
pub record World : Type 0 where
  pub entries : Entries
  pub now : ℕ
  pub calls : List GatewayCall

-- `await loader()`: a result or an exception, and the world as the loader and the other tasks that
-- run meanwhile leave it.
abbrev pub Loader : Type 0
Loader = World → Result Exception CacheableHiveResult × World

abbrev pub Call : Type 0
Call = World → Result Exception CacheableHiveResult × World

-- The end of `get_or_load`, on what the loader returned.
abbrev store : ℕ → HiveCacheKey → Result Exception CacheableHiveResult → Call
store ttl key (err e) w = (err e, w)
store ttl key (ok loaded) w =
    let fresh = with_cache_status loaded false in
    (ok fresh, if ltb 0 ttl then record w { entries = put ttl w.now key fresh w.entries } else w)

-- `get_or_load` where there is no hit.
abbrev load : ℕ → HiveCacheKey → Loader → Call
load ttl key loader w =
    let (loaded, w') = loader w in store ttl key (loaded >>= validated_result key) w'

-- `get_or_load` behind the check of the key.
abbrev find_or_load : ℕ → HiveCacheKey → Loader → Call
find_or_load ttl key loader w =
    if ltb 0 ttl
    then (let (hit, entries) = get w.now key w.entries in
        elim hit [
          | some value ↦ (ok (with_cache_status value true), record w { entries = entries })
          | none ↦ load ttl key loader (record w { entries = entries })
        ])
    else load ttl key loader w

-- `get_or_load`
unfoldable pub get_or_load : ℕ → List Value → Loader → Call
get_or_load ttl key loader w = elim (validated_key key) [
  | err e ↦ (err e, w)
  | ok canonical ↦ find_or_load ttl canonical loader w
]
