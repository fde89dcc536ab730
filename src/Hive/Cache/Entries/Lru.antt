-- ===== src/Hive/Cache/Entries/Lru.antt =====
-- The entries of the cache under `_get` and `_put`.
use etl_mcp_suite.Hive.Cache.Entries.{put, is_live, get}
use etl_mcp_suite.Hive.Cache.{
  CacheableHiveResult, HiveCacheKey, CacheEntry, Entries, validated_result, max_cache_entries,
}
use etl_mcp_suite.Base.{
  ℕ, ◌+◌, ◌≤◌, ◌<◌, ◌≡◌, ap, ◌∙◌, ◌↔◌, inl, inr, none, some, [], ◌∷◌, ◌++◌, arith, ltb, leb,
  if◌then◌else◌, Bool-cases, Option-cases, length, drop, filter, All, length-append, All-append,
  length-filter-le, drop-append_one, ok,
}
use etl_mcp_suite.OrderedDict.{lookup, erase, move_to_end, pop_oldest}
use etl_mcp_suite.OrderedDict.Laws.{
  Distinct, move_to_end-set_item, lookup-erase_self, erase-Distinct, Distinct-append_one,
  filter-Distinct, length-erase, length-erase-some, All-erase, All-pop_oldest, length-pop_oldest,
  pop_oldest-Distinct, pop_oldest-eq-drop, lookup-pop_oldest_last, All-lookup, All-filter_of,
}
use etl_mcp_suite.Hive.Cache.Keys.{key_instance}

-- The result of an entry is one that its key stands for.
abbrev pub IsStored : HiveCacheKey × CacheEntry → Type 0
IsStored (key, entry) = validated_result key entry.value ≡ ok entry.value

-- The invariant: at most 256 entries, no key twice, and every result fits its key.
pub record IsValid (entries : Entries) : Type 0 where
  pub bounded : length entries ≤ max_cache_entries
  pub distinct : Distinct entries
  pub stored : All IsStored entries

move_to_end-IsValid :
    (key : HiveCacheKey) (entry : CacheEntry) (entries : Entries)
    → lookup key entries ≡ some entry
    → IsValid entries
    → IsValid (move_to_end key entries)
unfolding move_to_end
move_to_end-IsValid key entry entries e v =
    rw (e, move_to_end)
      (record {
        bounded = omega (
          arith,
          length-append {0} (erase key entries) ((key, entry) ∷ []),
          length-erase-some key entries entry e,
        );
        distinct =
            Distinct-append_one key entry _ (erase-Distinct key entries v.distinct)
              (lookup-erase_self key entries v.distinct);
        stored =
            All-append IsStored (erase key entries) ((key, entry) ∷ [])
              (All-erase IsStored key entries v.stored)
              (All-lookup IsStored key entries v.stored e, tt);
      })

-- `_get` keeps the invariant.
pub get-IsValid :
    (now : ℕ) (key : HiveCacheKey) (entries : Entries)
    → IsValid entries
    → IsValid (get now key entries).1
unfolding get
get-IsValid now key entries v = elim (Option-cases (lookup key entries)) [
  | inl e ↦ rw (e, get) v
  | inr (entry, e) ↦ elim (Bool-cases (leb entry.expires_at now)) [
    | inl old ↦
        rw (e, get, old)
          (record {
            bounded = omega (arith, length-erase key entries, v.bounded);
            distinct = erase-Distinct key entries v.distinct;
            stored = All-erase IsStored key entries v.stored;
          })
    | inr live ↦ rw (e, get, live) (move_to_end-IsValid key entry entries e v)
  ]
]

abbrev entry_of : ℕ → ℕ → CacheableHiveResult → CacheEntry
entry_of ttl now value = record { value = value; expires_at = now + ttl }

-- The live entries of other keys, from the least to the most recently used.
abbrev pub others : ℕ → HiveCacheKey → Entries → Entries
others now key entries = erase key (filter (is_live now) entries)

put-pop_oldest :
    (ttl now : ℕ) (key : HiveCacheKey) (value : CacheableHiveResult) (entries : Entries)
    → put ttl now key value entries
      ≡ pop_oldest max_cache_entries (others now key entries ++ (key, entry_of ttl now value) ∷ [])
unfolding put
put-pop_oldest ttl now key value entries =
    ap (pop_oldest max_cache_entries)
      (move_to_end-set_item key (entry_of ttl now value) (filter (is_live now) entries))

-- `_put` keeps the invariant, for a result that fits its key.
pub put-IsValid :
    (ttl now : ℕ) (key : HiveCacheKey) (value : CacheableHiveResult) (entries : Entries)
    → validated_result key value ≡ ok value
    → IsValid entries
    → IsValid (put ttl now key value entries)
put-IsValid ttl now key value entries fits v =
    let live = filter (is_live now) entries in
    let live_distinct = filter-Distinct (is_live now) entries v.distinct in
    let live_stored = All-filter_of IsStored (is_live now) entries v.stored in
    rw (put-pop_oldest ttl now key value entries) (record {
      bounded = length-pop_oldest max_cache_entries _;
      distinct = pop_oldest-Distinct max_cache_entries _ (
          Distinct-append_one key _ (erase key live) (erase-Distinct key live live_distinct)
            (lookup-erase_self key live live_distinct));
      stored = All-pop_oldest IsStored max_cache_entries _ (
          All-append IsStored (erase key live) _ (All-erase IsStored key live live_stored)
            (fits, tt));
    })

-- A result that is put is found by every read of its key that happens before its time to live has
-- passed, and by no read after that.
pub get-put :
    (ttl now later : ℕ) (key : HiveCacheKey) (value : CacheableHiveResult) (entries : Entries)
    → IsValid entries
    → (get later key (put ttl now key value entries)).0
      ≡ (if ltb later (now + ttl) then some value else none)
unfolding get
get-put ttl now later key value entries v =
    let live = filter (is_live now) entries in
    let live_distinct = filter-Distinct (is_live now) entries v.distinct in
    rw
      (
        put-pop_oldest ttl now key value entries,
        lookup-pop_oldest_last max_cache_entries key (entry_of ttl now value) (erase key live)
            (omega arith) (lookup-erase_self key live live_distinct),
        get,
      )
      (ground arith)

-- A `_put` into valid entries drops what has expired and the key's old entry, appends the new one as
-- the most recent, and evicts nothing more while at most 256 entries are left; else it evicts the
-- one least recently used.
pub put_evicts :
    (ttl now : ℕ) (key : HiveCacheKey) (value : CacheableHiveResult) (entries : Entries)
    → IsValid entries
    → put ttl now key value entries
      ≡ (if ltb (length (others now key entries)) max_cache_entries
          then others now key entries
          else drop 1 (others now key entries))
        ++ (key, entry_of ttl now value) ∷ []
put_evicts ttl now key value entries v =
    let rest = others now key entries in
    let small : length rest ≤ max_cache_entries = omega (
      arith,
      length-erase key (filter (is_live now) entries),
      length-filter-le {0} (is_live now) entries,
      v.bounded,
    ) in
    put-pop_oldest ttl now key value entries
    ∙ pop_oldest-eq-drop max_cache_entries _
    ∙ drop-append_one max_cache_entries rest (key, entry_of ttl now value) (omega arith) small

-- A read finds a value exactly when the key has an entry that has not expired, and then it is that
-- entry's value.
pub get-some_iff :
    (now : ℕ) (key : HiveCacheKey) (entries : Entries) (value : CacheableHiveResult)
    → ((get now key entries).0 ≡ some value) ↔ (
        (entry : CacheEntry) × (lookup key entries ≡ some entry)
        × (now < entry.expires_at)
        × (entry.value ≡ value))
unfolding get
get-some_iff now key entries value = (
  (λ h. elim (Option-cases (lookup key entries)) [
    | inl e ↦ absurd (ground arith)
    | inr (entry, e) ↦ (entry, e, ground arith, ground arith)
  ]),
  (λ x. let (entry, e, live, same) = x in rw (e, get) (ground arith)),
)
