-- ===== src/Hive/Cache/Keys.antt =====
-- Keys of the cache: equality, and the round trip through `_validated_key`.
use etl_mcp_suite.Hive.Identifiers.Quoting.{
  map-lower_char_idem, map-lower_char-is_identifier, hive_identifier_of, hive_identifier-ok,
}
use etl_mcp_suite.Hive.Cache.{
  casefold, make_key, key_tuple, validated_key, make_hive_cache_key, normalized_identifier,
  HiveCacheKey, list_databases, list_tables, get_table_schema, key_eq, eq_bool, is_given,
}
use etl_mcp_suite.Text.{codes, str_eq, Str, str_eq_refl, eq_of_str_eq}
use etl_mcp_suite.Value.{Value, boolean, text}
use etl_mcp_suite.Hive.Identifiers.{hive_identifier, is_identifier}
use etl_mcp_suite.Base.{
  ◌≡◌, refl, ap, subst, ◌↔◌, inl, inr, Bool, true, false, ◌||◌, Option, none, some, arith, ok,
  Ensures, returns, raises, of_Ensures, Ensures-if, Ensures-bind, Result-cases,
}
use etl_mcp_suite.OrderedDict.{Eq}

eq_bool_refl : (b : Bool) → eq_bool b b ≡ true
eq_bool_refl true = refl
eq_bool_refl false = refl

pub eq_of_eq_bool : (a b : Bool) → eq_bool a b ≡ true → a ≡ b
eq_of_eq_bool a b h = ground arith

key_eq_refl : (k : HiveCacheKey) → key_eq k k ≡ true
unfolding key_eq
key_eq_refl list_databases = refl
key_eq_refl (list_tables d) = str_eq_refl d
key_eq_refl (get_table_schema d t i) = rw (str_eq_refl d, str_eq_refl t, eq_bool_refl i)

eq_of_key_eq : (k j : HiveCacheKey) → key_eq k j ≡ true → k ≡ j
unfolding key_eq
eq_of_key_eq list_databases list_databases h = refl
eq_of_key_eq (list_tables d) (list_tables d') h = cc (eq_of_str_eq d d' h)
eq_of_key_eq (get_table_schema d t i) (get_table_schema d' t' i') h =
    ground (arith, eq_of_str_eq d d', eq_of_str_eq t t', eq_of_eq_bool i i')
eq_of_key_eq _ _ h = cc

pub key_eq_iff : (k j : HiveCacheKey) → (key_eq k j ≡ true) ↔ (k ≡ j)
key_eq_iff k j = (eq_of_key_eq k j, λ e. subst (λ x. key_eq k x ≡ true) e (key_eq_refl k))

instance abbrev pub key_instance : Eq HiveCacheKey
key_instance = record { beq = key_eq; beq_iff = key_eq_iff }

-- A name as a key holds it: an identifier that is folded already.
abbrev pub IsFolded : Str → Type 0
IsFolded s = (is_identifier s ≡ true) × (casefold s ≡ s)

normalized_identifier-IsFolded : (o : Option Str) → Ensures IsFolded (normalized_identifier o)
unfolding normalized_identifier
normalized_identifier-IsFolded none = raises
normalized_identifier-IsFolded (some t) = elim (Result-cases (hive_identifier (text t))) [
  | inl (i, e) ↦
      let (_, valid) = hive_identifier-ok (text t) i e in
      rw (e, normalized_identifier)
        (returns (map-lower_char-is_identifier i.value valid, map-lower_char_idem i.value))
  | inr (x, e) ↦ rw (e, normalized_identifier) raises
]

normalized_identifier_of : (s : Str) → IsFolded s → normalized_identifier (some s) ≡ ok s
unfolding normalized_identifier
normalized_identifier_of s h = rw (hive_identifier_of s h.0, normalized_identifier) (ap ok h.1)

abbrev pub IsCanonical : HiveCacheKey → Type 0
IsCanonical list_databases = Unit
IsCanonical (list_tables d) = IsFolded d
IsCanonical (get_table_schema d t i) = IsFolded d × IsFolded t

make_key-IsCanonical :
    (tool_name : Str) (database table : Option Str) (include_ddl : Bool)
    → Ensures IsCanonical (make_key tool_name database table include_ddl)
make_key-IsCanonical tool_name database table include_ddl =
    Ensures-if (str_eq tool_name (codes "list_databases"))
      (λ _.
        Ensures-if (is_given database || is_given table || include_ddl) (λ _. raises)
          (λ _. returns tt))
      (λ _.
        Ensures-if (str_eq tool_name (codes "list_tables"))
          (λ _.
            Ensures-if (is_given table || include_ddl) (λ _. raises)
              (λ _. Ensures-bind (normalized_identifier-IsFolded database) (λ d h. returns h)))
          (λ _.
            Ensures-if (str_eq tool_name (codes "get_table_schema"))
              (λ _. Ensures-bind (normalized_identifier-IsFolded database) (λ d h.
                Ensures-bind (normalized_identifier-IsFolded table) (λ t k. returns (h, k))))
              (λ _. raises)))

make_hive_cache_key-IsCanonical :
    (tool_name : Str) (database table : Option Str) (include_ddl : Value)
    → Ensures IsCanonical (make_hive_cache_key tool_name database table include_ddl)
unfolding make_hive_cache_key
make_hive_cache_key-IsCanonical tool_name database table (boolean include_ddl) =
    make_key-IsCanonical tool_name database table include_ddl
make_hive_cache_key-IsCanonical tool_name database table _ = raises

-- A canonical key passes the check of `get_or_load`.
pub validated_key_of_IsCanonical :
    (key : HiveCacheKey) → IsCanonical key → validated_key (key_tuple key) ≡ ok key
unfolding validated_key key_tuple make_hive_cache_key str_eq
validated_key_of_IsCanonical list_databases h = refl
validated_key_of_IsCanonical (list_tables d) h =
    rw (normalized_identifier_of d h, key_eq_refl (list_tables d))
validated_key_of_IsCanonical (get_table_schema d t i) h = rw (
  normalized_identifier_of d h.0,
  normalized_identifier_of t h.1,
  key_eq_refl (get_table_schema d t i),
)

-- A key that `make_hive_cache_key` builds, from whatever arguments, passes the check of
-- `get_or_load` unchanged.
pub validated_key-make_hive_cache_key :
    (tool_name : Str) (database table : Option Str) (include_ddl : Value) (key : HiveCacheKey)
    → make_hive_cache_key tool_name database table include_ddl ≡ ok key
    → validated_key (key_tuple key) ≡ ok key
validated_key-make_hive_cache_key tool_name database table include_ddl key h =
    validated_key_of_IsCanonical key
      (of_Ensures (make_hive_cache_key-IsCanonical tool_name database table include_ddl) h)
