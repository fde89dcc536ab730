-- ===== src/Value.antt =====
-- Python's `object`, as far as the suite looks at one: what PyHive's cursors, a JSON document or a
-- tool call hand over. `opaque` is any value of a type that the suite never tests for.
use etl_mcp_suite.Base.{ℕ, Bool, false, ◌||◌, List, [], ◌∷◌, if◌then◌else◌}
use etl_mcp_suite.Text.{Str, str_eq}

-- `negsuc n` is -(n + 1)
pub data ℤ : Type 0 where
  pos : ℕ → ℤ
  negsuc : ℕ → ℤ

mutual
  pub data Value : Type 0 where
    null : Value
    boolean : Bool → Value
    integer : ℤ → Value
    text : Str → Value
    binary : List ℕ → Value
    sequence : Items → Value
    mapping : Fields → Value
    opaque : ℕ → Value

  pub data Items : Type 0 where
    nil : Items
    cons : Value → Items → Items

  pub data Fields : Type 0 where
    end : Fields
    field : Str → Value → Fields → Fields

-- The items of a list or a tuple.
abbrev pub items : Items → List Value
items nil = []
items (cons x xs) = x ∷ items xs

-- `dict.get`
unfoldable pub get_value : Str → Fields → Value
get_value key end = null
get_value key (field name value rest) = if str_eq name key then value else get_value key rest

-- `key in mapping`
unfoldable pub has_key : Str → Fields → Bool
has_key key end = false
has_key key (field name value rest) = str_eq name key || has_key key rest

-- The mapping that a value is, or an empty one.
unfoldable pub object_of : Value → Fields
object_of (mapping entry) = entry
object_of _ = end
