-- ===== src/Errors/Safety.antt =====
-- What the filters of core/errors.py guarantee.
use etl_mcp_suite.Base.{
  ◌≡◌, refl, sym, ap, subst, ◌≢◌, ◌↔◌, ◌⊎◌, inl, inr, Bool, true, false, ◌&&◌, not, Option, none,
  some, List, [], ◌∷◌, arith, if◌then◌else◌, Bool-cases, &&-eq-true, ||-eq-false, is_empty, filter,
  All, All-map, All-filter, Result, ok, err, ◌>>=◌, Result-cases,
}
use etl_mcp_suite.Text.{Str, contains, str_eq, mem_str, eq_of_str_eq}
use etl_mcp_suite.Value.{Value, text}
use etl_mcp_suite.Errors.{
  ErrorCategory, ToolOperation, RawIdentifiers, ToolError, ToolErrorFailure, safe_items,
  identifier_key_is_safe, identifier_value_is_safe, safe_error_identifiers, create, to_dict,
  unexpected_tool_error, checked_identifiers, has_secret, with_text, error_message,
  shown_explanation, key_not_allowed, value_unsafe,
}

-- Identifiers that `checked_identifiers` accepts, written back as a raw mapping.
abbrev pub as_raw : List (Str × Str) → RawIdentifiers
as_raw [] = []
as_raw ((key, value) ∷ rest) = (text key, text value) ∷ as_raw rest

-- One identifier as `ToolError` may carry it.
abbrev pub IsSafe : ToolOperation → Str × Str → Type 0
IsSafe operation (key, value) =
    (identifier_key_is_safe operation (text key) ≡ true)
    × (identifier_value_is_safe (text value) ≡ true)

with_text-IsSafe :
    (operation : ToolOperation) (key value : Value) (rest : List (Str × Str))
    → identifier_key_is_safe operation key ≡ true
    → identifier_value_is_safe value ≡ true
    → All (IsSafe operation) rest
    → All (IsSafe operation) (with_text key value rest)
with_text-IsSafe operation (text k) (text v) rest a b h = ((a, b), h)
with_text-IsSafe operation _ _ rest a b h = h

safe_items-IsSafe :
    (operation : ToolOperation) (raw : RawIdentifiers)
    → All (IsSafe operation) (safe_items operation raw)
unfolding safe_items
safe_items-IsSafe operation [] = tt
safe_items-IsSafe operation ((key, value) ∷ raw) =
    let rest = safe_items-IsSafe operation raw in
    elim (Bool-cases (identifier_key_is_safe operation key && identifier_value_is_safe value)) [
      | inl both ↦
          let (k, v) = &&-eq-true _ _ both in
          rw both (with_text-IsSafe operation key value _ k v rest)
      | inr other ↦ rw other rest
    ]

checked_of_IsSafe :
    (operation : ToolOperation) (ids : List (Str × Str))
    → All (IsSafe operation) ids
    → checked_identifiers operation (as_raw ids) ≡ ok ids
unfolding checked_identifiers
checked_of_IsSafe operation [] h = refl
checked_of_IsSafe operation ((key, value) ∷ ids) h =
    rw (h.0.0, h.0.1, checked_of_IsSafe operation ids h.1)

-- Whatever identifiers a caller supplies, the filtered ones build an error: `create` accepts every
-- result of `safe_error_identifiers` for the same operation, and carries exactly those identifiers,
-- with the fixed message of the category.
pub create-safe_error_identifiers :
    (id : Str) (category : ErrorCategory) (operation : ToolOperation) (retryable : Bool)
    (raw : Option RawIdentifiers) (explanation : Option Str)
    → create id category operation retryable
        (as_raw (safe_error_identifiers operation raw))
        explanation
      ≡ ok (record {
        category = category;
        operation = operation;
        retryable = retryable;
        identifiers = safe_error_identifiers operation raw;
        explanation = explanation;
        message = error_message category;
        correlation_id = id;
      })
unfolding create safe_error_identifiers
create-safe_error_identifiers id category operation retryable none explanation = refl
create-safe_error_identifiers id category operation retryable (some raw) explanation =
    rw (checked_of_IsSafe operation _ (safe_items-IsSafe operation raw))

-- A raw identifier that may be put into an error.
abbrev pub IsSafeItem : ToolOperation → Value × Value → Type 0
IsSafeItem operation (key, value) =
    (identifier_key_is_safe operation key ≡ true) × (identifier_value_is_safe value ≡ true)

abbrev pub IsOk : {A : Type 0} → Result ToolErrorFailure A → Type 0
IsOk (ok _) = Unit
IsOk (err _) = ⊥

IsOk-step :
    (k v : Bool) (m : Result ToolErrorFailure (List (Str × Str)))
    (f : List (Str × Str) → List (Str × Str)) (P : Type 0)
    → IsOk m ↔ P
    → IsOk (
        if not k
        then err key_not_allowed
        else if not v
        then err value_unsafe
        else (m >>= λ checked. ok (f checked)))
      ↔ (((k ≡ true) × (v ≡ true)) × P)
IsOk-step true true (ok c) f P h = (λ o. ((refl, refl), h.0 o), λ p. tt)
IsOk-step true true (err e) f P h = (λ o. absurd o, λ p. h.1 p.1)
IsOk-step true false m f P h = (λ o. absurd o, λ p. cc p.0.1)
IsOk-step false v m f P h = (λ o. absurd o, λ p. cc p.0.0)

checked-IsOk :
    (operation : ToolOperation) (raw : RawIdentifiers)
    → IsOk (checked_identifiers operation raw) ↔ All (IsSafeItem operation) raw
unfolding checked_identifiers
checked-IsOk operation [] = (λ h. tt, λ h. tt)
checked-IsOk operation ((key, value) ∷ raw) =
    IsOk-step (identifier_key_is_safe operation key) (identifier_value_is_safe value)
      (checked_identifiers operation raw) (with_text key value) _ (checked-IsOk operation raw)

IsOk-bind :
    {A : Type 0} (m : Result ToolErrorFailure (List (Str × Str))) (f : List (Str × Str) → A)
    → IsOk (m >>= λ c. ok (f c)) ↔ IsOk m
IsOk-bind (ok c) f = (λ h. h, λ h. h)
IsOk-bind (err e) f = (λ h. h, λ h. h)

-- `create` returns an error value exactly when every key of the identifiers is allowed for the
-- operation and every value is safe; otherwise it raises.
pub create-IsOk_iff :
    (id : Str) (category : ErrorCategory) (operation : ToolOperation) (retryable : Bool)
    (raw : RawIdentifiers) (explanation : Option Str)
    → IsOk (create id category operation retryable raw explanation) ↔ All (IsSafeItem operation) raw
unfolding create
create-IsOk_iff id category operation retryable raw explanation =
    let (f, g) = IsOk-bind (checked_identifiers operation raw) _ in
    let (p, q) = checked-IsOk operation raw in (λ h. p (f h), λ h. g (q h))

-- `secret` is not shown.
abbrev pub Hides : Str → Option Str → Type 0
Hides secret none = Unit
Hides secret (some t) = contains secret t ≡ false

mem_str-filter :
    (s : Str) (xs : List Str)
    → mem_str s xs ≡ true
    → s ≢ []
    → mem_str s (filter (λ x. not (is_empty x)) xs) ≡ true
unfolding mem_str
mem_str-filter s [] m ne = cc
mem_str-filter s ([] ∷ xs) m ne = ground (arith, eq_of_str_eq s [], mem_str-filter s xs)
mem_str-filter s ((c ∷ x) ∷ xs) m ne = ground (arith, mem_str-filter s xs)

not-contains_of_not-has_secret :
    (s v : Str) (secrets : List Str)
    → mem_str s secrets ≡ true
    → has_secret secrets v ≡ false
    → contains s v ≡ false
unfolding mem_str has_secret
not-contains_of_not-has_secret s v [] m h = cc
not-contains_of_not-has_secret s v (x ∷ xs) m h = elim (Bool-cases (str_eq s x)) [
  | inl same ↦ subst (λ u. contains u v ≡ false) (sym (eq_of_str_eq s x same)) (||-eq-false _ _ h).0
  | inr other ↦
      not-contains_of_not-has_secret s v xs (ground arith) (||-eq-false (contains x v) _ h).1
]

Hides-shown_explanation :
    (s : Str) (secrets : List Str) (o : Option Str)
    → mem_str s secrets ≡ true
    → Hides s (shown_explanation secrets o)
Hides-shown_explanation s secrets none m = tt
Hides-shown_explanation s secrets (some e) m =
    elim (Bool-cases (not (is_empty e) && not (has_secret secrets e))) [
      | inl shown ↦ rw shown (not-contains_of_not-has_secret s e secrets m (ground arith))
      | inr hidden ↦ rw hidden tt
    ]

-- Whatever the error, a nonempty secret that is passed to `to_dict` occurs neither in the value of
-- any identifier of the payload nor in its explanation.
pub to_dict-Hides_secret :
    (secret_values : List Str) (e : ToolError) (secret : Str)
    → mem_str secret secret_values ≡ true
    → secret ≢ []
    → All (λ item. contains secret item.1 ≡ false) (to_dict secret_values e).identifiers
      × Hides secret (to_dict secret_values e).explanation
unfolding to_dict
to_dict-Hides_secret secret_values e secret m ne =
    let secrets = filter (λ s. not (is_empty s)) secret_values in
    let m' = mem_str-filter secret secret_values m ne in
    (
      All-map _ _
          (λ item h. not-contains_of_not-has_secret secret item.1 secrets m' (ground (arith, h))) _
          (All-filter (λ item. not (has_secret secrets item.1)) e.identifiers),
      Hides-shown_explanation secret secrets e.explanation m',
    )

-- Safe identifiers are carried whole, as they were given.
checked_identifiers-as_raw :
    (operation : ToolOperation) (raw : RawIdentifiers)
    → All (IsSafeItem operation) raw
    → (ids : List (Str × Str)) × (raw ≡ as_raw ids) × (checked_identifiers operation raw ≡ ok ids)
unfolding checked_identifiers identifier_key_is_safe identifier_value_is_safe
checked_identifiers-as_raw operation [] h = ([], refl, refl)
checked_identifiers-as_raw operation ((text key, text value) ∷ raw) h =
    let (ids, same, checked) = checked_identifiers-as_raw operation raw h.1 in
    ((key, value) ∷ ids, ap (λ r. (text key, text value) ∷ r) same, rw (h.0.0, h.0.1, checked))
checked_identifiers-as_raw operation ((text key, _) ∷ raw) h = cc h.0.1
checked_identifiers-as_raw operation ((_, value) ∷ raw) h = cc h.0.0

abbrev made : Str → ToolOperation → List (Str × Str) → ToolError
made id operation identifiers = record {
  category = ErrorCategory.upstream_error;
  operation = operation;
  retryable = false;
  identifiers = identifiers;
  explanation = none;
  message = error_message ErrorCategory.upstream_error;
  correlation_id = id;
}

-- The error for an uncategorized exception can always be built: it is an `UPSTREAM_ERROR` that is
-- not retryable and explains nothing. If all the identifiers are safe, it is for the operation and
-- carries all of them as they were given; else it is for `RUNTIME` and carries none.
pub unexpected_tool_error_total :
    (id id' : Str) (operation : ToolOperation) (raw : RawIdentifiers)
    → (e : ToolError) × (unexpected_tool_error id id' operation raw ≡ ok e)
      × (e.category ≡ ErrorCategory.upstream_error)
      × (e.retryable ≡ false)
      × (e.explanation ≡ none)
      × ((All (IsSafeItem operation) raw × (e.operation ≡ operation) × (raw ≡ as_raw e.identifiers))
          ⊎ ((¬ All (IsSafeItem operation) raw)
              × (e.operation ≡ ToolOperation.runtime)
              × (e.identifiers ≡ [])))
unfolding unexpected_tool_error create checked_identifiers
unexpected_tool_error_total id id' operation raw =
    let (safe, checked) = checked-IsOk operation raw in
    elim (Result-cases (checked_identifiers operation raw)) [
      | inl (c, e) ↦
          let all_safe = safe (subst IsOk (sym e) tt) in
          let (ids, same, accepted) = checked_identifiers-as_raw operation raw all_safe in
          (made id operation ids, rw accepted, refl, refl, refl, inl (all_safe, refl, same))
      | inr (f, e) ↦ (
        made id' ToolOperation.runtime [],
        rw e,
        refl,
        refl,
        refl,
        inr (λ h. subst IsOk e (checked h), refl, refl),
      )
    ]

-- `create` with one identifier, whose key is allowed.
pub create_one :
    (id : Str) (category : ErrorCategory) (operation : ToolOperation) (retryable : Bool)
    (key value : Str)
    → identifier_key_is_safe operation (text key) ≡ true
    → create id category operation retryable ((text key, text value) ∷ []) none ≡ (
        if identifier_value_is_safe (text value)
        then ok (record {
          category = category;
          operation = operation;
          retryable = retryable;
          identifiers = (key, value) ∷ [];
          explanation = none;
          message = error_message category;
          correlation_id = id;
        })
        else err value_unsafe)
unfolding create checked_identifiers
create_one id category operation retryable key value h =
    elim (Bool-cases (identifier_value_is_safe (text value))) [
      | inl safe ↦ rw (h, safe)
      | inr unsafe ↦ rw (h, unsafe)
    ]
