-- ===== src/OrderedDict.antt =====
-- Python's `OrderedDict`, as the list of its items from the oldest to the newest.
pub mod Laws
use etl_mcp_suite.Base.{
  ℕ, zero, suc, ◌+◌, ◌-◌, ◌*◌, ◌/◌, ◌%◌, ◌^◌, ◌≤◌, ◌<◌, min, ◌≡◌, refl, sym, ap, ◌∙◌, subst, ◌≢◌,
  ◌↔◌, ◌⊎◌, inl, inr, Bool, true, false, ◌&&◌, ◌||◌, not, Option, none, some, List, [], ◌∷◌, ◌++◌,
  map, foldl, append-nil, append_assoc, arith, ltb, leb, ◌==◌, if◌then◌else◌, ltb→lt, lt→ltb,
  leb→le, ==_iff, tests, Bool-cases, Option-cases, &&-eq-true, ||-eq-false, length, take, drop,
  is_empty, any, all, filter, All, length-append, length-take-le, all-append, All-append, All-map,
  All-filter, length-filter-le, Result, ok, err, ◌>>=◌, ◌>>◌, raise_if, Result-cases, >>=-eq-ok,
}

-- Python's `==` on the keys.
pub record Eq {ℓ} (A : Type ℓ) : Type ℓ where
  pub beq : A → A → Bool
  pub beq_iff : (a b : A) → (beq a b ≡ true) ↔ (a ≡ b)

abbrev pub OrderedDict {ℓ} : Type ℓ → Type ℓ → Type ℓ
OrderedDict K V = List (K × V)

module _ {ℓ} {K V : Type ℓ} ⦃e : Eq K⦄ where
  -- `d.get(k)`
  unfoldable pub lookup : K → OrderedDict K V → Option V
  lookup k [] = none
  lookup k ((j, v) ∷ d) = if e.beq k j then some v else lookup k d

  -- `del d[k]`
  unfoldable pub erase : K → OrderedDict K V → OrderedDict K V
  erase k [] = []
  erase k ((j, v) ∷ d) = if e.beq k j then d else (j, v) ∷ erase k d

  -- `d[k] = v`: a key that is there keeps its place.
  unfoldable pub set_item : K → V → OrderedDict K V → OrderedDict K V
  set_item k v [] = (k, v) ∷ []
  set_item k v ((j, w) ∷ d) = if e.beq k j then (k, v) ∷ d else (j, w) ∷ set_item k v d

  -- `d.move_to_end(k)`, for a key that is there.
  unfoldable pub move_to_end : K → OrderedDict K V → OrderedDict K V
  unfolding lookup erase
  move_to_end k d = elim (lookup k d) [ none ↦ d | some v ↦ erase k d ++ (k, v) ∷ [] ]

  -- `while len(d) > limit: d.popitem(last=False)`
  unfoldable pub pop_oldest : ℕ → OrderedDict K V → OrderedDict K V
  pop_oldest limit [] = []
  pop_oldest limit (x ∷ d) =
      let rest = pop_oldest limit d in if ltb limit (length (x ∷ d)) then rest else x ∷ d
