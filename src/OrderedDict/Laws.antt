-- ===== src/OrderedDict/Laws.antt =====
-- Laws of the ordered dictionary.
use etl_mcp_suite.Base.{
  ℕ, zero, suc, ◌+◌, ◌-◌, ◌≤◌, ◌<◌, ◌≡◌, refl, sym, ap, subst, inl, inr, Bool, true, false, none,
  some, [], ◌∷◌, ◌++◌, arith, ltb, Bool-cases, length, drop, filter, All,
}
use etl_mcp_suite.OrderedDict.{Eq, OrderedDict, lookup, erase, set_item, move_to_end, pop_oldest}

pub beq_refl {ℓ} : {K : Type ℓ} ⦃e : Eq K⦄ (k : K) → e.beq k k ≡ true
beq_refl ⦃e⦄ k = (e.beq_iff k k).1 refl

module _ {ℓ} {K V : Type ℓ} ⦃e : Eq K⦄ where
  -- No key is listed twice.
  abbrev pub Distinct : OrderedDict K V → Type ℓ
  Distinct [] = Unit
  Distinct ((k, v) ∷ d) = (lookup k d ≡ none) × Distinct d

  pub lookup-append :
      (k : K) (d d' : OrderedDict K V)
      → lookup k (d ++ d') ≡ elim (lookup k d) [ none ↦ lookup k d' | some v ↦ some v ]
  unfolding lookup
  lookup-append k [] d' = refl
  lookup-append k ((j, v) ∷ d) d' = ground (arith, lookup-append k d d')

  pub lookup-set_item_self :
      (k : K) (v : V) (d : OrderedDict K V) → lookup k (set_item k v d) ≡ some v
  unfolding lookup set_item
  lookup-set_item_self k v [] = ground (arith, beq_refl k)
  lookup-set_item_self k v ((j, w) ∷ d) = ground (arith, beq_refl k, lookup-set_item_self k v d)

  pub erase-set_item : (k : K) (v : V) (d : OrderedDict K V) → erase k (set_item k v d) ≡ erase k d
  unfolding erase set_item
  erase-set_item k v [] = ground (arith, beq_refl k)
  erase-set_item k v ((j, w) ∷ d) = ground (arith, beq_refl k, erase-set_item k v d)

  -- To write a key and move it to the end is to append it.
  pub move_to_end-set_item :
      (k : K) (v : V) (d : OrderedDict K V)
      → move_to_end k (set_item k v d) ≡ erase k d ++ (k, v) ∷ []
  unfolding move_to_end
  move_to_end-set_item k v d =
      rw (lookup-set_item_self k v d, move_to_end)
        (ap (λ x. x ++ (k, v) ∷ []) (erase-set_item k v d))

  pub lookup-erase_ne :
      (j k : K) (d : OrderedDict K V) → e.beq j k ≡ false → lookup j (erase k d) ≡ lookup j d
  unfolding lookup erase
  lookup-erase_ne j k [] h = refl
  lookup-erase_ne j k ((i, v) ∷ d) h =
      ground (arith, e.beq_iff k i, e.beq_iff j i, e.beq_iff j k, lookup-erase_ne j k d h)

  pub lookup-erase_self : (k : K) (d : OrderedDict K V) → Distinct d → lookup k (erase k d) ≡ none
  unfolding lookup erase
  lookup-erase_self k [] h = refl
  lookup-erase_self k ((i, v) ∷ d) h = ground (arith, e.beq_iff k i, lookup-erase_self k d h.1)

  pub lookup-erase-none :
      (j k : K) (d : OrderedDict K V) → lookup j d ≡ none → lookup j (erase k d) ≡ none
  unfolding lookup erase
  lookup-erase-none j k [] h = refl
  lookup-erase-none j k ((i, v) ∷ d) h = ground (arith, lookup-erase-none j k d)

  pub erase-Distinct : (k : K) (d : OrderedDict K V) → Distinct d → Distinct (erase k d)
  unfolding erase
  erase-Distinct k [] h = tt
  erase-Distinct k ((i, v) ∷ d) h =
      ground (arith, erase-Distinct k d h.1, lookup-erase-none i k d h.0)

  pub Distinct-append_one :
      (k : K) (v : V) (d : OrderedDict K V)
      → Distinct d
      → lookup k d ≡ none
      → Distinct (d ++ (k, v) ∷ [])
  unfolding lookup
  Distinct-append_one k v [] h m = (refl, tt)
  Distinct-append_one k v ((i, w) ∷ d) h m = (
    rw (lookup-append i d ((k, v) ∷ []), h.0) (ground (arith, e.beq_iff k i, e.beq_iff i k)),
    Distinct-append_one k v d h.1 (ground arith),
  )

  lookup-filter-none :
      (k : K) (p : K × V → Bool) (d : OrderedDict K V)
      → lookup k d ≡ none
      → lookup k (filter p d) ≡ none
  unfolding lookup
  lookup-filter-none k p [] h = refl
  lookup-filter-none k p ((i, v) ∷ d) h = ground (arith, lookup-filter-none k p d)

  pub filter-Distinct :
      (p : K × V → Bool) (d : OrderedDict K V) → Distinct d → Distinct (filter p d)
  filter-Distinct p [] h = tt
  filter-Distinct p ((k, v) ∷ d) h =
      ground (arith, lookup-filter-none k p d h.0, filter-Distinct p d h.1)

  pub length-erase : (k : K) (d : OrderedDict K V) → length (erase k d) ≤ length d
  unfolding erase
  length-erase k [] = omega arith
  length-erase k ((i, v) ∷ d) = ground (arith, length-erase k d)

  pub length-erase-some :
      (k : K) (d : OrderedDict K V) (v : V)
      → lookup k d ≡ some v
      → length (erase k d) + 1 ≡ length d
  unfolding lookup erase
  length-erase-some k [] v h = cc
  length-erase-some k ((i, w) ∷ d) v h = ground (arith, length-erase-some k d v)

  pub All-erase {κ} :
      (P : K × V → Type κ) (k : K) (d : OrderedDict K V) → All P d → All P (erase k d)
  unfolding erase
  All-erase P k [] h = tt
  All-erase P k ((i, v) ∷ d) h = ground (arith, All-erase P k d h.1)

  pub All-pop_oldest {κ} :
      (P : K × V → Type κ) (n : ℕ) (d : OrderedDict K V) → All P d → All P (pop_oldest n d)
  unfolding pop_oldest
  All-pop_oldest P n [] h = tt
  All-pop_oldest P n (x ∷ d) h = ground (arith, All-pop_oldest P n d h.1)

  pub length-pop_oldest : (n : ℕ) (d : OrderedDict K V) → length (pop_oldest n d) ≤ n
  unfolding pop_oldest
  length-pop_oldest n [] = omega arith
  length-pop_oldest n (x ∷ d) = ground (arith, length-pop_oldest n d)

  pub pop_oldest-Distinct : (n : ℕ) (d : OrderedDict K V) → Distinct d → Distinct (pop_oldest n d)
  unfolding pop_oldest
  pop_oldest-Distinct n [] h = tt
  pop_oldest-Distinct n (x ∷ d) h = ground (arith, pop_oldest-Distinct n d h.1)

  drop-nil : (n : ℕ) → ◌≡◌ {A = OrderedDict K V} [] (drop n [])
  drop-nil zero = refl
  drop-nil (suc n) = refl

  -- What is popped is a prefix: the oldest items, and only as many as exceed the limit.
  pub pop_oldest-eq-drop : (n : ℕ) (d : OrderedDict K V) → pop_oldest n d ≡ drop (length d - n) d
  unfolding pop_oldest
  pop_oldest-eq-drop n [] = drop-nil (0 - n)
  pop_oldest-eq-drop n (x ∷ d) = elim (Bool-cases (ltb n (suc (length d)))) [
    | inl more ↦
        let eq : suc (length d) - n ≡ suc (length d - n) = ground arith in
        rw (more, eq) (pop_oldest-eq-drop n d)
    | inr fits ↦ let eq : suc (length d) - n ≡ 0 = ground arith in rw (fits, eq)
  ]

  -- The newest item stays.
  pub lookup-pop_oldest_last :
      (n : ℕ) (k : K) (v : V) (d : OrderedDict K V)
      → 0 < n
      → lookup k d ≡ none
      → lookup k (pop_oldest n (d ++ (k, v) ∷ [])) ≡ some v
  unfolding pop_oldest lookup
  lookup-pop_oldest_last n k v [] h m = ground (arith, beq_refl k)
  lookup-pop_oldest_last n k v ((i, w) ∷ d) h m =
      ground (arith, beq_refl k, lookup-append k d ((k, v) ∷ []), lookup-pop_oldest_last n k v d h)

  pub All-lookup {κ} :
      (P : K × V → Type κ) (k : K) (d : OrderedDict K V) {v : V}
      → All P d
      → lookup k d ≡ some v
      → P (k, v)
  unfolding lookup
  All-lookup P k [] h e = cc
  All-lookup P k ((i, w) ∷ d) {v} h found = elim (Bool-cases (e.beq k i)) [
    | inl same ↦
        let one : some w ≡ some v = rw same at found in
        let same_value : w ≡ v = cc one in
        subst (λ x. P (x, v)) (sym ((e.beq_iff k i).0 same)) (subst (λ y. P (i, y)) same_value h.0)
    | inr other ↦ All-lookup P k d h.1 (rw other at found)
  ]

  pub All-filter_of {κ} :
      (P : K × V → Type κ) (p : K × V → Bool) (d : OrderedDict K V) → All P d → All P (filter p d)
  All-filter_of P p [] h = tt
  All-filter_of P p (x ∷ d) h = ground (arith, All-filter_of P p d h.1)
