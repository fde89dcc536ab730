-- ===== src/Base/Lists.antt =====
-- Lists measured by native numbers, Boolean quantifiers, and a predicate on all elements.
use mathlib.Core.Logic.{inl, inr}
use Prim.Native.Nat.{◌-◌, ◌<◌, ℕ, zero, suc, ◌+◌, ◌≤◌}
use mathlib.Core.Path.{◌≡◌, refl}
use mathlib.Core.Bool.{Bool, true, false, ◌&&◌, ◌||◌}
use mathlib.Core.List.{List, [], ◌∷◌, ◌++◌}
use native.Mathlib.Omega.{arith}
use etl_mcp_suite.Base.Tests.{Bool-cases, ltb, tests, if◌then◌else◌}

module _ {ℓ} {A : Type ℓ} where
  abbrev pub length : List A → ℕ
  length [] = 0
  length (x ∷ xs) = suc (length xs)

  abbrev pub take : ℕ → List A → List A
  take zero xs = []
  take (suc n) [] = []
  take (suc n) (x ∷ xs) = x ∷ take n xs

  abbrev pub drop : ℕ → List A → List A
  drop zero xs = xs
  drop (suc n) [] = []
  drop (suc n) (x ∷ xs) = drop n xs

  -- `not l`
  abbrev pub is_empty : List A → Bool
  is_empty [] = true
  is_empty (x ∷ xs) = false

  -- `any(p(x) for x in l)`
  abbrev pub any : (A → Bool) → List A → Bool
  any p [] = false
  any p (x ∷ xs) = p x || any p xs

  -- `all(p(x) for x in l)`
  abbrev pub all : (A → Bool) → List A → Bool
  all p [] = true
  all p (x ∷ xs) = p x && all p xs

  -- `[x for x in l if p(x)]`
  abbrev pub filter : (A → Bool) → List A → List A
  filter p [] = []
  filter p (x ∷ xs) = if p x then x ∷ filter p xs else filter p xs

  abbrev pub All {κ} : (A → Type κ) → List A → Type κ
  All P [] = Unit
  All P (x ∷ xs) = P x × All P xs

  pub length-append : (xs ys : List A) → length (xs ++ ys) ≡ length xs + length ys
  length-append [] ys = omega arith
  length-append (x ∷ xs) ys = omega (arith, length-append xs ys)

  pub length-take-le : (n : ℕ) (xs : List A) → length (take n xs) ≤ n
  length-take-le zero xs = omega arith
  length-take-le (suc n) [] = omega arith
  length-take-le (suc n) (x ∷ xs) = omega (arith, length-take-le n xs)

module _ {ℓ} {A : Type ℓ} where
  pub all-append : (p : A → Bool) (xs ys : List A) → all p (xs ++ ys) ≡ (all p xs && all p ys)
  all-append p [] ys = refl
  all-append p (x ∷ xs) ys = ground (arith, all-append p xs ys)

  pub All-append {κ} : (P : A → Type κ) (xs ys : List A) → All P xs → All P ys → All P (xs ++ ys)
  All-append P [] ys h k = k
  All-append P (x ∷ xs) ys h k = (h.0, All-append P xs ys h.1 k)

  pub All-map {κ μ} :
      (P : A → Type κ) (Q : A → Type μ) (imp : (x : A) → P x → Q x) (xs : List A)
      → All P xs
      → All Q xs
  All-map P Q imp [] h = tt
  All-map P Q imp (x ∷ xs) h = (imp x h.0, All-map P Q imp xs h.1)

  -- what a filter keeps passes the test
  pub All-filter : (p : A → Bool) (xs : List A) → All (λ x. p x ≡ true) (filter p xs)
  All-filter p [] = tt
  All-filter p (x ∷ xs) = ground (arith, All-filter p xs)

  pub length-filter-le : (p : A → Bool) (xs : List A) → length (filter p xs) ≤ length xs
  length-filter-le p [] = omega arith
  length-filter-le p (x ∷ xs) = ground (arith, length-filter-le p xs)

  drop_one : (xs : List A) (x : A) → 0 < length xs → drop 1 (xs ++ x ∷ []) ≡ drop 1 xs ++ x ∷ []
  drop_one [] x h = absurd (omega arith)
  drop_one (y ∷ xs) x h = refl

  -- the last `n` of one more element than fits
  pub drop-append_one :
      (n : ℕ) (xs : List A) (x : A)
      → 0 < n
      → length xs ≤ n
      → drop (length (xs ++ x ∷ []) - n) (xs ++ x ∷ [])
        ≡ (if ltb (length xs) n then xs else drop 1 xs) ++ x ∷ []
  drop-append_one n xs x pos fits = elim (Bool-cases (ltb (length xs) n)) [
    | inl less ↦
        let none_over : length (xs ++ x ∷ []) - n ≡ 0 =
          omega (tests, length-append xs (x ∷ []), less) in
        rw (less, none_over)
    | inr full ↦
        let one_over : length (xs ++ x ∷ []) - n ≡ 1 =
          let same : length xs ≡ n = ground arith in omega (arith, length-append xs (x ∷ [])) in
        rw (full, one_over) (drop_one xs x (ground arith))
  ]
