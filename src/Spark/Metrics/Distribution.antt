-- ===== src/Spark/Metrics/Distribution.antt =====
-- The summary of a metric: its order, and its percentiles by the nearest rank.
use etl_mcp_suite.Spark.Metrics.{
  MetricDistribution, insert_value, metric_distribution, percentile_index, sorted_values, value_at,
}
use etl_mcp_suite.Base.{
  ℕ, zero, suc, ◌+◌, ◌-◌, ◌*◌, ◌≤◌, ◌<◌, ◌≡◌, refl, ap, ◌∙◌, subst, ◌⊎◌, inl, inr, some, List, [],
  ◌∷◌, arith, ltb, leb, ◌==◌, if◌then◌else◌, Bool-cases, length, All,
}

-- How many values are at most x, and how many are below it.
unfoldable pub count_at_most : ℕ → List ℕ → ℕ
count_at_most x [] = 0
count_at_most x (y ∷ ys) = (if leb y x then 1 else 0) + count_at_most x ys

unfoldable pub count_below : ℕ → List ℕ → ℕ
count_below x [] = 0
count_below x (y ∷ ys) = (if ltb y x then 1 else 0) + count_below x ys

-- A value of a list.
abbrev pub Occurs : ℕ → List ℕ → Type 0
Occurs x [] = ⊥
Occurs x (y ∷ ys) = (y ≡ x) ⊎ Occurs x ys

-- From the least to the greatest: no head is above what follows.
abbrev IsSorted : List ℕ → Type 0
IsSorted [] = Unit
IsSorted (x ∷ xs) = All (λ y. x ≤ y) xs × IsSorted xs

insert_value-length : (x : ℕ) (ys : List ℕ) → length (insert_value x ys) ≡ suc (length ys)
unfolding insert_value
insert_value-length x [] = refl
insert_value-length x (y ∷ ys) = ground (arith, insert_value-length x ys)

pub sorted_values-length : (xs : List ℕ) → length (sorted_values xs) ≡ length xs
unfolding sorted_values
sorted_values-length [] = refl
sorted_values-length (x ∷ xs) =
    insert_value-length x (sorted_values xs) ∙ ap suc (sorted_values-length xs)

insert_value-at_most :
    (p x : ℕ) (ys : List ℕ) → count_at_most p (insert_value x ys) ≡ count_at_most p (x ∷ ys)
unfolding insert_value count_at_most
insert_value-at_most p x [] = refl
insert_value-at_most p x (y ∷ ys) = ground (arith, insert_value-at_most p x ys)

insert_value-below :
    (p x : ℕ) (ys : List ℕ) → count_below p (insert_value x ys) ≡ count_below p (x ∷ ys)
unfolding insert_value count_below
insert_value-below p x [] = refl
insert_value-below p x (y ∷ ys) = ground (arith, insert_value-below p x ys)

All-insert : (P : ℕ → Type 0) (x : ℕ) (ys : List ℕ) → P x → All P ys → All P (insert_value x ys)
unfolding insert_value
All-insert P x [] h hs = (h, tt)
All-insert P x (y ∷ ys) h (k, ks) = elim (Bool-cases (leb x y)) [
  | inl small ↦ rw small (h, (k, ks))
  | inr large ↦ rw large (k, All-insert P x ys h ks)
]

All-weaken : (x y : ℕ) (zs : List ℕ) → x ≤ y → All (λ z. y ≤ z) zs → All (λ z. x ≤ z) zs
All-weaken x y [] h k = tt
All-weaken x y (z ∷ zs) h (k, ks) = (omega arith, All-weaken x y zs h ks)

insert_value-IsSorted : (x : ℕ) (ys : List ℕ) → IsSorted ys → IsSorted (insert_value x ys)
unfolding insert_value
insert_value-IsSorted x [] h = (tt, tt)
insert_value-IsSorted x (y ∷ ys) (h, hs) = elim (Bool-cases (leb x y)) [
  | inl small ↦
      let below : x ≤ y = ground arith in rw small ((below, All-weaken x y ys below h), (h, hs))
  | inr large ↦
      let above : y ≤ x = ground arith in
      rw large (All-insert (λ z. y ≤ z) x ys above h, insert_value-IsSorted x ys hs)
]

sorted_values-IsSorted : (xs : List ℕ) → IsSorted (sorted_values xs)
unfolding sorted_values
sorted_values-IsSorted [] = tt
sorted_values-IsSorted (x ∷ xs) =
    insert_value-IsSorted x (sorted_values xs) (sorted_values-IsSorted xs)

sorted_values-at_most :
    (p : ℕ) (xs : List ℕ) → count_at_most p (sorted_values xs) ≡ count_at_most p xs
unfolding sorted_values count_at_most
sorted_values-at_most p [] = refl
sorted_values-at_most p (x ∷ xs) =
    insert_value-at_most p x (sorted_values xs)
    ∙ ap (λ n. (if leb x p then 1 else 0) + n) (sorted_values-at_most p xs)

sorted_values-below : (p : ℕ) (xs : List ℕ) → count_below p (sorted_values xs) ≡ count_below p xs
unfolding sorted_values count_below
sorted_values-below p [] = refl
sorted_values-below p (x ∷ xs) =
    insert_value-below p x (sorted_values xs)
    ∙ ap (λ n. (if ltb x p then 1 else 0) + n) (sorted_values-below p xs)

none_below : (p : ℕ) (xs : List ℕ) → All (λ y. p ≤ y) xs → count_below p xs ≡ 0
unfolding count_below
none_below p [] h = refl
none_below p (x ∷ xs) (h, hs) = ground (arith, none_below p xs hs)

-- The element at an index of a list is one of the list.
All-value_at : (P : ℕ → Type 0) (xs : List ℕ) (i p : ℕ) → All P xs → value_at xs i ≡ some p → P p
unfolding value_at
All-value_at P [] i p h e = cc
All-value_at P (x ∷ xs) zero p (h, hs) e = let same : x ≡ p = ground arith in subst P same h
All-value_at P (x ∷ xs) (suc i) p (h, hs) e = All-value_at P xs i p hs e

-- In a sorted list, an element has as many elements that are not above it as its index, and more.
value_at-at_most :
    (xs : List ℕ) (i p : ℕ) → IsSorted xs → value_at xs i ≡ some p → i < count_at_most p xs
unfolding value_at count_at_most
value_at-at_most [] i p s e = cc
value_at-at_most (x ∷ xs) zero p (s, ss) e = ground arith
value_at-at_most (x ∷ xs) (suc i) p (s, ss) e =
    let above : x ≤ p = All-value_at (λ y. x ≤ y) xs i p s e in
    ground (arith, value_at-at_most xs i p ss e)

value_at-below :
    (xs : List ℕ) (i p : ℕ) → IsSorted xs → value_at xs i ≡ some p → count_below p xs ≤ i
unfolding value_at count_below
value_at-below [] i p s e = cc
value_at-below (x ∷ xs) zero p (s, ss) e =
    let same : x ≡ p = ground arith in
    ground (arith, none_below p xs (subst (λ q. All (λ y. q ≤ y) xs) same s))
value_at-below (x ∷ xs) (suc i) p (s, ss) e = ground (arith, value_at-below xs i p ss e)

value_at-some : (xs : List ℕ) (i : ℕ) → i < length xs → (p : ℕ) × (value_at xs i ≡ some p)
unfolding value_at
value_at-some [] i h = ground arith
value_at-some (x ∷ xs) zero h = (x, refl)
value_at-some (x ∷ xs) (suc i) h = value_at-some xs i (omega arith)

-- The nearest rank of a percentile: as many values as the percentage asks for are not above it, and
-- fewer are below it.
abbrev pub IsPercentile : ℕ → List ℕ → ℕ → Type 0
IsPercentile percent xs p =
    (percent * length xs ≤ 100 * count_at_most p xs)
    × (100 * count_below p xs < percent * length xs)

-- What a value is at an index of the sorted values, in the terms of the unsorted ones.
sorted-at :
    (xs : List ℕ) (i : ℕ)
    → i < length xs
    → (p : ℕ) × (value_at (sorted_values xs) i ≡ some p)
      × (i < count_at_most p xs)
      × (count_below p xs ≤ i)
sorted-at xs i h =
    let (p, e) = value_at-some (sorted_values xs) i (rw (sorted_values-length xs) h) in
    let s = sorted_values-IsSorted xs in
    let upper : i < count_at_most p xs =
      subst (λ n. i < n) (sorted_values-at_most p xs)
        (value_at-at_most (sorted_values xs) i p s e) in
    let lower : count_below p xs ≤ i =
      subst (λ n. n ≤ i) (sorted_values-below p xs) (value_at-below (sorted_values xs) i p s e) in
    (p, e, upper, lower)

-- More values at most p than below it are a value p.
Occurs-counts : (p : ℕ) (xs : List ℕ) → count_below p xs < count_at_most p xs → Occurs p xs
unfolding count_below count_at_most
Occurs-counts p [] h = absurd (omega (arith, h))
Occurs-counts p (x ∷ xs) h = elim (Bool-cases (x == p)) [
  | inl same ↦ inl (ground arith)
  | inr other ↦ inr (Occurs-counts p xs (ground arith))
]

All-not_below : (p : ℕ) (xs : List ℕ) → count_below p xs ≡ 0 → All (λ x. p ≤ x) xs
unfolding count_below
All-not_below p [] h = tt
All-not_below p (x ∷ xs) h = (ground arith, All-not_below p xs (omega (arith, h)))

count_at_most-length : (p : ℕ) (xs : List ℕ) → count_at_most p xs ≤ length xs
unfolding count_at_most
count_at_most-length p [] = omega arith
count_at_most-length p (x ∷ xs) = ground (arith, count_at_most-length p xs)

All-at_most : (p : ℕ) (xs : List ℕ) → length xs ≤ count_at_most p xs → All (λ x. x ≤ p) xs
unfolding count_at_most
All-at_most p [] h = tt
All-at_most p (x ∷ xs) h =
    let rest = count_at_most-length p xs in
    (ground (arith, h, rest), All-at_most p xs (ground (arith, h, rest)))

-- The percentiles, the least value and the greatest are values of the sample.
pub record IsSummary (xs : List ℕ) (successes : ℕ) (d : MetricDistribution) : Type 0 where
  pub counts : (d.valid_count ≡ length xs) × (d.missing_count ≡ successes - length xs)
  pub median : (p : ℕ) × (d.p50 ≡ some p) × Occurs p xs × IsPercentile 50 xs p
  pub high : (p : ℕ) × (d.p95 ≡ some p) × Occurs p xs × IsPercentile 95 xs p
  pub smallest : (p : ℕ) × (d.least ≡ some p) × Occurs p xs × All (λ x. p ≤ x) xs
  pub largest : (p : ℕ) × (d.greatest ≡ some p) × Occurs p xs × All (λ x. x ≤ p) xs

-- The summary of a sample that is not empty counts it, and names its least value, its greatest, and
-- the percentiles 50 and 95 by the nearest rank, all of them values of the sample.
pub metric_distribution-IsSummary :
    (xs : List ℕ) (successes : ℕ)
    → 0 < length xs
    → IsSummary xs successes (metric_distribution xs successes)
unfolding metric_distribution
metric_distribution-IsSummary xs successes h =
    let (a, ea, most_a, below_a) = sorted-at xs 0 h in
    let (b, eb, most_b, below_b) = sorted-at xs (percentile_index 50 (length xs)) (omega arith) in
    let (c, ec, most_c, below_c) = sorted-at xs (percentile_index 95 (length xs)) (omega arith) in
    let (d, ed, most_d, below_d) = sorted-at xs (length xs - 1) (omega arith) in
    rw (sorted_values-length xs) (record {
      counts = (refl, refl);
      median = (b, eb, Occurs-counts b xs (omega arith), (omega arith, omega arith));
      high = (c, ec, Occurs-counts c xs (omega arith), (omega arith, omega arith));
      smallest = (a, ea, Occurs-counts a xs (omega arith), All-not_below a xs (omega arith));
      largest = (d, ed, Occurs-counts d xs (omega arith), All-at_most d xs (omega arith));
    })
