-- ===== src/Spark/Ranking/Top.antt =====
-- The bounded heap of candidates holds the top of the ranking of all of them.
use etl_mcp_suite.Spark.Ranking.{
  heap_push, heap_least, heap_rest, rank, insert_candidate, sorted_candidates,
}
use etl_mcp_suite.Base.{
  ℕ, zero, suc, ◌≤◌, ◌≡◌, refl, sym, ap, ◌∙◌, inl, inr, Bool, true, false, List, [], ◌∷◌, arith,
  ltb, Bool-cases, length, take, All, length-take-le,
}

module _ {A : Type 0} (less : A → A → Bool) where
  -- A list from the greatest key to the least: no head has a lesser key than what follows.
  abbrev pub IsRanked : List A → Type 0
  IsRanked [] = Unit
  IsRanked (c ∷ cs) = All (λ d. less c d ≡ false) cs × IsRanked cs

  -- The ranking of all candidates: each behind those of no lesser key that came before it.
  unfoldable pub ranking_from : List A → List A → List A
  ranking_from s [] = s
  ranking_from s (c ∷ cs) = ranking_from (heap_push less c s) cs

  abbrev pub ranking : List A → List A
  ranking cs = ranking_from [] cs

  -- The heap after a list of candidates.
  unfoldable pub heap_from : ℕ → List A → List A → List A
  heap_from limit heap [] = heap
  heap_from limit heap (c ∷ cs) = heap_from limit (rank less limit heap c) cs

module _ {A : Type 0} (less : A → A → Bool) (asym : (c d : A) → less c d ≡ true → less d c ≡ false)
    (trans : (c d e : A) → less c d ≡ false → less d e ≡ false → less c e ≡ false) where
  All-push : (P : A → Type 0) (c : A) (s : List A) → P c → All P s → All P (heap_push less c s)
  unfolding heap_push
  All-push P c [] h hs = (h, tt)
  All-push P c (d ∷ s) h (k, ks) = elim (Bool-cases (less d c)) [
    | inl less ↦ rw less (h, (k, ks))
    | inr more ↦ rw more (k, All-push P c s h ks)
  ]

  All-less_trans :
      (c d : A) (s : List A)
      → less c d ≡ false
      → All (λ e. less d e ≡ false) s
      → All (λ e. less c e ≡ false) s
  All-less_trans c d [] h hs = tt
  All-less_trans c d (e ∷ s) h (k, ks) = (trans c d e h k, All-less_trans c d s h ks)

  pub push-IsRanked : (c : A) (s : List A) → IsRanked less s → IsRanked less (heap_push less c s)
  unfolding heap_push
  push-IsRanked c [] h = (tt, tt)
  push-IsRanked c (d ∷ s) (h, hs) = elim (Bool-cases (less d c)) [
    | inl less ↦
        let above = asym d c less in rw less ((above, All-less_trans c d s above h), (h, hs))
    | inr more ↦ rw more (All-push (λ e. less d e ≡ false) c s more h, push-IsRanked c s hs)
  ]

  take-take : (m n : ℕ) (s : List A) → m ≤ n → take m (take n s) ≡ take m s
  take-take zero n s h = refl
  take-take (suc m) zero s h = ground arith
  take-take (suc m) (suc n) [] h = refl
  take-take (suc m) (suc n) (c ∷ s) h = ap (λ x. c ∷ x) (take-take m n s (omega arith))

  take-cons-take : (n : ℕ) (d : A) (s : List A) → take n (d ∷ take n s) ≡ take n (d ∷ s)
  take-cons-take zero d s = refl
  take-cons-take (suc n) d s = ap (λ x. d ∷ x) (take-take n (suc n) s (omega arith))

  pub push-take :
      (n : ℕ) (c : A) (s : List A)
      → take n (heap_push less c (take n s)) ≡ take n (heap_push less c s)
  unfolding heap_push
  push-take zero c s = refl
  push-take (suc n) c [] = refl
  push-take (suc n) c (d ∷ s) = elim (Bool-cases (less d c)) [
    | inl less ↦ rw less (ap (λ x. c ∷ x) (take-cons-take n d s))
    | inr more ↦ rw more (ap (λ x. d ∷ x) (push-take n c s))
  ]

  -- In a ranked heap, what has no greater key than the least stands behind all.
  push-least :
      (c d : A) (heap : List A)
      → IsRanked less (d ∷ heap)
      → less (heap_least d heap) c ≡ false
      → less d c ≡ false
  unfolding heap_least
  push-least c d [] h e = e
  push-least c d (x ∷ heap) ((h, _), hs) e = trans d x c h (push-least c x heap hs e)

  pub take-push-least :
      (c d : A) (heap : List A)
      → IsRanked less (d ∷ heap)
      → less (heap_least d heap) c ≡ false
      → take (length (d ∷ heap)) (heap_push less c (d ∷ heap)) ≡ d ∷ heap
  unfolding heap_push heap_least
  take-push-least c d [] h e = rw e refl
  take-push-least c d (x ∷ heap) h e =
      rw (push-least c d (x ∷ heap) h e) (ap (λ s. d ∷ s) (take-push-least c x heap h.1 e))

  take-rest : (d : A) (heap : List A) → take (length heap) (d ∷ heap) ≡ heap_rest d heap
  unfolding heap_rest
  take-rest d [] = refl
  take-rest d (x ∷ heap) = ap (λ s. d ∷ s) (take-rest x heap)

  take-push-rest :
      (c d : A) (heap : List A)
      → less (heap_least d heap) c ≡ true
      → take (length (d ∷ heap)) (heap_push less c (d ∷ heap)) ≡ heap_push less c (heap_rest d heap)
  unfolding heap_push heap_least heap_rest
  take-push-rest c d [] e = rw e refl
  take-push-rest c d (x ∷ heap) e = elim (Bool-cases (less d c)) [
    | inl less ↦ rw less (ap (λ s. c ∷ d ∷ s) (take-rest x heap))
    | inr more ↦ rw more (ap (λ s. d ∷ s) (take-push-rest c x heap e))
  ]

  push-length : (c : A) (s : List A) → length (heap_push less c s) ≡ suc (length s)
  unfolding heap_push
  push-length c [] = refl
  push-length c (d ∷ s) = ground (arith, push-length c s)

  take-all : (n : ℕ) (s : List A) → length s ≤ n → take n s ≡ s
  take-all zero [] h = refl
  take-all (suc n) [] h = refl
  take-all zero (c ∷ s) h = ground arith
  take-all (suc n) (c ∷ s) h = ap (λ x. c ∷ x) (take-all n s (omega arith))

  rank-empty : (n : ℕ) (c : A) → rank less (suc n) [] c ≡ take (suc n) (heap_push less c [])
  unfolding rank heap_push
  rank-empty n c =
      let room : ltb 0 (suc n) ≡ true = ground arith in
      rw room (ap (λ s. c ∷ s) (sym (take-all n [] (omega arith))))

  -- A step of the heap is a step of the ranking, cut off at the limit.
  rank-take :
      (n : ℕ) (heap : List A) (c : A)
      → IsRanked less heap
      → length heap ≤ n
      → rank less n heap c ≡ take n (heap_push less c heap)
  unfolding rank
  rank-take zero [] c h k = refl
  rank-take (suc n) [] c h k = rank-empty n c
  rank-take n (d ∷ heap) c h k = elim (Bool-cases (ltb (length (d ∷ heap)) n)) [
    | inl room ↦
        rw room (
          sym (take-all n (heap_push less c (d ∷ heap)) (ground (arith, push-length c (d ∷ heap)))))
    | inr full ↦
        let exactly : n ≡ length (d ∷ heap) = ground arith in
        elim (Bool-cases (less (heap_least d heap) c)) [
          | inl less ↦ rw (full, less, exactly) (sym (take-push-rest c d heap less))
          | inr more ↦ rw (full, more, exactly) (sym (take-push-least c d heap h more))
        ]
  ]

  take-All : (P : A → Type 0) (n : ℕ) (s : List A) → All P s → All P (take n s)
  take-All P zero s h = tt
  take-All P (suc n) [] h = tt
  take-All P (suc n) (c ∷ s) (h, hs) = (h, take-All P n s hs)

  pub take-IsRanked : (n : ℕ) (s : List A) → IsRanked less s → IsRanked less (take n s)
  take-IsRanked zero s h = tt
  take-IsRanked (suc n) [] h = tt
  take-IsRanked (suc n) (c ∷ s) (h, hs) =
      (take-All (λ d. less c d ≡ false) n s h, take-IsRanked n s hs)

  heap_from-take :
      (n : ℕ) (s cs : List A)
      → IsRanked less s
      → heap_from less n (take n s) cs ≡ take n (ranking_from less s cs)
  unfolding heap_from ranking_from
  heap_from-take n s [] h = refl
  heap_from-take n s (c ∷ cs) h =
      ap (λ heap. heap_from less n heap cs)
        (rank-take n (take n s) c (take-IsRanked n s h) (length-take-le n s) ∙ push-take n c s)
      ∙ heap_from-take n (heap_push less c s) cs (push-IsRanked c s h)

  pub ranking_from-IsRanked :
      (s cs : List A) → IsRanked less s → IsRanked less (ranking_from less s cs)
  unfolding ranking_from
  ranking_from-IsRanked s [] h = h
  ranking_from-IsRanked s (c ∷ cs) h =
      ranking_from-IsRanked (heap_push less c s) cs (push-IsRanked c s h)

  insert_candidate-IsRanked :
      (c : A) (s : List A) → IsRanked less (c ∷ s) → insert_candidate less c s ≡ c ∷ s
  unfolding insert_candidate
  insert_candidate-IsRanked c [] h = refl
  insert_candidate-IsRanked c (d ∷ s) ((h, _), _) = rw h refl

  sorted_candidates-IsRanked : (s : List A) → IsRanked less s → sorted_candidates less s ≡ s
  unfolding sorted_candidates
  sorted_candidates-IsRanked [] h = refl
  sorted_candidates-IsRanked (c ∷ s) (h, hs) =
      ap (insert_candidate less c) (sorted_candidates-IsRanked s hs)
      ∙ insert_candidate-IsRanked c s (h, hs)

  -- The candidates that the bounded heap has kept, in order, are the first of the ranking of all.
  pub sorted_candidates-heap_from :
      (limit : ℕ) (cs : List A)
      → sorted_candidates less (heap_from less limit [] cs) ≡ take limit (ranking less cs)
  sorted_candidates-heap_from limit cs =
      let kept : heap_from less limit [] cs ≡ take limit (ranking less cs) =
        ap (λ heap. heap_from less limit heap cs) (sym (take-all limit [] (omega arith)))
        ∙ heap_from-take limit [] cs tt in
      ap (sorted_candidates less) kept
      ∙ sorted_candidates-IsRanked (take limit (ranking less cs))
          (take-IsRanked limit (ranking less cs) (ranking_from-IsRanked [] cs tt))
