-- ===== src/Spark/Ranking.antt =====
-- src/mcp_stdio/plugins/spark/metrics.py: the candidates for the top tasks, in a heap of any elements that
-- are compared. The heap is the list of its elements from the greatest to the least: heapq promises no
-- more than where the least one is.
pub mod Top
use etl_mcp_suite.Spark.Events.{EventIds}
use etl_mcp_suite.Spark.Metrics.{TaskMetricValues}
use etl_mcp_suite.Base.{
  ℕ, zero, suc, ◌+◌, ◌-◌, ◌*◌, ◌/◌, ◌%◌, ◌^◌, ◌≤◌, ◌<◌, min, ◌≡◌, refl, sym, ap, ◌∙◌, subst, ◌≢◌,
  ◌↔◌, ◌⊎◌, inl, inr, Bool, true, false, ◌&&◌, ◌||◌, not, Option, none, some, List, [], ◌∷◌, ◌++◌,
  map, foldl, append-nil, append_assoc, arith, ltb, leb, ◌==◌, if◌then◌else◌, ltb→lt, lt→ltb,
  leb→le, ==_iff, tests, Bool-cases, Option-cases, &&-eq-true, ||-eq-false, length, take, drop,
  is_empty, any, all, filter, All, length-append, length-take-le, all-append, All-append, All-map,
  All-filter, length-filter-le, drop-append_one, Result, ok, err, Ensures, returns, raises,
  Ensures-any, of_Ensures, Ensures-if, Ensures-bind, ◌>>=◌, ◌>>◌, raise_if, Result-cases, >>=-eq-ok,
}

pub record Candidate : Type 0 where
  pub score : ℕ
  pub line : ℕ
  pub values : TaskMetricValues
  pub ids : EventIds

-- The order of the keys `(score, -line)`.
abbrev pub key_less : Candidate → Candidate → Bool
key_less c d = ltb c.score d.score || (c.score == d.score && ltb d.line c.line)

module _ {A : Type 0} where
  -- `candidates[0]`, the least
  unfoldable pub heap_least : A → List A → A
  heap_least c [] = c
  heap_least c (d ∷ heap) = heap_least d heap

  -- The heap without its least element.
  unfoldable pub heap_rest : A → List A → List A
  heap_rest c [] = []
  heap_rest c (d ∷ heap) = c ∷ heap_rest d heap

  module _ (less : A → A → Bool) where
    -- `heapq.heappush`
    unfoldable pub heap_push : A → List A → List A
    heap_push c [] = c ∷ []
    heap_push c (d ∷ heap) = if less d c then c ∷ d ∷ heap else d ∷ heap_push c heap

    -- What becomes of the heap when a task is ranked. With a limit from 1 on, a full heap is not empty.
    unfoldable pub rank : ℕ → List A → A → List A
    rank limit [] c = if ltb 0 limit then c ∷ [] else []
    rank limit (d ∷ heap) c =
        if ltb (length (d ∷ heap)) limit
        then heap_push c (d ∷ heap)
        else if less (heap_least d heap) c
        then heap_push c (heap_rest d heap)
        else d ∷ heap

    -- `sorted(candidates, key=lambda item: (-item[0], -item[1]))`
    unfoldable pub insert_candidate : A → List A → List A
    insert_candidate c [] = c ∷ []
    insert_candidate c (d ∷ ds) = if less c d then d ∷ insert_candidate c ds else c ∷ d ∷ ds

    unfoldable pub sorted_candidates : List A → List A
    sorted_candidates [] = []
    sorted_candidates (c ∷ cs) = insert_candidate c (sorted_candidates cs)
