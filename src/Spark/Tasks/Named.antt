-- ===== src/Spark/Tasks/Named.antt =====
-- Which tasks the scan of the tasks names.
use etl_mcp_suite.Value.{Fields}
use etl_mcp_suite.Spark.Metrics.{TaskOutcome, success, non_success, unknown, task_outcome}
use etl_mcp_suite.Spark.Ranking.{key_less, Candidate, rank, sorted_candidates}
use etl_mcp_suite.Spark.Ranking.Top.{heap_from, ranking, sorted_candidates-heap_from}
use etl_mcp_suite.Spark.Tasks.{
  TaskDistributionRequest, TaskScan, candidate_of, count_ranked, count_success, count_task,
  is_task_end_of, ranked_task, scan_task_distribution, start, task_result, visit_all, visit_task,
}
use etl_mcp_suite.Base.{
  ℕ, ◌+◌, ◌≡◌, refl, sym, ap, ◌∙◌, inl, inr, true, false, Option, none, some, List, [], ◌∷◌, map,
  arith, if◌then◌else◌, Bool-cases, length, take,
}

key_less_asym : (c d : Candidate) → key_less c d ≡ true → key_less d c ≡ false
key_less_asym c d h = ground arith

key_less_trans :
    (c d e : Candidate) → key_less c d ≡ false → key_less d e ≡ false → key_less c e ≡ false
key_less_trans c d e h k = ground arith

abbrev pub ranked_by : TaskDistributionRequest → ℕ → Fields → TaskOutcome → Option Candidate
ranked_by request line event success = candidate_of request line event
ranked_by request line event _ = none

-- The candidate of a successful task of the stage attempt whose score is known.
unfoldable pub ranked_of : TaskDistributionRequest → ℕ → Fields → Option Candidate
ranked_of request line event =
    if is_task_end_of request event then ranked_by request line event (task_outcome event) else none

abbrev pub cons_some : Option Candidate → List Candidate → List Candidate
cons_some none cs = cs
cons_some (some c) cs = c ∷ cs

-- The candidates of a file, from a line on.
unfoldable pub ranked_tasks : TaskDistributionRequest → ℕ → List Fields → List Candidate
ranked_tasks request line [] = []
ranked_tasks request line (event ∷ events) =
    cons_some (ranked_of request line event) (ranked_tasks request (line + 1) events)

abbrev kept : ℕ → Option Candidate → List Candidate → List Candidate
kept limit none heap = heap
kept limit (some c) heap = rank key_less limit heap c

abbrev count_some : Option Candidate → ℕ
count_some none = 0
count_some (some c) = 1

-- What a visit does to the heap and to the number of ranked tasks.
record IsRanking (limit : ℕ) (c : Option Candidate) (s t : TaskScan) : Type 0 where
  heap : t.candidates ≡ kept limit c s.candidates
  number : t.ranked ≡ s.ranked + count_some c

heap_from-cons :
    (limit : ℕ) (heap : List Candidate) (c : Option Candidate) (cs : List Candidate)
    → heap_from key_less limit heap (cons_some c cs)
      ≡ heap_from key_less limit (kept limit c heap) cs
unfolding heap_from
heap_from-cons limit heap none cs = refl
heap_from-cons limit heap (some c) cs = refl

length-cons_some :
    (c : Option Candidate) (cs : List Candidate)
    → length (cons_some c cs) ≡ count_some c + length cs
length-cons_some none cs = omega arith
length-cons_some (some c) cs = omega arith

module _ (request : TaskDistributionRequest) where
  count_ranked-IsRanking :
      (c : Option Candidate) (scan : TaskScan)
      → IsRanking request.limit c scan (count_ranked request.limit c scan)
  unfolding count_ranked
  count_ranked-IsRanking none scan = record { heap = refl; number = omega arith }
  count_ranked-IsRanking (some c) scan = record { heap = refl; number = refl }

  count_task-IsRanking :
      (line : ℕ) (event : Fields) (outcome : TaskOutcome) (scan : TaskScan)
      → IsRanking request.limit
          (ranked_by request line event outcome)
          scan
          (count_task request line event outcome scan)
  unfolding count_task count_success
  count_task-IsRanking line event success scan =
      let h = count_ranked-IsRanking (candidate_of request line event) (count_success _ scan) in
      record { heap = h.heap; number = h.number }
  count_task-IsRanking line event non_success scan = record { heap = refl; number = omega arith }
  count_task-IsRanking line event unknown scan = record { heap = refl; number = omega arith }

  visit_task-IsRanking :
      (line : ℕ) (event : Fields) (scan : TaskScan)
      → IsRanking request.limit
          (ranked_of request line event)
          scan
          (visit_task request line event scan)
  unfolding visit_task ranked_of
  visit_task-IsRanking line event scan = elim (Bool-cases (is_task_end_of request event)) [
    | inl counted ↦ rw counted (count_task-IsRanking line event (task_outcome event) scan)
    | inr passed ↦ rw passed (record { heap = refl; number = omega arith })
  ]

  visit_all-heap :
      (line : ℕ) (events : List Fields) (scan : TaskScan)
      → (visit_all (visit_task request) line events scan).candidates
        ≡ heap_from key_less request.limit scan.candidates (ranked_tasks request line events)
  unfolding visit_all ranked_tasks heap_from
  visit_all-heap line [] scan = refl
  visit_all-heap line (event ∷ events) scan =
      let h = visit_task-IsRanking line event scan in
      let rest = visit_all-heap (line + 1) events (visit_task request line event scan) in
      let more = ranked_tasks request (line + 1) events in
      rest
      ∙ ap (λ heap. heap_from key_less request.limit heap more) h.heap
      ∙ sym (heap_from-cons request.limit scan.candidates (ranked_of request line event) more)

  visit_all-number :
      (line : ℕ) (events : List Fields) (scan : TaskScan)
      → (visit_all (visit_task request) line events scan).ranked
        ≡ scan.ranked + length (ranked_tasks request line events)
  unfolding visit_all ranked_tasks
  visit_all-number line [] scan = omega arith
  visit_all-number line (event ∷ events) scan =
      let h = visit_task-IsRanking line event scan in
      let rest = visit_all-number (line + 1) events (visit_task request line event scan) in
      let more = ranked_tasks request (line + 1) events in
      omega (arith, h.number, rest, length-cons_some (ranked_of request line event) more)

  -- The tasks that the result names are the first of the ranking of all successful tasks of the stage
  -- attempt whose score is known, from the greatest score, the earlier line first; the result counts
  -- those tasks, and those that it does not name.
  pub scan_task_distribution-names :
      (events : List Fields)
      → ((scan_task_distribution request events).top_tasks
          ≡ map ranked_task (take request.limit (ranking key_less (ranked_tasks request 1 events))))
        × ((scan_task_distribution request events).ranked_task_count
            ≡ length (ranked_tasks request 1 events))
  unfolding scan_task_distribution task_result
  scan_task_distribution-names events = (
    ap (λ heap. map ranked_task (sorted_candidates key_less heap)) (visit_all-heap 1 events start)
        ∙ ap (map ranked_task) (
            sorted_candidates-heap_from key_less key_less_asym key_less_trans request.limit
              (ranked_tasks request 1 events)),
    visit_all-number 1 events start ∙ omega arith,
  )
