-- ===== src/Spark/Tasks/Counts.antt =====
-- What the scan of the tasks counts, and which tasks it names.
use etl_mcp_suite.Value.{Fields}
use etl_mcp_suite.Spark.Metrics.{
  MetricName, TaskOutcome, success, non_success, unknown, task_outcome, metric_distribution,
}
use etl_mcp_suite.Spark.Metrics.Distribution.{sorted_values-length}
use etl_mcp_suite.Spark.Ranking.{Candidate}
use etl_mcp_suite.Spark.Tasks.{
  TaskDistributionRequest, TaskScan, append_some, candidate_of, count_ranked, count_success,
  count_task, is_task_end_of, scan_task_distribution, start, task_result, visit_all, visit_task,
}
use etl_mcp_suite.Base.{
  ℕ, ◌+◌, ◌≤◌, ◌≡◌, refl, ◌∙◌, inl, inr, Option, none, some, List, [], ◌∷◌, arith, if◌then◌else◌,
  Bool-cases, length, length-append,
}

-- How many of the events are ends of tasks of the stage attempt.
unfoldable pub count_task_ends : TaskDistributionRequest → List Fields → ℕ
count_task_ends request [] = 0
count_task_ends request (event ∷ events) =
    (if is_task_end_of request event then 1 else 0) + count_task_ends request events

abbrev ends : TaskScan → ℕ
ends scan = scan.successful + scan.non_successful + scan.unknown_count

-- No metric has more samples than there are successes.
record IsSampled (scan : TaskScan) : Type 0 where
  sampled : (name : MetricName) → length (scan.samples name) ≤ scan.successful

append_some-length : (x : Option ℕ) (xs : List ℕ) → length (append_some x xs) ≤ length xs + 1
append_some-length none xs = omega arith
append_some-length (some x) xs = omega (arith, length-append xs (x ∷ []))

module _ (request : TaskDistributionRequest) where
  count_ranked-ends :
      (c : Option Candidate) (scan : TaskScan)
      → ends (count_ranked request.limit c scan) ≡ ends scan
  unfolding count_ranked
  count_ranked-ends none scan = refl
  count_ranked-ends (some c) scan = refl

  count_ranked-IsSampled :
      (c : Option Candidate) (scan : TaskScan)
      → IsSampled scan
      → IsSampled (count_ranked request.limit c scan)
  unfolding count_ranked
  count_ranked-IsSampled none scan h = h
  count_ranked-IsSampled (some c) scan h = record { sampled = h.sampled }

  count_task-ends :
      (line : ℕ) (event : Fields) (outcome : TaskOutcome) (scan : TaskScan)
      → ends (count_task request line event outcome scan) ≡ ends scan + 1
  unfolding count_task count_success
  count_task-ends line event success scan =
      count_ranked-ends (candidate_of request line event) (count_success _ scan) ∙ omega arith
  count_task-ends line event non_success scan = omega arith
  count_task-ends line event unknown scan = omega arith

  count_task-IsSampled :
      (line : ℕ) (event : Fields) (outcome : TaskOutcome) (scan : TaskScan)
      → IsSampled scan
      → IsSampled (count_task request line event outcome scan)
  unfolding count_task count_success
  count_task-IsSampled line event success scan h =
      count_ranked-IsSampled (candidate_of request line event) (count_success _ scan) (record {
        sampled = λ name. omega (arith, append_some-length _ (scan.samples name), h.sampled name);
      })
  count_task-IsSampled line event non_success scan h = record { sampled = h.sampled }
  count_task-IsSampled line event unknown scan h = record { sampled = h.sampled }

  visit_all-ends :
      (line : ℕ) (events : List Fields) (scan : TaskScan)
      → ends (visit_all (visit_task request) line events scan)
        ≡ ends scan + count_task_ends request events
  unfolding visit_all visit_task count_task_ends
  visit_all-ends line [] scan = omega arith
  visit_all-ends line (event ∷ events) scan =
      let first : ends (visit_task request line event scan)
          ≡ ends scan + (if is_task_end_of request event then 1 else 0) =
        elim (Bool-cases (is_task_end_of request event)) [
          | inl counted ↦ rw counted (count_task-ends line event (task_outcome event) scan)
          | inr passed ↦ rw passed (omega arith)
        ] in
      omega (arith, first, visit_all-ends (line + 1) events (visit_task request line event scan))

  visit_all-IsSampled :
      (line : ℕ) (events : List Fields) (scan : TaskScan)
      → IsSampled scan
      → IsSampled (visit_all (visit_task request) line events scan)
  unfolding visit_all visit_task
  visit_all-IsSampled line [] scan h = h
  visit_all-IsSampled line (event ∷ events) scan h =
      visit_all-IsSampled (line + 1) events (visit_task request line event scan)
        (elim (Bool-cases (is_task_end_of request event)) [
          | inl counted ↦ rw counted (count_task-IsSampled line event (task_outcome event) scan h)
          | inr passed ↦ rw passed h
        ])

  -- The result counts the ends of tasks of the stage attempt, each one once, and a metric's summary
  -- counts each success once, as valid or as missing.
  pub scan_task_distribution-counts :
      (events : List Fields)
      → ((scan_task_distribution request events).task_end_count ≡ count_task_ends request events)
        × ((name : MetricName)
            → ((scan_task_distribution request events).distributions name).valid_count
                + ((scan_task_distribution request events).distributions name).missing_count
              ≡ (scan_task_distribution request events).successful_task_end_count)
  unfolding scan_task_distribution task_result metric_distribution
  scan_task_distribution-counts events =
      let scan = visit_all (visit_task request) 1 events start in
      let h : IsSampled start = record { sampled = λ name. omega arith } in
      let k = visit_all-IsSampled 1 events start h in
      (
        omega (arith, visit_all-ends 1 events start),
        λ name. omega (arith, sorted_values-length (scan.samples name), k.sampled name),
      )
