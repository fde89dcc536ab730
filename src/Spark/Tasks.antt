-- ===== src/Spark/Tasks.antt =====
-- src/mcp_stdio/plugins/spark/metrics.py: `scan_task_distribution`, over the events that the reader
-- hands to its visitor.
pub mod Counts
pub mod Named
use etl_mcp_suite.Value.{Fields, get_value}
use etl_mcp_suite.Text.{Str, codes}
use etl_mcp_suite.Spark.Events.{count_at, direct_ids, is_text}
use etl_mcp_suite.Spark.Metrics.{
  MetricName, TaskMetricValues, task_metric_values, TaskOutcome, success, non_success, unknown,
  task_outcome, MetricDistribution, metric_distribution,
}
use etl_mcp_suite.Spark.Ranking.{key_less, Candidate, rank, sorted_candidates}
use etl_mcp_suite.Base.{
  ℕ, zero, suc, ◌+◌, ◌-◌, ◌*◌, ◌/◌, ◌%◌, ◌^◌, ◌≤◌, ◌<◌, min, ◌≡◌, refl, sym, ap, ◌∙◌, subst, ◌≢◌,
  ◌↔◌, ◌⊎◌, inl, inr, Bool, true, false, ◌&&◌, ◌||◌, not, Option, none, some, List, [], ◌∷◌, ◌++◌,
  map, foldl, append-nil, append_assoc, arith, ltb, leb, ◌==◌, if◌then◌else◌, ltb→lt, lt→ltb,
  leb→le, ==_iff, tests, Bool-cases, Option-cases, &&-eq-true, ||-eq-false, length, take, drop,
  is_empty, any, all, filter, All, length-append, length-take-le, all-append, All-append, All-map,
  All-filter, length-filter-le, drop-append_one, Result, ok, err, Ensures, returns, raises,
  Ensures-any, of_Ensures, Ensures-if, Ensures-bind, ◌>>=◌, ◌>>◌, raise_if, Result-cases, >>=-eq-ok,
}

pub record TaskDistributionRequest : Type 0 where
  pub stage_id : ℕ
  pub stage_attempt_id : ℕ
  pub order_by : MetricName
  pub limit : ℕ

-- The variables of the scan.
pub record TaskScan : Type 0 where
  pub samples : MetricName → List ℕ
  pub candidates : List Candidate
  pub successful : ℕ
  pub non_successful : ℕ
  pub unknown_count : ℕ
  pub ranked : ℕ

abbrev pub start : TaskScan
start = record {
  samples = λ _. [];
  candidates = [];
  successful = 0;
  non_successful = 0;
  unknown_count = 0;
  ranked = 0;
}

-- `event["Event"] == name`
abbrev pub is_event : Str → Fields → Bool
is_event name event = is_text name (get_value (codes "Event") event)

abbrev pub is_some_number : ℕ → Option ℕ → Bool
is_some_number n none = false
is_some_number n (some m) = n == m

-- A `TaskEnd` of the requested stage attempt.
unfoldable pub is_task_end_of : TaskDistributionRequest → Fields → Bool
is_task_end_of request event =
    is_event (codes "SparkListenerTaskEnd") event
    && is_some_number request.stage_id (count_at event (codes "Stage ID"))
    && is_some_number request.stage_attempt_id (count_at event (codes "Stage Attempt ID"))

-- `if value is not None: samples[name].append(value)`
abbrev pub append_some : Option ℕ → List ℕ → List ℕ
append_some none xs = xs
append_some (some x) xs = xs ++ x ∷ []

-- The candidate that an event is, if its score is known.
unfoldable pub candidate_of : TaskDistributionRequest → ℕ → Fields → Option Candidate
candidate_of request line event =
    let values = task_metric_values event in
    elim (values request.order_by) [
      | none ↦ none
      | some score ↦
          some (record { score = score; line = line; values = values; ids = direct_ids event })
    ]

unfoldable pub count_success : TaskMetricValues → TaskScan → TaskScan
count_success values scan = record {
  samples = λ name. append_some (values name) (scan.samples name);
  candidates = scan.candidates;
  successful = scan.successful + 1;
  non_successful = scan.non_successful;
  unknown_count = scan.unknown_count;
  ranked = scan.ranked;
}

unfoldable pub count_ranked : ℕ → Option Candidate → TaskScan → TaskScan
count_ranked limit none scan = scan
count_ranked limit (some c) scan = record {
  samples = scan.samples;
  candidates = rank key_less limit scan.candidates c;
  successful = scan.successful;
  non_successful = scan.non_successful;
  unknown_count = scan.unknown_count;
  ranked = scan.ranked + 1;
}

-- What a `TaskEnd` of the stage attempt counts as.
unfoldable pub count_task : TaskDistributionRequest → ℕ → Fields → TaskOutcome → TaskScan → TaskScan
count_task request line event non_success scan = record {
  samples = scan.samples;
  candidates = scan.candidates;
  successful = scan.successful;
  non_successful = scan.non_successful + 1;
  unknown_count = scan.unknown_count;
  ranked = scan.ranked;
}
count_task request line event unknown scan = record {
  samples = scan.samples;
  candidates = scan.candidates;
  successful = scan.successful;
  non_successful = scan.non_successful;
  unknown_count = scan.unknown_count + 1;
  ranked = scan.ranked;
}
count_task request line event success scan =
    count_ranked request.limit (candidate_of request line event)
      (count_success (task_metric_values event) scan)

-- `visit`
unfoldable pub visit_task : TaskDistributionRequest → ℕ → Fields → TaskScan → TaskScan
visit_task request line event scan =
    if is_task_end_of request event
    then count_task request line event (task_outcome event) scan
    else scan

-- `SparkRankedTask`
pub record RankedTask : Type 0 where
  pub metrics : TaskMetricValues
  pub task_id : Option ℕ
  pub executor_id : Option Str
  pub ref_line : ℕ

unfoldable pub ranked_task : Candidate → RankedTask
ranked_task c = record {
  metrics = c.values;
  task_id = c.ids.task_id;
  executor_id = c.ids.executor_id;
  ref_line = c.line;
}

-- `SparkTaskDistributionResult`, less what is of the snapshot
pub record TaskDistributionResult : Type 0 where
  pub stage_id : ℕ
  pub stage_attempt_id : ℕ
  pub task_end_count : ℕ
  pub successful_task_end_count : ℕ
  pub non_success_task_end_count : ℕ
  pub unknown_reason_task_end_count : ℕ
  pub distributions : MetricName → MetricDistribution
  pub order_by : MetricName
  pub ranked_task_count : ℕ
  pub top_tasks : List RankedTask
  pub tasks_omitted : ℕ

-- The result of a scan.
unfoldable pub task_result : TaskDistributionRequest → TaskScan → TaskDistributionResult
task_result request scan =
    let top_tasks = map ranked_task (sorted_candidates key_less scan.candidates) in
    record {
      stage_id = request.stage_id;
      stage_attempt_id = request.stage_attempt_id;
      task_end_count = scan.successful + scan.non_successful + scan.unknown_count;
      successful_task_end_count = scan.successful;
      non_success_task_end_count = scan.non_successful;
      unknown_reason_task_end_count = scan.unknown_count;
      distributions = λ name. metric_distribution (scan.samples name) scan.successful;
      order_by = request.order_by;
      ranked_task_count = scan.ranked;
      top_tasks = top_tasks;
      tasks_omitted = scan.ranked - length top_tasks;
    }

-- The visits of the events of a file, from a line on.
unfoldable pub visit_all {ℓ} : {S : Type ℓ} → (ℕ → Fields → S → S) → ℕ → List Fields → S → S
visit_all visit line [] s = s
visit_all visit line (event ∷ events) s = visit_all visit (line + 1) events (visit line event s)

-- `scan_task_distribution` of the events of a file.
unfoldable pub scan_task_distribution :
    TaskDistributionRequest → List Fields → TaskDistributionResult
scan_task_distribution request events =
    task_result request (visit_all (visit_task request) 1 events start)
