-- ===== src/Spark/Metrics.antt =====
-- src/mcp_stdio/plugins/spark/metrics_events.py: the measurements of one task, and the summary of many.
pub mod Distribution
pub mod Words
use etl_mcp_suite.Value.{Fields, get_value, object_of}
use etl_mcp_suite.Text.{Str, codes, str_eq}
use etl_mcp_suite.Spark.Events.{count_at, task_reason}
use etl_mcp_suite.Base.{
  ℕ, zero, suc, ◌+◌, ◌-◌, ◌*◌, ◌/◌, ◌&&◌, Option, none, some, List, [], ◌∷◌, ltb, leb,
  if◌then◌else◌, length,
}

-- `METRIC_NAMES`
pub data MetricName : Type 0 where
  duration_ms executor_run_time_ms jvm_gc_time_ms : MetricName
  input_bytes shuffle_read_bytes shuffle_fetch_wait_ms : MetricName

-- `TaskMetricValues`, by `getattr`
abbrev pub TaskMetricValues : Type 0
TaskMetricValues = MetricName → Option ℕ

-- `finish - launch`, where it is a duration
unfoldable pub task_duration : Option ℕ → Option ℕ → Option ℕ
task_duration (some launch) (some finish) =
    if ltb 0 finish && leb launch finish then some (finish - launch) else none
task_duration _ _ = none

-- `remote + local`, where both are known
unfoldable pub both_read : Option ℕ → Option ℕ → Option ℕ
both_read (some remote) (some here) = some (remote + here)
both_read _ _ = none

abbrev object_at : Fields → Str → Fields
object_at entry name = object_of (get_value name entry)

unfoldable pub task_metric_values : Fields → TaskMetricValues
task_metric_values event name =
    let info = object_at event (codes "Task Info") in
    let metrics = object_at event (codes "Task Metrics") in
    let inputs = object_at metrics (codes "Input Metrics") in
    let shuffle = object_at metrics (codes "Shuffle Read Metrics") in
    elim name [
      | duration_ms ↦
          task_duration (count_at info (codes "Launch Time")) (count_at info (codes "Finish Time"))
      | executor_run_time_ms ↦ count_at metrics (codes "Executor Run Time")
      | jvm_gc_time_ms ↦ count_at metrics (codes "JVM GC Time")
      | input_bytes ↦ count_at inputs (codes "Bytes Read")
      | shuffle_read_bytes ↦
          both_read (count_at shuffle (codes "Remote Bytes Read"))
            (count_at shuffle (codes "Local Bytes Read"))
      | shuffle_fetch_wait_ms ↦ count_at shuffle (codes "Fetch Wait Time")
    ]

pub data TaskOutcome : Type 0 where
  success non_success unknown : TaskOutcome

unfoldable pub task_outcome : Fields → TaskOutcome
task_outcome event = elim (task_reason event) [
  | none ↦ unknown
  | some reason ↦ if str_eq reason (codes "Success") then success else non_success
]

-- `sorted`
unfoldable pub insert_value : ℕ → List ℕ → List ℕ
insert_value x [] = x ∷ []
insert_value x (y ∷ ys) = if leb x y then x ∷ y ∷ ys else y ∷ insert_value x ys

unfoldable pub sorted_values : List ℕ → List ℕ
sorted_values [] = []
sorted_values (x ∷ xs) = insert_value x (sorted_values xs)

-- `ordered[i]`
unfoldable pub value_at : List ℕ → ℕ → Option ℕ
value_at [] i = none
value_at (x ∷ xs) zero = some x
value_at (x ∷ xs) (suc i) = value_at xs i

-- The index of a percentile.
abbrev pub percentile_index : ℕ → ℕ → ℕ
percentile_index percent count = (percent * count + 99) / 100 - 1

pub record MetricDistribution : Type 0 where
  pub valid_count : ℕ
  pub missing_count : ℕ
  pub least : Option ℕ
  pub p50 : Option ℕ
  pub p95 : Option ℕ
  pub greatest : Option ℕ

-- No index is out of range, unless there is no sample, where all four are `None`.
unfoldable pub metric_distribution : List ℕ → ℕ → MetricDistribution
metric_distribution values successful_count =
    let ordered = sorted_values values in
    let count = length ordered in
    record {
      valid_count = count;
      missing_count = successful_count - count;
      least = value_at ordered 0;
      p50 = value_at ordered (percentile_index 50 count);
      p95 = value_at ordered (percentile_index 95 count);
      greatest = value_at ordered (count - 1);
    }
