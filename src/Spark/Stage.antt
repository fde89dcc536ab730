-- ===== src/Spark/Stage.antt =====
-- src/mcp_stdio/plugins/spark/metrics.py: the totals and the stages of `scan_stage_metrics`.
use etl_mcp_suite.Value.{Fields}
use etl_mcp_suite.Spark.Metrics.{
  input_bytes, shuffle_read_bytes, task_metric_values, TaskOutcome, success, non_success, unknown,
}
use etl_mcp_suite.Base.{ℕ, ◌+◌, ◌-◌, Option, none, some, leb, ◌==◌, if◌then◌else◌}

-- `_Total`
pub record Total : Type 0 where
  pub value : ℕ
  pub valid : ℕ

-- `_Total.add`
unfoldable pub add_value : Option ℕ → Total → Total
add_value none total = total
add_value (some n) total = record { value = total.value + n; valid = total.valid + 1 }

-- `MetricTotal`
pub record MetricTotal : Type 0 where
  pub total : Option ℕ
  pub valid_count : ℕ
  pub missing_count : ℕ

-- `_Total.result`
unfoldable pub total_result : ℕ → Total → MetricTotal
total_result successes total = record {
  total = if total.valid == 0 then none else some total.value;
  valid_count = total.valid;
  missing_count = successes - total.valid;
}

abbrev pub Times : Type 0
Times = Option ℕ × Option ℕ

-- `_Stage`
pub record Stage : Type 0 where
  pub submitted_line : Option ℕ
  pub completed_line : Option ℕ
  pub submitted_times : Times
  pub completed_times : Times
  pub successful : ℕ
  pub non_successful : ℕ
  pub unknown_count : ℕ
  pub inputs : Total
  pub shuffle : Total

abbrev pub no_total : Total
no_total = record { value = 0; valid = 0 }

abbrev pub new_stage : Stage
new_stage = record {
  submitted_line = none;
  completed_line = none;
  submitted_times = (none, none);
  completed_times = (none, none);
  successful = 0;
  non_successful = 0;
  unknown_count = 0;
  inputs = no_total;
  shuffle = no_total;
}

-- `_Stage.times`
unfoldable pub stage_times : Stage → Times
stage_times stage = elim stage.completed_line [
  | some _ ↦ stage.completed_times
  | none ↦ stage.submitted_times
]

-- `_Stage.duration`
unfoldable pub times_duration : Times → Option ℕ
times_duration (some start, some end_time) =
    if leb start end_time then some (end_time - start) else none
times_duration _ = none

abbrev pub stage_duration : Stage → Option ℕ
stage_duration stage = times_duration (stage_times stage)

-- What a task's end counts as.
unfoldable pub count_stage_task : Fields → TaskOutcome → Stage → Stage
count_stage_task event success stage = record {
  submitted_line = stage.submitted_line;
  completed_line = stage.completed_line;
  submitted_times = stage.submitted_times;
  completed_times = stage.completed_times;
  successful = stage.successful + 1;
  non_successful = stage.non_successful;
  unknown_count = stage.unknown_count;
  inputs = add_value (task_metric_values event input_bytes) stage.inputs;
  shuffle = add_value (task_metric_values event shuffle_read_bytes) stage.shuffle;
}
count_stage_task event non_success stage = record {
  submitted_line = stage.submitted_line;
  completed_line = stage.completed_line;
  submitted_times = stage.submitted_times;
  completed_times = stage.completed_times;
  successful = stage.successful;
  non_successful = stage.non_successful + 1;
  unknown_count = stage.unknown_count;
  inputs = stage.inputs;
  shuffle = stage.shuffle;
}
count_stage_task event unknown stage = record {
  submitted_line = stage.submitted_line;
  completed_line = stage.completed_line;
  submitted_times = stage.submitted_times;
  completed_times = stage.completed_times;
  successful = stage.successful;
  non_successful = stage.non_successful;
  unknown_count = stage.unknown_count + 1;
  inputs = stage.inputs;
  shuffle = stage.shuffle;
}

unfoldable pub submit_stage : ℕ → Times → Stage → Stage
submit_stage line times stage = record {
  submitted_line = some line;
  completed_line = stage.completed_line;
  submitted_times = times;
  completed_times = stage.completed_times;
  successful = stage.successful;
  non_successful = stage.non_successful;
  unknown_count = stage.unknown_count;
  inputs = stage.inputs;
  shuffle = stage.shuffle;
}

unfoldable pub complete_stage : ℕ → Times → Stage → Stage
complete_stage line times stage = record {
  submitted_line = stage.submitted_line;
  completed_line = some line;
  submitted_times = stage.submitted_times;
  completed_times = times;
  successful = stage.successful;
  non_successful = stage.non_successful;
  unknown_count = stage.unknown_count;
  inputs = stage.inputs;
  shuffle = stage.shuffle;
}
