-- ===== src/Spark/Stages.antt =====
-- src/mcp_stdio/plugins/spark/metrics.py: `scan_stage_metrics`, over the events that the reader hands to
-- its visitor.
pub mod Counts
use etl_mcp_suite.Spark.Stage.{
  complete_stage, total_result, submit_stage, stage_times, stage_duration, count_stage_task,
  new_stage, MetricTotal, Times, Stage,
}
use etl_mcp_suite.Value.{Fields, get_value, object_of}
use etl_mcp_suite.Text.{codes}
use etl_mcp_suite.Spark.Events.{count_at}
use etl_mcp_suite.Spark.Metrics.{task_outcome}
use etl_mcp_suite.Spark.Tasks.{is_event, visit_all}
use etl_mcp_suite.Base.{
  ℕ, ◌+◌, ◌-◌, Bool, true, false, ◌&&◌, ◌||◌, not, Option, none, some, List, [], ◌∷◌, map, ltb,
  ◌==◌, if◌then◌else◌, length, take,
}

-- The ids of a stage attempt.
abbrev pub StageKey : Type 0
StageKey = ℕ × ℕ

abbrev pub eq_key : StageKey → StageKey → Bool
eq_key (a, b) (c, d) = a == c && b == d

-- The groups, in the order of their first events.
abbrev pub Groups : Type 0
Groups = List (StageKey × Stage)

-- `groups.setdefault(key, _Stage())`, and what is done with that stage.
unfoldable pub update_stage : StageKey → (Stage → Stage) → Groups → Groups
update_stage key change [] = (key, change new_stage) ∷ []
update_stage key change ((k, stage) ∷ groups) =
    if eq_key k key then (k, change stage) ∷ groups else (k, stage) ∷ update_stage key change groups

-- The events that the scan looks at.
pub data StageEvent : Type 0 where
  task_end submitted completed : StageEvent

unfoldable pub stage_event_of : Fields → Option StageEvent
stage_event_of event =
    if is_event (codes "SparkListenerTaskEnd") event
    then some task_end
    else if is_event (codes "SparkListenerStageSubmitted") event
    then some submitted
    else if is_event (codes "SparkListenerStageCompleted") event
    then some completed
    else none

-- Where the ids and the times of an event are.
abbrev pub source_of : StageEvent → Fields → Fields
source_of task_end event = event
source_of _ event = object_of (get_value (codes "Stage Info") event)

unfoldable pub key_of : Fields → Option StageKey
key_of source = elim (count_at source (codes "Stage ID")) [
  | none ↦ none
  | some stage_id ↦ elim (count_at source (codes "Stage Attempt ID")) [
    | none ↦ none
    | some attempt_id ↦ some (stage_id, attempt_id)
  ]
]

abbrev pub times_of : Fields → Times
times_of source =
    (count_at source (codes "Submission Time"), count_at source (codes "Completion Time"))

-- What an event changes in its stage.
unfoldable pub change_of : StageEvent → ℕ → Fields → Stage → Stage
change_of task_end line event = count_stage_task event (task_outcome event)
change_of submitted line event = submit_stage line (times_of (source_of submitted event))
change_of completed line event = complete_stage line (times_of (source_of completed event))

-- `request.stage_id` with `request.stage_attempt_id`: both or neither
pub record StageMetricsRequest : Type 0 where
  pub selected : Option StageKey
  pub limit : ℕ

-- Whether the request leaves the stage attempt out.
abbrev pub is_left_out : Option StageKey → StageKey → Bool
is_left_out none key = false
is_left_out (some wanted) key = not (eq_key key wanted)

-- The variables of the scan.
pub record StageScan : Type 0 where
  pub groups : Groups
  pub unassigned : ℕ

abbrev pub count_unassigned : StageEvent → ℕ → ℕ
count_unassigned task_end n = n + 1
count_unassigned _ n = n

-- `visit` of an event that it looks at, by the ids of the event.
unfoldable pub visit_keyed :
    StageMetricsRequest → ℕ → Fields → StageEvent → Option StageKey → StageScan → StageScan
visit_keyed request line event kind none scan = record {
  groups = scan.groups;
  unassigned = count_unassigned kind scan.unassigned;
}
visit_keyed request line event kind (some key) scan =
    if is_left_out request.selected key then scan else record {
      groups = update_stage key (change_of kind line event) scan.groups;
      unassigned = scan.unassigned;
    }

-- `visit`
unfoldable pub visit_stage : StageMetricsRequest → ℕ → Fields → StageScan → StageScan
visit_stage request line event scan = elim (stage_event_of event) [
  | none ↦ scan
  | some kind ↦ visit_keyed request line event kind (key_of (source_of kind event)) scan
]

-- `_stage_order(x) < _stage_order(y)`, where the sorting tests for it
unfoldable pub order_less : StageKey × Stage → StageKey × Stage → Bool
order_less ((a, b), x) ((c, d), y) =
    let less_key = ltb a c || (a == c && ltb b d) in
    elim (stage_duration x) [
      | none ↦ elim (stage_duration y) [ none ↦ less_key | some _ ↦ false ]
      | some m ↦ elim (stage_duration y) [ none ↦ true | some n ↦ ltb n m || (m == n && less_key) ]
    ]

-- `sorted(groups.items(), key=_stage_order)`
unfoldable pub insert_group : StageKey × Stage → Groups → Groups
insert_group g [] = g ∷ []
insert_group g (h ∷ groups) = if order_less h g then h ∷ insert_group g groups else g ∷ h ∷ groups

unfoldable pub sorted_groups : Groups → Groups
sorted_groups [] = []
sorted_groups (g ∷ groups) = insert_group g (sorted_groups groups)

-- `SparkStageMetrics`, with the lines of its references
pub record StageMetrics : Type 0 where
  pub stage_id : ℕ
  pub stage_attempt_id : ℕ
  pub submission_time_ms : Option ℕ
  pub completion_time_ms : Option ℕ
  pub duration_ms : Option ℕ
  pub submitted_ref : Option ℕ
  pub completed_ref : Option ℕ
  pub task_end_count : ℕ
  pub successful_task_end_count : ℕ
  pub non_success_task_end_count : ℕ
  pub unknown_reason_task_end_count : ℕ
  pub input_total : MetricTotal
  pub shuffle_read_total : MetricTotal

unfoldable pub stage_metrics : StageKey × Stage → StageMetrics
stage_metrics ((stage_id, attempt_id), group) =
    let (start, end_time) = stage_times group in
    record {
      stage_id = stage_id;
      stage_attempt_id = attempt_id;
      submission_time_ms = start;
      completion_time_ms = end_time;
      duration_ms = stage_duration group;
      submitted_ref = group.submitted_line;
      completed_ref = group.completed_line;
      task_end_count = group.successful + group.non_successful + group.unknown_count;
      successful_task_end_count = group.successful;
      non_success_task_end_count = group.non_successful;
      unknown_reason_task_end_count = group.unknown_count;
      input_total = total_result group.successful group.inputs;
      shuffle_read_total = total_result group.successful group.shuffle;
    }

-- `SparkStageMetricsResult`, less what is of the snapshot
pub record StageMetricsResult : Type 0 where
  pub matched_stage_attempt_count : ℕ
  pub unassigned_task_end_count : ℕ
  pub stages : List StageMetrics
  pub stages_omitted : ℕ

unfoldable pub stage_result : StageMetricsRequest → StageScan → StageMetricsResult
stage_result request scan =
    let stages = map stage_metrics (take request.limit (sorted_groups scan.groups)) in
    record {
      matched_stage_attempt_count = length scan.groups;
      unassigned_task_end_count = scan.unassigned;
      stages = stages;
      stages_omitted = length scan.groups - length stages;
    }

-- `scan_stage_metrics` of the events of a file.
unfoldable pub scan_stage_metrics : StageMetricsRequest → List Fields → StageMetricsResult
scan_stage_metrics request events =
    stage_result request
      (visit_all (visit_stage request) 1 events (record { groups = []; unassigned = 0 }))
