-- ===== src/Spark/Events.antt =====
-- src/mcp_stdio/plugins/spark/inspection_events.py: what is read of one event.
use etl_mcp_suite.Value.{pos, Value, integer, text, Fields, get_value, has_key, object_of}
use etl_mcp_suite.Text.{Str, codes, str_eq, is_control, is_letter, is_digit}
use etl_mcp_suite.Base.{
  ℕ, ◌+◌, ◌-◌, ◌*◌, ◌^◌, Bool, false, ◌&&◌, ◌||◌, not, Option, none, some, [], ◌∷◌, ltb, leb, ◌==◌,
  if◌then◌else◌, length, any, all,
}

-- The largest number that is read from an event.
abbrev pub max_count : ℕ
max_count = 2 ^ 63 - 1

-- `_integer`, and `metric_integer` of metrics_events.py
unfoldable pub metric_integer : Value → Option ℕ
metric_integer (integer (pos n)) = if leb n max_count then some n else none
metric_integer _ = none

-- `value.get(name)` as a number
abbrev pub count_at : Fields → Str → Option ℕ
count_at entry name = metric_integer (get_value name entry)

abbrev object_at : Fields → Str → Fields
object_at entry name = object_of (get_value name entry)

-- `[A-Za-z0-9_-]`
abbrev pub is_executor_char : ℕ → Bool
is_executor_char c = is_letter c || is_digit c || c == b'_' || c == b'-'

-- `_executor`
unfoldable pub executor_of : Value → Option Str
executor_of (text s) =
    if ltb 0 (length s) && leb (length s) 128 && all is_executor_char s then some s else none
executor_of _ = none

-- The number that digits write.
unfoldable pub digits_value : ℕ → Str → ℕ
digits_value n [] = n
digits_value n (c ∷ s) = digits_value (n * 10 + (c - b'0')) s

-- `spark.sql.execution.id`, as an id
unfoldable pub execution_of : Value → Option ℕ
execution_of (text s) =
    if ltb 0 (length s) && leb (length s) 19 && all is_digit s
    then metric_integer (integer (pos (digits_value 0 s)))
    else none
execution_of _ = none

-- `SparkEventIds`
pub record EventIds : Type 0 where
  pub execution_id : Option ℕ
  pub job_id : Option ℕ
  pub stage_id : Option ℕ
  pub stage_attempt_id : Option ℕ
  pub task_id : Option ℕ
  pub executor_id : Option Str

abbrev pub is_text : Str → Value → Bool
is_text s (text t) = str_eq s t
is_text s _ = false

-- The id of the SQL execution of an event.
unfoldable pub execution_id_of : Fields → Option ℕ
execution_id_of event = elim (count_at event (codes "executionId")) [
  | some n ↦ some n
  | none ↦
      if is_text (codes "SparkListenerJobStart") (get_value (codes "Event") event)
      then execution_of
          (get_value (codes "spark.sql.execution.id") (object_at event (codes "Properties")))
      else none
]

-- A number of an event, or of its stage if the event has no such key.
abbrev stage_count : Fields → Str → Option ℕ
stage_count event name =
    if has_key name event
    then count_at event name
    else count_at (object_at event (codes "Stage Info")) name

-- The executor of an event.
unfoldable pub executor_id_of : Fields → Option Str
executor_id_of event =
    let name = codes "Executor ID" in
    let task = object_at event (codes "Task Info") in
    if has_key name event
    then executor_of (get_value name event)
    else if has_key name task
    then executor_of (get_value name task)
    else executor_of (get_value name (object_at event (codes "Block Manager ID")))

unfoldable pub direct_ids : Fields → EventIds
direct_ids event = record {
  execution_id = execution_id_of event;
  job_id = count_at event (codes "Job ID");
  stage_id = stage_count event (codes "Stage ID");
  stage_attempt_id = stage_count event (codes "Stage Attempt ID");
  task_id = count_at (object_at event (codes "Task Info")) (codes "Task ID");
  executor_id = executor_id_of event;
}

-- A reason that a `Reason` names validly.
unfoldable pub valid_reason : Value → Option Str
valid_reason (text s) =
    if ltb 0 (length s) && leb (length s) 128 && not (any is_control s) then some s else none
valid_reason _ = none

-- `task_reason`, with `none` for an invalid one
unfoldable pub task_reason : Fields → Option Str
task_reason event =
    valid_reason (get_value (codes "Reason") (object_at event (codes "Task End Reason")))
