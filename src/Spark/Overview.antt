-- ===== src/Spark/Overview.antt =====
-- src/mcp_stdio/plugins/spark/inspection.py: `_inspect`, over the events that the reader hands to its
-- visitor. The projection of an event to its details is a parameter.
pub mod Failures
use etl_mcp_suite.Value.{Fields, Value, text, get_value, object_of}
use etl_mcp_suite.Text.{Str, codes, str_eq}
use etl_mcp_suite.Spark.Events.{is_text, task_reason}
use etl_mcp_suite.Spark.Query.{
  Counter, Evidence, count_reason, counter_sum, evidence_of, name_of, reason_counts, reason_of,
}
use etl_mcp_suite.Spark.Ranking.{heap_least, heap_push}
use etl_mcp_suite.Spark.Tasks.{is_event, visit_all}
use etl_mcp_suite.Base.{
  ℕ, ◌+◌, ◌-◌, Bool, true, false, ◌&&◌, ◌||◌, not, Option, none, some, List, [], ◌∷◌, ◌++◌, map,
  ltb, ◌==◌, if◌then◌else◌, length, take, is_empty,
}

-- The kinds of failures, in the order of their priorities.
pub data FailureKind : Type 0 where
  job_failed stage_failed task_failed executor_removed : FailureKind

unfoldable pub priority : FailureKind → ℕ
priority job_failed = 0
priority stage_failed = 1
priority task_failed = 2
priority executor_removed = 3

-- `isinstance(reason, str) and reason`
abbrev is_some_text : Value → Bool
is_some_text (text s) = not (is_empty s)
is_some_text _ = false

abbrev is_other : Option Str → Str → Bool
is_other none s = false
is_other (some reason) s = not (str_eq reason s)

abbrev when : {A : Type 0} → Bool → A → Option A
when true a = some a
when false a = none

-- The failure that an event tells of.
unfoldable pub failure_of : Fields → Option FailureKind
failure_of event =
    if is_event (codes "SparkListenerJobEnd") event
    then when
        (is_text (codes "JobFailed")
          (get_value (codes "Result") (object_of (get_value (codes "Job Result") event))))
        job_failed
    else if is_event (codes "SparkListenerStageCompleted") event
    then when
        (is_some_text
          (get_value (codes "Failure Reason") (object_of (get_value (codes "Stage Info") event))))
        stage_failed
    else if is_event (codes "SparkListenerTaskEnd") event
    then when (is_other (task_reason event) (codes "Success")) task_failed
    else when (is_event (codes "SparkListenerExecutorRemoved") event) executor_removed

-- An event that ends a job, an execution or the application.
unfoldable pub is_ending : Fields → Bool
is_ending event =
    is_event (codes "SparkListenerJobEnd") event
    || is_event (codes "org.apache.spark.sql.execution.ui.SparkListenerSQLExecutionEnd") event
    || is_event (codes "SparkListenerApplicationEnd") event

-- `(priority, line, entry)`
pub record Noted : Type 0 where
  pub kind : FailureKind
  pub evidence : Evidence

-- `item[:2]` of the second is before that of the first.
abbrev pub is_later : Noted → Noted → Bool
is_later d c =
    ltb (priority c.kind) (priority d.kind)
    || (priority c.kind == priority d.kind && ltb c.evidence.line d.evidence.line)

-- A failure among those kept: appended, sorted into the sorted list, and the last of more than 20
-- dropped.
unfoldable pub note_failure : Noted → List Noted → List Noted
note_failure f [] = f ∷ []
note_failure f (d ∷ failures) =
    if ltb (length (d ∷ failures)) 20 || is_later (heap_least d failures) f
    then take 20 (heap_push is_later f (d ∷ failures))
    else d ∷ failures

pub record Signals : Type 0 where
  pub job_failed_events : ℕ
  pub stage_failure_events : ℕ
  pub task_non_success_events : ℕ
  pub executor_removed_events : ℕ

-- `signals[priority] += 1`
unfoldable pub add_signal : FailureKind → Signals → Signals
add_signal job_failed s = record {
  job_failed_events = s.job_failed_events + 1;
  stage_failure_events = s.stage_failure_events;
  task_non_success_events = s.task_non_success_events;
  executor_removed_events = s.executor_removed_events;
}
add_signal stage_failed s = record {
  job_failed_events = s.job_failed_events;
  stage_failure_events = s.stage_failure_events + 1;
  task_non_success_events = s.task_non_success_events;
  executor_removed_events = s.executor_removed_events;
}
add_signal task_failed s = record {
  job_failed_events = s.job_failed_events;
  stage_failure_events = s.stage_failure_events;
  task_non_success_events = s.task_non_success_events + 1;
  executor_removed_events = s.executor_removed_events;
}
add_signal executor_removed s = record {
  job_failed_events = s.job_failed_events;
  stage_failure_events = s.stage_failure_events;
  task_non_success_events = s.task_non_success_events;
  executor_removed_events = s.executor_removed_events + 1;
}

-- The variables of the scan, but the counters of types and reasons.
pub record Noticed : Type 0 where
  pub signals : Signals
  pub failures : List Noted
  pub failure_count : ℕ
  pub endings : List Evidence
  pub ending_count : ℕ

pub record Overview : Type 0 where
  pub types : Counter
  pub reasons : Counter
  pub noticed : Noticed

abbrev pub nothing_yet : Noticed
nothing_yet = record {
  signals = record {
    job_failed_events = 0;
    stage_failure_events = 0;
    task_non_success_events = 0;
    executor_removed_events = 0;
  };
  failures = [];
  failure_count = 0;
  endings = [];
  ending_count = 0;
}

-- `SparkEventLogInspectionResult`, less what is of the snapshot and the scan
pub record InspectionResult : Type 0 where
  pub event_types : Counter
  pub event_types_omitted : ℕ
  pub signals : Signals
  pub task_end_count : ℕ
  pub task_end_reasons : Counter
  pub reasons_omitted : ℕ
  pub evidence : List Evidence
  pub evidence_omitted : ℕ

abbrev count_some : Option Str → Counter → Counter
count_some none reasons = reasons
count_some (some reason) reasons = count_reason reason reasons

module _ (event_details : Fields → Str × Bool) where
  -- What an event adds to the failures, or to the endings.
  unfoldable pub notice : ℕ → Fields → Option FailureKind → Noticed → Noticed
  notice line event (some kind) seen = record {
    signals = add_signal kind seen.signals;
    failures =
        note_failure (record { kind = kind; evidence = evidence_of event_details line event })
          seen.failures;
    failure_count = seen.failure_count + 1;
    endings = seen.endings;
    ending_count = seen.ending_count;
  }
  notice line event none seen =
      if is_ending event
      then record {
        signals = seen.signals;
        failures = seen.failures;
        failure_count = seen.failure_count;
        endings =
            if ltb (length seen.endings) 20
            then seen.endings ++ evidence_of event_details line event ∷ []
            else seen.endings;
        ending_count = seen.ending_count + 1;
      }
      else seen

  -- `visit`
  unfoldable pub visit_overview : ℕ → Fields → Overview → Overview
  visit_overview line event seen = record {
    types = count_reason (name_of event) seen.types;
    reasons = count_some (reason_of event) seen.reasons;
    noticed = notice line event (failure_of event) seen.noticed;
  }

  unfoldable pub overview_result : Overview → InspectionResult
  overview_result seen =
      let no_failure = seen.noticed.failure_count == 0 in
      let evidence =
        if no_failure then seen.noticed.endings else map (λ f. f.evidence) seen.noticed.failures in
      let total = if no_failure then seen.noticed.ending_count else seen.noticed.failure_count in
      record {
        event_types = reason_counts seen.types;
        event_types_omitted = length seen.types - 32;
        signals = seen.noticed.signals;
        task_end_count = counter_sum seen.reasons;
        task_end_reasons = reason_counts seen.reasons;
        reasons_omitted = length seen.reasons - 32;
        evidence = evidence;
        evidence_omitted = total - length evidence;
      }

  -- `_inspect` of the events of a file.
  unfoldable pub inspect : List Fields → InspectionResult
  inspect events = overview_result (
      visit_all visit_overview 1 events
        (record { types = []; reasons = []; noticed = nothing_yet }))
