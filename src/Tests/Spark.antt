-- ===== src/Tests/Spark.antt =====
-- The theorems on the metrics of Spark, at concrete inputs.
use etl_mcp_suite.Value.{
  pos, integer, text, mapping, Fields, end, field, get_value, has_key, object_of,
}
use etl_mcp_suite.Text.{codes, str_eq}
use etl_mcp_suite.Spark.Events.{metric_integer, task_reason, valid_reason}
use etl_mcp_suite.Spark.Metrics.{
  MetricName, duration_ms, insert_value, metric_distribution, sorted_values, task_duration,
  task_metric_values, task_outcome, value_at,
}
use etl_mcp_suite.Spark.Metrics.Distribution.{IsSummary, metric_distribution-IsSummary}
use etl_mcp_suite.Spark.Metrics.Words.{IsBelow, task_metric_values-IsBelow}
use etl_mcp_suite.Spark.Ranking.{key_less}
use etl_mcp_suite.Spark.Ranking.Top.{ranking}
use etl_mcp_suite.Spark.Stages.{
  StageMetricsResult, change_of, insert_group, key_of, scan_stage_metrics, sorted_groups,
  stage_event_of, stage_result, update_stage, visit_keyed, visit_stage,
}
use etl_mcp_suite.Spark.Stages.Counts.{count_ends, reported_ends, scan_stage_metrics-counts}
use etl_mcp_suite.Spark.Tasks.{
  TaskDistributionRequest, ranked_task, scan_task_distribution, visit_all,
}
use etl_mcp_suite.Spark.Tasks.Counts.{count_task_ends, scan_task_distribution-counts}
use etl_mcp_suite.Spark.Tasks.Named.{ranked_tasks, scan_task_distribution-names}
use etl_mcp_suite.Base.{◌+◌, ◌^◌, ◌≡◌, refl, none, some, [], ◌∷◌, map, arith, length, take}

-- The end of a task of the first attempt of stage 3.
abbrev ended : Fields
ended = field (codes "Event") (text (codes "SparkListenerTaskEnd")) (
    field (codes "Stage ID") (integer (pos 3)) (
      field (codes "Stage Attempt ID") (integer (pos 0)) (
        field (codes "Task End Reason")
          (mapping (field (codes "Reason") (text (codes "Success")) end))
          (field (codes "Task Info")
            (mapping (
              field (codes "Launch Time") (integer (pos 10))
                (field (codes "Finish Time") (integer (pos 17)) end)))
            end))))

abbrev request : TaskDistributionRequest
request = record { stage_id = 3; stage_attempt_id = 0; order_by = duration_ms; limit = 20 }

program : Unit {0}
unfolding get_value has_key object_of str_eq metric_integer task_reason valid_reason insert_value
    metric_distribution sorted_values task_duration task_metric_values task_outcome value_at
    scan_stage_metrics visit_stage visit_keyed visit_all stage_result stage_event_of key_of
    update_stage change_of insert_group sorted_groups
program = tt

median : (metric_distribution (3 ∷ 1 ∷ 2 ∷ []) 4).p50 ≡ some 2
unfolding program
median = refl

took_seven : task_metric_values ended duration_ms ≡ some 7
unfolding program
took_seven = refl

metric_distribution-IsSummary_example :
    IsSummary (3 ∷ 1 ∷ 2 ∷ []) 4 (metric_distribution (3 ∷ 1 ∷ 2 ∷ []) 4)
metric_distribution-IsSummary_example =
    metric_distribution-IsSummary (3 ∷ 1 ∷ 2 ∷ []) 4 (omega arith)

task_metric_values-IsBelow_example : IsBelow (2 ^ 64) (task_metric_values ended duration_ms)
task_metric_values-IsBelow_example = task_metric_values-IsBelow ended duration_ms

scan_task_distribution-counts_example :
    ((scan_task_distribution request (ended ∷ [])).task_end_count
      ≡ count_task_ends request (ended ∷ []))
    × ((name : MetricName)
        → ((scan_task_distribution request (ended ∷ [])).distributions name).valid_count
            + ((scan_task_distribution request (ended ∷ [])).distributions name).missing_count
          ≡ (scan_task_distribution request (ended ∷ [])).successful_task_end_count)
scan_task_distribution-counts_example = scan_task_distribution-counts request (ended ∷ [])

scan_task_distribution-names_example :
    ((scan_task_distribution request (ended ∷ [])).top_tasks
      ≡ map ranked_task (take 20 (ranking key_less (ranked_tasks request 1 (ended ∷ [])))))
    × ((scan_task_distribution request (ended ∷ [])).ranked_task_count
        ≡ length (ranked_tasks request 1 (ended ∷ [])))
scan_task_distribution-names_example = scan_task_distribution-names request (ended ∷ [])

abbrev report : StageMetricsResult
report = scan_stage_metrics (record { selected = none; limit = 20 }) (ended ∷ [])

one_stage : report.matched_stage_attempt_count ≡ 1
unfolding program
one_stage = refl

scan_stage_metrics-counts_example :
    report.unassigned_task_end_count + reported_ends report.stages ≡ count_ends (ended ∷ [])
scan_stage_metrics-counts_example =
    scan_stage_metrics-counts 20 (ended ∷ []) (rw one_stage (omega arith))
