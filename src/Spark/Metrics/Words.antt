-- ===== src/Spark/Metrics/Words.antt =====
-- The measurements of a task fit in the words of `array("Q")`.
use etl_mcp_suite.Value.{
  pos, negsuc, Value, null, boolean, integer, text, binary, sequence, mapping, opaque, Fields,
}
use etl_mcp_suite.Spark.Events.{max_count, metric_integer}
use etl_mcp_suite.Spark.Metrics.{
  MetricName, duration_ms, executor_run_time_ms, jvm_gc_time_ms, input_bytes, shuffle_read_bytes,
  shuffle_fetch_wait_ms, both_read, task_duration, task_metric_values,
}
use etl_mcp_suite.Base.{
  ℕ, ◌^◌, ◌<◌, inl, inr, ◌&&◌, Option, none, some, arith, ltb, leb, Bool-cases,
}

-- A number, if there is one, that is small.
pub data IsBelow (n : ℕ) : Option ℕ → Type 0 where
  absent : IsBelow n none
  present : {m : ℕ} → m < n → IsBelow n (some m)

metric_integer-IsBelow : (value : Value) → IsBelow (2 ^ 63) (metric_integer value)
unfolding metric_integer
metric_integer-IsBelow (integer (pos n)) = elim (Bool-cases (leb n max_count)) [
  | inl small ↦ rw small (present (ground arith))
  | inr large ↦ rw large absent
]
metric_integer-IsBelow (integer (negsuc n)) = absent
metric_integer-IsBelow null = absent
metric_integer-IsBelow (boolean b) = absent
metric_integer-IsBelow (text s) = absent
metric_integer-IsBelow (binary b) = absent
metric_integer-IsBelow (sequence xs) = absent
metric_integer-IsBelow (mapping m) = absent
metric_integer-IsBelow (opaque n) = absent

widened : {x : Option ℕ} → IsBelow (2 ^ 63) x → IsBelow (2 ^ 64) x
widened absent = absent
widened (present h) = present (omega arith)

task_duration-IsBelow :
    {x y : Option ℕ}
    → IsBelow (2 ^ 63) x
    → IsBelow (2 ^ 63) y
    → IsBelow (2 ^ 64) (task_duration x y)
unfolding task_duration
task_duration-IsBelow absent k = absent
task_duration-IsBelow (present h) absent = absent
task_duration-IsBelow (present {m = m} h) (present {m = n} k) =
    elim (Bool-cases (ltb 0 n && leb m n)) [
      | inl valid ↦ rw valid (present (omega arith))
      | inr invalid ↦ rw invalid absent
    ]

both_read-IsBelow :
    {x y : Option ℕ} → IsBelow (2 ^ 63) x → IsBelow (2 ^ 63) y → IsBelow (2 ^ 64) (both_read x y)
unfolding both_read
both_read-IsBelow absent k = absent
both_read-IsBelow (present h) absent = absent
both_read-IsBelow (present h) (present k) = present (omega arith)

-- Each measurement of a task that an event reports is below 2 ^ 64, so that appending it to an array
-- of 64-bit words never overflows.
pub task_metric_values-IsBelow :
    (event : Fields) (name : MetricName) → IsBelow (2 ^ 64) (task_metric_values event name)
unfolding task_metric_values
task_metric_values-IsBelow event duration_ms =
    task_duration-IsBelow (metric_integer-IsBelow _) (metric_integer-IsBelow _)
task_metric_values-IsBelow event executor_run_time_ms = widened (metric_integer-IsBelow _)
task_metric_values-IsBelow event jvm_gc_time_ms = widened (metric_integer-IsBelow _)
task_metric_values-IsBelow event input_bytes = widened (metric_integer-IsBelow _)
task_metric_values-IsBelow event shuffle_read_bytes =
    both_read-IsBelow (metric_integer-IsBelow _) (metric_integer-IsBelow _)
task_metric_values-IsBelow event shuffle_fetch_wait_ms = widened (metric_integer-IsBelow _)
