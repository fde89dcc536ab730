-- ===== src/Spark/Stages/Counts.antt =====
-- What the scan of the stages counts.
use etl_mcp_suite.Value.{Fields}
use etl_mcp_suite.Spark.Metrics.{TaskOutcome, success, non_success, unknown, task_outcome}
use etl_mcp_suite.Spark.Stage.{Stage, complete_stage, count_stage_task, new_stage, submit_stage}
use etl_mcp_suite.Spark.Stages.{
  Groups, StageEvent, StageKey, StageMetrics, StageMetricsRequest, StageScan, change_of, completed,
  eq_key, insert_group, key_of, order_less, scan_stage_metrics, sorted_groups, source_of,
  stage_event_of, stage_metrics, stage_result, submitted, task_end, update_stage, visit_keyed,
  visit_stage,
}
use etl_mcp_suite.Spark.Tasks.{visit_all}
use etl_mcp_suite.Base.{
  ℕ, zero, suc, ◌+◌, ◌≤◌, ◌≡◌, refl, ap, ◌∙◌, inl, inr, Option, none, some, List, [], ◌∷◌, map,
  arith, Bool-cases, Option-cases, length, take,
}

abbrev stage_ends : Stage → ℕ
stage_ends stage = stage.successful + stage.non_successful + stage.unknown_count

-- The ends of tasks that the groups count.
unfoldable group_ends : Groups → ℕ
group_ends [] = 0
group_ends ((key, stage) ∷ groups) = stage_ends stage + group_ends groups

-- The ends of tasks that the reported stages count.
unfoldable pub reported_ends : List StageMetrics → ℕ
reported_ends [] = 0
reported_ends (m ∷ ms) = m.task_end_count + reported_ends ms

-- Whether an event is the end of a task.
abbrev pub end_count : Option StageEvent → ℕ
end_count (some task_end) = 1
end_count _ = 0

-- How many of the events are ends of tasks.
unfoldable pub count_ends : List Fields → ℕ
count_ends [] = 0
count_ends (event ∷ events) = end_count (stage_event_of event) + count_ends events

update_stage-ends :
    (key : StageKey) (change : Stage → Stage) (n : ℕ) (groups : Groups)
    → ((stage : Stage) → stage_ends (change stage) ≡ stage_ends stage + n)
    → group_ends (update_stage key change groups) ≡ group_ends groups + n
unfolding update_stage group_ends
update_stage-ends key change n [] h = omega (arith, h new_stage)
update_stage-ends key change n ((k, stage) ∷ groups) h = elim (Bool-cases (eq_key k key)) [
  | inl same ↦ rw same (omega (arith, h stage))
  | inr other ↦ rw other (omega (arith, update_stage-ends key change n groups h))
]

count_stage_task-ends :
    (event : Fields) (outcome : TaskOutcome) (stage : Stage)
    → stage_ends (count_stage_task event outcome stage) ≡ stage_ends stage + 1
unfolding count_stage_task
count_stage_task-ends event success stage = omega arith
count_stage_task-ends event non_success stage = omega arith
count_stage_task-ends event unknown stage = omega arith

change_of-ends :
    (kind : StageEvent) (line : ℕ) (event : Fields) (stage : Stage)
    → stage_ends (change_of kind line event stage) ≡ stage_ends stage + end_count (some kind)
unfolding change_of submit_stage complete_stage
change_of-ends task_end line event stage = count_stage_task-ends event (task_outcome event) stage
change_of-ends submitted line event stage = omega arith
change_of-ends completed line event stage = omega arith

insert_group-ends :
    (g : StageKey × Stage) (groups : Groups)
    → group_ends (insert_group g groups) ≡ group_ends (g ∷ groups)
unfolding insert_group group_ends
insert_group-ends g [] = refl
insert_group-ends g (h ∷ groups) = elim (Bool-cases (order_less h g)) [
  | inl less ↦ rw less (omega (arith, insert_group-ends g groups))
  | inr more ↦ rw more refl
]

insert_group-length :
    (g : StageKey × Stage) (groups : Groups) → length (insert_group g groups) ≡ suc (length groups)
unfolding insert_group
insert_group-length g [] = refl
insert_group-length g (h ∷ groups) = elim (Bool-cases (order_less h g)) [
  | inl less ↦ rw less (ap suc (insert_group-length g groups))
  | inr more ↦ rw more refl
]

sorted_groups-ends : (groups : Groups) → group_ends (sorted_groups groups) ≡ group_ends groups
unfolding sorted_groups group_ends
sorted_groups-ends [] = refl
sorted_groups-ends ((key, stage) ∷ groups) =
    insert_group-ends (key, stage) (sorted_groups groups)
    ∙ ap (λ n. stage_ends stage + n) (sorted_groups-ends groups)

sorted_groups-length : (groups : Groups) → length (sorted_groups groups) ≡ length groups
unfolding sorted_groups
sorted_groups-length [] = refl
sorted_groups-length (g ∷ groups) =
    insert_group-length g (sorted_groups groups) ∙ ap suc (sorted_groups-length groups)

take-ends :
    (n : ℕ) (groups : Groups)
    → length groups ≤ n
    → reported_ends (map stage_metrics (take n groups)) ≡ group_ends groups
unfolding reported_ends group_ends stage_metrics
take-ends zero [] h = refl
take-ends (suc n) [] h = refl
take-ends zero (g ∷ groups) h = ground arith
take-ends (suc n) ((key, stage) ∷ groups) h =
    ap (λ k. stage_ends stage + k) (take-ends n groups (omega arith))

abbrev nothing : StageScan
nothing = record { groups = []; unassigned = 0 }

nothing-ends : group_ends nothing.groups ≡ 0
unfolding group_ends
nothing-ends = refl

module _ (limit : ℕ) where
  -- All stage attempts.
  abbrev everything : StageMetricsRequest
  everything = record { selected = none; limit = limit }

  abbrev scanned_ends : StageScan → ℕ
  scanned_ends scan = scan.unassigned + group_ends scan.groups

  visit_keyed-ends :
      (line : ℕ) (event : Fields) (kind : StageEvent) (key : Option StageKey) (scan : StageScan)
      → scanned_ends (visit_keyed everything line event kind key scan)
        ≡ scanned_ends scan + end_count (some kind)
  unfolding visit_keyed
  visit_keyed-ends line event task_end none scan = omega arith
  visit_keyed-ends line event submitted none scan = omega arith
  visit_keyed-ends line event completed none scan = omega arith
  visit_keyed-ends line event kind (some key) scan = omega (
    arith,
    update_stage-ends key (change_of kind line event) (end_count (some kind)) scan.groups
        (change_of-ends kind line event),
  )

  visit_stage-ends :
      (line : ℕ) (event : Fields) (scan : StageScan)
      → scanned_ends (visit_stage everything line event scan)
        ≡ scanned_ends scan + end_count (stage_event_of event)
  unfolding visit_stage
  visit_stage-ends line event scan = elim (Option-cases (stage_event_of event)) [
    | inl e ↦ rw (e, visit_stage) (omega arith)
    | inr (kind, e) ↦
        rw (e, visit_stage) (visit_keyed-ends line event kind (key_of (source_of kind event)) scan)
  ]

  visit_all-ends :
      (line : ℕ) (events : List Fields) (scan : StageScan)
      → scanned_ends (visit_all (visit_stage everything) line events scan)
        ≡ scanned_ends scan + count_ends events
  unfolding visit_all count_ends
  visit_all-ends line [] scan = omega arith
  visit_all-ends line (event ∷ events) scan = omega (
    arith,
    visit_stage-ends line event scan,
    visit_all-ends (line + 1) events (visit_stage everything line event scan),
  )

  -- A scan of all stage attempts that reports as many as it finds counts each end of a task of the
  -- file once: for a stage attempt, or as one that names none.
  pub scan_stage_metrics-counts :
      (events : List Fields)
      → (scan_stage_metrics everything events).matched_stage_attempt_count ≤ limit
      → (scan_stage_metrics everything events).unassigned_task_end_count
          + reported_ends (scan_stage_metrics everything events).stages
        ≡ count_ends events
  unfolding scan_stage_metrics stage_result
  scan_stage_metrics-counts events h =
      let scan = visit_all (visit_stage everything) 1 events nothing in
      let all_of = sorted_groups scan.groups in
      let counted : scan.unassigned + reported_ends (map stage_metrics (take limit all_of))
          ≡ count_ends events =
        omega (
          arith,
          take-ends limit all_of (rw (sorted_groups-length scan.groups) h),
          sorted_groups-ends scan.groups,
          visit_all-ends 1 events nothing,
          nothing-ends,
        ) in
      counted
