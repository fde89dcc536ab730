-- ===== src/Spark/Overview/Failures.antt =====
-- The failures that the overview counts and names.
use etl_mcp_suite.Value.{Fields}
use etl_mcp_suite.Text.{Str}
use etl_mcp_suite.Spark.Query.{evidence_of}
use etl_mcp_suite.Spark.Overview.{
  FailureKind, InspectionResult, Noted, Noticed, Overview, Signals, add_signal, executor_removed,
  failure_of, inspect, is_ending, is_later, job_failed, note_failure, nothing_yet, notice,
  overview_result, stage_failed, task_failed, visit_overview,
}
use etl_mcp_suite.Spark.Ranking.{heap_least, heap_push}
use etl_mcp_suite.Spark.Ranking.Top.{
  IsRanked, push-IsRanked, push-take, ranking, ranking_from, take-IsRanked, take-push-least,
}
use etl_mcp_suite.Spark.Tasks.{visit_all}
use etl_mcp_suite.Base.{
  ℕ, ◌+◌, ◌-◌, ◌≤◌, ◌<◌, ◌≡◌, refl, sym, ap, ◌∙◌, subst, inl, inr, Bool, true, false, ◌||◌,
  if◌then◌else◌, Option, none, some, List, [], ◌∷◌, ◌++◌, map, arith, ltb, ◌==◌, Bool-cases, length,
  take, length-append, append_assoc, append-nil, length-take-le,
}

is_later_asym : (c d : Noted) → is_later c d ≡ true → is_later d c ≡ false
is_later_asym c d h = ground arith

is_later_trans :
    (c d e : Noted) → is_later c d ≡ false → is_later d e ≡ false → is_later c e ≡ false
is_later_trans c d e h k = ground arith

note_failure-nothing : (f : Noted) → note_failure f [] ≡ take 20 (heap_push is_later f [])
unfolding note_failure heap_push
note_failure-nothing f = refl

note_failure-take :
    (f : Noted) (failures : List Noted)
    → IsRanked is_later failures
    → length failures ≤ 20
    → note_failure f failures ≡ take 20 (heap_push is_later f failures)
unfolding note_failure
note_failure-take f [] h k = note_failure-nothing f
note_failure-take f (d ∷ failures) h k =
    elim (Bool-cases (ltb (length (d ∷ failures)) 20 || is_later (heap_least d failures) f)) [
      | inl taken ↦ rw taken refl
      | inr passed ↦
          let full : length (d ∷ failures) ≡ 20 = ground arith in
          let least : is_later (heap_least d failures) f ≡ false = ground arith in
          rw passed (
            sym (
              subst (λ n. take n (heap_push is_later f (d ∷ failures)) ≡ d ∷ failures) full
                (take-push-least is_later is_later_asym is_later_trans f d failures h least)))
    ]

unfoldable pub is_kind : FailureKind → FailureKind → Bool
is_kind job_failed job_failed = true
is_kind stage_failed stage_failed = true
is_kind task_failed task_failed = true
is_kind executor_removed executor_removed = true
is_kind _ _ = false

-- How many of the failures are of a kind.
unfoldable pub count_kind : FailureKind → List Noted → ℕ
count_kind kind [] = 0
count_kind kind (f ∷ failures) = (if is_kind kind f.kind then 1 else 0) + count_kind kind failures

abbrev pub signal : FailureKind → Signals → ℕ
signal job_failed s = s.job_failed_events
signal stage_failed s = s.stage_failure_events
signal task_failed s = s.task_non_success_events
signal executor_removed s = s.executor_removed_events

add_signal-signal :
    (kind k : FailureKind) (s : Signals)
    → signal k (add_signal kind s) ≡ signal k s + (if is_kind k kind then 1 else 0)
unfolding add_signal is_kind
add_signal-signal job_failed job_failed s = omega arith
add_signal-signal job_failed stage_failed s = omega arith
add_signal-signal job_failed task_failed s = omega arith
add_signal-signal job_failed executor_removed s = omega arith
add_signal-signal stage_failed job_failed s = omega arith
add_signal-signal stage_failed stage_failed s = omega arith
add_signal-signal stage_failed task_failed s = omega arith
add_signal-signal stage_failed executor_removed s = omega arith
add_signal-signal task_failed job_failed s = omega arith
add_signal-signal task_failed stage_failed s = omega arith
add_signal-signal task_failed task_failed s = omega arith
add_signal-signal task_failed executor_removed s = omega arith
add_signal-signal executor_removed job_failed s = omega arith
add_signal-signal executor_removed stage_failed s = omega arith
add_signal-signal executor_removed task_failed s = omega arith
add_signal-signal executor_removed executor_removed s = omega arith

count_kind-append :
    (k : FailureKind) (a b : List Noted) → count_kind k (a ++ b) ≡ count_kind k a + count_kind k b
unfolding count_kind
count_kind-append k [] b = omega arith
count_kind-append k (f ∷ a) b = omega (arith, count_kind-append k a b)

nothing_yet-signal : (k : FailureKind) → signal k nothing_yet.signals ≡ count_kind k []
unfolding count_kind
nothing_yet-signal job_failed = refl
nothing_yet-signal stage_failed = refl
nothing_yet-signal task_failed = refl
nothing_yet-signal executor_removed = refl

ranking_from-append :
    (s a b : List Noted)
    → ranking_from is_later s (a ++ b) ≡ ranking_from is_later (ranking_from is_later s a) b
unfolding ranking_from
ranking_from-append s [] b = refl
ranking_from-append s (c ∷ a) b = ranking_from-append (heap_push is_later c s) a b

module _ (event_details : Fields → Str × Bool) where
  -- The failure of an event, if it tells of one.
  abbrev pub noted_as : ℕ → Fields → Option FailureKind → List Noted
  noted_as line event none = []
  noted_as line event (some kind) =
      record { kind = kind; evidence = evidence_of event_details line event } ∷ []

  -- The failures of a file, from a line on.
  unfoldable pub failures_from : ℕ → List Fields → List Noted
  failures_from line [] = []
  failures_from line (event ∷ events) =
      noted_as line event (failure_of event) ++ failures_from (line + 1) events

  -- What has been noticed, when the failures so far are past and their ranking is s.
  record IsNoticed (s past : List Noted) (seen : Noticed) : Type 0 where
    kept : seen.failures ≡ take 20 s
    ordered : IsRanked is_later s
    counted : seen.failure_count ≡ length past
    signals : (k : FailureKind) → signal k seen.signals ≡ count_kind k past

  notice-IsNoticed :
      (line : ℕ) (event : Fields) (kind : Option FailureKind) (s past : List Noted) (seen : Noticed)
      → IsNoticed s past seen
      → IsNoticed
          (ranking_from is_later s (noted_as line event kind))
          (past ++ noted_as line event kind)
          (notice event_details line event kind seen)
  unfolding notice ranking_from count_kind
  notice-IsNoticed line event (some kind) s past seen h =
      let f : Noted = record { kind = kind; evidence = evidence_of event_details line event } in
      record {
        kept =
            ap (note_failure f) h.kept
            ∙ note_failure-take f (take 20 s)
                (take-IsRanked is_later is_later_asym is_later_trans 20 s h.ordered)
                (length-take-le 20 s)
            ∙ push-take is_later is_later_asym is_later_trans 20 f s;
        ordered = push-IsRanked is_later is_later_asym is_later_trans f s h.ordered;
        counted = omega (arith, h.counted, length-append past (f ∷ []));
        signals = λ k. omega (
          arith,
          h.signals k,
          add_signal-signal kind k seen.signals,
          count_kind-append k past (f ∷ []),
        );
      }
  notice-IsNoticed line event none s past seen h = elim (Bool-cases (is_ending event)) [
    | inl ends ↦ rw ends (record {
      kept = h.kept;
      ordered = h.ordered;
      counted = h.counted ∙ ap length (sym (append-nil past));
      signals = λ k. h.signals k ∙ ap (count_kind k) (sym (append-nil past));
    })
    | inr goes_on ↦ rw goes_on (record {
      kept = h.kept;
      ordered = h.ordered;
      counted = h.counted ∙ ap length (sym (append-nil past));
      signals = λ k. h.signals k ∙ ap (count_kind k) (sym (append-nil past));
    })
  ]

  visit_all-IsNoticed :
      (line : ℕ) (events : List Fields) (s past : List Noted) (seen : Overview)
      → IsNoticed s past seen.noticed
      → IsNoticed
          (ranking_from is_later s (failures_from line events))
          (past ++ failures_from line events)
          (visit_all (visit_overview event_details) line events seen).noticed
  unfolding visit_all visit_overview failures_from ranking_from
  visit_all-IsNoticed line [] s past seen h = record {
    kept = h.kept;
    ordered = h.ordered;
    counted = h.counted ∙ ap length (sym (append-nil past));
    signals = λ k. h.signals k ∙ ap (count_kind k) (sym (append-nil past));
  }
  visit_all-IsNoticed line (event ∷ events) s past seen h =
      let now = noted_as line event (failure_of event) in
      let later = failures_from (line + 1) events in
      let first = notice-IsNoticed line event (failure_of event) s past seen.noticed h in
      let rest =
        visit_all-IsNoticed (line + 1) events (ranking_from is_later s now) (past ++ now)
          (visit_overview event_details line event seen) first in
      let joined = ranking_from-append s now later in
      record {
        kept = rest.kept ∙ ap (take 20) (sym joined);
        ordered = subst (IsRanked is_later) (sym joined) rest.ordered;
        counted = rest.counted ∙ ap length (append_assoc past now later);
        signals = λ k. rest.signals k ∙ ap (count_kind k) (append_assoc past now later);
      }

  -- An overview of events: each signal counts the failures of its kind, and where there are any, its evidence is the
  -- first 20 by priority and line, and the rest of them is counted as omitted.
  pub record IsOverviewOf (events : List Fields) (r : InspectionResult) : Type 0 where
    pub counted : (k : FailureKind) → signal k r.signals ≡ count_kind k (failures_from 1 events)
    pub named :
        0 < length (failures_from 1 events)
        → r.evidence ≡ map (λ f. f.evidence) (take 20 (ranking is_later (failures_from 1 events)))
    pub omitted :
        0 < length (failures_from 1 events)
        → r.evidence_omitted ≡ length (failures_from 1 events) - length r.evidence

  nothing-IsNoticed : IsNoticed [] [] nothing_yet
  unfolding count_kind
  nothing-IsNoticed = record {
    kept = refl;
    ordered = tt;
    counted = refl;
    signals = nothing_yet-signal;
  }

  -- Each signal of the overview is the number of the failures of its kind in the file. Where there are failures, its
  -- evidence is that of the first 20 by priority and line, and it counts the failures left out.
  pub inspect-IsOverviewOf :
      (events : List Fields) → IsOverviewOf events (inspect event_details events)
  unfolding inspect overview_result
  inspect-IsOverviewOf events =
      let before : Overview = record { types = []; reasons = []; noticed = nothing_yet } in
      let seen = visit_all (visit_overview event_details) 1 events before in
      let h = visit_all-IsNoticed 1 events [] [] before nothing-IsNoticed in
      let counted : seen.noticed.failure_count ≡ length (failures_from 1 events) =
        omega (arith, h.counted) in
      record {
        counted = h.signals;
        named = λ some_failure.
            let found : (seen.noticed.failure_count == 0) ≡ false = ground arith in
            rw found (ap (map (λ f. f.evidence)) h.kept);
        omitted = λ some_failure.
            let found : (seen.noticed.failure_count == 0) ≡ false = ground arith in
            rw found (ap (λ n. n - length (map (λ f. f.evidence) seen.noticed.failures)) counted);
      }
