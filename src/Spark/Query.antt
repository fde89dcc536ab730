-- ===== src/Spark/Query.antt =====
-- src/mcp_stdio/plugins/spark/inspection.py: `_query`, over the events that the reader hands to its
-- visitor. The projection of an event to its details, `event_details`, is a parameter.
pub mod Scanned
pub mod Matches
pub mod Paging
use etl_mcp_suite.Value.{Fields, Value, text, get_value}
use etl_mcp_suite.Text.{Str, codes, str_eq, mem_str}
use etl_mcp_suite.Spark.Events.{EventIds, direct_ids, task_reason}
use etl_mcp_suite.Spark.Tasks.{is_event, visit_all}
use etl_mcp_suite.Base.{
  ℕ, zero, suc, ◌+◌, ◌-◌, ◌*◌, ◌/◌, ◌%◌, ◌^◌, ◌≤◌, ◌<◌, min, ◌≡◌, refl, sym, ap, ◌∙◌, subst, ◌≢◌,
  ◌↔◌, ◌⊎◌, inl, inr, Bool, true, false, ◌&&◌, ◌||◌, not, Option, none, some, List, [], ◌∷◌, ◌++◌,
  map, foldl, append-nil, append_assoc, arith, ltb, leb, ◌==◌, if◌then◌else◌, ltb→lt, lt→ltb,
  leb→le, ==_iff, tests, Bool-cases, Option-cases, &&-eq-true, ||-eq-false, length, take, drop,
  is_empty, any, all, filter, All, length-append, length-take-le, all-append, All-append, All-map,
  All-filter, length-filter-le, drop-append_one, Result, ok, err, Ensures, returns, raises,
  Ensures-any, of_Ensures, Ensures-if, Ensures-bind, ◌>>=◌, ◌>>◌, raise_if, Result-cases, >>=-eq-ok,
}

-- `QueryRequest`, less what selects the file
pub record QueryRequest : Type 0 where
  pub event_types : Option (List Str)
  pub execution_id : Option ℕ
  pub job_id : Option ℕ
  pub stage_id : Option ℕ
  pub stage_attempt_id : Option ℕ
  pub task_id : Option ℕ
  pub executor_id : Option Str
  pub task_end_reason : Option Str
  pub lines : Option (List ℕ)
  pub after_line : ℕ
  pub limit : ℕ

-- `SparkEventEvidence`, with the line of its reference
pub record Evidence : Type 0 where
  pub line : ℕ
  pub event_type : Str
  pub ids : EventIds
  pub details : Str
  pub details_truncated : Bool

abbrev pub Counter : Type 0
Counter = List (Str × ℕ)

-- `reasons[reason] += 1`
unfoldable pub count_reason : Str → Counter → Counter
count_reason reason [] = (reason, 1) ∷ []
count_reason reason ((name, n) ∷ rest) =
    if str_eq name reason then (name, n + 1) ∷ rest else (name, n) ∷ count_reason reason rest

-- `sum(reasons.values())`
unfoldable pub counter_sum : Counter → ℕ
counter_sum [] = 0
counter_sum ((name, n) ∷ rest) = n + counter_sum rest

-- `name < other`
unfoldable pub str_less : Str → Str → Bool
str_less s [] = false
str_less [] (d ∷ t) = true
str_less (c ∷ s) (d ∷ t) = ltb c d || (c == d && str_less s t)

-- `sorted(reasons.items(), key=lambda item: (-item[1], item[0]))`
unfoldable pub insert_count : Str × ℕ → Counter → Counter
insert_count c [] = c ∷ []
insert_count (name, n) ((other, k) ∷ rest) =
    if ltb n k || (n == k && str_less other name)
    then (other, k) ∷ insert_count (name, n) rest
    else (name, n) ∷ (other, k) ∷ rest

unfoldable pub sorted_counts : Counter → Counter
sorted_counts [] = []
sorted_counts (c ∷ rest) = insert_count c (sorted_counts rest)

-- `_reason_counts`
unfoldable pub reason_counts : Counter → Counter
reason_counts reasons = take 32 (sorted_counts reasons)

-- `str(event["Event"])`, which the reader has found to be a text
abbrev pub name_of : Fields → Str
name_of event = elim (get_value (codes "Event") event) [ text name ↦ name | _ ↦ [] ]

abbrev allows : Option (List Str) → Str → Bool
allows none name = true
allows (some names) name = mem_str name names

unfoldable pub mem_line : ℕ → List ℕ → Bool
mem_line line [] = false
mem_line line (n ∷ lines) = line == n || mem_line line lines

abbrev allows_line : Option (List ℕ) → ℕ → Bool
allows_line none line = true
allows_line (some lines) line = mem_line line lines

-- No filter, or the same id.
abbrev same_id : Option ℕ → Option ℕ → Bool
same_id none id = true
same_id (some wanted) none = false
same_id (some wanted) (some id) = wanted == id

abbrev same_text : Option Str → Option Str → Bool
same_text none s = true
same_text (some wanted) none = false
same_text (some wanted) (some s) = str_eq s wanted

-- No value of `id_filters` differs.
unfoldable pub same_ids : QueryRequest → EventIds → Bool
same_ids request ids =
    same_id request.execution_id ids.execution_id
    && same_id request.job_id ids.job_id
    && same_id request.stage_id ids.stage_id
    && same_id request.stage_attempt_id ids.stage_attempt_id
    && same_id request.task_id ids.task_id
    && same_text request.executor_id ids.executor_id

-- The reason of the end of a task.
unfoldable pub reason_of : Fields → Option Str
reason_of event =
    if is_event (codes "SparkListenerTaskEnd") event
    then elim (task_reason event) [ none ↦ some (codes "UNKNOWN") | some reason ↦ some reason ]
    else none

-- The tests of `visit`.
unfoldable pub is_matched : QueryRequest → ℕ → Fields → Bool
is_matched request line event =
    allows request.event_types (name_of event)
    && allows_line request.lines line
    && same_ids request (direct_ids event)
    && same_text request.task_end_reason (reason_of event)

pub record QueryScan : Type 0 where
  pub reasons : Counter
  pub entries : List Evidence
  pub matched : ℕ
  pub eligible : ℕ

abbrev count_some_reason : Option Str → Counter → Counter
count_some_reason none reasons = reasons
count_some_reason (some reason) reasons = count_reason reason reasons

-- `SparkEventQueryResult`, less what is of the snapshot
pub record QueryResult : Type 0 where
  pub matched_count : ℕ
  pub task_end_count : ℕ
  pub task_end_reasons : Counter
  pub reasons_omitted : ℕ
  pub events : List Evidence
  pub returned_count : ℕ
  pub next_after_line : Option ℕ

-- `events[-1].ref.line`, if there is one
unfoldable pub last_line : List Evidence → Option ℕ
last_line [] = none
last_line (e ∷ []) = some e.line
last_line (e ∷ f ∷ es) = last_line (f ∷ es)

module _ (event_details : Fields → Str × Bool) where
  unfoldable pub evidence_of : ℕ → Fields → Evidence
  evidence_of line event =
      let (details, truncated) = event_details event in
      record {
        line = line;
        event_type = name_of event;
        ids = direct_ids event;
        details = details;
        details_truncated = truncated;
      }

  -- An eligible event, if there is room for it.
  unfoldable pub add_entry : ℕ → Evidence → List Evidence → List Evidence
  add_entry limit e entries = if leb limit (length entries) then entries else entries ++ e ∷ []

  -- An event that matches.
  unfoldable pub count_match : QueryRequest → ℕ → Fields → QueryScan → QueryScan
  count_match request line event scan =
      let reasons = count_some_reason (reason_of event) scan.reasons in
      let passed = leb line request.after_line in
      record {
        reasons = reasons;
        entries =
            if passed
            then scan.entries
            else add_entry request.limit (evidence_of line event) scan.entries;
        matched = scan.matched + 1;
        eligible = if passed then scan.eligible else scan.eligible + 1;
      }

  -- `visit`
  unfoldable pub visit_query : QueryRequest → ℕ → Fields → QueryScan → QueryScan
  visit_query request line event scan =
      if is_matched request line event then count_match request line event scan else scan

  unfoldable pub query_result : QueryScan → QueryResult
  query_result scan = record {
    matched_count = scan.matched;
    task_end_count = counter_sum scan.reasons;
    task_end_reasons = reason_counts scan.reasons;
    reasons_omitted = length scan.reasons - 32;
    events = scan.entries;
    returned_count = length scan.entries;
    next_after_line =
        if ltb (length scan.entries) scan.eligible then last_line scan.entries else none;
  }

  abbrev pub no_query : QueryScan
  no_query = record { reasons = []; entries = []; matched = 0; eligible = 0 }

  -- `_query` of the events of a file.
  unfoldable pub query : QueryRequest → List Fields → QueryResult
  query request events = query_result (visit_all (visit_query request) 1 events no_query)
