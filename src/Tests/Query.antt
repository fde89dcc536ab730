-- ===== src/Tests/Query.antt =====
-- The theorems on the reader and on the queries of Spark, at concrete inputs.
use etl_mcp_suite.Value.{Value, null, text, mapping, Fields, end, field, get_value}
use etl_mcp_suite.Text.{Str, codes, str_eq, is_control}
use etl_mcp_suite.Spark.Overview.{inspect}
use etl_mcp_suite.Spark.Overview.Failures.{IsOverviewOf, inspect-IsOverviewOf}
use etl_mcp_suite.Spark.Query.{QueryRequest, query}
use etl_mcp_suite.Spark.Query.Paging.{IsPageOf, query-IsPageOf}
use etl_mcp_suite.Spark.Reader.{
  SelectedFile, VerifiedScan, check_event, count_line, event_name, event_of, read_file, read_line,
  read_lines, see_end, verified,
}
use etl_mcp_suite.Spark.Reader.Whole.{IsAccepted, read_file-IsAccepted}
use etl_mcp_suite.Base.{
  ℕ, ◌+◌, ◌≡◌, refl, Bool, true, false, Option, none, some, List, [], ◌∷◌, arith, ◌==◌,
  if◌then◌else◌, length, ok,
}

abbrev started : Fields
started =
    field (codes "Event") (text (codes "SparkListenerApplicationStart"))
      (field (codes "App ID") (text (codes "app")) (field (codes "App Attempt ID") null end))

abbrev logged : Fields
logged =
    field (codes "Event") (text (codes "SparkListenerLogStart"))
      (field (codes "Spark Version") (text (codes "3")) end)

-- A file of two lines, which this JSON tells apart by their lengths.
abbrev lines : List (List ℕ)
lines = (1 ∷ []) ∷ (2 ∷ 2 ∷ []) ∷ []

abbrev json : List ℕ → Option Value
json line = if length line == 1 then some (mapping logged) else some (mapping started)

abbrev selected : SelectedFile
selected = record {
  application_id = codes "app";
  attempt_id = none;
  spark_version = codes "3";
  event_count = 2;
  size_bytes = 3;
  sha256 = codes "d";
  application_end_seen = false;
}

abbrev digest : List (List ℕ) → Str
digest _ = codes "d"

-- A visitor that counts the events.
abbrev count_event : ℕ → Fields → ℕ → ℕ
count_event line event n = n + 1

abbrev scan : VerifiedScan
scan = record {
  spark_version = codes "3";
  event_count = 2;
  application_start_seen = true;
  application_end_seen = false;
}

program : Unit {0}
unfolding read_file read_lines read_line count_line check_event see_end event_of event_name verified
    get_value str_eq is_control
program = tt

accepted : read_file selected 10 json digest true count_event lines 0 ≡ ok (scan, 2)
unfolding program
accepted = refl

read_file-IsAccepted_example : IsAccepted selected 10 json digest count_event lines 0 scan 2
read_file-IsAccepted_example =
    read_file-IsAccepted selected 10 json digest true count_event lines 0 scan 2
      (omega arith, (omega arith, tt)) accepted

abbrev request : QueryRequest
request = record {
  event_types = none;
  execution_id = none;
  job_id = none;
  stage_id = none;
  stage_attempt_id = none;
  task_id = none;
  executor_id = none;
  task_end_reason = none;
  lines = none;
  after_line = 0;
  limit = 1;
}

abbrev no_details : Fields → Str × Bool
no_details event = ([], false)

query-IsPageOf_example :
    IsPageOf no_details request
      (logged ∷ started ∷ [])
      (query no_details request (logged ∷ started ∷ []))
query-IsPageOf_example = query-IsPageOf no_details request (logged ∷ started ∷ []) (omega arith)

-- The end of a job that has failed.
abbrev failed : Fields
failed = field (codes "Event") (text (codes "SparkListenerJobEnd")) (
    field (codes "Job Result") (mapping (field (codes "Result") (text (codes "JobFailed")) end))
      end)

inspect-IsOverviewOf_example :
    IsOverviewOf no_details (logged ∷ failed ∷ []) (inspect no_details (logged ∷ failed ∷ []))
inspect-IsOverviewOf_example = inspect-IsOverviewOf no_details (logged ∷ failed ∷ [])
