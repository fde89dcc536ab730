-- ===== src/Tests/Scheduler.antt =====
-- The theorems on the scheduler service and its gateway over HTTP, at concrete inputs.
use etl_mcp_suite.Value.{pos, integer, sequence, mapping, end, field, nil}
use etl_mcp_suite.Text.{codes, is_digit, str_eq, mem_str}
use etl_mcp_suite.Errors.{ToolOperation}
use etl_mcp_suite.DolphinScheduler.Gateway.{GatewayCall}
use etl_mcp_suite.DolphinScheduler.Pages.{Limits, dedupe, dedupe_from}
use etl_mcp_suite.DolphinScheduler.Pages.Deduped.{dedupe-first_occurrences, first_occurrences}
use etl_mcp_suite.DolphinScheduler.Runs.{Request, handle}
use etl_mcp_suite.DolphinScheduler.Bounds.{IsBounded, IsConfigured, IsSmall, is_start}
use etl_mcp_suite.DolphinScheduler.Bounds.Calls.{scheduler_handle-HasBoundedCalls}
use etl_mcp_suite.DolphinScheduler.Bounds.Answers.{scheduler_handle-IsSmall}
use etl_mcp_suite.DolphinScheduler.Http.{Client, HttpResponse, Method, response, data_of}
use etl_mcp_suite.DolphinScheduler.Http.Methods.{http_call}
use etl_mcp_suite.DolphinScheduler.Http.Sent.{
  IsOne, IsQuery, http_call-IsOne, over_http, scheduler_over_http-AreQueries, sent_from,
}
use etl_mcp_suite.DolphinScheduler.Http.Accepted.{IsData, data_of-ok_iff}
use etl_mcp_suite.Base.{◌≡◌, refl, ◌↔◌, none, some, [], ◌∷◌, arith, All, ok, Ensures}

abbrev limits : Limits
limits = record { max_detail_items = 2; default_page_size = 10; max_page_size = 100 }

limits-IsConfigured : IsConfigured limits
limits-IsConfigured = record { default_positive = omega arith; max_positive = omega arith }

-- A server that answers every request with an empty list.
abbrev reply : HttpResponse
reply = record { status_code = 200; content = 1 ∷ 2 ∷ [] }

abbrev client : Client
client = record {
  status_path = codes "/monitor/masters";
  max_response_bytes = 100;
  max_log_bytes = 100;
  token = some (codes "t");
  correlation_id = codes "id";
  transport = λ _ _. response reply;
  json = λ _.
      some (
        mapping (field (codes "code") (integer (pos 0)) (field (codes "data") (sequence nil) end)));
  decode = λ content. content;
}

abbrev listing : Request
listing = Request.list_objects (codes "project") none none none (pos 0) (some (pos 500))

abbrev starting : Request
starting = Request.start_workflow (pos 7) (pos 9) (pos 1) none none

scheduler_handle-HasBoundedCalls_example :
    All
      (IsBounded limits (is_start starting))
      (handle is_digit (codes "id") (over_http client) limits starting []).1
scheduler_handle-HasBoundedCalls_example =
    scheduler_handle-HasBoundedCalls limits limits-IsConfigured is_digit (codes "id")
      (over_http client) starting [] tt

scheduler_handle-IsSmall_example :
    Ensures (IsSmall 2) (handle is_digit (codes "id") (over_http client) limits listing []).0
scheduler_handle-IsSmall_example =
    scheduler_handle-IsSmall limits is_digit (codes "id") (over_http client) listing []

http_call-IsOne_example :
    IsOne client Method.post
      (http_call client (GatewayCall.start_workflow (pos 7) (pos 9) (pos 1) none none))
http_call-IsOne_example =
    http_call-IsOne client (GatewayCall.start_workflow (pos 7) (pos 9) (pos 1) none none)

scheduler_over_http-AreQueries_example :
    All
      (IsQuery client)
      (sent_from client [] (handle is_digit (codes "id") (over_http client) limits listing []).1)
scheduler_over_http-AreQueries_example =
    scheduler_over_http-AreQueries client limits is_digit (codes "id") listing limits-IsConfigured
      refl

data_of-ok_iff_example :
    (data_of client ToolOperation.list_objects (response reply) ≡ ok (sequence nil))
    ↔ IsData client (response reply) (sequence nil)
data_of-ok_iff_example =
    data_of-ok_iff client ToolOperation.list_objects (response reply) (sequence nil)

program : Unit {0}
unfolding dedupe dedupe_from mem_str str_eq
program = tt

repeated_once : dedupe (codes "a" ∷ codes "b" ∷ codes "a" ∷ []) ≡ codes "a" ∷ codes "b" ∷ []
unfolding program
repeated_once = refl

dedupe-first_occurrences_example :
    dedupe (codes "a" ∷ codes "b" ∷ codes "a" ∷ [])
    ≡ first_occurrences (codes "a" ∷ codes "b" ∷ codes "a" ∷ [])
dedupe-first_occurrences_example = dedupe-first_occurrences (codes "a" ∷ codes "b" ∷ codes "a" ∷ [])
