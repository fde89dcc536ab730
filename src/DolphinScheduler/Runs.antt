-- ===== src/DolphinScheduler/Runs.antt =====
-- src/mcp_stdio/plugins/dolphinscheduler/service.py: starting a workflow, reading a task log, and a
-- request for any of the use cases.
use etl_mcp_suite.Effects.{return, ◌then_do◌}
use etl_mcp_suite.Errors.{ToolOperation}
use etl_mcp_suite.DolphinScheduler.Links.{yarn_application_ids, spark_urls}
use etl_mcp_suite.DolphinScheduler.Objects.{do_search_objects, do_get_object, Search, ObjectIds}
use etl_mcp_suite.DolphinScheduler.Models.{
  ExtractLogLinksResult, GetTaskLogResult, StartWorkflowResult, GetObjectResult, ListObjectsResult,
  ServerStatusResult,
}
use etl_mcp_suite.Text.{codes, Str}
use etl_mcp_suite.DolphinScheduler.Gateway.{download_task_log, GatewayCall, Exception, Gateway}
use etl_mcp_suite.DolphinScheduler.Service.{
  do_list_objects, perform, invalid_input, do_get_server_status, Action,
}
use etl_mcp_suite.Value.{negsuc, pos, ℤ}
use etl_mcp_suite.DolphinScheduler.Pages.{Limits}
use etl_mcp_suite.Base.{
  ℕ, min, Bool, true, false, ◌||◌, Option, none, some, ltb, ◌==◌, if◌then◌else◌, Result, ok, err,
}

-- `dry_run not in (0, 1)`
abbrev pub is_dry_run : ℤ → Bool
is_dry_run (pos n) = n == 0 || n == 1
is_dry_run (negsuc _) = false

abbrev pub is_one : ℤ → Bool
is_one (pos n) = n == 1
is_one (negsuc _) = false

abbrev pub is_negative : ℤ → Bool
is_negative (pos _) = false
is_negative (negsuc _) = true

-- The number of lines that `get_task_log` asks for.
unfoldable pub log_limit : Limits → Option ℤ → ℤ
log_limit limits none = pos limits.default_page_size
log_limit limits (some (pos n)) =
    let cap = min n limits.max_page_size in
    if ltb cap 1 then pos limits.default_page_size else pos cap
log_limit limits (some (negsuc _)) = pos limits.default_page_size

-- The methods of `DolphinSchedulerStatusService`, with the arguments that a tool call hands over.
pub data Request : Type 0 where
  get_server_status : Request
  list_objects : Str → Option ℤ → Option ℤ → Option ℤ → ℤ → Option ℤ → Request
  get_object : Str → Option ℤ → ObjectIds → Request
  search_objects : Str → Option ℤ → Search → ℤ → Option ℤ → Request
  start_workflow : ℤ → ℤ → ℤ → Option Str → Option ℤ → Request
  get_task_log : ℤ → ℤ → ℤ → Option ℤ → Request
  extract_log_links : ℤ → ℤ → Request

-- What they return.
pub data Answer : Type 0 where
  status : ServerStatusResult → Answer
  listing : ListObjectsResult → Answer
  object : GetObjectResult → Answer
  started : StartWorkflowResult → Answer
  log : GetTaskLogResult → Answer
  links : ExtractLogLinksResult → Answer

abbrev pub answering {ℓ} : {A : Type ℓ} → (A → Answer) → Action A → Action Answer
answering f m = m then_do λ a. return (ok (f a))

module _ (is_decimal : ℕ → Bool) (correlation_id : Str) where
  module _ (gateway : Gateway) (limits : Limits) where
    -- The check of `dry_run`.
    unfoldable pub require_dry_run : ℤ → Result Exception ℤ
    require_dry_run dry_run =
        if is_dry_run dry_run
        then ok dry_run
        else err (
            invalid_input correlation_id ToolOperation.start_workflow
              (codes "dry_run must be 0 or 1"))

    unfoldable pub do_start_workflow :
        ℤ → ℤ → ℤ → Option Str → Option ℤ → Action StartWorkflowResult
    do_start_workflow project_code definition dry_run start_node_list timeout =
        return (require_dry_run dry_run) then_do λ run.
        perform gateway
          (GatewayCall.start_workflow project_code definition run start_node_list timeout)
        then_do λ raw. return (
            ok (record {
              process_definition_code = raw.process_definition_code;
              process_instance_id = raw.process_instance_id;
              dry_run = raw.dry_run;
              message =
                  if is_one run
                  then codes "dry run validation requested"
                  else codes "start process instance success";
            }))

    -- The check of `skip_line_num`.
    unfoldable pub require_skip : ℤ → Result Exception ℤ
    require_skip skip_line_num =
        if is_negative skip_line_num
        then err (
            invalid_input correlation_id ToolOperation.get_task_log
              (codes "skip_line_num must be non-negative"))
        else ok skip_line_num

    unfoldable pub do_get_task_log : ℤ → ℤ → ℤ → Option ℤ → Action GetTaskLogResult
    do_get_task_log project_code task_id skip_line_num limit =
        return (require_skip skip_line_num) then_do λ skip.
        perform gateway
          (GatewayCall.get_task_log project_code task_id skip (log_limit limits limit))
        then_do λ raw. return (
            ok (record {
              task_instance_id = task_id;
              line_num = raw.line_num;
              message = raw.message;
              truncated = false;
            }))

    unfoldable pub do_extract_log_links : ℤ → ℤ → Action ExtractLogLinksResult
    do_extract_log_links project_code task_id =
        perform gateway (download_task_log project_code task_id) then_do λ log_text. return (
          ok (record {
            task_instance_id = task_id;
            yarn_application_ids = yarn_application_ids is_decimal limits.max_detail_items log_text;
            spark_ui_urls = spark_urls is_decimal limits.max_detail_items log_text;
          }))

    unfoldable pub handle : Request → Action Answer
    handle Request.get_server_status =
        answering status (do_get_server_status correlation_id gateway limits)
    handle (Request.list_objects object_type pc definition instance page_no page_size) =
        answering listing (
          do_list_objects correlation_id gateway limits object_type pc definition instance page_no
            page_size)
    handle (Request.get_object object_type pc ids) =
        answering object (do_get_object correlation_id gateway limits object_type pc ids)
    handle (Request.search_objects object_type pc q page_no page_size) =
        answering listing
          (do_search_objects correlation_id gateway limits object_type pc q page_no page_size)
    handle (Request.start_workflow pc definition dry_run nodes timeout) =
        answering started (do_start_workflow pc definition dry_run nodes timeout)
    handle (Request.get_task_log pc task_id skip limit) =
        answering log (do_get_task_log pc task_id skip limit)
    handle (Request.extract_log_links pc task_id) =
        answering links (do_extract_log_links pc task_id)
