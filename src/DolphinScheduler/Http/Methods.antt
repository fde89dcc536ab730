-- ===== src/DolphinScheduler/Http/Methods.antt =====
-- src/mcp_stdio/plugins/dolphinscheduler/http_client.py: the methods of the gateway over HTTP.
use etl_mcp_suite.Effects.{return, ◌then_do◌}
use etl_mcp_suite.Value.{get_value, ℤ, pos, Value, integer, text, mapping, Fields, end, field}
use etl_mcp_suite.Text.{Str, codes, join}
use etl_mcp_suite.Errors.{ToolOperation}
use etl_mcp_suite.DolphinScheduler.Gateway.{
  Exception, GatewayCall, Reply, InstanceFilter, RawTaskLog,
}
use etl_mcp_suite.DolphinScheduler.Http.{
  Client, Exchange, Method, Piece, HttpResponse, received, check_status, request_to, send, request,
}
use etl_mcp_suite.DolphinScheduler.Http.Parse.{
  opt_str, opt_int, parse_project, parse_workflow, parse_node, parse_process_instance,
  parse_task_instance, parse_servers, parse_list, parse_page, parse_single, as_list,
}
use Prim.Native.String.{String}
use etl_mcp_suite.Base.{
  ℕ, Option, none, some, List, [], ◌∷◌, ◌++◌, ltb, if◌then◌else◌, length, take, Result, ok, ◌>>=◌,
}

abbrev slash : String → Piece
slash s = Piece.literal (codes s)

abbrev project_path : ℤ → List Piece → List Piece
project_path project_code rest = slash "/projects/" ∷ Piece.number project_code ∷ rest

abbrev number_field : String → ℤ → Fields → Fields
number_field name n rest = field (codes name) (integer n) rest

abbrev text_field : String → Str → Fields → Fields
text_field name s rest = field (codes name) (text s) rest

-- `if value is not None: params[name] = value`
abbrev number_if : String → Option ℤ → Fields → Fields
number_if name none rest = rest
number_if name (some n) rest = number_field name n rest

-- `if value: params[name] = value`
abbrev text_if : String → Option Str → Fields → Fields
text_if name none rest = rest
text_if name (some []) rest = rest
text_if name (some (c ∷ s)) rest = text_field name (c ∷ s) rest

abbrev page_fields : ℕ → ℕ → Fields → Fields
page_fields page_no page_size rest =
    number_field "pageNo" (pos page_no) (number_field "pageSize" (pos page_size) rest)

-- `_build_instance_params`, before more parameters.
unfoldable pub build_instance_params : Option ℤ → InstanceFilter → ℕ → ℕ → Fields → Fields
build_instance_params definition q page_no page_size rest = page_fields page_no page_size (
    number_if "processDefineCode" definition (
      text_if "searchVal" q.search_val (
        text_if "stateType" q.state_type
          (text_if "startDate" q.start_date (text_if "endDate" q.end_date rest)))))

-- `start_node_list or ""`
abbrev or_empty : Option Str → Str
or_empty none = []
or_empty (some s) = s

-- Fields that hold texts, and more fields.
abbrev text_fields : List (String × String) → Fields → Fields
text_fields [] rest = rest
text_fields ((name, value) ∷ more) rest = text_field name (codes value) (text_fields more rest)

-- The form of `start_workflow`.
unfoldable pub start_form : ℤ → ℤ → Option Str → Option ℤ → Fields
start_form definition dry_run start_node_list timeout =
    number_field "processDefinitionCode" definition (
      text_fields (("scheduleTime", "") ∷ ("failureStrategy", "CONTINUE") ∷ []) (
        text_field "startNodeList" (or_empty start_node_list) (
          text_fields
            (("taskDependType", "TASK_POST")
              ∷ ("execType", "START")
              ∷ ("warningType", "NONE")
              ∷ ("warningGroupId", "")
              ∷ ("runMode", "RUN_MODE_SERIAL")
              ∷ ("processInstancePriority", "MEDIUM")
              ∷ ("workerGroup", "default")
              ∷ ("environmentCode", "-1")
              ∷ [])
            (number_field "dryRun" dry_run (number_if "timeout" timeout end)))))

-- The instance that the answer to `start_workflow` names.
unfoldable pub started_instance : Value → Option ℤ
started_instance (mapping typed) = opt_int (get_value (codes "processInstanceId") typed)
started_instance (integer n) = some n
started_instance _ = none

-- `if message: messages.append(message)`
abbrev add_message : Option Str → List Str → List Str
add_message none messages = messages
add_message (some []) messages = messages
add_message (some (c ∷ s)) messages = messages ++ (c ∷ s) ∷ []

abbrev or_else : Option ℤ → ℤ → ℤ
or_else none n = n
or_else (some m) n = m

-- The loop of `get_task_log`, on the messages and the next line so far.
unfoldable pub fold_log : List Value → List Str → ℤ → List Str × ℤ
fold_log [] messages next_line = (messages, next_line)
fold_log (mapping typed ∷ entries) messages next_line =
    fold_log entries (add_message (opt_str (get_value (codes "message") typed)) messages)
      (or_else (opt_int (get_value (codes "lineNum") typed)) next_line)
fold_log (_ ∷ entries) messages next_line = fold_log entries messages next_line

unfoldable pub task_log : ℤ → List Value → RawTaskLog
task_log skip_line_num entries =
    let (messages, next_line) = fold_log entries [] skip_line_num in
    record { line_num = next_line; message = join (codes "\n") messages }

module _ (client : Client) where
  -- A query, and the parser of its data.
  abbrev query :
      {A : Type 0} → List Piece → Fields → ToolOperation → (Value → Result Exception A) → Exchange A
  query path params operation parser =
      request client Method.get path params end operation then_do λ value. return (parser value)

  -- The text of `download_task_log`.
  unfoldable pub log_text : HttpResponse → Result Exception Str
  log_text r = check_status client ToolOperation.extract_log_links r >>= λ checked.
      if ltb client.max_log_bytes (length checked.content)
      then ok (client.decode (take client.max_log_bytes checked.content))
      else ok (client.decode checked.content)

  -- The methods of `DolphinSchedulerHttpClient`.
  unfoldable pub http_call : (call : GatewayCall) → Exchange (Reply call)
  http_call GatewayCall.get_status =
      query (Piece.literal client.status_path ∷ []) end ToolOperation.get_server_status (λ value.
        as_list client ToolOperation.get_server_status value >>= λ xs. ok (parse_servers xs))
  http_call GatewayCall.list_projects =
      query (slash "/projects/list" ∷ []) end ToolOperation.list_objects
        (parse_list client parse_project)
  http_call (GatewayCall.search_projects search_val page_no page_size) =
      query (slash "/projects" ∷ [])
        (text_field "searchVal" search_val (page_fields page_no page_size end))
        ToolOperation.search_objects (parse_page client parse_project)
  http_call (GatewayCall.get_project code) =
      query (project_path code []) end ToolOperation.get_object (parse_single client parse_project)
  http_call (GatewayCall.list_workflows project_code) =
      query (project_path project_code (slash "/process-definition/list" ∷ [])) end
        ToolOperation.list_objects (parse_list client parse_workflow)
  http_call (GatewayCall.search_workflows project_code search_val page_no page_size) =
      query (project_path project_code (slash "/process-definition" ∷ []))
        (text_field "searchVal" search_val (page_fields page_no page_size end))
        ToolOperation.search_objects (parse_page client parse_workflow)
  http_call (GatewayCall.get_workflow project_code code) =
      query (project_path project_code (slash "/process-definition/" ∷ Piece.number code ∷ [])) end
        ToolOperation.get_object (parse_single client parse_workflow)
  http_call (GatewayCall.query_nodes project_code search_task_name page_no page_size) =
      query (project_path project_code (slash "/task-definition" ∷ []))
        (page_fields page_no page_size (text_if "searchTaskName" search_task_name end))
        ToolOperation.list_objects (parse_page client parse_node)
  http_call (GatewayCall.get_node project_code code) =
      query (project_path project_code (slash "/task-definition/" ∷ Piece.number code ∷ [])) end
        ToolOperation.get_object (parse_single client parse_node)
  http_call (GatewayCall.query_process_instances project_code definition q page_no page_size) =
      query (project_path project_code (slash "/process-instances" ∷ []))
        (build_instance_params definition q page_no page_size end) ToolOperation.list_objects
        (parse_page client parse_process_instance)
  http_call (GatewayCall.get_process_instance project_code id) =
      query (project_path project_code (slash "/process-instances/" ∷ Piece.number id ∷ [])) end
        ToolOperation.get_object (parse_single client parse_process_instance)
  http_call (GatewayCall.list_task_instances_of_process project_code id) =
      query
        (project_path project_code
          (slash "/process-instances/" ∷ Piece.number id ∷ slash "/tasks" ∷ []))
        end ToolOperation.list_objects (parse_list client parse_task_instance)
  http_call
        (GatewayCall.query_task_instances project_code instance_id q task_name page_no page_size) =
      query (project_path project_code (slash "/task-instances" ∷ []))
        (build_instance_params none q page_no page_size
          (number_if "processInstanceId" instance_id (text_if "taskName" task_name end)))
        ToolOperation.list_objects (parse_page client parse_task_instance)
  http_call (GatewayCall.start_workflow project_code definition dry_run start_node_list timeout) =
      request client Method.post
        (project_path project_code (slash "/executors/start-process-instance" ∷ [])) end
        (start_form definition dry_run start_node_list timeout) ToolOperation.start_workflow
      then_do λ value. return (
          ok (record {
            process_definition_code = definition;
            process_instance_id = started_instance value;
            dry_run = dry_run;
          }))
  http_call (GatewayCall.get_task_log project_code task_id skip_line_num limit) =
      query (slash "/log/" ∷ Piece.number project_code ∷ slash "/detail" ∷ [])
        (number_field "taskInstanceId" task_id
          (number_field "skipLineNum" skip_line_num (number_field "limit" limit end)))
        ToolOperation.get_task_log
        (λ value. as_list client ToolOperation.get_task_log value >>= λ entries.
          ok (task_log skip_line_num entries))
  http_call (GatewayCall.download_task_log project_code task_id) =
      send client (
        request_to client Method.get
          (slash "/log/" ∷ Piece.number project_code ∷ slash "/download-log" ∷ [])
          (number_field "taskInstanceId" task_id end) end)
      then_do λ outcome.
          return (received client ToolOperation.extract_log_links outcome >>= log_text)
