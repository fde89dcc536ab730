-- ===== src/DolphinScheduler/Http/Parse.antt =====
-- src/mcp_stdio/plugins/dolphinscheduler/http_client.py: the parsers of the objects and of the pages.
use etl_mcp_suite.Value.{get_value, ℤ, pos, Value, integer, text, sequence, mapping, Fields, items}
use etl_mcp_suite.Text.{Str, codes}
use etl_mcp_suite.Errors.{ErrorCategory, ToolOperation}
use etl_mcp_suite.DolphinScheduler.Gateway.{
  Exception, RawServer, RawProject, RawWorkflow, RawNode, RawProcessInstance, RawTaskInstance,
  RawPage,
}
use etl_mcp_suite.DolphinScheduler.Http.{Client, gateway_failure}
use etl_mcp_suite.Base.{Option, none, some, List, [], ◌∷◌, Result, ok, err, ◌>>=◌}

-- `_opt_str`
unfoldable pub opt_str : Value → Option Str
opt_str (text s) = some s
opt_str _ = none

-- `_opt_int`
unfoldable pub opt_int : Value → Option ℤ
opt_int (integer n) = some n
opt_int _ = none

abbrev pub str_at : Fields → Str → Option Str
str_at entry key = opt_str (get_value key entry)

abbrev pub int_at : Fields → Str → Option ℤ
int_at entry key = opt_int (get_value key entry)

-- An object that is read from a mapping, if that has the integer that names it.
abbrev identified : {A : Type 0} → Str → (ℤ → Fields → A) → Value → Option A
identified key build (mapping entry) = elim (int_at entry key) [
  | none ↦ none
  | some id ↦ some (build id entry)
]
identified key build _ = none

-- `_parse_project`
unfoldable pub parse_project : Value → Option RawProject
parse_project = identified (codes "code") (λ code entry. record {
  code = code;
  name = str_at entry (codes "name");
  description = str_at entry (codes "description");
  def_count = int_at entry (codes "defCount");
  inst_running_count = int_at entry (codes "instRunningCount");
})

-- `_parse_workflow`
unfoldable pub parse_workflow : Value → Option RawWorkflow
parse_workflow = identified (codes "code") (λ code entry. record {
  code = code;
  name = str_at entry (codes "name");
  version = int_at entry (codes "version");
  release_state = str_at entry (codes "releaseState");
  project_code = int_at entry (codes "projectCode");
})

-- `_parse_node`
unfoldable pub parse_node : Value → Option RawNode
parse_node = identified (codes "code") (λ code entry. record {
  code = code;
  name = str_at entry (codes "name");
  task_type = str_at entry (codes "taskType");
  version = int_at entry (codes "version");
})

-- `_parse_process_instance`
unfoldable pub parse_process_instance : Value → Option RawProcessInstance
parse_process_instance = identified (codes "id") (λ id entry. record {
  id = id;
  name = str_at entry (codes "name");
  state = str_at entry (codes "state");
  process_definition_code = int_at entry (codes "processDefinitionCode");
  run_times = int_at entry (codes "runTimes");
  host = str_at entry (codes "host");
  start_time = str_at entry (codes "startTime");
  end_time = str_at entry (codes "endTime");
  duration = int_at entry (codes "duration");
  executor_name = str_at entry (codes "executorName");
})

-- `_parse_task_instance`
unfoldable pub parse_task_instance : Value → Option RawTaskInstance
parse_task_instance = identified (codes "id") (λ id entry. record {
  id = id;
  name = str_at entry (codes "name");
  task_type = str_at entry (codes "taskType");
  process_instance_id = int_at entry (codes "processInstanceId");
  task_code = int_at entry (codes "taskCode");
  state = str_at entry (codes "state");
  host = str_at entry (codes "host");
  start_time = str_at entry (codes "startTime");
  end_time = str_at entry (codes "endTime");
  duration = int_at entry (codes "duration");
  retry_times = int_at entry (codes "retryTimes");
  app_link = str_at entry (codes "appLink");
  log_path = str_at entry (codes "logPath");
  executor_name = str_at entry (codes "executorName");
})

-- The server of an item of `_parse_servers`.
unfoldable pub parse_server : Value → Option RawServer
parse_server (mapping entry) = some (record {
  host = str_at entry (codes "host");
  port = int_at entry (codes "port");
  res_info = str_at entry (codes "resInfo");
  last_heartbeat_time = str_at entry (codes "lastHeartbeatTime");
})
parse_server _ = none

-- The items that a parser accepts.
unfoldable pub parse_all : {A : Type 0} → (Value → Option A) → List Value → List A
parse_all parser [] = []
parse_all parser (item ∷ rest) = elim (parser item) [
  | none ↦ parse_all parser rest
  | some a ↦ a ∷ parse_all parser rest
]

-- `_parse_servers`
unfoldable pub parse_servers : List Value → List RawServer
parse_servers = parse_all parse_server

-- `total`, or 0
abbrev total_of : Value → ℤ
total_of (integer n) = n
total_of _ = pos 0

module _ (client : Client) where
  -- `_as_list`
  unfoldable pub as_list : ToolOperation → Value → Result Exception (List Value)
  as_list operation (sequence xs) = ok (items xs)
  as_list operation _ = err (gateway_failure client ErrorCategory.unexpected_response operation)

  -- `_parse_project_list`, `_parse_workflow_list`, and the tasks of a process instance
  unfoldable pub parse_list : {A : Type 0} → (Value → Option A) → Value → Result Exception (List A)
  parse_list parser value =
      as_list ToolOperation.list_objects value >>= λ xs. ok (parse_all parser xs)

  -- `_parse_page` of a mapping.
  unfoldable pub page_of : {A : Type 0} → (Value → Option A) → Fields → Result Exception (RawPage A)
  page_of parser typed = elim (get_value (codes "totalList") typed) [
    | sequence raw_list ↦ ok (record {
      items = parse_all parser (items raw_list);
      total_count = total_of (get_value (codes "total") typed);
    })
    | _ ↦ err (gateway_failure client ErrorCategory.unexpected_response ToolOperation.list_objects)
  ]

  -- `_parse_page`
  unfoldable pub parse_page :
      {A : Type 0} → (Value → Option A) → Value → Result Exception (RawPage A)
  parse_page parser (mapping typed) = page_of parser typed
  parse_page parser _ =
      err (gateway_failure client ErrorCategory.unexpected_response ToolOperation.list_objects)

  -- `_parse_single`
  unfoldable pub parse_single : {A : Type 0} → (Value → Option A) → Value → Result Exception A
  parse_single parser (mapping typed) = elim (parser (mapping typed)) [
    | none ↦ err (gateway_failure client ErrorCategory.unexpected_response ToolOperation.get_object)
    | some a ↦ ok a
  ]
  parse_single parser _ =
      err (gateway_failure client ErrorCategory.unexpected_response ToolOperation.get_object)
