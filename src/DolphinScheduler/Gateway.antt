-- ===== src/DolphinScheduler/Gateway.antt =====
-- src/mcp_stdio/plugins/dolphinscheduler/gateway.py: the parsed objects, and the contract of the
-- upstream adapter: its calls, what each answers, and what a call may raise.
use etl_mcp_suite.Base.{err, ok, ℕ, Bool, Option, List, [], Result}
use etl_mcp_suite.Errors.{create, ToolOperation, ErrorCategory, ToolError}
use etl_mcp_suite.Value.{ℤ}
use etl_mcp_suite.Text.{Str}

pub record RawServer : Type 0 where
  pub host : Option Str
  pub port : Option ℤ
  pub res_info : Option Str
  pub last_heartbeat_time : Option Str

pub record RawProject : Type 0 where
  pub code : ℤ
  pub name : Option Str
  pub description : Option Str
  pub def_count : Option ℤ
  pub inst_running_count : Option ℤ

pub record RawWorkflow : Type 0 where
  pub code : ℤ
  pub name : Option Str
  pub version : Option ℤ
  pub release_state : Option Str
  pub project_code : Option ℤ

pub record RawNode : Type 0 where
  pub code : ℤ
  pub name : Option Str
  pub task_type : Option Str
  pub version : Option ℤ

pub record RawProcessInstance : Type 0 where
  pub id : ℤ
  pub name : Option Str
  pub state : Option Str
  pub process_definition_code : Option ℤ
  pub run_times : Option ℤ
  pub host : Option Str
  pub start_time : Option Str
  pub end_time : Option Str
  pub duration : Option ℤ
  pub executor_name : Option Str

pub record RawTaskInstance : Type 0 where
  pub id : ℤ
  pub name : Option Str
  pub task_type : Option Str
  pub process_instance_id : Option ℤ
  pub task_code : Option ℤ
  pub state : Option Str
  pub host : Option Str
  pub start_time : Option Str
  pub end_time : Option Str
  pub duration : Option ℤ
  pub retry_times : Option ℤ
  pub app_link : Option Str
  pub log_path : Option Str
  pub executor_name : Option Str

pub record RawTaskLog : Type 0 where
  pub line_num : ℤ
  pub message : Str

pub record RawStartResult : Type 0 where
  pub process_definition_code : ℤ
  pub process_instance_id : Option ℤ
  pub dry_run : ℤ

pub record RawPage (A : Type 0) : Type 0 where
  pub items : List A
  pub total_count : ℤ

-- The filters that the queries of instances share.
pub record InstanceFilter : Type 0 where
  pub search_val : Option Str
  pub state_type : Option Str
  pub start_date : Option Str
  pub end_date : Option Str

-- The methods of `DolphinSchedulerGateway` with their arguments. A query ends in the number and the
-- size of the page, which the service has brought into range.
pub data GatewayCall : Type 0 where
  get_status list_projects : GatewayCall
  search_projects : Str → ℕ → ℕ → GatewayCall
  get_project : ℤ → GatewayCall
  list_workflows : ℤ → GatewayCall
  search_workflows : ℤ → Str → ℕ → ℕ → GatewayCall
  get_workflow : ℤ → ℤ → GatewayCall
  query_nodes : ℤ → Option Str → ℕ → ℕ → GatewayCall
  get_node : ℤ → ℤ → GatewayCall
  query_process_instances : ℤ → Option ℤ → InstanceFilter → ℕ → ℕ → GatewayCall
  get_process_instance : ℤ → ℤ → GatewayCall
  list_task_instances_of_process : ℤ → ℤ → GatewayCall
  query_task_instances : ℤ → Option ℤ → InstanceFilter → Option Str → ℕ → ℕ → GatewayCall
  start_workflow : ℤ → ℤ → ℤ → Option Str → Option ℤ → GatewayCall
  get_task_log : ℤ → ℤ → ℤ → ℤ → GatewayCall
  download_task_log : ℤ → ℤ → GatewayCall

-- What each of them answers.
abbrev pub Reply : GatewayCall → Type 0
Reply get_status = List RawServer
Reply list_projects = List RawProject
Reply (search_projects _ _ _) = RawPage RawProject
Reply (get_project _) = RawProject
Reply (list_workflows _) = List RawWorkflow
Reply (search_workflows _ _ _ _) = RawPage RawWorkflow
Reply (get_workflow _ _) = RawWorkflow
Reply (query_nodes _ _ _ _) = RawPage RawNode
Reply (get_node _ _) = RawNode
Reply (query_process_instances _ _ _ _ _) = RawPage RawProcessInstance
Reply (get_process_instance _ _) = RawProcessInstance
Reply (list_task_instances_of_process _ _) = List RawTaskInstance
Reply (query_task_instances _ _ _ _ _ _) = RawPage RawTaskInstance
Reply (start_workflow _ _ _ _ _) = RawStartResult
Reply (get_task_log _ _ _ _) = RawTaskLog
Reply (download_task_log _ _) = Str

-- `gateway_error` is `DolphinSchedulerGatewayError`, `value_error` a bare `ValueError`, and `other` anything else that a gateway raises,
-- a cancelled task included.
pub data Exception : Type 0 where
  gateway_error : ToolError → Exception
  value_error : Exception
  other : ℕ → Exception

-- The calls made so far, the latest last.
abbrev pub History : Type 0
History = List GatewayCall

-- `DolphinSchedulerGateway`; an answer may depend on the calls made before.
abbrev pub Gateway : Type 0
Gateway = (call : GatewayCall) → History → Result Exception (Reply call)

-- `DolphinSchedulerGatewayError(ToolError.create(…, identifiers={}))`
unfoldable pub scheduler_error : Str → ErrorCategory → ToolOperation → Bool → Option Str → Exception
scheduler_error correlation_id category operation retryable explanation =
    elim (create correlation_id category operation retryable [] explanation) [
      | ok e ↦ gateway_error e
      | err _ ↦ value_error
    ]
