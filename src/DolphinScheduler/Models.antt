-- ===== src/DolphinScheduler/Models.antt =====
-- src/mcp_stdio/plugins/dolphinscheduler/service.py: the result models, and the summaries of the parsed
-- objects.
use etl_mcp_suite.DolphinScheduler.Gateway.{
  RawTaskInstance, RawProcessInstance, RawNode, RawWorkflow, RawProject, RawServer,
}
use etl_mcp_suite.Value.{ℤ}
use etl_mcp_suite.Text.{Str}
use etl_mcp_suite.Base.{ℕ, Bool, Option, List}

pub record ServerSummary : Type 0 where
  pub host : Option Str
  pub port : Option ℤ
  pub res_info : Option Str
  pub last_heartbeat_time : Option Str

pub data Health : Type 0 where
  healthy unhealthy : Health

pub record ServerStatusResult : Type 0 where
  pub available : Bool
  pub status : Health
  pub server_count : ℕ
  pub servers : List ServerSummary

pub record ProjectSummary : Type 0 where
  pub code : ℤ
  pub name : Option Str
  pub description : Option Str
  pub def_count : Option ℤ
  pub inst_running_count : Option ℤ

pub record WorkflowSummary : Type 0 where
  pub code : ℤ
  pub name : Option Str
  pub version : Option ℤ
  pub release_state : Option Str
  pub project_code : Option ℤ

pub record NodeSummary : Type 0 where
  pub code : ℤ
  pub name : Option Str
  pub task_type : Option Str
  pub version : Option ℤ

pub record ProcessInstanceSummary : Type 0 where
  pub id : ℤ
  pub name : Option Str
  pub state : Option Str
  pub process_definition_code : Option ℤ
  pub run_times : Option ℤ
  pub host : Option Str
  pub start_time : Option Str
  pub end_time : Option Str
  pub duration : Option ℤ
  pub executor_name : Option Str

pub record TaskInstanceSummary : Type 0 where
  pub id : ℤ
  pub name : Option Str
  pub task_type : Option Str
  pub process_instance_id : Option ℤ
  pub task_code : Option ℤ
  pub state : Option Str
  pub host : Option Str
  pub start_time : Option Str
  pub end_time : Option Str
  pub duration : Option ℤ
  pub retry_times : Option ℤ
  pub app_link : Option Str
  pub executor_name : Option Str

pub data ObjectSummary : Type 0 where
  project : ProjectSummary → ObjectSummary
  workflow : WorkflowSummary → ObjectSummary
  node : NodeSummary → ObjectSummary
  process_instance : ProcessInstanceSummary → ObjectSummary
  task_instance : TaskInstanceSummary → ObjectSummary

pub record ListObjectsResult : Type 0 where
  pub object_type : Str
  pub items : List ObjectSummary
  pub page_no : ℕ
  pub page_size : ℕ
  pub total_count : ℤ
  pub truncated : Bool

pub record GetObjectResult : Type 0 where
  pub object_type : Str
  pub object : ObjectSummary
  pub related : Option (List ObjectSummary)

pub record StartWorkflowResult : Type 0 where
  pub process_definition_code : ℤ
  pub process_instance_id : Option ℤ
  pub dry_run : ℤ
  pub message : Str

pub record GetTaskLogResult : Type 0 where
  pub task_instance_id : ℤ
  pub line_num : ℤ
  pub message : Str
  pub truncated : Bool

pub record ExtractLogLinksResult : Type 0 where
  pub task_instance_id : ℤ
  pub yarn_application_ids : List Str
  pub spark_ui_urls : List Str

unfoldable pub to_summary : RawServer → ServerSummary
to_summary server = record {
  host = server.host;
  port = server.port;
  res_info = server.res_info;
  last_heartbeat_time = server.last_heartbeat_time;
}

unfoldable pub to_project_summary : RawProject → ObjectSummary
to_project_summary item = project (record {
  code = item.code;
  name = item.name;
  description = item.description;
  def_count = item.def_count;
  inst_running_count = item.inst_running_count;
})

unfoldable pub to_workflow_summary : RawWorkflow → ObjectSummary
to_workflow_summary item = workflow (record {
  code = item.code;
  name = item.name;
  version = item.version;
  release_state = item.release_state;
  project_code = item.project_code;
})

unfoldable pub to_node_summary : RawNode → ObjectSummary
to_node_summary item = node (record {
  code = item.code;
  name = item.name;
  task_type = item.task_type;
  version = item.version;
})

unfoldable pub to_process_instance_summary : RawProcessInstance → ObjectSummary
to_process_instance_summary item = process_instance (record {
  id = item.id;
  name = item.name;
  state = item.state;
  process_definition_code = item.process_definition_code;
  run_times = item.run_times;
  host = item.host;
  start_time = item.start_time;
  end_time = item.end_time;
  duration = item.duration;
  executor_name = item.executor_name;
})

unfoldable pub to_task_instance_summary : RawTaskInstance → ObjectSummary
to_task_instance_summary item = task_instance (record {
  id = item.id;
  name = item.name;
  task_type = item.task_type;
  process_instance_id = item.process_instance_id;
  task_code = item.task_code;
  state = item.state;
  host = item.host;
  start_time = item.start_time;
  end_time = item.end_time;
  duration = item.duration;
  retry_times = item.retry_times;
  app_link = item.app_link;
  executor_name = item.executor_name;
})
