-- ===== src/DolphinScheduler/Objects.antt =====
-- src/mcp_stdio/plugins/dolphinscheduler/service.py: `get_object` and `search_objects`.
use etl_mcp_suite.Effects.{return, ◌then_do◌}
use etl_mcp_suite.DolphinScheduler.Pages.{capped_page_size, bounded_page_no, paged, Limits}
use etl_mcp_suite.Value.{negsuc, pos, ℤ}
use etl_mcp_suite.DolphinScheduler.Service.{
  require_project_code, no_filter, perform, require_object_type, require, invalid_input, ObjectType,
  Action,
}
use etl_mcp_suite.Errors.{ToolOperation}
use etl_mcp_suite.DolphinScheduler.Gateway.{
  list_task_instances_of_process, get_process_instance, query_task_instances, get_node, query_nodes,
  query_process_instances, search_workflows, get_workflow, search_projects, get_project,
  InstanceFilter, Exception, Gateway, RawTaskInstance,
}
use etl_mcp_suite.DolphinScheduler.Models.{
  to_node_summary, to_process_instance_summary, to_workflow_summary, to_project_summary,
  ListObjectsResult, to_task_instance_summary, GetObjectResult, ObjectSummary,
}
use etl_mcp_suite.Text.{strip, codes, Str}
use etl_mcp_suite.Base.{
  ℕ, Bool, false, ◌||◌, Option, none, some, List, [], ◌∷◌, map, ◌==◌, if◌then◌else◌, take, is_empty,
  Result, ok, err,
}

abbrev eq_int : ℤ → ℤ → Bool
eq_int (pos m) (pos n) = m == n
eq_int (negsuc m) (negsuc n) = m == n
eq_int _ _ = false

-- `next((t for t in tasks if t.id == task_instance_id), None)`
unfoldable pub task_with_id : ℤ → List RawTaskInstance → Option RawTaskInstance
task_with_id id [] = none
task_with_id id (t ∷ tasks) = if eq_int t.id id then some t else task_with_id id tasks

-- The optional ids of `get_object`.
pub record ObjectIds : Type 0 where
  pub code : Option ℤ
  pub id : Option ℤ
  pub process_instance_id : Option ℤ
  pub task_instance_id : Option ℤ

-- The texts of `search_objects`.
pub record Search : Type 0 where
  pub search_val : Str
  pub state_type : Option Str
  pub start_date : Option Str
  pub end_date : Option Str

abbrev pub found : Str → ObjectSummary → Option (List ObjectSummary) → GetObjectResult
found object_type object related = record {
  object_type = object_type;
  object = object;
  related = related;
}

module _ (correlation_id : Str) where
  module _ (gateway : Gateway) (limits : Limits) where
    -- The task of a process instance.
    unfoldable pub task_of : Str → ℤ → List RawTaskInstance → Result Exception GetObjectResult
    task_of object_type task_id tasks = elim (task_with_id task_id tasks) [
      | some t ↦ ok (found object_type (to_task_instance_summary t) none)
      | none ↦ err (
          invalid_input correlation_id ToolOperation.get_object
            (codes "task instance was not found in the process instance"))
    ]

    abbrev required : Option ℤ → Str → Action ℤ
    required value name = return (require correlation_id value name ToolOperation.get_object)

    -- `get_object` behind its checks.
    unfoldable pub get_of : ObjectType → Str → ℤ → ObjectIds → Action GetObjectResult
    get_of ObjectType.project object_type pc ids = required ids.code (codes "code") then_do λ code.
        perform gateway (get_project code) then_do λ obj.
        return (ok (found object_type (to_project_summary obj) none))
    get_of ObjectType.workflow object_type pc ids = required ids.code (codes "code") then_do λ code.
        perform gateway (get_workflow pc code) then_do λ obj.
        perform gateway (query_process_instances pc (some code) no_filter 1 limits.max_page_size)
        then_do λ page.
            let related =
              map to_process_instance_summary (take limits.max_detail_items page.items) in
            return (ok (found object_type (to_workflow_summary obj) (some related)))
    get_of ObjectType.node object_type pc ids = required ids.code (codes "code") then_do λ code.
        perform gateway (get_node pc code) then_do λ obj.
        return (ok (found object_type (to_node_summary obj) none))
    get_of ObjectType.process_instance object_type pc ids =
        required ids.id (codes "id") then_do λ id.
        perform gateway (get_process_instance pc id) then_do λ obj.
        perform gateway (list_task_instances_of_process pc id) then_do λ tasks.
        let related = map to_task_instance_summary (take limits.max_detail_items tasks) in
        return (ok (found object_type (to_process_instance_summary obj) (some related)))
    get_of ObjectType.task_instance object_type pc ids =
        required ids.process_instance_id (codes "process_instance_id") then_do λ instance.
        required ids.task_instance_id (codes "task_instance_id") then_do λ task_id.
        perform gateway (list_task_instances_of_process pc instance) then_do λ tasks.
        return (task_of object_type task_id tasks)

    unfoldable pub do_get_object : Str → Option ℤ → ObjectIds → Action GetObjectResult
    do_get_object object_type project_code ids =
        return (require_object_type correlation_id object_type ToolOperation.get_object)
        then_do λ t.
            return (require_project_code correlation_id t project_code ToolOperation.get_object)
            then_do λ pc. get_of t object_type pc ids

    -- `if not search_val or not search_val.strip()`
    unfoldable pub require_search_val : Str → Result Exception Str
    require_search_val search_val =
        if is_empty search_val || is_empty (strip search_val)
        then err (
            invalid_input correlation_id ToolOperation.search_objects
              (codes "search_val must be a non-empty string"))
        else ok search_val

    abbrev pub filter_of : Search → InstanceFilter
    filter_of q = record {
      search_val = some q.search_val;
      state_type = q.state_type;
      start_date = q.start_date;
      end_date = q.end_date;
    }

    -- `search_objects` behind its checks.
    unfoldable pub search_of : ObjectType → Str → ℤ → Search → ℕ → ℕ → Action ListObjectsResult
    search_of ObjectType.project object_type pc q page_no page_size =
        perform gateway (search_projects q.search_val page_no page_size) then_do λ page.
        return (ok (paged limits object_type page page_no page_size to_project_summary))
    search_of ObjectType.workflow object_type pc q page_no page_size =
        perform gateway (search_workflows pc q.search_val page_no page_size) then_do λ page.
        return (ok (paged limits object_type page page_no page_size to_workflow_summary))
    search_of ObjectType.node object_type pc q page_no page_size =
        perform gateway (query_nodes pc (some q.search_val) page_no page_size) then_do λ page.
        return (ok (paged limits object_type page page_no page_size to_node_summary))
    search_of ObjectType.process_instance object_type pc q page_no page_size =
        perform gateway (query_process_instances pc none (filter_of q) page_no page_size)
        then_do λ page.
            return
              (ok (paged limits object_type page page_no page_size to_process_instance_summary))
    search_of ObjectType.task_instance object_type pc q page_no page_size =
        perform gateway (query_task_instances pc none (filter_of q) none page_no page_size)
        then_do λ page.
            return (ok (paged limits object_type page page_no page_size to_task_instance_summary))

    unfoldable pub do_search_objects :
        Str → Option ℤ → Search → ℤ → Option ℤ → Action ListObjectsResult
    do_search_objects object_type project_code q page_no page_size =
        return (require_object_type correlation_id object_type ToolOperation.search_objects)
        then_do λ t.
            return (require_project_code correlation_id t project_code ToolOperation.search_objects)
            then_do λ pc. return (require_search_val q.search_val) then_do λ _.
                search_of t object_type pc q (bounded_page_no page_no)
                  (capped_page_size limits page_size)
