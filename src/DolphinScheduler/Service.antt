-- ===== src/DolphinScheduler/Service.antt =====
-- src/mcp_stdio/plugins/dolphinscheduler/service.py: the use cases over a gateway. Each error value
-- takes the correlation id that is drawn for the call.
use etl_mcp_suite.Effects.{return, ◌then_do◌, Step}
use etl_mcp_suite.DolphinScheduler.Models.{
  to_task_instance_summary, to_process_instance_summary, to_node_summary, to_workflow_summary,
  healthy, to_project_summary, unhealthy, to_summary, ListObjectsResult, ServerStatusResult,
}
use etl_mcp_suite.DolphinScheduler.Gateway.{
  query_task_instances, query_process_instances, query_nodes, list_workflows, list_projects,
  get_status, scheduler_error, Reply, GatewayCall, InstanceFilter, Gateway, Exception, History,
}
use etl_mcp_suite.DolphinScheduler.Pages.{
  paged, capped_page_size, unpaginated, bounded_page_no, Limits,
}
use etl_mcp_suite.Errors.{ErrorCategory, ToolOperation}
use etl_mcp_suite.Value.{pos, ℤ}
use etl_mcp_suite.Text.{codes, str_eq, Str}
use etl_mcp_suite.Base.{
  ℕ, Bool, true, false, Option, none, some, [], ◌∷◌, ◌++◌, map, if◌then◌else◌, length, take,
  is_empty, Result, ok, err,
}

-- Code that runs in a request, on the calls that the gateway has had.
abbrev pub Action {ℓ} : Type ℓ → Type ℓ
Action A = Step History Exception A

-- `await self._gateway.…`
unfoldable pub perform : Gateway → (call : GatewayCall) → Action (Reply call)
perform gateway call w = (gateway call w, w ++ call ∷ [])

-- The values of `_OBJECT_TYPES`.
pub data ObjectType : Type 0 where
  project workflow node process_instance task_instance : ObjectType

unfoldable pub object_type_of : Str → Option ObjectType
object_type_of s =
    if str_eq s (codes "project")
    then some project
    else if str_eq s (codes "workflow")
    then some workflow
    else if str_eq s (codes "node")
    then some node
    else if str_eq s (codes "process_instance")
    then some process_instance
    else if str_eq s (codes "task_instance")
    then some task_instance
    else none

abbrev pub is_project : ObjectType → Bool
is_project project = true
is_project _ = false

abbrev pub no_filter : InstanceFilter
no_filter = record { search_val = none; state_type = none; start_date = none; end_date = none }

module _ (correlation_id : Str) where
  -- `_invalid_input`
  unfoldable pub invalid_input : ToolOperation → Str → Exception
  invalid_input operation explanation =
      scheduler_error correlation_id ErrorCategory.invalid_input operation false (some explanation)

  -- `_require_object_type`
  unfoldable pub require_object_type : Str → ToolOperation → Result Exception ObjectType
  require_object_type object_type operation = elim (object_type_of object_type) [
    | some t ↦ ok t
    | none ↦ err (invalid_input operation (codes "object_type must be one of the supported values"))
  ]

  -- `_require_project_code`
  unfoldable pub require_project_code : ObjectType → Option ℤ → ToolOperation → Result Exception ℤ
  require_project_code project project_code operation = ok (pos 0)
  require_project_code _ (some project_code) operation = ok project_code
  require_project_code _ none operation =
      err (invalid_input operation (codes "project_code is required for this object_type"))

  -- `_require`
  unfoldable pub require : Option ℤ → Str → ToolOperation → Result Exception ℤ
  require (some value) name operation = ok value
  require none name operation =
      err (invalid_input operation (name ++ codes " is required for this object_type"))

  module _ (gateway : Gateway) (limits : Limits) where
    unfoldable pub do_get_server_status : Action ServerStatusResult
    do_get_server_status = perform gateway get_status then_do λ raw.
        let capped = take limits.max_detail_items raw in
        let summaries = map to_summary capped in
        return (
          ok (record {
            available = true;
            status = if is_empty capped then unhealthy else healthy;
            server_count = length summaries;
            servers = summaries;
          }))

    -- `list_objects` behind its checks.
    unfoldable pub list_of :
        ObjectType → Str → ℤ → Option ℤ → Option ℤ → ℕ → ℕ → Action ListObjectsResult
    list_of project object_type pc definition instance page_no page_size =
        perform gateway list_projects then_do λ items.
        return (ok (unpaginated limits object_type items page_no page_size to_project_summary))
    list_of workflow object_type pc definition instance page_no page_size =
        perform gateway (list_workflows pc) then_do λ items.
        return (ok (unpaginated limits object_type items page_no page_size to_workflow_summary))
    list_of node object_type pc definition instance page_no page_size =
        perform gateway (query_nodes pc none page_no page_size) then_do λ page.
        return (ok (paged limits object_type page page_no page_size to_node_summary))
    list_of process_instance object_type pc definition instance page_no page_size =
        perform gateway (query_process_instances pc definition no_filter page_no page_size)
        then_do λ page.
            return
              (ok (paged limits object_type page page_no page_size to_process_instance_summary))
    list_of task_instance object_type pc definition instance page_no page_size =
        perform gateway (query_task_instances pc instance no_filter none page_no page_size)
        then_do λ page.
            return (ok (paged limits object_type page page_no page_size to_task_instance_summary))

    unfoldable pub do_list_objects :
        Str → Option ℤ → Option ℤ → Option ℤ → ℤ → Option ℤ → Action ListObjectsResult
    do_list_objects object_type project_code definition instance page_no page_size =
        return (require_object_type object_type ToolOperation.list_objects) then_do λ t.
        return (require_project_code t project_code ToolOperation.list_objects) then_do λ pc.
        list_of t object_type pc definition instance (bounded_page_no page_no)
          (capped_page_size limits page_size)
