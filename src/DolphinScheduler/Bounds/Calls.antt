-- ===== src/DolphinScheduler/Bounds/Calls.antt =====
-- The calls that the scheduler service makes stay within the limits.
use etl_mcp_suite.DolphinScheduler.Objects.{
  filter_of, do_search_objects, do_get_object, ObjectIds, Search, get_of, search_of,
}
use etl_mcp_suite.DolphinScheduler.Service.{
  no_filter, do_list_objects, do_get_server_status, Action, ObjectType, list_of, perform,
}
use etl_mcp_suite.DolphinScheduler.Runs.{
  do_extract_log_links, do_get_task_log, do_start_workflow, answering, Request, handle, Answer,
  require_skip, require_dry_run, log_limit,
}
use etl_mcp_suite.Effects.{Keeps-return, Keeps-then, return, ◌then_do◌, Keeps-check, Keeps}
use etl_mcp_suite.DolphinScheduler.Gateway.{Exception, Reply, GatewayCall, History, Gateway}
use etl_mcp_suite.DolphinScheduler.Bounds.{is_start, IsBounded, IsSize, IsPage, IsConfigured}
use etl_mcp_suite.Value.{negsuc, pos, ℤ}
use etl_mcp_suite.Text.{Str}
use etl_mcp_suite.DolphinScheduler.Pages.{capped_page_size, Limits, bounded_page_no}
use etl_mcp_suite.Base.{
  ℕ, ◌≤◌, min, ◌≡◌, refl, subst, ◌⊎◌, inl, inr, Bool, Option, none, some, [], ◌∷◌, arith, ltb, ◌==◌,
  Bool-cases, All, All-append, Result, ok,
}

bounded_page_no_pos : (n : ℤ) → 1 ≤ bounded_page_no n
unfolding bounded_page_no
bounded_page_no_pos (pos n) = ground arith
bounded_page_no_pos (negsuc n) = omega arith

module _ (limits : Limits) (h : IsConfigured limits) where
  capped_page_size-IsSize : (size : Option ℤ) → IsSize limits (capped_page_size limits size)
  unfolding capped_page_size
  capped_page_size-IsSize none = (h.default_positive, inl refl)
  capped_page_size-IsSize (some (negsuc n)) = (h.default_positive, inl refl)
  capped_page_size-IsSize (some (pos n)) = elim (Bool-cases (ltb n 1)) [
    | inl small ↦ rw small (h.default_positive, inl refl)
    | inr large ↦ let m = h.max_positive in rw large (ground arith, inr (omega arith))
  ]

  bounded_page_no-IsPage :
      (n : ℤ) (size : Option ℤ) → IsPage limits (bounded_page_no n) (capped_page_size limits size)
  bounded_page_no-IsPage n size = (bounded_page_no_pos n, capped_page_size-IsSize size)

  log_limit-IsSize :
      (limit : Option ℤ) → (m : ℕ) × (log_limit limits limit ≡ pos m) × IsSize limits m
  unfolding log_limit
  log_limit-IsSize none = (limits.default_page_size, refl, (h.default_positive, inl refl))
  log_limit-IsSize (some (negsuc n)) =
      (limits.default_page_size, refl, (h.default_positive, inl refl))
  log_limit-IsSize (some (pos n)) = elim (Bool-cases (ltb (min n limits.max_page_size) 1)) [
    | inl small ↦ (limits.default_page_size, rw small refl, (h.default_positive, inl refl))
    | inr large ↦ (min n limits.max_page_size, rw large refl, (ground arith, inr (omega arith)))
  ]

  module _ (is_decimal : ℕ → Bool) (correlation_id : Str) (gateway : Gateway) where
    abbrev HasBoundedCalls : Bool → History → Type 0
    HasBoundedCalls starts w = All (IsBounded limits starts) w

    call-Keeps :
        {starts : Bool} (call : GatewayCall)
        → IsBounded limits starts call
        → Keeps (HasBoundedCalls starts) (perform gateway call)
    unfolding perform
    call-Keeps {starts} call b = record {
      keeps = λ w p. All-append (IsBounded limits starts) w (call ∷ []) p (b, tt);
    }

    last-Keeps :
        {starts : Bool} {A : Type 0} (call : GatewayCall) (f : Reply call → Result Exception A)
        → IsBounded limits starts call
        → Keeps (HasBoundedCalls starts) (perform gateway call then_do λ a. return (f a))
    last-Keeps call f b = Keeps-then (call-Keeps call b) (λ a. Keeps-return _)

    list_of-Keeps :
        {starts : Bool} (t : ObjectType) (object_type : Str) (pc : ℤ)
        (definition instance : Option ℤ) (n size : ℕ)
        → IsPage limits n size
        → Keeps
            (HasBoundedCalls starts)
            (list_of correlation_id gateway limits t object_type pc definition instance n size)
    unfolding list_of
    list_of-Keeps ObjectType.project object_type pc definition instance n size b =
        last-Keeps (GatewayCall.list_projects) _ tt
    list_of-Keeps ObjectType.workflow object_type pc definition instance n size b =
        last-Keeps (GatewayCall.list_workflows pc) _ tt
    list_of-Keeps ObjectType.node object_type pc definition instance n size b =
        last-Keeps (GatewayCall.query_nodes pc none n size) _ b
    list_of-Keeps ObjectType.process_instance object_type pc definition instance n size b =
        last-Keeps (GatewayCall.query_process_instances pc definition no_filter n size) _ b
    list_of-Keeps ObjectType.task_instance object_type pc definition instance n size b =
        last-Keeps (GatewayCall.query_task_instances pc instance no_filter none n size) _ b

    search_of-Keeps :
        {starts : Bool} (t : ObjectType) (object_type : Str) (pc : ℤ) (q : Search) (n size : ℕ)
        → IsPage limits n size
        → Keeps
            (HasBoundedCalls starts)
            (search_of correlation_id gateway limits t object_type pc q n size)
    unfolding search_of
    search_of-Keeps ObjectType.project object_type pc q n size b =
        last-Keeps (GatewayCall.search_projects q.search_val n size) _ b
    search_of-Keeps ObjectType.workflow object_type pc q n size b =
        last-Keeps (GatewayCall.search_workflows pc q.search_val n size) _ b
    search_of-Keeps ObjectType.node object_type pc q n size b =
        last-Keeps (GatewayCall.query_nodes pc (some q.search_val) n size) _ b
    search_of-Keeps ObjectType.process_instance object_type pc q n size b =
        last-Keeps
          (GatewayCall.query_process_instances pc none (filter_of correlation_id gateway limits q) n
            size)
          _ b
    search_of-Keeps ObjectType.task_instance object_type pc q n size b =
        last-Keeps
          (GatewayCall.query_task_instances pc none (filter_of correlation_id gateway limits q) none
            n size)
          _ b

    get_of-Keeps :
        {starts : Bool} (t : ObjectType) (object_type : Str) (pc : ℤ) (ids : ObjectIds)
        → Keeps (HasBoundedCalls starts) (get_of correlation_id gateway limits t object_type pc ids)
    unfolding get_of
    get_of-Keeps ObjectType.project object_type pc ids =
        Keeps-check (λ code _. last-Keeps (GatewayCall.get_project code) _ tt)
    get_of-Keeps ObjectType.workflow object_type pc ids = Keeps-check (λ code _.
        Keeps-then (call-Keeps (GatewayCall.get_workflow pc code) tt) (λ obj.
          last-Keeps
            (GatewayCall.query_process_instances pc (some code) no_filter 1 limits.max_page_size) _
            (omega arith, (h.max_positive, inr (omega arith)))))
    get_of-Keeps ObjectType.node object_type pc ids =
        Keeps-check (λ code _. last-Keeps (GatewayCall.get_node pc code) _ tt)
    get_of-Keeps ObjectType.process_instance object_type pc ids = Keeps-check (λ id _.
        Keeps-then (call-Keeps (GatewayCall.get_process_instance pc id) tt)
          (λ obj. last-Keeps (GatewayCall.list_task_instances_of_process pc id) _ tt))
    get_of-Keeps ObjectType.task_instance object_type pc ids = Keeps-check (λ instance _.
        Keeps-check
          (λ task_id _. last-Keeps (GatewayCall.list_task_instances_of_process pc instance) _ tt))

    require_dry_run-ok :
        (dry_run run : ℤ)
        → require_dry_run is_decimal correlation_id gateway limits dry_run ≡ ok run
        → (run ≡ pos 0) ⊎ (run ≡ pos 1)
    unfolding require_dry_run
    require_dry_run-ok (pos n) run e = elim (Bool-cases (n == 0)) [
      | inl zero_run ↦
          let same : n ≡ 0 = ground arith in inl (subst (λ k. run ≡ pos k) same (ground arith))
      | inr other ↦
          let same : n ≡ 1 = ground arith in inr (subst (λ k. run ≡ pos k) same (ground arith))
    ]
    require_dry_run-ok (negsuc n) run e = cc

    require_skip-ok :
        (skip valid : ℤ)
        → require_skip is_decimal correlation_id gateway limits skip ≡ ok valid
        → (n : ℕ) × (valid ≡ pos n)
    unfolding require_skip
    require_skip-ok (pos n) valid e = (n, ground arith)
    require_skip-ok (negsuc n) valid e = cc

    answering-Keeps :
        {starts : Bool} {A : Type 0} (f : A → Answer) {m : Action A}
        → Keeps (HasBoundedCalls starts) m
        → Keeps (HasBoundedCalls starts) (answering f m)
    answering-Keeps f k = Keeps-then k (λ a. Keeps-return _)

    handle-Keeps :
        (request : Request)
        → Keeps
            (HasBoundedCalls (is_start request))
            (handle is_decimal correlation_id gateway limits request)
    unfolding handle do_get_server_status do_list_objects do_get_object do_search_objects
        do_start_workflow do_get_task_log do_extract_log_links
    handle-Keeps Request.get_server_status =
        answering-Keeps _ (last-Keeps (GatewayCall.get_status) _ tt)
    handle-Keeps (Request.list_objects object_type pc definition instance n size) =
        answering-Keeps _ (
          Keeps-check (λ t _. Keeps-check (λ pc _.
            list_of-Keeps t object_type pc definition instance _ _
              (bounded_page_no-IsPage n size))))
    handle-Keeps (Request.get_object object_type pc ids) =
        answering-Keeps _
          (Keeps-check (λ t _. Keeps-check (λ pc _. get_of-Keeps t object_type pc ids)))
    handle-Keeps (Request.search_objects object_type pc q n size) = answering-Keeps _ (
        Keeps-check (λ t _. Keeps-check (λ pc _.
          Keeps-check
            (λ _ _. search_of-Keeps t object_type pc q _ _ (bounded_page_no-IsPage n size)))))
    handle-Keeps (Request.start_workflow pc definition dry_run nodes timeout) = answering-Keeps _ (
        Keeps-check (λ run e.
          last-Keeps (GatewayCall.start_workflow pc definition run nodes timeout) _
            (refl, require_dry_run-ok dry_run run e)))
    handle-Keeps (Request.get_task_log pc task_id skip limit) = answering-Keeps _ (
        Keeps-check (λ valid e.
          last-Keeps (GatewayCall.get_task_log pc task_id valid (log_limit limits limit)) _
            (require_skip-ok skip valid e, log_limit-IsSize limit)))
    handle-Keeps (Request.extract_log_links pc task_id) =
        answering-Keeps _ (last-Keeps (GatewayCall.download_task_log pc task_id) _ tt)

    -- Whatever a scheduler request asks for and whatever the gateway answers, with page sizes
    -- configured to be positive, every page that the gateway is asked for has a number from 1 on and
    -- a size from 1 on that is the default or at most the maximum, only a request to start a workflow
    -- starts one, with a dry run of 0 or 1, and a log is
    -- read from a line that is not negative, a bounded number of lines at a time.
    pub scheduler_handle-HasBoundedCalls :
        (request : Request) (w : History)
        → HasBoundedCalls (is_start request) w
        → HasBoundedCalls
            (is_start request)
            (handle is_decimal correlation_id gateway limits request w).1
    scheduler_handle-HasBoundedCalls request = (handle-Keeps request).keeps
