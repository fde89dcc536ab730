-- ===== src/DolphinScheduler/Bounds/Answers.antt =====
-- The answers of the scheduler service stay within the limits.
use etl_mcp_suite.DolphinScheduler.Runs.{
  Request, do_extract_log_links, do_get_task_log, do_start_workflow, answering, Answer, handle,
}
use etl_mcp_suite.DolphinScheduler.Links.{spark_urls, yarn_application_ids}
use etl_mcp_suite.DolphinScheduler.Objects.{
  do_search_objects, do_get_object, task_with_id, ObjectIds, Search, get_of, task_of, found,
  search_of,
}
use etl_mcp_suite.DolphinScheduler.Bounds.{IsSmall}
use etl_mcp_suite.DolphinScheduler.Models.{
  to_task_instance_summary, ObjectSummary, GetObjectResult, ListObjectsResult, ServerStatusResult,
  ExtractLogLinksResult, to_project_summary, to_workflow_summary, to_node_summary,
  to_process_instance_summary, to_summary,
}
use etl_mcp_suite.Effects.{Gives-return, Gives-check, Gives-then, Gives, return, ◌then_do◌}
use etl_mcp_suite.DolphinScheduler.Service.{
  Action, do_list_objects, do_get_server_status, ObjectType, list_of,
}
use etl_mcp_suite.DolphinScheduler.Gateway.{RawTaskInstance, Gateway, RawPage, History}
use etl_mcp_suite.Value.{ℤ}
use etl_mcp_suite.Text.{Str}
use etl_mcp_suite.DolphinScheduler.Pages.{paged, unpaginated, Limits}
use etl_mcp_suite.Base.{
  ℕ, zero, suc, ◌≤◌, ◌≡◌, refl, subst, inl, inr, Bool, Option, none, some, List, [], ◌∷◌, map,
  arith, Option-cases, length, take, length-take-le, Ensures, returns, raises, of_Ensures,
  Result-cases,
}

module _ (limits : Limits) where
  length-map-take {ℓ κ} :
      {A : Type ℓ} {B : Type κ} (f : A → B) (n : ℕ) (l : List A) → length (map f (take n l)) ≤ n
  length-map-take f zero l = omega arith
  length-map-take f (suc n) [] = omega arith
  length-map-take f (suc n) (x ∷ l) = omega (arith, length-map-take f n l)

  unpaginated-small :
      {A : Type 0} (object_type : Str) (items : List A) (n size : ℕ) (f : A → ObjectSummary)
      → length (unpaginated limits object_type items n size f).items ≤ limits.max_detail_items
  unfolding unpaginated
  unpaginated-small object_type items n size f = length-map-take f limits.max_detail_items items

  paged-small :
      {A : Type 0} (object_type : Str) (page : RawPage A) (n size : ℕ) (f : A → ObjectSummary)
      → length (paged limits object_type page n size f).items ≤ limits.max_detail_items
  unfolding paged
  paged-small object_type page n size f = length-map-take f limits.max_detail_items page.items

  abbrev IsSmallListing : ListObjectsResult → Type 0
  IsSmallListing r = length r.items ≤ limits.max_detail_items

  abbrev IsSmallStatus : ServerStatusResult → Type 0
  IsSmallStatus r =
      (length r.servers ≤ limits.max_detail_items) × (r.server_count ≡ length r.servers)

  abbrev HasFewLinks : ExtractLogLinksResult → Type 0
  HasFewLinks r =
      (length r.yarn_application_ids ≤ limits.max_detail_items)
      × (length r.spark_ui_urls ≤ limits.max_detail_items)

  abbrev IsSmallObject : GetObjectResult → Type 0
  IsSmallObject r =
      (l : List ObjectSummary) → r.related ≡ some l → length l ≤ limits.max_detail_items

  module _ (is_decimal : ℕ → Bool) (correlation_id : Str) (gateway : Gateway) where
    list_of-Gives :
        (t : ObjectType) (object_type : Str) (pc : ℤ) (definition instance : Option ℤ) (n size : ℕ)
        → Gives IsSmallListing
            (list_of correlation_id gateway limits t object_type pc definition instance n size)
    unfolding list_of
    list_of-Gives ObjectType.project object_type pc definition instance n size =
        Gives-then _
          (λ items. Gives-return (returns (unpaginated-small object_type items n size _)))
    list_of-Gives ObjectType.workflow object_type pc definition instance n size =
        Gives-then _
          (λ items. Gives-return (returns (unpaginated-small object_type items n size _)))
    list_of-Gives ObjectType.node object_type pc definition instance n size =
        Gives-then _ (λ page. Gives-return (returns (paged-small object_type page n size _)))
    list_of-Gives ObjectType.process_instance object_type pc definition instance n size =
        Gives-then _ (λ page. Gives-return (returns (paged-small object_type page n size _)))
    list_of-Gives ObjectType.task_instance object_type pc definition instance n size =
        Gives-then _ (λ page. Gives-return (returns (paged-small object_type page n size _)))

    search_of-Gives :
        (t : ObjectType) (object_type : Str) (pc : ℤ) (q : Search) (n size : ℕ)
        → Gives IsSmallListing (search_of correlation_id gateway limits t object_type pc q n size)
    unfolding search_of
    search_of-Gives ObjectType.project object_type pc q n size =
        Gives-then _ (λ page. Gives-return (returns (paged-small object_type page n size _)))
    search_of-Gives ObjectType.workflow object_type pc q n size =
        Gives-then _ (λ page. Gives-return (returns (paged-small object_type page n size _)))
    search_of-Gives ObjectType.node object_type pc q n size =
        Gives-then _ (λ page. Gives-return (returns (paged-small object_type page n size _)))
    search_of-Gives ObjectType.process_instance object_type pc q n size =
        Gives-then _ (λ page. Gives-return (returns (paged-small object_type page n size _)))
    search_of-Gives ObjectType.task_instance object_type pc q n size =
        Gives-then _ (λ page. Gives-return (returns (paged-small object_type page n size _)))

    related-small :
        {A : Type 0} (object_type : Str) (o : ObjectSummary) (f : A → ObjectSummary) (l : List A)
        → IsSmallObject (found object_type o (some (map f (take limits.max_detail_items l))))
    related-small object_type o f l l' e =
        let same : map f (take limits.max_detail_items l) ≡ l' = ground arith in
        subst (λ x. length x ≤ limits.max_detail_items) same
          (length-map-take f limits.max_detail_items l)

    alone-small : (object_type : Str) (o : ObjectSummary) → IsSmallObject (found object_type o none)
    alone-small object_type o l e = cc

    task_of-small :
        (object_type : Str) (task_id : ℤ) (tasks : List RawTaskInstance)
        → Ensures IsSmallObject (task_of correlation_id gateway limits object_type task_id tasks)
    unfolding task_of
    task_of-small object_type task_id tasks = elim (Option-cases (task_with_id task_id tasks)) [
      | inl e ↦ rw (e, task_of) raises
      | inr (t, e) ↦
          rw (e, task_of) (returns (alone-small object_type (to_task_instance_summary t)))
    ]

    get_of-Gives :
        (t : ObjectType) (object_type : Str) (pc : ℤ) (ids : ObjectIds)
        → Gives IsSmallObject (get_of correlation_id gateway limits t object_type pc ids)
    unfolding get_of
    get_of-Gives ObjectType.project object_type pc ids = Gives-check (λ code _.
        Gives-then _
          (λ obj. Gives-return (returns (alone-small object_type (to_project_summary obj)))))
    get_of-Gives ObjectType.workflow object_type pc ids = Gives-check (λ code _.
        Gives-then _ (λ obj. Gives-then _ (λ page. Gives-return (
          returns (
            related-small object_type (to_workflow_summary obj) to_process_instance_summary
              page.items)))))
    get_of-Gives ObjectType.node object_type pc ids = Gives-check (λ code _.
        Gives-then _
          (λ obj. Gives-return (returns (alone-small object_type (to_node_summary obj)))))
    get_of-Gives ObjectType.process_instance object_type pc ids = Gives-check (λ id _.
        Gives-then _ (λ obj. Gives-then _ (λ tasks. Gives-return (
          returns (
            related-small object_type (to_process_instance_summary obj) to_task_instance_summary
              tasks)))))
    get_of-Gives ObjectType.task_instance object_type pc ids = Gives-check (λ instance _.
        Gives-check (λ task_id _.
          Gives-then _ (λ tasks. Gives-return (task_of-small object_type task_id tasks))))

    answering-Gives :
        {A : Type 0} {P : A → Type 0} (f : A → Answer) {m : Action A}
        → Gives P m
        → ((a : A) → P a → IsSmall limits.max_detail_items (f a))
        → Gives (IsSmall limits.max_detail_items) (answering f m)
    unfolding ◌then_do◌ return
    answering-Gives f {m} h k = record {
      gives = λ w. elim (Result-cases (m w).0) [
        | inl (a, e) ↦ rw (e, ◌then_do◌) (returns (k a (of_Ensures (h.gives w) e)))
        | inr (x, e) ↦ rw (e, ◌then_do◌) raises
      ];
    }

    handle-Gives :
        (request : Request)
        → Gives
            (IsSmall limits.max_detail_items)
            (handle is_decimal correlation_id gateway limits request)
    unfolding handle do_get_server_status do_list_objects do_get_object do_search_objects
        do_start_workflow do_get_task_log do_extract_log_links yarn_application_ids spark_urls
    handle-Gives Request.get_server_status =
        answering-Gives {P = IsSmallStatus} _
          (Gives-then _ (λ raw.
            Gives-return (returns (length-map-take to_summary limits.max_detail_items raw, refl))))
          (λ r b. b)
    handle-Gives (Request.list_objects object_type pc definition instance n size) =
        answering-Gives _
          (Gives-check
            (λ t _. Gives-check (λ pc _. list_of-Gives t object_type pc definition instance _ _)))
          (λ r b. b)
    handle-Gives (Request.get_object object_type pc ids) =
        answering-Gives _
          (Gives-check (λ t _. Gives-check (λ pc _. get_of-Gives t object_type pc ids))) (λ r b. b)
    handle-Gives (Request.search_objects object_type pc q n size) =
        answering-Gives _
          (Gives-check (λ t _.
            Gives-check (λ pc _. Gives-check (λ _ _. search_of-Gives t object_type pc q _ _))))
          (λ r b. b)
    handle-Gives (Request.start_workflow pc definition dry_run nodes timeout) =
        Gives-then _ (λ r. Gives-return (returns tt))
    handle-Gives (Request.get_task_log pc task_id skip limit) =
        Gives-then _ (λ r. Gives-return (returns tt))
    handle-Gives (Request.extract_log_links pc task_id) =
        answering-Gives {P = HasFewLinks} _
          (Gives-then _ (λ log_text. Gives-return (
            returns (
              length-take-le limits.max_detail_items _,
              length-take-le limits.max_detail_items _,
            ))))
          (λ r b. b)

    -- Whatever a scheduler request asks for and whatever the gateway answers, each list of the answer
    -- has at most `max_detail_items` elements, and a status counts the servers that it lists.
    pub scheduler_handle-IsSmall :
        (request : Request) (w : History)
        → Ensures
            (IsSmall limits.max_detail_items)
            (handle is_decimal correlation_id gateway limits request w).0
    scheduler_handle-IsSmall request = (handle-Gives request).gives
