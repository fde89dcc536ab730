-- ===== src/Zeppelin/Requests/Safe.antt =====
-- Every request of the notebook service makes only the calls that the settings allow.
use etl_mcp_suite.Effects.{Keeps, Keeps-return, Keeps-then, Keeps-check, perform-Keeps}
use etl_mcp_suite.Zeppelin.Requests.Arguments.{
  allowed_restart-ok, declared-ok, restart_arguments-ok, paragraph_arguments-ok, paragraph_ids-ok,
}
use etl_mcp_suite.Zeppelin.Validators.Accepted.{
  validate_notebook_name-ok, validate_opaque_id-ok, IsOpaqueId,
}
use etl_mcp_suite.Zeppelin.Safety.{enforce_iff}
use etl_mcp_suite.Zeppelin.Requests.{or_invalid-ok, or_identified-ok, or_explained-ok, HasSafeCalls}
use etl_mcp_suite.Zeppelin.Interpreters.{
  answering, Request, handle, Answer, do_restart_interpreter, do_get_interpreter_bindings,
}
use etl_mcp_suite.Zeppelin.Gateway.{History, ZeppelinGateway}
use etl_mcp_suite.Zeppelin.Service.{
  Action, do_list_notebooks, do_add_paragraph, do_get_paragraph_result, do_get_paragraph_status,
  do_cancel_paragraph, do_create_notebook, do_run_paragraph, Settings,
}
use etl_mcp_suite.Text.{mem_str, Str}
use etl_mcp_suite.Value.{Value}
use etl_mcp_suite.Base.{◌≡◌, ap, ◌∙◌, subst, true, some, ok}

module _ (encode_error_text : Str → Str) (correlation_id : Str) where
  module _ (gateway : ZeppelinGateway) (s : Settings) where
    run_paragraph-Keeps :
        (nb pid : Value)
        → Keeps
            (HasSafeCalls s)
            (do_run_paragraph encode_error_text correlation_id gateway s nb pid)
    unfolding do_run_paragraph
    run_paragraph-Keeps nb pid = Keeps-check (λ ids e.
        Keeps-then
          (perform-Keeps gateway.run_status _ (
            paragraph_ids-ok encode_error_text correlation_id gateway s nb pid ids
              (or_invalid-ok _ _ _ _ _ e)))
          (λ _. Keeps-return _))

    create_notebook-Keeps :
        (name : Value)
        → Keeps
            (HasSafeCalls s)
            (do_create_notebook encode_error_text correlation_id gateway s name)
    unfolding do_create_notebook
    create_notebook-Keeps name = Keeps-check (λ valid e.
        let (same, nonblank, short) = validate_notebook_name-ok _ _ _ (or_invalid-ok _ _ _ _ _ e) in
        Keeps-then (perform-Keeps gateway.created_notebook _ (nonblank, short))
          (λ _. Keeps-return _))

    cancel_paragraph-Keeps :
        (nb pid : Value)
        → Keeps
            (HasSafeCalls s)
            (do_cancel_paragraph encode_error_text correlation_id gateway s nb pid)
    unfolding do_cancel_paragraph
    cancel_paragraph-Keeps nb pid = Keeps-check (λ ids e.
        Keeps-then
          (perform-Keeps gateway.cancelled_paragraph _ (
            paragraph_ids-ok encode_error_text correlation_id gateway s nb pid ids
              (or_explained-ok _ _ _ _ _ e)))
          (λ _. Keeps-return _))

    get_paragraph_status-Keeps :
        (nb pid : Value)
        → Keeps
            (HasSafeCalls s)
            (do_get_paragraph_status encode_error_text correlation_id gateway s nb pid)
    unfolding do_get_paragraph_status
    get_paragraph_status-Keeps nb pid = Keeps-check (λ ids e.
        Keeps-then
          (perform-Keeps gateway.paragraph_status _ (
            paragraph_ids-ok encode_error_text correlation_id gateway s nb pid ids
              (or_invalid-ok _ _ _ _ _ e)))
          (λ _. Keeps-return _))

    get_paragraph_result-Keeps :
        (nb pid : Value)
        → Keeps
            (HasSafeCalls s)
            (do_get_paragraph_result encode_error_text correlation_id gateway s nb pid)
    unfolding do_get_paragraph_result
    get_paragraph_result-Keeps nb pid = Keeps-check (λ ids e.
        Keeps-then
          (perform-Keeps gateway.paragraph_result _ (
            paragraph_ids-ok encode_error_text correlation_id gateway s nb pid ids
              (or_invalid-ok _ _ _ _ _ e)))
          (λ _. Keeps-return _))

    get_interpreter_bindings-Keeps :
        (nb : Value)
        → Keeps
            (HasSafeCalls s)
            (do_get_interpreter_bindings encode_error_text correlation_id gateway s nb)
    unfolding do_get_interpreter_bindings
    get_interpreter_bindings-Keeps nb = Keeps-check (λ valid e.
        Keeps-then
          (perform-Keeps gateway.interpreter_bindings _
            (validate_opaque_id-ok _ _ _ (or_identified-ok _ _ _ _ _ _ e)).1)
          (λ _. Keeps-return _))

    add_paragraph-Keeps :
        (nb title body : Value)
        → Keeps
            (HasSafeCalls s)
            (do_add_paragraph encode_error_text correlation_id gateway s nb title body)
    unfolding do_add_paragraph
    add_paragraph-Keeps nb title body = Keeps-check (λ a e.
        let (safe_id, short, safe_body, parsed) =
          paragraph_arguments-ok encode_error_text correlation_id gateway s nb title body a
            (or_explained-ok _ _ _ _ _ e) in
        Keeps-check (λ interpreter found.
          let shebang =
            parsed
            ∙ ap ok
                (declared-ok encode_error_text correlation_id gateway s a.1 interpreter found) in
          Keeps-check (λ passed e'.
            let checked =
              (enforce_iff s.safety_hook interpreter a.0.2).0 (or_explained-ok _ _ _ _ _ e') in
            Keeps-then
              (perform-Keeps gateway.added_paragraph _
                (safe_id, short, safe_body, (interpreter, shebang, checked)))
              (λ _. Keeps-return _))))

    restart_interpreter-Keeps :
        (sid nb : Value)
        → Keeps
            (HasSafeCalls s)
            (do_restart_interpreter encode_error_text correlation_id gateway s sid nb)
    unfolding do_restart_interpreter
    restart_interpreter-Keeps sid nb = Keeps-check (λ ids e.
        let (safe_sid, safe_nb) =
          restart_arguments-ok encode_error_text correlation_id gateway s sid nb ids
            (or_identified-ok _ _ _ _ _ _ e) in
        Keeps-check (λ allowed e'.
          let (same, listed) =
            allowed_restart-ok encode_error_text correlation_id gateway s _ ids allowed e' in
          perform-Keeps gateway.restarted_interpreter _ (
            subst
              (λ x.
                IsOpaqueId s.max_opaque_id_chars x.0
                × (mem_str x.0 s.restartable ≡ true)
                × ((i : Str) → x.1 ≡ some i → IsOpaqueId s.max_opaque_id_chars i))
              same (safe_sid, listed, safe_nb))))

    answering-Keeps :
        {A : Type 0} (f : A → Answer) (m : Action A)
        → Keeps (HasSafeCalls s) m
        → Keeps (HasSafeCalls s) (answering f m)
    answering-Keeps f m h = Keeps-then h (λ a. Keeps-return _)

    list_notebooks-Keeps :
        Keeps (HasSafeCalls s) (do_list_notebooks encode_error_text correlation_id gateway s)
    unfolding do_list_notebooks
    list_notebooks-Keeps = Keeps-then (perform-Keeps gateway.notebooks _ tt) (λ _. Keeps-return _)

    handle-Keeps :
        (request : Request)
        → Keeps (HasSafeCalls s) (handle encode_error_text correlation_id gateway s request)
    unfolding handle
    handle-Keeps Request.list_notebooks = answering-Keeps _ _ list_notebooks-Keeps
    handle-Keeps (Request.create_notebook name) = answering-Keeps _ _ (create_notebook-Keeps name)
    handle-Keeps (Request.add_paragraph nb title body) =
        answering-Keeps _ _ (add_paragraph-Keeps nb title body)
    handle-Keeps (Request.run_paragraph nb pid) = answering-Keeps _ _ (run_paragraph-Keeps nb pid)
    handle-Keeps (Request.cancel_paragraph nb pid) =
        answering-Keeps _ _ (cancel_paragraph-Keeps nb pid)
    handle-Keeps (Request.get_paragraph_status nb pid) =
        answering-Keeps _ _ (get_paragraph_status-Keeps nb pid)
    handle-Keeps (Request.get_paragraph_result nb pid) =
        answering-Keeps _ _ (get_paragraph_result-Keeps nb pid)
    handle-Keeps (Request.restart_interpreter sid nb) =
        answering-Keeps _ _ (restart_interpreter-Keeps sid nb)
    handle-Keeps (Request.get_interpreter_bindings nb) =
        answering-Keeps _ _ (get_interpreter_bindings-Keeps nb)

    -- Whatever a request asks for, and whatever the gateway answers, the calls of the gateway stay
    -- those that the settings allow: ids are nonempty, bounded and without control characters, titles
    -- and names are bounded, a paragraph is added only if its body fits its bytes, its first line
    -- declares an interpreter and every checker of the safety hook lets it pass, and an interpreter is
    -- restarted only if its setting is listed.
    pub notebook_handle-HasSafeCalls :
        (request : Request) (w : History)
        → HasSafeCalls s w
        → HasSafeCalls s (handle encode_error_text correlation_id gateway s request w).1
    notebook_handle-HasSafeCalls request = (handle-Keeps request).keeps
