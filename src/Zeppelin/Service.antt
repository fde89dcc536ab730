-- ===== src/Zeppelin/Service.antt =====
-- src/mcp_stdio/plugins/zeppelin/service.py: the notebook use cases over a gateway and a safety hook.
-- Each error value takes the correlation id that is drawn for the call.
use etl_mcp_suite.Effects.{return, ◌then_do◌, perform, Step}
use etl_mcp_suite.Text.{codes, Str}
use etl_mcp_suite.Zeppelin.Models.{
  check_state_consistency, OutputItem, safe_error_detail, ParagraphResult, SafeErrorDetail,
  ParagraphStatusResult, CancelParagraphResult, RunParagraphResult, AddParagraphResult,
  CreateNotebookResult, NotebookTreeResult, Invalid,
}
use etl_mcp_suite.Zeppelin.Gateway.{
  get_paragraph_result, get_paragraph_status, cancel_paragraph, Exception, add_paragraph,
  create_notebook, run_paragraph, list_notebooks, zeppelin_gateway_error, ZeppelinGateway, History,
}
use etl_mcp_suite.Base.{
  Bool, is_empty, if◌then◌else◌, ℕ, false, Option, none, some, List, [], Result, ok, err, ◌>>=◌,
}
use etl_mcp_suite.Errors.{create, ToolOperation, ErrorCategory}
use etl_mcp_suite.Zeppelin.Validators.{
  ParagraphStatus, ValueError, parse_paragraph_interpreter, validate_paragraph_body,
  validate_paragraph_title, validate_notebook_name, validate_opaque_id, error_text,
}
use etl_mcp_suite.Zeppelin.Safety.{enforce, ParagraphChecker}
use etl_mcp_suite.Errors.Safety.{as_raw}
use etl_mcp_suite.Value.{Value}

-- Code that runs in a request, on the calls that the gateway has had.
abbrev pub Action {ℓ} : Type ℓ → Type ℓ
Action A = Step History Exception A

-- The arguments of `ZeppelinNotebookService.__init__` other than the gateway.
pub record Settings : Type 0 where
  pub safety_hook : List ParagraphChecker
  pub restartable : List Str
  pub max_notebook_name_chars : ℕ
  pub max_paragraph_title_chars : ℕ
  pub max_paragraph_body_bytes : ℕ
  pub max_opaque_id_chars : ℕ
  pub max_result_bytes : ℕ

-- `ZeppelinGatewayError(ToolError.create(…))`. `create` itself raises a `ValueError` where it refuses
-- an identifier.
unfoldable pub gateway_error :
    Str → ErrorCategory → ToolOperation → List (Str × Str) → Option Str → Exception
gateway_error correlation_id category operation identifiers explanation =
    elim (create correlation_id category operation false (as_raw identifiers) explanation) [
      | ok e ↦ zeppelin_gateway_error e
      | err _ ↦ Exception.value_error
    ]

-- A result model that pydantic refuses.
abbrev pub validated {ℓ} : {A : Type ℓ} → Result Invalid A → Result Exception A
validated (ok a) = ok a
validated (err _) = err Exception.value_error

module _ (encode_error_text : Str → Str) (correlation_id : Str) where
  -- `_invalid_input`
  unfoldable pub invalid_input : ToolOperation → Option Str → Exception
  invalid_input operation explanation =
      gateway_error correlation_id ErrorCategory.invalid_input operation [] explanation

  -- `except ValueError: raise _invalid_input(operation)`
  unfoldable pub or_invalid {ℓ} :
      {A : Type ℓ} → ToolOperation → Result ValueError A → Result Exception A
  or_invalid operation (ok a) = ok a
  or_invalid operation (err _) = err (invalid_input operation none)

  -- `except ValueError as exc: raise _invalid_input(operation, explanation=str(exc))`
  unfoldable pub or_explained {ℓ} :
      {A : Type ℓ} → ToolOperation → Result ValueError A → Result Exception A
  or_explained operation (ok a) = ok a
  or_explained operation (err e) =
      err (invalid_input operation (some (error_text encode_error_text e)))

  -- The same with identifiers.
  unfoldable pub or_identified {ℓ} :
      {A : Type ℓ} → ToolOperation → List (Str × Str) → Result ValueError A → Result Exception A
  or_identified operation identifiers (ok a) = ok a
  or_identified operation identifiers (err e) = err (
      gateway_error correlation_id ErrorCategory.invalid_input operation identifiers
        (some (error_text encode_error_text e)))

  -- The interpreter that a body must declare.
  unfoldable pub declared : Option Str → Result Exception Str
  declared none = err (
      invalid_input ToolOperation.add_paragraph
        (some (codes "paragraph body has no interpreter shebang")))
  declared (some interpreter) = ok interpreter

  module _ (gateway : ZeppelinGateway) (s : Settings) where
    unfoldable pub do_list_notebooks : Action NotebookTreeResult
    do_list_notebooks = perform gateway.notebooks list_notebooks then_do λ nodes.
        return (ok (record { nodes = nodes }))

    unfoldable pub do_create_notebook : Value → Action CreateNotebookResult
    do_create_notebook name =
        return (
          or_invalid ToolOperation.create_notebook
            (validate_notebook_name s.max_notebook_name_chars name))
        then_do λ valid.
            perform gateway.created_notebook (create_notebook valid) then_do λ notebook_id.
            return (ok (record { notebook_id = notebook_id; name = valid }))

    -- The first `try` block of `add_paragraph`.
    unfoldable pub paragraph_arguments :
        Value → Value → Value → Result ValueError ((Str × Str × Str) × Option Str)
    paragraph_arguments notebook_id title body = do
      nb ← validate_opaque_id s.max_opaque_id_chars notebook_id
      ttl ← validate_paragraph_title s.max_paragraph_title_chars title
      bdy ← validate_paragraph_body s.max_paragraph_body_bytes body
      interpreter ← parse_paragraph_interpreter bdy
      ok ((nb, ttl, bdy), interpreter)

    unfoldable pub do_add_paragraph : Value → Value → Value → Action AddParagraphResult
    do_add_paragraph notebook_id title body =
        return
          (or_explained ToolOperation.add_paragraph (paragraph_arguments notebook_id title body))
        then_do λ arguments. return (declared arguments.1) then_do λ interpreter.
            return (
              or_explained ToolOperation.add_paragraph
                (enforce s.safety_hook interpreter arguments.0.2))
            then_do λ _.
                perform gateway.added_paragraph
                  (add_paragraph arguments.0.0 arguments.0.1 arguments.0.2)
                then_do λ paragraph_id. return (
                    ok (record {
                      notebook_id = arguments.0.0;
                      paragraph_id = paragraph_id;
                      title = arguments.0.1;
                      interpreter = interpreter;
                    }))

    -- The ids of a notebook and a paragraph.
    unfoldable pub paragraph_ids : Value → Value → Result ValueError (Str × Str)
    paragraph_ids notebook_id paragraph_id = do
      nb ← validate_opaque_id s.max_opaque_id_chars notebook_id
      pid ← validate_opaque_id s.max_opaque_id_chars paragraph_id
      ok (nb, pid)

    unfoldable pub do_run_paragraph : Value → Value → Action RunParagraphResult
    do_run_paragraph notebook_id paragraph_id =
        return (or_invalid ToolOperation.run_paragraph (paragraph_ids notebook_id paragraph_id))
        then_do λ ids. perform gateway.run_status (run_paragraph ids.0 ids.1) then_do λ status.
            return (ok (record { notebook_id = ids.0; paragraph_id = ids.1; status = status }))

    unfoldable pub do_cancel_paragraph : Value → Value → Action CancelParagraphResult
    do_cancel_paragraph notebook_id paragraph_id =
        return
          (or_explained ToolOperation.cancel_paragraph (paragraph_ids notebook_id paragraph_id))
        then_do λ ids.
            perform gateway.cancelled_paragraph (cancel_paragraph ids.0 ids.1) then_do λ _.
            return (ok (record { notebook_id = ids.0; paragraph_id = ids.1 }))

    unfoldable pub do_get_paragraph_status : Value → Value → Action ParagraphStatusResult
    do_get_paragraph_status notebook_id paragraph_id =
        return
          (or_invalid ToolOperation.get_paragraph_status (paragraph_ids notebook_id paragraph_id))
        then_do λ ids.
            perform gateway.paragraph_status (get_paragraph_status ids.0 ids.1) then_do λ status.
            return (ok (record { notebook_id = ids.0; paragraph_id = ids.1; status = status }))

    -- `error if (error is not None and error.message) else SafeErrorDetail(…)`
    unfoldable pub safe_error : Option SafeErrorDetail → Result Invalid SafeErrorDetail
    safe_error none = safe_error_detail (codes "paragraph execution failed")
    safe_error (some e) =
        if is_empty e.message then safe_error_detail (codes "paragraph execution failed") else ok e

    -- The end of `get_paragraph_result`, on what the gateway answered.
    unfoldable pub paragraph_outcome :
        Str × Str
        → ParagraphStatus × List OutputItem × Option SafeErrorDetail × Bool
        → Result Exception ParagraphResult
    paragraph_outcome ids (ParagraphStatus.error, outputs, error, truncated) = do
      detail ← validated (safe_error error)
      validated (
          check_state_consistency (record {
            notebook_id = ids.0;
            paragraph_id = ids.1;
            status = ParagraphStatus.error;
            outputs = outputs;
            error = some detail;
            truncated = truncated;
          }))
    paragraph_outcome ids (ParagraphStatus.finished, outputs, error, truncated) = validated (
        check_state_consistency (record {
          notebook_id = ids.0;
          paragraph_id = ids.1;
          status = ParagraphStatus.finished;
          outputs = outputs;
          error = none;
          truncated = truncated;
        }))
    paragraph_outcome ids (_, outputs, error, truncated) =
        err (invalid_input ToolOperation.get_paragraph_result none)

    unfoldable pub do_get_paragraph_result : Value → Value → Action ParagraphResult
    do_get_paragraph_result notebook_id paragraph_id =
        return
          (or_invalid ToolOperation.get_paragraph_result (paragraph_ids notebook_id paragraph_id))
        then_do λ ids.
            perform gateway.paragraph_result (get_paragraph_result ids.0 ids.1) then_do λ answer.
            return (paragraph_outcome ids answer)
