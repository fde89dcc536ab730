-- ===== src/Zeppelin/Interpreters.antt =====
-- src/mcp_stdio/plugins/zeppelin/service.py: the use cases on interpreter settings, and a request for
-- any of the use cases.
use etl_mcp_suite.Effects.{return, ◌then_do◌, perform}
use etl_mcp_suite.Base.{
  false, true, Bool, ℕ, Option, none, some, List, [], ◌∷◌, ltb, if◌then◌else◌, Result, ok, err,
  ◌>>=◌,
}
use etl_mcp_suite.Zeppelin.Gateway.{GatewayCall, Exception, ZeppelinGateway}
use etl_mcp_suite.Zeppelin.Json.{json_result}
use etl_mcp_suite.Text.{encoded_length, codes, mem_str, Str}
use etl_mcp_suite.Zeppelin.Models.{
  interpreter_bindings_result, ParagraphResult, interpreter_binding, ParagraphStatusResult,
  InterpreterBinding, CancelParagraphResult, Invalid, RunParagraphResult, RestartInterpreterResult,
  InterpreterBindingsResult, InterpreterBindingRecord, AddParagraphResult, CreateNotebookResult,
  NotebookTreeResult,
}
use etl_mcp_suite.Zeppelin.Service.{
  validated, do_get_paragraph_result, do_get_paragraph_status, do_cancel_paragraph, or_identified,
  do_run_paragraph, do_add_paragraph, do_create_notebook, gateway_error, do_list_notebooks,
  Settings, Action,
}
use etl_mcp_suite.Errors.{ToolOperation, ErrorCategory, safe_error_identifiers}
use etl_mcp_suite.Zeppelin.Validators.{validate_opaque_id, ValueError}
use etl_mcp_suite.Value.{Value}

-- `notebook_id is None`
abbrev pub is_none : Value → Bool
is_none Value.null = true
is_none _ = false

module _ (encode_error_text : Str → Str) (correlation_id : Str) where
  module _ (gateway : ZeppelinGateway) (s : Settings) where
    unfoldable pub bindings_of :
        List InterpreterBindingRecord → Result Invalid (List InterpreterBinding)
    bindings_of [] = ok []
    bindings_of (r ∷ records) = do
      binding ← interpreter_binding r (mem_str r.setting_id s.restartable)
      bindings ← bindings_of records
      ok (binding ∷ bindings)

    -- The end of `get_interpreter_bindings`: the result, if its JSON is small enough.
    unfoldable pub within_limit :
        List (Str × Str)
        → InterpreterBindingsResult
        → Option ℕ
        → Result Exception InterpreterBindingsResult
    within_limit identifiers result none = err Exception.value_error
    within_limit identifiers result (some size) =
        if ltb s.max_result_bytes size
        then err (
            gateway_error correlation_id ErrorCategory.unexpected_response
              ToolOperation.get_interpreter_bindings identifiers
              (some (codes "interpreter bindings result exceeds the configured byte limit")))
        else ok result

    unfoldable pub do_get_interpreter_bindings : Value → Action InterpreterBindingsResult
    do_get_interpreter_bindings notebook_id =
        let identifiers =
          safe_error_identifiers ToolOperation.get_interpreter_bindings
            (some ((Value.text (codes "notebook_id"), notebook_id) ∷ [])) in
        return (
          or_identified encode_error_text correlation_id ToolOperation.get_interpreter_bindings
            identifiers (validate_opaque_id s.max_opaque_id_chars notebook_id))
        then_do λ nb.
            perform gateway.interpreter_bindings (GatewayCall.get_interpreter_bindings nb)
            then_do λ records. return (do
              bindings ← validated (bindings_of records)
              result ← validated (interpreter_bindings_result nb bindings)
              within_limit identifiers result (encoded_length (json_result result)))

    -- `None if notebook_id is None else validate_opaque_id(…)`
    unfoldable pub optional_id : Value → Result ValueError (Option Str)
    optional_id notebook_id =
        if is_none notebook_id
        then ok none
        else (do nb ← validate_opaque_id s.max_opaque_id_chars notebook_id; ok (some nb))

    unfoldable pub restart_arguments : Value → Value → Result ValueError (Str × Option Str)
    restart_arguments setting_id notebook_id = do
      sid ← validate_opaque_id s.max_opaque_id_chars setting_id
      nb ← optional_id notebook_id
      ok (sid, nb)

    -- `if sid not in self._restartable`
    unfoldable pub allowed_restart :
        List (Str × Str) → Str × Option Str → Result Exception (Str × Option Str)
    allowed_restart identifiers ids =
        if mem_str ids.0 s.restartable
        then ok ids
        else err (
            gateway_error correlation_id ErrorCategory.invalid_input
              ToolOperation.restart_interpreter identifiers
              (some (codes "The interpreter setting is not in the restart allowlist.")))

    unfoldable pub do_restart_interpreter : Value → Value → Action RestartInterpreterResult
    do_restart_interpreter setting_id notebook_id =
        let identifiers = safe_error_identifiers ToolOperation.restart_interpreter (
          some (
            (Value.text (codes "setting_id"), setting_id)
            ∷ (Value.text (codes "notebook_id"), notebook_id)
            ∷ [])) in
        return (
          or_identified encode_error_text correlation_id ToolOperation.restart_interpreter
            identifiers (restart_arguments setting_id notebook_id))
        then_do λ ids. return (allowed_restart identifiers ids) then_do λ allowed.
            perform gateway.restarted_interpreter
              (GatewayCall.restart_interpreter allowed.0 allowed.1)

-- The methods of `ZeppelinNotebookService`, with the arguments that a tool call hands over.
pub data Request : Type 0 where
  list_notebooks : Request
  create_notebook : Value → Request
  add_paragraph : Value → Value → Value → Request
  run_paragraph cancel_paragraph get_paragraph_status : Value → Value → Request
  get_paragraph_result restart_interpreter : Value → Value → Request
  get_interpreter_bindings : Value → Request

-- What they return.
pub data Answer : Type 0 where
  tree : NotebookTreeResult → Answer
  created : CreateNotebookResult → Answer
  added : AddParagraphResult → Answer
  started : RunParagraphResult → Answer
  cancelled : CancelParagraphResult → Answer
  status : ParagraphStatusResult → Answer
  outcome : ParagraphResult → Answer
  restarted : RestartInterpreterResult → Answer
  bindings : InterpreterBindingsResult → Answer

abbrev pub answering {ℓ} : {A : Type ℓ} → (A → Answer) → Action A → Action Answer
answering f m = m then_do λ a. return (ok (f a))

module _ (encode_error_text : Str → Str) (correlation_id : Str) where
  module _ (gateway : ZeppelinGateway) (s : Settings) where
    unfoldable pub handle : Request → Action Answer
    handle Request.list_notebooks =
        answering tree (do_list_notebooks encode_error_text correlation_id gateway s)
    handle (Request.create_notebook name) =
        answering created (do_create_notebook encode_error_text correlation_id gateway s name)
    handle (Request.add_paragraph nb title body) =
        answering added (do_add_paragraph encode_error_text correlation_id gateway s nb title body)
    handle (Request.run_paragraph nb pid) =
        answering started (do_run_paragraph encode_error_text correlation_id gateway s nb pid)
    handle (Request.cancel_paragraph nb pid) =
        answering Answer.cancelled
          (do_cancel_paragraph encode_error_text correlation_id gateway s nb pid)
    handle (Request.get_paragraph_status nb pid) =
        answering status (do_get_paragraph_status encode_error_text correlation_id gateway s nb pid)
    handle (Request.get_paragraph_result nb pid) =
        answering outcome
          (do_get_paragraph_result encode_error_text correlation_id gateway s nb pid)
    handle (Request.restart_interpreter sid nb) =
        answering restarted
          (do_restart_interpreter encode_error_text correlation_id gateway s sid nb)
    handle (Request.get_interpreter_bindings nb) =
        answering bindings
          (do_get_interpreter_bindings encode_error_text correlation_id gateway s nb)
