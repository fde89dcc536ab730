-- ===== src/Zeppelin/Models.antt =====
-- src/mcp_stdio/plugins/zeppelin/models.py: the results, with the constraints that pydantic checks
-- when one is built. A `ValidationError` of pydantic is a `ValueError`; its text is not modelled.
use etl_mcp_suite.Text.{mem_str, is_control, encoded_length, Str}
use etl_mcp_suite.Zeppelin.Validators.{ParagraphStatus}
use etl_mcp_suite.Base.{
  ℕ, Bool, true, false, ◌&&◌, not, Option, none, some, List, [], ◌∷◌, map, leb, if◌then◌else◌,
  length, is_empty, any, all, Result, ok, err,
}

pub data Invalid : Type 0 where
  validation_error : Invalid

pub data OutputKind : Type 0 where
  text table html angular img : OutputKind

pub record OutputItem : Type 0 where
  pub kind : OutputKind
  pub text : Str

pub record SafeErrorDetail : Type 0 where
  pub message : Str

abbrev pub at_most_bytes : ℕ → Option ℕ → Bool
at_most_bytes max_bytes none = false
at_most_bytes max_bytes (some size) = leb size max_bytes

-- `OutputItem(kind=…, text=…)`
unfoldable pub output_item : OutputKind → Str → Result Invalid OutputItem
output_item kind output =
    if at_most_bytes 1048576 (encoded_length output)
    then ok (record { kind = kind; text = output })
    else err validation_error

-- `SafeErrorDetail(message=…)`
unfoldable pub safe_error_detail : Str → Result Invalid SafeErrorDetail
safe_error_detail message =
    if at_most_bytes 4096 (encoded_length message)
    then ok (record { message = message })
    else err validation_error

pub record CreateNotebookResult : Type 0 where
  pub notebook_id : Str
  pub name : Str

pub record AddParagraphResult : Type 0 where
  pub notebook_id : Str
  pub paragraph_id : Str
  pub title : Str
  pub interpreter : Str

pub record CancelParagraphResult : Type 0 where
  pub notebook_id : Str
  pub paragraph_id : Str

pub record RunParagraphResult : Type 0 where
  pub notebook_id : Str
  pub paragraph_id : Str
  pub status : ParagraphStatus

pub record RestartInterpreterResult : Type 0 where
  pub setting_id : Str
  pub name : Str
  pub group : Str
  pub status : Str

pub record ParagraphStatusResult : Type 0 where
  pub notebook_id : Str
  pub paragraph_id : Str
  pub status : ParagraphStatus

pub record InterpreterBindingRecord : Type 0 where
  pub setting_id : Str
  pub name : Str
  pub interpreters : List Str
  pub selected : Bool

pub record InterpreterBinding : Type 0 where
  pub setting_id : Str
  pub name : Str
  pub interpreters : List Str
  pub selected : Bool
  pub restart_allowed : Bool

pub record InterpreterBindingsResult : Type 0 where
  pub notebook_id : Str
  pub bindings : List InterpreterBinding

-- What `_validate_binding_text` accepts.
abbrev pub is_binding_text : ℕ → Str → Bool
is_binding_text max_chars s = not (is_empty s) && leb (length s) max_chars && not (any is_control s)

-- The field validators of `InterpreterBindingRecord`.
unfoldable pub is_binding : Str → Str → List Str → Bool
is_binding setting_id name interpreters =
    is_binding_text 4096 setting_id
    && is_binding_text 256 name
    && leb (length interpreters) 64
    && all (is_binding_text 256) interpreters

-- `InterpreterBinding(…)`
unfoldable pub interpreter_binding :
    InterpreterBindingRecord → Bool → Result Invalid InterpreterBinding
interpreter_binding r restart_allowed =
    if is_binding r.setting_id r.name r.interpreters
    then ok (record {
      setting_id = r.setting_id;
      name = r.name;
      interpreters = r.interpreters;
      selected = r.selected;
      restart_allowed = restart_allowed;
    })
    else err validation_error

-- `len(set(setting_ids)) == len(setting_ids)`
unfoldable pub all_different : List Str → Bool
all_different [] = true
all_different (s ∷ rest) = not (mem_str s rest) && all_different rest

-- `InterpreterBindingsResult(…)`
unfoldable pub interpreter_bindings_result :
    Str → List InterpreterBinding → Result Invalid InterpreterBindingsResult
interpreter_bindings_result notebook_id bindings =
    if is_binding_text 4096 notebook_id
      && leb (length bindings) 256
      && all_different (map (λ b. b.setting_id) bindings)
    then ok (record { notebook_id = notebook_id; bindings = bindings })
    else err validation_error

pub record ParagraphResult : Type 0 where
  pub notebook_id : Str
  pub paragraph_id : Str
  pub status : ParagraphStatus
  pub outputs : List OutputItem
  pub error : Option SafeErrorDetail
  pub truncated : Bool

abbrev pub is_consistent : ParagraphStatus → Option SafeErrorDetail → Bool
is_consistent ParagraphStatus.finished none = true
is_consistent ParagraphStatus.error _ = true
is_consistent _ _ = false

-- `ParagraphResult.check_state_consistency`
unfoldable pub check_state_consistency : ParagraphResult → Result Invalid ParagraphResult
check_state_consistency r = if is_consistent r.status r.error then ok r else err validation_error

mutual
  pub data NotebookTreeNode : Type 0 where
    node : Str → Str → Option Str → Nodes → NotebookTreeNode

  pub data Nodes : Type 0 where
    nil : Nodes
    cons : NotebookTreeNode → Nodes → Nodes

pub record NotebookTreeResult : Type 0 where
  pub nodes : Nodes
