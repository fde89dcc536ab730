-- ===== src/Zeppelin/Gateway.antt =====
-- src/mcp_stdio/plugins/zeppelin/gateway.py: the contract of the upstream adapter, and what a call of
-- the service may raise. What an awaited call answers may depend on all calls made before it.
use etl_mcp_suite.Zeppelin.Models.{
  RestartInterpreterResult, InterpreterBindingRecord, SafeErrorDetail, OutputItem, Nodes,
}
use etl_mcp_suite.Zeppelin.Validators.{ParagraphStatus}
use etl_mcp_suite.Errors.{ToolError}
use etl_mcp_suite.Text.{Str}
use etl_mcp_suite.Base.{ℕ, Bool, Option, List, Result}

pub data GatewayCall : Type 0 where
  list_notebooks : GatewayCall
  create_notebook : Str → GatewayCall
  add_paragraph : Str → Str → Str → GatewayCall
  run_paragraph : Str → Str → GatewayCall
  get_paragraph_status : Str → Str → GatewayCall
  get_paragraph_result : Str → Str → GatewayCall
  cancel_paragraph : Str → Str → GatewayCall
  get_interpreter_bindings : Str → GatewayCall
  restart_interpreter : Str → Option Str → GatewayCall

-- `zeppelin_gateway_error` is `ZeppelinGatewayError`, `value_error` a bare `ValueError`, and `other`
-- anything else that a gateway raises, a cancelled task included.
pub data Exception : Type 0 where
  zeppelin_gateway_error : ToolError → Exception
  value_error : Exception
  other : ℕ → Exception

-- The calls made so far, the latest last.
abbrev pub History : Type 0
History = List GatewayCall

-- What the methods answer. The answer of `cancel_paragraph` is not looked at.
pub record ZeppelinGateway : Type 0 where
  pub notebooks : History → Result Exception Nodes
  pub created_notebook : History → Result Exception Str
  pub added_paragraph : History → Result Exception Str
  pub run_status : History → Result Exception ParagraphStatus
  pub paragraph_status : History → Result Exception ParagraphStatus
  pub paragraph_result :
      History → Result Exception (ParagraphStatus × List OutputItem × Option SafeErrorDetail × Bool)
  pub cancelled_paragraph : History → Result Exception (Unit {0})
  pub interpreter_bindings : History → Result Exception (List InterpreterBindingRecord)
  pub restarted_interpreter : History → Result Exception RestartInterpreterResult
