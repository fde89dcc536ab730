-- ===== src/DolphinScheduler/Http/Sent.antt =====
-- What the gateway over HTTP sends, and what it takes for an answer.
use etl_mcp_suite.Effects.{return, ◌then_do◌}
use etl_mcp_suite.Value.{Fields}
use etl_mcp_suite.Text.{Str, codes}
use etl_mcp_suite.Errors.{ToolOperation}
use etl_mcp_suite.DolphinScheduler.Gateway.{Exception, Gateway, GatewayCall, History}
use etl_mcp_suite.DolphinScheduler.Http.{
  Client, Exchange, HttpRequest, Method, Piece, Sent, auth_headers, request, request_to, send,
}
use etl_mcp_suite.DolphinScheduler.Http.Methods.{http_call}
use etl_mcp_suite.DolphinScheduler.Pages.{Limits}
use etl_mcp_suite.DolphinScheduler.Runs.{Request, handle}
use etl_mcp_suite.DolphinScheduler.Bounds.{IsBounded, IsConfigured, is_start}
use etl_mcp_suite.DolphinScheduler.Bounds.Calls.{scheduler_handle-HasBoundedCalls}
use etl_mcp_suite.Base.{
  ℕ, ◌≡◌, refl, sym, ◌∙◌, subst, inl, inr, Bool, false, Option, none, some, List, [], ◌∷◌, ◌++◌,
  All, All-append, Result, Result-cases, Option-cases,
}

-- Every call but the start of a workflow only reads.
abbrev pub method_of : GatewayCall → Method
method_of (GatewayCall.start_workflow _ _ _ _ _) = Method.post
method_of _ = Method.get

-- A call that may not start a workflow is a query.
reads :
    (limits : Limits) (call : GatewayCall)
    → IsBounded limits false call
    → method_of call ≡ Method.get
reads limits GatewayCall.get_status h = refl
reads limits GatewayCall.list_projects h = refl
reads limits (GatewayCall.search_projects a b c) h = refl
reads limits (GatewayCall.get_project a) h = refl
reads limits (GatewayCall.list_workflows a) h = refl
reads limits (GatewayCall.search_workflows a b c d) h = refl
reads limits (GatewayCall.get_workflow a b) h = refl
reads limits (GatewayCall.query_nodes a b c d) h = refl
reads limits (GatewayCall.get_node a b) h = refl
reads limits (GatewayCall.query_process_instances a b c d e) h = refl
reads limits (GatewayCall.get_process_instance a b) h = refl
reads limits (GatewayCall.list_task_instances_of_process a b) h = refl
reads limits (GatewayCall.query_task_instances a b c d e f) h = refl
reads limits (GatewayCall.start_workflow a b c d e) h = cc
reads limits (GatewayCall.get_task_log a b c d) h = refl
reads limits (GatewayCall.download_task_log a b) h = refl

-- The headers of a request: the header `token` with the token, where there is one, and no other.
pub data AreHeadersFor : Option Str → List (Str × Str) → Type 0 where
  without_token : AreHeadersFor none []
  with_token : {token : Str} → AreHeadersFor (some token) ((codes "token", token) ∷ [])

auth_headers-AreHeadersFor : (client : Client) → AreHeadersFor client.token (auth_headers client)
unfolding auth_headers
auth_headers-AreHeadersFor client = elim (Option-cases client.token) [
  | inl e ↦ rw e without_token
  | inr (token, e) ↦ rw e with_token
]

-- The request that an exchange adds to those sent.
pub record IsOne {A : Type 0} (client : Client) (method : Method) (m : Exchange A) : Type 0 where
  pub sends :
      (w : Sent)
      → (r : HttpRequest) × ((m w).1 ≡ w ++ r ∷ [])
        × (r.method ≡ method)
        × AreHeadersFor client.token r.headers

module _ (client : Client) where
  send-IsOne :
      (method : Method) (path : List Piece) (params form : Fields)
      → IsOne client method (send client (request_to client method path params form))
  unfolding send
  send-IsOne method path params form = record {
    sends = λ w.
        (request_to client method path params form, refl, refl, auth_headers-AreHeadersFor client);
  }

  then-IsOne :
      {A B : Type 0} {method : Method} {m : Exchange A} (f : A → Result Exception B)
      → IsOne client method m
      → IsOne client method (m then_do λ a. return (f a))
  unfolding return ◌then_do◌
  then-IsOne {m} f h = record {
    sends = λ w. elim (Result-cases (m w).0) [
      | inl (a, e) ↦ rw (e, ◌then_do◌) (h.sends w)
      | inr (x, e) ↦ rw (e, ◌then_do◌) (h.sends w)
    ];
  }

  request-IsOne :
      (method : Method) (path : List Piece) (params form : Fields) (operation : ToolOperation)
      → IsOne client method (request client method path params form operation)
  unfolding request
  request-IsOne method path params form operation =
      then-IsOne _ (send-IsOne method path params form)

  -- Every call of the gateway sends one request, whatever comes of it: a POST to start a workflow, and
  -- a GET for all other calls. Its headers are the header `token` with the client's token, if there
  -- is one, and no other.
  pub http_call-IsOne : (call : GatewayCall) → IsOne client (method_of call) (http_call client call)
  unfolding http_call
  http_call-IsOne GatewayCall.get_status = then-IsOne _ (request-IsOne _ _ _ _ _)
  http_call-IsOne GatewayCall.list_projects = then-IsOne _ (request-IsOne _ _ _ _ _)
  http_call-IsOne (GatewayCall.search_projects s n size) = then-IsOne _ (request-IsOne _ _ _ _ _)
  http_call-IsOne (GatewayCall.get_project code) = then-IsOne _ (request-IsOne _ _ _ _ _)
  http_call-IsOne (GatewayCall.list_workflows pc) = then-IsOne _ (request-IsOne _ _ _ _ _)
  http_call-IsOne (GatewayCall.search_workflows pc s n size) =
      then-IsOne _ (request-IsOne _ _ _ _ _)
  http_call-IsOne (GatewayCall.get_workflow pc code) = then-IsOne _ (request-IsOne _ _ _ _ _)
  http_call-IsOne (GatewayCall.query_nodes pc s n size) = then-IsOne _ (request-IsOne _ _ _ _ _)
  http_call-IsOne (GatewayCall.get_node pc code) = then-IsOne _ (request-IsOne _ _ _ _ _)
  http_call-IsOne (GatewayCall.query_process_instances pc d q n size) =
      then-IsOne _ (request-IsOne _ _ _ _ _)
  http_call-IsOne (GatewayCall.get_process_instance pc id) = then-IsOne _ (request-IsOne _ _ _ _ _)
  http_call-IsOne (GatewayCall.list_task_instances_of_process pc id) =
      then-IsOne _ (request-IsOne _ _ _ _ _)
  http_call-IsOne (GatewayCall.query_task_instances pc i q name n size) =
      then-IsOne _ (request-IsOne _ _ _ _ _)
  http_call-IsOne (GatewayCall.start_workflow pc d run nodes timeout) =
      then-IsOne _ (request-IsOne _ _ _ _ _)
  http_call-IsOne (GatewayCall.get_task_log pc id skip limit) =
      then-IsOne _ (request-IsOne _ _ _ _ _)
  http_call-IsOne (GatewayCall.download_task_log pc id) = then-IsOne _ (send-IsOne _ _ _ _)

  -- What a list of calls sends.
  unfoldable pub sent_from : Sent → History → Sent
  sent_from w [] = w
  sent_from w (call ∷ calls) = sent_from (http_call client call w).1 calls

  -- The gateway over HTTP, as the service calls it.
  unfoldable pub over_http : Gateway
  over_http call h = (http_call client call (sent_from [] h)).0

  abbrev pub IsQuery : HttpRequest → Type 0
  IsQuery r = r.method ≡ Method.get

  sent_from-AreQueries :
      (limits : Limits) (calls : History) (w : Sent)
      → All IsQuery w
      → All (IsBounded limits false) calls
      → All IsQuery (sent_from w calls)
  unfolding sent_from
  sent_from-AreQueries limits [] w q b = q
  sent_from-AreQueries limits (call ∷ calls) w q (b, bs) =
      let (r, e, method, _) = (http_call-IsOne call).sends w in
      sent_from-AreQueries limits calls (http_call client call w).1
        (subst (All IsQuery) (sym e)
          (All-append IsQuery w (r ∷ []) q (method ∙ reads limits call b, tt)))
        bs

  -- Over HTTP, whatever its server answers, a scheduler request that is not to start a workflow sends
  -- nothing but GETs, with page sizes configured to be positive.
  pub scheduler_over_http-AreQueries :
      (limits : Limits) (is_decimal : ℕ → Bool) (correlation_id : Str) (request : Request)
      → IsConfigured limits
      → is_start request ≡ false
      → All IsQuery (sent_from [] (handle is_decimal correlation_id over_http limits request []).1)
  scheduler_over_http-AreQueries limits is_decimal correlation_id request h e =
      let calls = (handle is_decimal correlation_id over_http limits request []).1 in
      let bounded =
        scheduler_handle-HasBoundedCalls limits h is_decimal correlation_id over_http request []
          tt in
      sent_from-AreQueries limits calls [] tt
        (subst (λ starts. All (IsBounded limits starts) calls) e bounded)
