-- ===== src/DolphinScheduler/Http.antt =====
-- src/mcp_stdio/plugins/dolphinscheduler/http_client.py: one exchange over HTTP, and what becomes of
-- its response. httpx is a parameter: what came of a request, its failures by their classes.
pub mod Parse
pub mod Methods
pub mod Sent
pub mod Accepted
use etl_mcp_suite.Effects.{Step, return, ◌then_do◌}
use etl_mcp_suite.DolphinScheduler.Service.{perform}
use etl_mcp_suite.Value.{
  get_value, ℤ, pos, negsuc, Value, null, integer, mapping, Fields, end, field,
}
use etl_mcp_suite.Text.{Str, codes, str_eq}
use etl_mcp_suite.Errors.{ErrorCategory, ToolOperation}
use etl_mcp_suite.DolphinScheduler.Gateway.{Exception, scheduler_error}
use etl_mcp_suite.Base.{
  ℕ, zero, suc, ◌+◌, ◌-◌, ◌*◌, ◌/◌, ◌%◌, ◌^◌, ◌≤◌, ◌<◌, min, ◌≡◌, refl, sym, ap, ◌∙◌, subst, ◌≢◌,
  ◌↔◌, ◌⊎◌, inl, inr, Bool, true, false, ◌&&◌, ◌||◌, not, Option, none, some, List, [], ◌∷◌, ◌++◌,
  map, foldl, append-nil, append_assoc, arith, ltb, leb, ◌==◌, if◌then◌else◌, ltb→lt, lt→ltb,
  leb→le, ==_iff, tests, Bool-cases, Option-cases, &&-eq-true, ||-eq-false, length, take, drop,
  is_empty, any, all, filter, All, length-append, length-take-le, all-append, All-append, All-map,
  All-filter, length-filter-le, drop-append_one, Result, ok, err, Ensures, returns, raises,
  Ensures-any, of_Ensures, Ensures-if, Ensures-bind, ◌>>=◌, ◌>>◌, raise_if, Result-cases, >>=-eq-ok,
}

pub data Method : Type 0 where
  get post : Method

-- A path, in the pieces of the f-string.
pub data Piece : Type 0 where
  literal : Str → Piece
  number : ℤ → Piece

pub record HttpRequest : Type 0 where
  pub method : Method
  pub path : List Piece
  pub params : Fields
  pub data_form : Fields
  pub headers : List (Str × Str)

pub record HttpResponse : Type 0 where
  pub status_code : ℕ
  pub content : List ℕ

-- What comes of a request: a response, or what httpx raises. `raised` is no `httpx.HTTPError`.
pub data Outcome : Type 0 where
  response : HttpResponse → Outcome
  connect_timeout read_timeout connect_error remote_protocol_error http_error : Outcome
  raised : ℕ → Outcome

-- The requests sent so far, the latest last.
abbrev pub Sent : Type 0
Sent = List HttpRequest

abbrev pub Exchange : Type 0 → Type 0
Exchange A = Step Sent Exception A

-- The settings, the token, and the code outside of the repository.
pub record Client : Type 0 where
  pub status_path : Str
  pub max_response_bytes : ℕ
  pub max_log_bytes : ℕ
  pub token : Option Str
  pub correlation_id : Str
  pub transport : HttpRequest → Sent → Outcome
  -- `response.json()`, where it raises nothing
  pub json : List ℕ → Option Value
  -- `content.decode("utf-8", errors="replace")`
  pub decode : List ℕ → Str

-- `category in _RETRYABLE`
unfoldable pub is_retryable : ErrorCategory → Bool
is_retryable ErrorCategory.timeout = true
is_retryable ErrorCategory.connection_failed = true
is_retryable _ = false

module _ (client : Client) where
  -- `_gateway_error`
  unfoldable pub gateway_failure : ErrorCategory → ToolOperation → Exception
  gateway_failure category operation =
      scheduler_error client.correlation_id category operation (is_retryable category) none

  -- `_auth_headers`
  unfoldable pub auth_headers : List (Str × Str)
  auth_headers = elim client.token [ none ↦ [] | some token ↦ (codes "token", token) ∷ [] ]

  -- The `except` clauses around `client.request`.
  unfoldable pub received : ToolOperation → Outcome → Result Exception HttpResponse
  received operation (response r) = ok r
  received operation connect_timeout = err (gateway_failure ErrorCategory.timeout operation)
  received operation read_timeout = err (gateway_failure ErrorCategory.timeout operation)
  received operation connect_error = err (gateway_failure ErrorCategory.connection_failed operation)
  received operation remote_protocol_error =
      err (gateway_failure ErrorCategory.connection_failed operation)
  received operation http_error = err (gateway_failure ErrorCategory.upstream_error operation)
  received operation (raised n) = err (Exception.other n)

  -- `_bound_response`
  unfoldable pub bound_response : HttpResponse → Result Exception HttpResponse
  bound_response r =
      if ltb client.max_response_bytes (length r.content)
      then err (gateway_failure ErrorCategory.unexpected_response ToolOperation.get_server_status)
      else ok r

  -- The tests of the status.
  unfoldable pub check_status : ToolOperation → HttpResponse → Result Exception HttpResponse
  check_status operation r =
      if r.status_code == 401
      then err (gateway_failure ErrorCategory.authentication_failed operation)
      else if r.status_code == 403
      then err (gateway_failure ErrorCategory.permission_denied operation)
      else if leb 400 r.status_code
      then err (gateway_failure ErrorCategory.upstream_error operation)
      else ok r

  -- The tests of the document's `code`, and the `data` beside it.
  unfoldable pub check_code : ToolOperation → Value → Value → Result Exception Value
  check_code operation (integer (pos n)) value =
      if n == 0 then ok value else err (gateway_failure ErrorCategory.upstream_error operation)
  check_code operation (integer (negsuc _)) value =
      err (gateway_failure ErrorCategory.upstream_error operation)
  check_code operation _ value = err (gateway_failure ErrorCategory.unexpected_response operation)

  -- The tests of the document.
  unfoldable pub check_document : ToolOperation → Option Value → Result Exception Value
  check_document operation (some (mapping typed)) =
      check_code operation (get_value (codes "code") typed) (get_value (codes "data") typed)
  check_document operation _ = err (gateway_failure ErrorCategory.unexpected_response operation)

  -- What `_request` returns of what came of the request.
  unfoldable pub data_of : ToolOperation → Outcome → Result Exception Value
  data_of operation outcome = received operation outcome >>= λ r. bound_response r >>= λ bounded.
      check_status operation bounded >>= λ checked.
      check_document operation (client.json checked.content)

  abbrev pub request_to : Method → List Piece → Fields → Fields → HttpRequest
  request_to method path params form = record {
    method = method;
    path = path;
    params = params;
    data_form = form;
    headers = auth_headers;
  }

  -- `await client.request(…)`
  unfoldable pub send : HttpRequest → Exchange Outcome
  send request w = (ok (client.transport request w), w ++ request ∷ [])

  -- `_request`
  unfoldable pub request : Method → List Piece → Fields → Fields → ToolOperation → Exchange Value
  request method path params form operation =
      let sent = request_to method path params form in
      send sent then_do λ outcome. return (data_of operation outcome)
