-- ===== src/DolphinScheduler/Http/Accepted.antt =====
-- What the gateway over HTTP takes for an answer.
use etl_mcp_suite.Value.{
  get_value, pos, negsuc, Value, null, boolean, integer, text, binary, sequence, opaque, mapping,
  Fields,
}
use etl_mcp_suite.Text.{codes}
use etl_mcp_suite.Errors.{ToolOperation}
use etl_mcp_suite.DolphinScheduler.Http.{
  Client, HttpResponse, Outcome, bound_response, check_code, check_document, check_status, data_of,
  received, response,
}
use etl_mcp_suite.Base.{
  ◌≤◌, ◌<◌, ◌≡◌, refl, sym, ap, ◌∙◌, subst, ◌↔◌, inl, inr, Option, none, some, arith, ◌==◌,
  Bool-cases, length, ok, >>=-eq-ok,
}

-- An outcome whose data is a value: a response that is not too long and not an error by its status,
-- whose document is a mapping with the code 0.
pub record IsData (client : Client) (outcome : Outcome) (value : Value) : Type 0 where
  pub answer : HttpResponse
  pub typed : Fields
  pub arrived : outcome ≡ response answer
  pub fits : length answer.content ≤ client.max_response_bytes
  pub succeeded : answer.status_code < 400
  pub document : client.json answer.content ≡ some (mapping typed)
  pub code_zero : get_value (codes "code") typed ≡ integer (pos 0)
  pub payload : get_value (codes "data") typed ≡ value

module _ (client : Client) (operation : ToolOperation) where
  received-ok :
      (outcome : Outcome) (r : HttpResponse)
      → received client operation outcome ≡ ok r
      → outcome ≡ response r
  unfolding received
  received-ok (Outcome.response x) r e = ground arith
  received-ok Outcome.connect_timeout r e = cc
  received-ok Outcome.read_timeout r e = cc
  received-ok Outcome.connect_error r e = cc
  received-ok Outcome.remote_protocol_error r e = cc
  received-ok Outcome.http_error r e = cc
  received-ok (Outcome.raised n) r e = cc

  bound_response-ok :
      (r s : HttpResponse)
      → bound_response client r ≡ ok s
      → (length r.content ≤ client.max_response_bytes) × (r ≡ s)
  unfolding bound_response
  bound_response-ok r s e = ground arith

  bound_response-fits :
      (r : HttpResponse)
      → length r.content ≤ client.max_response_bytes
      → bound_response client r ≡ ok r
  unfolding bound_response
  bound_response-fits r h = ground arith

  check_status-good :
      (r : HttpResponse) → r.status_code < 400 → check_status client operation r ≡ ok r
  unfolding check_status
  check_status-good r h = ground arith

  check_status-ok :
      (r s : HttpResponse)
      → check_status client operation r ≡ ok s
      → (r.status_code < 400) × (r ≡ s)
  unfolding check_status
  check_status-ok r s e = ground arith

  check_code-ok :
      (code value payload : Value)
      → check_code client operation code payload ≡ ok value
      → (code ≡ integer (pos 0)) × (payload ≡ value)
  unfolding check_code
  check_code-ok (integer (pos n)) value payload e = elim (Bool-cases (n == 0)) [
    | inl zero_code ↦
        let same : n ≡ 0 = ground arith in (ap (λ m. integer (pos m)) same, ground arith)
    | inr other ↦ ground arith
  ]
  check_code-ok (integer (negsuc n)) value payload e = cc
  check_code-ok (mapping m) value payload e = cc
  check_code-ok null value payload e = cc
  check_code-ok (boolean b) value payload e = cc
  check_code-ok (text s) value payload e = cc
  check_code-ok (binary b) value payload e = cc
  check_code-ok (sequence xs) value payload e = cc
  check_code-ok (opaque n) value payload e = cc

  check_document-ok :
      (document : Option Value) (value : Value)
      → check_document client operation document ≡ ok value
      → (typed : Fields) × (document ≡ some (mapping typed))
        × (get_value (codes "code") typed ≡ integer (pos 0))
        × (get_value (codes "data") typed ≡ value)
  unfolding check_document
  check_document-ok none value e = cc
  check_document-ok (some (mapping typed)) value e =
      let (code_zero, payload) = check_code-ok _ value _ e in (typed, refl, code_zero, payload)
  check_document-ok (some null) value e = cc
  check_document-ok (some (boolean b)) value e = cc
  check_document-ok (some (text s)) value e = cc
  check_document-ok (some (binary b)) value e = cc
  check_document-ok (some (sequence xs)) value e = cc
  check_document-ok (some (opaque n)) value e = cc
  check_document-ok (some (integer n)) value e = cc

  -- A request yields a value just when its outcome is such a response: any other outcome is an error.
  pub data_of-ok_iff :
      (outcome : Outcome) (value : Value)
      → (data_of client operation outcome ≡ ok value) ↔ IsData client outcome value
  unfolding data_of received check_document check_code
  data_of-ok_iff outcome value = (
    (λ e.
        let (r, arrived, e1) = >>=-eq-ok (received client operation outcome) _ e in
        let (s, fits, e2) = >>=-eq-ok (bound_response client r) _ e1 in
        let (t, succeeded, e3) = >>=-eq-ok (check_status client operation s) _ e2 in
        let (fit, rs) = bound_response-ok r s fits in
        let (good, st) = check_status-ok s t succeeded in
        let (typed, document, code_zero, payload) =
          check_document-ok (client.json t.content) value e3 in
        record {
          answer = r;
          typed = typed;
          arrived = received-ok outcome r arrived;
          fits = fit;
          succeeded = subst (λ x. x.status_code < 400) (sym rs) good;
          document =
              subst (λ x. client.json x.content ≡ some (mapping typed)) (sym (rs ∙ st)) document;
          code_zero = code_zero;
          payload = payload;
        }),
    (λ d.
        rw
          (
            d.arrived,
            bound_response-fits d.answer d.fits,
            check_status-good d.answer d.succeeded,
            d.document,
            d.code_zero,
            d.payload,
          )
          refl),
  )
