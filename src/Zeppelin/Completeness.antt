-- ===== src/Zeppelin/Completeness.antt =====
-- What the notebook service does for requests that its checks accept.
use etl_mcp_suite.Effects.{return, ◌then_do◌, perform}
use etl_mcp_suite.Errors.{error_message, ToolOperation, ErrorCategory, checked_identifiers, create}
use etl_mcp_suite.Zeppelin.Validators.{
  error_text, ValueError, parse_paragraph_interpreter, ParagraphStatus,
}
use etl_mcp_suite.Base.{
  false, err, ◌≤◌, ◌≡◌, refl, ◌⊎◌, inl, inr, Bool, Option, none, some, List, [], ◌∷◌, ◌++◌, length,
  All, ok,
}
use etl_mcp_suite.Zeppelin.Gateway.{zeppelin_gateway_error, add_paragraph, History, ZeppelinGateway}
use etl_mcp_suite.Zeppelin.Safety.{ParagraphChecker, enforce-first_refusal, enforce_iff, Passes}
use etl_mcp_suite.Zeppelin.Service.{
  gateway_error, invalid_input, paragraph_outcome, declared, or_invalid, or_explained,
  paragraph_ids, paragraph_arguments, do_get_paragraph_result, do_add_paragraph, Settings,
}
use etl_mcp_suite.Zeppelin.Answers.{safe_error-some}
use etl_mcp_suite.Zeppelin.Models.{
  check_state_consistency, ParagraphResult, SafeErrorDetail, OutputItem,
}
use etl_mcp_suite.Zeppelin.Validators.Accepted.{
  validate_paragraph_body-accepts, validate_paragraph_title-accepts, validate_opaque_id-accepts,
  IsBody, IsOpaqueId,
}
use etl_mcp_suite.Value.{text}
use etl_mcp_suite.Text.{Str}

abbrev outcome :
    Str × Str → ParagraphStatus → List OutputItem → Option SafeErrorDetail → Bool → ParagraphResult
outcome ids status outputs error truncated = record {
  notebook_id = ids.0;
  paragraph_id = ids.1;
  status = status;
  outputs = outputs;
  error = error;
  truncated = truncated;
}

module _ (encode_error_text : Str → Str) (correlation_id : Str) where
  module _ (gateway : ZeppelinGateway) (s : Settings) where
    -- A paragraph whose arguments are acceptable, whose body declares an interpreter, and which every
    -- checker of the safety hook lets pass, is handed to the gateway unchanged, in the only call that
    -- is made; if the gateway answers with an id, that id is returned.
    pub add_paragraph_accepted :
        (nb title body interpreter id : Str) (w : History)
        → IsOpaqueId s.max_opaque_id_chars nb
        → length title ≤ s.max_paragraph_title_chars
        → IsBody s.max_paragraph_body_bytes body
        → parse_paragraph_interpreter body ≡ ok (some interpreter)
        → All (Passes interpreter body) s.safety_hook
        → gateway.added_paragraph w ≡ ok id
        → do_add_paragraph encode_error_text correlation_id gateway s
            (text nb)
            (text title)
            (text body)
            w
          ≡ (
            ok (record {
              notebook_id = nb;
              paragraph_id = id;
              title = title;
              interpreter = interpreter;
            }),
            w ++ add_paragraph nb title body ∷ [],
          )
    unfolding do_add_paragraph ◌then_do◌ return perform paragraph_arguments or_explained declared
    add_paragraph_accepted nb title body interpreter id w safe_id short safe_body parsed passes
          answer =
        rw (
          validate_opaque_id-accepts s.max_opaque_id_chars nb safe_id,
          validate_paragraph_title-accepts s.max_paragraph_title_chars title short,
          validate_paragraph_body-accepts s.max_paragraph_body_bytes body safe_body,
          parsed,
          (enforce_iff s.safety_hook interpreter body).1 passes,
          answer,
        )

    -- A paragraph with acceptable arguments that some checker of the safety hook refuses, and every
    -- checker before it lets pass, raises a categorized INVALID_INPUT error, which carries the message
    -- of that checker whatever the later ones say, and the gateway is not called.
    pub add_paragraph_refused :
        (nb title body interpreter : Str) (before after : List ParagraphChecker)
        (check : ParagraphChecker) (reason : ValueError) (w : History)
        → IsOpaqueId s.max_opaque_id_chars nb
        → length title ≤ s.max_paragraph_title_chars
        → IsBody s.max_paragraph_body_bytes body
        → parse_paragraph_interpreter body ≡ ok (some interpreter)
        → s.safety_hook ≡ before ++ check ∷ after
        → All (Passes interpreter body) before
        → check interpreter body ≡ err reason
        → do_add_paragraph encode_error_text correlation_id gateway s
            (text nb)
            (text title)
            (text body)
            w
          ≡ (
            err (
                zeppelin_gateway_error (record {
                  category = ErrorCategory.invalid_input;
                  operation = ToolOperation.add_paragraph;
                  retryable = false;
                  identifiers = [];
                  explanation = some (error_text encode_error_text reason);
                  message = error_message ErrorCategory.invalid_input;
                  correlation_id = correlation_id;
                })),
            w,
          )
    unfolding do_add_paragraph ◌then_do◌ return perform paragraph_arguments or_explained declared
        invalid_input gateway_error create checked_identifiers
    add_paragraph_refused nb title body interpreter before after check reason w safe_id short
          safe_body parsed hook passed refused =
        rw
          (
            validate_opaque_id-accepts s.max_opaque_id_chars nb safe_id,
            validate_paragraph_title-accepts s.max_paragraph_title_chars title short,
            validate_paragraph_body-accepts s.max_paragraph_body_bytes body safe_body,
            parsed,
            hook,
            enforce-first_refusal before after check interpreter body reason passed refused,
          )
          refl

    outcome_total :
        (ids : Str × Str) (status : ParagraphStatus) (outputs : List OutputItem)
        (error : Option SafeErrorDetail) (truncated : Bool)
        → (status ≡ ParagraphStatus.finished) ⊎ (status ≡ ParagraphStatus.error)
        → (r : ParagraphResult) × (paragraph_outcome encode_error_text correlation_id gateway s ids
              (status, outputs, error, truncated)
            ≡ ok r)
          × (r.status ≡ status)
          × (r.outputs ≡ outputs)
          × (r.truncated ≡ truncated)
    unfolding paragraph_outcome check_state_consistency
    outcome_total ids ParagraphStatus.finished outputs error truncated h =
        (outcome ids ParagraphStatus.finished outputs none truncated, refl, refl, refl, refl)
    outcome_total ids ParagraphStatus.error outputs error truncated h =
        let (d, e, given) = safe_error-some encode_error_text correlation_id gateway s error in
        (outcome ids ParagraphStatus.error outputs (some d) truncated, rw e refl, refl, refl, refl)
    outcome_total ids ParagraphStatus.pending outputs error truncated h = elim h [
      | inl e ↦ cc
      | inr e ↦ cc
    ]
    outcome_total ids ParagraphStatus.running outputs error truncated h = elim h [
      | inl e ↦ cc
      | inr e ↦ cc
    ]
    outcome_total ids ParagraphStatus.cancelled outputs error truncated h = elim h [
      | inl e ↦ cc
      | inr e ↦ cc
    ]
    outcome_total ids ParagraphStatus.unknown outputs error truncated h = elim h [
      | inl e ↦ cc
      | inr e ↦ cc
    ]

    -- For acceptable ids, an answer of the gateway that is finished or failed is returned, with its
    -- status, its outputs and its mark of truncation unchanged.
    pub get_paragraph_result_total :
        (nb pid : Str) (w : History)
        (answer : ParagraphStatus × List OutputItem × Option SafeErrorDetail × Bool)
        → IsOpaqueId s.max_opaque_id_chars nb
        → IsOpaqueId s.max_opaque_id_chars pid
        → gateway.paragraph_result w ≡ ok answer
        → (answer.0 ≡ ParagraphStatus.finished) ⊎ (answer.0 ≡ ParagraphStatus.error)
        → (r : ParagraphResult) × ((do_get_paragraph_result encode_error_text correlation_id gateway
              s
              (text nb)
              (text pid)
              w).0
            ≡ ok r)
          × (r.status ≡ answer.0)
          × (r.outputs ≡ answer.1)
          × (r.truncated ≡ answer.3)
    unfolding do_get_paragraph_result ◌then_do◌ return perform paragraph_ids or_invalid
    get_paragraph_result_total nb pid w answer safe_nb safe_pid e h =
        rw
          (
            validate_opaque_id-accepts s.max_opaque_id_chars nb safe_nb,
            validate_opaque_id-accepts s.max_opaque_id_chars pid safe_pid,
            e,
          )
          (outcome_total (nb, pid) answer.0 answer.1 answer.2 answer.3 h)
