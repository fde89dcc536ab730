-- ===== src/Zeppelin/Answers.antt =====
-- What the notebook service answers.
use etl_mcp_suite.Effects.{Gives-return, Gives-check, Gives-then}
use etl_mcp_suite.Zeppelin.Requests.{or_identified-ok}
use etl_mcp_suite.Zeppelin.Validators.Accepted.{validate_opaque_id-ok}
use etl_mcp_suite.Zeppelin.Validators.{validate_opaque_id, ParagraphStatus}
use etl_mcp_suite.Errors.{ToolOperation}
use etl_mcp_suite.Zeppelin.Service.{
  or_identified, validated, do_get_paragraph_result, paragraph_outcome, safe_error, Settings,
}
use etl_mcp_suite.Base.{
  sym, subst, ◌∙◌, ◌>>=◌, length, leb, ◌&&◌, arith, ltb, ℕ, ◌≤◌, ◌≡◌, refl, ◌⊎◌, inl, inr, Bool,
  true, false, Option, none, some, List, [], ◌∷◌, map, Bool-cases, is_empty, All, Result, ok,
  Ensures, returns, raises, Ensures-if, Ensures-bind,
}
use etl_mcp_suite.Zeppelin.Models.{
  Invalid, is_binding_text, InterpreterBinding, interpreter_bindings_result, is_binding,
  InterpreterBindingRecord, interpreter_binding, OutputItem, SafeErrorDetail,
  check_state_consistency, safe_error_detail, all_different, InterpreterBindingsResult,
  ParagraphResult,
}
use etl_mcp_suite.Value.{text, Value}
use etl_mcp_suite.Zeppelin.Interpreters.{do_get_interpreter_bindings, within_limit, bindings_of}
use etl_mcp_suite.Text.{codes, char_size, encoded_length, mem_str, Str}
use etl_mcp_suite.Zeppelin.Json.{json_result}
use etl_mcp_suite.Zeppelin.Gateway.{History, ZeppelinGateway}

-- A finished paragraph has no error, and a failed one has an error with a message.
abbrev pub IsOutcome : ParagraphResult → Type 0
IsOutcome r =
    ((r.status ≡ ParagraphStatus.finished) × (r.error ≡ none))
    ⊎ ((r.status ≡ ParagraphStatus.error)
        × ((d : SafeErrorDetail) × (r.error ≡ some d) × (is_empty d.message ≡ false)))

-- Bindings with different setting ids, which say of each setting whether its restart is listed.
abbrev pub IsBindingView : Settings → Str → InterpreterBindingsResult → Type 0
IsBindingView s nb r =
    (r.notebook_id ≡ nb)
    × (all_different (map (λ b. b.setting_id) r.bindings) ≡ true)
    × All (λ b. b.restart_allowed ≡ mem_str b.setting_id s.restartable) r.bindings
    × ((n : ℕ) × (encoded_length (json_result r) ≡ some n) × (n ≤ s.max_result_bytes))

Ensures-validated :
    {A : Type 0} {P : A → Type 0} {r : Result Invalid A} → Ensures P r → Ensures P (validated r)
Ensures-validated (returns h) = returns h
Ensures-validated raises = raises

module _ (encode_error_text : Str → Str) (correlation_id : Str) where
  module _ (gateway : ZeppelinGateway) (s : Settings) where
    pub safe_error-some :
        (o : Option SafeErrorDetail)
        → (d : SafeErrorDetail) × (safe_error encode_error_text correlation_id gateway s o ≡ ok d)
          × (is_empty d.message ≡ false)
    unfolding safe_error safe_error_detail encoded_length char_size
    safe_error-some none = (record { message = codes "paragraph execution failed" }, refl, refl)
    safe_error-some (some e) = elim (Bool-cases (is_empty e.message)) [
      | inl none_given ↦
          (record { message = codes "paragraph execution failed" }, rw none_given refl, refl)
      | inr given ↦ (e, rw given refl, given)
    ]

    pub paragraph_outcome-IsOutcome :
        (ids : Str × Str) (status : ParagraphStatus) (outputs : List OutputItem)
        (error : Option SafeErrorDetail) (truncated : Bool)
        → Ensures IsOutcome (
            paragraph_outcome encode_error_text correlation_id gateway s ids
              (status, outputs, error, truncated))
    unfolding paragraph_outcome check_state_consistency
    paragraph_outcome-IsOutcome ids ParagraphStatus.finished outputs error truncated =
        returns (inl (refl, refl))
    paragraph_outcome-IsOutcome ids ParagraphStatus.error outputs error truncated =
        let (d, e, given) = safe_error-some error in rw e (returns (inr (refl, (d, refl, given))))
    paragraph_outcome-IsOutcome ids ParagraphStatus.pending outputs error truncated = raises
    paragraph_outcome-IsOutcome ids ParagraphStatus.running outputs error truncated = raises
    paragraph_outcome-IsOutcome ids ParagraphStatus.cancelled outputs error truncated = raises
    paragraph_outcome-IsOutcome ids ParagraphStatus.unknown outputs error truncated = raises

    -- A paragraph result that is returned is either finished, with no error, or failed, with an error
    -- whose message is not empty, whatever the gateway answers.
    pub get_paragraph_result-IsOutcome :
        (nb pid : Value) (w : History)
        → Ensures IsOutcome
            (do_get_paragraph_result encode_error_text correlation_id gateway s nb pid w).0
    unfolding do_get_paragraph_result
    get_paragraph_result-IsOutcome nb pid =
        (Gives-check (λ ids e. Gives-then _ (λ answer.
          Gives-return
            (paragraph_outcome-IsOutcome ids answer.0 answer.1 answer.2 answer.3)))).gives

    bindings_of-flags :
        (records : List InterpreterBindingRecord)
        → Ensures
            (λ bs. All (λ b. b.restart_allowed ≡ mem_str b.setting_id s.restartable) bs)
            (bindings_of encode_error_text correlation_id gateway s records)
    unfolding bindings_of interpreter_binding
    bindings_of-flags [] = returns tt
    bindings_of-flags (r ∷ records) =
        Ensures-bind
          (Ensures-if (is_binding r.setting_id r.name r.interpreters) (λ _. returns refl)
            (λ _. raises))
          (λ b flag. Ensures-bind (bindings_of-flags records) (λ bs flags. returns (flag, flags)))

    within_limit-IsBindingView :
        (ids : List (Str × Str)) (nb : Str) (r : InterpreterBindingsResult)
        → r.notebook_id ≡ nb
        → all_different (map (λ b. b.setting_id) r.bindings) ≡ true
        → All (λ b. b.restart_allowed ≡ mem_str b.setting_id s.restartable) r.bindings
        → (size : Option ℕ) → encoded_length (json_result r) ≡ size
        → Ensures
            (IsBindingView s nb)
            (within_limit encode_error_text correlation_id gateway s ids r size)
    unfolding within_limit
    within_limit-IsBindingView ids nb r same different flags none e = raises
    within_limit-IsBindingView ids nb r same different flags (some n) e =
        Ensures-if (ltb s.max_result_bytes n) (λ _. raises)
          (λ small. returns (same, different, flags, (n, e, ground arith)))

    -- The check of the model.
    result-ok :
        (nb : Str) (bindings : List InterpreterBinding)
        → Ensures
            (λ r.
              (r.notebook_id ≡ nb)
              × (r.bindings ≡ bindings)
              × (all_different (map (λ b. b.setting_id) bindings) ≡ true))
            (validated (interpreter_bindings_result nb bindings))
    unfolding interpreter_bindings_result
    result-ok nb bindings =
        elim (Bool-cases (
          is_binding_text 4096 nb
          && leb (length bindings) 256
          && all_different (map (λ b. b.setting_id) bindings))) [
            | inl h ↦ rw h (returns (refl, refl, ground (arith, h)))
            | inr h ↦ rw h raises
          ]

    bindings-IsBindingView :
        (ids : List (Str × Str)) (nb valid : Str) (records : List InterpreterBindingRecord)
        → valid ≡ nb
        → Ensures (IsBindingView s nb) (do
          bindings ← validated (bindings_of encode_error_text correlation_id gateway s records)
          result ← validated (interpreter_bindings_result valid bindings)
          within_limit encode_error_text correlation_id gateway s ids result
              (encoded_length (json_result result)))
    bindings-IsBindingView ids nb valid records same =
        Ensures-bind (Ensures-validated (bindings_of-flags records)) (λ bs flags.
          Ensures-bind (result-ok valid bs) (λ r (named, eq, different).
            within_limit-IsBindingView ids nb r (named ∙ same)
              (subst (λ l. all_different (map (λ b. b.setting_id) l) ≡ true) (sym eq) different)
              (subst (All (λ b. b.restart_allowed ≡ mem_str b.setting_id s.restartable)) (sym eq)
                flags)
              _ refl))

    valid_same :
        (nb valid : Str) (ids : List (Str × Str))
        → or_identified encode_error_text correlation_id ToolOperation.get_interpreter_bindings ids
            (validate_opaque_id s.max_opaque_id_chars (text nb))
          ≡ ok valid
        → valid ≡ nb
    valid_same nb valid ids e =
        let (same, _) = validate_opaque_id-ok _ _ _ (or_identified-ok _ _ _ _ _ _ e) in ground arith

    -- Interpreter bindings that are returned are of the requested notebook, have different setting
    -- ids, allow the restart of exactly the settings that are listed, and fit their bytes as JSON.
    pub get_interpreter_bindings-IsBindingView :
        (nb : Str) (w : History)
        → Ensures
            (IsBindingView s nb)
            (do_get_interpreter_bindings encode_error_text correlation_id gateway s (text nb) w).0
    unfolding do_get_interpreter_bindings
    get_interpreter_bindings-IsBindingView nb =
        (Gives-check (λ valid e. Gives-then _ (λ records.
          Gives-return
            (bindings-IsBindingView _ nb valid records (valid_same nb valid _ e))))).gives
