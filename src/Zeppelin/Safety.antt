-- ===== src/Zeppelin/Safety.antt =====
-- src/mcp_stdio/plugins/zeppelin/safety.py: the gate in front of every added paragraph.
use etl_mcp_suite.Zeppelin.Validators.{value_error, ValueError, validate_sh_command}
use etl_mcp_suite.Text.{codes, str_eq, mem_str, Str}
use etl_mcp_suite.Base.{
  ◌≡◌, refl, ◌↔◌, List, [], ◌∷◌, ◌++◌, if◌then◌else◌, All, Result, ok, err, ◌>>=◌, ◌>>◌, >>=-eq-ok,
}

-- The `check` of a `ParagraphChecker`, on the interpreter and the body: it returns, or raises the
-- `ValueError` of a rejection.
abbrev pub ParagraphChecker : Type 0
ParagraphChecker = Str → Str → Result ValueError (Unit {0})

-- `InterpreterAllowlistChecker.check`
unfoldable pub interpreter_allowlist_checker : List Str → ParagraphChecker
interpreter_allowlist_checker allowed interpreter body =
    if mem_str interpreter allowed
    then ok tt
    else err (value_error (codes "interpreter '" ++ interpreter ++ codes "' is not allowlisted"))

-- `ShCommandChecker.check`
unfoldable pub sh_command_checker : List Str → ParagraphChecker
sh_command_checker allowed_commands interpreter body =
    if str_eq interpreter (codes "sh")
    then (do command ← validate_sh_command allowed_commands body; ok tt)
    else ok tt

-- `ParagraphSafetyHook.enforce`
unfoldable pub enforce : List ParagraphChecker → Str → Str → Result ValueError (Unit {0})
enforce [] interpreter body = ok tt
enforce (check ∷ checkers) interpreter body = do
  check interpreter body
  enforce checkers interpreter body

-- That a checker lets a paragraph pass.
abbrev pub Passes : Str → Str → ParagraphChecker → Type 0
Passes interpreter body check = check interpreter body ≡ ok tt

-- The checkers before the first that refuses let the paragraph pass, and its error is the hook's.
pub enforce-first_refusal :
    (before after : List ParagraphChecker) (check : ParagraphChecker) (interpreter body : Str)
    (reason : ValueError)
    → All (Passes interpreter body) before
    → check interpreter body ≡ err reason
    → enforce (before ++ check ∷ after) interpreter body ≡ err reason
unfolding enforce
enforce-first_refusal [] after check interpreter body reason h refused = rw refused
enforce-first_refusal (first ∷ before) after check interpreter body reason h refused =
    rw h.0 (enforce-first_refusal before after check interpreter body reason h.1 refused)

-- The hook lets a paragraph pass exactly when every one of its checkers does.
pub enforce_iff :
    (checkers : List ParagraphChecker) (interpreter body : Str)
    → (enforce checkers interpreter body ≡ ok tt) ↔ All (Passes interpreter body) checkers
unfolding enforce
enforce_iff [] interpreter body = (λ _. tt, λ _. refl)
enforce_iff (check ∷ checkers) interpreter body =
    let (f, g) = enforce_iff checkers interpreter body in
    (λ h. let (t, e, k) = >>=-eq-ok (check interpreter body) _ h in (e, f k), λ h. rw (h.0) (g h.1))
