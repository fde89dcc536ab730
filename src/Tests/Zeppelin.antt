-- ===== src/Tests/Zeppelin.antt =====
-- Runs of the notebook plugin, and its theorems at concrete inputs.
use etl_mcp_suite.Zeppelin.Completeness.{
  add_paragraph_refused, get_paragraph_result_total, add_paragraph_accepted,
}
use etl_mcp_suite.Errors.{ErrorCategory, ToolOperation, error_message}
use etl_mcp_suite.Zeppelin.Validators.{
  ValueError, command_of_lines, status_map, status_of, is_interpreter_char, is_interpreter_name,
  shebang_of_line, ParagraphStatus, shebang_of_lines, validate_sh_command,
  normalize_paragraph_status, parse_paragraph_interpreter,
}
use etl_mcp_suite.Zeppelin.Gateway.{zeppelin_gateway_error, other, GatewayCall, ZeppelinGateway}
use etl_mcp_suite.Text.{
  mem_str, str_eq, join, starts_with, first_word, upper_char, upper, is_control, char_size,
  encoded_length, is_digit, is_letter, is_space, strip, is_line_break, lines_from, splitlines,
  contains, codes, lower_char, Str,
}
use etl_mcp_suite.Zeppelin.Sql.{
  split_from, leading_keyword, letters, statements, without_block_comments, without_line_comments,
  sql_forbidden_keyword_checker, strip_sql_noise,
}
use etl_mcp_suite.Zeppelin.Requests.{HasSafeCalls}
use etl_mcp_suite.Zeppelin.Tree.{
  to_node, segments_from, segments, change_child, insert_all, find-insert_other, find-insert,
  childless, insert, find, build_notebook_tree,
}
use etl_mcp_suite.Zeppelin.Requests.Safe.{notebook_handle-HasSafeCalls}
use etl_mcp_suite.Zeppelin.Interpreters.{Request, handle, do_get_interpreter_bindings}
use etl_mcp_suite.Zeppelin.Answers.{
  get_interpreter_bindings-IsBindingView, get_paragraph_result-IsOutcome, IsBindingView, IsOutcome,
}
use etl_mcp_suite.Zeppelin.Models.{node, nil, cons, ParagraphResult}
use etl_mcp_suite.Zeppelin.Safety.{interpreter_allowlist_checker, Passes}
use etl_mcp_suite.Value.{text}
use etl_mcp_suite.Zeppelin.Service.{do_get_paragraph_result, do_add_paragraph, Settings}
use etl_mcp_suite.Zeppelin.Validators.Accepted.{IsOpaqueId, IsBody}
use etl_mcp_suite.Base.{
  ◌≡◌, refl, inr, true, false, none, some, [], ◌∷◌, ◌++◌, map, arith, all, All, ok, err, Ensures,
}
use etl_mcp_suite.Zeppelin.Sql.Forbidden.{
  sql_forbidden_keyword_checker_refuses, ends_word, behind_semicolon,
}
use etl_mcp_suite.Zeppelin.Sql.Plain.{is_plain}

abbrev gateway : ZeppelinGateway
gateway = record {
  notebooks = λ w. ok nil;
  created_notebook = λ w. ok (codes "n1");
  added_paragraph = λ w. ok (codes "p1");
  run_status = λ w. ok ParagraphStatus.running;
  paragraph_status = λ w. ok ParagraphStatus.finished;
  paragraph_result = λ w. ok (ParagraphStatus.error, [], none, false);
  cancelled_paragraph = λ w. ok tt;
  interpreter_bindings = λ w. ok [];
  restarted_interpreter = λ w. err (other 0);
}

abbrev limits : Settings
limits = record {
  safety_hook = interpreter_allowlist_checker (codes "md" ∷ []) ∷ [];
  restartable = codes "spark" ∷ [];
  max_notebook_name_chars = 10;
  max_paragraph_title_chars = 10;
  max_paragraph_body_bytes = 100;
  max_opaque_id_chars = 10;
  max_result_bytes = 1000;
}

abbrev shown : Str → Str
shown s = s

abbrev id : Str
id = codes "id"

-- A line of Markdown.
abbrev note : Str
note = codes "%md" ++ 10 ∷ codes "hello"

program : Unit {0}
unfolding parse_paragraph_interpreter shebang_of_lines shebang_of_line splitlines lines_from
    is_line_break strip is_space is_interpreter_name is_interpreter_char is_letter is_digit
    encoded_length char_size interpreter_allowlist_checker is_control normalize_paragraph_status
    status_of status_map upper upper_char validate_sh_command command_of_lines first_word
    starts_with build_notebook_tree insert_all insert change_child segments segments_from to_node
    strip_sql_noise without_line_comments without_block_comments split_from join contains statements
    leading_keyword letters str_eq mem_str
program = tt

note-md : parse_paragraph_interpreter note ≡ ok (some (codes "md"))
unfolding program
note-md = refl

status_finished : normalize_paragraph_status (text (codes " finished ")) ≡ ParagraphStatus.finished
unfolding program
status_finished = refl

sh-ls :
    validate_sh_command (codes "ls" ∷ []) (codes "%sh" ++ 10 ∷ codes "ls -l")
    ≡ ok (codes "%sh" ++ 10 ∷ codes "ls -l")
unfolding program
sh-ls = refl

tree-two :
    build_notebook_tree ((codes "n1", codes "/etl/daily") ∷ (codes "n2", codes "etl") ∷ [])
    ≡ cons
        (node
          (codes "etl")
          (codes "/etl")
          (some (codes "n2"))
          (cons (node (codes "daily") (codes "/etl/daily") (some (codes "n1")) nil) nil))
        nil
unfolding program
tree-two = refl

noise_removed : strip_sql_noise (codes "%sql" ++ 10 ∷ codes "a/* b */ c -- d") ≡ 10 ∷ codes "a c "
unfolding program
noise_removed = refl

drop_found : leading_keyword (codes "  dRop table t") ≡ codes "DROP"
unfolding program
drop_found = refl

note-IsBody : IsBody 100 note
unfolding program
note-IsBody = (refl, (9, refl, omega arith))

n1-IsOpaqueId : IsOpaqueId 10 (codes "n1")
unfolding program
n1-IsOpaqueId = (refl, omega arith, refl)

note-Passes : All (Passes (codes "md") note) limits.safety_hook
unfolding program
note-Passes = (refl, tt)

notebook_handle-HasSafeCalls_example :
    HasSafeCalls limits
      (handle shown id gateway limits
        (Request.add_paragraph (text (codes "n1")) (text []) (text note))
        []).1
notebook_handle-HasSafeCalls_example =
    notebook_handle-HasSafeCalls shown id gateway limits
      (Request.add_paragraph (text (codes "n1")) (text []) (text note)) [] tt

add_paragraph_accepted_example :
    do_add_paragraph shown id gateway limits (text (codes "n1")) (text []) (text note) [] ≡ (
      ok (record {
        notebook_id = codes "n1";
        paragraph_id = codes "p1";
        title = [];
        interpreter = codes "md";
      }),
      GatewayCall.add_paragraph (codes "n1") [] note ∷ [],
    )
add_paragraph_accepted_example =
    add_paragraph_accepted shown id gateway limits (codes "n1") [] note (codes "md") (codes "p1") []
      n1-IsOpaqueId (omega arith) note-IsBody note-md note-Passes refl

get_paragraph_result-IsOutcome_example :
    Ensures IsOutcome
      (do_get_paragraph_result shown id gateway limits (text (codes "n1")) (text (codes "p1")) []).0
get_paragraph_result-IsOutcome_example =
    get_paragraph_result-IsOutcome shown id gateway limits (text (codes "n1")) (text (codes "p1"))
      []

get_paragraph_result_total_example :
    (r : ParagraphResult) × ((do_get_paragraph_result shown id gateway limits
        (text (codes "n1"))
        (text (codes "n1"))
        []).0
      ≡ ok r)
    × (r.status ≡ ParagraphStatus.error)
    × (r.outputs ≡ [])
    × (r.truncated ≡ false)
get_paragraph_result_total_example =
    get_paragraph_result_total shown id gateway limits (codes "n1") (codes "n1") []
      (ParagraphStatus.error, [], none, false) n1-IsOpaqueId n1-IsOpaqueId refl (inr refl)

get_interpreter_bindings-IsBindingView_example :
    Ensures
      (IsBindingView limits (codes "n1"))
      (do_get_interpreter_bindings shown id gateway limits (text (codes "n1")) []).0
get_interpreter_bindings-IsBindingView_example =
    get_interpreter_bindings-IsBindingView shown id gateway limits (codes "n1") []

find-insert_example :
    find
      (codes "etl" ∷ codes "daily" ∷ [])
      (insert (codes "etl" ∷ codes "daily" ∷ []) (codes "n1") childless)
    ≡ some (codes "n1")
find-insert_example = find-insert (codes "etl") (codes "daily" ∷ []) (codes "n1") childless

find-insert_other_example :
    find (codes "etl" ∷ []) (insert (codes "etl" ∷ codes "daily" ∷ []) (codes "n1") childless)
    ≡ find (codes "etl" ∷ []) childless
find-insert_other_example =
    find-insert_other (codes "etl" ∷ codes "daily" ∷ []) (codes "etl" ∷ []) (codes "n1") childless
      (λ e. cc)

sql_found : contains (codes "sql") (map lower_char (codes "hive.sql")) ≡ true
unfolding program lower_char
sql_found = refl

drop_statement :
    all is_plain (codes "select 1;" ++ (10 ∷ [] ++ codes "drop" ++ codes " table x")) ≡ true
unfolding is_plain
drop_statement = refl

drop_forbidden : mem_str (upper (codes "drop")) (map upper (codes "DROP" ∷ [])) ≡ true
unfolding program
drop_forbidden = refl

drop_word :
    (all is_space (10 ∷ []) ≡ true)
    × (all is_letter (codes "drop") ≡ true)
    × (ends_word (codes " table x") ≡ true)
unfolding is_space is_letter ends_word
drop_word = (refl, refl, refl)

sql_forbidden_keyword_checker_refuses_example :
    (e : ValueError) × (sql_forbidden_keyword_checker
        (codes "DROP" ∷ [])
        (codes "hive.sql")
        (codes "select 1;" ++ (10 ∷ [] ++ codes "drop" ++ codes " table x"))
      ≡ err e)
sql_forbidden_keyword_checker_refuses_example =
    sql_forbidden_keyword_checker_refuses (codes "DROP" ∷ []) (codes "hive.sql") (codes "select 1;")
      (10 ∷ []) (codes "drop") (codes " table x") sql_found drop_statement
      (behind_semicolon (codes "select 1")) drop_word.0 drop_word.1 (λ e. cc e) drop_word.2
      drop_forbidden

-- A command of a shell, whose interpreter is not listed.
abbrev command : Str
command = codes "%sh" ++ 10 ∷ codes "ls"

command-IsBody : IsBody 100 command
unfolding program
command-IsBody = (refl, (6, refl, omega arith))

command-sh : parse_paragraph_interpreter command ≡ ok (some (codes "sh"))
unfolding program
command-sh = refl

command_refused :
    interpreter_allowlist_checker (codes "md" ∷ []) (codes "sh") command
    ≡ err (ValueError.value_error (codes "interpreter 'sh' is not allowlisted"))
unfolding program
command_refused = refl

add_paragraph_refused_example :
    do_add_paragraph shown id gateway limits (text (codes "n1")) (text []) (text command) [] ≡ (
      err (
          zeppelin_gateway_error (record {
            category = ErrorCategory.invalid_input;
            operation = ToolOperation.add_paragraph;
            retryable = false;
            identifiers = [];
            explanation = some (codes "interpreter 'sh' is not allowlisted");
            message = error_message ErrorCategory.invalid_input;
            correlation_id = id;
          })),
      [],
    )
add_paragraph_refused_example =
    add_paragraph_refused shown id gateway limits (codes "n1") [] command (codes "sh") [] []
      (interpreter_allowlist_checker (codes "md" ∷ []))
      (ValueError.value_error (codes "interpreter 'sh' is not allowlisted")) [] n1-IsOpaqueId
      (omega arith) command-IsBody command-sh refl tt command_refused
