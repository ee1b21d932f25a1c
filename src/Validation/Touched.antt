-- ===== src/Validation/Touched.antt =====
-- The fast check of touched files (`run_touched` of
-- services/agentd-py/agentd/validation/command_validator.py), by the parser of each language.
use shadow_forge.Base.{
  String, Bool, true, false, List, [], ◌∷◌, ◌++◌, Option, none, some, if◌then◌else◌, any, map,
}
use shadow_forge.Text.{Text, codes, strip, text_eq}
use shadow_forge.Validation.{
  Report, escapes, compile_failed, parse_timed_out, parse_failed, no_node, typescript_timed_out,
  typescript_unavailable, no_rustfmt, error, warning, Diagnostic, Outcome, timed_out, exited,
  is_zero, is_written, output_of, output_or, ValidationResult, result_of,
}

-- The file system, the compiler and the parsers, for paths relative to the workspace.
pub record Tools : Type 0 where
  -- The resolved path lies in the resolved root.
  pub is_inside : Text → Bool
  -- `path.exists() and path.is_file()`
  pub is_file : Text → Bool
  pub suffix : Text → Text
  -- The words of the exception of reading and compiling the file.
  pub compile : Text → Option Text
  -- `shutil.which` finds the program.
  pub has_node : Bool
  pub has_rustfmt : Bool
  -- The process that resolves the package of TypeScript.
  pub resolve_typescript : Outcome
  pub parse_typescript : Text → Outcome
  pub parse_rust : Text → Outcome

-- `ts_available`, not yet known at first, and `rustfmt_warned`
pub record Known : Type 0 where
  pub ts_available : Option Bool
  pub rustfmt_warned : Bool

abbrev pub at_file : String → Text → Report → Diagnostic
at_file source relative_path message = record {
  source = codes source;
  message = message;
  level = error;
  file = some relative_path;
}

abbrev pub general : String → Report → Diagnostic
general source message = record {
  source = codes source;
  message = message;
  level = warning;
  file = none;
}

-- What a parser reports of a file
unfoldable pub parse_report : String → Text → Outcome → List Diagnostic
unfolding output_of
parse_report source path timed_out = at_file source path (parse_timed_out path) ∷ []
parse_report source path (exited returncode stdout stderr) =
    if is_zero returncode
    then []
    else at_file source path (output_or (output_of stdout stderr) (parse_failed path)) ∷ []

abbrev pub default_details : Text
default_details = codes "typescript package is not resolvable from workspace"

-- The reason why TypeScript is not available, if it is not
unfoldable pub why_unavailable : Outcome → Option Report
why_unavailable timed_out = some typescript_timed_out
why_unavailable (exited returncode stdout stderr) =
    if is_zero returncode
    then none
    else some (
        typescript_unavailable
          (if is_written (strip stderr) then strip stderr else default_details))

unfoldable pub check_typescript_fast_support : Tools → Option Report
unfolding why_unavailable
check_typescript_fast_support tools =
    if tools.has_node then why_unavailable tools.resolve_typescript else some no_node

abbrev pub python_report : Text → Option Text → List Diagnostic
python_report path none = []
python_report path (some words) =
    at_file "validator:fast-python-compile" path (compile_failed path words) ∷ []

unfoldable pub check_python : Tools → Text → List Diagnostic
check_python tools path = python_report path (tools.compile path)

-- `_run_typescript_fast_parse`
unfoldable pub run_typescript_fast_parse : Tools → Text → List Diagnostic
unfolding parse_report
run_typescript_fast_parse tools path =
    if tools.has_node
    then parse_report "validator:fast-typescript-parse" path (tools.parse_typescript path)
    else []

-- The first file of TypeScript, with the reason why its parser is not available
abbrev pub first_typescript : Tools → Text → Known → Option Report → List Diagnostic × Known
first_typescript tools path known none =
    (run_typescript_fast_parse tools path, record known { ts_available = some true })
first_typescript tools path known (some reason) =
    (general "validator:fast-typescript" reason ∷ [], record known { ts_available = some false })

-- What `ts_available` says decides.
abbrev pub by_available : Tools → Text → Known → Option Bool → List Diagnostic × Known
by_available tools path known (some true) = (run_typescript_fast_parse tools path, known)
by_available tools path known (some false) = ([], known)
by_available tools path known none =
    first_typescript tools path known (check_typescript_fast_support tools)

-- A file of TypeScript: whether the parser is available is asked once.
unfoldable pub check_typescript : Tools → Text → Known → List Diagnostic × Known
check_typescript tools path known = by_available tools path known known.ts_available

-- A file of Rust: a missing parser is reported once.
unfoldable pub check_rust : Tools → Text → Known → List Diagnostic × Known
unfolding parse_report
check_rust tools path known =
    if tools.has_rustfmt
    then (parse_report "validator:fast-rust-parse" path (tools.parse_rust path), known)
    else if known.rustfmt_warned
    then ([], known)
    else (general "validator:fast-rust" no_rustfmt ∷ [], record known { rustfmt_warned = true })

pub data Language : Type 0 where
  python typescript rust other : Language

unfoldable pub language_of : Text → Language
language_of suffix =
    if text_eq suffix (codes ".py")
    then python
    else if any (text_eq suffix) (map codes (".ts" ∷ ".tsx" ∷ ".mts" ∷ ".cts" ∷ []))
    then typescript
    else if text_eq suffix (codes ".rs")
    then rust
    else other

abbrev pub check_language : Tools → Language → Text → Known → List Diagnostic × Known
check_language tools python path known = (check_python tools path, known)
check_language tools typescript path known = check_typescript tools path known
check_language tools rust path known = check_rust tools path known
check_language tools other path known = ([], known)

-- One round of the loop
unfoldable pub check_touched_file : Tools → Text → Known → List Diagnostic × Known
unfolding check_python check_typescript check_rust language_of
check_touched_file tools path known =
    if tools.is_inside path
    then if tools.is_file path
      then check_language tools (language_of (tools.suffix path)) path known
      else ([], known)
    else (at_file "validator:fast" path (escapes path) ∷ [], known)

unfoldable pub check_touched_files : Tools → List Text → Known → List Diagnostic
unfolding check_touched_file
check_touched_files tools [] known = []
check_touched_files tools (path ∷ paths) known =
    let r = check_touched_file tools path known in r.0 ++ check_touched_files tools paths r.1

unfoldable pub run_touched : Tools → List Text → ValidationResult
unfolding check_touched_files
run_touched tools touched_files = result_of (
    check_touched_files tools touched_files
      (record { ts_available = none; rustfmt_warned = false }))
