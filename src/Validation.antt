-- ===== src/Validation.antt =====
-- The validator that runs commands and parsers over a workspace
-- (services/agentd-py/agentd/validation/command_validator.py): its result, the run of all commands,
-- and what a command reports.
--
-- Processes, the file system and the compilers are fields of the records that stand for them. A
-- process gets the commands that have run before it, since these may have changed the workspace.
pub mod Detect
pub mod Touched
pub mod Success
pub mod Files
pub mod Blocking
mod Tests
use shadow_forge.Base.{
  ℕ, zero, suc, String, Bool, true, false, not, List, [], ◌∷◌, ◌++◌, Option, none, some,
  if◌then◌else◌, any, keep, map,
}
use shadow_forge.Text.{Text, codes, join, strip}

-- `ValidationStage`
pub data Stage : Type 0 where
  syntax_stage type_stage lint_stage test_stage : Stage

pub record ValidationCommand : Type 0 where
  pub stage : Stage
  pub name : Text
  pub command : Text
  pub timeout_sec : ℕ
  pub warning_only : Bool

-- A return code of a process: a code of its own, or the signal that ended it, a negative number in
-- the source.
pub data ReturnCode : Type 0 where
  code signal : ℕ → ReturnCode

-- How the wait for a process ends: with its code, its output and its errors, or with the timeout.
pub data Outcome : Type 0 where
  timed_out : Outcome
  exited : (returncode : ReturnCode) (stdout stderr : Text) → Outcome

-- The messages of the validator, with what is put into their words.
pub data Report : Type 0 where
  no_commands : Report
  command_timed_out : (timeout_sec : ℕ) (command : Text) → Report
  command_failed : (returncode : ReturnCode) (command : Text) → Report
  output : Text → Report
  escapes : (relative_path : Text) → Report
  compile_failed : (relative_path words : Text) → Report
  parse_timed_out parse_failed : (relative_path : Text) → Report
  no_node typescript_timed_out : Report
  typescript_unavailable : (details : Text) → Report
  no_rustfmt : Report

pub data Level : Type 0 where
  error warning : Level

pub record Diagnostic : Type 0 where
  pub source : Text
  pub message : Report
  pub level : Level
  pub file : Option Text

-- Without the time that the run takes.
pub record ValidationResult : Type 0 where
  pub success : Bool
  pub diagnostics : List Diagnostic

abbrev pub has_error_level : Diagnostic → Bool
has_error_level d = elim d.level [ error ↦ true | warning ↦ false ]

-- `returncode == 0`
abbrev pub is_zero : ReturnCode → Bool
is_zero (code zero) = true
is_zero (code (suc n)) = false
is_zero (signal n) = false

-- `part.strip()`
abbrev pub is_written : Text → Bool
is_written [] = false
is_written (c ∷ cs) = true

-- What both streams hold, one after the other; `none` if they are blank.
unfoldable pub output_of : Text → Text → Option Text
output_of stdout stderr =
    let joined = join (keep is_written (map strip (stdout ∷ stderr ∷ []))) in
    if is_written joined then some joined else none

-- `output or message`
abbrev pub output_or : Option Text → Report → Report
output_or o message = elim o [ none ↦ message | some text ↦ output text ]

abbrev pub level_of : ValidationCommand → Level
level_of c = if c.warning_only then warning else error

abbrev pub report_of : ValidationCommand → Report → List Diagnostic
report_of c message =
    record {
      source = codes "validator:" ++ c.name;
      message = message;
      level = level_of c;
      file = none;
    }
    ∷ []

-- `_run_command`, with the outcome of its process
unfoldable pub run_command : ValidationCommand → Outcome → List Diagnostic
unfolding output_of
run_command c timed_out = report_of c (command_timed_out c.timeout_sec c.command)
run_command c (exited returncode stdout stderr) =
    if is_zero returncode
    then []
    else report_of c (output_or (output_of stdout stderr) (command_failed returncode c.command))

-- The process of a command, behind the commands that have run.
abbrev pub Shell : Type 0
Shell = List ValidationCommand → ValidationCommand → Outcome

-- The loop of `run`
unfoldable pub run_all : Shell → List ValidationCommand → List ValidationCommand → List Diagnostic
unfolding run_command
run_all shell done [] = []
run_all shell done (c ∷ cs) = run_command c (shell done c) ++ run_all shell (done ++ c ∷ []) cs

-- `configured or detected`: an empty list of configured commands counts as none.
abbrev pub chosen_commands :
    Option (List ValidationCommand) → List ValidationCommand → List ValidationCommand
chosen_commands none detected = detected
chosen_commands (some []) detected = detected
chosen_commands (some (c ∷ cs)) detected = c ∷ cs

abbrev pub result_of : List Diagnostic → ValidationResult
result_of diagnostics = record {
  success = not (any has_error_level diagnostics);
  diagnostics = diagnostics;
}

-- `run` on the commands that are chosen.
unfoldable pub run_commands : Shell → List ValidationCommand → ValidationResult
unfolding run_all
run_commands shell [] = record {
  success = false;
  diagnostics =
      record { source = codes "validator"; message = no_commands; level = error; file = none } ∷ [];
}
run_commands shell (c ∷ cs) = result_of (run_all shell [] (c ∷ cs))

unfoldable pub run :
    Shell → Option (List ValidationCommand) → List ValidationCommand → ValidationResult
unfolding run_commands
run shell configured detected = run_commands shell (chosen_commands configured detected)
