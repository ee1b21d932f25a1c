-- ===== src/Loop/Tests.antt =====
-- Runs of the tool loop with a scripted model.
use shadow_forge.Base.{
  ℕ, ◌≤◌, ◌≡◌, refl, ◌≢◌, true, false, List, [], ◌∷◌, Option, none, some, ok, length, String,
}
use shadow_forge.Text.{codes}
use shadow_forge.Verify.{
  read_file, run_command, search_code, ActionType, tool_call, emit_patch_action, verify_done_action,
  new, transition, allowed_tools, allowed_action_types, check_patch_dedup, record_patch_attempt,
}
use shadow_forge.Loop.{
  RawOp, object, Response, StepOutcome, verify_result, reported, tool_budget_exceeded,
  invalid_transition, Collaborators, Settings, LoopState, finished, raised, Call, append_missing,
  build_patch_key, is_command_only_step, extract_out_of_scope_files,
}
use shadow_forge.Loop.Run.{run}
use shadow_forge.Loop.Run.Follows.{command_only, run-Ends}
use shadow_forge.Loop.Bounds.{trace_of, run-trace_of, run-defined}
use shadow_forge.Loop.Verified.{document_of, has_passed, run-has_passed}
use shadow_forge.Loop.Patched.{run-document_of}
use shadow_forge.Loop.Patch.Follows.{WasApplied}
use shadow_forge.Loop.Moves.{opening, Ends}

-- The surroundings are the responses that the model has left; a model with none is malformed.
abbrev Script : Type 0
Script = List Response

abbrev next_response : Script → Script × Option Response
next_response [] = ([], none)
next_response (response ∷ others) = (others, some response)

-- Every patch applies and is clean, and no call fails.
abbrev easy : Collaborators Script (List RawOp) ℕ
easy = record {
  abort_is_set = λ w. false;
  prepare_turn = λ w history.
      (w, record { history = history; compacted = false; evicted_count = 0; anchor_version = 0 });
  definitions = λ explore. read_file ∷ search_code ∷ run_command ∷ [];
  create_tool_step = λ w history tools types. next_response w;
  model_validate = λ ops. ok (ops ∷ []);
  apply_patch_candidate = λ w ops allowed. (w, ok ("a.py" ∷ []));
  scope_extension_callback =
      λ w files thought. (w, record { approve = false; extended_files = []; reason = "no" });
  use_shadow_for_reads = λ w. w;
  collect_baseline = λ w files. 0;
  analyze = λ w files baseline. (w, ([], true));
  execute = λ w tool args. (w, record { output = codes "done"; is_error = false });
  is_dir = λ w path. false;
  installer = record {
    read_profile = λ w. none;
    mtime = λ w path. none;
    setup_env = λ w command cwd. (w, false);
  };
}

abbrev settings : List String → Settings
settings targets = record {
  has_patch_engine = true;
  has_shadow_path = true;
  has_shadow_root = true;
  has_real_root = true;
  skip_verify = false;
  env_profile = none;
  max_tool_calls_per_step = 2;
  max_verify_calls_per_step = 1;
  max_output_inject_chars = 100;
  prior_step_files = [];
  step_targets = targets;
}

abbrev response_of : ActionType → Response
response_of type = record {
  type = some type;
  thought = "";
  verified = true;
  test_output = "";
  step_summary = "";
  reason = "";
  evidence = "";
  affected_steps = [];
  patch_ops = some (object "op" (some "a.py") ∷ []);
  tool = some run_command;
  args = "{}";
  path = "";
}

abbrev patch_then_done : Script
patch_then_done = response_of emit_patch_action ∷ response_of verify_done_action ∷ []

abbrev command_then_done : Script
command_then_done =
    response_of verify_done_action ∷ response_of tool_call ∷ response_of verify_done_action ∷ []

abbrev one_op : List RawOp
one_op = object "op" (some "a.py") ∷ []

abbrev code_step : Settings
code_step = settings ("a.py" ∷ [])

abbrev command_step : Settings
command_step = settings []

abbrev code_outcome : StepOutcome
code_outcome = verify_result (some one_op) ("a.py" ∷ []) true (reported "") "" []

abbrev passing_call : Call
passing_call = record { tool = run_command; args = "{}"; output = codes "done"; is_error = false }

abbrev command_outcome : StepOutcome
command_outcome = verify_result none [] true (reported "") "" (passing_call ∷ [])

code_run :
    (st : LoopState Script ℕ) × (run easy code_step patch_then_done [] 0 ≡ finished code_outcome st)
unfolding run transition allowed_tools allowed_action_types check_patch_dedup record_patch_attempt
    new append_missing build_patch_key is_command_only_step
code_run = (_, refl)

-- The first response claims what the machine does not yet admit.
command_run :
    (st : LoopState Script ℕ) × (run easy command_step command_then_done [] 0
      ≡ finished command_outcome st)
unfolding run transition allowed_tools allowed_action_types check_patch_dedup record_patch_attempt
    new append_missing build_patch_key is_command_only_step
command_run = (_, refl)

is_command_step : command_only easy command_step command_then_done ≡ true
unfolding is_command_only_step
is_command_step = refl

is_code_step : command_only easy code_step patch_then_done ≡ false
unfolding is_command_only_step
is_code_step = refl

-- A model that only sends what cannot be parsed uses up the rounds.
silent_run :
    (st : LoopState Script ℕ) × (run easy code_step [] [] 0 ≡ raised tool_budget_exceeded st)
unfolding run transition allowed_tools allowed_action_types check_patch_dedup record_patch_attempt
    new append_missing build_patch_key is_command_only_step
silent_run = (_, refl)

out_of_scope_found :
    extract_out_of_scope_files
      (codes "Patch op targets file outside current step scope: src/a.py, and more")
    ≡ codes "src/a.py" ∷ []
unfolding extract_out_of_scope_files
out_of_scope_found = refl

run-Ends_example :
    Ends code_step
      (WasApplied easy code_step)
      (opening (command_only easy code_step patch_then_done) 0)
      (run easy code_step patch_then_done [] 0)
run-Ends_example = run-Ends easy code_step patch_then_done [] 0

run-trace_of_example : length (trace_of command_outcome) ≤ 3
run-trace_of_example =
    run-trace_of easy command_step command_then_done [] 0 command_outcome command_run.0
      command_run.1

run-defined_example :
    run easy command_step command_then_done [] 0 ≢ raised invalid_transition command_run.0
run-defined_example = run-defined easy command_step command_then_done [] 0 command_run.0

run-has_passed_example : has_passed (trace_of command_outcome) ≡ true
run-has_passed_example =
    run-has_passed easy command_step command_then_done [] 0 command_outcome command_run.0
      is_command_step refl command_run.1 refl

run-document_of_example :
    (ops : List RawOp) × (document_of code_outcome ≡ some ops) × WasApplied easy code_step ops
run-document_of_example =
    run-document_of easy code_step patch_then_done [] 0 code_outcome code_run.0 is_code_step refl
      code_run.1 refl
