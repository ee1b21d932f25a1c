-- ===== src/Loop.antt =====
-- The tool loop of a plan step (services/agentd-py/agentd/tools/loop.py): what it is given, what it
-- keeps while it runs, and how it ends. Loop.Patch is the branch of `emit_patch`, Loop.Calls the
-- branch of `tool_call`, and Loop.Run one iteration and the loop.
pub mod Patch
pub mod Calls
pub mod Run
pub mod Moves
pub mod Bounds
pub mod Verified
pub mod Patched
mod Tests
use shadow_forge.Base.{
  ℕ, zero, suc, String, Bool, true, false, not, ◌&&◌, ◌||◌, List, [], ◌∷◌, ◌++◌, Option, none, some,
  ◌==◌, if◌then◌else◌, Result, has_name, any, length, drop, ◌+◌, ◌-◌,
}
use shadow_forge.Text.{Text, codes, contains, starts_with, ends_with, is_space, lstrip}
use shadow_forge.Env.{EnvEcosystemEntry, Installer, InstallEvent}
use shadow_forge.Verify.{
  VerifyPhaseState, VerifyPhaseEvent, VerifyPhaseStateMachine, Tool, PatchKey, ActionType,
}

-- An op of a patch as the model sends it: its JSON text with sorted keys and its file, or a value
-- that is no object.
pub data RawOp : Type 0 where
  object : String → Option String → RawOp
  other_value : RawOp

-- A parsed response. Its `type` is none if it is not one of the four types, its `patch_ops` are none
-- if they are no list, and its `tool` is none if no state offers a tool of that name. The
-- arguments are their JSON text with sorted keys, beside the one at "path".
pub record Response : Type 0 where
  pub type : Option ActionType
  pub thought : String
  pub verified : Bool
  pub test_output : String
  pub step_summary : String
  pub reason : String
  pub evidence : String
  pub affected_steps : List String
  pub patch_ops : Option (List RawOp)
  pub tool : Option Tool
  pub args : String
  pub path : String

-- `ToolOutput`
pub record ToolOutput : Type 0 where
  pub output : Text
  pub is_error : Bool

pub record ScopeDecision : Type 0 where
  pub approve : Bool
  pub extended_files : List String
  pub reason : String

-- What a rejected or failed turn tells the model, without the wording.
pub data Feedback : Type 0 where
  parse_error action_gate verify_guard duplicate_patch tool_gate repeated_call : Feedback
  failed_after_extension patch_refused : Text → Feedback
  scope_refused : Text → String → Feedback
  applied : List String → Text → Feedback

-- An entry of the history.
pub data Entry : Type 0 where
  assistant_turn : Response → Entry
  malformed_turn rejected_turn : Entry
  told : Feedback → Entry
  tool_result : Tool → Text → Entry

-- What is broadcast. The cuts of long texts, the thoughts and the arguments are left out.
pub data LoopEvent : Type 0 where
  memory_compacted : ℕ → ℕ → LoopEvent
  revision : String → String → LoopEvent
  failed_patch : Text → LoopEvent
  applied_patch : List String → LoopEvent
  called : Tool → ℕ → LoopEvent
  answered : Tool → Text → Bool → ℕ → LoopEvent
  installed : InstallEvent → LoopEvent

-- The `test_output` of a result: the model's, or what the loop says itself.
pub data TestOutput : Type 0 where
  reported : String → TestOutput
  no_output retries_exhausted : TestOutput
  verify_budget_exhausted : ℕ → TestOutput

-- A call and its result in the trace.
pub record Call : Type 0 where
  pub tool : Tool
  pub args : String
  pub output : Text
  pub is_error : Bool

pub data StepOutcome : Type 0 where
  verify_result :
      Option (List RawOp) → List String → Bool → TestOutput → String → List Call → StepOutcome
  plan_handoff : String → String → List String → List Call → StepOutcome

pub data Raised : Type 0 where
  task_aborted tool_budget_exceeded invalid_transition : Raised

-- What `prepare_turn` of the memory returns.
pub record Prepared : Type 0 where
  pub history : List Entry
  pub compacted : Bool
  pub evicted_count : ℕ
  pub anchor_version : ℕ

-- The loop's collaborators, given to its constructor, over the state of all that surrounds it.
pub record Collaborators (World Candidate Baseline : Type 0) : Type 0 where
  pub abort_is_set : World → Bool
  pub prepare_turn : World → List Entry → World × Prepared
  pub definitions : Bool → List Tool
  pub create_tool_step : World → List Entry → List Tool → List ActionType → World × Option Response
  pub model_validate : List RawOp → Result Text (List Candidate)
  pub apply_patch_candidate : World → Candidate → List String → World × Result Text (List String)
  pub scope_extension_callback : World → List Text → String → World × ScopeDecision
  pub use_shadow_for_reads : World → World
  pub collect_baseline : World → List String → Baseline
  pub analyze : World → List String → Option Baseline → World × (Text × Bool)
  pub execute : World → Tool → String → World × ToolOutput
  pub is_dir : World → String → Bool
  pub installer : Installer World

-- What is fixed for a step: the options of the constructor, the budget and the step itself. A
-- patch engine is there only with a shadow; the two roots are those of the registry.
pub record Settings : Type 0 where
  pub has_patch_engine : Bool
  pub has_shadow_path : Bool
  pub has_shadow_root : Bool
  pub has_real_root : Bool
  pub skip_verify : Bool
  pub env_profile : Option (List EnvEcosystemEntry)
  pub max_tool_calls_per_step : ℕ
  pub max_verify_calls_per_step : ℕ
  pub max_output_inject_chars : ℕ
  pub prior_step_files : List String
  pub step_targets : List String

-- The variables of `run` beside the surroundings. `targets` are the step's, extended in place, and
-- `context_targets` the copy that `step_context` holds.
pub record LoopState (World Baseline : Type 0) : Type 0 where
  pub world : World
  pub sm : VerifyPhaseStateMachine
  pub history : List Entry
  pub targets : List String
  pub explore_calls : ℕ
  pub verify_calls : ℕ
  pub tool_calls_used : ℕ
  pub last_patch_document : Option (List RawOp)
  pub all_touched_files : List String
  pub pending_install_for_scope : Option String
  pub had_scope_violation : Bool
  pub postpatch_baseline : Option Baseline
  pub seen_tool_calls : List (Tool × String)
  pub prev_sm_state : VerifyPhaseState
  pub patch_succeeded_once : Bool
  pub calls : List Call
  pub events : List LoopEvent

-- What an iteration leads to: the next one, a return, or an exception.
pub data Next (World Baseline : Type 0) : Type 0 where
  again : LoopState World Baseline → Next World Baseline
  finished : StepOutcome → LoopState World Baseline → Next World Baseline
  raised : Raised → LoopState World Baseline → Next World Baseline

-- `if path not in files: files.append(path)`, for every path in turn.
unfoldable pub append_missing : List String → List String → List String
append_missing files [] = files
append_missing files (path ∷ paths) =
    append_missing (if has_name path files then files else files ++ path ∷ []) paths

unfoldable pub build_patch_key : List RawOp → PatchKey
build_patch_key [] = []
build_patch_key (object text file ∷ ops) = text ∷ build_patch_key ops
build_patch_key (other_value ∷ ops) = build_patch_key ops

-- The files that the ops name.
unfoldable pub op_files : List RawOp → List String
op_files [] = []
op_files (object text (some file) ∷ ops) = file ∷ op_files ops
op_files (_ ∷ ops) = op_files ops

-- The characters up to the next white space, comma or semicolon.
pub until_separator : Text → Text
unfolding is_space
until_separator [] = []
until_separator (c ∷ cs) =
    let rest = until_separator cs in
    if is_space c || (c == b',') || (c == b';') then [] else c ∷ rest

abbrev scope_text : Text
scope_text = codes "outside current step scope:"

-- A match of `outside current step scope:\s*([^\s,;]+)` at the front: the file, and the characters
-- that the match takes.
pub scope_file_at : Text → Option (Text × ℕ)
unfolding until_separator lstrip starts_with
scope_file_at t =
    let behind = drop (length scope_text) t in
    let file = until_separator (lstrip behind) in
    if starts_with scope_text t
    then elim file [
      | [] ↦ none
      | c ∷ cs ↦
          some
            (c ∷ cs, length scope_text + (length behind - length (lstrip behind)) + length (c ∷ cs))
    ]
    else none

-- `findall`. The number is how many characters of a match are still to be passed over.
scope_files_from : ℕ → Text → List Text
unfolding scope_file_at
scope_files_from skip [] = []
scope_files_from (suc k) (c ∷ cs) = scope_files_from k cs
scope_files_from zero (c ∷ cs) = elim (scope_file_at (c ∷ cs)) [
  | none ↦ scope_files_from 0 cs
  | some (file, size) ↦ file ∷ scope_files_from (size - 1) cs
]

unfoldable pub extract_out_of_scope_files : Text → List Text
unfolding scope_files_from
extract_out_of_scope_files error_msg = scope_files_from 0 error_msg

-- `"outside current step scope" in error_msg`
unfoldable pub is_scope_error : Text → Bool
unfolding contains
is_scope_error error_msg = contains (codes "outside current step scope") error_msg

-- Nothing to patch: no targets, or folders only.
unfoldable pub is_command_only_step : (String → Bool) → Bool → List String → Bool
unfolding ends_with
is_command_only_step is_dir has_shadow_path [] = true
is_command_only_step is_dir has_shadow_path (path ∷ paths) =
    let rest = is_command_only_step is_dir has_shadow_path paths in
    if ends_with (codes "/") (codes path) || (has_shadow_path && is_dir path) then rest else false
