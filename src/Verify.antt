-- ===== src/Verify.antt =====
-- The verify-phase state machine of the tool loop (services/agentd-py/agentd/tools/
-- verify_phase_sm.py). A method returns the new machine; beside an exception stands the machine
-- that the exception leaves behind.
pub mod Retries
pub mod Tools
mod Tests
use shadow_forge.Base.{
  ℕ, suc, ◌+◌, String, Bool, true, false, ◌&&◌, ◌||◌, not, List, [], ◌∷◌, Option, none, some, leb,
  ◌==◌, ◌++◌, str_eq, if◌then◌else◌, any, keep,
}

pub data VerifyPhaseState : Type 0 where
  explore patch_failed_must_read patch_failed_can_retry : VerifyPhaseState
  postpatch_blocking postpatch_clean test_failed test_passed : VerifyPhaseState

-- The events, spelled as in `VerifyPhaseEvent`.
pub data VerifyPhaseEvent : Type 0 where
  patch_failed read_called postpatch_blocking postpatch_clean : VerifyPhaseEvent
  test_passed test_failed : VerifyPhaseEvent

-- `emit_patch`, `run_command`, … : the tools that the tables name.
pub data Tool : Type 0 where
  read_file search_code list_directory search_semantic read_env_profile query_graph : Tool
  emit_patch run_command verify_done find_binary setup_env init_workspace : Tool

abbrev pub tool_rank : Tool → ℕ
tool_rank read_file = 0
tool_rank search_code = 1
tool_rank list_directory = 2
tool_rank search_semantic = 3
tool_rank read_env_profile = 4
tool_rank query_graph = 5
tool_rank emit_patch = 6
tool_rank run_command = 7
tool_rank verify_done = 8
tool_rank find_binary = 9
tool_rank setup_env = 10
tool_rank init_workspace = 11

abbrev pub has_tool : Tool → List Tool → Bool
has_tool t ts = any (λ s. tool_rank s == tool_rank t) ts

abbrev pub max_patch_retries : ℕ
max_patch_retries = 5

-- The table `_TRANSITIONS`.
pub table : VerifyPhaseState → VerifyPhaseEvent → Option VerifyPhaseState
table explore patch_failed = some patch_failed_must_read
table explore postpatch_blocking = some postpatch_blocking
table explore postpatch_clean = some postpatch_clean
table patch_failed_must_read read_called = some patch_failed_can_retry
table patch_failed_must_read patch_failed = some patch_failed_must_read
table patch_failed_can_retry postpatch_blocking = some postpatch_blocking
table patch_failed_can_retry postpatch_clean = some postpatch_clean
table postpatch_blocking patch_failed = some patch_failed_must_read
table postpatch_blocking postpatch_blocking = some postpatch_blocking
table postpatch_blocking postpatch_clean = some postpatch_clean
table postpatch_clean test_failed = some test_failed
table postpatch_clean test_passed = some test_passed
table postpatch_clean patch_failed = some patch_failed_must_read
table postpatch_clean postpatch_clean = some postpatch_clean
table postpatch_clean postpatch_blocking = some postpatch_blocking
table test_failed patch_failed = some patch_failed_must_read
table test_failed postpatch_blocking = some postpatch_blocking
table test_failed postpatch_clean = some postpatch_clean
table test_failed test_failed = some test_failed
table test_failed test_passed = some test_passed
table test_passed patch_failed = some patch_failed_must_read
table test_passed postpatch_clean = some postpatch_clean
table test_passed postpatch_blocking = some postpatch_blocking
table _ _ = none

abbrev explore_tools : List Tool
explore_tools =
    read_file ∷ search_code ∷ list_directory ∷ search_semantic ∷ read_env_profile ∷ query_graph ∷ []

abbrev env_tools : List Tool
env_tools = find_binary ∷ setup_env ∷ init_workspace ∷ []

-- The table `_ALLOWED_TOOLS`. The sets share six tools, written once.
pub tools_of : VerifyPhaseState → List Tool
tools_of explore = explore_tools ++ emit_patch ∷ []
tools_of patch_failed_must_read = explore_tools
tools_of patch_failed_can_retry = explore_tools ++ emit_patch ∷ []
tools_of postpatch_blocking = explore_tools ++ emit_patch ∷ env_tools
tools_of postpatch_clean = explore_tools ++ run_command ∷ verify_done ∷ env_tools
tools_of test_failed = explore_tools ++ emit_patch ∷ run_command ∷ env_tools
tools_of test_passed = explore_tools ++ verify_done ∷ []

-- A patch key is the tuple of the JSON texts of the patch's ops.
abbrev pub PatchKey : Type 0
PatchKey = List String

abbrev pub key_eq : PatchKey → PatchKey → Bool
key_eq [] [] = true
key_eq [] (t ∷ ts) = false
key_eq (s ∷ ss) [] = false
key_eq (s ∷ ss) (t ∷ ts) = str_eq s t && key_eq ss ts

pub record VerifyPhaseStateMachine : Type 0 where
  pub command_only : Bool
  pub state : VerifyPhaseState
  pub retry_count : ℕ
  pub seen_patch_calls : List PatchKey

pub data VerifyPhaseError : Type 0 where
  exhausted : VerifyPhaseError
  invalid_transition : VerifyPhaseState → VerifyPhaseEvent → VerifyPhaseError

unfoldable pub new : Bool → VerifyPhaseStateMachine
new command_only = record {
  command_only = command_only;
  state = if command_only then postpatch_clean else explore;
  retry_count = 0;
  seen_patch_calls = [];
}

abbrev in_failed_patch : VerifyPhaseState → Bool
in_failed_patch patch_failed_must_read = true
in_failed_patch patch_failed_can_retry = true
in_failed_patch _ = false

-- A failed patch in PATCH_FAILED_CAN_RETRY. The counter is raised before the exception is.
retry_failed : VerifyPhaseStateMachine → VerifyPhaseStateMachine × Option VerifyPhaseError
retry_failed sm =
    let counted = record sm { retry_count = sm.retry_count + 1 } in
    if leb max_patch_retries counted.retry_count
    then (counted, some exhausted)
    else (record counted { seen_patch_calls = []; state = patch_failed_must_read }, none)

-- The rest of `transition`: the lookup in the table, and the resets.
follow_table :
    Option VerifyPhaseState
    → VerifyPhaseStateMachine
    → VerifyPhaseEvent
    → VerifyPhaseStateMachine × Option VerifyPhaseError
follow_table none sm event = (sm, some (invalid_transition sm.state event))
follow_table (some next_state) sm event = (
  record sm {
    retry_count =
        if in_failed_patch sm.state && not (in_failed_patch next_state) then 0 else sm.retry_count;
    seen_patch_calls = [];
    state = next_state;
  },
  none,
)

dispatch :
    VerifyPhaseState
    → VerifyPhaseEvent
    → VerifyPhaseStateMachine
    → VerifyPhaseStateMachine × Option VerifyPhaseError
unfolding retry_failed follow_table table
dispatch patch_failed_can_retry patch_failed sm = retry_failed sm
dispatch state event sm = follow_table (table state event) sm event

unfoldable pub transition :
    VerifyPhaseStateMachine → VerifyPhaseEvent → VerifyPhaseStateMachine × Option VerifyPhaseError
unfolding dispatch
transition sm event = dispatch sm.state event sm

-- `tools - {"verify_done"}`
abbrev without_verify_done : List Tool → List Tool
without_verify_done ts = keep (λ t. not (tool_rank t == tool_rank verify_done)) ts

locks_done : Bool → VerifyPhaseState → Bool
locks_done true postpatch_clean = true
locks_done _ _ = false

unfoldable pub allowed_tools : VerifyPhaseStateMachine → List Tool
unfolding tools_of locks_done
allowed_tools sm =
    let tools = tools_of sm.state in
    if locks_done sm.command_only sm.state then without_verify_done tools else tools

-- The `type` of a response.
pub data ActionType : Type 0 where
  tool_call revision_needed emit_patch_action verify_done_action : ActionType

unfoldable pub allowed_action_types : VerifyPhaseStateMachine → List ActionType
unfolding allowed_tools
allowed_action_types sm =
    tool_call
    ∷ revision_needed
    ∷ ((if has_tool emit_patch allowed then emit_patch_action ∷ [] else [])
        ++ (if has_tool verify_done allowed then verify_done_action ∷ [] else []))
  where
    allowed : List Tool
    allowed = allowed_tools sm

unfoldable pub check_patch_dedup : VerifyPhaseStateMachine → PatchKey → Bool
check_patch_dedup sm key = any (λ k. key_eq k key) sm.seen_patch_calls

unfoldable pub record_patch_attempt : VerifyPhaseStateMachine → PatchKey → VerifyPhaseStateMachine
record_patch_attempt sm key = record sm { seen_patch_calls = key ∷ sm.seen_patch_calls }

pub is_terminal : VerifyPhaseStateMachine → Bool
is_terminal sm = elim sm.state [ test_passed ↦ true | _ ↦ false ]
