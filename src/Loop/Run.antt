-- ===== src/Loop/Run.antt =====
-- One iteration of the loop, and the loop over the whole budget (tools/loop.py, `run`).
pub mod Follows
use shadow_forge.Base.{
  ℕ, zero, suc, ◌+◌, ◌-◌, Bool, true, false, not, ◌&&◌, ◌||◌, List, [], ◌∷◌, ◌++◌, Option, none,
  some, ◌==◌, if◌then◌else◌, keep,
}
use shadow_forge.Verify.{
  VerifyPhaseState, ActionType, explore, patch_failed_must_read, patch_failed_can_retry,
  postpatch_blocking, postpatch_clean, test_failed, test_passed, Tool, tool_call, revision_needed,
  emit_patch_action, verify_done_action, has_tool, allowed_tools, allowed_action_types, new,
}
use shadow_forge.Verify.Tools.{has_type}
use shadow_forge.Loop.{
  Response, Entry, malformed_turn, told, parse_error, action_gate, verify_guard, LoopEvent,
  memory_compacted, revision, verify_result, plan_handoff, reported, task_aborted,
  tool_budget_exceeded, Collaborators, Settings, LoopState, Next, again, finished, raised,
  is_command_only_step,
}
use shadow_forge.Loop.Patch.{State, Outcome, flush_pending_install, reject, emit_patch}
use shadow_forge.Loop.Calls
use shadow_forge.Loop.Calls.{in_verify_budget, scope_handoff}

abbrev pub state_rank : VerifyPhaseState → ℕ
state_rank explore = 0
state_rank patch_failed_must_read = 1
state_rank patch_failed_can_retry = 2
state_rank postpatch_blocking = 3
state_rank postpatch_clean = 4
state_rank test_failed = 5
state_rank test_passed = 6

-- `sm.state in _valid_verify_states`
unfoldable pub may_finish : Bool → VerifyPhaseState → Bool
may_finish command_only test_passed = true
may_finish false postpatch_clean = true
may_finish _ _ = false

module _ {World Candidate Baseline : Type 0} (C : Collaborators World Candidate Baseline)
    (S : Settings) where
  -- The history after the memory has compacted it.
  unfoldable pub prepare : State C S → State C S
  prepare st =
      let (world, prepared) = C.prepare_turn st.world st.history in
      record st {
        world = world;
        history = prepared.history;
        events =
            if prepared.compacted
            then st.events ++ memory_compacted prepared.evicted_count prepared.anchor_version ∷ []
            else st.events;
      }

  -- The cache of calls is cleared once the machine has moved.
  unfoldable pub refresh : State C S → State C S
  refresh st =
      if state_rank st.sm.state == state_rank st.prev_sm_state
      then st
      else record st { seen_tool_calls = []; prev_sm_state = st.sm.state }

  pub verify_done : Response → State C S → Outcome C S
  unfolding may_finish flush_pending_install
  verify_done response st =
      let flushed = flush_pending_install C S st in
      if may_finish st.sm.command_only st.sm.state
      then finished
          (verify_result flushed.last_patch_document flushed.all_touched_files response.verified
            (reported response.test_output) response.step_summary flushed.calls)
          flushed
      else reject C S verify_guard st

  pub request_revision : Response → State C S → Outcome C S
  request_revision response st =
      finished (plan_handoff response.reason response.evidence response.affected_steps st.calls)
        (record st { events = st.events ++ revision response.reason response.evidence ∷ [] })

  -- The response by its type.
  pub dispatch : ActionType → ℕ → Response → State C S → Outcome C S
  unfolding verify_done request_revision emit_patch Calls.tool_call
  dispatch verify_done_action iteration response st = verify_done response st
  dispatch revision_needed iteration response st = request_revision response st
  dispatch emit_patch_action iteration response st = emit_patch C S response.patch_ops response st
  dispatch tool_call iteration response st = Calls.tool_call C S response.tool iteration response st

  -- The gate on types.
  pub act : Option ActionType → ℕ → Response → State C S → Outcome C S
  unfolding dispatch
  act none iteration response st = reject C S action_gate st
  act (some type) iteration response st =
      if has_type type (allowed_action_types st.sm)
      then dispatch type iteration response st
      else reject C S action_gate st

  -- A response that cannot be parsed costs an iteration.
  pub take_answer : Option Response → ℕ → State C S → Outcome C S
  unfolding act
  take_answer none iteration st =
      again (record st { history = st.history ++ (malformed_turn ∷ told parse_error ∷ []) })
  take_answer (some response) iteration st = act response.type iteration response st

  -- The tools of the phase that the state allows.
  pub offered_tools : State C S → List Tool
  offered_tools st =
      keep (λ tool. has_tool tool (allowed_tools st.sm))
        (C.definitions (state_rank st.sm.state == state_rank VerifyPhaseState.explore))

  pub ask_model : ℕ → State C S → Outcome C S
  unfolding take_answer offered_tools
  ask_model iteration st =
      let (world, answer) =
        C.create_tool_step st.world st.history (offered_tools st) (allowed_action_types st.sm) in
      take_answer answer iteration (record st { world = world })

  unfoldable pub iterate : ℕ → State C S → Outcome C S
  unfolding prepare refresh ask_model
  iterate iteration st =
      if C.abort_is_set st.world
      then raised task_aborted st
      else ask_model iteration (refresh (prepare st))

  abbrev pub go_on : (State C S → Outcome C S) → Outcome C S → Outcome C S
  go_on rest (again next) = rest next
  go_on rest (finished outcome next) = finished outcome next
  go_on rest (raised e next) = raised e next

  -- `for iteration in range(total_budget)`, with the rounds that are left and the number of the
  -- next one.
  unfoldable pub rounds : ℕ → ℕ → State C S → Outcome C S
  unfolding iterate
  rounds zero iteration st =
      if st.had_scope_violation then scope_handoff "total" st else raised tool_budget_exceeded st
  rounds (suc left) iteration st = go_on (rounds left (suc iteration)) (iterate iteration st)

  pub start : World → List Entry → ℕ → State C S
  unfolding is_command_only_step new
  start world initial_history tool_calls_used =
      let command_only = is_command_only_step (C.is_dir world) S.has_shadow_path S.step_targets in
      let sm = new command_only in
      record {
        world = if command_only then C.use_shadow_for_reads world else world;
        sm = sm;
        history = initial_history;
        targets = S.step_targets;
        explore_calls = 0;
        verify_calls = 0;
        tool_calls_used = tool_calls_used;
        last_patch_document = none;
        all_touched_files = [];
        pending_install_for_scope = none;
        had_scope_violation = false;
        postpatch_baseline = none;
        seen_tool_calls = [];
        prev_sm_state = sm.state;
        patch_succeeded_once = false;
        calls = [];
        events = [];
      }

  abbrev pub total_budget : ℕ
  total_budget = S.max_tool_calls_per_step + S.max_verify_calls_per_step + 10

  unfoldable pub run : World → List Entry → ℕ → Outcome C S
  unfolding rounds start
  run world initial_history tool_calls_used =
      rounds total_budget 0 (start world initial_history tool_calls_used)
