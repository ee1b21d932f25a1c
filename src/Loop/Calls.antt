-- ===== src/Loop/Calls.antt =====
-- The branch of `tool_call` (tools/loop.py, `run`).
pub mod Follows
use shadow_forge.Base.{
  ℕ, suc, ◌+◌, Bool, true, false, not, ◌&&◌, ◌||◌, List, [], ◌∷◌, ◌++◌, Option, none, some, leb,
  ◌==◌, if◌then◌else◌, any, take, has_name, str_eq, String,
}
use Prim.Native.String.{◌++◌ as ◌<>◌}
use shadow_forge.Text.{Text, codes}
use shadow_forge.Verify.{
  VerifyPhaseState, VerifyPhaseEvent, VerifyPhaseStateMachine, VerifyPhaseError, Tool, read_file,
  search_code, run_command, has_tool, tool_rank, allowed_tools, transition, read_called,
  patch_failed_must_read,
}
use shadow_forge.Loop.{
  Response, ToolOutput, Entry, assistant_turn, tool_result, tool_gate, repeated_call, LoopEvent,
  revision, called, answered, Call, verify_result, plan_handoff, verify_budget_exhausted,
  tool_budget_exceeded, invalid_transition, Collaborators, Settings, LoopState, Next, again,
  finished, raised,
}
use shadow_forge.Loop.Patch.{State, Outcome, flush_pending_install, reject}

-- `_call_key in _seen_tool_calls`
pub is_repeated : Tool → String → List (Tool × String) → Bool
is_repeated tool args seen =
    any (λ (known, text). (tool_rank known == tool_rank tool) && str_eq text args) seen

-- The event of a finished call, by the tool, the state and whether the call failed.
pub event_of : Tool → VerifyPhaseState → Bool → Option VerifyPhaseEvent
event_of read_file patch_failed_must_read false = some read_called
event_of search_code patch_failed_must_read false = some read_called
event_of run_command VerifyPhaseState.postpatch_clean false = some VerifyPhaseEvent.test_passed
event_of run_command VerifyPhaseState.postpatch_clean true = some VerifyPhaseEvent.test_failed
event_of run_command VerifyPhaseState.test_failed false = some VerifyPhaseEvent.test_passed
event_of run_command VerifyPhaseState.test_failed true = some VerifyPhaseEvent.test_failed
event_of _ _ _ = none

abbrev pub follow_event :
    Option VerifyPhaseEvent
    → VerifyPhaseStateMachine
    → VerifyPhaseStateMachine × Option VerifyPhaseError
follow_event none sm = (sm, none)
follow_event (some event) sm = transition sm event

-- The note behind the content of a file that an earlier step has changed.
prior_nudge : String → Bool → Text
prior_nudge path is_target =
    codes "\n\n⚠"
    ++ 65039
      ∷ codes (
          "  PRIOR-STEP FILE: `"
          <> path
          <> "` was modified and accepted by an earlier step. "
          <> "The content above already reflects those changes — do NOT re-implement what is already there. "
          <> (if is_target
              then "It is one of your targets — you may patch it directly."
              else "It is not in your targets — patching it will trigger a scope-extension prompt.")
          <> " Only add changes NEW to your step's goal.")

abbrev is_read_file : Tool → Bool
is_read_file tool = tool_rank tool == tool_rank read_file

abbrev pub is_run_command : Tool → Bool
is_run_command tool = tool_rank tool == tool_rank run_command

-- The handoff that stands for a budget used up behind a refused scope.
abbrev pub scope_handoff : {W B : Type 0} → String → LoopState W B → Next W B
scope_handoff budget_name st =
    finished
      (plan_handoff "Scope violation: required file not in step targets"
        ("Patch rejected for out-of-scope file. Agent exhausted " <> budget_name
          <> " budget without emitting revision_needed. "
          <> "The plan should add the required file as a target.")
        [] st.calls)
      st

module _ {World Candidate Baseline : Type 0} (C : Collaborators World Candidate Baseline)
    (S : Settings) where
  pub nudged : Response → Tool → ToolOutput → ToolOutput
  unfolding prior_nudge
  nudged response tool result =
      if is_read_file tool && not result.is_error && has_name response.path S.prior_step_files
      then record result {
        output = result.output ++ prior_nudge response.path (has_name response.path S.step_targets);
      }
      else result

  abbrev pub call_of : Response → Tool → ToolOutput → Call
  call_of response tool result = record {
    tool = tool;
    args = response.args;
    output = take S.max_output_inject_chars result.output;
    is_error = result.is_error;
  }

  -- The trace of a call and its entry in the history.
  pub record_call : ℕ → Response → Tool → ToolOutput → State C S → State C S
  record_call iteration response tool result st =
      let call = call_of response tool result in
      record st {
        events = st.events ++ answered tool result.output result.is_error (suc iteration) ∷ [];
        calls = st.calls ++ call ∷ [];
        history = st.history ++ (assistant_turn response ∷ tool_result tool call.output ∷ []);
      }

  -- The machine's verdict on a call; an exception leaves no trace of the call.
  after_call :
      ℕ
      → Response
      → Tool
      → ToolOutput
      → VerifyPhaseStateMachine
      → Option VerifyPhaseError
      → State C S
      → Outcome C S
  unfolding record_call
  after_call iteration response tool result sm none st =
      again (record_call iteration response tool result (record st { sm = sm }))
  after_call iteration response tool result sm (some e) st = raised invalid_transition st

  pub conclude_call : ℕ → Response → Tool → ToolOutput → State C S → Outcome C S
  unfolding after_call event_of
  conclude_call iteration response tool result st =
      let (sm, exception) = follow_event (event_of tool st.sm.state result.is_error) st.sm in
      after_call iteration response tool result sm exception st

  -- The state in which a call runs: behind a pending install if it is a command.
  pub ready_for : ℕ → Tool → State C S → State C S
  unfolding flush_pending_install
  ready_for iteration tool st =
      let announced = record st { events = st.events ++ called tool (suc iteration) ∷ [] } in
      if is_run_command tool then flush_pending_install C S announced else announced

  pub execute_call : ℕ → Response → Tool → State C S → Outcome C S
  unfolding ready_for nudged conclude_call
  execute_call iteration response tool st =
      let ready = ready_for iteration tool st in
      let (world, result) = C.execute ready.world tool response.args in
      conclude_call iteration response tool (nudged response tool result)
        (record ready { world = world; tool_calls_used = suc ready.tool_calls_used })

  abbrev pub charge_explore : State C S → State C S
  charge_explore st = record st { explore_calls = suc st.explore_calls }

  abbrev pub charge_verify : State C S → State C S
  charge_verify st = record st { verify_calls = suc st.verify_calls }

  -- The budget of the phase. A call that it does not admit ends the step.
  pub spend_explore : ℕ → Response → Tool → State C S → Outcome C S
  unfolding execute_call
  spend_explore iteration response tool st =
      if leb S.max_tool_calls_per_step st.explore_calls
      then (if st.had_scope_violation
          then scope_handoff "explore" (record st {
            events =
                st.events
                ++ revision "Scope violation: required file not in step targets" (
                    "Patch rejected for out-of-scope file; agent exhausted budget without emitting "
                    <> "revision_needed")
                  ∷ [];
          })
          else raised tool_budget_exceeded st)
      else execute_call iteration response tool (charge_explore st)

  pub spend_verify : ℕ → Response → Tool → State C S → Outcome C S
  unfolding execute_call
  spend_verify iteration response tool st =
      if leb S.max_verify_calls_per_step st.verify_calls
      then finished
          (verify_result st.last_patch_document st.all_touched_files false
            (verify_budget_exhausted st.verify_calls) "" st.calls)
          st
      else execute_call iteration response tool (charge_verify st)

  -- Before the first patch has landed a step that has files to patch draws on the explore budget.
  pub in_verify_budget : State C S → Bool
  in_verify_budget st = st.patch_succeeded_once || st.sm.command_only

  note_call : Tool → String → State C S → State C S
  note_call tool args st = record st { seen_tool_calls = st.seen_tool_calls ++ (tool, args) ∷ [] }

  admit_call : ℕ → Response → Tool → State C S → Outcome C S
  unfolding spend_explore spend_verify in_verify_budget note_call
  admit_call iteration response tool st =
      let seen = note_call tool response.args st in
      if in_verify_budget st
      then spend_verify iteration response tool seen
      else spend_explore iteration response tool seen

  offered_call : ℕ → Response → Tool → State C S → Outcome C S
  unfolding admit_call is_repeated
  offered_call iteration response tool st =
      if has_tool tool (allowed_tools st.sm)
      then (if is_repeated tool response.args st.seen_tool_calls
          then reject C S repeated_call st
          else admit_call iteration response tool st)
      else reject C S tool_gate st

  unfoldable pub tool_call : Option Tool → ℕ → Response → State C S → Outcome C S
  unfolding offered_call
  tool_call none iteration response st = reject C S tool_gate st
  tool_call (some tool) iteration response st = offered_call iteration response tool st
