-- ===== src/Loop/Calls/Follows.antt =====
-- Every end of the branch of `tool_call` is a move of the loop's core, or one of the ends of a step.
use mathlib.Core.Path.{subst}
use shadow_forge.Base.{
  List, ℕ, suc, ◌≡◌, refl, sym, ap, ◌∙◌, Bool-cases, ◌⊎◌, inl, inr, Bool, true, false, ◌||◌, [],
  ◌∷◌, ◌++◌, Option, none, some, arith, leb,
}
use shadow_forge.Verify.{
  VerifyPhaseState, VerifyPhaseEvent, VerifyPhaseStateMachine, VerifyPhaseError, Tool, has_tool,
  allowed_tools, read_called, patch_failed_must_read,
}
use shadow_forge.Verify.Tools.{read-accepted, test-accepted}
use shadow_forge.Loop.{
  RawOp, Response, ToolOutput, Call, Collaborators, Settings, verify_budget_exhausted,
}
use shadow_forge.Loop.Patch.{State}
use shadow_forge.Loop.Patch.Follows.{flush-core}
use shadow_forge.Loop.Calls.{
  event_of, follow_event, call_of, record_call, after_call, conclude_call, ready_for, execute_call,
  spend_explore, spend_verify, in_verify_budget, note_call, charge_explore, charge_verify,
  admit_call, offered_call, tool_call, is_repeated, is_run_command,
}
use shadow_forge.Loop.Patch.Follows.{WasApplied}
use shadow_forge.Loop.Moves.{
  Core, core, IsCalled, ◌⟶◌, stays, explores, verifies, gave_up, handed_over, Follows, if-Follows,
}

pub event_of_where :
    (tool : Tool) (s : VerifyPhaseState) (is_error : Bool) (e : VerifyPhaseEvent)
    → event_of tool s is_error ≡ some e
    → ((s ≡ patch_failed_must_read) × (e ≡ read_called))
      ⊎ (((s ≡ VerifyPhaseState.postpatch_clean) ⊎ (s ≡ VerifyPhaseState.test_failed))
          × ((e ≡ VerifyPhaseEvent.test_passed) ⊎ (e ≡ VerifyPhaseEvent.test_failed)))
unfolding event_of
event_of_where tool s is_error e h = ground arith

-- A test is passed by a command that does not fail, and by nothing else.
pub event_of_passed :
    (tool : Tool) (s : VerifyPhaseState) (is_error : Bool)
    → event_of tool s is_error ≡ some VerifyPhaseEvent.test_passed
    → (is_run_command tool ≡ true) × (is_error ≡ false)
unfolding event_of
event_of_passed tool s is_error h = ground arith

follow_event-accepted :
    (o : Option VerifyPhaseEvent) (tool : Tool) (is_error : Bool) (sm : VerifyPhaseStateMachine)
    → event_of tool sm.state is_error ≡ o
    → (follow_event o sm).1 ≡ none
follow_event-accepted none tool is_error sm h = refl
follow_event-accepted (some e) tool is_error sm h =
    ground (arith, event_of_where tool sm.state is_error e h, read-accepted sm, test-accepted sm e)

-- The moves by which a call of the tool may lead from `c` to `d` with the call in its trace.
abbrev Admits : Settings → (List RawOp → Type 0) → Core → Core → Type 0
Admits S A c d =
    (call : Call) (sm : VerifyPhaseStateMachine)
    → IsCalled c call sm
    → ◌⟶◌ S A c (record d { sm = sm; calls = d.calls ++ call ∷ [] })

module _ {World Candidate Baseline : Type 0} (C : Collaborators World Candidate Baseline)
    (S : Settings) where
  after_call-Follows :
      (c d : Core) (iteration : ℕ) (response : Response) (tool : Tool) (result : ToolOutput)
      (sm : VerifyPhaseStateMachine) (ex : Option VerifyPhaseError) (st : State C S)
      → has_tool tool (allowed_tools c.sm) ≡ true
      → core st ≡ d
      → Admits S (WasApplied C S) c d
      → follow_event (event_of tool c.sm.state result.is_error) c.sm ≡ (sm, ex)
      → Follows S (WasApplied C S) c (after_call C S iteration response tool result sm ex st)
  unfolding after_call record_call
  after_call-Follows c d iteration response tool result sm none st offered e admits t =
      subst
        (λ (d' : Core).
          ◌⟶◌ S (WasApplied C S) c
            (record d' { sm = sm; calls = d'.calls ++ call_of C S response tool result ∷ [] }))
        (sym e)
        (admits (call_of C S response tool result) sm (record { offered = offered; follows = t }))
  after_call-Follows c d iteration response tool result sm (some x) st offered e admits t =
      let h = follow_event-accepted _ tool result.is_error c.sm refl in
      let h' = ap (λ r. r.1) t in cc

  conclude_call-Follows :
      (c d : Core) (iteration : ℕ) (response : Response) (tool : Tool) (result : ToolOutput)
      (st : State C S)
      → has_tool tool (allowed_tools c.sm) ≡ true
      → core st ≡ d
      → d.sm ≡ c.sm
      → Admits S (WasApplied C S) c d
      → Follows S (WasApplied C S) c (conclude_call C S iteration response tool result st)
  unfolding conclude_call
  conclude_call-Follows c d iteration response tool result st offered e same admits =
      after_call-Follows c d iteration response tool result _ _ st offered e admits (
        ap (λ sm. follow_event (event_of tool sm.state result.is_error) sm)
          (sym same ∙ sym (ap (λ (k : Core). k.sm) e)))

  core-ready_for :
      (iteration : ℕ) (tool : Tool) (st : State C S)
      → core (ready_for C S iteration tool st) ≡ core st
  unfolding ready_for
  core-ready_for iteration tool st = elim (Bool-cases (is_run_command tool)) [
    | inl h ↦ rw h (flush-core C S _)
    | inr h ↦ rw h
  ]

  -- `d` is the core before the call, with the budget already charged.
  execute_call-Follows :
      (c d : Core) (iteration : ℕ) (response : Response) (tool : Tool) (st : State C S)
      → has_tool tool (allowed_tools c.sm) ≡ true
      → core st ≡ d
      → d.sm ≡ c.sm
      → Admits S (WasApplied C S) c (record d { used = suc d.used })
      → Follows S (WasApplied C S) c (execute_call C S iteration response tool st)
  unfolding execute_call
  execute_call-Follows c d iteration response tool st offered e same admits =
      conclude_call-Follows c (record d { used = suc d.used }) iteration response tool _ _ offered
        (ap (λ (k : Core). record k { used = suc k.used }) (core-ready_for iteration tool st ∙ e))
        same admits

  spend_explore-Follows :
      (iteration : ℕ) (response : Response) (tool : Tool) (st : State C S)
      → has_tool tool (allowed_tools st.sm) ≡ true
      → (st.patch_succeeded_once || st.sm.command_only) ≡ false
      → Follows S (WasApplied C S) (core st) (spend_explore C S iteration response tool st)
  unfolding spend_explore
  spend_explore-Follows iteration response tool st offered phase =
      if-Follows S (WasApplied C S) (core st) (leb S.max_tool_calls_per_step st.explore_calls) _ _
        (λ full.
          if-Follows S (WasApplied C S) (core st) st.had_scope_violation _ _
            (λ h. handed_over _ _ _) (λ h k. cc))
        (λ room.
          execute_call-Follows (core st) (core (charge_explore C S st)) iteration response tool
            (charge_explore C S st) offered refl refl
            (λ call sm is. explores call sm phase (ground arith) is))

  spend_verify-Follows :
      (iteration : ℕ) (response : Response) (tool : Tool) (st : State C S)
      → has_tool tool (allowed_tools st.sm) ≡ true
      → (st.patch_succeeded_once || st.sm.command_only) ≡ true
      → Follows S (WasApplied C S) (core st) (spend_verify C S iteration response tool st)
  unfolding spend_verify
  spend_verify-Follows iteration response tool st offered phase =
      if-Follows S (WasApplied C S) (core st) (leb S.max_verify_calls_per_step st.verify_calls) _ _
        (λ full. gave_up _ _ (verify_budget_exhausted st.verify_calls) _ refl)
        (λ room.
          execute_call-Follows (core st) (core (charge_verify C S st)) iteration response tool
            (charge_verify C S st) offered refl refl
            (λ call sm is. verifies call sm phase (ground arith) is))

  admit_call-Follows :
      (iteration : ℕ) (response : Response) (tool : Tool) (st : State C S)
      → has_tool tool (allowed_tools st.sm) ≡ true
      → Follows S (WasApplied C S) (core st) (admit_call C S iteration response tool st)
  unfolding admit_call in_verify_budget note_call
  admit_call-Follows iteration response tool st offered =
      if-Follows S (WasApplied C S) (core st) (st.patch_succeeded_once || st.sm.command_only) _ _
        (spend_verify-Follows iteration response tool (note_call C S tool response.args st) offered)
        (spend_explore-Follows iteration response tool (note_call C S tool response.args st)
          offered)

  offered_call-Follows :
      (iteration : ℕ) (response : Response) (tool : Tool) (st : State C S)
      → Follows S (WasApplied C S) (core st) (offered_call C S iteration response tool st)
  unfolding offered_call
  offered_call-Follows iteration response tool st =
      if-Follows S (WasApplied C S) (core st) (has_tool tool (allowed_tools st.sm)) _ _
        (λ offered.
          if-Follows S (WasApplied C S) (core st)
            (is_repeated tool response.args st.seen_tool_calls) _ _ (λ h. stays)
            (λ h. admit_call-Follows iteration response tool st offered))
        (λ h. stays)

  pub tool_call-Follows :
      (tool : Option Tool) (iteration : ℕ) (response : Response) (st : State C S)
      → Follows S (WasApplied C S) (core st) (tool_call C S tool iteration response st)
  unfolding tool_call
  tool_call-Follows none iteration response st = stays
  tool_call-Follows (some tool) iteration response st =
      offered_call-Follows iteration response tool st
