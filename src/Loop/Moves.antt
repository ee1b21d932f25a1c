-- ===== src/Loop/Moves.antt =====
-- The tool loop without its texts: the machine, the two budgets and the trace, the moves between
-- them, and how a step ends.
use shadow_forge.Base.{
  ℕ, suc, ◌<◌, ◌≡◌, refl, ◌≢◌, Bool, true, false, List, [], ◌∷◌, ◌++◌, Option, none, some, String,
  if◌then◌else◌, ◌||◌,
}
use shadow_forge.Verify.{
  VerifyPhaseStateMachine, PatchKey, new, emit_patch, has_tool, allowed_tools, transition,
  record_patch_attempt, patch_failed,
}
use shadow_forge.Loop.{
  RawOp, Call, TestOutput, no_output, reported, StepOutcome, verify_result, plan_handoff, Settings,
  LoopState, Next, again, finished, raised, invalid_transition,
}
use shadow_forge.Loop.Patch.{verdict}
use shadow_forge.Loop.Calls.{event_of, follow_event}
use shadow_forge.Loop.Run.{may_finish}

pub record Core : Type 0 where
  pub sm : VerifyPhaseStateMachine
  pub explore_calls : ℕ
  pub verify_calls : ℕ
  pub used : ℕ
  pub calls : List Call
  pub patched : Bool
  pub document : Option (List RawOp)

abbrev pub core : {World Baseline : Type 0} → LoopState World Baseline → Core
core st = record {
  sm = st.sm;
  explore_calls = st.explore_calls;
  verify_calls = st.verify_calls;
  used = st.tool_calls_used;
  calls = st.calls;
  patched = st.patch_succeeded_once;
  document = st.last_patch_document;
}

-- Where a step begins.
abbrev pub opening : Bool → ℕ → Core
opening command_only used = record {
  sm = new command_only;
  explore_calls = 0;
  verify_calls = 0;
  used = used;
  calls = [];
  patched = false;
  document = none;
}

-- The machine with one more attempted patch.
abbrev pub attempt : PatchKey → Core → Core
attempt key c = record c { sm = record_patch_attempt c.sm key }

abbrev pub MayPatch : Core → Type 0
MayPatch c = has_tool emit_patch (allowed_tools c.sm) ≡ true

-- A call, as it is traced, is offered by the machine and followed by its event.
pub record IsCalled (c : Core) (call : Call) (sm : VerifyPhaseStateMachine) : Type 0 where
  pub offered : has_tool call.tool (allowed_tools c.sm) ≡ true
  pub follows : follow_event (event_of call.tool c.sm.state call.is_error) c.sm ≡ (sm, none)

-- `Applied` says of the ops of a patch that it has been applied.
module _ (S : Settings) (Applied : List RawOp → Type 0) where
  infix 30 ◌⟶◌
  pub data ◌⟶◌ : Core → Core → Type 0 where
    -- A rejected turn.
    stays : {c : Core} → c ⟶ c
    -- A patch outside of the step that the user does not admit.
    refused : {c : Core} (key : PatchKey) → MayPatch c → c ⟶ attempt key c
    -- A patch that does not apply.
    fails :
        {c : Core} (key : PatchKey) (sm : VerifyPhaseStateMachine)
        → MayPatch c
        → transition (record_patch_attempt c.sm key) patch_failed ≡ (sm, none)
        → c ⟶ record c { sm = sm }
    -- A patch that applies, with the analyzer's verdict.
    lands :
        {c : Core} (key : PatchKey) (ops : List RawOp) (sm : VerifyPhaseStateMachine) (clean : Bool)
        → MayPatch c
        → Applied ops
        → transition (record_patch_attempt c.sm key) (verdict clean) ≡ (sm, none)
        → c ⟶ record c { sm = sm; patched = true; document = some ops }
    -- A call on the explore budget.
    explores :
        {c : Core} (call : Call) (sm : VerifyPhaseStateMachine)
        → (c.patched || c.sm.command_only) ≡ false
        → c.explore_calls < S.max_tool_calls_per_step
        → IsCalled c call sm
        → c ⟶ record c {
          sm = sm;
          explore_calls = suc c.explore_calls;
          used = suc c.used;
          calls = c.calls ++ call ∷ [];
        }
    -- A call on the verify budget.
    verifies :
        {c : Core} (call : Call) (sm : VerifyPhaseStateMachine)
        → (c.patched || c.sm.command_only) ≡ true
        → c.verify_calls < S.max_verify_calls_per_step
        → IsCalled c call sm
        → c ⟶ record c {
          sm = sm;
          verify_calls = suc c.verify_calls;
          used = suc c.used;
          calls = c.calls ++ call ∷ [];
        }

  -- How a step ends from a state.
  pub data Final (c : Core) : StepOutcome → Type 0 where
    -- The model is done, and the machine agrees.
    confirmed :
        (doc : Option (List RawOp)) (files : List String) (verified : Bool)
        (output summary : String) (calls : List Call)
        → may_finish c.sm.command_only c.sm.state ≡ true
        → doc ≡ c.document
        → calls ≡ c.calls
        → Final c (verify_result doc files verified (reported output) summary calls)
    -- A patch has landed where nothing is to be verified.
    unverified :
        (doc : Option (List RawOp)) (ops : List RawOp) (files : List String) (calls : List Call)
        → S.skip_verify ≡ true
        → MayPatch c
        → Applied ops
        → doc ≡ some ops
        → calls ≡ c.calls
        → Final c (verify_result doc files true no_output "" calls)
    gave_up :
        (doc : Option (List RawOp)) (files : List String) (output : TestOutput) (calls : List Call)
        → calls ≡ c.calls
        → Final c (verify_result doc files false output "" calls)
    handed_over :
        (reason evidence : String) (affected : List String)
        → Final c (plan_handoff reason evidence affected c.calls)

  -- What an iteration from a core may lead to.
  abbrev pub Follows : {World Baseline : Type 0} → Core → Next World Baseline → Type 0
  Follows c (again st) = c ⟶ core st
  Follows c (finished outcome st) = Final c outcome
  Follows c (raised e st) = e ≢ invalid_transition

  pub if-Follows :
      {World Baseline : Type 0} (c : Core) (b : Bool) (x y : Next World Baseline)
      → (b ≡ true → Follows c x)
      → (b ≡ false → Follows c y)
      → Follows c (if b then x else y)
  if-Follows c true x y h k = h refl
  if-Follows c false x y h k = k refl

  -- A sequence of moves.
  pub data Reaches (c : Core) : Core → Type 0 where
    here : Reaches c c
    onward : {d e : Core} → Reaches c d → d ⟶ e → Reaches c e

  -- The loop returns from a core that it has reached, or raises another exception than an undefined
  -- transition of the machine.
  abbrev pub Ends : {World Baseline : Type 0} → Core → Next World Baseline → Type 0
  Ends c (again st) = ⊥
  Ends c (finished outcome st) = (d : Core) × Reaches c d × Final d outcome
  Ends c (raised e st) = e ≢ invalid_transition
