-- ===== src/Loop/Verified.antt =====
-- What stands behind a step that is reported as verified.
use mathlib.Core.Path.{subst}
use shadow_forge.Base.{
  ℕ, ◌≡◌, refl, sym, ap, ◌∙◌, ◌≢◌, Bool, true, false, not, ◌&&◌, List, [], ◌∷◌, ◌++◌, Option, none,
  some, arith, any, any-append, if◌then◌else◌,
}
use shadow_forge.Verify.{
  VerifyPhaseState, VerifyPhaseEvent, VerifyPhaseStateMachine, PatchKey, explore, patch_failed,
  transition, record_patch_attempt,
}
use shadow_forge.Verify.Tools.{
  after, patched-state, called-state, record_patch_attempt-same, new-state,
}
use shadow_forge.Loop.{
  RawOp, Entry, Call, StepOutcome, verify_result, plan_handoff, Collaborators, Settings, finished,
}
use shadow_forge.Loop.Patch.{State, verdict}
use shadow_forge.Loop.Calls.{event_of, follow_event, is_run_command}
use shadow_forge.Loop.Calls.Follows.{event_of_passed}
use shadow_forge.Loop.Bounds.{trace_of}
use shadow_forge.Loop.Run.{run, may_finish}
use shadow_forge.Loop.Run.Follows.{run-Ends, command_only}
use shadow_forge.Loop.Patch.Follows.{WasApplied}
use shadow_forge.Loop.Moves.{
  Core, opening, ◌⟶◌, stays, refused, fails, lands, explores, verifies, Final, confirmed,
  unverified, gave_up, handed_over, Reaches, here, onward, Ends,
}

abbrev is_passing : Call → Bool
is_passing call = is_run_command call.tool && not call.is_error

-- A command has run and has not failed.
abbrev pub has_passed : List Call → Bool
has_passed calls = any is_passing calls

-- The kind of the step is as it was, and TEST_PASSED is behind a passing command.
record IsTested (kind : Bool) (c : Core) : Type 0 where
  same_kind : c.sm.command_only ≡ kind
  passed : c.sm.state ≡ VerifyPhaseState.test_passed → has_passed c.calls ≡ true

-- TEST_PASSED is entered by TEST_PASSED only.
after-test_passed :
    (e : VerifyPhaseEvent)
    → after e ≡ VerifyPhaseState.test_passed
    → e ≡ VerifyPhaseEvent.test_passed
after-test_passed e h = ground arith

patched-IsTested :
    (kind : Bool) (c : Core) (key : PatchKey) (e : VerifyPhaseEvent) (m : VerifyPhaseStateMachine)
    (calls : List Call)
    → IsTested kind c
    → e ≢ VerifyPhaseEvent.test_passed
    → transition (record_patch_attempt c.sm key) e ≡ (m, none)
    → (m.command_only ≡ kind) × (m.state ≡ VerifyPhaseState.test_passed → has_passed calls ≡ true)
patched-IsTested kind c key e m calls w other t =
    let (state, same) = patched-state c.sm m key e t in
    (same ∙ w.same_kind, λ h. absurd (other (after-test_passed e (sym state ∙ h))))

followed-IsTested :
    (kind : Bool) (c : Core) (call : Call) (m : VerifyPhaseStateMachine)
    (o : Option VerifyPhaseEvent)
    → IsTested kind c
    → event_of call.tool c.sm.state call.is_error ≡ o
    → follow_event o c.sm ≡ (m, none)
    → (m.command_only ≡ kind)
      × (m.state ≡ VerifyPhaseState.test_passed → has_passed (c.calls ++ call ∷ []) ≡ true)
followed-IsTested kind c call m none w h t = (
  ap (λ r. r.0.command_only) (sym t) ∙ w.same_kind,
  λ p.
      ground
        (arith, any-append is_passing c.calls (call ∷ []), w.passed (ap (λ r. r.0.state) t ∙ p)),
)
followed-IsTested kind c call m (some e) w h t =
    let (state, same) = called-state c.sm m e t in
    (
      same ∙ w.same_kind,
      λ p.
          let is = after-test_passed e (sym state ∙ p) in
          ground (
            arith,
            any-append is_passing c.calls (call ∷ []),
            event_of_passed call.tool c.sm.state call.is_error (h ∙ ap some is),
          ),
    )

verdict-ne-test_passed : (clean : Bool) → verdict clean ≢ VerifyPhaseEvent.test_passed
verdict-ne-test_passed true h = cc
verdict-ne-test_passed false h = cc

module _ (S : Settings) (A : List RawOp → Type 0) (kind : Bool) where
  move-IsTested : {c d : Core} → IsTested kind c → ◌⟶◌ S A c d → IsTested kind d
  move-IsTested w stays = w
  move-IsTested {c} w (refused key may) =
      let (state, same) = record_patch_attempt-same c.sm key in
      record { same_kind = same ∙ w.same_kind; passed = λ h. w.passed (sym state ∙ h) }
  move-IsTested {c} w (fails key sm may t) =
      let (same, passed) = patched-IsTested kind c key patch_failed sm c.calls w (λ h. cc) t in
      record { same_kind = same; passed = passed }
  move-IsTested {c} w (lands key ops sm clean may is t) =
      let (same, passed) =
        patched-IsTested kind c key (verdict clean) sm c.calls w (verdict-ne-test_passed clean) t in
      record { same_kind = same; passed = passed }
  move-IsTested {c} w (explores call sm phase room is) =
      let (same, passed) = followed-IsTested kind c call sm _ w refl is.follows in
      record { same_kind = same; passed = passed }
  move-IsTested {c} w (verifies call sm phase room is) =
      let (same, passed) = followed-IsTested kind c call sm _ w refl is.follows in
      record { same_kind = same; passed = passed }

  reach-IsTested : {c d : Core} → IsTested kind c → Reaches S A c d → IsTested kind d
  reach-IsTested w here = w
  reach-IsTested w (onward way move) = move-IsTested (reach-IsTested w way) move

opening-IsTested : (kind : Bool) (used : ℕ) → IsTested kind (opening kind used)
opening-IsTested kind used =
    let (state, same) = new-state kind in
    record { same_kind = same; passed = λ h. absurd (opening-ne kind (sym state ∙ h)) }
  where
    opening-ne :
        (k : Bool)
        → (if k then VerifyPhaseState.postpatch_clean else explore) ≢ VerifyPhaseState.test_passed
    opening-ne true h = cc
    opening-ne false h = cc

may_finish-command_only :
    (s : VerifyPhaseState) → may_finish true s ≡ true → s ≡ VerifyPhaseState.test_passed
unfolding may_finish
may_finish-command_only s h = ground arith

-- The outcome says that the step is verified.
abbrev pub claims_verified : StepOutcome → Bool
claims_verified (verify_result _ _ verified _ _ _) = verified
claims_verified (plan_handoff _ _ _ _) = false

-- The patch that an outcome reports.
abbrev pub document_of : StepOutcome → Option (List RawOp)
document_of (verify_result doc _ _ _ _ _) = doc
document_of (plan_handoff _ _ _ _) = none

-- Where nothing is skipped, a claim is one that the machine admits.
pub record IsAdmitted (c : Core) (outcome : StepOutcome) : Type 0 where
  pub finishes : may_finish c.sm.command_only c.sm.state ≡ true
  pub document : document_of outcome ≡ c.document
  pub trace : trace_of outcome ≡ c.calls

pub Final-IsAdmitted :
    (S : Settings) (A : List RawOp → Type 0) (c : Core) (outcome : StepOutcome)
    → S.skip_verify ≡ false
    → Final S A c outcome
    → claims_verified outcome ≡ true
    → IsAdmitted c outcome
Final-IsAdmitted S A c outcome skips (confirmed _ _ _ _ _ _ may d e) claim = record {
  finishes = may;
  document = d;
  trace = e;
}
Final-IsAdmitted S A c outcome skips (unverified _ _ _ _ skipped _ _ _ _) claim = cc
Final-IsAdmitted S A c outcome skips (gave_up _ _ _ _ _) claim = cc
Final-IsAdmitted S A c outcome skips (handed_over _ _ _) claim = cc

module _ {World Candidate Baseline : Type 0} (C : Collaborators World Candidate Baseline)
    (S : Settings) where
  -- A step with nothing to patch is reported as verified only if a command of it has run and has
  -- not failed, unless verification is skipped: however the model answers, the trace of the
  -- outcome holds such a command.
  pub run-has_passed :
      (world : World) (history : List Entry) (used : ℕ) (outcome : StepOutcome) (st : State C S)
      → command_only C S world ≡ true
      → S.skip_verify ≡ false
      → run C S world history used ≡ finished outcome st
      → claims_verified outcome ≡ true
      → has_passed (trace_of outcome) ≡ true
  run-has_passed world history used outcome st kind skips h claim =
      let (d, way, final) =
        subst (λ r. Ends S (WasApplied C S) (opening (command_only C S world) used) r) h
          (run-Ends C S world history used) in
      let w =
        reach-IsTested S (WasApplied C S) (command_only C S world)
          (opening-IsTested (command_only C S world) used) way in
      let admitted = Final-IsAdmitted S (WasApplied C S) d outcome skips final claim in
      let tested =
        may_finish-command_only d.sm.state
          (subst (λ k. may_finish k d.sm.state ≡ true) (w.same_kind ∙ kind) admitted.finishes) in
      ap has_passed admitted.trace ∙ w.passed tested
