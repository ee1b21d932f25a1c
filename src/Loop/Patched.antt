-- ===== src/Loop/Patched.antt =====
-- What stands behind a code step that is reported as verified.
use mathlib.Core.Path.{subst}
use shadow_forge.Base.{
  ℕ, ◌≡◌, refl, sym, ap, ◌∙◌, inl, inr, Bool, true, false, List, Option, none, some, arith,
  Option-cases,
}
use shadow_forge.Verify.{
  VerifyPhaseState, VerifyPhaseEvent, VerifyPhaseStateMachine, explore, patch_failed,
  patch_failed_must_read, patch_failed_can_retry,
}
use shadow_forge.Verify.Tools.{patched-state, called-state, record_patch_attempt-same, new-state}
use shadow_forge.Loop.{RawOp, Entry, Call, StepOutcome, Collaborators, Settings, finished}
use shadow_forge.Loop.Patch.{State}
use shadow_forge.Loop.Calls.{event_of, follow_event}
use shadow_forge.Loop.Calls.Follows.{event_of_where}
use shadow_forge.Loop.Run.{run, may_finish}
use shadow_forge.Loop.Run.Follows.{run-Ends, command_only}
use shadow_forge.Loop.Patch.Follows.{WasApplied}
use shadow_forge.Loop.Moves.{
  Core, opening, ◌⟶◌, stays, refused, fails, lands, explores, verifies, Reaches, here, onward, Ends,
}
use shadow_forge.Loop.Verified.{claims_verified, document_of, Final-IsAdmitted}

some_same : {A : Type 0} {x y : A} → some x ≡ some y → x ≡ y
some_same h = cc

-- The states before the first patch that applies.
abbrev before_patch : VerifyPhaseState → Bool
before_patch explore = true
before_patch patch_failed_must_read = true
before_patch patch_failed_can_retry = true
before_patch _ = false

-- A code step with no applied patch has not left the states before it.
record IsUnpatched (c : Core) : Type 0 where
  kind : c.sm.command_only ≡ false
  early : c.document ≡ none → before_patch c.sm.state ≡ true

followed-IsUnpatched :
    (c : Core) (call : Call) (m : VerifyPhaseStateMachine) (o : Option VerifyPhaseEvent)
    → IsUnpatched c
    → event_of call.tool c.sm.state call.is_error ≡ o
    → follow_event o c.sm ≡ (m, none)
    → (m.command_only ≡ false) × (c.document ≡ none → before_patch m.state ≡ true)
followed-IsUnpatched c call m none w h t = (
  ap (λ r. r.0.command_only) (sym t) ∙ w.kind,
  λ d. ap (λ r. before_patch r.0.state) (sym t) ∙ w.early d,
)
followed-IsUnpatched c call m (some e) w h t =
    let (state, same) = called-state c.sm m e t in
    (
      same ∙ w.kind,
      λ d. ground (arith, state, w.early d, event_of_where call.tool c.sm.state call.is_error e h),
    )

module _ (S : Settings) (A : List RawOp → Type 0) where
  move-IsUnpatched : {c d : Core} → IsUnpatched c → ◌⟶◌ S A c d → IsUnpatched d
  move-IsUnpatched w stays = w
  move-IsUnpatched {c} w (refused key may) =
      let (state, same) = record_patch_attempt-same c.sm key in
      record { kind = same ∙ w.kind; early = λ d. ap before_patch state ∙ w.early d }
  move-IsUnpatched {c} w (fails key sm may t) =
      let (state, same) = patched-state c.sm sm key patch_failed t in
      record { kind = same ∙ w.kind; early = λ d. ap before_patch state }
  move-IsUnpatched {c} w (lands key ops sm clean may is t) =
      let (state, same) = patched-state c.sm sm key _ t in
      record { kind = same ∙ w.kind; early = λ d. cc }
  move-IsUnpatched {c} w (explores call sm phase room is) =
      let (same, early) = followed-IsUnpatched c call sm _ w refl is.follows in
      record { kind = same; early = early }
  move-IsUnpatched {c} w (verifies call sm phase room is) =
      let (same, early) = followed-IsUnpatched c call sm _ w refl is.follows in
      record { kind = same; early = early }

  reach-IsUnpatched : {c d : Core} → IsUnpatched c → Reaches S A c d → IsUnpatched d
  reach-IsUnpatched w here = w
  reach-IsUnpatched w (onward way move) = move-IsUnpatched (reach-IsUnpatched w way) move

  -- The patch of a core has been applied.
  abbrev IsApplied : Core → Type 0
  IsApplied c = (ops : List RawOp) → c.document ≡ some ops → A ops

  move-IsApplied : {c d : Core} → IsApplied c → ◌⟶◌ S A c d → IsApplied d
  move-IsApplied w stays = w
  move-IsApplied w (refused key may) = w
  move-IsApplied w (fails key sm may t) = w
  move-IsApplied w (lands key ops sm clean may is t) = λ ops' e. subst A (some_same e) is
  move-IsApplied w (explores call sm phase room is) = w
  move-IsApplied w (verifies call sm phase room is) = w

  reach-IsApplied : {c d : Core} → IsApplied c → Reaches S A c d → IsApplied d
  reach-IsApplied w here = w
  reach-IsApplied w (onward way move) = move-IsApplied (reach-IsApplied w way) move

opening-IsUnpatched : (used : ℕ) → IsUnpatched (opening false used)
opening-IsUnpatched used =
    let (state, same) = new-state false in
    record { kind = same; early = λ d. ap before_patch state }

may_finish-before_patch :
    (s : VerifyPhaseState) → may_finish false s ≡ true → before_patch s ≡ false
unfolding may_finish
may_finish-before_patch s h = ground arith

module _ {World Candidate Baseline : Type 0} (C : Collaborators World Candidate Baseline)
    (S : Settings) where
  -- A step with files to patch is reported as verified only behind an applied patch, unless
  -- verification is skipped: however the model answers, the outcome holds the ops of a patch; and
  -- where there is a patch engine and a shadow, these ops are a valid document whose first candidate
  -- the engine has applied with success. Where there is none, the loop takes the ops as applied.
  pub run-document_of :
      (world : World) (history : List Entry) (used : ℕ) (outcome : StepOutcome) (st : State C S)
      → command_only C S world ≡ false
      → S.skip_verify ≡ false
      → run C S world history used ≡ finished outcome st
      → claims_verified outcome ≡ true
      → (ops : List RawOp) × (document_of outcome ≡ some ops) × WasApplied C S ops
  run-document_of world history used outcome st kind skips h claim =
      let A = WasApplied C S in
      let (d, way, final) =
        subst (λ r. Ends S A (opening false used) r) h
          (subst (λ k. Ends S A (opening k used) (run C S world history used)) kind
            (run-Ends C S world history used)) in
      let w = reach-IsUnpatched S A (opening-IsUnpatched used) way in
      let admitted = Final-IsAdmitted S A d outcome skips final claim in
      elim (Option-cases d.document) [
        | inl missing ↦
            let late =
              may_finish-before_patch d.sm.state
                (subst (λ k. may_finish k d.sm.state ≡ true) w.kind admitted.finishes) in
            let early = w.early missing in cc
        | inr (ops, e) ↦
            let applied = reach-IsApplied S A {d = d} (λ ops' none_there. cc) way ops e in
            (ops, admitted.document ∙ e, applied)
      ]
