-- ===== src/Loop/Bounds.antt =====
-- What the budget of a step admits.
use shadow_forge.Base.{
  ℕ, Bool, ◌+◌, ◌≤◌, ◌≡◌, refl, ap, ◌≢◌, List, [], ◌∷◌, arith, length, length-append,
}
use mathlib.Core.Path.{subst}
use shadow_forge.Loop.{
  RawOp, Entry, Call, StepOutcome, verify_result, plan_handoff, Collaborators, Settings, finished,
  raised, invalid_transition,
}
use shadow_forge.Loop.Patch.{State}
use shadow_forge.Loop.Run.{run}
use shadow_forge.Loop.Run.Follows.{run-Ends, command_only}
use shadow_forge.Loop.Patch.Follows.{WasApplied}
use shadow_forge.Loop.Moves.{
  Core, opening, ◌⟶◌, stays, refused, fails, lands, explores, verifies, Final, confirmed,
  unverified, gave_up, handed_over, Reaches, here, onward, Ends,
}

-- The calls that an outcome reports.
abbrev pub trace_of : StepOutcome → List Call
trace_of (verify_result _ _ _ _ _ calls) = calls
trace_of (plan_handoff _ _ _ calls) = calls

pub record IsWithin (S : Settings) (used : ℕ) (c : Core) : Type 0 where
  pub explored : c.explore_calls ≤ S.max_tool_calls_per_step
  pub verified : c.verify_calls ≤ S.max_verify_calls_per_step
  pub counted : c.used ≡ used + c.explore_calls + c.verify_calls
  pub traced : length c.calls ≡ c.explore_calls + c.verify_calls

module _ (S : Settings) (A : List RawOp → Type 0) where
  move-IsWithin : (used : ℕ) {c d : Core} → IsWithin S used c → ◌⟶◌ S A c d → IsWithin S used d
  move-IsWithin used w stays = w
  move-IsWithin used w (refused key may) = record {
    explored = w.explored;
    verified = w.verified;
    counted = w.counted;
    traced = w.traced;
  }
  move-IsWithin used w (fails key sm may t) = record {
    explored = w.explored;
    verified = w.verified;
    counted = w.counted;
    traced = w.traced;
  }
  move-IsWithin used w (lands key ops sm clean may is t) = record {
    explored = w.explored;
    verified = w.verified;
    counted = w.counted;
    traced = w.traced;
  }
  move-IsWithin used {c} w (explores call sm phase room is) = record {
    explored = room;
    verified = w.verified;
    counted = omega (arith, w.counted);
    traced = omega (arith, w.traced, length-append c.calls (call ∷ []));
  }
  move-IsWithin used {c} w (verifies call sm phase room is) = record {
    explored = w.explored;
    verified = room;
    counted = omega (arith, w.counted);
    traced = omega (arith, w.traced, length-append c.calls (call ∷ []));
  }

  reach-IsWithin : (used : ℕ) {c d : Core} → IsWithin S used c → Reaches S A c d → IsWithin S used d
  reach-IsWithin used w here = w
  reach-IsWithin used w (onward way move) = move-IsWithin used (reach-IsWithin used w way) move

  Final-trace_of :
      {c : Core} {outcome : StepOutcome} → Final S A c outcome → trace_of outcome ≡ c.calls
  Final-trace_of (confirmed _ _ _ _ _ _ _ _ e) = e
  Final-trace_of (unverified _ _ _ _ _ _ _ _ e) = e
  Final-trace_of (gave_up _ _ _ _ e) = e
  Final-trace_of (handed_over _ _ _) = refl

opening-IsWithin :
    (S : Settings) (command_only : Bool) (used : ℕ) → IsWithin S used (opening command_only used)
opening-IsWithin S command_only used = record {
  explored = omega arith;
  verified = omega arith;
  counted = omega arith;
  traced = omega arith;
}

module _ {World Candidate Baseline : Type 0} (C : Collaborators World Candidate Baseline)
    (S : Settings) where
  -- However the model answers, a step that returns has carried out at most as many tool calls as the
  -- two budgets admit together: its trace is no longer than their sum.
  pub run-trace_of :
      (world : World) (history : List Entry) (used : ℕ) (outcome : StepOutcome) (st : State C S)
      → run C S world history used ≡ finished outcome st
      → length (trace_of outcome) ≤ S.max_tool_calls_per_step + S.max_verify_calls_per_step
  run-trace_of world history used outcome st h =
      let (d, way, final) =
        subst (λ r. Ends S (WasApplied C S) (opening (command_only C S world) used) r) h
          (run-Ends C S world history used) in
      let w =
        reach-IsWithin S (WasApplied C S) used (opening-IsWithin S (command_only C S world) used)
          way in
      omega (
        arith,
        w.explored,
        w.verified,
        w.traced,
        ap length (Final-trace_of S (WasApplied C S) final),
      )

  -- However the model answers, the loop fires no event that its machine does not define: the
  -- exception of an undefined transition never leaves it.
  pub run-defined :
      (world : World) (history : List Entry) (used : ℕ) (st : State C S)
      → run C S world history used ≢ raised invalid_transition st
  run-defined world history used st h =
      subst (λ r. Ends S (WasApplied C S) (opening (command_only C S world) used) r) h
        (run-Ends C S world history used) refl
