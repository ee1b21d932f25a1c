-- ===== src/Verify/Retries.antt =====
-- Runs of the verify-phase machine: the retry counter, exhaustion and recovery
-- (tools/verify_phase_sm.py).
use mathlib.Core.Path.{subst}
use shadow_forge.Base.{
  ap, ◌∙◌, ℕ, suc, ◌+◌, ◌≤◌, ◌<◌, ◌≡◌, refl, Bool, true, false, List, [], ◌∷◌, Option, none, some,
  arith,
}
use shadow_forge.Verify.{
  VerifyPhaseState, VerifyPhaseEvent, VerifyPhaseStateMachine, VerifyPhaseError, exhausted,
  in_failed_patch, new, transition, is_terminal, patch_failed, read_called, explore,
  patch_failed_must_read, patch_failed_can_retry,
}

-- The events of a step in order. The first exception ends the run.
abbrev run_rest :
    (VerifyPhaseStateMachine → VerifyPhaseStateMachine × Option VerifyPhaseError)
    → VerifyPhaseStateMachine × Option VerifyPhaseError
    → VerifyPhaseStateMachine × Option VerifyPhaseError
run_rest go (sm, none) = go sm
run_rest go (sm, some e) = (sm, some e)

unfoldable pub run_events :
    List VerifyPhaseEvent
    → VerifyPhaseStateMachine
    → VerifyPhaseStateMachine × Option VerifyPhaseError
run_events [] sm = (sm, none)
run_events (e ∷ es) sm = run_rest (run_events es) (transition sm e)

-- The counter stays below the bound, and it is zero unless a patch has just failed.
pub record Counts (sm : VerifyPhaseStateMachine) : Type 0 where
  pub below : sm.retry_count < 5
  pub idle : in_failed_patch sm.state ≡ false → sm.retry_count ≡ 0

new-Counts : (command_only : Bool) → Counts (new command_only)
unfolding new
new-Counts command_only = ground arith

transition-Counts :
    (sm : VerifyPhaseStateMachine) (e : VerifyPhaseEvent)
    → Counts sm
    → (transition sm e).1 ≡ none
    → Counts (transition sm e).0
unfolding transition
transition-Counts sm e c h = ground arith

run_rest-Counts :
    (go : VerifyPhaseStateMachine → VerifyPhaseStateMachine × Option VerifyPhaseError)
    (r : VerifyPhaseStateMachine × Option VerifyPhaseError)
    → ((r.1 ≡ none) → (go r.0).1 ≡ none → Counts (go r.0).0)
    → (run_rest go r).1 ≡ none
    → Counts (run_rest go r).0
run_rest-Counts go (sm, none) k h = k refl h
run_rest-Counts go (sm, some e) k h = cc

run_events-Counts_from :
    (es : List VerifyPhaseEvent) (sm : VerifyPhaseStateMachine)
    → Counts sm
    → (run_events es sm).1 ≡ none
    → Counts (run_events es sm).0
unfolding run_events
run_events-Counts_from [] sm c h = c
run_events-Counts_from (e ∷ es) sm c h =
    run_rest-Counts (run_events es) (transition sm e)
      (λ went. run_events-Counts_from es (transition sm e).0 (transition-Counts sm e c went)) h

-- After every run from the start with no exception the retry counter is below MAX_PATCH_RETRIES,
-- and it is zero in every state but the two of a failed patch.
pub run_events-Counts :
    (command_only : Bool) (es : List VerifyPhaseEvent)
    → (run_events es (new command_only)).1 ≡ none
    → Counts (run_events es (new command_only)).0
run_events-Counts command_only es h =
    run_events-Counts_from es (new command_only) (new-Counts command_only) h

abbrev pub count_failed : List VerifyPhaseEvent → ℕ
count_failed [] = 0
count_failed (patch_failed ∷ es) = suc (count_failed es)
count_failed (_ ∷ es) = count_failed es

abbrev pub count_read : List VerifyPhaseEvent → ℕ
count_read [] = 0
count_read (read_called ∷ es) = suc (count_read es)
count_read (_ ∷ es) = count_read es

-- The failures and the reads that the machine has used up on its way to exhaustion.
abbrev used_failed : VerifyPhaseStateMachine → ℕ
used_failed sm = elim sm.state [
  | patch_failed_must_read ↦ sm.retry_count + 1
  | patch_failed_can_retry ↦ sm.retry_count + 1
  | _ ↦ 0
]

abbrev used_read : VerifyPhaseStateMachine → ℕ
used_read sm = elim sm.state [
  | patch_failed_must_read ↦ sm.retry_count
  | patch_failed_can_retry ↦ sm.retry_count + 1
  | _ ↦ 0
]

transition_used :
    (sm : VerifyPhaseStateMachine) (e : VerifyPhaseEvent)
    → Counts sm
    → (transition sm e).1 ≡ none
    → (used_failed (transition sm e).0 ≤ used_failed sm + count_failed (e ∷ []))
      × (used_read (transition sm e).0 ≤ used_read sm + count_read (e ∷ []))
unfolding transition
transition_used sm e c h = ground arith

transition_exhausted :
    (sm : VerifyPhaseStateMachine) (e : VerifyPhaseEvent)
    → Counts sm
    → (transition sm e).1 ≡ some exhausted
    → (5 ≤ used_failed sm) × (5 ≤ used_read sm) × (e ≡ patch_failed)
unfolding transition
transition_exhausted sm e c h = ground arith

counts-cons :
    (e : VerifyPhaseEvent) (es : List VerifyPhaseEvent)
    → (count_failed (e ∷ es) ≡ count_failed (e ∷ []) + count_failed es)
      × (count_read (e ∷ es) ≡ count_read (e ∷ []) + count_read es)
counts-cons patch_failed es = omega arith
counts-cons _ es = omega arith

abbrev Needs : VerifyPhaseStateMachine → List VerifyPhaseEvent → Type 0
Needs sm es = (6 ≤ used_failed sm + count_failed es) × (5 ≤ used_read sm + count_read es)

run_rest-Needs :
    (es : List VerifyPhaseEvent) (sm : VerifyPhaseStateMachine) (e : VerifyPhaseEvent)
    → Counts sm
    → (r : VerifyPhaseStateMachine × Option VerifyPhaseError) → transition sm e ≡ r
    → ((r.1 ≡ none) → (run_events es r.0).1 ≡ some exhausted → Needs r.0 es)
    → (run_rest (run_events es) r).1 ≡ some exhausted
    → Needs sm (e ∷ es)
run_rest-Needs es sm e c (sm', none) t k h = omega (
  arith,
  counts-cons e es,
  k refl h,
  subst
      (λ r.
        (used_failed r.0 ≤ used_failed sm + count_failed (e ∷ []))
        × (used_read r.0 ≤ used_read sm + count_read (e ∷ [])))
      t (transition_used sm e c (ap (λ r. r.1) t)),
)
run_rest-Needs es sm e c (sm', some x) t k h =
    let (f, r, is) = transition_exhausted sm e c (ap (λ r. r.1) t ∙ h) in
    ground (arith, counts-cons e es)

exhausted-Needs :
    (es : List VerifyPhaseEvent) (sm : VerifyPhaseStateMachine)
    → Counts sm
    → (run_events es sm).1 ≡ some exhausted
    → Needs sm es
unfolding run_events
exhausted-Needs [] sm c h = cc
exhausted-Needs (e ∷ es) sm c h =
    run_rest-Needs es sm e c (transition sm e) refl
      (λ went. exhausted-Needs es (transition sm e).0 (transition-Counts sm e c went)) h

-- If a run of the machine from its start ends with the exception of an exhausted step, then it
-- holds at least six failed patches and at least five reads.
pub exhausted_needs :
    (command_only : Bool) (es : List VerifyPhaseEvent)
    → (run_events es (new command_only)).1 ≡ some exhausted
    → (6 ≤ count_failed es) × (5 ≤ count_read es)
unfolding new
exhausted_needs true es h = omega (arith, exhausted-Needs es (new true) (new-Counts true) h)
exhausted_needs false es h = omega (arith, exhausted-Needs es (new false) (new-Counts false) h)

-- The events that lead from a state to TEST_PASSED.
abbrev pub recovery : VerifyPhaseState → List VerifyPhaseEvent
recovery patch_failed_must_read =
    read_called ∷ VerifyPhaseEvent.postpatch_clean ∷ VerifyPhaseEvent.test_passed ∷ []
recovery VerifyPhaseState.postpatch_clean = VerifyPhaseEvent.test_passed ∷ []
recovery VerifyPhaseState.test_failed = VerifyPhaseEvent.test_passed ∷ []
recovery VerifyPhaseState.test_passed = []
recovery _ = VerifyPhaseEvent.postpatch_clean ∷ VerifyPhaseEvent.test_passed ∷ []

recover :
    (s : VerifyPhaseState) (sm : VerifyPhaseStateMachine)
    → sm.state ≡ s
    → ((run_events (recovery s) sm).1 ≡ none) × (is_terminal (run_events (recovery s) sm).0 ≡ true)
unfolding run_events transition is_terminal
recover explore sm h = ground arith
recover _ sm h = ground arith

-- From every state of the machine the events of `recovery` lead to the terminal state with no
-- exception, whatever the retry counter is.
pub run_events-recovery :
    (sm : VerifyPhaseStateMachine)
    → ((run_events (recovery sm.state) sm).1 ≡ none)
      × (is_terminal (run_events (recovery sm.state) sm).0 ≡ true)
run_events-recovery sm = recover sm.state sm refl
