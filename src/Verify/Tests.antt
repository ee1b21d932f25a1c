-- ===== src/Verify/Tests.antt =====
-- Runs of the verify-phase machine.
use shadow_forge.Base.{◌≡◌, refl, ◌≢◌, ◌↔◌, inl, ◌≤◌, true, false, List, [], ◌∷◌, none, some}
use shadow_forge.Verify.{
  VerifyPhaseEvent, VerifyPhaseStateMachine, exhausted, invalid_transition, emit_patch, has_tool,
  PatchKey, new, transition, allowed_tools, check_patch_dedup, patch_failed, read_called,
  is_terminal, explore,
}
use shadow_forge.Verify.Retries.{
  run_events, Counts, run_events-Counts, count_failed, count_read, exhausted_needs, recovery,
  run_events-recovery,
}
use shadow_forge.Verify.Tools.{allowed_tools-transition, recorded, IsOneOf, check_patch_dedup_iff}

abbrev fresh : VerifyPhaseStateMachine
fresh = record { command_only = false; state = explore; retry_count = 0; seen_patch_calls = [] }

abbrev one_retry : List VerifyPhaseEvent
one_retry = patch_failed ∷ read_called ∷ patch_failed ∷ read_called ∷ []

-- Six failed patches with a read after each of the first five.
abbrev six_failures : List VerifyPhaseEvent
six_failures =
    patch_failed ∷ read_called ∷ patch_failed ∷ read_called ∷ patch_failed ∷ read_called
    ∷ patch_failed ∷ read_called ∷ patch_failed ∷ read_called ∷ patch_failed ∷ []

one_retry_accepted : (run_events one_retry (new false)).1 ≡ none
unfolding run_events transition new
one_retry_accepted = refl

six_failures_exhaust : (run_events six_failures (new false)).1 ≡ some exhausted
unfolding run_events transition new
six_failures_exhaust = refl

run_events-Counts_example : Counts (run_events one_retry (new false)).0
run_events-Counts_example = run_events-Counts false one_retry one_retry_accepted

exhausted_needs_example : (6 ≤ count_failed six_failures) × (5 ≤ count_read six_failures)
exhausted_needs_example = exhausted_needs false six_failures six_failures_exhaust

run_events-recovery_example :
    ((run_events (recovery explore) fresh).1 ≡ none)
    × (is_terminal (run_events (recovery explore) fresh).0 ≡ true)
run_events-recovery_example = run_events-recovery fresh

clean_accepted : (transition fresh VerifyPhaseEvent.postpatch_clean).1 ≡ none
unfolding transition
clean_accepted = refl

patch_offered : has_tool emit_patch (allowed_tools fresh) ≡ true
unfolding allowed_tools
patch_offered = refl

allowed_tools-transition_example :
    (transition fresh patch_failed).1 ≢ some (invalid_transition explore patch_failed)
allowed_tools-transition_example =
    allowed_tools-transition fresh explore patch_failed patch_failed (inl (patch_offered, inl refl))

abbrev keys : List PatchKey
keys = ("op1" ∷ []) ∷ ("op1" ∷ "op2" ∷ []) ∷ []

check_patch_dedup_iff_example :
    (check_patch_dedup
        (recorded (transition fresh VerifyPhaseEvent.postpatch_clean).0 keys)
        ("op2" ∷ [])
      ≡ true)
    ↔ IsOneOf ("op2" ∷ []) keys
check_patch_dedup_iff_example =
    check_patch_dedup_iff fresh VerifyPhaseEvent.postpatch_clean keys ("op2" ∷ []) clean_accepted
