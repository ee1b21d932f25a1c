-- ===== src/Verify/Tools.antt =====
-- What the verify-phase machine lets the model do, and the cache of attempted patches
-- (tools/verify_phase_sm.py).
use shadow_forge.Base.{
  ◌≡◌, refl, sym, ap, ◌∙◌, ◌↔◌, ◌⊎◌, inl, inr, ◌≢◌, ℕ, Bool, true, false, List, [], ◌∷◌, ◌++◌, none,
  some, arith, if◌then◌else◌, any, ◌==◌, eq_iff,
}
use shadow_forge.Verify.{
  VerifyPhaseState, VerifyPhaseEvent, VerifyPhaseStateMachine, invalid_transition, exhausted,
  emit_patch, verify_done, run_command, has_tool, PatchKey, key_eq, transition, allowed_tools,
  ActionType, allowed_action_types, tool_call, revision_needed, emit_patch_action,
  verify_done_action, check_patch_dedup, record_patch_attempt, explore, new, patch_failed,
  read_called, patch_failed_must_read, patch_failed_can_retry,
}

-- The state that an accepted event leads to, whatever the state before.
abbrev pub after : VerifyPhaseEvent → VerifyPhaseState
after patch_failed = patch_failed_must_read
after read_called = patch_failed_can_retry
after VerifyPhaseEvent.postpatch_blocking = VerifyPhaseState.postpatch_blocking
after VerifyPhaseEvent.postpatch_clean = VerifyPhaseState.postpatch_clean
after VerifyPhaseEvent.test_passed = VerifyPhaseState.test_passed
after VerifyPhaseEvent.test_failed = VerifyPhaseState.test_failed

pub transition-after :
    (sm : VerifyPhaseStateMachine) (e : VerifyPhaseEvent)
    → (transition sm e).1 ≡ none
    → ((transition sm e).0.state ≡ after e)
      × ((transition sm e).0.command_only ≡ sm.command_only)
      × ((transition sm e).0.seen_patch_calls ≡ [])
unfolding transition
transition-after sm e h = ground arith

allowed_after :
    (sm : VerifyPhaseStateMachine) (e : VerifyPhaseEvent)
    → sm.state ≡ after e
    → ((has_tool verify_done (allowed_tools sm) ≡ true) ↔ (
        (e ≡ VerifyPhaseEvent.test_passed)
        ⊎ ((e ≡ VerifyPhaseEvent.postpatch_clean) × (sm.command_only ≡ false))))
      × ((has_tool emit_patch (allowed_tools sm) ≡ true) ↔ (
          (e ≡ read_called)
          ⊎ (e ≡ VerifyPhaseEvent.postpatch_blocking)
          ⊎ (e ≡ VerifyPhaseEvent.test_failed)))
unfolding allowed_tools
allowed_after sm patch_failed h = ground arith
allowed_after sm _ h = ground arith

-- After an accepted event the model may finish exactly if the event says that the tests passed,
-- or that the patch is clean and the step is not command-only; and it may patch exactly if the
-- event is a read, a blocking check of a patch, or a failed test.
pub transition-allowed_tools :
    (sm : VerifyPhaseStateMachine) (e : VerifyPhaseEvent)
    → (transition sm e).1 ≡ none
    → let allowed = allowed_tools (transition sm e).0 in
      ((has_tool verify_done allowed ≡ true) ↔ (
        (e ≡ VerifyPhaseEvent.test_passed)
        ⊎ ((e ≡ VerifyPhaseEvent.postpatch_clean) × (sm.command_only ≡ false))))
      × ((has_tool emit_patch allowed ≡ true) ↔ (
          (e ≡ read_called)
          ⊎ (e ≡ VerifyPhaseEvent.postpatch_blocking)
          ⊎ (e ≡ VerifyPhaseEvent.test_failed)))
transition-allowed_tools sm e h =
    let (state, kind, seen) = transition-after sm e h in
    let facts = allowed_after (transition sm e).0 e state in rw kind at facts

abbrev type_rank : ActionType → ℕ
type_rank tool_call = 0
type_rank revision_needed = 1
type_rank emit_patch_action = 2
type_rank verify_done_action = 3

abbrev pub has_type : ActionType → List ActionType → Bool
has_type t ts = any (λ s. type_rank s == type_rank t) ts

-- The response types mirror the tools: `emit_patch` and `verify_done` are offered as types exactly
-- when they are allowed as tools, and `tool_call` and `revision_needed` always are.
pub allowed_action_types-mirror :
    (sm : VerifyPhaseStateMachine)
    → (has_type emit_patch_action (allowed_action_types sm)
        ≡ has_tool emit_patch (allowed_tools sm))
      × (has_type verify_done_action (allowed_action_types sm)
          ≡ has_tool verify_done (allowed_tools sm))
      × (has_type tool_call (allowed_action_types sm) ≡ true)
      × (has_type revision_needed (allowed_action_types sm) ≡ true)
unfolding allowed_action_types
allowed_action_types-mirror sm =
    offered (has_tool emit_patch (allowed_tools sm)) (has_tool verify_done (allowed_tools sm))
  where
    offered :
        (p d : Bool)
        → let types =
            tool_call
            ∷ revision_needed
            ∷ ((if p then emit_patch_action ∷ [] else [])
                ++ (if d then verify_done_action ∷ [] else [])) in
          (has_type emit_patch_action types ≡ p)
          × (has_type verify_done_action types ≡ d)
          × (has_type tool_call types ≡ true)
          × (has_type revision_needed types ≡ true)
    offered true true = (refl, refl, refl, refl)
    offered true false = (refl, refl, refl, refl)
    offered false true = (refl, refl, refl, refl)
    offered false false = (refl, refl, refl, refl)

-- A model that keeps to the tools it is offered never meets an undefined transition: where
-- `emit_patch` is allowed its three outcomes are defined or exhaust the step, where `run_command` is
-- allowed its two outcomes are defined, and where a patch has failed so is the read.
pub allowed_tools-transition :
    (sm : VerifyPhaseStateMachine) (s : VerifyPhaseState) (e f : VerifyPhaseEvent)
    → ((has_tool emit_patch (allowed_tools sm) ≡ true)
        × ((e ≡ patch_failed)
            ⊎ (e ≡ VerifyPhaseEvent.postpatch_blocking)
            ⊎ (e ≡ VerifyPhaseEvent.postpatch_clean)))
      ⊎ ((has_tool run_command (allowed_tools sm) ≡ true)
          × ((e ≡ VerifyPhaseEvent.test_passed) ⊎ (e ≡ VerifyPhaseEvent.test_failed)))
      ⊎ ((sm.state ≡ patch_failed_must_read) × (e ≡ read_called))
    → (transition sm e).1 ≢ some (invalid_transition s f)
unfolding allowed_tools transition
allowed_tools-transition sm s e f h = ground arith

-- An attempt of a patch leaves the offered tools as they are, and raises no undefined transition.
pub allowed_tools-record_patch_attempt :
    (sm : VerifyPhaseStateMachine) (key : PatchKey)
    → allowed_tools (record_patch_attempt sm key) ≡ allowed_tools sm
unfolding allowed_tools record_patch_attempt
allowed_tools-record_patch_attempt sm key = refl

pub patch-transition :
    (sm : VerifyPhaseStateMachine) (key : PatchKey) (s : VerifyPhaseState) (e f : VerifyPhaseEvent)
    → has_tool emit_patch (allowed_tools sm) ≡ true
    → (e ≡ patch_failed)
      ⊎ (e ≡ VerifyPhaseEvent.postpatch_blocking)
      ⊎ (e ≡ VerifyPhaseEvent.postpatch_clean)
    → (transition (record_patch_attempt sm key) e).1 ≢ some (invalid_transition s f)
patch-transition sm key s e f may h =
    allowed_tools-transition (record_patch_attempt sm key) s e f
      (inl (rw (allowed_tools-record_patch_attempt sm key) may, h))

pub record_patch_attempt-same :
    (sm : VerifyPhaseStateMachine) (key : PatchKey)
    → ((record_patch_attempt sm key).state ≡ sm.state)
      × ((record_patch_attempt sm key).command_only ≡ sm.command_only)
unfolding record_patch_attempt
record_patch_attempt-same sm key = (refl, refl)

pub patched-state :
    (sm m : VerifyPhaseStateMachine) (key : PatchKey) (e : VerifyPhaseEvent)
    → transition (record_patch_attempt sm key) e ≡ (m, none)
    → (m.state ≡ after e) × (m.command_only ≡ sm.command_only)
patched-state sm m key e t =
    let (state, kind, seen) = transition-after (record_patch_attempt sm key) e (ap (λ r. r.1) t) in
    (
      ap (λ r. r.0.state) (sym t) ∙ state,
      ap (λ r. r.0.command_only) (sym t) ∙ kind ∙ (record_patch_attempt-same sm key).1,
    )

pub called-state :
    (sm m : VerifyPhaseStateMachine) (e : VerifyPhaseEvent)
    → transition sm e ≡ (m, none)
    → (m.state ≡ after e) × (m.command_only ≡ sm.command_only)
called-state sm m e t =
    let (state, kind, seen) = transition-after sm e (ap (λ r. r.1) t) in
    (ap (λ r. r.0.state) (sym t) ∙ state, ap (λ r. r.0.command_only) (sym t) ∙ kind)

pub new-state :
    (command_only : Bool)
    → ((new command_only).state
        ≡ (if command_only then VerifyPhaseState.postpatch_clean else explore))
      × ((new command_only).command_only ≡ command_only)
unfolding new
new-state command_only = (refl, refl)

-- A failed event other than PATCH_FAILED is undefined: only a failed patch exhausts the step.
pub transition-exhausted :
    (sm : VerifyPhaseStateMachine) (e : VerifyPhaseEvent)
    → e ≢ patch_failed
    → (transition sm e).1 ≢ some exhausted
unfolding transition
transition-exhausted sm e h = ground arith

-- The events of calls are defined where the loop fires them.
pub read-accepted :
    (sm : VerifyPhaseStateMachine)
    → sm.state ≡ patch_failed_must_read
    → (transition sm read_called).1 ≡ none
unfolding transition
read-accepted sm h = ground arith

pub test-accepted :
    (sm : VerifyPhaseStateMachine) (e : VerifyPhaseEvent)
    → (sm.state ≡ VerifyPhaseState.postpatch_clean) ⊎ (sm.state ≡ VerifyPhaseState.test_failed)
    → (e ≡ VerifyPhaseEvent.test_passed) ⊎ (e ≡ VerifyPhaseEvent.test_failed)
    → (transition sm e).1 ≡ none
unfolding transition
test-accepted sm e s h = ground arith

key_eq_iff : (j k : PatchKey) → (key_eq j k ≡ true) ↔ (j ≡ k)
key_eq_iff [] [] = (λ h. refl, λ h. refl)
key_eq_iff [] (t ∷ ts) = (λ h. cc, λ h. cc)
key_eq_iff (s ∷ ss) [] = (λ h. cc, λ h. cc)
key_eq_iff (s ∷ ss) (t ∷ ts) = (
  λ h. ground (arith, eq_iff s t, key_eq_iff ss ts),
  λ h. ground (arith, eq_iff s t, key_eq_iff ss ts),
)

abbrev pub recorded : VerifyPhaseStateMachine → List PatchKey → VerifyPhaseStateMachine
recorded sm [] = sm
recorded sm (k ∷ ks) = recorded (record_patch_attempt sm k) ks

-- The key is one of the keys.
abbrev pub IsOneOf : PatchKey → List PatchKey → Type 0
IsOneOf key [] = ⊥
IsOneOf key (k ∷ ks) = (k ≡ key) ⊎ IsOneOf key ks

recorded_lem :
    (ks : List PatchKey) (sm : VerifyPhaseStateMachine) (key : PatchKey)
    → (check_patch_dedup (recorded sm ks) key ≡ true)
      ↔ ((check_patch_dedup sm key ≡ true) ⊎ IsOneOf key ks)
unfolding check_patch_dedup record_patch_attempt
recorded_lem [] sm key = (λ h. inl h, λ h. ground arith)
recorded_lem (k ∷ ks) sm key =
    let ih = recorded_lem ks (record_patch_attempt sm k) key in
    (λ h. ground (arith, ih.0 h, key_eq_iff k key), λ h. ground (arith, ih.1, key_eq_iff k key))

-- The cache holds exactly the patches attempted since the last accepted event: a patch is a
-- duplicate if and only if it was recorded in the current stay, in whatever order.
pub check_patch_dedup_iff :
    (sm : VerifyPhaseStateMachine) (e : VerifyPhaseEvent) (ks : List PatchKey) (key : PatchKey)
    → (transition sm e).1 ≡ none
    → (check_patch_dedup (recorded (transition sm e).0 ks) key ≡ true) ↔ IsOneOf key ks
unfolding check_patch_dedup
check_patch_dedup_iff sm e ks key h =
    let empty = (transition-after sm e h).2 in
    let (found, back) = recorded_lem ks (transition sm e).0 key in
    (λ d. ground (arith, found d, empty), λ one. back (inr one))
