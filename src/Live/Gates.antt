-- ===== src/Live/Gates.antt =====
-- What is shown together (chat/live_state.py).
use shadow_forge.Base.{
  ◌≡◌, refl, ◌↔◌, ◌⊎◌, inl, inr, String, true, Option, none, some, arith, Option-cases,
}
use shadow_forge.Task.{TaskStatus, queued}
use shadow_forge.Task.Lifecycle.{is_terminal}
use shadow_forge.Live.{
  done, failed_chip, thread_status_chip, LiveTask, ThreadLiveState, gate_field, live_of,
  empty_state, ChatThread, resolve_live_state, resolve_thread_live,
}

-- The chip of a status says done or failed exactly if the status is terminal in the life cycle of
-- tasks.
pub thread_status_chip-is_terminal :
    (s : TaskStatus)
    → (is_terminal s ≡ true) ↔ (
        (thread_status_chip (some s) ≡ some done)
        ⊎ (thread_status_chip (some s) ≡ some failed_chip))
unfolding thread_status_chip
thread_status_chip-is_terminal queued = ground arith
thread_status_chip-is_terminal _ = ground arith

-- A task shows at most one of a gate, a plan and a failure.
abbrev pub ShowsOne : ThreadLiveState → Type 0
ShowsOne live =
    ((live.plan ≡ none) × (live.failure_summary ≡ none))
    ⊎ ((live.pending_gate ≡ none) × (live.failure_summary ≡ none))
    ⊎ ((live.pending_gate ≡ none) × (live.plan ≡ none))

live_of-ShowsOne : (task : LiveTask) → ShowsOne (live_of task)
unfolding live_of gate_field
live_of-ShowsOne task = by_status task.status refl
  where
    by_status : (s : TaskStatus) → task.status ≡ s → ShowsOne (live_of task)
    by_status queued e = ground arith
    by_status _ e = ground arith

resolve_live_state-ShowsOne :
    (id : Option String) (get_task : String → Option LiveTask)
    → ShowsOne (resolve_live_state id get_task)
unfolding resolve_live_state empty_state
resolve_live_state-ShowsOne none get_task = inl (refl, refl)
resolve_live_state-ShowsOne (some id) get_task = elim (Option-cases (get_task id)) [
  | inl e ↦ rw (e, resolve_live_state) (inl (refl, refl))
  | inr (task, e) ↦ rw (e, resolve_live_state) (live_of-ShowsOne task)
]

-- Whatever the thread, its task and the controller's gate are, at most one of three things is shown:
-- a gate that waits, a plan to approve, or the summary of a failure.
pub resolve_thread_live-ShowsOne :
    (thread : Option ChatThread) (id : Option String) (get_task : String → Option LiveTask)
    → ShowsOne (resolve_thread_live thread id get_task)
unfolding resolve_thread_live empty_state
resolve_thread_live-ShowsOne none id get_task = resolve_live_state-ShowsOne id get_task
resolve_thread_live-ShowsOne (some thread) id get_task =
    elim (Option-cases thread.pending_controller_gate) [
      | inl e ↦ rw (e, resolve_thread_live) (resolve_live_state-ShowsOne id get_task)
      | inr (gate, e) ↦ rw (e, resolve_thread_live) (inl (refl, refl))
    ]
