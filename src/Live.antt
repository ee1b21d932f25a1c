-- ===== src/Live.antt =====
-- What the chat shows of a task (services/agentd-py/agentd/chat/live_state.py). A payload, a plan and
-- a summary are texts; a payload that is missing or an empty dictionary is `none`.
pub mod Gates
mod Tests
use shadow_forge.Base.{String, Bool, true, false, List, [], ◌∷◌, Option, none, some, if◌then◌else◌}
use shadow_forge.Task.{
  TaskStatus, queued, context_ready, awaiting_plan_approval, planned, executing,
  awaiting_scope_decision, awaiting_step_review, validating, repairing,
  awaiting_validation_decision, awaiting_command_decision, validated, ready_for_review, promoting,
  succeeded, failed, aborted,
}

pub data GateKind : Type 0 where
  command_gate step_gate scope_gate validation_gate : GateKind

-- The gates of a controller turn stand on the thread.
pub data PendingGate : Type 0 where
  task_gate : GateKind → String → PendingGate
  controller_gate : String → PendingGate

pub data Chip : Type 0 where
  running review done failed_chip : Chip

pub thread_status_chip : Option TaskStatus → Option Chip
thread_status_chip none = none
thread_status_chip (some s) = elim s [
  | queued ↦ some running
  | context_ready ↦ some running
  | planned ↦ some running
  | executing ↦ some running
  | validating ↦ some running
  | repairing ↦ some running
  | validated ↦ some running
  | promoting ↦ some running
  | awaiting_plan_approval ↦ some review
  | awaiting_step_review ↦ some review
  | awaiting_command_decision ↦ some review
  | awaiting_scope_decision ↦ some review
  | awaiting_validation_decision ↦ some review
  | ready_for_review ↦ some review
  | succeeded ↦ some done
  | failed ↦ some failed_chip
  | aborted ↦ some failed_chip
]

-- The pending payloads of `execution_state`.
pub record Pending : Type 0 where
  pub pending_command_request : Option String
  pub pending_step_review : Option String
  pub pending_scope_request : Option String
  pub pending_validation : Option String

-- The fields of a task that are read here. A plan that is missing or empty is `none`.
pub record LiveTask : Type 0 where
  pub task_id : String
  pub status : TaskStatus
  pub pending : Pending
  pub plan_markdown : Option String
  pub failure_summary : Option String
  pub run_summary : Option String
  pub task_narrative : Option String

-- Without `turn_active`, which the HTTP route sets.
pub record ThreadLiveState : Type 0 where
  pub active_task_id : Option String
  pub status : Option TaskStatus
  pub pending_gate : Option PendingGate
  pub plan : Option String
  pub failure_summary : Option String
  pub run_summary : Option String
  pub task_narrative : Option String
  pub todos : Option String

pub empty_state : ThreadLiveState
empty_state = record {
  active_task_id = none;
  status = none;
  pending_gate = none;
  plan = none;
  failure_summary = none;
  run_summary = none;
  task_narrative = none;
  todos = none;
}

-- The table `_GATE_FIELD`, with the payload that the field holds.
pub gate_field : TaskStatus → Pending → Option (GateKind × Option String)
gate_field awaiting_command_decision p = some (command_gate, p.pending_command_request)
gate_field awaiting_step_review p = some (step_gate, p.pending_step_review)
gate_field awaiting_scope_decision p = some (scope_gate, p.pending_scope_request)
gate_field awaiting_validation_decision p = some (validation_gate, p.pending_validation)
gate_field _ p = none

-- A gate with no payload is not shown.
abbrev pub gate_of : Option (GateKind × Option String) → Option PendingGate
gate_of (some (kind, some payload)) = some (task_gate kind payload)
gate_of _ = none

abbrev is_awaiting_plan : TaskStatus → Bool
is_awaiting_plan awaiting_plan_approval = true
is_awaiting_plan _ = false

abbrev has_ended_badly : TaskStatus → Bool
has_ended_badly failed = true
has_ended_badly aborted = true
has_ended_badly _ = false

pub live_of : LiveTask → ThreadLiveState
unfolding gate_field
live_of task = record {
  active_task_id = some task.task_id;
  status = some task.status;
  pending_gate = gate_of (gate_field task.status task.pending);
  plan = if is_awaiting_plan task.status then task.plan_markdown else none;
  failure_summary = if has_ended_badly task.status then task.failure_summary else none;
  run_summary = task.run_summary;
  task_narrative = task.task_narrative;
  todos = none;
}

-- The id of the active task that is missing or empty is `none`; `get_task` gives `none` where it
-- raises `KeyError`.
pub resolve_live_state : Option String → (String → Option LiveTask) → ThreadLiveState
unfolding live_of empty_state
resolve_live_state none get_task = empty_state
resolve_live_state (some id) get_task = elim (get_task id) [
  | none ↦ empty_state
  | some task ↦ live_of task
]

pub record ChatThread : Type 0 where
  pub controller_todos : Option String
  pub pending_controller_gate : Option PendingGate

pub resolve_thread_live :
    Option ChatThread → Option String → (String → Option LiveTask) → ThreadLiveState
unfolding resolve_live_state empty_state
resolve_thread_live none id get_task = resolve_live_state id get_task
resolve_thread_live (some thread) id get_task = elim thread.pending_controller_gate [
  | some gate ↦ record empty_state {
    active_task_id = id;
    pending_gate = some gate;
    todos = thread.controller_todos;
  }
  | none ↦ record (resolve_live_state id get_task) { todos = thread.controller_todos }
]
