-- ===== src/Task.antt =====
-- The life cycle of a task (services/agentd-py/agentd/domain/state_machine.py, and the parts of
-- domain/models.py that it reads). A function that mutates the task returns the new record; a
-- `ValueError` or `RuntimeError` is an `err`, and then the task is as it was.
pub mod Lifecycle
pub mod Milestones
pub mod Budget
mod Tests
use shadow_forge.Base.{
  ℕ, ◌+◌, String, Bool, false, ◌||◌, List, [], ◌∷◌, ◌++◌, ltb, ◌==◌, if◌then◌else◌, length, Result,
  ok, err,
}

pub data TaskStatus : Type 0 where
  queued context_ready awaiting_plan_approval planned executing : TaskStatus
  awaiting_scope_decision awaiting_step_review validating repairing : TaskStatus
  awaiting_validation_decision awaiting_command_decision validated : TaskStatus
  ready_for_review promoting succeeded failed aborted : TaskStatus

-- The place of a status in the enumeration; two statuses are equal if their places are.
abbrev pub rank : TaskStatus → ℕ
rank queued = 0
rank context_ready = 1
rank awaiting_plan_approval = 2
rank planned = 3
rank executing = 4
rank awaiting_scope_decision = 5
rank awaiting_step_review = 6
rank validating = 7
rank repairing = 8
rank awaiting_validation_decision = 9
rank awaiting_command_decision = 10
rank validated = 11
rank ready_for_review = 12
rank promoting = 13
rank succeeded = 14
rank failed = 15
rank aborted = 16

abbrev pub has_status : TaskStatus → List TaskStatus → Bool
has_status t [] = false
has_status t (s ∷ ss) = rank s == rank t || has_status t ss

-- The table `_TRANSITIONS`.
abbrev pub transitions : TaskStatus → List TaskStatus
transitions queued = context_ready ∷ failed ∷ aborted ∷ []
transitions context_ready = awaiting_plan_approval ∷ failed ∷ aborted ∷ []
transitions awaiting_plan_approval = planned ∷ context_ready ∷ failed ∷ aborted ∷ []
transitions planned = executing ∷ failed ∷ aborted ∷ []
transitions executing =
    validating ∷ awaiting_scope_decision ∷ awaiting_step_review ∷ awaiting_command_decision ∷ failed
    ∷ aborted ∷ []
transitions awaiting_scope_decision = executing ∷ failed ∷ aborted ∷ []
transitions awaiting_command_decision = executing ∷ failed ∷ aborted ∷ []
transitions awaiting_step_review = executing ∷ failed ∷ aborted ∷ []
transitions validating =
    validated ∷ repairing ∷ awaiting_validation_decision ∷ failed ∷ aborted ∷ []
transitions repairing = executing ∷ validating ∷ failed ∷ aborted ∷ []
transitions awaiting_validation_decision = validated ∷ failed ∷ aborted ∷ []
transitions validated = ready_for_review ∷ failed ∷ aborted ∷ []
transitions ready_for_review = promoting ∷ aborted ∷ failed ∷ []
transitions promoting = succeeded ∷ failed ∷ aborted ∷ []
transitions succeeded = []
transitions failed = []
transitions aborted = []

pub can_transition : TaskStatus → TaskStatus → Bool
can_transition from_status to_status = has_status to_status (transitions from_status)

-- An instant is a number of milliseconds.
pub record TaskEvent : Type 0 where
  pub at : ℕ
  pub from_status : TaskStatus
  pub to_status : TaskStatus
  pub reason : String

pub record TaskBudget : Type 0 where
  pub max_iterations : ℕ
  pub max_files_touched : ℕ
  pub max_tokens : ℕ
  pub max_runtime_ms : ℕ

pub record TaskUsage : Type 0 where
  pub iterations : ℕ
  pub tokens_used : ℕ
  pub tool_calls_used : ℕ

-- The fields of a `TaskRecord` that the modelled code reads or writes.
pub record TaskRecord : Type 0 where
  pub task_id : String
  pub status : TaskStatus
  pub modified_files : List String
  pub budget : TaskBudget
  pub usage : TaskUsage
  pub events : List TaskEvent
  pub updated_at : ℕ

pub data TaskError : Type 0 where
  invalid_transition : TaskStatus → TaskStatus → TaskError
  iteration_budget token_budget runtime_budget file_budget : TaskError

-- The record after the assignments and the `append` of `transition`.
abbrev pub advanced : ℕ → TaskRecord → TaskStatus → String → TaskRecord
advanced now task to_status reason = record task {
  status = to_status;
  updated_at = now;
  events = task.events ++ event ∷ [];
}
  where
    event : TaskEvent
    event = record { at = now; from_status = task.status; to_status = to_status; reason = reason }

pub transition : ℕ → TaskRecord → TaskStatus → String → Result TaskError TaskRecord
unfolding can_transition
transition now task to_status reason =
    if can_transition task.status to_status
    then ok (advanced now task to_status reason)
    else err (invalid_transition task.status to_status)

pub bump_usage : ℕ → TaskRecord → ℕ → TaskRecord
bump_usage now task tokens_used = record task {
  usage = record usage {
    iterations = usage.iterations + 1;
    tokens_used = usage.tokens_used + tokens_used;
  };
  updated_at = now;
}
  where
    open task use {usage}

-- `now_ms - started_at_ms > max_runtime_ms` over the integers, with the subtraction moved over.
pub assert_budget : TaskRecord → ℕ → ℕ → Result TaskError (Unit {0})
assert_budget task started_at_ms now_ms =
    if ltb budget.max_iterations usage.iterations
    then err iteration_budget
    else if ltb budget.max_tokens usage.tokens_used
    then err token_budget
    else if ltb (started_at_ms + budget.max_runtime_ms) now_ms
    then err runtime_budget
    else if ltb budget.max_files_touched (length task.modified_files)
    then err file_budget
    else ok tt
  where
    open task use {budget, usage}
