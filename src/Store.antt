-- ===== src/Store.antt =====
-- The task store in memory (services/agentd-py/agentd/storage/in_memory.py). The lock makes every
-- method one step. A method that raises leaves the store as it was.
pub mod Reads
mod Tests
use shadow_forge.Base.{
  String, Bool, true, false, List, Option, none, some, lookup, insert, Result, ok, err, ◌>>=◌,
}
use shadow_forge.Task.{TaskRecord, TaskEvent}

-- `_tasks`
abbrev pub Tasks : Type 0
Tasks = List (String × TaskRecord)

pub data StoreError : Type 0 where
  already_exists not_found : String → StoreError

pub create : TaskRecord → Tasks → Result StoreError Tasks
create task tasks = elim (lookup task.task_id tasks) [
  | some old ↦ err (already_exists task.task_id)
  | none ↦ ok (insert task.task_id task tasks)
]

pub save : TaskRecord → Tasks → Result StoreError Tasks
save task tasks = elim (lookup task.task_id tasks) [
  | none ↦ err (not_found task.task_id)
  | some old ↦ ok (insert task.task_id task tasks)
]

pub get : String → Tasks → Result StoreError TaskRecord
get task_id tasks = elim (lookup task_id tasks) [
  | none ↦ err (not_found task_id)
  | some task ↦ ok task
]

pub get_task_events : String → Tasks → Result StoreError (List TaskEvent)
unfolding get
get_task_events task_id tasks = get task_id tasks >>= λ task. ok task.events
