-- ===== src/Store/Tests.antt =====
-- A store with one task.
use shadow_forge.Base.{◌≡◌, ◌↔◌, List, [], ◌∷◌, some, lookup, ok}
use shadow_forge.Task.{TaskRecord, queued, failed}
use shadow_forge.Store.{get}
use shadow_forge.Store.Reads.{Write, creating, saving, writes, latest, writes-get}

abbrev first : TaskRecord
first = record {
  task_id = "t1";
  status = queued;
  modified_files = [];
  budget = record {
    max_iterations = 6;
    max_files_touched = 20;
    max_tokens = 120000;
    max_runtime_ms = 5400000;
  };
  usage = record { iterations = 0; tokens_used = 0; tool_calls_used = 0 };
  events = [];
  updated_at = 0;
}

abbrev ended : TaskRecord
ended = record first { status = failed }

-- The save of another task and the second creation are refused.
abbrev tries : List Write
tries =
    creating first ∷ saving ended ∷ saving (record first { task_id = "t2" }) ∷ creating first ∷ []

writes-get_example :
    (get "t1" (writes tries []) ≡ ok ended) ↔ (latest "t1" tries (lookup "t1" []) ≡ some ended)
writes-get_example = writes-get "t1" tries [] ended
