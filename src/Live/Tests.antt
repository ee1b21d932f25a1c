-- ===== src/Live/Tests.antt =====
-- A task at a gate, and one that has failed.
use shadow_forge.Base.{◌≡◌, refl, String, Option, none, some}
use shadow_forge.Task.{awaiting_command_decision}
use shadow_forge.Live.{
  command_gate, task_gate, LiveTask, ChatThread, resolve_live_state, resolve_thread_live,
}
use shadow_forge.Live.Gates.{ShowsOne, resolve_thread_live-ShowsOne}

abbrev asking : LiveTask
asking = record {
  task_id = "t1";
  status = awaiting_command_decision;
  pending = record {
    pending_command_request = some "rm -r build";
    pending_step_review = none;
    pending_scope_request = none;
    pending_validation = none;
  };
  plan_markdown = some "# plan";
  failure_summary = none;
  run_summary = none;
  task_narrative = none;
}

abbrev get_task : String → Option LiveTask
get_task id = some asking

abbrev thread : ChatThread
thread = record { controller_todos = none; pending_controller_gate = none }

command_shown :
    (resolve_live_state (some "t1") get_task).pending_gate
    ≡ some (task_gate command_gate "rm -r build")
unfolding resolve_live_state
command_shown = refl

resolve_thread_live-ShowsOne_example :
    ShowsOne (resolve_thread_live (some thread) (some "t1") get_task)
resolve_thread_live-ShowsOne_example =
    resolve_thread_live-ShowsOne (some thread) (some "t1") get_task
