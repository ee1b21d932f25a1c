-- ===== src/Task/Tests.antt =====
-- Runs of the task life cycle on small records.
use shadow_forge.Base.{ℕ, ◌≡◌, refl, ◌↔◌, ◌≤◌, ◌+◌, true, List, [], ◌∷◌, length, ok}
use shadow_forge.Task.{
  queued, context_ready, awaiting_plan_approval, planned, executing, validating, validated,
  ready_for_review, promoting, succeeded, repairing, TaskRecord, transition, assert_budget,
}
use shadow_forge.Task.Lifecycle.{Attempt, attempts, Chain, attempts-Chain, terminal_absorbs}
use shadow_forge.Task.Milestones.{moved, success_milestones, try_all, route, success_reachable}
use shadow_forge.Task.Budget.{sum, tokens_of, bumps, bumps-assert_budget}

abbrev fresh_task : TaskRecord
fresh_task = record {
  task_id = "t1";
  status = queued;
  modified_files = "a.py" ∷ [];
  budget = record {
    max_iterations = 3;
    max_files_touched = 2;
    max_tokens = 1000;
    max_runtime_ms = 60000;
  };
  usage = record { iterations = 0; tokens_used = 0; tool_calls_used = 0 };
  events = [];
  updated_at = 0;
}

-- A plan that is sent back once, a refused shortcut, and the way to the end.
abbrev tries : List Attempt
tries = try_all 7 "step" (
    context_ready ∷ awaiting_plan_approval ∷ succeeded ∷ context_ready ∷ awaiting_plan_approval
    ∷ planned ∷ executing ∷ validating ∷ repairing ∷ validating ∷ validated ∷ ready_for_review
    ∷ promoting ∷ succeeded ∷ [])

abbrev done_task : TaskRecord
done_task = record fresh_task { status = succeeded }

tries_end : (attempts fresh_task tries).status ≡ succeeded
unfolding attempts transition
tries_end = refl

attempts-Chain_example :
    Chain queued (attempts fresh_task tries).status (attempts fresh_task tries).events
attempts-Chain_example = attempts-Chain fresh_task tries (refl, refl)

success_milestones_example :
    let log = (attempts fresh_task tries).events in
    (moved awaiting_plan_approval planned log ≡ true)
    × (moved validated ready_for_review log ≡ true)
    × (moved ready_for_review promoting log ≡ true)
success_milestones_example = success_milestones fresh_task tries (refl, refl) tries_end

terminal_absorbs_example : attempts done_task tries ≡ done_task
terminal_absorbs_example = terminal_absorbs done_task tries refl

success_reachable_example : (attempts fresh_task (try_all 1 "go" (route queued))).status ≡ succeeded
success_reachable_example = success_reachable 1 "go" fresh_task refl

abbrev two_calls : List (ℕ × ℕ)
two_calls = (5, 400) ∷ (9, 500) ∷ []

bumps-assert_budget_example : (assert_budget (bumps fresh_task two_calls) 100 200 ≡ ok tt) ↔ (
    (0 + length two_calls ≤ 3)
    × (0 + sum (tokens_of two_calls) ≤ 1000)
    × (200 ≤ 100 + 60000)
    × (length fresh_task.modified_files ≤ 2))
bumps-assert_budget_example = bumps-assert_budget fresh_task two_calls 100 200
