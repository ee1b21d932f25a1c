-- ===== src/Task/Budget.antt =====
-- The budget of a task: when `assert_budget` raises, and what a run of `bump_usage` adds up to
-- (domain/state_machine.py).
use shadow_forge.Base.{ℕ, ◌+◌, ◌≤◌, ◌<◌, ◌≡◌, ◌↔◌, List, [], ◌∷◌, arith, length, ok, err}
use shadow_forge.Task.{TaskRecord, iteration_budget, bump_usage, assert_budget}

-- Within all four bounds.
abbrev pub IsWithin : TaskRecord → ℕ → ℕ → Type 0
IsWithin task started_at_ms now_ms =
    (task.usage.iterations ≤ task.budget.max_iterations)
    × (task.usage.tokens_used ≤ task.budget.max_tokens)
    × (now_ms ≤ started_at_ms + task.budget.max_runtime_ms)
    × (length task.modified_files ≤ task.budget.max_files_touched)

-- The budget check passes exactly when the task is within all four bounds, and reports an
-- exceeded iteration bound before every other.
pub assert_budget_iff :
    (task : TaskRecord) (started_at_ms now_ms : ℕ)
    → ((assert_budget task started_at_ms now_ms ≡ ok tt) ↔ IsWithin task started_at_ms now_ms)
      × ((assert_budget task started_at_ms now_ms ≡ err iteration_budget)
          ↔ (task.budget.max_iterations < task.usage.iterations))
unfolding assert_budget
assert_budget_iff task started_at_ms now_ms =
    ((λ h. ground arith, λ h. ground arith), (λ h. ground arith, λ h. ground arith))

abbrev pub sum : List ℕ → ℕ
sum [] = 0
sum (x ∷ xs) = x + sum xs

-- One call of `bump_usage` for each entry: when, and how many tokens.
pub bumps : TaskRecord → List (ℕ × ℕ) → TaskRecord
bumps task [] = task
bumps task ((now, tokens) ∷ rest) = bumps (bump_usage now task tokens) rest

abbrev pub tokens_of : List (ℕ × ℕ) → List ℕ
tokens_of [] = []
tokens_of ((now, tokens) ∷ rest) = tokens ∷ tokens_of rest

bumps_lem :
    (calls : List (ℕ × ℕ)) (task : TaskRecord)
    → ((bumps task calls).usage.iterations ≡ task.usage.iterations + length calls)
      × ((bumps task calls).usage.tokens_used ≡ task.usage.tokens_used + sum (tokens_of calls))
      × ((bumps task calls).budget ≡ task.budget)
      × ((bumps task calls).modified_files ≡ task.modified_files)
unfolding bumps bump_usage
bumps_lem [] task = ground arith
bumps_lem ((now, tokens) ∷ rest) task = ground (arith, bumps_lem rest (bump_usage now task tokens))

-- After any number of recorded iterations the budget check passes exactly when their number and
-- the sum of their tokens, added to what was used before, are within bounds, and the time and the
-- touched files are.
pub bumps-assert_budget :
    (task : TaskRecord) (calls : List (ℕ × ℕ)) (started_at_ms now_ms : ℕ)
    → (assert_budget (bumps task calls) started_at_ms now_ms ≡ ok tt) ↔ (
        (task.usage.iterations + length calls ≤ task.budget.max_iterations)
        × (task.usage.tokens_used + sum (tokens_of calls) ≤ task.budget.max_tokens)
        × (now_ms ≤ started_at_ms + task.budget.max_runtime_ms)
        × (length task.modified_files ≤ task.budget.max_files_touched))
unfolding assert_budget
bumps-assert_budget task calls started_at_ms now_ms =
    (λ h. ground (arith, bumps_lem calls task), λ h. ground (arith, bumps_lem calls task))
