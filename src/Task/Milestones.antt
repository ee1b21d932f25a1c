-- ===== src/Task/Milestones.antt =====
-- What a task must have been through to succeed, and that success stays within reach
-- (domain/state_machine.py).
use shadow_forge.Base.{
  ℕ, String, ◌∙◌, ◌≡◌, refl, ◌⊎◌, inl, inr, Bool, true, false, ◌&&◌, List, [], ◌∷◌, arith, any,
  any-append, ◌==◌,
}
use shadow_forge.Task.{
  TaskStatus, queued, context_ready, awaiting_plan_approval, planned, validated, ready_for_review,
  promoting, succeeded, repairing, awaiting_validation_decision, failed, aborted, executing,
  validating, TaskEvent, TaskRecord, rank, advanced, can_transition,
}
use shadow_forge.Task.Lifecycle.{
  Attempt, attempts, transition_allowed, Chain, start, step, IsFresh, attempts-Chain, is_terminal,
}

-- The log holds a move from one status to another.
abbrev pub moved : TaskStatus → TaskStatus → List TaskEvent → Bool
moved s t log = any (λ e. (rank e.from_status == rank s) && (rank e.to_status == rank t)) log

-- A move is a gate of a set of statuses if it is the only way into the set.
abbrev IsGate : (TaskStatus → Bool) → TaskStatus → TaskStatus → Type 0
IsGate behind s t =
    (u v : TaskStatus)
    → can_transition u v ≡ true
    → behind v ≡ true
    → (behind u ≡ true) ⊎ ((rank u == rank s) && (rank v == rank t)) ≡ true

abbrev past_approval : TaskStatus → Bool
past_approval queued = false
past_approval context_ready = false
past_approval awaiting_plan_approval = false
past_approval failed = false
past_approval aborted = false
past_approval _ = true

abbrev past_validation : TaskStatus → Bool
past_validation ready_for_review = true
past_validation promoting = true
past_validation succeeded = true
past_validation _ = false

abbrev past_review : TaskStatus → Bool
past_review promoting = true
past_review succeeded = true
past_review _ = false

approval-IsGate : IsGate past_approval awaiting_plan_approval planned
unfolding can_transition
approval-IsGate queued v c b = ground arith
approval-IsGate _ v c b = ground arith

validation-IsGate : IsGate past_validation validated ready_for_review
unfolding can_transition
validation-IsGate queued v c b = ground arith
validation-IsGate _ v c b = ground arith

review-IsGate : IsGate past_review ready_for_review promoting
unfolding can_transition
review-IsGate queued v c b = ground arith
review-IsGate _ v c b = ground arith

-- A chain that ends behind a gate and began before it has gone through the gate.
Chain-moved :
    {s0 : TaskStatus} (behind : TaskStatus → Bool) (s t : TaskStatus)
    → IsGate behind s t
    → behind s0 ≡ false
    → {u : TaskStatus} {log : List TaskEvent} → Chain s0 u log
    → behind u ≡ true
    → moved s t log ≡ true
Chain-moved behind s t gate out start b = cc
Chain-moved behind s t gate out (step {t = u} {log = log} c e from allowed) b =
    elim (gate u e.to_status allowed b) [
      | inl before ↦
          ground (arith, any-append p log (e ∷ []), Chain-moved behind s t gate out c before)
      | inr here ↦ ground (arith, any-append p log (e ∷ []))
    ]
  where
    p : TaskEvent → Bool
    p e = (rank e.from_status == rank s) && (rank e.to_status == rank t)

-- A task that succeeds was, on the way, moved from AWAITING_PLAN_APPROVAL to PLANNED, from
-- VALIDATED to READY_FOR_REVIEW, and from READY_FOR_REVIEW to PROMOTING, whatever moves were tried
-- on it since it was fresh.
pub success_milestones :
    (task : TaskRecord) (moves : List Attempt)
    → IsFresh task
    → (attempts task moves).status ≡ succeeded
    → let log = (attempts task moves).events in
      (moved awaiting_plan_approval planned log ≡ true)
      × (moved validated ready_for_review log ≡ true)
      × (moved ready_for_review promoting log ≡ true)
success_milestones task moves fresh done =
    let c = attempts-Chain task moves fresh in
    (
      Chain-moved past_approval awaiting_plan_approval planned approval-IsGate refl c (rw done),
      Chain-moved past_validation validated ready_for_review validation-IsGate refl c (rw done),
      Chain-moved past_review ready_for_review promoting review-IsGate refl c (rw done),
    )

-- A list of statuses that can be taken one after the other from a status.
walkable : TaskStatus → List TaskStatus → Bool
walkable s [] = true
walkable s (t ∷ rest) = can_transition s t && walkable t rest

last_of : TaskStatus → List TaskStatus → TaskStatus
last_of s [] = s
last_of s (t ∷ rest) = last_of t rest

abbrev pub try_all : ℕ → String → List TaskStatus → List Attempt
try_all now why [] = []
try_all now why (t ∷ rest) = record { now = now; target = t; reason = why } ∷ try_all now why rest

attempts-walkable :
    (now : ℕ) (why : String) (path : List TaskStatus) (task : TaskRecord)
    → walkable task.status path ≡ true
    → (attempts task (try_all now why path)).status ≡ last_of task.status path
unfolding attempts walkable last_of
attempts-walkable now why [] task h = refl
attempts-walkable now why (t ∷ rest) task h =
    rw (transition_allowed now task t why (ground arith), attempts)
      (attempts-walkable now why rest (advanced now task t why) (ground arith))

-- A way from each status to SUCCEEDED.
abbrev from_validating : List TaskStatus
from_validating = validated ∷ ready_for_review ∷ promoting ∷ succeeded ∷ []

abbrev pub route : TaskStatus → List TaskStatus
route queued =
    context_ready ∷ awaiting_plan_approval ∷ planned ∷ executing ∷ validating ∷ from_validating
route context_ready = awaiting_plan_approval ∷ planned ∷ executing ∷ validating ∷ from_validating
route awaiting_plan_approval = planned ∷ executing ∷ validating ∷ from_validating
route planned = executing ∷ validating ∷ from_validating
route executing = validating ∷ from_validating
route repairing = validating ∷ from_validating
route validating = from_validating
route awaiting_validation_decision = from_validating
route validated = ready_for_review ∷ promoting ∷ succeeded ∷ []
route ready_for_review = promoting ∷ succeeded ∷ []
route promoting = succeeded ∷ []
route succeeded = []
route failed = []
route aborted = []
route _ = executing ∷ validating ∷ from_validating

route-walkable :
    (s : TaskStatus)
    → is_terminal s ≡ false
    → (walkable s (route s) ≡ true) × (last_of s (route s) ≡ succeeded)
unfolding walkable last_of can_transition
route-walkable queued h = (refl, refl)
route-walkable succeeded h = cc
route-walkable failed h = cc
route-walkable aborted h = cc
route-walkable _ h = (refl, refl)

-- Success is never out of reach: from every status that is not terminal the moves of `route`
-- bring the task to SUCCEEDED.
pub success_reachable :
    (now : ℕ) (why : String) (task : TaskRecord)
    → is_terminal task.status ≡ false
    → (attempts task (try_all now why (route task.status))).status ≡ succeeded
success_reachable now why task h =
    let (walk, ends) = route-walkable task.status h in
    attempts-walkable now why (route task.status) task walk ∙ ends
