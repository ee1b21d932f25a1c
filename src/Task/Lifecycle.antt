-- ===== src/Task/Lifecycle.antt =====
-- What every sequence of calls of `transition` keeps (domain/state_machine.py).
use shadow_forge.Base.{
  ℕ, ◌≡◌, refl, String, Bool, true, false, List, [], ◌∷◌, ◌++◌, arith, Result, ok, err, ◌↔◌, inl,
  inr, Bool-cases,
}
use shadow_forge.Task.{
  TaskStatus, queued, succeeded, failed, aborted, TaskEvent, TaskRecord, TaskError, can_transition,
  advanced, transition,
}

-- One attempt to move a task: when, where to, and why. A refused attempt leaves the task.
pub record Attempt : Type 0 where
  pub now : ℕ
  pub target : TaskStatus
  pub reason : String

abbrev pub settle : TaskRecord → Result TaskError TaskRecord → TaskRecord
settle task (ok moved) = moved
settle task (err e) = task

unfoldable pub attempts : TaskRecord → List Attempt → TaskRecord
attempts task [] = task
attempts task (a ∷ rest) = attempts (settle task (transition a.now task a.target a.reason)) rest

-- A log that leads from one status to another by allowed moves, each beginning where the one
-- before it ended.
pub data Chain (s : TaskStatus) : TaskStatus → List TaskEvent → Type 0 where
  start : Chain s s []
  step :
      {t : TaskStatus} {log : List TaskEvent}
      → Chain s t log
      → (e : TaskEvent) → e.from_status ≡ t
      → can_transition t e.to_status ≡ true
      → Chain s e.to_status (log ++ e ∷ [])

pub transition_allowed :
    (now : ℕ) (task : TaskRecord) (to_status : TaskStatus) (reason : String)
    → can_transition task.status to_status ≡ true
    → transition now task to_status reason ≡ ok (advanced now task to_status reason)
unfolding transition
transition_allowed now task to_status reason h = rw h

abbrev pub Logged : TaskStatus → TaskRecord → Type 0
Logged s task = Chain s task.status task.events

transition-Logged :
    (s : TaskStatus) (now : ℕ) (task : TaskRecord) (to_status : TaskStatus) (reason : String)
    → Logged s task
    → Logged s (settle task (transition now task to_status reason))
unfolding transition attempts
transition-Logged s now task to_status reason h =
    elim (Bool-cases (can_transition task.status to_status)) [
      | inl yes' ↦ rw yes' (step h _ refl yes')
      | inr no' ↦ rw no' h
    ]

pub attempts-Logged :
    (s : TaskStatus) (moves : List Attempt) (task : TaskRecord)
    → Logged s task
    → Logged s (attempts task moves)
unfolding attempts
attempts-Logged s [] task h = h
attempts-Logged s (a ∷ rest) task h =
    attempts-Logged s rest _ (transition-Logged s a.now task a.target a.reason h)

abbrev pub IsFresh : TaskRecord → Type 0
IsFresh task = (task.status ≡ queued) × (task.events ≡ [])

pub fresh-Logged : (task : TaskRecord) → IsFresh task → Logged queued task
fresh-Logged task (q, e) = rw (q, e) start

-- Whatever moves are tried on a fresh task, its log is a chain of allowed moves that starts at
-- QUEUED, in which each move begins where the one before it ended, and that ends at the status
-- the task has.
pub attempts-Chain :
    (task : TaskRecord) (moves : List Attempt)
    → IsFresh task
    → Chain queued (attempts task moves).status (attempts task moves).events
attempts-Chain task moves h = attempts-Logged queued moves task (fresh-Logged task h)

abbrev pub is_terminal : TaskStatus → Bool
is_terminal succeeded = true
is_terminal failed = true
is_terminal aborted = true
is_terminal _ = false

terminal_stuck : (s t : TaskStatus) → is_terminal s ≡ true → can_transition s t ≡ false
unfolding can_transition
terminal_stuck succeeded t h = refl
terminal_stuck failed t h = refl
terminal_stuck aborted t h = refl
terminal_stuck _ t h = cc

-- A task that has succeeded, failed or been aborted is changed by no sequence of moves.
pub terminal_absorbs :
    (task : TaskRecord) (moves : List Attempt)
    → is_terminal task.status ≡ true
    → attempts task moves ≡ task
unfolding transition attempts
terminal_absorbs task [] h = refl
terminal_absorbs task (a ∷ rest) h =
    rw (terminal_stuck task.status a.target h) (terminal_absorbs task rest h)

-- The statuses that can be aborted are exactly those that are not terminal, and so are those that
-- can be failed; and no status can move to itself.
pub can_transition-escape :
    (s : TaskStatus)
    → ((is_terminal s ≡ false) ↔ (can_transition s aborted ≡ true))
      × ((is_terminal s ≡ false) ↔ (can_transition s failed ≡ true))
      × (can_transition s s ≡ false)
unfolding can_transition
can_transition-escape queued = ground arith
can_transition-escape _ = ground arith
