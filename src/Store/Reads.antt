-- ===== src/Store/Reads.antt =====
-- What is read back from the store (storage/in_memory.py).
use mathlib.Core.Path.{subst}
use shadow_forge.Base.{
  ◌≡◌, refl, sym, ap, ◌∙◌, ◌↔◌, String, false, List, [], ◌∷◌, Option, none, some, arith, Bool-cases,
  Option-cases, inl, inr, if◌then◌else◌, str_eq, eq_iff, lookup, lookup-insert, Result, ok, err,
}
use shadow_forge.Task.{TaskRecord}
use shadow_forge.Store.{Tasks, StoreError, not_found, create, save, get}

-- The writes that are tried one after the other; one that is refused changes nothing.
pub data Write : Type 0 where
  creating saving : TaskRecord → Write

abbrev pub kept : Tasks → Result StoreError Tasks → Tasks
kept tasks (ok after) = after
kept tasks (err e) = tasks

abbrev pub wrote : Write → Tasks → Tasks
wrote (creating task) tasks = kept tasks (create task tasks)
wrote (saving task) tasks = kept tasks (save task tasks)

pub writes : List Write → Tasks → Tasks
writes [] tasks = tasks
writes (w ∷ ws) tasks = writes ws (wrote w tasks)

-- What the writes leave for an id: a creation counts only if the id has nothing yet, a save only if
-- it has something.
abbrev pub latest : String → List Write → Option TaskRecord → Option TaskRecord
latest id [] found = found
latest id (creating task ∷ ws) none =
    latest id ws (if str_eq task.task_id id then some task else none)
latest id (creating task ∷ ws) (some old) = latest id ws (some old)
latest id (saving task ∷ ws) none = latest id ws none
latest id (saving task ∷ ws) (some old) =
    latest id ws (if str_eq task.task_id id then some task else some old)

created :
    (id : String) (new : TaskRecord) (tasks : Tasks)
    → lookup id (wrote (creating new) tasks) ≡ latest id (creating new ∷ []) (lookup id tasks)
unfolding create
created id new tasks = elim (Option-cases (lookup new.task_id tasks)) [
  | inl e ↦ elim (Bool-cases (str_eq new.task_id id)) [
    | inl same ↦
        let is : new.task_id ≡ id = ground (arith, eq_iff new.task_id id, same) in
        let there : lookup id tasks ≡ none = subst (λ x. lookup x tasks ≡ none) is e in
        rw (e, create, lookup-insert, there, same)
    | inr other ↦ rw (e, create, lookup-insert, other) (unchanged (lookup id tasks) other)
  ]
  | inr (old, e) ↦ elim (Bool-cases (str_eq new.task_id id)) [
    | inl same ↦
        let is : new.task_id ≡ id = ground (arith, eq_iff new.task_id id, same) in
        let there : lookup id tasks ≡ some old = subst (λ x. lookup x tasks ≡ some old) is e in
        rw (e, create, there)
    | inr other ↦ rw (e, create) (unchanged (lookup id tasks) other)
  ]
]
  where
    unchanged :
        (o : Option TaskRecord)
        → str_eq new.task_id id ≡ false
        → o ≡ latest id (creating new ∷ []) o
    unchanged none n = rw n
    unchanged (some old) n = refl

saved :
    (id : String) (new : TaskRecord) (tasks : Tasks)
    → lookup id (wrote (saving new) tasks) ≡ latest id (saving new ∷ []) (lookup id tasks)
unfolding save
saved id new tasks = elim (Option-cases (lookup new.task_id tasks)) [
  | inl e ↦ elim (Bool-cases (str_eq new.task_id id)) [
    | inl same ↦
        let is : new.task_id ≡ id = ground (arith, eq_iff new.task_id id, same) in
        let there : lookup id tasks ≡ none = subst (λ x. lookup x tasks ≡ none) is e in
        rw (e, save, there)
    | inr other ↦ rw (e, save) (unchanged (lookup id tasks) other)
  ]
  | inr (old, e) ↦ elim (Bool-cases (str_eq new.task_id id)) [
    | inl same ↦
        let is : new.task_id ≡ id = ground (arith, eq_iff new.task_id id, same) in
        let there : lookup id tasks ≡ some old = subst (λ x. lookup x tasks ≡ some old) is e in
        rw (e, save, lookup-insert, there, same)
    | inr other ↦ rw (e, save, lookup-insert, other) (unchanged (lookup id tasks) other)
  ]
]
  where
    unchanged :
        (o : Option TaskRecord) → str_eq new.task_id id ≡ false → o ≡ latest id (saving new ∷ []) o
    unchanged none n = refl
    unchanged (some old) n = rw n

latest-cons :
    (id : String) (w : Write) (ws : List Write) (o : Option TaskRecord)
    → latest id (w ∷ ws) o ≡ latest id ws (latest id (w ∷ []) o)
latest-cons id (creating new) ws none = refl
latest-cons id (creating new) ws (some old) = refl
latest-cons id (saving new) ws none = refl
latest-cons id (saving new) ws (some old) = refl

getting :
    (id : String) (task : TaskRecord) (o : Option TaskRecord)
    → (◌≡◌ {A = Result StoreError TaskRecord}
        (elim o [ none ↦ err (not_found id) | some found ↦ ok found ])
        (ok task))
      ↔ (o ≡ some task)
getting id task none = (λ h. cc, λ h. cc)
getting id task (some found) = (λ h. cc, λ h. cc)

lookup-writes :
    (id : String) (ws : List Write) (tasks : Tasks)
    → lookup id (writes ws tasks) ≡ latest id ws (lookup id tasks)
unfolding writes
lookup-writes id [] tasks = refl
lookup-writes id (creating new ∷ ws) tasks =
    lookup-writes id ws _
    ∙ ap (latest id ws) (created id new tasks)
    ∙ sym (latest-cons id (creating new) ws (lookup id tasks))
lookup-writes id (saving new ∷ ws) tasks =
    lookup-writes id ws _
    ∙ ap (latest id ws) (saved id new tasks)
    ∙ sym (latest-cons id (saving new) ws (lookup id tasks))

-- After any sequence of creations and saves `get` returns a record for an id exactly if it is the
-- last one that was written under the id, where a creation counts only if the id has no record
-- yet, and a save only if it has one.
pub writes-get :
    (id : String) (ws : List Write) (tasks : Tasks) (task : TaskRecord)
    → (get id (writes ws tasks) ≡ ok task) ↔ (latest id ws (lookup id tasks) ≡ some task)
unfolding get
writes-get id ws tasks task =
    subst (λ o. (get id (writes ws tasks) ≡ ok task) ↔ (o ≡ some task)) (lookup-writes id ws tasks)
      (getting id task (lookup id (writes ws tasks)))
