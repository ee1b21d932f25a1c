-- ===== src/Todo/Tests.antt =====
-- Calls of `write_todos`.
use shadow_forge.Base.{◌≡◌, refl, true, List, [], ◌∷◌, none, some}
use shadow_forge.Text.{codes}
use shadow_forge.Todo.{
  TodoItem, in_progress, done, pending, active_item, RawItem, object, TodoToolSource, no_title,
  execute,
}
use shadow_forge.Todo.Gate.{Concludes, execute-Concludes}

abbrev items : List TodoItem
items =
    record { title = codes "read"; status = done; note = codes "seen" }
    ∷ record { title = codes "write"; status = pending; note = [] }
    ∷ record { title = codes "test"; status = in_progress; note = [] }
    ∷ []

abbrev source : TodoToolSource
source = record { items = items; has_on_mutate = true; saved = [] }

abbrev sent : List RawItem
sent = object (some (codes " write ")) (some (codes "done")) none ∷ object none none none ∷ []

active_is_in_progress :
    active_item items ≡ some (record { title = codes "test"; status = in_progress; note = [] })
unfolding active_item
active_is_in_progress = refl

bad_title_refused : execute true (some sent) source ≡ (source, some no_title)
unfolding execute
bad_title_refused = refl

abbrev good : List RawItem
good = object (some (codes " write ")) (some (codes "done")) none ∷ []

execute-Concludes_example : Concludes true (some good) source (execute true (some good) source)
execute-Concludes_example = execute-Concludes true (some good) source
