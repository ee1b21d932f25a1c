-- ===== src/Todo.antt =====
-- The checklist of a request (services/agentd-py/agentd/chat/todo_ledger.py and chat/todo_source.py).
pub mod Gate
mod Tests
use shadow_forge.Base.{
  ℕ, ◌+◌, ◌++◌, String, Bool, true, false, ◌||◌, List, [], ◌∷◌, Option, none, some, if◌then◌else◌,
  head?, keep, Result, ok, err,
}
use shadow_forge.Text.{Text, codes, strip, text_eq}

pub data TodoStatus : Type 0 where
  pending in_progress done blocked cancelled : TodoStatus

-- `status not in _STATUSES`
pub status_of : Text → Option TodoStatus
status_of t =
    if text_eq t (codes "pending")
    then some pending
    else if text_eq t (codes "in_progress")
    then some in_progress
    else if text_eq t (codes "done")
    then some done
    else if text_eq t (codes "blocked")
    then some blocked
    else if text_eq t (codes "cancelled")
    then some cancelled
    else none

pub record TodoItem : Type 0 where
  pub title : Text
  pub status : TodoStatus
  pub note : Text

abbrev pub is_open : TodoItem → Bool
is_open i = elim i.status [ pending ↦ true | in_progress ↦ true | _ ↦ false ]

abbrev pub is_in_progress : TodoItem → Bool
is_in_progress i = elim i.status [ in_progress ↦ true | _ ↦ false ]

abbrev pub is_pending : TodoItem → Bool
is_pending i = elim i.status [ pending ↦ true | _ ↦ false ]

abbrev pub is_done : TodoItem → Bool
is_done i = elim i.status [ done ↦ true | _ ↦ false ]

-- `TodoLedger.pending`
pub pending_items : List TodoItem → List TodoItem
pending_items items = keep is_open items

pub active_item : List TodoItem → Option TodoItem
active_item items = elim (head? (keep is_in_progress items)) [
  | some i ↦ some i
  | none ↦ head? (keep is_pending items)
]

-- What a call of `write_todos` gives for one item: no object, or an object with the texts (by
-- `str`) of the values that it has.
pub data RawItem : Type 0 where
  not_an_object : RawItem
  object : Option Text → Option Text → Option Text → RawItem

pub data TodoError : Type 0 where
  unknown_tool no_items no_title invalid_status : TodoError

abbrev pub or_text : Option Text → Text → Text
or_text none default = default
or_text (some t) default = t

-- The item of a title and a status that have been read.
abbrev pub made_of : Text → Text → Option TodoStatus → Result TodoError TodoItem
made_of title note none = err invalid_status
made_of title note (some s) = ok (record { title = title; status = s; note = note })

-- One round of the loop over the items.
pub item_of : RawItem → Result TodoError TodoItem
unfolding strip status_of
item_of not_an_object = err no_title
item_of (object title status remark) =
    if text_eq (strip (or_text title [])) []
    then err no_title
    else made_of (strip (or_text title [])) (or_text remark [])
        (status_of (or_text status (codes "pending")))

abbrev pub put_first :
    Result TodoError TodoItem → Result TodoError (List TodoItem) → Result TodoError (List TodoItem)
put_first (err e) rest = err e
put_first (ok i) (err e) = err e
put_first (ok i) (ok is) = ok (i ∷ is)

-- The first bad item ends the loop.
pub items_of : List RawItem → Result TodoError (List TodoItem)
unfolding item_of
items_of [] = ok []
items_of (r ∷ rs) = put_first (item_of r) (items_of rs)

-- The ledger, whether `on_mutate` is set, and the lists that were handed to it.
pub record TodoToolSource : Type 0 where
  pub items : List TodoItem
  pub has_on_mutate : Bool
  pub saved : List (List TodoItem)

-- The ledger is replaced, and handed on if `on_mutate` is set.
abbrev pub replace : List TodoItem → TodoToolSource → TodoToolSource
replace items source = record {
  items = items;
  has_on_mutate = source.has_on_mutate;
  saved = if source.has_on_mutate then source.saved ++ items ∷ [] else source.saved;
}

abbrev pub taken :
    TodoToolSource → Result TodoError (List TodoItem) → TodoToolSource × Option TodoError
taken source (err e) = (source, some e)
taken source (ok items) = (replace items source, none)

-- The flag says whether the tool is `write_todos`; items that are no array are `none`.
pub execute : Bool → Option (List RawItem) → TodoToolSource → TodoToolSource × Option TodoError
unfolding items_of
execute false raw source = (source, some unknown_tool)
execute true none source = (source, some no_items)
execute true (some []) source = (source, some no_items)
execute true (some (r ∷ rs)) source = taken source (items_of (r ∷ rs))
