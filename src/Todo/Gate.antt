-- ===== src/Todo/Gate.antt =====
-- What the ledger tells the controller (chat/todo_ledger.py, chat/todo_source.py).
use mathlib.Core.Path.{subst}
use mathlib.Core.List.{append-nil}
use shadow_forge.Base.{
  ◌≡◌, refl, ◌↔◌, ◌⊎◌, Bool, true, false, List, [], ◌∷◌, Option, none, some, arith, sym, Bool-cases,
  inl, inr, Result, ok, err, ap, ◌∙◌, ◌≢◌, if◌then◌else◌, ◌++◌,
}
use shadow_forge.Text.{Text, codes, strip, lstrip, rstrip, text_eq}
use shadow_forge.Todo.{
  TodoItem, TodoStatus, pending, in_progress, done, blocked, cancelled, status_of, made_of, or_text,
  no_title, pending_items, active_item, RawItem, not_an_object, object, TodoError, item_of,
  items_of, put_first, TodoToolSource, taken, execute,
}

-- The item of a list.
abbrev pub IsIn : TodoItem → List TodoItem → Type 0
IsIn x [] = ⊥
IsIn x (i ∷ is) = (i ≡ x) ⊎ IsIn x is

-- There is an active item exactly if an item is pending or in progress.
pub active_item-pending_items :
    (items : List TodoItem) → (active_item items ≡ none) ↔ (pending_items items ≡ [])
unfolding active_item pending_items
active_item-pending_items [] = (λ h. refl, λ h. refl)
active_item-pending_items (i ∷ is) =
    ground (arith, (active_item-pending_items is).0, (active_item-pending_items is).1)

-- The words of the statuses.
abbrev pub name_of : TodoStatus → Text
name_of pending = codes "pending"
name_of in_progress = codes "in_progress"
name_of done = codes "done"
name_of blocked = codes "blocked"
name_of cancelled = codes "cancelled"

some_same : {A : Type 0} {x y : A} → some x ≡ some y → x ≡ y
some_same h = cc

text_same : (s t : Text) → text_eq s t ≡ true → s ≡ t
text_same [] [] h = refl
text_same [] (d ∷ ds) h = cc
text_same (c ∷ cs) [] h = cc
text_same (c ∷ cs) (d ∷ ds) h =
    let rest = text_same cs ds (ground (arith, h)) in let first : c ≡ d = ground (arith, h) in cc

status_of-name_of : (s : TodoStatus) → status_of (name_of s) ≡ some s
unfolding status_of
status_of-name_of pending = refl
status_of-name_of in_progress = refl
status_of-name_of done = refl
status_of-name_of blocked = refl
status_of-name_of cancelled = refl

status_of_same : (t : Text) (s : TodoStatus) → status_of t ≡ some s → t ≡ name_of s
unfolding status_of
status_of_same t s h =
    from (text_eq t (codes "pending")) (text_eq t (codes "in_progress")) (text_eq t (codes "done"))
      (text_eq t (codes "blocked")) (text_eq t (codes "cancelled")) (text_same t (codes "pending"))
      (text_same t (codes "in_progress")) (text_same t (codes "done"))
      (text_same t (codes "blocked")) (text_same t (codes "cancelled")) h
  where
    from :
        (a b c d e : Bool)
        → (a ≡ true → t ≡ codes "pending")
        → (b ≡ true → t ≡ codes "in_progress")
        → (c ≡ true → t ≡ codes "done")
        → (d ≡ true → t ≡ codes "blocked")
        → (e ≡ true → t ≡ codes "cancelled")
        → (if a
            then some pending
            else if b
            then some in_progress
            else if c
            then some done
            else if d
            then some blocked
            else if e
            then some cancelled
            else none)
          ≡ some s
        → t ≡ name_of s
    from true b c d e p q r u v k = p refl ∙ ap name_of (some_same k)
    from false true c d e p q r u v k = q refl ∙ ap name_of (some_same k)
    from false false true d e p q r u v k = r refl ∙ ap name_of (some_same k)
    from false false false true e p q r u v k = u refl ∙ ap name_of (some_same k)
    from false false false false true p q r u v k = v refl ∙ ap name_of (some_same k)
    from false false false false false p q r u v k = cc

-- What a value says, or what is meant if there is none.
abbrev pub said : Option Text → Text → Text
said none meant = meant
said (some t) meant = t

said_as : (o : Option Text) (meant : Text) → or_text o meant ≡ said o meant
said_as none meant = refl
said_as (some t) meant = refl

-- What an object that was sent says: its title, stripped and then not empty; the status that it
-- names, `pending` if it has none; and its note, empty if it has none.
abbrev pub IsSent : RawItem → TodoItem → Type 0
IsSent not_an_object i = ⊥
IsSent (object none status remark) i = ⊥
IsSent (object (some title) status remark) i =
    (i.title ≡ strip title)
    × (i.title ≢ [])
    × (name_of i.status ≡ said status (codes "pending"))
    × (i.note ≡ said remark [])

-- The items are what was sent, one by one.
abbrev pub AreSent : List RawItem → List TodoItem → Type 0
AreSent [] [] = Unit
AreSent [] (i ∷ is) = ⊥
AreSent (r ∷ rs) [] = ⊥
AreSent (r ∷ rs) (i ∷ is) = IsSent r i × AreSent rs is

ok_same : {E A : Type 0} {x y : A} → ◌≡◌ {A = Result E A} (ok x) (ok y) → x ≡ y
ok_same h = cc

made_of-IsSent :
    (title : Text) (status remark : Option Text) (i : TodoItem) (bare : Bool)
    → text_eq (strip title) [] ≡ bare
    → (o : Option TodoStatus) → status_of (or_text status (codes "pending")) ≡ o
    → (if bare then err no_title else made_of (strip title) (or_text remark []) o) ≡ ok i
    → IsSent (object (some title) status remark) i
made_of-IsSent title status remark i true b o e h = cc
made_of-IsSent title status remark i false b none e h = cc
made_of-IsSent title status remark i false b (some s) e h =
    let made = ok_same h in
    (
      ap (λ (j : TodoItem). j.title) (sym made),
      λ empty.
          let bare =
            ap (λ (x : Text). text_eq x []) (ap (λ (j : TodoItem). j.title) made ∙ empty) in
          not_both (sym b ∙ bare),
      ap (λ (j : TodoItem). name_of j.status) (sym made)
          ∙ sym (status_of_same _ s e)
          ∙ said_as status (codes "pending"),
      ap (λ (j : TodoItem). j.note) (sym made) ∙ said_as remark [],
    )
  where
    not_both : {B : Type 0} → false ≡ true → B
    not_both k = cc

item_of-IsSent : (r : RawItem) (i : TodoItem) → item_of r ≡ ok i → IsSent r i
unfolding item_of strip lstrip rstrip
item_of-IsSent not_an_object i h = cc
item_of-IsSent (object none status remark) i h = cc
item_of-IsSent (object (some title) status remark) i h =
    made_of-IsSent title status remark i (text_eq (strip title) []) refl
      (status_of (or_text status (codes "pending"))) refl h

IsSent-item_of : (r : RawItem) (i : TodoItem) → IsSent r i → item_of r ≡ ok i
unfolding item_of
IsSent-item_of not_an_object i h = absurd h
IsSent-item_of (object none status remark) i h = absurd h
IsSent-item_of (object (some title) status remark) i (same, titled, named, noted) =
    let written : text_eq (strip title) [] ≡ false = elim (Bool-cases (text_eq (strip title) [])) [
      | inl e ↦ absurd (titled (same ∙ text_same _ _ e))
      | inr e ↦ e
    ] in
    let known : status_of (or_text status (codes "pending")) ≡ some i.status =
      ap status_of (said_as status (codes "pending") ∙ sym named) ∙ status_of-name_of i.status in
    rw (written, known) (cc (same, said_as remark [] ∙ sym noted))

none_ok :
    {A : Type 0} {e : TodoError} {x : A} {B : Type 0}
    → ◌≡◌ {A = Result TodoError A} (err e) (ok x)
    → B
none_ok h = cc

items_of-AreSent :
    (raw : List RawItem) (items : List TodoItem) → items_of raw ≡ ok items → AreSent raw items
unfolding items_of
items_of-AreSent [] [] h = tt
items_of-AreSent [] (i ∷ is) h = cc
items_of-AreSent (r ∷ rs) items h =
    split items (item_of r) (items_of rs) (item_of-IsSent r) (items_of-AreSent rs) h
  where
    split :
        (items : List TodoItem) (a : Result TodoError TodoItem)
        (b : Result TodoError (List TodoItem))
        → ((i : TodoItem) → a ≡ ok i → IsSent r i)
        → ((is : List TodoItem) → b ≡ ok is → AreSent rs is)
        → put_first a b ≡ ok items
        → AreSent (r ∷ rs) items
    split items (err e) b p q k = none_ok k
    split items (ok i) (err e) p q k = none_ok k
    split items (ok i) (ok is) p q k = subst (AreSent (r ∷ rs)) (ok_same k) (p i refl, q is refl)

AreSent-items_of :
    (raw : List RawItem) (items : List TodoItem) → AreSent raw items → items_of raw ≡ ok items
unfolding items_of
AreSent-items_of [] [] h = refl
AreSent-items_of [] (i ∷ is) h = absurd h
AreSent-items_of (r ∷ rs) [] h = absurd h
AreSent-items_of (r ∷ rs) (i ∷ is) h = rw (IsSent-item_of r i h.0, AreSent-items_of rs is h.1)

-- How a call ends: it reports an error, changes nothing and saves nothing; or its items become the
-- whole ledger, which is handed to `on_mutate`, if that is set, once.
abbrev pub Replaces : List RawItem → TodoToolSource → TodoToolSource × Option TodoError → Type 0
Replaces raw source (after, some e) =
    (after ≡ source) × ((items : List TodoItem) → ¬ AreSent raw items)
Replaces raw source (after, none) =
    AreSent raw after.items
    × (after.has_on_mutate ≡ source.has_on_mutate)
    × (after.saved ≡ source.saved ++ (if source.has_on_mutate then after.items ∷ [] else []))

abbrev pub Refuses : TodoToolSource → TodoToolSource × Option TodoError → Type 0
Refuses source (after, e) = (after ≡ source) × (e ≢ none)

abbrev pub Concludes :
    Bool → Option (List RawItem) → TodoToolSource → TodoToolSource × Option TodoError → Type 0
Concludes true (some (r ∷ rs)) source end = Replaces (r ∷ rs) source end
Concludes _ raw source end = Refuses source end

-- Every call is all or nothing. Of another tool, or with no item, it reports an error and changes
-- and saves nothing. A call of `write_todos` with items makes the whole ledger exactly what was sent,
-- each item with its title stripped and not empty, the status that it names or `pending`, and its
-- note or none, and hands it to `on_mutate` once if that is set; or it reports an error and changes
-- and saves nothing, and then no ledger is what was sent.
pub execute-Concludes :
    (is_write_todos : Bool) (raw : Option (List RawItem)) (source : TodoToolSource)
    → Concludes is_write_todos raw source (execute is_write_todos raw source)
unfolding execute
execute-Concludes false raw source = (refl, λ h. cc)
execute-Concludes true none source = (refl, λ h. cc)
execute-Concludes true (some []) source = (refl, λ h. cc)
execute-Concludes true (some (r ∷ rs)) source = by_items (items_of (r ∷ rs)) refl
  where
    kept :
        (b : Bool) (items : List TodoItem)
        → (if b then source.saved ++ items ∷ [] else source.saved)
          ≡ source.saved ++ (if b then items ∷ [] else [])
    kept true items = refl
    kept false items = sym (append-nil source.saved)

    by_items :
        (o : Result TodoError (List TodoItem))
        → items_of (r ∷ rs) ≡ o
        → Replaces (r ∷ rs) source (taken source o)
    by_items (err e) q = (refl, λ items all. none_ok (sym q ∙ AreSent-items_of (r ∷ rs) items all))
    by_items (ok items) q =
        (items_of-AreSent (r ∷ rs) items q, refl, kept source.has_on_mutate items)
