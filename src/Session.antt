-- ===== src/Session.antt =====
-- The edit session of a chat turn (services/agentd-py/agentd/chat/edit_session.py), with the scoped
-- promotion of workspace/promote.py, the shadow that holds the touched files only of
-- workspace/shadow.py, and the wrapping of ops of patch/inline_apply.py.
pub mod Files
pub mod InSync
mod Tests
use shadow_forge.Base.{
  String, Bool, true, false, not, ◌&&◌, ◌||◌, List, [], ◌∷◌, ◌++◌, Option, none, some, ltb, ◌==◌,
  if◌then◌else◌, any, length, has_name, str_eq, Result, ok, err,
}
use shadow_forge.Text.{Text, codes, strip, text_eq}
use shadow_forge.Env.{posix_parts, posix_root, has_text}
use shadow_forge.Loop.{RawOp, object, other_value, op_files}

-- The files of a tree by their path; directories stand for themselves.
abbrev pub Files : Type 0
Files = String → Option Text

abbrev pub put_file : String → Option Text → Files → Files
put_file path content files p = if str_eq path p then content else files p

pub data SessionError : Type 0 where
  no_patch_ops not_an_object no_file malformed_file outside_file no_shadow : SessionError
  patch_failed : Text → SessionError

-- The checks of a file's name.
pub check_file : Text → Option SessionError
check_file file =
    if text_eq (strip file) []
    then some no_file
    else if any (λ c. (c == 10) || (c == 13) || (c == 0)) file || ltb 255 (length file)
    then some malformed_file
    else if not (text_eq (posix_root file) []) || has_text (codes "..") (posix_parts file)
    then some outside_file
    else none

check_op : RawOp → Option SessionError
unfolding check_file
check_op other_value = some not_an_object
check_op (object text none) = some no_file
check_op (object text (some file)) = check_file (codes file)

check_ops : List RawOp → Option SessionError
unfolding check_op
check_ops [] = none
check_ops (op ∷ ops) = elim (check_op op) [ some e ↦ some e | none ↦ check_ops ops ]

unfoldable pub validate_patch_ops : List RawOp → Option SessionError
unfolding check_ops
validate_patch_ops [] = some no_patch_ops
validate_patch_ops (op ∷ ops) = check_ops (op ∷ ops)

-- The session, with the real files that it works on.
pub record TurnEditSession : Type 0 where
  pub real : Files
  pub shadow : Option Files
  pub touched_ever : List String
  pub pending_touched : List String

pub new : Files → TurnEditSession
new real = record { real = real; shadow = none; touched_ever = []; pending_touched = [] }

-- Both trees place a name at the same path below them. The patch engine applies the ops to a tree,
-- for the files that are allowed, and returns the files that it has touched.
pub record Workspace : Type 0 where
  pub place : String → String
  pub apply_ops : Files → List RawOp → List String → Files × Result Text (List String)

module _ (W : Workspace) where
  -- `if src.exists(): shutil.copy2(src, dst)`
  unfoldable pub copy_file : Files → String → Files → Files
  copy_file source rel target = elim (source (W.place rel)) [
    | none ↦ target
    | some content ↦ put_file (W.place rel) (some content) target
  ]

  unfoldable pub prepare_lightweight : Files → List String → Files → Files
  unfolding copy_file
  prepare_lightweight real [] shadow = shadow
  prepare_lightweight real (rel ∷ rels) shadow =
      prepare_lightweight real rels (copy_file real rel shadow)

  -- A file that the shadow has held before is left as it is.
  unfoldable pub seed : Files → List String → List String → Files → Files
  unfolding copy_file
  seed real ever [] shadow = shadow
  seed real ever (rel ∷ rels) shadow =
      seed real ever rels (if has_name rel ever then shadow else copy_file real rel shadow)

  unfoldable pub ensure_shadow : List String → TurnEditSession → Files
  unfolding prepare_lightweight seed
  ensure_shadow touched s = elim s.shadow [
    | none ↦ prepare_lightweight s.real touched (λ p. none)
    | some shadow ↦ seed s.real s.touched_ever touched shadow
  ]

  abbrev pub opened : List String → Files → TurnEditSession → TurnEditSession
  opened touched shadow s = record s {
    shadow = some shadow;
    touched_ever = s.touched_ever ++ touched;
  }

  abbrev pub settle :
      Files × Result Text (List String)
      → TurnEditSession
      → TurnEditSession × Result SessionError (List String)
  settle (shadow, ok applied) s =
      (record s { shadow = some shadow; pending_touched = applied }, ok applied)
  settle (shadow, err e) s = (record s { shadow = some shadow }, err (patch_failed e))

  abbrev pub apply_checked :
      List RawOp → TurnEditSession → TurnEditSession × Result SessionError (List String)
  apply_checked ops s =
      let touched = op_files ops in
      let shadow = ensure_shadow touched s in
      settle (W.apply_ops shadow ops touched) (opened touched shadow s)

  -- The applied files; the diffs are made of them for the chat.
  unfoldable pub apply :
      List RawOp → TurnEditSession → TurnEditSession × Result SessionError (List String)
  unfolding ensure_shadow op_files validate_patch_ops
  apply ops s = elim (validate_patch_ops ops) [ some e ↦ (s, err e) | none ↦ apply_checked ops s ]

  unfoldable pub promote_files : Files → List String → Files → Files
  unfolding copy_file
  promote_files shadow [] real = real
  promote_files shadow (rel ∷ rels) real = promote_files shadow rels (copy_file shadow rel real)

  unfoldable pub accept : TurnEditSession → Result SessionError TurnEditSession
  unfolding promote_files
  accept s = elim s.shadow [
    | none ↦ err no_shadow
    | some shadow ↦
        ok (record s { real = promote_files shadow s.pending_touched s.real; pending_touched = [] })
  ]

  -- A modified or deleted file is restored, a created one dropped.
  unfoldable pub restore : Files → String → Files → Files
  restore real rel shadow = elim (real (W.place rel)) [
    | some content ↦ put_file (W.place rel) (some content) shadow
    | none ↦ elim (shadow (W.place rel)) [
      | none ↦ shadow
      | some content ↦ put_file (W.place rel) none shadow
    ]
  ]

  unfoldable pub restore_files : Files → List String → Files → Files
  unfolding restore
  restore_files real [] shadow = shadow
  restore_files real (rel ∷ rels) shadow = restore_files real rels (restore real rel shadow)

  unfoldable pub reject : TurnEditSession → Result SessionError TurnEditSession
  unfolding restore_files
  reject s = elim s.shadow [
    | none ↦ err no_shadow
    | some shadow ↦ ok (record s {
      shadow = some (restore_files s.real s.pending_touched shadow);
      pending_touched = [];
    })
  ]

-- The shadow is removed; what it has held stays noted.
pub close : TurnEditSession → TurnEditSession
close s = record s { shadow = none }
