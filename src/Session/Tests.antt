-- ===== src/Session/Tests.antt =====
-- Runs of an edit session with an engine that writes one file.
use shadow_forge.Base.{
  ◌≡◌, refl, ap, ◌≢◌, String, true, false, List, [], ◌∷◌, none, some, arith, Result, ok, err,
  if◌then◌else◌,
}
use shadow_forge.Text.{Text, codes, strip, starts_with}
use shadow_forge.Env.{posix_root, posix_parts}
use shadow_forge.Loop.{RawOp, object, op_files}
use shadow_forge.Session.{
  Files, put_file, malformed_file, outside_file, validate_patch_ops, TurnEditSession, Workspace,
  apply, accept, reject,
}
use shadow_forge.Session.Files.{is_placed}
use shadow_forge.Session.InSync.{IsFramed, InSync, apply-reject, apply-accept, accept_keeps}

abbrev old_files : Files
old_files = put_file "a.py" (some (codes "old")) (λ p. none)

abbrev writer : Workspace
writer = record {
  place = λ name. name;
  apply_ops = λ files ops allowed. (put_file "a.py" (some (codes "new")) files, ok ("a.py" ∷ []));
}

applied_of : Result Text (List String) → List String
applied_of (ok applied) = applied
applied_of (err e) = []

writer-IsFramed : IsFramed writer
unfolding applied_of
writer-IsFramed = record {
  frame = λ files after ops allowed applied h p n.
      framed files after applied p (ap (λ r. r.0) h) (ap (λ r. applied_of r.1) h) n;
}
  where
    framed :
        (files after : Files) (applied : List String) (p : String)
        → put_file "a.py" (some (codes "new")) files ≡ after
        → "a.py" ∷ [] ≡ applied
        → is_placed writer p applied ≡ false
        → after p ≡ files p
    framed files after applied p f a n = rw (← f) (framed_at (rw (← a) at n))
      where
        framed_at :
            is_placed writer p ("a.py" ∷ []) ≡ false
            → put_file "a.py" (some (codes "new")) files p ≡ files p
        framed_at m = ground arith

abbrev edits : List RawOp
edits = object "op" (some "a.py") ∷ []

abbrev opening_session : TurnEditSession
opening_session = record {
  real = old_files;
  shadow = none;
  touched_ever = [];
  pending_touched = [];
}

abbrev patched_session : TurnEditSession
patched_session = record {
  real = old_files;
  shadow = some (put_file "a.py" (some (codes "new")) old_files);
  touched_ever = "a.py" ∷ [];
  pending_touched = "a.py" ∷ [];
}

edits_apply : apply writer edits opening_session ≡ (patched_session, ok ("a.py" ∷ []))
unfolding apply op_files validate_patch_ops strip posix_root posix_parts starts_with
edits_apply = refl

misplaced_body : validate_patch_ops (object "op" (some "x = 1\n") ∷ []) ≡ some malformed_file
unfolding validate_patch_ops strip posix_root posix_parts starts_with
misplaced_body = refl

climbing_path : validate_patch_ops (object "op" (some "src/../../a.py") ∷ []) ≡ some outside_file
unfolding validate_patch_ops strip posix_root posix_parts starts_with
climbing_path = refl

apply-reject_example :
    (s2 : TurnEditSession) × (reject writer patched_session ≡ ok s2)
    × InSync writer s2
    × (s2.real ≡ old_files)
    × (s2.pending_touched ≡ [])
apply-reject_example =
    apply-reject writer edits opening_session patched_session ("a.py" ∷ []) writer-IsFramed refl
      edits_apply

none_lost :
    (p : String)
    → is_placed writer p ("a.py" ∷ []) ≡ true
    → put_file "a.py" (some (codes "new")) old_files p ≡ none
    → old_files p ≡ none
none_lost p h gone = ground arith

apply-accept_example :
    (s2 : TurnEditSession) × (accept writer patched_session ≡ ok s2)
    × InSync writer s2
    × ((p : String)
        → s2.real p ≡ (
            if is_placed writer p ("a.py" ∷ [])
            then put_file "a.py" (some (codes "new")) old_files p
            else old_files p))
    × (s2.pending_touched ≡ [])
apply-accept_example =
    apply-accept writer edits opening_session patched_session ("a.py" ∷ [])
      (put_file "a.py" (some (codes "new")) old_files) writer-IsFramed refl edits_apply refl
      none_lost

-- The shadow holds nothing any more of the file that is pending.
abbrev deleted_session : TurnEditSession
deleted_session = record patched_session { shadow = some (λ p. none) }

deleted_accepted : (s2 : TurnEditSession) × (accept writer deleted_session ≡ ok s2)
unfolding accept
deleted_accepted = (_, refl)

old_file_there : old_files "a.py" ≢ none
old_file_there h = cc

accept_keeps_example : deleted_accepted.0.real "a.py" ≢ none
accept_keeps_example =
    accept_keeps writer deleted_session deleted_accepted.0 "a.py" deleted_accepted.1 old_file_there
