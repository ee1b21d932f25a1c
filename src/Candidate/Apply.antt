-- ===== src/Candidate/Apply.antt =====
-- `apply_patch_candidate` of patch/engine.py and the `_apply_…` methods that it calls.
use shadow_forge.Base.{
  String, Bool, true, false, not, ◌&&◌, List, [], ◌∷◌, ◌++◌, Option, none, some, ltb, if◌then◌else◌,
  map, Result, ok, err,
}
use shadow_forge.Text.{Text, read_text, contains, count, replace_first}
use shadow_forge.Diff.{Edit, normalize_hunk, UnifiedDiff}
use shadow_forge.Diff.Hunk.{apply_hunk_to_text}
use shadow_forge.Disk.{Node, file, Disk, write}
use shadow_forge.Patch.Simulate.{Engine}
use shadow_forge.Patch.Apply.{
  ApplyError, policy_error, preflight_error, path_escapes, apply_replace_range, apply_create_file,
  apply_delete_file, is_python, insert_name, first_is_policy,
}
use shadow_forge.Candidate.{
  Language, python, NodeSelector, PatchOperationV2, replace_node, insert_after_node, search_replace,
  apply_diff, replace_lines, create_text, delete_path, file_of, SelectorError, Parsers,
}
use shadow_forge.Candidate.Select.{Span, resolve_unique_selector_span}
use shadow_forge.Candidate.Simulate.{replaced_at, inserted_at, hunks_of, has_none}
use shadow_forge.Candidate.Preflight.{preflight_patch_candidate}

-- What an operation raises; `shared` is an error of the methods of the first format.
pub data OpError : Type 0 where
  shared : ApplyError → OpError
  unreadable_source search_missing search_ambiguous no_hunks hunk_mismatch bad_syntax : OpError
  selector_missing : OpError
  selector_error : SelectorError → OpError

abbrev pub Applied : Type 0
Applied = Disk × Option OpError

abbrev pub lifted : Disk × Option ApplyError → Applied
lifted (disk, none) = (disk, none)
lifted (disk, some e) = (disk, some (shared e))

-- `check_syntax=False`
abbrev pub unchecked : Engine → Engine
unchecked engine = record engine { syntax_ok = λ source. true }

-- A method that reads the file in text mode, makes a new text of it, and writes that.
abbrev pub rewrite : String → Disk → (Text → Result OpError Text) → Applied
rewrite target disk make = of_node (disk target)
  where
    stored : Result OpError Text → Applied
    stored (err e) = (disk, some e)
    stored (ok updated) = (write target (file updated) disk, none)

    of_node : Node → Applied
    of_node (file t) = stored (make (read_text t))
    of_node _ = (disk, some unreadable_source)

unfoldable pub apply_search_replace : Text → Text → Text → Result OpError Text
unfolding contains count replace_first
apply_search_replace search replace source =
    if not (contains search source)
    then err search_missing
    else if ltb 1 (count search source)
    then err search_ambiguous
    else ok (replace_first search replace source)

-- All hunks are tried; the flag tells that one did not fit.
unfoldable pub try_hunks : UnifiedDiff → List Edit → Text → Bool → Text × Bool
unfolding normalize_hunk apply_hunk_to_text
try_hunks unified_diff [] source failed = (source, failed)
try_hunks unified_diff ((path, hunk) ∷ rest) source failed =
    elim (apply_hunk_to_text source (normalize_hunk unified_diff hunk)) [
      | none ↦ try_hunks unified_diff rest source true
      | some updated ↦ try_hunks unified_diff rest updated failed
    ]

abbrev pub syntax_checked : Engine → String → Text → Result OpError Text
syntax_checked engine name source =
    if is_python name && not (engine.syntax_ok source) then err bad_syntax else ok source

unfoldable pub apply_diff_to : Engine → Parsers → String → Text → Text → Result OpError Text
unfolding hunks_of try_hunks
apply_diff_to engine parsers name diff source =
    if has_none (hunks_of name diff)
    then err no_hunks
    else let (updated, failed) = try_hunks parsers.unified_diff (hunks_of name diff) source false in
      if failed then err hunk_mismatch else syntax_checked engine name updated

abbrev node_updated : (Span → Text) → Result SelectorError (Option Span) → Result OpError Text
node_updated make (err e) = err (selector_error e)
node_updated make (ok none) = err selector_missing
node_updated make (ok (some span)) = ok (make span)

-- Python sources are rewritten by libcst, with a syntax check of the content before and of the
-- whole source behind.
abbrev python_updated : Engine → Text → Result SelectorError Text → Result OpError Text
python_updated engine content (err e) =
    if engine.syntax_ok content then err (selector_error e) else err bad_syntax
python_updated engine content (ok updated) =
    if engine.syntax_ok content && engine.syntax_ok updated then ok updated else err bad_syntax

unfoldable pub apply_replace_node :
    Engine → Parsers → Language → NodeSelector → Text → Text → Result OpError Text
unfolding resolve_unique_selector_span
apply_replace_node engine parsers python selector content source =
    python_updated engine content (parsers.apply_python_replace_node source selector content)
apply_replace_node engine parsers language selector content source =
    node_updated (replaced_at source content)
      (resolve_unique_selector_span parsers language source selector)

unfoldable pub apply_insert_after_node :
    Engine → Parsers → Language → NodeSelector → Text → Text → Result OpError Text
unfolding resolve_unique_selector_span
apply_insert_after_node engine parsers python selector content source =
    python_updated engine content (parsers.apply_python_insert_after_node source selector content)
apply_insert_after_node engine parsers language selector content source =
    node_updated (inserted_at source content)
      (resolve_unique_selector_span parsers language source selector)

unfoldable pub apply_at : Engine → Parsers → String → PatchOperationV2 → Disk → Applied
unfolding apply_replace_node apply_insert_after_node apply_search_replace apply_diff_to
    apply_replace_range apply_create_file apply_delete_file
apply_at engine parsers target (replace_node name language selector content) disk =
    rewrite target disk (apply_replace_node engine parsers language selector content)
apply_at engine parsers target (insert_after_node name language selector content) disk =
    rewrite target disk (apply_insert_after_node engine parsers language selector content)
apply_at engine parsers target (search_replace name search replace) disk =
    rewrite target disk (apply_search_replace search replace)
apply_at engine parsers target (apply_diff name diff) disk =
    rewrite target disk (apply_diff_to engine parsers name diff)
apply_at engine parsers target (replace_lines name anchor content) disk =
    lifted (apply_replace_range (unchecked engine) target name anchor content disk)
apply_at engine parsers target (create_text name content) disk =
    lifted (apply_create_file engine target name content disk)
apply_at engine parsers target (delete_path name) disk =
    lifted (apply_delete_file engine target disk)

unfoldable pub apply_op : Engine → Parsers → PatchOperationV2 → Disk → Applied
unfolding apply_at
apply_op engine parsers op disk = elim (engine.layout.resolve_inside (file_of op)) [
  | none ↦ (disk, some (shared path_escapes))
  | some target ↦ apply_at engine parsers target op disk
]

-- The variables of the loop: the disk, the touched files, sorted, and the errors with their files.
-- An error of the validator is `none`.
pub record Progress : Type 0 where
  pub disk : Disk
  pub touched : List String
  pub incremental_errors : List (String × Option OpError)

-- How many errors the validator reports of a file that was written.
abbrev pub Validator : Type 0
Validator = Option (Disk → String → List (Unit {0}))

abbrev pub is_write : PatchOperationV2 → Bool
is_write (delete_path name) = false
is_write op = true

abbrev validated : Validator → PatchOperationV2 → Disk → List (String × Option OpError)
validated none op disk = []
validated (some check) op disk =
    if is_write op then map (λ u. (file_of op, none)) (check disk (file_of op)) else []

abbrev pub settled : Validator → PatchOperationV2 → Progress → Applied → Progress
settled validator op p (disk, none) = record {
  disk = disk;
  touched = insert_name (file_of op) p.touched;
  incremental_errors = p.incremental_errors ++ validated validator op disk;
}
settled validator op p (disk, some e) = record p {
  disk = disk;
  incremental_errors = p.incremental_errors ++ (file_of op, some e) ∷ [];
}

-- The loop goes on behind an error.
unfoldable pub apply_ops :
    Engine → Parsers → Validator → List PatchOperationV2 → Progress → Progress
unfolding apply_op
apply_ops engine parsers validator [] p = p
apply_ops engine parsers validator (op ∷ ops) p =
    apply_ops engine parsers validator ops
      (settled validator op p (apply_op engine parsers op p.disk))

abbrev pub fresh_progress : Disk → Progress
fresh_progress disk = record { disk = disk; touched = []; incremental_errors = [] }

pub data CandidateError : Type 0 where
  refused_with : ApplyError → CandidateError
  incremental : List (String × Option OpError) → CandidateError

abbrev pub verdict :
    List (String × Option OpError) → List String → Result CandidateError (List String)
verdict [] touched = ok touched
verdict (e ∷ es) touched = err (incremental (e ∷ es))

abbrev pub concluded : Progress → Disk × Result CandidateError (List String)
concluded p = (p.disk, verdict p.incremental_errors p.touched)

unfoldable pub apply_patch_candidate :
    Engine
    → Parsers
    → Validator
    → Disk
    → List PatchOperationV2
    → Option (List String)
    → Disk × Result CandidateError (List String)
unfolding apply_ops
apply_patch_candidate engine parsers validator disk ops allowed =
    let report = preflight_patch_candidate engine parsers disk ops allowed in
    if not report.success
    then (
      disk,
      err (refused_with (if first_is_policy report.issues then policy_error else preflight_error)),
    )
    else concluded (apply_ops engine parsers validator ops (fresh_progress disk))
