-- ===== src/Patch/Apply.antt =====
-- `apply_patch_document` of patch/engine.py and the `_apply_…` methods that it calls.
use Prim.Native.String.{compare}
use Prim.Native.Nat.{Ordering}
use shadow_forge.Base.{
  ◌+◌, ◌-◌, String, Bool, true, false, not, ◌&&◌, ◌||◌, List, [], ◌∷◌, ◌++◌, Option, none, some,
  ltb, leb, ◌==◌, if◌then◌else◌, length, take, drop, head?, Result, ok, err,
}
use shadow_forge.Text.{Text, codes, splitlines, join, ends_with}
use shadow_forge.Disk.{missing, directory, file, Disk, exists, write, mkdir, rmtree}
use shadow_forge.Patch.{
  RangeAnchor, PatchOperation, replace_range, insert_after_symbol, create_file, delete_file,
  file_of, policy_violation, PatchPreflightIssue,
}
use shadow_forge.Patch.Simulate.{Engine, find_symbol_indices}
use shadow_forge.Patch.Preflight.{preflight_patch_document}

-- What `apply_patch_document` raises.
pub data ApplyError : Type 0 where
  policy_error preflight_error path_escapes unreadable_file invalid_range : ApplyError
  symbol_not_found already_exists parent_in_the_way syntax_error missing_path : ApplyError

-- A step of the application: the disk it leaves, and what it raises.
abbrev pub Applied : Type 0
Applied = Disk × Option ApplyError

-- `_apply_replace_range` on the lines that are read, with the bounds written as in the simulation.
unfoldable pub apply_range : RangeAnchor → Text → List Text → Option Text
apply_range anchor content lines =
    let size = length lines in
    let starts_inside = ltb 0 anchor.start_line && leb anchor.start_line size in
    let end_line = if starts_inside && ltb size anchor.end_line then size else anchor.end_line in
    if anchor.start_line == 0 || ltb end_line anchor.start_line || ltb size end_line
    then none
    else some
        (join (take (anchor.start_line - 1) lines ++ (splitlines content ++ drop end_line lines)))

-- `_apply_insert_after_symbol` on the lines that are read: behind the first line with the symbol.
unfoldable pub apply_insert : Text → Text → List Text → Option Text
apply_insert symbol content lines = elim (head? (find_symbol_indices lines symbol)) [
  | none ↦ none
  | some i ↦ some (join (take (i + 1) lines ++ (splitlines content ++ drop (i + 1) lines)))
]

abbrev pub is_python : String → Bool
is_python name = ends_with (codes ".py") (codes name)

-- The lines of a file are those of what text mode reads of it: Text.Newlines.splitlines-read_text.
unfoldable pub apply_replace_range : Engine → String → String → RangeAnchor → Text → Disk → Applied
unfolding apply_range
apply_replace_range engine target name anchor content disk = elim (disk target) [
  | file t ↦ elim (apply_range anchor content (splitlines t)) [
    | none ↦ (disk, some invalid_range)
    | some updated ↦
        if is_python name && not (engine.syntax_ok updated)
        then (disk, some syntax_error)
        else (write target (file updated) disk, none)
  ]
  | _ ↦ (disk, some unreadable_file)
]

unfoldable pub apply_insert_after_symbol : String → Text → Text → Disk → Applied
unfolding apply_insert
apply_insert_after_symbol target symbol content disk = elim (disk target) [
  | file t ↦ elim (apply_insert symbol content (splitlines t)) [
    | none ↦ (disk, some symbol_not_found)
    | some updated ↦ (write target (file updated) disk, none)
  ]
  | _ ↦ (disk, some unreadable_file)
]

unfoldable pub apply_create_file : Engine → String → String → Text → Disk → Applied
apply_create_file engine target name content disk =
    if exists (disk target)
    then (disk, some already_exists)
    else elim (mkdir (engine.layout.parents target) disk) [
      | none ↦ (disk, some parent_in_the_way)
      | some made ↦
          if is_python name && not (engine.syntax_ok content)
          then (made, some syntax_error)
          else (write target (file content) made, none)
    ]

-- A directory is removed; for a file nothing follows in the source.
unfoldable pub apply_delete_file : Engine → String → Disk → Applied
apply_delete_file engine target disk = elim (disk target) [
  | missing ↦ (disk, some missing_path)
  | directory ↦ (rmtree engine.layout target disk, none)
  | _ ↦ (disk, none)
]

unfoldable pub apply_at : Engine → String → PatchOperation → Disk → Applied
unfolding apply_replace_range apply_insert_after_symbol apply_create_file apply_delete_file
apply_at engine target (replace_range name anchor content) disk =
    apply_replace_range engine target name anchor content disk
apply_at engine target (insert_after_symbol name symbol content) disk =
    apply_insert_after_symbol target symbol content disk
apply_at engine target (create_file name content) disk =
    apply_create_file engine target name content disk
apply_at engine target (delete_file name) disk = apply_delete_file engine target disk

unfoldable pub apply_op : Engine → PatchOperation → Disk → Applied
apply_op engine op disk = elim (engine.layout.resolve_inside (file_of op)) [
  | none ↦ (disk, some path_escapes)
  | some target ↦ apply_at engine target op disk
]

-- The loop ends at the first exception; what was written before stays written.
abbrev pub after_op : (Disk → Applied) → Applied → Applied
after_op rest (disk, none) = rest disk
after_op rest (disk, some e) = (disk, some e)

unfoldable pub apply_ops : Engine → List PatchOperation → Disk → Applied
apply_ops engine [] disk = (disk, none)
apply_ops engine (op ∷ ops) disk = after_op (apply_ops engine ops) (apply_op engine op disk)

-- `sorted(touched)` of the set of names.
unfoldable pub insert_name : String → List String → List String
insert_name a [] = a ∷ []
insert_name a (b ∷ bs) =
    let rest = b ∷ insert_name a bs in
    elim (compare a b) [ Ordering.lt ↦ a ∷ b ∷ bs | Ordering.eq ↦ b ∷ bs | Ordering.gt ↦ rest ]

unfoldable pub touched : List PatchOperation → List String
touched [] = []
touched (op ∷ ops) = insert_name (file_of op) (touched ops)

abbrev pub first_is_policy : List PatchPreflightIssue → Bool
first_is_policy [] = false
first_is_policy (i ∷ is) = elim i.code [ policy_violation ↦ true | _ ↦ false ]

unfoldable pub apply_patch_document :
    Engine
    → Disk
    → List PatchOperation
    → Option (List String)
    → Disk × Result ApplyError (List String)
apply_patch_document engine disk ops allowed =
    let report = preflight_patch_document engine disk ops allowed in
    if not report.success
    then (disk, err (if first_is_policy report.issues then policy_error else preflight_error))
    else let (after, raised) = apply_ops engine ops disk in
      (after, elim raised [ none ↦ ok (touched ops) | some e ↦ err e ])
