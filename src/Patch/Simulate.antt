-- ===== src/Patch/Simulate.antt =====
-- What the preflight check of a line patch makes of one operation (patch/engine.py,
-- `preflight_patch_document` and `_find_symbol_indices`).
use shadow_forge.Base.{
  ℕ, ◌+◌, ◌-◌, String, Bool, false, not, ◌&&◌, ◌||◌, List, [], ◌∷◌, ◌++◌, Option, none, some, ltb,
  leb, ◌==◌, if◌then◌else◌, length, take, drop, get_elem?, Result, ok, err,
}
use shadow_forge.Text.{Text, codes, splitlines, contains, starts_with, ends_with, lstrip}
use shadow_forge.Disk.{Layout}
use shadow_forge.Patch.{
  RangeAnchor, PatchOperation, replace_range, insert_after_symbol, create_file, delete_file,
  PatchFailureCode, file_missing, file_exists, range_invalid, anchor_missing, anchor_ambiguous,
  order_conflict, python_unsafe_insert,
}

-- What the engine is given: the layout of the workspace, whether the base is a directory, the
-- forbidden patterns, and Python's `compile` as a test of a source text.
pub record Engine : Type 0 where
  pub layout : Layout
  pub base_is_dir : Bool
  pub patterns : List Text
  pub syntax_ok : Text → Bool

-- The indices of the lines that hold the symbol.
unfoldable pub indices_from : ℕ → Text → List Text → List ℕ
indices_from i symbol [] = []
indices_from i symbol (l ∷ ls) =
    let rest = indices_from (i + 1) symbol ls in if contains symbol l then i ∷ rest else rest

unfoldable pub find_symbol_indices : List Text → Text → List ℕ
unfolding indices_from
find_symbol_indices lines symbol = indices_from 0 symbol lines

-- `target.suffix == ".py"`: the last part of the path ends so, and has something before it.
unfoldable pub last_part : Text → Text
last_part [] = []
last_part (c ∷ cs) =
    let rest = last_part cs in
    if contains (b'/' ∷ []) (c ∷ cs)
    then (if c == b'/' && not (contains (b'/' ∷ []) cs) then cs else rest)
    else c ∷ cs

unfoldable pub has_py_suffix : String → Bool
unfolding last_part
has_py_suffix target =
    let name = last_part (codes target) in ends_with (codes ".py") name && ltb 3 (length name)

-- The lines of a `replace_range` in the simulation. The bounds are the source's, with 1 added to
-- each: `start < 0` is `start_line == 0`, and `end >= len` is `len < end_line`.
unfoldable pub simulate_range : RangeAnchor → Text → List Text → Option (List Text)
simulate_range anchor content lines =
    let size = length lines in
    let starts_inside = ltb 0 anchor.start_line && leb anchor.start_line size in
    let end_line = if starts_inside && ltb size anchor.end_line then size else anchor.end_line in
    if anchor.start_line == 0 || ltb end_line anchor.start_line || ltb size end_line
    then none
    else some (take (anchor.start_line - 1) lines ++ (splitlines content ++ drop end_line lines))

unfoldable pub is_signature : Text → Bool
is_signature line =
    let stripped = lstrip line in
    starts_with (codes "def ") stripped || starts_with (codes "class ") stripped

unfoldable pub signature_at : List Text → ℕ → Bool
unfolding is_signature
signature_at lines i = elim (get_elem? lines i) [ some line ↦ is_signature line | none ↦ false ]

-- Why a missing symbol is missing.
unfoldable pub missing_symbol_code : Bool → Option (List Text) → Text → PatchFailureCode
missing_symbol_code mutated none symbol = anchor_missing
missing_symbol_code mutated (some original) symbol =
    if mutated && not (length (find_symbol_indices original symbol) == 0)
    then order_conflict
    else anchor_missing

unfoldable pub simulate_insert :
    Bool → Bool → Option (List Text) → Text → Text → List Text → Result PatchFailureCode (List Text)
unfolding missing_symbol_code signature_at
simulate_insert is_py mutated original symbol content lines =
    elim (find_symbol_indices lines symbol) [
      | [] ↦ err (missing_symbol_code mutated original symbol)
      | i ∷ more ↦
          if ltb 0 (length more)
          then err anchor_ambiguous
          else if is_py && signature_at lines i
          then err python_unsafe_insert
          else ok (take (i + 1) lines ++ (splitlines content ++ drop (i + 1) lines))
    ]

-- The file after the operation, `none` for no file, or the code of the issue.
unfoldable pub simulate :
    Bool
    → Bool
    → Option (List Text)
    → PatchOperation
    → Option (List Text)
    → Result PatchFailureCode (Option (List Text))
unfolding simulate_range simulate_insert
simulate is_py mutated original (create_file name content) none = ok (some (splitlines content))
simulate is_py mutated original (create_file name content) (some lines) = err file_exists
simulate is_py mutated original op none = err file_missing
simulate is_py mutated original (delete_file name) (some lines) = ok none
simulate is_py mutated original (replace_range name anchor content) (some lines) =
    elim (simulate_range anchor content lines) [
      | none ↦ err range_invalid
      | some updated ↦ ok (some updated)
    ]
simulate is_py mutated original (insert_after_symbol name symbol content) (some lines) =
    elim (simulate_insert is_py mutated original symbol content lines) [
      | err code ↦ err code
      | ok updated ↦ ok (some updated)
    ]
