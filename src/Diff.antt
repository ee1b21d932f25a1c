-- ===== src/Diff.antt =====
-- Unified diffs as models write them (services/agentd-py/agentd/patch/parser.py and patch/utils.py).
-- A line keeps its line ending. A call that raises is `none`, where the caller only catches it.
pub mod Indent
pub mod Hunk
pub mod Places
mod Tests
use shadow_forge.Base.{
  ℕ, zero, suc, ◌+◌, ◌-◌, Bool, true, false, not, ◌&&◌, ◌||◌, List, [], ◌∷◌, ◌++◌, Option, none,
  some, ltb, ◌==◌, if◌then◌else◌, length, take, drop, map,
}
use mathlib.Core.List.{reverse}
use shadow_forge.Text.{Text, codes, newline, is_break, push, starts_with, ends_with, strip}

-- `text.splitlines(keepends=True)`
unfoldable pub lines_kept : Text → List Text
unfolding is_break starts_with
lines_kept [] = []
lines_kept (c ∷ cs) =
    let rest = lines_kept cs in
    if is_break c && not ((c == 13) && starts_with (newline ∷ []) cs)
    then (c ∷ []) ∷ rest
    else push c rest

-- `"".join(lines)`
unfoldable pub concat : List Text → Text
concat [] = []
concat (l ∷ ls) = l ++ concat ls

abbrev pub is_end : ℕ → Bool
is_end c = (c == 10) || (c == 13)

unfoldable pub drop_while : (ℕ → Bool) → Text → Text
drop_while p [] = []
drop_while p (c ∷ cs) = let rest = drop_while p cs in if p c then rest else c ∷ cs

-- `text.rstrip("\r\n")`, and the same for other characters.
unfoldable pub rstrip_of : (ℕ → Bool) → Text → Text
unfolding drop_while
rstrip_of p t = reverse (drop_while p (reverse t))

-- The sign of a line of a hunk, and what it says.
unfoldable pub signed : Text → ℕ × Text
signed [] = (b' ', [])
signed (c ∷ []) = (b' ', c ∷ [])
signed (c ∷ d ∷ ds) = (c, d ∷ ds)

abbrev pub on_before : ℕ → Bool
on_before op = (op == b' ') || (op == b'-')

abbrev pub on_after : ℕ → Bool
on_after op = (op == b' ') || (op == b'+')

-- The contents of the lines whose sign passes the test.
unfoldable pub side : (ℕ → Bool) → List Text → List Text
unfolding signed
side test [] = []
side test (l ∷ ls) =
    let rest = side test ls in
    let (op, content) = signed l in if test op then content ∷ rest else rest

-- `hunk_to_before_after`, with and without `lines=True`.
unfoldable pub hunk_to_lines : List Text → List Text × List Text
unfolding side
hunk_to_lines hunk = (side on_before hunk, side on_after hunk)

unfoldable pub hunk_to_before_after : List Text → Text × Text
unfolding hunk_to_lines concat
hunk_to_before_after hunk =
    let (before, after) = hunk_to_lines hunk in (concat before, concat after)

-- A line of white space keeps its line ending only; with no line ending it is kept whole.
unfoldable pub cleanup_line : Text → Text
unfolding strip rstrip_of
cleanup_line line =
    let bare = length (rstrip_of is_end line) in
    if ltb 0 (length (strip line)) || (bare == length line) then line else drop bare line

abbrev pub cleanup_pure_whitespace_lines : List Text → List Text
cleanup_pure_whitespace_lines lines = map cleanup_line lines

-- The lines before the closing fence, or before the last line where there is none. The source has
-- no line number to return where no line follows.
unfoldable pub fenced : List Text → Option (List Text)
unfolding starts_with
fenced [] = none
fenced (l ∷ []) = some []
fenced (l ∷ m ∷ ls) =
    let rest = fenced (m ∷ ls) in
    if starts_with (codes "```") l
    then some []
    else elim rest [ none ↦ none | some block ↦ some (l ∷ block) ]

abbrev pub Edit : Type 0
Edit = Option Text × List Text

-- The variables of the loop of `process_fenced_block`.
pub record BlockState : Type 0 where
  pub fname : Option Text
  pub hunk : List Text
  pub has_changes : Bool
  pub edits : List Edit

unfoldable pub flushed : List Text → BlockState → List Edit
flushed hunk s = if s.has_changes then s.edits ++ (s.fname, hunk) ∷ [] else s.edits

-- `hunk[-1].startswith("--- ")`, and `hunk[:-1]`
unfoldable pub ends_in_path : List Text → Bool
unfolding starts_with
ends_in_path [] = false
ends_in_path (l ∷ []) = starts_with (codes "--- ") l
ends_in_path (l ∷ m ∷ ls) = ends_in_path (m ∷ ls)

unfoldable pub block_line : Text → BlockState → BlockState
unfolding flushed ends_in_path starts_with strip
block_line line s =
    if starts_with (codes "+++ ") line && ends_in_path s.hunk
    then record {
      fname = some (strip (drop 4 line));
      hunk = [];
      has_changes = false;
      edits = flushed (take (length s.hunk - 1) s.hunk) s;
    }
    else if starts_with (codes "@@") line
    then record s { hunk = []; has_changes = false; edits = flushed s.hunk s }
    else record s {
      hunk = s.hunk ++ line ∷ [];
      has_changes = s.has_changes || starts_with (codes "-") line || starts_with (codes "+") line;
    }

unfoldable pub block_lines : List Text → BlockState → BlockState
unfolding block_line
block_lines [] s = s
block_lines (l ∷ ls) s = block_lines ls (block_line l s)

-- The path of a block that begins with `--- ` and `+++ `, and the lines behind.
unfoldable pub block_path : List Text → Option Text × List Text
unfolding starts_with strip
block_path (l ∷ m ∷ ls) =
    let name = strip (drop 4 m) in
    if starts_with (codes "--- ") l && starts_with (codes "+++ ") m
    then (some (if starts_with (codes "b/") name then drop 2 name else name), ls)
    else (none, l ∷ m ∷ ls)
block_path block = (none, block)

unfoldable pub process_block : List Text → List Edit
unfolding block_path block_lines
process_block block =
    let (fname, lines) = block_path (block ++ codes "@@ @@" ∷ []) in
    (block_lines lines (record { fname = fname; hunk = []; has_changes = false; edits = [] })).edits

-- The loop over the lines. The number is how many lines of the last block are still to be passed
-- over: the block, its closing fence, and the line behind it.
unfoldable pub scan : ℕ → List Text → Option (List Edit)
unfolding fenced process_block starts_with
scan skip [] = some []
scan (suc k) (l ∷ ls) = scan k ls
scan zero (l ∷ ls) =
    let opens = starts_with (codes "```diff") l in
    let block = if opens then fenced ls else some [] in
    let skip = if opens then elim block [ none ↦ 0 | some b ↦ length b + 2 ] else 0 in
    let rest = scan skip ls in
    let own = if opens then elim block [ none ↦ [] | some b ↦ process_block b ] else [] in
    elim block [ none ↦ none | some b ↦ elim rest [ none ↦ none | some es ↦ some (own ++ es) ] ]

-- A path is passed on to the hunks behind that have none.
unfoldable pub with_paths : Option Text → List Edit → List Edit
with_paths last [] = []
with_paths last ((some (c ∷ cs), hunk) ∷ es) = (some (c ∷ cs), hunk) ∷ with_paths (some (c ∷ cs)) es
with_paths last ((path, hunk) ∷ es) = (last, hunk) ∷ with_paths last es

unfoldable pub find_diffs : Text → Option (List Edit)
unfolding lines_kept scan with_paths ends_with
find_diffs content =
    let whole = if ends_with (newline ∷ []) content then content else content ++ newline ∷ [] in
    elim (scan 0 (lines_kept whole)) [ none ↦ none | some es ↦ some (with_paths none es) ]

-- `difflib.unified_diff(before, after, n=…)` is given. Each of its lines has a first character.
abbrev pub UnifiedDiff : Type 0
UnifiedDiff = List Text → List Text → ℕ → List (ℕ × Text)

abbrev pub line_text : ℕ × Text → Text
line_text (c, cs) = c ∷ cs

unfoldable pub normalize_hunk : UnifiedDiff → List Text → List (ℕ × Text)
unfolding hunk_to_lines cleanup_line
normalize_hunk unified_diff hunk =
    let (before, after) = hunk_to_lines hunk in
    let b = cleanup_pure_whitespace_lines before in
    let a = cleanup_pure_whitespace_lines after in
    let n = if ltb (length a) (length b) then length b else length a in drop 3 (unified_diff b a n)
