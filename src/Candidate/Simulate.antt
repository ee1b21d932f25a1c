-- ===== src/Candidate/Simulate.antt =====
-- What the preflight check of a candidate makes of one operation (patch/engine.py,
-- `preflight_patch_candidate` and `_missing_or_conflict_issue`). Sources are whole texts.
use shadow_forge.Base.{
  String, Bool, true, false, not, ◌&&◌, List, [], ◌∷◌, ◌++◌, Option, none, some, ltb, if◌then◌else◌,
  length, take, drop, Result, ok, err,
}
use shadow_forge.Text.{
  Text, codes, newline, splitlines, join, contains, count, replace_first, ends_with,
}
use shadow_forge.Diff.{Edit, find_diffs, normalize_hunk, UnifiedDiff}
use shadow_forge.Diff.Hunk.{apply_hunk_to_text, parse_codex_diff}
use shadow_forge.Patch.{
  RangeAnchor, PatchFailureCode, file_missing, file_exists, range_invalid, anchor_missing,
  anchor_ambiguous, order_conflict, parser_unavailable, apply_error,
}
use shadow_forge.Patch.Simulate.{simulate_range}
use shadow_forge.Candidate.{
  NodeSelector, PatchOperationV2, replace_node, insert_after_node, search_replace, apply_diff,
  replace_lines, create_text, delete_path, SelectorError, ambiguous, unavailable, failed, Parsers,
}
use shadow_forge.Candidate.Select.{Span, resolve_unique_selector_span, find_symbol_offsets}

-- Only a source that is not empty is searched.
unfoldable pub missing_or_conflict : NodeSelector → Option Text → Bool → PatchFailureCode
unfolding find_symbol_offsets
missing_or_conflict selector none mutated = anchor_missing
missing_or_conflict selector (some original) mutated =
    let spans = find_symbol_offsets original selector.value selector.match_kind in
    if mutated && ltb 0 (length original) && ltb 0 (length spans)
    then order_conflict
    else anchor_missing

abbrev pub code_of : SelectorError → PatchFailureCode
code_of ambiguous = anchor_ambiguous
code_of unavailable = parser_unavailable
code_of failed = apply_error

-- A node operation: what is made of the source at the span.
unfoldable pub simulate_node :
    Bool
    → Option Text
    → NodeSelector
    → Result SelectorError (Option Span)
    → (Span → Text)
    → Result PatchFailureCode Text
unfolding missing_or_conflict
simulate_node mutated original selector (err e) make = err (code_of e)
simulate_node mutated original selector (ok none) make =
    err (missing_or_conflict selector original mutated)
simulate_node mutated original selector (ok (some span)) make = ok (make span)

abbrev pub replaced_at : Text → Text → Span → Text
replaced_at source content (i, j) = take i source ++ (content ++ drop j source)

-- Content that is not empty gets a newline at its end.
unfoldable pub closed : Text → Text
unfolding ends_with
closed [] = []
closed (c ∷ cs) = if ends_with (newline ∷ []) (c ∷ cs) then c ∷ cs else (c ∷ cs) ++ newline ∷ []

abbrev pub inserted_at : Text → Text → Span → Text
inserted_at source content (i, j) = take j source ++ (closed content ++ drop j source)

abbrev pub absent : Bool → PatchFailureCode
absent mutated = if mutated then order_conflict else anchor_missing

unfoldable pub simulate_search : Bool → Text → Text → Text → Result PatchFailureCode Text
unfolding contains count replace_first
simulate_search mutated search replace source =
    if not (contains search source)
    then err (absent mutated)
    else if ltb 1 (count search source)
    then err anchor_ambiguous
    else ok (replace_first search replace source)

-- The hunks of a diff. The text ends with a closing fence, so `find_diffs` raises nothing.
unfoldable pub hunks_of : String → Text → List Edit
unfolding find_diffs parse_codex_diff
hunks_of name diff =
    let path = codes name in
    elim (find_diffs (
      codes "```diff\n--- "
      ++ (path
          ++ (codes "\n+++ "
              ++ (path ++ (codes "\n" ++ (parse_codex_diff diff ++ codes "\n```"))))))) [
                | none ↦ []
                | some edits ↦ edits
              ]

-- The hunks one after the other, up to the first that does not fit.
unfoldable pub apply_hunks : UnifiedDiff → List Edit → Text → Option Text
unfolding normalize_hunk apply_hunk_to_text
apply_hunks unified_diff [] source = some source
apply_hunks unified_diff ((path, hunk) ∷ rest) source =
    elim (apply_hunk_to_text source (normalize_hunk unified_diff hunk)) [
      | none ↦ none
      | some updated ↦ apply_hunks unified_diff rest updated
    ]

abbrev pub has_none : List Edit → Bool
has_none [] = true
has_none (e ∷ es) = false

unfoldable pub simulate_diff :
    UnifiedDiff → Bool → String → Text → Text → Result PatchFailureCode Text
unfolding hunks_of apply_hunks
simulate_diff unified_diff mutated name diff source =
    if has_none (hunks_of name diff)
    then err apply_error
    else elim (apply_hunks unified_diff (hunks_of name diff) source) [
      | none ↦ err (absent mutated)
      | some updated ↦ ok updated
    ]

-- `"\n".join` of the lines with the range replaced.
unfoldable pub simulate_lines : RangeAnchor → Text → Text → Result PatchFailureCode Text
unfolding simulate_range join splitlines
simulate_lines anchor content source = elim (simulate_range anchor content (splitlines source)) [
  | none ↦ err range_invalid
  | some lines ↦ ok (join lines)
]

-- The operations that edit a source.
unfoldable pub simulate_edit :
    Parsers → Bool → Option Text → PatchOperationV2 → Text → Result PatchFailureCode Text
unfolding simulate_node resolve_unique_selector_span simulate_search simulate_diff simulate_lines
simulate_edit parsers mutated original (replace_node name language selector content) source =
    simulate_node mutated original selector
      (resolve_unique_selector_span parsers language source selector) (replaced_at source content)
simulate_edit parsers mutated original (insert_after_node name language selector content) source =
    simulate_node mutated original selector
      (resolve_unique_selector_span parsers language source selector) (inserted_at source content)
simulate_edit parsers mutated original (search_replace name search replace) source =
    simulate_search mutated search replace source
simulate_edit parsers mutated original (apply_diff name diff) source =
    simulate_diff parsers.unified_diff mutated name diff source
simulate_edit parsers mutated original (replace_lines name anchor content) source =
    simulate_lines anchor content source
simulate_edit parsers mutated original (create_text name content) source = err file_exists
simulate_edit parsers mutated original (delete_path name) source = err file_missing

-- The source after the operation, `none` for no file, or the code of the issue.
unfoldable pub simulate :
    Parsers
    → Bool
    → Option Text
    → PatchOperationV2
    → Option Text
    → Result PatchFailureCode (Option Text)
unfolding simulate_edit
simulate parsers mutated original (create_text name content) none = ok (some content)
simulate parsers mutated original (create_text name content) (some source) = err file_exists
simulate parsers mutated original op none = err file_missing
simulate parsers mutated original (delete_path name) (some source) = ok none
simulate parsers mutated original op (some source) =
    elim (simulate_edit parsers mutated original op source) [
      | err code ↦ err code
      | ok updated ↦ ok (some updated)
    ]
