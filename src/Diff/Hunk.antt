-- ===== src/Diff/Hunk.antt =====
-- The application of one hunk to a text, from strict to flexible (`apply_hunk_to_text`,
-- `_apply_partial_hunk` and `_parse_codex_diff` of services/agentd-py/agentd/patch/engine.py).
use shadow_forge.Base.{
  ℕ, zero, suc, ◌+◌, ◌-◌, Bool, true, false, not, ◌&&◌, ◌||◌, List, [], ◌∷◌, ◌++◌, Option, none,
  some, ltb, ◌==◌, if◌then◌else◌, length, take, drop, map, any,
}
use shadow_forge.Text.{
  Text, codes, newline, starts_with, contains, replace_first, join, strip, text_eq,
}
use shadow_forge.Diff.{rstrip_of, hunk_to_before_after, line_text}
use shadow_forge.Diff.Indent.{marker_for, make_relative, make_absolute}

abbrev pub Hunk : Type 0
Hunk = List (ℕ × Text)

abbrev pub is_change : ℕ × Text → Bool
is_change (c, cs) = (c == b'-') || (c == b'+')

-- The lines before the first change: none if nothing is changed.
unfoldable pub first_change : Hunk → ℕ
first_change hunk = if any is_change hunk then unchanged hunk else 0
  where
    unchanged : Hunk → ℕ
    unchanged [] = 0
    unchanged (l ∷ ls) = let rest = unchanged ls in if is_change l then 0 else suc rest

-- The number of lines up to the last change, which is the whole hunk if nothing is changed.
unfoldable pub behind_changes : Hunk → ℕ
behind_changes hunk = if any is_change hunk then counted hunk else length hunk
  where
    counted : Hunk → ℕ
    counted [] = 0
    counted (l ∷ ls) =
        let rest = counted ls in if is_change l || any is_change ls then suc rest else 0

abbrev pub down_from : ℕ → List ℕ
down_from zero = 0 ∷ []
down_from (suc n) = suc n ∷ down_from n

-- The sizes of the context that is kept before and behind the changes, in the order of the loops.
unfoldable pub sizes_of : ℕ → ℕ → ℕ → List ℕ → List (ℕ × ℕ)
sizes_of total prec foll [] = []
sizes_of total prec foll (p ∷ ps) =
    let rest = sizes_of total prec foll ps in
    if ltb total p || ltb foll (total - p) then rest else (p, total - p) ∷ rest

unfoldable pub sizes : ℕ → ℕ → List ℕ → List (ℕ × ℕ)
unfolding sizes_of
sizes prec foll [] = []
sizes prec foll (u ∷ us) = sizes_of u prec foll (down_from prec) ++ sizes prec foll us

abbrev pub context_line : ℕ × Text → Text
context_line (c, cs) = if (c == b' ') || (c == b'+') || (c == b'-') then cs else c ∷ cs

unfoldable pub context_to_text : Hunk → Text
unfolding join
context_to_text lines = join (map context_line lines)

-- Neither the dropped context nor the same without its line ends is in the content.
unfoldable pub is_lost : Hunk → Text → Bool
unfolding context_to_text contains rstrip_of
is_lost context content =
    let text = context_to_text context in
    not (contains text content) && not (contains (rstrip_of (λ c. c == newline) text) content)

-- The three parts of a hunk.
pub record Parts : Type 0 where
  pub preceding : Hunk
  pub changes : Hunk
  pub following : Hunk

unfoldable pub parts_of : Hunk → Parts
unfolding first_change behind_changes
parts_of hunk = record {
  preceding = take (first_change hunk) hunk;
  changes = drop (first_change hunk) (take (behind_changes hunk) hunk);
  following = drop (behind_changes hunk) hunk;
}

-- The guard for a hunk that only inserts.
unfoldable pub is_unsafe_drop : Hunk → Parts → Text → ℕ × ℕ → Bool
unfolding is_lost
is_unsafe_drop hunk parts content (use_prec, use_foll) =
    not (any (λ l. l.0 == b'-') hunk)
    && ltb 0 (length parts.preceding)
    && ltb 0 (length parts.following)
    && (((use_prec == 0) && is_lost parts.preceding content)
        || ((use_foll == 0) && is_lost parts.following content))

abbrev pub partial_hunk : Parts → ℕ × ℕ → List Text
partial_hunk parts (use_prec, use_foll) = map line_text (
    drop (length parts.preceding - use_prec) parts.preceding
    ++ (parts.changes ++ take use_foll parts.following))

unfoldable pub try_sizes : Hunk → Parts → Text → List (ℕ × ℕ) → Option Text
unfolding is_unsafe_drop hunk_to_before_after contains replace_first
try_sizes hunk parts content [] = none
try_sizes hunk parts content (s ∷ ss) =
    let rest = try_sizes hunk parts content ss in
    let before = (hunk_to_before_after (partial_hunk parts s)).0 in
    let after = (hunk_to_before_after (partial_hunk parts s)).1 in
    if is_unsafe_drop hunk parts content s
    then rest
    else if ltb 0 (length before) && contains before content
    then some (replace_first before after content)
    else rest

unfoldable pub apply_partial_hunk : Text → Hunk → Option Text
unfolding parts_of sizes try_sizes
apply_partial_hunk content hunk =
    let parts = parts_of hunk in
    let prec = length parts.preceding in
    let foll = length parts.following in
    try_sizes hunk parts content (sizes prec foll (down_from (prec + foll)))

-- The second strategy, by relative indentation. An exception is caught.
unfoldable pub apply_relative : Text → Text → Text → Option Text
unfolding marker_for make_relative make_absolute contains replace_first
apply_relative before after content = elim (marker_for (before ∷ after ∷ content ∷ [])) [
  | none ↦ none
  | some marker ↦ elim (make_relative marker before) [
    | none ↦ none
    | some rel_before ↦ elim (make_relative marker content) [
      | none ↦ none
      | some rel_content ↦ elim (contains rel_before rel_content) [
        | false ↦ none
        | true ↦ elim (make_relative marker after) [
          | none ↦ none
          | some rel_after ↦ make_absolute marker (replace_first rel_before rel_after rel_content)
        ]
      ]
    ]
  ]
]

-- The result of the last strategy counts only if it is not the empty text.
abbrev pub not_empty : Option Text → Option Text
not_empty (some (c ∷ cs)) = some (c ∷ cs)
not_empty _ = none

unfoldable pub apply_flexible : Text → Text → Text → Hunk → Option Text
unfolding apply_relative apply_partial_hunk
apply_flexible before after content hunk = elim (apply_relative before after content) [
  | some t ↦ some t
  | none ↦ not_empty (apply_partial_hunk content hunk)
]

unfoldable pub apply_hunk_to_text : Text → Hunk → Option Text
unfolding hunk_to_before_after contains replace_first rstrip_of apply_flexible
apply_hunk_to_text content hunk =
    let before = (hunk_to_before_after (map line_text hunk)).0 in
    let after = (hunk_to_before_after (map line_text hunk)).1 in
    let trimmed = rstrip_of (λ c. c == newline) before in
    elim (contains before content) [
      | true ↦ some (replace_first before after content)
      | false ↦
          elim (ltb 0 (length trimmed)
            && not (text_eq trimmed before)
            && contains trimmed content) [
              | true ↦ some (replace_first trimmed (rstrip_of (λ c. c == newline) after) content)
              | false ↦ apply_flexible before after content hunk
            ]
    ]

-- `text.index(sub)`
unfoldable pub index_of : Text → Text → Option ℕ
unfolding starts_with
index_of sub [] = if starts_with sub [] then some 0 else none
index_of sub (c ∷ cs) =
    let rest = index_of sub cs in
    if starts_with sub (c ∷ cs) then some 0 else elim rest [ none ↦ none | some i ↦ some (suc i) ]

abbrev begin_patch : Text
begin_patch = codes "*** Begin Patch"

abbrev end_patch : Text
end_patch = codes "*** End Patch"

-- What stands between the markers, if both are there.
unfoldable pub parse_codex_diff : Text → Text
unfolding index_of strip
parse_codex_diff text = elim (index_of begin_patch text) [
  | none ↦ text
  | some i ↦ elim (index_of end_patch text) [
    | none ↦ text
    | some j ↦
        let from_idx = i + length begin_patch in strip (take (j - from_idx) (drop from_idx text))
  ]
]
