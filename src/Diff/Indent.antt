-- ===== src/Diff/Indent.antt =====
-- `RelativeIndenter` of services/agentd-py/agentd/patch/utils.py. A `ValueError` or an `IndexError`
-- is `none`: the only caller catches every exception.
use shadow_forge.Base.{
  ℕ, zero, suc, ◌+◌, ◌-◌, Bool, true, false, List, [], ◌∷◌, ◌++◌, Option, none, some, ltb, ◌==◌,
  if◌then◌else◌, length, take, drop, any,
}
use shadow_forge.Text.{Text, newline, contains, starts_with, lstrip}
use shadow_forge.Diff.{lines_kept, concat, is_end, rstrip_of}

abbrev arrow : ℕ
arrow = 8592

unfoldable pub is_used : List Text → ℕ → Bool
is_used texts c = any (λ t. any (λ d. d == c) t) texts

-- The code points from `0x10000 + n` down to `0x10001`.
unfoldable pub select_unique_marker : List Text → ℕ → Option ℕ
unfolding is_used
select_unique_marker texts zero = none
select_unique_marker texts (suc n) =
    let rest = select_unique_marker texts n in
    if is_used texts (65536 + suc n) then rest else some (65536 + suc n)

unfoldable pub marker_for : List Text → Option ℕ
unfolding select_unique_marker
marker_for texts = elim (is_used texts arrow) [
  | false ↦ some arrow
  | true ↦ select_unique_marker texts 1048575
]

abbrev pub replicate : ℕ → ℕ → Text
replicate zero c = []
replicate (suc n) c = c ∷ replicate n c

unfoldable pub indent_of : Text → Text
unfolding rstrip_of lstrip
indent_of line = let bare = rstrip_of is_end line in take (length bare - length (lstrip bare)) line

unfoldable pub relative_lines : ℕ → Text → List Text → List Text
unfolding indent_of
relative_lines marker prev [] = []
relative_lines marker prev (line ∷ ls) =
    let indent = indent_of line in
    let change =
      if ltb (length prev) (length indent)
      then drop (length prev) indent
      else replicate (length prev - length indent) marker in
    let rest = relative_lines marker indent ls in
    (change ++ (newline ∷ drop (length indent) line)) ∷ rest

unfoldable pub make_relative : ℕ → Text → Option Text
unfolding contains lines_kept relative_lines concat
make_relative marker text =
    if contains (marker ∷ []) text
    then none
    else some (concat (relative_lines marker [] (lines_kept text)))

unfoldable pub absolute_lines : ℕ → Text → List Text → Option (List Text)
unfolding rstrip_of starts_with
absolute_lines marker prev [] = some []
absolute_lines marker prev (l ∷ []) = none
absolute_lines marker prev (l ∷ m ∷ ls) =
    let dent = rstrip_of is_end l in
    let cur =
      if starts_with (marker ∷ []) dent
      then take (length prev - length dent) prev
      else prev ++ dent in
    let line = if length (rstrip_of is_end m) == 0 then m else cur ++ m in
    let rest = absolute_lines marker cur ls in
    elim rest [ none ↦ none | some out ↦ some (line ∷ out) ]

unfoldable pub make_absolute : ℕ → Text → Option Text
unfolding contains lines_kept absolute_lines concat
make_absolute marker text = elim (absolute_lines marker [] (lines_kept text)) [
  | none ↦ none
  | some out ↦ if contains (marker ∷ []) (concat out) then none else some (concat out)
]
