-- ===== src/Diff/Tests.antt =====
-- Small diffs.
use shadow_forge.Base.{◌≡◌, refl, [], ◌∷◌, ◌++◌, some}
use shadow_forge.Text.{Text, codes}
use shadow_forge.Diff.{find_diffs}
use shadow_forge.Diff.Hunk.{Hunk, apply_hunk_to_text, parse_codex_diff}
use shadow_forge.Diff.Indent.{make_relative}
use shadow_forge.Diff.Places.{IsAppliedAs, apply_hunk_to_text-IsAppliedAs}

abbrev line : Text → Text
line t = t ++ b'\n' ∷ []

abbrev fence : Text
fence =
    line (codes "```diff")
    ++ (line (codes "--- a.py")
        ++ (line (codes "+++ b/a.py")
            ++ (line (codes "@@ -1 +1 @@")
                ++ (line (codes "-x") ++ (line (codes "+y") ++ line (codes "```"))))))

one_hunk_found :
    find_diffs fence ≡ some ((some (codes "a.py"), line (codes "-x") ∷ line (codes "+y") ∷ []) ∷ [])
unfolding find_diffs
one_hunk_found = refl

markers_dropped : parse_codex_diff (codes "*** Begin Patch @@ @@ *** End Patch") ≡ codes "@@ @@"
unfolding parse_codex_diff
markers_dropped = refl

abbrev block : Text
block = line (codes "if x:") ++ (line (codes "    y") ++ line (codes "z"))

outdent_marked :
    make_relative 8592 block
    ≡ some (
        line []
        ++ (line (codes "if x:")
            ++ (line (codes "    ")
                ++ (line (codes "y")
                    ++ (8592 ∷ 8592 ∷ 8592 ∷ 8592 ∷ line [] ++ line (codes "z"))))))
unfolding make_relative
outdent_marked = refl

-- The second context line of the hunk is not in the text.
abbrev hunk : Hunk
hunk = (b' ', codes "a\n") ∷ (b'-', codes "b\n") ∷ (b'+', codes "c\n") ∷ (b' ', codes "q\n") ∷ []

abbrev content : Text
content = line (codes "a") ++ line (codes "b")

hunk_applied : apply_hunk_to_text content hunk ≡ some (line (codes "a") ++ line (codes "c"))
unfolding apply_hunk_to_text
hunk_applied = refl

apply_hunk_to_text-IsAppliedAs_example :
    IsAppliedAs content hunk (line (codes "a") ++ line (codes "c"))
apply_hunk_to_text-IsAppliedAs_example =
    apply_hunk_to_text-IsAppliedAs content hunk (line (codes "a") ++ line (codes "c")) hunk_applied
