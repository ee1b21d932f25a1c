-- ===== src/Candidate/Tests.antt =====
-- Small candidates on a small workspace.
use shadow_forge.Base.{
  ◌≡◌, refl, sym, ◌∙◌, String, true, false, List, [], ◌∷◌, none, some, str_eq, if◌then◌else◌,
  lookup, insert, err, map,
}
use shadow_forge.Text.{codes, starts_with, splitlines}
use shadow_forge.Policy.{validate_paths, fnmatch}
use shadow_forge.Disk.{missing, file, Disk}
use shadow_forge.Patch.{anchor_missing}
use shadow_forge.Patch.Simulate.{Engine}
use shadow_forge.Patch.Apply.{insert_name}
use shadow_forge.Candidate.{
  exact, contains_match, NodeSelector, PatchOperationV2, search_replace, replace_lines, file_of,
  unavailable, failed, Parsers,
}
use shadow_forge.Candidate.Simulate.{missing_or_conflict}
use shadow_forge.Candidate.Preflight.{
  fresh_simulation, with_source, simulate_step, preflight_op, preflight_ops,
  preflight_patch_candidate,
}
use shadow_forge.Candidate.Apply.{apply_patch_candidate, incremental, search_missing}
use shadow_forge.Candidate.Mirrors.{AreDistinct, IsMirrored, apply_patch_candidate-IsMirrored}
use shadow_forge.Candidate.Selectors.{missing_or_conflict-exact}

abbrev engine : Engine
engine = record {
  layout = record {
    resolve_inside = λ name. some name;
    parents = λ path. [];
    at_or_below = λ path target. str_eq path target;
  };
  base_is_dir = true;
  patterns = codes ".git/**" ∷ [];
  syntax_ok = λ source. true;
}

-- No parser is installed.
abbrev parsers : Parsers
parsers = record {
  python_declaration_matches = λ source symbol kind. err failed;
  parse_tree = λ language source. err unavailable;
  declares = λ language source symbol. false;
  apply_python_replace_node = λ source selector content. err failed;
  apply_python_insert_after_node = λ source selector content. err failed;
  unified_diff = λ before after n. [];
}

abbrev disk : Disk
disk path = if str_eq path "a.txt" then file (codes "x\r\ny") else missing

-- The second operation edits what the first has made.
abbrev edits : List PatchOperationV2
edits =
    search_replace "a.txt" (codes "x") (codes "long")
    ∷ replace_lines "a.txt" (record { start_line = 2; end_line = 2 }) (codes "z")
    ∷ search_replace "a.txt" (codes "ng\nz") (codes "w")
    ∷ []

edits_pass : (preflight_patch_candidate engine parsers disk edits none).success ≡ true
unfolding preflight_patch_candidate validate_paths fnmatch starts_with preflight_ops preflight_op
    with_source lookup insert simulate_step splitlines insert_name
edits_pass = refl

some_name : {s t : String} → some s ≡ some t → s ≡ t
some_name h = cc

edits-AreDistinct : AreDistinct engine (map file_of edits)
edits-AreDistinct m n t k l i j = some_name (i ∙ sym j)

apply_patch_candidate-IsMirrored_example :
    IsMirrored engine
      (preflight_ops engine parsers none disk 0 edits fresh_simulation)
      edits
      (apply_patch_candidate engine parsers none disk edits none)
apply_patch_candidate-IsMirrored_example =
    apply_patch_candidate-IsMirrored engine parsers disk edits none (refl, (tt, (refl, tt)))
      edits-AreDistinct edits_pass

-- The first operation leaves a carriage return, which the second finds in the simulation only.
abbrev returns : List PatchOperationV2
returns =
    search_replace "a.txt" (codes "x") (codes "long\r")
    ∷ search_replace "a.txt" (codes "long\r") (codes "w")
    ∷ []

returns_pass : (preflight_patch_candidate engine parsers disk returns none).success ≡ true
unfolding preflight_patch_candidate validate_paths fnmatch starts_with preflight_ops preflight_op
    with_source lookup insert simulate_step insert_name
returns_pass = refl

returns_fail :
    (apply_patch_candidate engine parsers none disk returns none).1
    ≡ err (incremental (("a.txt", some search_missing) ∷ []))
unfolding apply_patch_candidate preflight_patch_candidate validate_paths fnmatch starts_with
    preflight_ops preflight_op with_source lookup insert simulate_step insert_name
returns_fail = refl

abbrev exact_name : NodeSelector
exact_name = record { value = codes "f"; match_kind = exact }

abbrev part_of_name : NodeSelector
part_of_name = record { value = codes "f"; match_kind = contains_match }

missing_or_conflict-exact_example :
    missing_or_conflict exact_name (some (codes "f()")) true ≡ anchor_missing
missing_or_conflict-exact_example =
    missing_or_conflict-exact exact_name (codes "f()") true refl (refl, (refl, (refl, tt)))
