-- ===== src/Patch/Tests.antt =====
-- A small workspace, and documents applied to it.
use mathlib.Core.Path.{subst}
use shadow_forge.Base.{
  ◌≡◌, refl, String, true, List, [], ◌∷◌, ◌++◌, none, some, ok, str_eq, if◌then◌else◌, lookup,
  insert, ap,
}
use shadow_forge.Text.{Text, codes, starts_with, splitlines}
use shadow_forge.Policy.{validate_paths, fnmatch}
use shadow_forge.Disk.{missing, file, Disk}
use shadow_forge.Patch.{PatchOperation, replace_range, create_file, delete_file}
use shadow_forge.Patch.Simulate.{Engine}
use shadow_forge.Patch.Preflight.{
  fresh_simulation, preflight_op, preflight_ops, with_file, simulate_step, preflight_patch_document,
}
use shadow_forge.Patch.Apply.{apply_patch_document}
use shadow_forge.Patch.Delete.{delete_file_keeps}
use shadow_forge.Patch.Frame.{IsClearOf, AreClear, apply_patch_document-other}
use shadow_forge.Patch.Passing.{AreSpread}
use shadow_forge.Patch.Predict.{Concluded, apply_patch_document-Concluded}

-- Every name is its own path, no directory is on the way, and every text compiles.
abbrev engine : Engine
engine = record {
  layout = record {
    resolve_inside = λ name. some name;
    parents = λ path. [];
    at_or_below = λ path target. str_eq path target;
  };
  base_is_dir = true;
  patterns = codes ".git/**" ∷ [];
  syntax_ok = λ source. true;
}

abbrev three_lines : Text
three_lines = codes "one" ++ b'\n' ∷ (codes "two" ++ b'\n' ∷ codes "three")

abbrev disk : Disk
disk path = if str_eq path "a.txt" then file three_lines else missing

abbrev edits : List PatchOperation
edits =
    replace_range "a.txt" (record { start_line = 2; end_line = 9 }) (codes "last")
    ∷ create_file "b.py" (codes "x = 1")
    ∷ []

abbrev removal : List PatchOperation
removal = delete_file "a.txt" ∷ []

edits_pass : (preflight_patch_document engine disk edits none).success ≡ true
unfolding preflight_patch_document validate_paths fnmatch starts_with preflight_ops preflight_op
    with_file lookup simulate_step insert splitlines
edits_pass = refl

is_some : (s t : String) → some s ≡ some t → (P : String → Type 0) → P s → P t
is_some s t i P p = subst P (ap (λ o. elim o [ none ↦ s | some x ↦ x ]) i) p

edits-AreSpread : AreSpread engine edits
edits-AreSpread = (
  (
    (
      refl,
      λ t u i j.
          is_some "a.txt" t i (λ t. IsClearOf engine t u × IsClearOf engine u t)
            (is_some "b.py" u j (λ u. IsClearOf engine "a.txt" u × IsClearOf engine u "a.txt")
              ((refl, refl, refl), (refl, refl, refl))),
    ),
    tt,
  ),
  (tt, tt),
)

apply_patch_document-Concluded_example :
    Concluded engine disk
      (preflight_ops engine none disk 0 edits fresh_simulation)
      edits
      (apply_patch_document engine disk edits none)
apply_patch_document-Concluded_example =
    apply_patch_document-Concluded engine disk edits none edits-AreSpread edits_pass

removal_allowed : validate_paths engine.patterns (codes "a.txt" ∷ []) ≡ ok tt
unfolding validate_paths fnmatch starts_with
removal_allowed = refl

delete_file_keeps_example :
    apply_patch_document engine disk removal none ≡ (disk, ok ("a.txt" ∷ []))
delete_file_keeps_example =
    delete_file_keeps engine disk "a.txt" "a.txt" three_lines none refl removal_allowed refl refl
      refl

edits-AreClear : AreClear engine "c.txt" edits
edits-AreClear = (
  λ t i. is_some "a.txt" t i (λ t. IsClearOf engine t "c.txt") (refl, refl, refl),
  (λ t i. is_some "b.py" t i (λ t. IsClearOf engine t "c.txt") (refl, refl, refl), tt),
)

apply_patch_document-other_example :
    (apply_patch_document engine disk edits none).0 "c.txt" ≡ disk "c.txt"
apply_patch_document-other_example =
    apply_patch_document-other engine disk edits none "c.txt" edits-AreClear
