-- ===== src/Patch/Delete.antt =====
-- What a `delete_file` operation does (patch/engine.py, `_apply_delete_file`).
use shadow_forge.Base.{
  ◌≡◌, String, true, false, List, [], ◌∷◌, Option, none, some, arith, ok, lookup, insert, eq_iff,
}
use shadow_forge.Text.{Text, codes}
use shadow_forge.Policy.{validate_paths}
use shadow_forge.Disk.{file, Disk}
use shadow_forge.Patch.{delete_file}
use shadow_forge.Patch.Simulate.{Engine}
use shadow_forge.Patch.Preflight.{
  preflight_op, preflight_ops, preflight_patch_document, out_of_scope, simulate_step, with_file,
  fresh_simulation,
}
use shadow_forge.Patch.Apply.{
  apply_at, apply_op, apply_ops, apply_patch_document, touched, insert_name,
}

module _ (engine : Engine) (disk : Disk) (name target : String) (t : Text) where
  preflight_delete :
      (allowed : Option (List String))
      → out_of_scope allowed name ≡ false
      → engine.layout.resolve_inside name ≡ some target
      → disk target ≡ file t
      → (preflight_ops engine allowed disk 0 (delete_file name ∷ []) fresh_simulation).issues ≡ []
  unfolding preflight_ops preflight_op with_file simulate_step lookup insert
  preflight_delete allowed scope inside is = ground (arith, eq_iff name name)

  apply_delete :
      engine.layout.resolve_inside name ≡ some target
      → disk target ≡ file t
      → apply_ops engine (delete_file name ∷ []) disk ≡ (disk, none)
  unfolding apply_ops apply_op apply_at
  apply_delete inside is = ground arith

-- A patch that deletes one regular file inside the workspace, in scope and not forbidden, passes the
-- preflight check, is applied with no exception and reports the file as touched; and the disk is
-- exactly as it was: the file is still there.
pub delete_file_keeps :
    (engine : Engine) (disk : Disk) (name target : String) (t : Text)
    (allowed : Option (List String))
    → engine.base_is_dir ≡ true
    → validate_paths engine.patterns (codes name ∷ []) ≡ ok tt
    → out_of_scope allowed name ≡ false
    → engine.layout.resolve_inside name ≡ some target
    → disk target ≡ file t
    → apply_patch_document engine disk (delete_file name ∷ []) allowed ≡ (disk, ok (name ∷ []))
unfolding apply_patch_document preflight_patch_document touched insert_name
delete_file_keeps engine disk name target t allowed base policy scope inside is = ground (
  arith,
  preflight_delete engine disk name target t allowed scope inside is,
  apply_delete engine disk name target t inside is,
)
