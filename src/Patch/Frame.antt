-- ===== src/Patch/Frame.antt =====
-- What a line patch leaves alone (patch/engine.py, `apply_patch_document`).
use shadow_forge.Base.{
  ◌≡◌, refl, ◌∙◌, String, false, List, [], ◌∷◌, Option, none, some, arith, All, Bool-cases,
  Option-cases, inl, inr, str_eq, has_name,
}
use shadow_forge.Disk.{Disk, mkdir, mkdir_other}
use shadow_forge.Patch.{
  PatchOperation, replace_range, insert_after_symbol, create_file, delete_file, file_of,
}
use shadow_forge.Patch.Simulate.{Engine}
use shadow_forge.Patch.Preflight.{preflight_patch_document}
use shadow_forge.Patch.Apply.{
  Applied, after_op, apply_create_file, apply_at, apply_op, apply_ops, apply_patch_document,
}

-- A path that is not the target, no directory on the way to it, and not below it.
abbrev pub IsClearOf : Engine → String → String → Type 0
IsClearOf engine target p =
    (str_eq target p ≡ false)
    × (has_name p (engine.layout.parents target) ≡ false)
    × (engine.layout.at_or_below p target ≡ false)

module _ (engine : Engine) (p : String) where
  at_other :
      (op : PatchOperation) (target : String) (disk : Disk)
      → IsClearOf engine target p
      → (apply_at engine target op disk).0 p ≡ disk p
  unfolding apply_at
  at_other (replace_range name anchor content) target disk c = ground arith
  at_other (insert_after_symbol name symbol content) target disk c = ground arith
  at_other (create_file name content) target disk c =
      create_other (mkdir (engine.layout.parents target) disk) refl
    where
      create_other :
          (o : Option Disk)
          → mkdir (engine.layout.parents target) disk ≡ o
          → (apply_create_file engine target name content disk).0 p ≡ disk p
      create_other none e = ground arith
      create_other (some made) e =
          ground (arith, mkdir_other (engine.layout.parents target) disk made p)
  at_other (delete_file name) target disk c = ground arith

  pub op_other :
      (op : PatchOperation) (disk : Disk)
      → ((target : String)
          → engine.layout.resolve_inside (file_of op) ≡ some target
          → IsClearOf engine target p)
      → (apply_op engine op disk).0 p ≡ disk p
  unfolding apply_op
  op_other op disk c = elim (Option-cases (engine.layout.resolve_inside (file_of op))) [
    | inl e ↦ rw (e, apply_op)
    | inr (target, e) ↦ rw (e, apply_op) (at_other op target disk (c target e))
  ]

  -- No operation names a path that is not clear of `p`.
  abbrev pub AreClear : List PatchOperation → Type 0
  AreClear ops =
      All
        (λ op.
          (target : String)
          → engine.layout.resolve_inside (file_of op) ≡ some target
          → IsClearOf engine target p)
        ops

  rest_other :
      (rest : Disk → Applied) (done : Applied)
      → ((d : Disk) → (rest d).0 p ≡ d p)
      → (after_op rest done).0 p ≡ done.0 p
  rest_other rest (d, none) k = k d
  rest_other rest (d, some e) k = refl

  pub ops_other :
      (ops : List PatchOperation) (disk : Disk)
      → AreClear ops
      → (apply_ops engine ops disk).0 p ≡ disk p
  unfolding apply_ops
  ops_other [] disk c = refl
  ops_other (op ∷ ops) disk c =
      rest_other (apply_ops engine ops) (apply_op engine op disk) (λ d. ops_other ops d c.1)
      ∙ op_other op disk c.0

-- A line patch, applied or refused, leaves every path as it was that is no target of an operation, no
-- directory on the way to one, and not below one.
pub apply_patch_document-other :
    (engine : Engine) (disk : Disk) (ops : List PatchOperation) (allowed : Option (List String))
    (p : String)
    → AreClear engine p ops
    → (apply_patch_document engine disk ops allowed).0 p ≡ disk p
unfolding apply_patch_document
apply_patch_document-other engine disk ops allowed p c =
    elim (Bool-cases (preflight_patch_document engine disk ops allowed).success) [
      | inl e ↦ rw e (ops_other engine p ops disk c)
      | inr e ↦ rw e
    ]
