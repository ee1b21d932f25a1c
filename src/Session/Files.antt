-- ===== src/Session/Files.antt =====
-- What the loops over the touched files make of a tree.
use shadow_forge.Base.{
  ◌≡◌, refl, String, Bool, not, ◌&&◌, List, [], ◌∷◌, Option, none, some, arith, if◌then◌else◌, any,
  has_name, str_eq, eq_iff,
}
use shadow_forge.Text.{Text}
use shadow_forge.Session.{
  Files, Workspace, copy_file, prepare_lightweight, seed, promote_files, restore, restore_files,
}

-- `else_file` where there is none.
abbrev pub or_file : Option Text → Option Text → Option Text
or_file none else_file = else_file
or_file (some content) else_file = some content

module _ (W : Workspace) where
  -- The path is that of one of the names.
  abbrev pub is_placed : String → List String → Bool
  is_placed p rels = any (λ rel. str_eq (W.place rel) p) rels

  pub copy_file_at :
      (source : Files) (rel : String) (target : Files) (p : String)
      → copy_file W source rel target p
        ≡ (if str_eq (W.place rel) p then or_file (source p) (target p) else target p)
  unfolding copy_file
  copy_file_at source rel target p = ground (arith, eq_iff (W.place rel) p)

  pub restore_at :
      (real : Files) (rel : String) (shadow : Files) (p : String)
      → restore W real rel shadow p ≡ (if str_eq (W.place rel) p then real p else shadow p)
  unfolding restore
  restore_at real rel shadow p = ground (arith, eq_iff (W.place rel) p)

  or_file_twice : (o q : Option Text) → or_file o (or_file o q) ≡ or_file o q
  or_file_twice none q = refl
  or_file_twice (some content) q = refl

  pub prepare_lightweight_at :
      (real : Files) (rels : List String) (shadow : Files) (p : String)
      → prepare_lightweight W real rels shadow p
        ≡ (if is_placed p rels then or_file (real p) (shadow p) else shadow p)
  unfolding prepare_lightweight
  prepare_lightweight_at real [] shadow p = refl
  prepare_lightweight_at real (rel ∷ rels) shadow p = ground (
    arith,
    prepare_lightweight_at real rels (copy_file W real rel shadow) p,
    copy_file_at real rel shadow p,
    or_file_twice (real p) (shadow p),
  )

  pub promote_files_at :
      (shadow : Files) (rels : List String) (real : Files) (p : String)
      → promote_files W shadow rels real p
        ≡ (if is_placed p rels then or_file (shadow p) (real p) else real p)
  unfolding promote_files
  promote_files_at shadow [] real p = refl
  promote_files_at shadow (rel ∷ rels) real p = ground (
    arith,
    promote_files_at shadow rels (copy_file W shadow rel real) p,
    copy_file_at shadow rel real p,
    or_file_twice (shadow p) (real p),
  )

  pub restore_files_at :
      (real : Files) (rels : List String) (shadow : Files) (p : String)
      → restore_files W real rels shadow p ≡ (if is_placed p rels then real p else shadow p)
  unfolding restore_files
  restore_files_at real [] shadow p = refl
  restore_files_at real (rel ∷ rels) shadow p = ground (
    arith,
    restore_files_at real rels (restore W real rel shadow) p,
    restore_at real rel shadow p,
  )

  -- The path is that of a name which the shadow has not held.
  abbrev pub is_new_at : String → List String → List String → Bool
  is_new_at p ever rels = any (λ rel. not (has_name rel ever) && str_eq (W.place rel) p) rels

  pub seed_at :
      (real : Files) (ever rels : List String) (shadow : Files) (p : String)
      → seed W real ever rels shadow p
        ≡ (if is_new_at p ever rels then or_file (real p) (shadow p) else shadow p)
  unfolding seed
  seed_at real ever [] shadow p = refl
  seed_at real ever (rel ∷ rels) shadow p = ground (
    arith,
    seed_at real ever rels (copy_file W real rel shadow) p,
    seed_at real ever rels shadow p,
    copy_file_at real rel shadow p,
    or_file_twice (real p) (shadow p),
  )
