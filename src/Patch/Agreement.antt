-- ===== src/Patch/Agreement.antt =====
-- One operation of a line patch is applied as its preflight check has simulated it (patch/engine.py).
use mathlib.Core.Path.{subst}
use shadow_forge.Base.{
  ◌≡◌, refl, ◌⊎◌, String, Bool, List, Option, none, some, arith, Result, ok, err, eq_iff,
}
use shadow_forge.Text.{Text, splitlines}
use shadow_forge.Text.Lines.{without_last_empty, splitlines-join, splitlines-AreLines}
use shadow_forge.Disk.{Node, missing, directory, unreadable, file, Disk}
use shadow_forge.Patch.{
  RangeAnchor, PatchOperation, PatchFailureCode, range_invalid, replace_range, insert_after_symbol,
  create_file, delete_file, file_of,
}
use shadow_forge.Patch.Simulate.{Engine, has_py_suffix, simulate, simulate_range, simulate_insert}
use shadow_forge.Patch.Preflight.{loaded}
use shadow_forge.Patch.Apply.{
  syntax_error, parent_in_the_way, Applied, apply_at, apply_replace_range,
  apply_insert_after_symbol, apply_create_file, apply_delete_file,
}
use shadow_forge.Patch.Splice.{apply_range-simulate, apply_insert-simulate}

-- The lines of the file at a node.
abbrev pub lines_at : Node → Option (List Text)
lines_at (file t) = some (splitlines t)
lines_at _ = none

-- The lines that are read back after an operation whose simulation has the given lines.
abbrev pub written : PatchOperation → List Text → List Text
written (create_file name content) lines = lines
written _ lines = without_last_empty lines

-- A step of the application agrees with its simulation: it may only fail by a syntax error or by a
-- file in the way of a directory, and otherwise the target holds the simulated lines.
abbrev pub Agrees : String → PatchOperation → List Text → Applied → Type 0
Agrees target op lines (after, none) = lines_at (after target) ≡ some (written op lines)
Agrees target op lines (after, some e) = (e ≡ syntax_error) ⊎ (e ≡ parent_in_the_way)

replace_range-Agrees :
    (engine : Engine) (target name : String) (anchor : RangeAnchor) (content t : Text) (disk : Disk)
    (updated : List Text)
    → disk target ≡ file t
    → simulate_range anchor content (splitlines t) ≡ some updated
    → Agrees target
        (replace_range name anchor content)
        updated
        (apply_replace_range engine target name anchor content disk)
unfolding apply_replace_range
replace_range-Agrees engine target name anchor content t disk updated is e =
    let (same, are) =
      apply_range-simulate anchor content (splitlines t) updated e (splitlines-AreLines t) in
    ground (arith, same, splitlines-join updated are, eq_iff target target)

insert-Agrees :
    (is_py mutated : Bool) (original : Option (List Text)) (target name : String)
    (symbol content t : Text) (disk : Disk) (updated : List Text)
    → disk target ≡ file t
    → simulate_insert is_py mutated original symbol content (splitlines t) ≡ ok updated
    → Agrees target
        (insert_after_symbol name symbol content)
        updated
        (apply_insert_after_symbol target symbol content disk)
unfolding apply_insert_after_symbol
insert-Agrees is_py mutated original target name symbol content t disk updated is e =
    let (same, are) =
      apply_insert-simulate is_py mutated original symbol content (splitlines t) updated e
        (splitlines-AreLines t) in
    ground (arith, same, splitlines-join updated are, eq_iff target target)

create-Agrees :
    (engine : Engine) (target name : String) (content : Text) (disk : Disk)
    → disk target ≡ missing
    → Agrees target
        (create_file name content)
        (splitlines content)
        (apply_create_file engine target name content disk)
unfolding apply_create_file
create-Agrees engine target name content disk is = ground (arith, eq_iff target target)

file_left :
    (engine : Engine) (target : String) (t : Text) (disk : Disk)
    → disk target ≡ file t
    → apply_delete_file engine target disk ≡ (disk, none)
unfolding apply_delete_file
file_left engine target t disk is = rw (is, apply_delete_file)

-- What the simulation makes of one operation, on the lines that the disk holds.
pub record Passed (engine : Engine) (disk : Disk) (op : PatchOperation)
    (updated : Option (List Text)) : Type 0 where
  pub target : String
  pub inside : engine.layout.resolve_inside (file_of op) ≡ some target
  pub current : Option (List Text)
  pub seen : loaded (disk target) ≡ some current
  pub mutated : Bool
  pub original : Option (List Text)
  pub simulated : simulate (has_py_suffix target) mutated original op current ≡ ok updated

-- Where the operation makes a file, the application agrees; where it deletes one, the application
-- leaves the disk.
abbrev pub Follows : String → PatchOperation → Option (List Text) → Disk → Applied → Type 0
Follows target op (some lines) disk done = Agrees target op lines done
Follows target op none disk done = done ≡ (disk, none)

module _ (engine : Engine) (target : String) (disk : Disk) (is_py mutated : Bool)
    (original : Option (List Text)) where
  Follows-missing :
      (op : PatchOperation) (updated : Option (List Text))
      → disk target ≡ missing
      → simulate is_py mutated original op none ≡ ok updated
      → Follows target op updated disk (apply_at engine target op disk)
  unfolding simulate apply_at
  Follows-missing (create_file name content) updated is e =
      let same : some (splitlines content) ≡ updated = cc in
      subst
        (λ u.
          Follows target (create_file name content) u disk
            (apply_create_file engine target name content disk))
        same (create-Agrees engine target name content disk is)
  Follows-missing (replace_range name anchor content) updated is e = cc
  Follows-missing (insert_after_symbol name symbol content) updated is e = cc
  Follows-missing (delete_file name) updated is e = cc

  Follows-file :
      (op : PatchOperation) (t : Text) (updated : Option (List Text))
      → disk target ≡ file t
      → simulate is_py mutated original op (some (splitlines t)) ≡ ok updated
      → Follows target op updated disk (apply_at engine target op disk)
  unfolding simulate apply_at
  Follows-file (create_file name content) t updated is e = cc
  Follows-file (delete_file name) t updated is e =
      let same : none ≡ updated = cc in
      subst (λ u. Follows target (delete_file name) u disk (apply_delete_file engine target disk))
        same (file_left engine target t disk is)
  Follows-file (replace_range name anchor content) t updated is e =
      on_range (simulate_range anchor content (splitlines t)) refl e
    where
      on_range :
          (o : Option (List Text))
          → simulate_range anchor content (splitlines t) ≡ o
          → (elim o as (λ _. Result PatchFailureCode (Option (List Text))) [
            | none ↦ err range_invalid
            | some lines ↦ ok (some lines)
          ])
            ≡ ok updated
          → Follows target
              (replace_range name anchor content)
              updated
              disk
              (apply_replace_range engine target name anchor content disk)
      on_range none o e = cc
      on_range (some lines) o e =
          let same : some lines ≡ updated = cc in
          subst
            (λ u.
              Follows target (replace_range name anchor content) u disk
                (apply_replace_range engine target name anchor content disk))
            same (replace_range-Agrees engine target name anchor content t disk lines is o)
  Follows-file (insert_after_symbol name symbol content) t updated is e =
      on_insert (simulate_insert is_py mutated original symbol content (splitlines t)) refl e
    where
      on_insert :
          (o : Result PatchFailureCode (List Text))
          → simulate_insert is_py mutated original symbol content (splitlines t) ≡ o
          → (elim o as (λ _. Result PatchFailureCode (Option (List Text))) [
            | err code ↦ err code
            | ok lines ↦ ok (some lines)
          ])
            ≡ ok updated
          → Follows target
              (insert_after_symbol name symbol content)
              updated
              disk
              (apply_insert_after_symbol target symbol content disk)
      on_insert (err code) o e = cc
      on_insert (ok lines) o e =
          let same : some lines ≡ updated = cc in
          subst
            (λ u.
              Follows target (insert_after_symbol name symbol content) u disk
                (apply_insert_after_symbol target symbol content disk))
            same (insert-Agrees is_py mutated original target name symbol content t disk lines is o)

  Follows-node :
      (op : PatchOperation) (node : Node) (current updated : Option (List Text))
      → disk target ≡ node
      → loaded node ≡ some current
      → simulate is_py mutated original op current ≡ ok updated
      → Follows target op updated disk (apply_at engine target op disk)
  unfolding loaded
  Follows-node op directory current updated is l e = cc
  Follows-node op unreadable current updated is l e = cc
  Follows-node op missing current updated is l e =
      Follows-missing op updated is
        (subst (λ c. simulate is_py mutated original op c ≡ ok updated) (cc) e)
  Follows-node op (file t) current updated is l e =
      Follows-file op t updated is
        (subst (λ c. simulate is_py mutated original op c ≡ ok updated) (cc) e)

-- An operation that passes is applied as it was simulated.
pub Passed-Follows :
    {engine : Engine} {disk : Disk} {op : PatchOperation} {updated : Option (List Text)}
    (p : Passed engine disk op updated)
    → Follows p.target op updated disk (apply_at engine p.target op disk)
Passed-Follows {engine} {disk} {op} {updated} p =
    Follows-node engine p.target disk (has_py_suffix p.target) p.mutated p.original op
      (disk p.target) p.current updated refl p.seen p.simulated
