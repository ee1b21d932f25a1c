-- ===== src/Patch/Predict.antt =====
-- A document that passes the preflight check is applied as the check has simulated it
-- (patch/engine.py, `preflight_patch_document` and `apply_patch_document`).
use shadow_forge.Base.{
  ◌≡◌, refl, ◌⊎◌, String, true, List, [], ◌∷◌, Option, none, some, All, ap, ◌∙◌, lookup, Result, ok,
  err,
}
use shadow_forge.Text.{Text}
use shadow_forge.Disk.{Disk}
use shadow_forge.Patch.{PatchOperation, file_of}
use shadow_forge.Patch.Simulate.{Engine}
use shadow_forge.Patch.Preflight.{
  Simulation, fresh_simulation, preflight_ops, preflight_patch_document,
}
use shadow_forge.Patch.Apply.{
  ApplyError, syntax_error, parent_in_the_way, Applied, after_op, apply_at, apply_op, apply_ops,
  touched, apply_patch_document,
}
use shadow_forge.Patch.Agreement.{lines_at, written, Passed, Follows, Passed-Follows}
use shadow_forge.Patch.Frame.{op_other, AreClear, ops_other}
use shadow_forge.Patch.Passing.{AreApart, AreSpread, Ends, success_Ends}

-- The file at the target after the application, where the simulation ends with the given lines.
abbrev pub Holds : String → PatchOperation → Option (List Text) → Disk → Disk → Type 0
Holds target op (some lines) disk after = lines_at (after target) ≡ some (written op lines)
Holds target op none disk after = after target ≡ disk target

-- What the simulation ends with for the file of the operation is what the disk holds.
pub record Fulfils (engine : Engine) (disk : Disk) (final : Simulation) (after : Disk)
    (op : PatchOperation) : Type 0 where
  pub target : String
  pub inside : engine.layout.resolve_inside (file_of op) ≡ some target
  pub updated : Option (List Text)
  pub stored : lookup (file_of op) final.simulated_files ≡ some updated
  pub holds : Holds target op updated disk after

-- Either every operation is applied as it was simulated, or the application ends with a syntax error
-- or with a file in the way of a directory.
abbrev pub Outcome : Engine → Disk → Simulation → List PatchOperation → Applied → Type 0
Outcome engine disk final ops (after, none) = All (Fulfils engine disk final after) ops
Outcome engine disk final ops (after, some e) = (e ≡ syntax_error) ⊎ (e ≡ parent_in_the_way)

module _ (engine : Engine) (disk : Disk) (final : Simulation) where
  -- The files of the operations are as they were.
  abbrev Unchanged : Disk → List PatchOperation → Type 0
  Unchanged now ops =
      All (λ o. (u : String) → engine.layout.resolve_inside (file_of o) ≡ some u → now u ≡ disk u)
        ops

  abbrev Step : PatchOperation → String → Option (List Text) → Applied → Type 0
  Step op target updated (after, none) = Holds target op updated disk after
  Step op target updated (after, some e) = (e ≡ syntax_error) ⊎ (e ≡ parent_in_the_way)

  Follows-Step :
      (op : PatchOperation) (target : String) (updated : Option (List Text)) (now : Disk)
      (r : Applied)
      → now target ≡ disk target
      → Follows target op updated now r
      → Step op target updated r
  Follows-Step op target (some lines) now (after, none) u f = f
  Follows-Step op target (some lines) now (after, some e) u f = f
  Follows-Step op target none now (after, none) u f = ap (λ r. r.0 target) f ∙ u
  Follows-Step op target none now (after, some e) u f = cc

  op-Step :
      (op : PatchOperation) (now : Disk) (e : Ends engine disk final op)
      → now e.passed.target ≡ disk e.passed.target
      → Step op e.passed.target e.updated (apply_op engine op now)
  unfolding apply_op
  op-Step op now e u =
      let p = e.passed in
      let moved : Passed engine now op e.updated = record {
        target = p.target;
        inside = p.inside;
        current = p.current;
        seen = rw u p.seen;
        mutated = p.mutated;
        original = p.original;
        simulated = p.simulated;
      } in
      rw (p.inside, apply_op)
        (Follows-Step op p.target e.updated now (apply_at engine p.target op now) u
          (Passed-Follows moved))

  clear_of_rest :
      (op : PatchOperation) (target : String) (ops : List PatchOperation)
      → engine.layout.resolve_inside (file_of op) ≡ some target
      → All (AreApart engine op) ops
      → AreClear engine target ops
  clear_of_rest op target [] i a = tt
  clear_of_rest op target (o ∷ ops) i a =
      (λ u j. (a.0.1 target u i j).1, clear_of_rest op target ops i a.1)

  still-Unchanged :
      (op : PatchOperation) (target : String) (now : Disk) (ops : List PatchOperation)
      → engine.layout.resolve_inside (file_of op) ≡ some target
      → All (AreApart engine op) ops
      → Unchanged now ops
      → Unchanged (apply_op engine op now).0 ops
  still-Unchanged op target now [] i a u = tt
  still-Unchanged op target now (o ∷ ops) i a u = (
    λ v j. op_other engine v op now (λ t k. (a.0.1 t v k j).0) ∙ u.0 v j,
    still-Unchanged op target now ops i a.1 u.1,
  )

  kept :
      (op : PatchOperation) (target : String) (updated : Option (List Text)) (d after : Disk)
      → after target ≡ d target
      → Holds target op updated disk d
      → Holds target op updated disk after
  kept op target (some lines) d after u h = rw u h
  kept op target none d after u h = u ∙ h

  joined :
      (op : PatchOperation) (ops : List PatchOperation) (e : Ends engine disk final op) (d : Disk)
      (r : Applied)
      → Holds e.passed.target op e.updated disk d
      → r.0 e.passed.target ≡ d e.passed.target
      → Outcome engine disk final ops r
      → Outcome engine disk final (op ∷ ops) r
  joined op ops e d (after, some x) h u o = o
  joined op ops e d (after, none) h u o = (
    record {
      target = e.passed.target;
      inside = e.passed.inside;
      updated = e.updated;
      stored = e.stored;
      holds = kept op e.passed.target e.updated d after u h;
    },
    o,
  )

  continued :
      (op : PatchOperation) (ops : List PatchOperation) (e : Ends engine disk final op)
      (r : Applied)
      → Step op e.passed.target e.updated r
      → ((d : Disk) → (apply_ops engine ops d).0 e.passed.target ≡ d e.passed.target)
      → Outcome engine disk final ops (apply_ops engine ops r.0)
      → Outcome engine disk final (op ∷ ops) (after_op (apply_ops engine ops) r)
  continued op ops e (d, none) h k o = joined op ops e d (apply_ops engine ops d) h (k d) o
  continued op ops e (d, some x) h k o = h

  ops-Outcome :
      (ops : List PatchOperation) (now : Disk)
      → AreSpread engine ops
      → Unchanged now ops
      → All (Ends engine disk final) ops
      → Outcome engine disk final ops (apply_ops engine ops now)
  unfolding apply_ops
  ops-Outcome [] now s u e = tt
  ops-Outcome (op ∷ ops) now s u e =
      let target = e.0.passed.target in
      let inside = e.0.passed.inside in
      continued op ops e.0 (apply_op engine op now) (op-Step op now e.0 (u.0 target inside))
        (λ d. ops_other engine target ops d (clear_of_rest op target ops inside s.0))
        (ops-Outcome ops (apply_op engine op now).0 s.1
          (still-Unchanged op target now ops inside s.0 u.1) e.1)

-- How the application of a document ends that was simulated so.
abbrev pub Concluded :
    Engine
    → Disk
    → Simulation
    → List PatchOperation
    → Disk × Result ApplyError (List String)
    → Type 0
Concluded engine disk final ops (after, ok names) =
    All (Fulfils engine disk final after) ops × (names ≡ touched ops)
Concluded engine disk final ops (after, err e) = (e ≡ syntax_error) ⊎ (e ≡ parent_in_the_way)

conclude :
    (engine : Engine) (disk : Disk) (final : Simulation) (ops : List PatchOperation) (r : Applied)
    → Outcome engine disk final ops r
    → Concluded engine disk final ops (r.0, elim r.1 [ none ↦ ok (touched ops) | some e ↦ err e ])
conclude engine disk final ops (after, none) o = (o, refl)
conclude engine disk final ops (after, some e) o = o

-- If the operations of a document have files apart from one another and the preflight check reports
-- success, then the application ends in one of two ways. Either it succeeds, names the touched files,
-- and each file holds the lines with which the simulation ended (without one empty last line where
-- lines were joined again; a file whose deletion was simulated is as it was); or it raises a syntax
-- error, or meets a file where a directory has to be.
pub apply_patch_document-Concluded :
    (engine : Engine) (disk : Disk) (ops : List PatchOperation) (allowed : Option (List String))
    → AreSpread engine ops
    → (preflight_patch_document engine disk ops allowed).success ≡ true
    → Concluded engine disk
        (preflight_ops engine allowed disk 0 ops fresh_simulation)
        ops
        (apply_patch_document engine disk ops allowed)
unfolding apply_patch_document
apply_patch_document-Concluded engine disk ops allowed s h =
    let final = preflight_ops engine allowed disk 0 ops fresh_simulation in
    rw h (
      conclude engine disk final ops (apply_ops engine ops disk) (
        ops-Outcome engine disk final ops disk s (all_unchanged ops)
          (success_Ends engine disk ops allowed s h)))
  where
    all_unchanged :
        (l : List PatchOperation)
        → All
            (λ o.
              (u : String) → engine.layout.resolve_inside (file_of o) ≡ some u → disk u ≡ disk u)
            l
    all_unchanged [] = tt
    all_unchanged (o ∷ l) = (λ u i. refl, all_unchanged l)
