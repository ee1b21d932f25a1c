-- ===== src/Patch/Passing.antt =====
-- The operations of a document with no issues have passed the rounds of the preflight check
-- (patch/engine.py, `preflight_patch_document`).
use shadow_forge.Base.{
  ℕ, ◌+◌, ◌≡◌, refl, String, true, false, List, [], ◌∷◌, Option, none, some, arith, All, ◌∙◌,
  str_eq, eq_iff, lookup,
}
use shadow_forge.Text.{Text}
use shadow_forge.Disk.{Disk}
use shadow_forge.Patch.{PatchOperation, file_of}
use shadow_forge.Patch.Simulate.{Engine}
use shadow_forge.Patch.Preflight.{
  Simulation, fresh_simulation, preflight_op, preflight_ops, preflight_patch_document,
}
use shadow_forge.Patch.Agreement.{Passed}
use shadow_forge.Patch.Rounds.{issues_kept, others_kept, round_passed}
use shadow_forge.Patch.Frame.{IsClearOf}

-- The files of two operations have different names, and neither path is the other, a directory on
-- the way to it, or below it.
abbrev pub AreApart : Engine → PatchOperation → PatchOperation → Type 0
AreApart engine op other =
    (str_eq (file_of op) (file_of other) ≡ false)
    × ((t u : String)
        → engine.layout.resolve_inside (file_of op) ≡ some t
        → engine.layout.resolve_inside (file_of other) ≡ some u
        → IsClearOf engine t u × IsClearOf engine u t)

-- Any two operations are apart.
abbrev pub AreSpread : Engine → List PatchOperation → Type 0
AreSpread engine [] = Unit
AreSpread engine (op ∷ ops) = All (AreApart engine op) ops × AreSpread engine ops

str_ne_sym : (s t : String) → str_eq s t ≡ false → str_eq t s ≡ false
str_ne_sym s t h = ground (arith, eq_iff s t, eq_iff t s)

-- The operation has passed, and the simulation ends with what it made of the file.
pub record Ends (engine : Engine) (disk : Disk) (final : Simulation) (op : PatchOperation)
    : Type 0 where
  pub updated : Option (List Text)
  pub passed : Passed engine disk op updated
  pub stored : lookup (file_of op) final.simulated_files ≡ some updated

module _ (engine : Engine) (allowed : Option (List String)) (disk : Disk) where
  abbrev run : ℕ → List PatchOperation → Simulation → Simulation
  run index ops sim = preflight_ops engine allowed disk index ops sim

  run_issues :
      (ops : List PatchOperation) (index : ℕ) (sim : Simulation)
      → (run index ops sim).issues ≡ []
      → sim.issues ≡ []
  unfolding preflight_ops
  run_issues [] index sim h = h
  run_issues (op ∷ ops) index sim h =
      issues_kept engine allowed disk index op sim (run_issues ops (index + 1) _ h)

  run_others :
      (ops : List PatchOperation) (index : ℕ) (sim : Simulation) (j : String)
      → All (λ o. str_eq (file_of o) j ≡ false) ops
      → lookup j (run index ops sim).simulated_files ≡ lookup j sim.simulated_files
  unfolding preflight_ops
  run_others [] index sim j h = refl
  run_others (op ∷ ops) index sim j h =
      run_others ops (index + 1) _ j h.1 ∙ others_kept engine allowed disk index op sim j h.0

  abbrev AreNew : Simulation → List PatchOperation → Type 0
  AreNew sim ops = All (λ o. lookup (file_of o) sim.simulated_files ≡ none) ops

  still_new :
      (op : PatchOperation) (index : ℕ) (sim : Simulation) (ops : List PatchOperation)
      → All (AreApart engine op) ops
      → AreNew sim ops
      → AreNew (preflight_op engine allowed disk index op sim) ops
  still_new op index sim [] a n = tt
  still_new op index sim (o ∷ ops) a n = (
    others_kept engine allowed disk index op sim (file_of o) a.0.0 ∙ n.0,
    still_new op index sim ops a.1 n.1,
  )

  names_differ :
      (op : PatchOperation) (ops : List PatchOperation)
      → All (AreApart engine op) ops
      → All (λ o. str_eq (file_of o) (file_of op) ≡ false) ops
  names_differ op [] a = tt
  names_differ op (o ∷ ops) a = (str_ne_sym (file_of op) (file_of o) a.0.0, names_differ op ops a.1)

  run-Ends :
      (ops : List PatchOperation) (index : ℕ) (sim : Simulation)
      → AreSpread engine ops
      → AreNew sim ops
      → (run index ops sim).issues ≡ []
      → All (Ends engine disk (run index ops sim)) ops
  unfolding preflight_ops
  run-Ends [] index sim s n h = tt
  run-Ends (op ∷ ops) index sim s n h =
      let next = preflight_op engine allowed disk index op sim in
      let (updated, passed, stored, scope) =
        round_passed engine allowed disk index op sim n.0 (run_issues ops (index + 1) next h) in
      (
        record {
          updated = updated;
          passed = passed;
          stored = run_others ops (index + 1) next (file_of op) (names_differ op ops s.0) ∙ stored;
        },
        run-Ends ops (index + 1) next s.1 (still_new op index sim ops s.0 n.1) h,
      )

-- What the report says of its issues.
success_issues :
    (engine : Engine) (disk : Disk) (ops : List PatchOperation) (allowed : Option (List String))
    → (preflight_patch_document engine disk ops allowed).success ≡ true
    → (preflight_ops engine allowed disk 0 ops fresh_simulation).issues ≡ []
unfolding preflight_patch_document
success_issues engine disk ops allowed h = ground arith

pub success_Ends :
    (engine : Engine) (disk : Disk) (ops : List PatchOperation) (allowed : Option (List String))
    → AreSpread engine ops
    → (preflight_patch_document engine disk ops allowed).success ≡ true
    → All (Ends engine disk (preflight_ops engine allowed disk 0 ops fresh_simulation)) ops
success_Ends engine disk ops allowed s h =
    run-Ends engine allowed disk ops 0 fresh_simulation s (all_new ops)
      (success_issues engine disk ops allowed h)
  where
    all_new :
        (l : List PatchOperation)
        → All (λ o. lookup (file_of o) fresh_simulation.simulated_files ≡ none) l
    all_new [] = tt
    all_new (o ∷ l) = (unfold lookup in refl, all_new l)
