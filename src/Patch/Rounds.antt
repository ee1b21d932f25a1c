-- ===== src/Patch/Rounds.antt =====
-- The rounds of the loop of `preflight_patch_document` (patch/engine.py): what they keep, and what it
-- says of an operation that it leaves no issue.
use mathlib.Core.Path.{subst}
use text.Mathlib.TextPositions.{eq_refl}
use shadow_forge.Base.{
  ℕ, ◌≡◌, refl, ◌≢◌, inl, inr, String, false, List, [], ◌∷◌, ◌++◌, Option, none, some, Result, ok,
  err, Bool-cases, Option-cases, ap, ◌∙◌, sym, str_eq, lookup, insert, lookup-insert, has_name,
}
use shadow_forge.Text.{Text}
use shadow_forge.Disk.{Node, Disk}
use shadow_forge.Patch.{
  PatchOperation, file_of, PatchFailureCode, scope_violation, path_escape, apply_error,
}
use shadow_forge.Patch.Simulate.{Engine, has_py_suffix, simulate}
use shadow_forge.Patch.Preflight.{
  Simulation, add_issue, loaded, with_file, flat, simulated_as, finished, simulate_step,
  out_of_scope, preflight_op,
}
use shadow_forge.Patch.Agreement.{Passed}

not_empty : {A : Type 0} (xs : List A) (x : A) → xs ++ x ∷ [] ≢ []
not_empty [] x h = cc
not_empty (y ∷ ys) x h = cc

-- What the steps of the simulation do with the issues and with the other files.
step-issues :
    (index : ℕ) (target : String) (op : PatchOperation) (sim : Simulation)
    → (simulate_step index target op sim).issues ≡ []
    → sim.issues ≡ []
unfolding simulate_step
step-issues index target op sim h = on (simulated_as target op sim) h
  where
    on :
        (r : Result PatchFailureCode (Option (List Text)))
        → (finished index op sim r).issues ≡ []
        → sim.issues ≡ []
    on (err code) h = absurd (not_empty sim.issues _ h)
    on (ok updated) h = h

step-others :
    (index : ℕ) (target : String) (op : PatchOperation) (sim : Simulation) (j : String)
    → str_eq (file_of op) j ≡ false
    → lookup j (simulate_step index target op sim).simulated_files ≡ lookup j sim.simulated_files
unfolding simulate_step
step-others index target op sim j h = on (simulated_as target op sim)
  where
    on :
        (r : Result PatchFailureCode (Option (List Text)))
        → lookup j (finished index op sim r).simulated_files ≡ lookup j sim.simulated_files
    on (err code) = refl
    on (ok updated) = rw (lookup-insert, h)

step_passed :
    (index : ℕ) (target : String) (op : PatchOperation) (sim : Simulation)
    → (simulate_step index target op sim).issues ≡ []
    → (updated : Option (List Text)) × (simulate
          (has_py_suffix target)
          (has_name (file_of op) sim.mutated_files)
          (flat (lookup (file_of op) sim.original_files))
          op
          (flat (lookup (file_of op) sim.simulated_files))
        ≡ ok updated)
      × (lookup (file_of op) (simulate_step index target op sim).simulated_files ≡ some updated)
unfolding simulate_step
step_passed index target op sim h = on (simulated_as target op sim) refl h
  where
    on :
        (r : Result PatchFailureCode (Option (List Text)))
        → simulated_as target op sim ≡ r
        → (finished index op sim r).issues ≡ []
        → (updated : Option (List Text)) × (simulated_as target op sim ≡ ok updated)
          × (lookup (file_of op) (finished index op sim r).simulated_files ≡ some updated)
    on (err code) e h = absurd (not_empty sim.issues _ h)
    on (ok updated) e h = (updated, e, rw (lookup-insert, eq_refl))

-- What the loading of a file does.
record Loading (node : Node) (name : String) (sim loading : Simulation) : Type 0 where
  issues : loading.issues ≡ sim.issues
  others :
      (j : String)
      → str_eq name j ≡ false
      → lookup j loading.simulated_files ≡ lookup j sim.simulated_files
  first :
      lookup name sim.simulated_files ≡ none
      → (current : Option (List Text)) × (loaded node ≡ some current)
        × (lookup name loading.simulated_files ≡ some current)

with_file-Loading :
    (node : Node) (name : String) (sim loading : Simulation)
    → with_file node name sim ≡ some loading
    → Loading node name sim loading
unfolding with_file
with_file-Loading node name sim loading h =
    on (lookup name sim.simulated_files) (loaded node) refl refl h
  where
    read : Option (List Text) → Simulation
    read current = record sim {
      simulated_files = insert name current sim.simulated_files;
      original_files = insert name current sim.original_files;
    }

    on :
        (known node_lines : Option (Option (List Text)))
        → lookup name sim.simulated_files ≡ known
        → loaded node ≡ node_lines
        → (elim known as (λ _. Option Simulation) [
          | some current ↦ some sim
          | none ↦ elim node_lines as (λ _. Option Simulation) [
            | none ↦ none
            | some current ↦ some (read current)
          ]
        ])
          ≡ some loading
        → Loading node name sim loading
    on (some current) node_lines k l h =
        let same : sim ≡ loading = cc in
        subst (Loading node name sim) same
          (record { issues = refl; others = λ j n. refl; first = λ n. cc })
    on none none k l h = cc
    on none (some current) k l h =
        let same : read current ≡ loading = cc in
        subst (Loading node name sim) same (record {
          issues = refl;
          others = λ j n. rw (lookup-insert, n);
          first = λ n. (current, l, rw (lookup-insert, eq_refl));
        })

-- The three ways through a round of the loop.
data Round (engine : Engine) (allowed : Option (List String)) (disk : Disk) (index : ℕ)
    (op : PatchOperation) (sim : Simulation) : Type 0 where
  refused_with :
      (code : PatchFailureCode)
      → preflight_op engine allowed disk index op sim ≡ add_issue index (file_of op) code sim
      → Round engine allowed disk index op sim
  tried :
      (target : String) (loading : Simulation)
      → out_of_scope allowed (file_of op) ≡ false
      → engine.layout.resolve_inside (file_of op) ≡ some target
      → Loading (disk target) (file_of op) sim loading
      → preflight_op engine allowed disk index op sim ≡ simulate_step index target op loading
      → Round engine allowed disk index op sim

module _ (engine : Engine) (allowed : Option (List String)) (disk : Disk) (index : ℕ)
    (op : PatchOperation) (sim : Simulation) where
  round : Round engine allowed disk index op sim
  unfolding preflight_op
  round = elim (Bool-cases (out_of_scope allowed (file_of op))) [
    | inl out ↦ refused_with scope_violation (rw out)
    | inr ok' ↦ elim (Option-cases (engine.layout.resolve_inside (file_of op))) [
      | inl escapes ↦ refused_with path_escape (rw (ok', escapes))
      | inr (target, inside) ↦ elim (Option-cases (with_file (disk target) (file_of op) sim)) [
        | inl unread ↦ refused_with apply_error (rw (ok', inside, unread))
        | inr (loading, read) ↦
            tried target loading ok' inside
              (with_file-Loading (disk target) (file_of op) sim loading read)
              (rw (ok', inside, read))
      ]
    ]
  ]

  -- Issues are never taken back.
  pub issues_kept : (preflight_op engine allowed disk index op sim).issues ≡ [] → sim.issues ≡ []
  issues_kept h = elim round [
    | refused_with code e ↦ absurd (not_empty sim.issues _ (ap (λ s. s.issues) (sym e) ∙ h))
    | tried target loading scope inside l e ↦
        sym l.issues ∙ step-issues index target op loading (ap (λ s. s.issues) (sym e) ∙ h)
  ]

  -- What is simulated of the other files stays.
  pub others_kept :
      (j : String)
      → str_eq (file_of op) j ≡ false
      → lookup j (preflight_op engine allowed disk index op sim).simulated_files
        ≡ lookup j sim.simulated_files
  others_kept j n = elim round [
    | refused_with code e ↦ ap (λ s. lookup j s.simulated_files) e
    | tried target loading scope inside l e ↦
        ap (λ s. lookup j s.simulated_files) e
        ∙ step-others index target op loading j n
        ∙ l.others j n
  ]

  -- An operation on a file that was not mentioned before, and that leaves no issue, has passed.
  pub round_passed :
      lookup (file_of op) sim.simulated_files ≡ none
      → (preflight_op engine allowed disk index op sim).issues ≡ []
      → (updated : Option (List Text)) × Passed engine disk op updated
        × (lookup (file_of op) (preflight_op engine allowed disk index op sim).simulated_files
            ≡ some updated)
        × (out_of_scope allowed (file_of op) ≡ false)
  round_passed fresh h = elim round [
    | refused_with code e ↦ absurd (not_empty sim.issues _ (ap (λ s. s.issues) (sym e) ∙ h))
    | tried target loading scope inside l e ↦
        let (current, seen, known) = l.first fresh in
        let (updated, result, stored) =
          step_passed index target op loading (ap (λ s. s.issues) (sym e) ∙ h) in
        (
          updated,
          record {
            target = target;
            inside = inside;
            current = current;
            seen = seen;
            mutated = has_name (file_of op) loading.mutated_files;
            original = flat (lookup (file_of op) loading.original_files);
            simulated = rw known at result;
          },
          ap (λ s. lookup (file_of op) s.simulated_files) e ∙ stored,
          scope,
        )
  ]
