-- ===== src/Candidate/Preflight.antt =====
-- `preflight_patch_candidate` of patch/engine.py: the loop, and the final syntax check.
use shadow_forge.Base.{
  ℕ, ◌+◌, String, Bool, true, not, ◌||◌, List, [], ◌∷◌, ◌++◌, Option, none, some, if◌then◌else◌,
  map, Result, ok, err, has_name, lookup, insert,
}
use shadow_forge.Text.{Text, codes, read_text}
use shadow_forge.Policy.{validate_paths}
use shadow_forge.Disk.{Node, missing, directory, unreadable, file, Disk}
use shadow_forge.Patch.{
  PatchFailureCode, scope_violation, file_missing, path_escape, policy_violation, apply_error,
  PatchPreflightIssue, PatchPreflightReport,
}
use shadow_forge.Patch.Simulate.{Engine}
use shadow_forge.Patch.Preflight.{out_of_scope, no_issues, refused}
use shadow_forge.Patch.Apply.{insert_name, is_python}
use shadow_forge.Candidate.{PatchOperationV2, replace_node, insert_after_node, file_of, Parsers}
use shadow_forge.Candidate.Simulate.{simulate}

-- The variables of the loop.
pub record Simulation : Type 0 where
  pub simulated_sources : List (String × Option Text)
  pub original_sources : List (String × Option Text)
  pub mutated_files : List String
  pub issues : List PatchPreflightIssue

abbrev pub fresh_simulation : Simulation
fresh_simulation = record {
  simulated_sources = [];
  original_sources = [];
  mutated_files = [];
  issues = [];
}

abbrev pub add_issue : Option ℕ → String → PatchFailureCode → Simulation → Simulation
add_issue index name code sim = record sim {
  issues = sim.issues ++ record { op_index = index; code = code; name = some name } ∷ [];
}

-- What is read at the first mention of a file.
unfoldable pub loaded : Node → Option (Option Text)
unfolding read_text
loaded missing = some none
loaded directory = none
loaded unreadable = none
loaded (file t) = some (some (read_text t))

unfoldable pub with_source : Node → String → Simulation → Option Simulation
unfolding loaded
with_source node name sim = elim (lookup name sim.simulated_sources) [
  | some current ↦ some sim
  | none ↦ elim (loaded node) [
    | none ↦ none
    | some current ↦ some (record sim {
      simulated_sources = insert name current sim.simulated_sources;
      original_sources = insert name current sim.original_sources;
    })
  ]
]

abbrev pub flat : Option (Option Text) → Option Text
flat none = none
flat (some current) = current

unfoldable pub simulated_as :
    Parsers → PatchOperationV2 → Simulation → Result PatchFailureCode (Option Text)
unfolding simulate
simulated_as parsers op sim =
    let name = file_of op in
    simulate parsers (has_name name sim.mutated_files) (flat (lookup name sim.original_sources)) op
      (flat (lookup name sim.simulated_sources))

abbrev pub finished :
    ℕ → PatchOperationV2 → Simulation → Result PatchFailureCode (Option Text) → Simulation
finished index op sim (err code) = add_issue (some index) (file_of op) code sim
finished index op sim (ok updated) = record sim {
  simulated_sources = insert (file_of op) updated sim.simulated_sources;
  mutated_files = insert_name (file_of op) sim.mutated_files;
}

unfoldable pub simulate_step : Parsers → ℕ → PatchOperationV2 → Simulation → Simulation
unfolding simulated_as
simulate_step parsers index op sim = finished index op sim (simulated_as parsers op sim)

-- One round of the loop.
unfoldable pub preflight_op :
    Engine → Parsers → Option (List String) → Disk → ℕ → PatchOperationV2 → Simulation → Simulation
preflight_op engine parsers allowed disk index op sim =
    let name = file_of op in
    if out_of_scope allowed name
    then add_issue (some index) name scope_violation sim
    else elim (engine.layout.resolve_inside name) [
      | none ↦ add_issue (some index) name path_escape sim
      | some target ↦ elim (with_source (disk target) name sim) [
        | none ↦ add_issue (some index) name apply_error sim
        | some sim' ↦ simulate_step parsers index op sim'
      ]
    ]

unfoldable pub preflight_ops :
    Engine
    → Parsers
    → Option (List String)
    → Disk
    → ℕ
    → List PatchOperationV2
    → Simulation
    → Simulation
preflight_ops engine parsers allowed disk index [] sim = sim
preflight_ops engine parsers allowed disk index (op ∷ ops) sim =
    preflight_ops engine parsers allowed disk (index + 1) ops
      (preflight_op engine parsers allowed disk index op sim)

-- The files of node operations, which the final check skips.
unfoldable pub node_op_files : List PatchOperationV2 → List String
node_op_files [] = []
node_op_files (replace_node name language selector content ∷ ops) = name ∷ node_op_files ops
node_op_files (insert_after_node name language selector content ∷ ops) = name ∷ node_op_files ops
node_op_files (op ∷ ops) = node_op_files ops

abbrev pub checked : Engine → String → Option (Option Text) → Bool
checked engine name (some (some content)) = not (is_python name) || engine.syntax_ok content
checked engine name _ = true

-- The final check of the changed files, whose names are kept sorted.
unfoldable pub check_files : Engine → List String → List String → Simulation → Simulation
check_files engine skipped [] sim = sim
check_files engine skipped (name ∷ names) sim = check_files engine skipped names (
    if has_name name skipped || checked engine name (lookup name sim.simulated_sources)
    then sim
    else add_issue none name apply_error sim)

unfoldable pub simulated :
    Engine → Parsers → Disk → List PatchOperationV2 → Option (List String) → Simulation
simulated engine parsers disk ops allowed =
    preflight_ops engine parsers allowed disk 0 ops fresh_simulation

unfoldable pub preflight_patch_candidate :
    Engine → Parsers → Disk → List PatchOperationV2 → Option (List String) → PatchPreflightReport
unfolding simulated check_files node_op_files
preflight_patch_candidate engine parsers disk ops allowed =
    if not engine.base_is_dir
    then refused file_missing
    else elim (validate_paths engine.patterns (map (λ op. codes (file_of op)) ops)) [
      | err e ↦ refused policy_violation
      | ok u ↦
          let sim = simulated engine parsers disk ops allowed in
          let found = (check_files engine (node_op_files ops) sim.mutated_files sim).issues in
          record { success = no_issues found; issues = found }
    ]
