-- ===== src/Patch/Preflight.antt =====
-- The loop of `preflight_patch_document` of patch/engine.py.
use shadow_forge.Base.{
  Result, ℕ, ◌+◌, String, Bool, true, false, not, List, [], ◌∷◌, ◌++◌, Option, none, some,
  if◌then◌else◌, map, ok, err, has_name, lookup, insert,
}
use shadow_forge.Text.{Text, codes, splitlines}
use shadow_forge.Policy.{validate_paths}
use shadow_forge.Disk.{Node, missing, directory, unreadable, file, Disk}
use shadow_forge.Patch.{
  PatchOperation, file_of, PatchFailureCode, scope_violation, file_missing, path_escape,
  policy_violation, apply_error, PatchPreflightIssue, PatchPreflightReport,
}
use shadow_forge.Patch.Simulate.{Engine, has_py_suffix, simulate}

-- The variables of the loop of `preflight_patch_document`.
pub record Simulation : Type 0 where
  pub simulated_files : List (String × Option (List Text))
  pub original_files : List (String × Option (List Text))
  pub mutated_files : List String
  pub issues : List PatchPreflightIssue

abbrev pub fresh_simulation : Simulation
fresh_simulation = record {
  simulated_files = [];
  original_files = [];
  mutated_files = [];
  issues = [];
}

abbrev pub add_issue : ℕ → String → PatchFailureCode → Simulation → Simulation
add_issue index name code sim = record sim {
  issues = sim.issues ++ record { op_index = some index; code = code; name = some name } ∷ [];
}

-- What is read at the first mention of a file: its lines, or that it is missing. Text mode changes
-- no line: Text.Newlines.splitlines-read_text.
unfoldable pub loaded : Node → Option (Option (List Text))
loaded missing = some none
loaded directory = none
loaded unreadable = none
loaded (file t) = some (some (splitlines t))

-- The simulation that has the file, or `none` where it cannot be read.
unfoldable pub with_file : Node → String → Simulation → Option Simulation
unfolding loaded
with_file node name sim = elim (lookup name sim.simulated_files) [
  | some current ↦ some sim
  | none ↦ elim (loaded node) [
    | none ↦ none
    | some current ↦ some (record sim {
      simulated_files = insert name current sim.simulated_files;
      original_files = insert name current sim.original_files;
    })
  ]
]

abbrev pub flat : Option (Option (List Text)) → Option (List Text)
flat none = none
flat (some current) = current

-- The body of the loop behind the loading of the file: what the operation makes of the file, and
-- what is written to the variables.
unfoldable pub simulated_as :
    String → PatchOperation → Simulation → Result PatchFailureCode (Option (List Text))
unfolding simulate
simulated_as target op sim =
    let name = file_of op in
    simulate (has_py_suffix target) (has_name name sim.mutated_files)
      (flat (lookup name sim.original_files)) op (flat (lookup name sim.simulated_files))

abbrev pub finished :
    ℕ → PatchOperation → Simulation → Result PatchFailureCode (Option (List Text)) → Simulation
finished index op sim (err code) = add_issue index (file_of op) code sim
finished index op sim (ok updated) = record sim {
  simulated_files = insert (file_of op) updated sim.simulated_files;
  mutated_files = file_of op ∷ sim.mutated_files;
}

unfoldable pub simulate_step : ℕ → String → PatchOperation → Simulation → Simulation
unfolding simulated_as
simulate_step index target op sim = finished index op sim (simulated_as target op sim)

abbrev pub out_of_scope : Option (List String) → String → Bool
out_of_scope none name = false
out_of_scope (some allowed) name = not (has_name name allowed)

-- One round of the loop of `preflight_patch_document`.
unfoldable pub preflight_op :
    Engine → Option (List String) → Disk → ℕ → PatchOperation → Simulation → Simulation
preflight_op engine allowed disk index op sim =
    let name = file_of op in
    if out_of_scope allowed name
    then add_issue index name scope_violation sim
    else elim (engine.layout.resolve_inside name) [
      | none ↦ add_issue index name path_escape sim
      | some target ↦ elim (with_file (disk target) name sim) [
        | none ↦ add_issue index name apply_error sim
        | some sim' ↦ simulate_step index target op sim'
      ]
    ]

unfoldable pub preflight_ops :
    Engine → Option (List String) → Disk → ℕ → List PatchOperation → Simulation → Simulation
preflight_ops engine allowed disk index [] sim = sim
preflight_ops engine allowed disk index (op ∷ ops) sim =
    preflight_ops engine allowed disk (index + 1) ops
      (preflight_op engine allowed disk index op sim)

abbrev pub no_issues : List PatchPreflightIssue → Bool
no_issues [] = true
no_issues (i ∷ is) = false

-- An issue of the whole patch.
abbrev pub refused : PatchFailureCode → PatchPreflightReport
refused code = record {
  success = false;
  issues = record { op_index = none; code = code; name = none } ∷ [];
}

unfoldable pub preflight_patch_document :
    Engine → Disk → List PatchOperation → Option (List String) → PatchPreflightReport
preflight_patch_document engine disk ops allowed =
    if not engine.base_is_dir
    then refused file_missing
    else elim (validate_paths engine.patterns (map (λ op. codes (file_of op)) ops)) [
      | err e ↦ refused policy_violation
      | ok u ↦
          let found = (preflight_ops engine allowed disk 0 ops fresh_simulation).issues in
          record { success = no_issues found; issues = found }
    ]
