-- ===== src/Validation/Detect.antt =====
-- The default commands of a workspace (`_detect_default_commands` of
-- services/agentd-py/agentd/validation/command_validator.py), with `resolve_workspace_bin` of
-- services/agentd-py/agentd/tools/_paths.py.
use shadow_forge.Base.{
  String, Bool, true, false, List, [], ◌∷◌, ◌++◌, Option, none, some, if◌then◌else◌, has_name, ◌||◌,
  map,
}
use shadow_forge.Text.{Text, codes, contains}
use shadow_forge.Validation.{
  Stage, syntax_stage, type_stage, lint_stage, test_stage, ValidationCommand,
}

-- What is read of the workspace and of the machine.
pub record Project : Type 0 where
  -- `_has_files` with the suffix of Python
  pub has_python : Bool
  pub root : Text
  -- `candidate.is_file() and os.access(candidate, os.X_OK)`
  pub is_executable : Text → Bool
  -- `shutil.which`
  pub which : String → Option Text
  -- `sys.executable`, and `shlex.quote`
  pub executable : Text
  pub quote : Text → Text
  -- `Path(bin).with_name("python")`, and whether it exists
  pub sibling_python : Text → Text
  pub exists : Text → Bool
  -- The keys of the scripts of package.json, if there is one: `some none` if the scripts are no
  -- object; a file that does not parse has no scripts.
  pub package_json : Option (Option (List String))
  pub has_cargo_toml : Bool

abbrev pub exclude : Text
exclude = codes "(^|/)(\\.venv|node_modules|\\.git|target|dist|__pycache__|aider-references)(/|$)"

-- The directories of a workspace that hold programs, and the suffixes of programs
abbrev pub workspace_bin_dirs : List String
workspace_bin_dirs =
    ".venv/bin" ∷ ".venv/Scripts" ∷ "node_modules/.bin" ∷ "target/release" ∷ "target/debug" ∷ []

abbrev pub bin_suffixes : List String
bin_suffixes = "" ∷ ".exe" ∷ ".cmd" ∷ []

abbrev pub candidate_of : Text → String → String → String → Text
candidate_of root dir name suffix =
    root ++ codes "/" ++ codes dir ++ codes "/" ++ codes name ++ codes suffix

-- The candidates of all directories, each with every suffix
abbrev pub candidates_in : Text → String → List String → List Text
candidates_in root name [] = []
candidates_in root name (dir ∷ dirs) =
    map (λ suffix. candidate_of root dir name suffix) bin_suffixes ++ candidates_in root name dirs

abbrev pub first_executable : (Text → Bool) → List Text → Option Text
first_executable is_executable [] = none
first_executable is_executable (path ∷ paths) =
    if is_executable path then some path else first_executable is_executable paths

-- The name is empty or holds a separator.
abbrev pub is_no_bin_name : Text → Bool
is_no_bin_name [] = true
is_no_bin_name (c ∷ cs) = contains (codes "/") (c ∷ cs) || contains (codes "\\") (c ∷ cs)

unfoldable pub resolve_workspace_bin : Project → String → Option Text
resolve_workspace_bin p name =
    if is_no_bin_name (codes name)
    then none
    else first_executable p.is_executable (candidates_in p.root name workspace_bin_dirs)

-- `_resolve_bin`
unfoldable pub resolve_bin : Project → String → Option Text
unfolding resolve_workspace_bin
resolve_bin p name = elim (resolve_workspace_bin p name) [
  | some bin ↦ some bin
  | none ↦ p.which name
]

-- A command with the default timeout
abbrev pub command_of : Stage → String → Text → Bool → ValidationCommand
command_of stage name command warning_only = record {
  stage = stage;
  name = codes name;
  command = command;
  timeout_sec = 300;
  warning_only = warning_only;
}

-- A command of a program, if the program is found
abbrev pub if_found : Option Text → (Text → ValidationCommand) → List ValidationCommand
if_found none command = []
if_found (some bin) command = command bin ∷ []

abbrev pub mypy : Project → Text → ValidationCommand
mypy p bin =
    command_of type_stage "mypy"
      (p.quote bin ++ codes " --exclude " ++ p.quote exclude ++ codes " .") true

abbrev pub ruff : Project → Text → ValidationCommand
ruff p bin = command_of lint_stage "ruff" (p.quote bin ++ codes " check .") true

abbrev pub pytest_command : Project → Text → ValidationCommand
pytest_command p bin =
    let python = if p.exists (p.sibling_python bin) then p.sibling_python bin else p.executable in
    command_of test_stage "pytest" (p.quote python ++ codes " -m pytest") false

abbrev pub compileall : Project → ValidationCommand
compileall p =
    command_of syntax_stage "python-compileall"
      (p.quote p.executable ++ codes " -m compileall -q -x '" ++ exclude ++ codes "' .") false

unfoldable pub python_commands : Project → List ValidationCommand
unfolding resolve_bin
python_commands p =
    if p.has_python
    then compileall p
      ∷ (if_found (resolve_bin p "mypy") (mypy p)
          ++ if_found (resolve_bin p "ruff") (ruff p)
          ++ if_found (resolve_bin p "pytest") (pytest_command p))
    else []

-- The command of a script, if the package declares it
abbrev pub script_command : Stage → String → String → List String → List ValidationCommand
script_command stage script line scripts =
    if has_name script scripts
    then record {
      stage = stage;
      name = codes "npm-" ++ codes script;
      command = codes line;
      timeout_sec = 300;
      warning_only = false;
    }
      ∷ []
    else []

unfoldable pub script_commands : List String → List ValidationCommand
script_commands scripts =
    script_command type_stage "typecheck" "npm run -s typecheck" scripts
    ++ script_command lint_stage "lint" "npm run -s lint" scripts
    ++ script_command test_stage "test" "npm run -s test" scripts

abbrev pub vitest : Project → Text → ValidationCommand
vitest p bin = command_of test_stage "vitest" (p.quote bin ++ codes " run") false

abbrev pub jest : Project → Text → ValidationCommand
jest p bin = command_of test_stage "jest" (p.quote bin) false

abbrev pub tsc : Project → Text → ValidationCommand
tsc p bin = command_of type_stage "tsc" (p.quote bin ++ codes " --noEmit") true

abbrev pub eslint : Project → Text → ValidationCommand
eslint p bin = command_of lint_stage "eslint" (p.quote bin ++ codes " .") true

-- The test runner that is installed: vitest before jest
abbrev pub test_runner : Project → Option Text → List ValidationCommand
test_runner p (some bin) = vitest p bin ∷ []
test_runner p none = if_found (resolve_bin p "jest") (jest p)

unfoldable pub fallback_commands : Project → List String → List ValidationCommand
unfolding resolve_bin
fallback_commands p scripts =
    (if has_name "test" scripts then [] else test_runner p (resolve_bin p "vitest"))
    ++ (if has_name "typecheck" scripts then [] else if_found (resolve_bin p "tsc") (tsc p))
    ++ (if has_name "lint" scripts then [] else if_found (resolve_bin p "eslint") (eslint p))

unfoldable pub package_commands : Project → Option (Option (List String)) → List ValidationCommand
unfolding script_commands fallback_commands
package_commands p none = []
package_commands p (some none) = fallback_commands p []
package_commands p (some (some scripts)) = script_commands scripts ++ fallback_commands p scripts

abbrev pub cargo_check : ValidationCommand
cargo_check = record {
  stage = syntax_stage;
  name = codes "cargo-check";
  command = codes "cargo check --all-targets 2>&1";
  timeout_sec = 120;
  warning_only = false;
}

abbrev pub cargo_test : ValidationCommand
cargo_test = command_of test_stage "cargo-test" (codes "cargo test 2>&1") false

abbrev pub with_cargo : Option Text → List ValidationCommand
with_cargo none = []
with_cargo (some bin) = cargo_check ∷ cargo_test ∷ []

unfoldable pub cargo_commands : Project → List ValidationCommand
cargo_commands p = if p.has_cargo_toml then with_cargo (p.which "cargo") else []

unfoldable pub detect_default_commands : Project → List ValidationCommand
unfolding python_commands package_commands cargo_commands
detect_default_commands p =
    python_commands p ++ package_commands p p.package_json ++ cargo_commands p
