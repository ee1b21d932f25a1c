-- ===== src/Validation/Tests.antt =====
-- Validations of a small workspace.
use shadow_forge.Base.{
  ◌≡◌, refl, ◌↔◌, String, true, false, not, List, [], ◌∷◌, none, some, All, length, map,
  if◌then◌else◌,
}
use shadow_forge.Text.{codes, contains, text_eq}
use shadow_forge.Validation.{
  ValidationCommand, Outcome, timed_out, exited, code, Shell, run, run_commands, run_all,
  run_command, chosen_commands, output_of,
}
use shadow_forge.Validation.Success.{Succeeds, run_iff}
use shadow_forge.Validation.Touched.{
  Tools, run_touched, check_touched_files, check_touched_file, check_typescript, language_of,
  run_typescript_fast_parse, check_typescript_fast_support, why_unavailable,
}
use shadow_forge.Validation.Files.{IsAccepted, run_touched_iff}
use shadow_forge.Validation.Detect.{
  Project, detect_default_commands, python_commands, package_commands, cargo_commands,
  script_commands, fallback_commands, resolve_bin, resolve_workspace_bin,
}
use shadow_forge.Validation.Blocking.{MayBlock, detect_default_commands-All}

-- Python with mypy and pytest, and a package with a script for its tests.
abbrev project : Project
project = record {
  has_python = true;
  root = codes "/w";
  is_executable = λ path. text_eq path (codes "/w/.venv/bin/mypy");
  which = λ name. some (codes name);
  executable = codes "python3";
  quote = λ text. text;
  sibling_python = λ bin. codes "python";
  exists = λ path. true;
  package_json = some (some ("test" ∷ []));
  has_cargo_toml = false;
}

abbrev detected : List ValidationCommand
detected = detect_default_commands project

abbrev failed : Outcome
failed = exited (code 1) [] (codes "error")

-- Only the command of this name fails.
abbrev failing : String → Shell
failing name done c = if text_eq c.name (codes name) then failed else exited (code 0) [] []

found_locally : resolve_bin project "mypy" ≡ some (codes "/w/.venv/bin/mypy")
unfolding resolve_bin resolve_workspace_bin contains
found_locally = refl

detected_names :
    map (λ c. c.name) detected
    ≡ map codes
        ("python-compileall" ∷ "mypy" ∷ "ruff" ∷ "pytest" ∷ "npm-test" ∷ "tsc" ∷ "eslint" ∷ [])
unfolding detect_default_commands python_commands package_commands cargo_commands script_commands
    fallback_commands resolve_bin resolve_workspace_bin contains
detected_names = refl

mypy_warns : (run (failing "mypy") none detected).success ≡ true
unfolding run run_commands run_all run_command output_of detect_default_commands python_commands
    package_commands cargo_commands script_commands fallback_commands resolve_bin
    resolve_workspace_bin contains
mypy_warns = refl

pytest_fails : (run (failing "pytest") none detected).success ≡ false
unfolding run run_commands run_all run_command output_of detect_default_commands python_commands
    package_commands cargo_commands script_commands fallback_commands resolve_bin
    resolve_workspace_bin contains
pytest_fails = refl

nothing_to_run : (run (failing "pytest") (some []) []).success ≡ false
unfolding run run_commands
nothing_to_run = refl

run_iff_example :
    ((run (failing "mypy") none detected).success ≡ true)
    ↔ Succeeds (failing "mypy") (chosen_commands none detected)
run_iff_example = run_iff (failing "mypy") none detected

-- Every file is a TypeScript file that does not parse, and Node.js is not there.
abbrev tools : Tools
tools = record {
  is_inside = λ path. not (text_eq path (codes "../x.ts"));
  is_file = λ path. true;
  suffix = λ path. codes ".ts";
  compile = λ path. none;
  has_node = false;
  has_rustfmt = false;
  resolve_typescript = timed_out;
  parse_typescript = λ path. failed;
  parse_rust = λ path. failed;
}

-- What is missing is reported once.
warned_once : length (run_touched tools (codes "a.ts" ∷ codes "b.ts" ∷ [])).diagnostics ≡ 1
unfolding run_touched check_touched_files check_touched_file check_typescript language_of
    run_typescript_fast_parse check_typescript_fast_support why_unavailable
warned_once = refl

run_touched_iff_example :
    ((run_touched tools (codes "a.ts" ∷ codes "../x.ts" ∷ [])).success ≡ true)
    ↔ All (IsAccepted tools) (codes "a.ts" ∷ codes "../x.ts" ∷ [])
run_touched_iff_example = run_touched_iff tools (codes "a.ts" ∷ codes "../x.ts" ∷ [])

detect_default_commands-All_example : All (MayBlock project) detected
detect_default_commands-All_example = detect_default_commands-All project
