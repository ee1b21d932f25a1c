-- ===== src/Validation/Blocking.antt =====
-- Which of the detected commands can fail a validation (`_detect_default_commands` of
-- validation/command_validator.py).
use shadow_forge.Base.{
  ◌≡◌, refl, ◌⊎◌, inl, inr, String, Bool, true, false, List, [], ◌++◌, Option, none, some, All,
  All-append, has_name, if◌then◌else◌,
}
use shadow_forge.Text.{Text, codes}
use shadow_forge.Validation.{Stage, type_stage, lint_stage, test_stage, ValidationCommand}
use shadow_forge.Validation.Detect.{
  Project, resolve_bin, if_found, compileall, mypy, ruff, pytest_command, python_commands,
  script_command, script_commands, vitest, jest, tsc, eslint, test_runner, fallback_commands,
  package_commands, cargo_check, cargo_test, with_cargo, cargo_commands, detect_default_commands,
}

-- A command whose failure counts, and what of the project stands behind it.
pub data Blocks (p : Project) : ValidationCommand → Type 0 where
  compiles : p.has_python ≡ true → Blocks p (compileall p)
  runs_pytest :
      (bin : Text)
      → p.has_python ≡ true
      → resolve_bin p "pytest" ≡ some bin
      → Blocks p (pytest_command p bin)
  runs_vitest : (bin : Text) → resolve_bin p "vitest" ≡ some bin → Blocks p (vitest p bin)
  runs_jest : (bin : Text) → resolve_bin p "jest" ≡ some bin → Blocks p (jest p bin)
  checks_cargo : p.has_cargo_toml ≡ true → Blocks p cargo_check
  tests_cargo : p.has_cargo_toml ≡ true → Blocks p cargo_test
  runs_script :
      (c : ValidationCommand) (script : String) (scripts : List String)
      → p.package_json ≡ some (some scripts)
      → has_name script scripts ≡ true
      → c.name ≡ codes "npm-" ++ codes script
      → c.command ≡ codes "npm run -s " ++ codes script
      → Blocks p c

-- A command that only warns, or one of those whose failure counts.
abbrev pub MayBlock : Project → ValidationCommand → Type 0
MayBlock p c = (c.warning_only ≡ true) ⊎ Blocks p c

module _ (p : Project) where
  if_found-All :
      (o : Option Text) (command : Text → ValidationCommand)
      → ((bin : Text) → o ≡ some bin → MayBlock p (command bin))
      → All (MayBlock p) (if_found o command)
  if_found-All none command h = tt
  if_found-All (some bin) command h = (h bin refl, tt)

  joined :
      (xs ys : List ValidationCommand)
      → All (MayBlock p) xs
      → All (MayBlock p) ys
      → All (MayBlock p) (xs ++ ys)
  joined xs ys = All-append (MayBlock p) xs ys

  either_way :
      (b : Bool) (first second : List ValidationCommand)
      → (b ≡ true → All (MayBlock p) first)
      → All (MayBlock p) second
      → All (MayBlock p) (if b then first else second)
  either_way true first second h k = h refl
  either_way false first second h k = k

  python_commands-All : All (MayBlock p) (python_commands p)
  unfolding python_commands
  python_commands-All =
      either_way p.has_python _ _
        (λ h. (
          inr (compiles h),
          joined _ _
              (joined _ _ (if_found-All (resolve_bin p "mypy") (mypy p) (λ bin e. inl refl))
                (if_found-All (resolve_bin p "ruff") (ruff p) (λ bin e. inl refl)))
              (if_found-All (resolve_bin p "pytest") (pytest_command p)
                (λ bin e. inr (runs_pytest bin h e))),
        ))
        tt

  test_runner-All :
      (o : Option Text) → resolve_bin p "vitest" ≡ o → All (MayBlock p) (test_runner p o)
  test_runner-All (some bin) e = (inr (runs_vitest bin e), tt)
  test_runner-All none e =
      if_found-All (resolve_bin p "jest") (jest p) (λ bin f. inr (runs_jest bin f))

  fallback_commands-All : (scripts : List String) → All (MayBlock p) (fallback_commands p scripts)
  unfolding fallback_commands
  fallback_commands-All scripts =
      joined _ _
        (joined _ _
          (either_way (has_name "test" scripts) _ _ (λ h. tt)
            (test_runner-All (resolve_bin p "vitest") refl))
          (either_way (has_name "typecheck" scripts) _ _ (λ h. tt)
            (if_found-All (resolve_bin p "tsc") (tsc p) (λ bin e. inl refl))))
        (either_way (has_name "lint" scripts) _ _ (λ h. tt)
          (if_found-All (resolve_bin p "eslint") (eslint p) (λ bin e. inl refl)))

  with_cargo-All : (o : Option Text) → p.has_cargo_toml ≡ true → All (MayBlock p) (with_cargo o)
  with_cargo-All none h = tt
  with_cargo-All (some bin) h = (inr (checks_cargo h), (inr (tests_cargo h), tt))

  cargo_commands-All : All (MayBlock p) (cargo_commands p)
  unfolding cargo_commands
  cargo_commands-All = either_way p.has_cargo_toml _ _ (with_cargo-All (p.which "cargo")) tt

  script_command-All :
      (stage : Stage) (script line : String) (scripts : List String)
      → p.package_json ≡ some (some scripts)
      → codes line ≡ codes "npm run -s " ++ codes script
      → All (MayBlock p) (script_command stage script line scripts)
  script_command-All stage script line scripts e f =
      either_way (has_name script scripts) _ _
        (λ h. (inr (runs_script _ script scripts e h refl f), tt)) tt

  script_commands-All :
      (scripts : List String)
      → p.package_json ≡ some (some scripts)
      → All (MayBlock p) (script_commands scripts)
  unfolding script_commands
  script_commands-All scripts e =
      joined _ _
        (joined _ _
          (script_command-All type_stage "typecheck" "npm run -s typecheck" scripts e refl)
          (script_command-All lint_stage "lint" "npm run -s lint" scripts e refl))
        (script_command-All test_stage "test" "npm run -s test" scripts e refl)

  package_commands-All :
      (scripts_of : Option (Option (List String)))
      → p.package_json ≡ scripts_of
      → All (MayBlock p) (package_commands p scripts_of)
  unfolding package_commands
  package_commands-All none e = tt
  package_commands-All (some none) e = fallback_commands-All []
  package_commands-All (some (some scripts)) e =
      joined _ _ (script_commands-All scripts e) (fallback_commands-All scripts)

-- A detected command that does not merely warn is one of these: compileall, in a
-- project with Python files; pytest, vitest or jest, where it is found, pytest with Python files
-- only; `cargo check` and `cargo test`, with a Cargo.toml; or the run of a script that package.json
-- declares. Every other detected command, so mypy, ruff, tsc and eslint, only warns.
pub detect_default_commands-All : (p : Project) → All (MayBlock p) (detect_default_commands p)
unfolding detect_default_commands
detect_default_commands-All p =
    joined p _ _ (joined p _ _ (python_commands-All p) (package_commands-All p p.package_json refl))
      (cargo_commands-All p)
