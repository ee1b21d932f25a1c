-- ===== src/Env/Tests.antt =====
-- Runs of the resolver of manifests and of the install.
use shadow_forge.Base.{
  ◌≡◌, refl, String, Bool, true, false, List, [], ◌∷◌, none, some, str_eq, if◌then◌else◌,
}
use shadow_forge.Text.{codes, starts_with}
use shadow_forge.Env.{
  EnvEcosystemEntry, Installer, install_running, install_done, normalize, posix_parts, posix_root,
  resolve_manifest_scope_key, maybe_run_pending_install,
}
use shadow_forge.Env.Paths.{posix_parts-normalize}
use shadow_forge.Env.Manifest.{Finds, resolve_manifest_scope_key-Finds}

abbrev entry_of : String → String → EnvEcosystemEntry
entry_of subdir manifest = record {
  ecosystem = "python";
  subdir = subdir;
  manifest_path = codes manifest;
  install_command = "uv sync";
}

abbrev ecosystems : List EnvEcosystemEntry
ecosystems = entry_of "" "pyproject.toml" ∷ entry_of "api" "api/pyproject.toml" ∷ []

abbrev touched_files : List String
touched_files = "src/a.py" ∷ "./api//pyproject.toml" ∷ "pyproject.toml" ∷ []

api_resolved : resolve_manifest_scope_key touched_files ecosystems ≡ some "python:api"
unfolding resolve_manifest_scope_key posix_root posix_parts starts_with
api_resolved = refl

-- The state is whether the install has run; it rewrites one lockfile.
abbrev locking : Installer Bool
locking = record {
  read_profile = λ ran. some ecosystems;
  mtime = λ ran path. if str_eq path "api/uv.lock" then some (if ran then 2 else 1) else none;
  setup_env = λ ran command cwd. (true, false);
}

lockfile_changed : maybe_run_pending_install locking (some "python:api") false ≡ (
  true,
  (
    "api/uv.lock" ∷ [],
    install_running "python:api" "uv sync"
        ∷ install_done "python:api" true ("api/uv.lock" ∷ [])
        ∷ [],
  ),
)
unfolding maybe_run_pending_install
lockfile_changed = refl

posix_parts-normalize_example :
    (posix_parts (normalize (codes "./api//b.toml")) ≡ posix_parts (codes "./api//b.toml"))
    × (posix_root (normalize (codes "./api//b.toml")) ≡ posix_root (codes "./api//b.toml"))
    × (normalize (normalize (codes "./api//b.toml")) ≡ normalize (codes "./api//b.toml"))
posix_parts-normalize_example = posix_parts-normalize (codes "./api//b.toml")

resolve_manifest_scope_key-Finds_example :
    Finds ecosystems touched_files (resolve_manifest_scope_key touched_files ecosystems)
resolve_manifest_scope_key-Finds_example = resolve_manifest_scope_key-Finds ecosystems touched_files
