-- ===== src/Env.antt =====
-- The environment profile of a workspace and the install that follows a patch of a manifest
-- (services/agentd-py/agentd/env/manifest_match.py and env/auto_sync.py). Paths are texts;
-- `PurePosixPath` is the standard library's.
pub mod Paths
pub mod Manifest
mod Tests
use shadow_forge.Base.{
  ℕ, String, Bool, true, false, not, ◌&&◌, ◌||◌, List, [], ◌∷◌, ◌++◌, Option, none, some, ◌==◌,
  if◌then◌else◌, any, keep, map, str_eq,
}
use Prim.Native.String.{◌++◌ as ◌<>◌}
use shadow_forge.Text.{Text, codes, starts_with, text_eq}

-- The fields of an ecosystem's entry that are read here.
pub record EnvEcosystemEntry : Type 0 where
  pub ecosystem : String
  pub subdir : String
  pub manifest_path : Text
  pub install_command : String

pub scope_key : EnvEcosystemEntry → String
scope_key entry = entry.ecosystem <> ":" <> entry.subdir

abbrev pub manifest_basenames : List Text
manifest_basenames =
    codes "pyproject.toml" ∷ codes "package.json" ∷ codes "Cargo.toml" ∷ codes "go.mod" ∷ []

abbrev pub has_text : Text → List Text → Bool
has_text t ts = any (λ s. text_eq s t) ts

-- Puts a character in front of the first part.
abbrev pub onto_part : ℕ → List Text → List Text
onto_part c [] = (c ∷ []) ∷ []
onto_part c (part ∷ others) = (c ∷ part) ∷ others

-- `path.split("/")`
pub split_slash : Text → List Text
split_slash [] = [] ∷ []
split_slash (c ∷ cs) =
    let others = split_slash cs in if c == b'/' then [] ∷ others else onto_part c others

-- The parts of a `PurePosixPath` without its root: empty parts and `.` are dropped.
unfoldable pub posix_parts : Text → List Text
unfolding split_slash
posix_parts path =
    keep (λ part. not (text_eq part [] || text_eq part (codes "."))) (split_slash path)

-- Exactly two slashes in front are kept, more are one.
unfoldable pub posix_root : Text → Text
posix_root path =
    if starts_with (codes "///") path
    then codes "/"
    else if starts_with (codes "//") path
    then codes "//"
    else if starts_with (codes "/") path
    then codes "/"
    else []

pub join_slash : List Text → Text
join_slash [] = []
join_slash (part ∷ []) = part
join_slash (part ∷ next ∷ others) = part ++ (b'/' ∷ join_slash (next ∷ others))

-- `str(PurePosixPath(path))`
pub normalize : Text → Text
unfolding posix_root join_slash posix_parts
normalize path =
    let whole = posix_root path ++ join_slash (posix_parts path) in
    if text_eq whole [] then codes "." else whole

last_or_empty : List Text → Text
last_or_empty [] = []
last_or_empty (part ∷ []) = part
last_or_empty (part ∷ next ∷ others) = last_or_empty (next ∷ others)

-- `PurePosixPath(path).name`
pub posix_name : Text → Text
unfolding last_or_empty posix_parts
posix_name path = last_or_empty (posix_parts path)

-- `by_manifest.get(norm)`: of two entries with one manifest the later one stays.
pub by_manifest : Text → List EnvEcosystemEntry → Option String
unfolding scope_key
by_manifest norm [] = none
by_manifest norm (entry ∷ entries) = elim (by_manifest norm entries) [
  | some later ↦ some later
  | none ↦ if text_eq entry.manifest_path norm then some (scope_key entry) else none
]

-- The first touched file that is a manifest of the profile.
unfoldable pub resolve_manifest_scope_key : List String → List EnvEcosystemEntry → Option String
unfolding normalize posix_name by_manifest
resolve_manifest_scope_key [] ecosystems = none
resolve_manifest_scope_key (raw ∷ others) ecosystems =
    let rest = resolve_manifest_scope_key others ecosystems in
    if not (has_text (posix_name (normalize (codes raw))) manifest_basenames)
    then rest
    else elim (by_manifest (normalize (codes raw)) ecosystems) [ some key ↦ some key | none ↦ rest ]

abbrev pub lockfile_candidates : List String
lockfile_candidates =
    "uv.lock" ∷ "package-lock.json" ∷ "yarn.lock" ∷ "pnpm-lock.yaml" ∷ "poetry.lock" ∷ "Cargo.lock"
    ∷ "go.sum" ∷ []

-- `next((e for e in profile.ecosystems if e.scope_key == scope_key), None)`
pub find_entry : String → List EnvEcosystemEntry → Option EnvEcosystemEntry
unfolding scope_key
find_entry key [] = none
find_entry key (entry ∷ entries) =
    if str_eq (scope_key entry) key then some entry else find_entry key entries

-- What the install asks of its surroundings: the stored profile, the time at which a file of the
-- shadow was changed, and `setup_env`, whose result says whether it failed.
pub record Installer (World : Type 0) : Type 0 where
  pub read_profile : World → Option (List EnvEcosystemEntry)
  pub mtime : World → String → Option ℕ
  pub setup_env : World → String → String → World × Bool

pub data InstallEvent : Type 0 where
  install_running : String → String → InstallEvent
  install_done : String → Bool → List String → InstallEvent

-- `f"{subdir}/{name}" if subdir else name`
pub below : String → String → String
below subdir name = if str_eq subdir "" then name else subdir <> "/" <> name

-- `after is not None and before != after`
pub is_changed : Option ℕ → Option ℕ → Bool
is_changed before none = false
is_changed none (some now) = true
is_changed (some old) (some now) = not (old == now)

module _ {World : Type 0} (I : Installer World) where
  pub changed_lockfiles : World → World → String → List String
  unfolding is_changed below
  changed_lockfiles before after subdir =
      map (λ name. below subdir name)
        (keep
          (λ name.
            is_changed (I.mtime before (below subdir name)) (I.mtime after (below subdir name)))
          lockfile_candidates)

  install : EnvEcosystemEntry → World → World × (List String × List InstallEvent)
  unfolding changed_lockfiles scope_key
  install entry world =
      let (after, is_error) = I.setup_env world entry.install_command entry.subdir in
      let changed = changed_lockfiles world after entry.subdir in
      (
        after,
        (
          changed,
          install_running (scope_key entry) entry.install_command
              ∷ install_done (scope_key entry) (not is_error) changed
              ∷ [],
        ),
      )

  -- The files that changed, and the events of a broadcaster that is there.
  unfoldable pub maybe_run_pending_install :
      Option String → World → World × (List String × List InstallEvent)
  unfolding install find_entry
  maybe_run_pending_install none world = (world, ([], []))
  maybe_run_pending_install (some key) world = elim (I.read_profile world) [
    | none ↦ (world, ([], []))
    | some ecosystems ↦ elim (find_entry key ecosystems) [
      | none ↦ (world, ([], []))
      | some entry ↦ install entry world
    ]
  ]
