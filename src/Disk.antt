-- ===== src/Disk.antt =====
-- The files below a workspace, as far as the patch engine reads and writes them. A path is the
-- resolved one; each `read_text`, `write_text`, `mkdir` and `rmtree` stands for the call of the
-- standard library's `pathlib` and `shutil` with the source's arguments. A file holds its characters
-- as they were written; what a text read of it holds is Text.read_text.
use shadow_forge.Base.{
  ◌≡◌, String, Bool, true, false, List, [], ◌∷◌, Option, none, some, arith, str_eq, eq_iff,
  if◌then◌else◌, has_name,
}
use shadow_forge.Text.{Text}

-- What stands at a path. A file that cannot be read, or a directory, raises `OSError`.
pub data Node : Type 0 where
  missing directory unreadable : Node
  file : Text → Node

abbrev pub Disk : Type 0
Disk = String → Node

-- `path.exists()`
abbrev pub exists : Node → Bool
exists missing = false
exists _ = true

abbrev pub write : String → Node → Disk → Disk
write path node disk p = if str_eq path p then node else disk p

-- What the file system tells of the paths: `(base_path / name).resolve()` if it stays inside the
-- base, the directories between the base and a path, and which paths lie at or below another.
pub record Layout : Type 0 where
  pub resolve_inside : String → Option String
  pub parents : String → List String
  pub at_or_below : String → String → Bool

-- `target.parent.mkdir(parents=True, exist_ok=True)`. A file in the way raises `OSError`.
unfoldable pub mkdir : List String → Disk → Option Disk
mkdir [] disk = some disk
mkdir (p ∷ ps) disk = elim (disk p) [
  | missing ↦ mkdir ps (write p directory disk)
  | directory ↦ mkdir ps disk
  | unreadable ↦ none
  | file t ↦ none
]

-- `shutil.rmtree(target)`
abbrev pub rmtree : Layout → String → Disk → Disk
rmtree layout target disk p = if layout.at_or_below p target then missing else disk p

-- What is not one of the directories is as it was.
pub mkdir_other :
    (ps : List String) (disk after : Disk) (p : String)
    → mkdir ps disk ≡ some after
    → has_name p ps ≡ false
    → after p ≡ disk p
unfolding mkdir
mkdir_other [] disk after p h n = ground arith
mkdir_other (q ∷ qs) disk after p h n = ground (
  arith,
  eq_iff q p,
  mkdir_other qs disk after p,
  mkdir_other qs (write q directory disk) after p,
)
