-- ===== src/Policy.antt =====
-- The policy on the paths that a patch may touch (services/agentd-py/agentd/patch/policy.py), with
-- the standard library's `fnmatch` on POSIX.
pub mod Paths
mod Tests
use shadow_forge.Base.{
  ℕ, zero, suc, ◌+◌, String, Bool, true, false, not, ◌&&◌, ◌||◌, List, [], ◌∷◌, ◌++◌, Option, none,
  some, leb, ◌==◌, if◌then◌else◌, length, drop, map, Result, ok, err, any,
}
use shadow_forge.Text.{Text, codes, starts_with, text_eq}

-- What a pattern is made of.
pub data Glob : Type 0 where
  star any_char : Glob
  literal : ℕ → Glob
  set : Bool → Text → Glob

-- The characters up to the next `]`.
until_close : Text → Option Text
until_close [] = none
until_close (c ∷ cs) =
    let rest = until_close cs in
    if c == b']' then some [] else elim rest [ none ↦ none | some body ↦ some (c ∷ body) ]

-- A `]` at the front of a set is a member of it.
members : Text → Option Text
unfolding until_close
members [] = none
members (c ∷ cs) =
    if c == b']'
    then elim (until_close cs) [ none ↦ none | some body ↦ some (c ∷ body) ]
    else until_close (c ∷ cs)

-- Behind a `[`: the set, and how many characters it takes.
class_of : Text → Option (Glob × ℕ)
unfolding members
class_of [] = none
class_of (c ∷ cs) =
    if c == b'!'
    then elim (members cs) [ none ↦ none | some body ↦ some (set true body, length body + 2) ]
    else elim (members (c ∷ cs)) [
      | none ↦ none
      | some body ↦ some (set false body, length body + 1)
    ]

-- The number is how many characters of a set are still to be passed over.
globs_from : ℕ → Text → List Glob
unfolding class_of
globs_from skip [] = []
globs_from (suc k) (c ∷ cs) = globs_from k cs
globs_from zero (c ∷ cs) =
    let found = if c == b'[' then class_of cs else none in
    let rest = globs_from (elim found [ none ↦ 0 | some (g, n) ↦ n ]) cs in
    elim found [
      | some (g, n) ↦ g ∷ rest
      | none ↦ (if c == b'*' then star else if c == b'?' then any_char else literal c) ∷ rest
    ]

pub globs : Text → List Glob
unfolding globs_from
globs pattern = globs_from 0 pattern

in_members : Text → ℕ → Bool
in_members [] c = false
in_members (a ∷ []) c = a == c
in_members (a ∷ b ∷ []) c = (a == c) || (b == c)
in_members (a ∷ b ∷ d ∷ rest) c =
    let single = (a == c) || in_members (b ∷ d ∷ rest) c in
    let range = (leb a c && leb c d) || in_members rest c in if b == b'-' then range else single

-- The rest of the pattern, tried at every end of the text.
anywhere : (Text → Bool) → Text → Bool
anywhere rest [] = rest []
anywhere rest (c ∷ cs) = rest (c ∷ cs) || anywhere rest cs

on_head : (ℕ → Bool) → (Text → Bool) → Text → Bool
on_head test rest [] = false
on_head test rest (c ∷ cs) = test c && rest cs

pub glob_match : List Glob → Text → Bool
unfolding anywhere on_head in_members
glob_match [] [] = true
glob_match [] (c ∷ cs) = false
glob_match (star ∷ gs) t = anywhere (glob_match gs) t
glob_match (any_char ∷ gs) t = on_head (λ c. true) (glob_match gs) t
glob_match (literal a ∷ gs) t = on_head (λ c. a == c) (glob_match gs) t
glob_match (set negated body ∷ gs) t =
    on_head (λ c. if negated then not (in_members body c) else in_members body c) (glob_match gs) t

unfoldable pub fnmatch : Text → Text → Bool
unfolding globs glob_match
fnmatch name pattern = glob_match (globs pattern) name

pub default_forbidden_patterns : List Text
default_forbidden_patterns =
    codes ".git/**"
    ∷ codes ".env"
    ∷ codes ".env.*"
    ∷ codes "**/*.pem"
    ∷ codes "**/*.key"
    ∷ codes "**/id_rsa"
    ∷ codes "**/id_ed25519"
    ∷ []

pub data PatchPolicyViolation : Type 0 where
  unsafe_path : Text → PatchPolicyViolation
  forbidden_path : Text → Text → PatchPolicyViolation

-- `forbidden_patterns or DEFAULT_FORBIDDEN_PATTERNS`
pub new : Option (List Text) → List Text
unfolding default_forbidden_patterns
new none = default_forbidden_patterns
new (some []) = default_forbidden_patterns
new (some (p ∷ ps)) = p ∷ ps

-- `path.replace("\\", "/")`, and one leading `./` is dropped.
pub normalized : Text → Text
normalized path =
    let slashed = map (λ c. if c == b'\\' then b'/' else c) path in
    if starts_with (codes "./") slashed then drop 2 slashed else slashed

pub is_unsafe : Text → Bool
is_unsafe name =
    text_eq name []
    || text_eq name (codes ".")
    || text_eq name (codes "..")
    || starts_with (codes "../") name

-- The first pattern that the name matches.
first_match : List Text → Text → Option Text
first_match [] name = none
first_match (p ∷ ps) name = if fnmatch name p then some p else first_match ps name

pub validate_path : List Text → Text → Result PatchPolicyViolation (Unit {0})
unfolding normalized is_unsafe first_match
validate_path patterns path =
    if is_unsafe (normalized path)
    then err (unsafe_path path)
    else elim (first_match patterns (normalized path)) [
      | some p ↦ err (forbidden_path path p)
      | none ↦ ok tt
    ]

unfoldable pub validate_paths : List Text → List Text → Result PatchPolicyViolation (Unit {0})
unfolding validate_path
validate_paths patterns [] = ok tt
validate_paths patterns (path ∷ rest) =
    let others = validate_paths patterns rest in
    elim (validate_path patterns path) [ ok u ↦ others | err e ↦ err e ]
