-- ===== src/Policy/Paths.antt =====
-- Which paths the default policy lets through (patch/policy.py).
use shadow_forge.Base.{
  ℕ, ◌≡◌, refl, ◌↔◌, inl, inr, Bool, true, false, ◌||◌, List, [], ◌∷◌, ◌++◌, arith, Bool-cases,
  ◌==◌, ◌≢◌, ap, if◌then◌else◌, map, Result, ok, err, any, All, none, some, Option,
}
use shadow_forge.Text.{Text, codes, starts_with, text_eq}
use shadow_forge.Policy.{
  Glob, star, any_char, literal, set, anywhere, glob_match, globs, fnmatch,
  default_forbidden_patterns, PatchPolicyViolation, forbidden_path, unsafe_path, normalized,
  is_unsafe, first_match, validate_path, validate_paths,
}

-- Several paths are accepted exactly when each of them is.
pub validate_paths_iff :
    (patterns paths : List Text)
    → (validate_paths patterns paths ≡ ok tt)
      ↔ All (λ path. validate_path patterns path ≡ ok tt) paths
unfolding validate_paths
validate_paths_iff patterns [] = (λ h. tt, λ h. refl)
validate_paths_iff patterns (path ∷ rest) =
    let ih = validate_paths_iff patterns rest in
    (λ h. split (validate_path patterns path) refl ih.0 h, λ h. ground (arith, ih.1))
  where
    split :
        (r : Result PatchPolicyViolation (Unit {0}))
        → validate_path patterns path ≡ r
        → (validate_paths patterns rest ≡ ok tt → All (λ p. validate_path patterns p ≡ ok tt) rest)
        → (elim r [ ok u ↦ validate_paths patterns rest | err e ↦ err e ]) ≡ ok tt
        → (validate_path patterns path ≡ ok tt) × All (λ p. validate_path patterns p ≡ ok tt) rest
    split (ok tt) e ih h = (e, ih h)
    split (err x) e ih h = cc

abbrev slash : ℕ
slash = b'/'

abbrev pub has_slash : Text → Bool
has_slash t = any (λ c. c == slash) t

abbrev is_slash : Glob → Bool
is_slash (literal a) = a == slash
is_slash _ = false

anywhere_slash :
    (f : Text → Bool) (t : Text)
    → ((u : Text) → f u ≡ true → has_slash u ≡ true)
    → anywhere f t ≡ true
    → has_slash t ≡ true
unfolding anywhere
anywhere_slash f [] k h = k [] h
anywhere_slash f (c ∷ cs) k h = elim (Bool-cases (f (c ∷ cs))) [
  | inl e ↦ k (c ∷ cs) e
  | inr e ↦ ground (arith, anywhere_slash f cs k (rw e at h))
]

-- A pattern with a slash matches only names with one.
glob_match_slash :
    (gs : List Glob) (t : Text)
    → any is_slash gs ≡ true
    → glob_match gs t ≡ true
    → has_slash t ≡ true
unfolding glob_match
glob_match_slash [] t s h = cc
glob_match_slash (star ∷ gs) t s h =
    anywhere_slash (glob_match gs) t (λ u. glob_match_slash gs u s) h
glob_match_slash (any_char ∷ gs) [] s h = cc
glob_match_slash (any_char ∷ gs) (c ∷ cs) s h = ground (arith, glob_match_slash gs cs s h)
glob_match_slash (literal a ∷ gs) [] s h = cc
glob_match_slash (literal a ∷ gs) (c ∷ cs) s h = ground (arith, glob_match_slash gs cs)
glob_match_slash (set n body ∷ gs) [] s h = cc
glob_match_slash (set n body ∷ gs) (c ∷ cs) s h = ground (arith, glob_match_slash gs cs)

text_eq_lem : (s t : Text) → glob_match (map literal s) t ≡ text_eq t s
unfolding glob_match
text_eq_lem [] [] = refl
text_eq_lem [] (c ∷ cs) = refl
text_eq_lem (a ∷ as') [] = refl
text_eq_lem (a ∷ as') (c ∷ cs) = ground (arith, text_eq_lem as' cs)

star_all : (t : Text) → anywhere (glob_match []) t ≡ true
unfolding anywhere glob_match
star_all [] = refl
star_all (c ∷ cs) = star_all cs

prefix_lem : (s t : Text) → glob_match (map literal s ++ star ∷ []) t ≡ starts_with s t
unfolding glob_match starts_with
prefix_lem [] t = star_all t
prefix_lem (a ∷ as') [] = refl
prefix_lem (a ∷ as') (c ∷ cs) = ground (arith, prefix_lem as' cs)

abbrev pub has_backslash : Text → Bool
has_backslash t = any (λ c. c == b'\\') t

slashed_id : (t : Text) → has_backslash t ≡ false → map (λ c. if c == b'\\' then b'/' else c) t ≡ t
slashed_id [] h = refl
slashed_id (c ∷ cs) h = ground (arith, slashed_id cs)

starts_with_slash :
    (p t : Text) → has_slash p ≡ true → has_slash t ≡ false → starts_with p t ≡ false
unfolding starts_with
starts_with_slash [] t h k = cc
starts_with_slash (p ∷ ps) [] h k = refl
starts_with_slash (p ∷ ps) (c ∷ cs) h k = ground (arith, starts_with_slash ps cs)

normalized_plain : (t : Text) → has_slash t ≡ false → has_backslash t ≡ false → normalized t ≡ t
unfolding normalized
normalized_plain t h k = rw (slashed_id t k) (rw (starts_with_slash (codes "./") t refl h))

no_match :
    (gs : List Glob) (t : Text)
    → any is_slash gs ≡ true
    → has_slash t ≡ false
    → glob_match gs t ≡ false
no_match gs t s h = elim (Bool-cases (glob_match gs t)) [
  | inl e ↦ cc (glob_match_slash gs t s e)
  | inr e ↦ e
]

fnmatch_slash :
    (pattern t : Text)
    → any is_slash (globs pattern) ≡ true
    → has_slash t ≡ false
    → fnmatch t pattern ≡ false
unfolding fnmatch
fnmatch_slash pattern t s h = no_match (globs pattern) t s h

fnmatch_env : (t : Text) → fnmatch t (codes ".env") ≡ text_eq t (codes ".env")
unfolding fnmatch
fnmatch_env t = text_eq_lem (codes ".env") t

fnmatch_env_dot : (t : Text) → fnmatch t (codes ".env.*") ≡ starts_with (codes ".env.") t
unfolding fnmatch
fnmatch_env_dot t = prefix_lem (codes ".env.") t

no_slashed :
    (t : Text)
    → has_slash t ≡ false
    → (fnmatch t (codes ".git/**") ≡ false)
      × (fnmatch t (codes "**/*.pem") ≡ false)
      × (fnmatch t (codes "**/*.key") ≡ false)
      × (fnmatch t (codes "**/id_rsa") ≡ false)
      × (fnmatch t (codes "**/id_ed25519") ≡ false)
unfolding globs
no_slashed t h = (
  fnmatch_slash (codes ".git/**") t refl h,
  fnmatch_slash (codes "**/*.pem") t refl h,
  fnmatch_slash (codes "**/*.key") t refl h,
  fnmatch_slash (codes "**/id_rsa") t refl h,
  fnmatch_slash (codes "**/id_ed25519") t refl h,
)

-- The default patterns without a slash are `.env` and `.env.*`.
first_match_plain :
    (t : Text)
    → has_slash t ≡ false
    → first_match default_forbidden_patterns t ≡ (
        if text_eq t (codes ".env")
        then some (codes ".env")
        else if starts_with (codes ".env.") t
        then some (codes ".env.*")
        else none)
unfolding first_match default_forbidden_patterns
first_match_plain t h =
    let (git, pem, key, rsa, ed) = no_slashed t h in
    rw (git, fnmatch_env t, fnmatch_env_dot t, pem, key, rsa, ed)

unsafe_plain :
    (t : Text)
    → has_slash t ≡ false
    → is_unsafe t ≡ (text_eq t [] || text_eq t (codes ".") || text_eq t (codes ".."))
unfolding is_unsafe
unsafe_plain t h =
    rw (starts_with_slash (codes "../") t refl h)
      (or_false (text_eq t []) (text_eq t (codes ".")) (text_eq t (codes "..")))
  where
    or_false : (a b c : Bool) → (a || b || c || false) ≡ (a || b || c)
    or_false true b c = refl
    or_false false true c = refl
    or_false false false true = refl
    or_false false false false = refl

-- Of the names with neither a slash nor a backslash, the default policy accepts all but the empty
-- name, `.`, `..`, `.env` and those that begin with `.env.`; among the accepted are `server.pem`,
-- `tls.key` and `id_rsa`.
pub validate_path-root :
    (name : Text)
    → has_slash name ≡ false
    → has_backslash name ≡ false
    → (validate_path default_forbidden_patterns name ≡ ok tt) ↔ (
        (text_eq name [] || text_eq name (codes ".") || text_eq name (codes "..") ≡ false)
        × (text_eq name (codes ".env") ≡ false)
        × (starts_with (codes ".env.") name ≡ false))
unfolding validate_path
validate_path-root name h k =
    rw (normalized_plain name h k, unsafe_plain name h, first_match_plain name h)
      (accepts (text_eq name [] || text_eq name (codes ".") || text_eq name (codes ".."))
        (text_eq name (codes ".env")) (starts_with (codes ".env.") name))
  where
    accepts :
        (u e d : Bool)
        → ((if u
              then err (unsafe_path name)
              else elim (if e
                    then some (codes ".env")
                    else if d
                    then some (codes ".env.*")
                    else none)
                  as (λ (o : Option Text). Result PatchPolicyViolation (Unit {0})) [
                    | some p ↦ err (forbidden_path name p)
                    | none ↦ ok tt
                  ])
            ≡ ok tt)
          ↔ ((u ≡ false) × (e ≡ false) × (d ≡ false))
    accepts true e d = (λ x. cc, λ x. cc)
    accepts false true d = (λ x. cc, λ x. cc)
    accepts false false true = (λ x. cc, λ x. cc)
    accepts false false false = (λ x. (refl, refl, refl), λ x. refl)

star_star : (t : Text) → anywhere (glob_match (star ∷ [])) t ≡ true
unfolding anywhere glob_match
star_star [] = refl
star_star (c ∷ cs) = rw (star_all cs)

below_lem : (s t : Text) → glob_match (map literal s ++ star ∷ star ∷ []) t ≡ starts_with s t
unfolding glob_match starts_with
below_lem [] t = star_star t
below_lem (a ∷ as') [] = refl
below_lem (a ∷ as') (c ∷ cs) = ground (arith, below_lem as' cs)

fnmatch_git : (t : Text) → fnmatch t (codes ".git/**") ≡ starts_with (codes ".git/") t
unfolding fnmatch
fnmatch_git t = below_lem (codes ".git/") t

-- A name that begins with `.git/` is not one of the unsafe ones.
is_unsafe_git : (t : Text) → starts_with (codes ".git/") t ≡ true → is_unsafe t ≡ false
unfolding is_unsafe starts_with
is_unsafe_git [] h = cc
is_unsafe_git (a ∷ []) h = ground (arith, h)
is_unsafe_git (a ∷ b ∷ cs) h = ground (arith, h)

abbrev pub git_refusal : Text → Result PatchPolicyViolation (Unit {0})
git_refusal path = err (forbidden_path path (codes ".git/**"))

abbrev other_patterns : List Text
other_patterns =
    codes ".env"
    ∷ codes ".env.*"
    ∷ codes "**/*.pem"
    ∷ codes "**/*.key"
    ∷ codes "**/id_rsa"
    ∷ codes "**/id_ed25519"
    ∷ []

first_match-ne :
    (q p t : Text) (patterns : List Text)
    → q ≢ p
    → first_match patterns t ≢ some p
    → first_match (q ∷ patterns) t ≢ some p
unfolding first_match
first_match-ne q p t patterns n m h = elim (Bool-cases (fnmatch t q)) [
  | inl e ↦ n (some_same (rw (e, first_match) at h))
  | inr e ↦ m (rw (e, first_match) at h)
]
  where
    some_same : {x y : Text} → some x ≡ some y → x ≡ y
    some_same k = cc

first_match-other : (t : Text) → first_match other_patterns t ≢ some (codes ".git/**")
unfolding first_match
first_match-other t =
    let git = codes ".git/**" in
    first_match-ne (codes ".env") git t
      (codes ".env.*"
        ∷ codes "**/*.pem"
        ∷ codes "**/*.key"
        ∷ codes "**/id_rsa"
        ∷ codes "**/id_ed25519"
        ∷ [])
      (λ e. cc)
      (first_match-ne (codes ".env.*") git t
        (codes "**/*.pem" ∷ codes "**/*.key" ∷ codes "**/id_rsa" ∷ codes "**/id_ed25519" ∷ [])
        (λ e. cc)
        (first_match-ne (codes "**/*.pem") git t
          (codes "**/*.key" ∷ codes "**/id_rsa" ∷ codes "**/id_ed25519" ∷ []) (λ e. cc)
          (first_match-ne (codes "**/*.key") git t (codes "**/id_rsa" ∷ codes "**/id_ed25519" ∷ [])
            (λ e. cc)
            (first_match-ne (codes "**/id_rsa") git t (codes "**/id_ed25519" ∷ []) (λ e. cc)
              (first_match-ne (codes "**/id_ed25519") git t ([]) (λ e. cc) (λ e. cc))))))

refused_as_git :
    (path : Text) (unsafe git : Bool) (rest : Option Text)
    → (git ≡ true → unsafe ≡ false)
    → rest ≢ some (codes ".git/**")
    → ((if unsafe
          then err (unsafe_path path)
          else elim (if git then some (codes ".git/**") else rest)
              as (λ (o : Option Text). Result PatchPolicyViolation (Unit {0})) [
                | some p ↦ err (forbidden_path path p)
                | none ↦ ok tt
              ])
        ≡ git_refusal path)
      ↔ (git ≡ true)
refused_as_git path true true rest h k = (λ e. refl, λ e. absurd (let f = h refl in cc))
refused_as_git path true false rest h k = (λ e. cc, λ e. cc)
refused_as_git path false true rest h k = (λ e. refl, λ e. refl)
refused_as_git path false false none h k = (λ e. cc, λ e. cc)
refused_as_git path false false (some p) h k = (λ e. absurd (k (ap some (same e))), λ e. cc)
  where
    same :
        ◌≡◌ {A = Result PatchPolicyViolation (Unit {0})}
          (err (forbidden_path path p))
          (git_refusal path)
        → p ≡ codes ".git/**"
    same e = cc

-- The default policy refuses a path as one below `.git` exactly if the path as it is written begins
-- with `.git/`, once its backslashes are made slashes and one leading `./` is dropped: the parts `.`
-- and `..` further on, and doubled slashes, are not resolved, so `src/../.git/config` is not refused
-- so.
pub validate_path-git :
    (path : Text)
    → (validate_path default_forbidden_patterns path ≡ git_refusal path)
      ↔ (starts_with (codes ".git/") (normalized path) ≡ true)
unfolding validate_path default_forbidden_patterns
validate_path-git path =
    rw (fnmatch_git (normalized path), first_match)
      (refused_as_git path (is_unsafe (normalized path))
        (starts_with (codes ".git/") (normalized path))
        (first_match other_patterns (normalized path)) (is_unsafe_git (normalized path))
        (first_match-other (normalized path)))
