-- ===== src/Env/Paths.antt =====
-- `str(PurePosixPath(path))` and the parts of a path (env/manifest_match.py, `_normalize`).
use shadow_forge.Base.{
  ℕ, ◌≡◌, refl, ap, ◌∙◌, Bool, true, false, not, ◌||◌, List, [], ◌∷◌, ◌++◌, arith, ◌==◌,
  if◌then◌else◌, keep, All, Bool-cases, inl, inr,
}
use shadow_forge.Text.{Text, codes, starts_with, text_eq}
use shadow_forge.Env.{onto_part, split_slash, posix_parts, posix_root, join_slash, normalize}

-- No slash in the part.
abbrev IsSlashFree : Text → Type 0
IsSlashFree part = All (λ c. (c == b'/') ≡ false) part

abbrev counts : Text → Bool
counts part = not (text_eq part [] || text_eq part (codes "."))

onto_part-All :
    (c : ℕ) (parts : List Text)
    → (c == b'/') ≡ false
    → All IsSlashFree parts
    → All IsSlashFree (onto_part c parts)
onto_part-All c [] h a = ((h, tt), tt)
onto_part-All c (part ∷ others) h a = ((h, a.0), a.1)

split_slash-All : (path : Text) → All IsSlashFree (split_slash path)
unfolding split_slash
split_slash-All [] = (tt, tt)
split_slash-All (c ∷ cs) = elim (Bool-cases (c == b'/')) [
  | inl h ↦ rw h (tt, split_slash-All cs)
  | inr h ↦ rw h (onto_part-All c (split_slash cs) h (split_slash-All cs))
]

-- A part of a path: it holds no slash, and it counts.
abbrev IsPart : Text → Type 0
IsPart part = IsSlashFree part × (counts part ≡ true)

keep-All : (parts : List Text) → All IsSlashFree parts → All IsPart (keep counts parts)
keep-All [] a = tt
keep-All (part ∷ others) a = elim (Bool-cases (counts part)) [
  | inl h ↦ rw h ((a.0, h), keep-All others a.1)
  | inr h ↦ rw h (keep-All others a.1)
]

posix_parts-All : (path : Text) → All IsPart (posix_parts path)
unfolding posix_parts
posix_parts-All path = keep-All (split_slash path) (split_slash-All path)

split_slash-part : (part : Text) → IsSlashFree part → split_slash part ≡ part ∷ []
unfolding split_slash
split_slash-part [] a = refl
split_slash-part (c ∷ cs) a = rw (a.0, split_slash-part cs a.1)

split_slash-append :
    (part rest : Text)
    → IsSlashFree part
    → split_slash (part ++ (b'/' ∷ rest)) ≡ part ∷ split_slash rest
unfolding split_slash
split_slash-append [] rest a = refl
split_slash-append (c ∷ cs) rest a = rw (a.0, split_slash-append cs rest a.1)

-- Parts that are joined are found again.
posix_parts-join_slash :
    (parts : List Text) → All IsPart parts → posix_parts (join_slash parts) ≡ parts
unfolding posix_parts join_slash
posix_parts-join_slash [] a = refl
posix_parts-join_slash (part ∷ []) a = rw (split_slash-part part a.0.0, a.0.1)
posix_parts-join_slash (part ∷ next ∷ others) a =
    rw (split_slash-append part (join_slash (next ∷ others)) a.0.0, a.0.1)
      (ap (λ ps. part ∷ ps) (posix_parts-join_slash (next ∷ others) a.1))

posix_parts-slash : (path : Text) → posix_parts (b'/' ∷ path) ≡ posix_parts path
unfolding posix_parts split_slash
posix_parts-slash path = refl

-- Every root is one of three texts.
data IsRoot : Text → Type 0 where
  none_in_front : IsRoot []
  one_in_front : IsRoot (b'/' ∷ [])
  two_in_front : IsRoot (b'/' ∷ b'/' ∷ [])

posix_root-IsRoot : (path : Text) → IsRoot (posix_root path)
unfolding posix_root
posix_root-IsRoot path =
    choose (starts_with (codes "///") path) (starts_with (codes "//") path)
      (starts_with (codes "/") path)
  where
    choose :
        (a b d : Bool)
        → IsRoot (if a then codes "/" else if b then codes "//" else if d then codes "/" else [])
    choose true b d = one_in_front
    choose false true d = two_in_front
    choose false false true = one_in_front
    choose false false false = none_in_front

posix_parts-append :
    (root rest : Text) → IsRoot root → posix_parts (root ++ rest) ≡ posix_parts rest
unfolding posix_parts split_slash
posix_parts-append root rest none_in_front = refl
posix_parts-append root rest one_in_front = refl
posix_parts-append root rest two_in_front = refl

-- Behind a root that is no slash of its own the text keeps the root.
posix_root-append :
    (root rest : Text)
    → IsRoot root
    → starts_with (codes "/") rest ≡ false
    → posix_root (root ++ rest) ≡ root
unfolding posix_root starts_with
posix_root-append root [] none_in_front h = refl
posix_root-append root [] one_in_front h = refl
posix_root-append root [] two_in_front h = refl
posix_root-append root (c ∷ cs) none_in_front h = ground (arith, h)
posix_root-append root (c ∷ cs) one_in_front h = ground (arith, h)
posix_root-append root (c ∷ cs) two_in_front h = ground (arith, h)

join_slash-head :
    (parts : List Text) → All IsPart parts → starts_with (codes "/") (join_slash parts) ≡ false
unfolding join_slash starts_with
join_slash-head [] a = refl
join_slash-head ([] ∷ others) a = let h = a.0.1 in cc
join_slash-head ((c ∷ cs) ∷ []) a = let h = a.0.0.0 in ground arith
join_slash-head ((c ∷ cs) ∷ next ∷ others) a = let h = a.0.0.0 in ground arith

or_dot-same :
    (t : Text)
    → (posix_parts (if text_eq t [] then codes "." else t) ≡ posix_parts t)
      × (posix_root (if text_eq t [] then codes "." else t) ≡ posix_root t)
unfolding posix_parts split_slash posix_root starts_with
or_dot-same [] = (refl, refl)
or_dot-same (c ∷ cs) = (refl, refl)

-- A path that is normalized and read again has the parts and the root of the path as it was
-- written, so that normalizing it again changes nothing.
pub posix_parts-normalize :
    (path : Text)
    → (posix_parts (normalize path) ≡ posix_parts path)
      × (posix_root (normalize path) ≡ posix_root path)
      × (normalize (normalize path) ≡ normalize path)
unfolding normalize
posix_parts-normalize path = (parts, root, again)
  where
    whole : Text
    whole = posix_root path ++ join_slash (posix_parts path)

    plain : All IsPart (posix_parts path)
    plain = posix_parts-All path

    parts : posix_parts (normalize path) ≡ posix_parts path
    parts =
        (or_dot-same whole).0
        ∙ posix_parts-append (posix_root path) (join_slash (posix_parts path))
            (posix_root-IsRoot path)
        ∙ posix_parts-join_slash (posix_parts path) plain

    root : posix_root (normalize path) ≡ posix_root path
    root =
        (or_dot-same whole).1
        ∙ posix_root-append (posix_root path) (join_slash (posix_parts path))
            (posix_root-IsRoot path) (join_slash-head (posix_parts path) plain)

    again : normalize (normalize path) ≡ normalize path
    again = rw (parts, root)
