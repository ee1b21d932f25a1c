-- ===== src/Text/Lines.antt =====
-- Splitting a text into lines and joining lines again.
use shadow_forge.Base.{
  ℕ, ◌≡◌, refl, ap, ◌∙◌, ◌&&◌, ◌⊎◌, Bool, false, List, [], ◌∷◌, ◌++◌, arith, ◌==◌, All, All-append,
  Bool-cases, inl, inr,
}
use shadow_forge.Text.{
  Text, newline, carriage_return, is_break, one_newline, push, split_newlines, splitlines, join,
}

-- No line boundary stands in the line.
abbrev pub IsLine : Text → Type 0
IsLine l = All (λ c. is_break c ≡ false) l

abbrev pub AreLines : List Text → Type 0
AreLines ls = All IsLine ls

-- `"\n".join` loses one empty line at the end, since `splitlines` knows none there.
abbrev pub without_last_empty : List Text → List Text
without_last_empty [] = []
without_last_empty ([] ∷ []) = []
without_last_empty ((c ∷ cs) ∷ []) = (c ∷ cs) ∷ []
without_last_empty (l ∷ m ∷ ls) = l ∷ without_last_empty (m ∷ ls)

-- Only newlines are boundaries.
abbrev IsPlain : Text → Type 0
IsPlain t = All (λ c. (is_break c ≡ false) ⊎ (c ≡ newline)) t

IsPlain-line : (l : Text) → IsLine l → IsPlain l
IsPlain-line [] h = tt
IsPlain-line (c ∷ cs) h = (inl h.0, IsPlain-line cs h.1)

join-IsPlain : (ls : List Text) → AreLines ls → IsPlain (join ls)
unfolding join
join-IsPlain [] h = tt
join-IsPlain (l ∷ []) h = IsPlain-line l h.0
join-IsPlain (l ∷ m ∷ ls) h =
    All-append _ l _ (IsPlain-line l h.0) (inr refl, join-IsPlain (m ∷ ls) h.1)

not_return : (c : ℕ) → (is_break c ≡ false) ⊎ (c ≡ newline) → (c == carriage_return) ≡ false
unfolding is_break
not_return c h = ground arith

-- Splitting at newlines.
not_newline : (c : ℕ) → is_break c ≡ false → (c == newline) ≡ false
unfolding is_break
not_newline c h = ground arith

one_newline-plain : (t : Text) → IsPlain t → one_newline false t ≡ t
unfolding one_newline
one_newline-plain [] h = refl
one_newline-plain (c ∷ cs) h = ground (arith, not_return c h.0, one_newline-plain cs h.1)

split_newlines-line : (l : Text) → IsLine l → split_newlines l ≡ without_last_empty (l ∷ [])
unfolding split_newlines
split_newlines-line [] h = refl
split_newlines-line (c ∷ []) h = ground (arith, not_newline c h.0)
split_newlines-line (c ∷ d ∷ cs) h =
    ground (arith, not_newline c h.0, split_newlines-line (d ∷ cs) h.1)

split_newlines-append :
    (l rest : Text) → IsLine l → split_newlines (l ++ (newline ∷ rest)) ≡ l ∷ split_newlines rest
unfolding split_newlines
split_newlines-append [] rest h = refl
split_newlines-append (c ∷ cs) rest h =
    ground (arith, not_newline c h.0, split_newlines-append cs rest h.1)

split_newlines-join :
    (ls : List Text) → AreLines ls → split_newlines (join ls) ≡ without_last_empty ls
unfolding join
split_newlines-join [] h = unfold split_newlines in refl
split_newlines-join (l ∷ []) h = split_newlines-line l h.0
split_newlines-join (l ∷ m ∷ ls) h =
    split_newlines-append l (join (m ∷ ls)) h.0 ∙ ap (λ r. l ∷ r) (split_newlines-join (m ∷ ls) h.1)

-- Lines that are joined by newlines and split again come back, but for one empty line at the end.
pub splitlines-join : (ls : List Text) → AreLines ls → splitlines (join ls) ≡ without_last_empty ls
unfolding splitlines
splitlines-join ls h =
    ap split_newlines (one_newline-plain (join ls) (join-IsPlain ls h)) ∙ split_newlines-join ls h

IsPlain-one_newline : (b : Bool) (t : Text) → IsPlain (one_newline b t)
unfolding one_newline
IsPlain-one_newline b [] = tt
IsPlain-one_newline b (c ∷ cs) = elim (Bool-cases (b && (c == newline))) [
  | inl e ↦ rw e (IsPlain-one_newline (c == carriage_return) cs)
  | inr e ↦ rw e (elim (Bool-cases (is_break c)) [
    | inl f ↦ rw f (inr refl, IsPlain-one_newline (c == carriage_return) cs)
    | inr f ↦ rw f (inl f, IsPlain-one_newline (c == carriage_return) cs)
  ])
]

push-AreLines : (c : ℕ) (ls : List Text) → is_break c ≡ false → AreLines ls → AreLines (push c ls)
push-AreLines c [] e h = ((e, tt), tt)
push-AreLines c (l ∷ ls) e h = ((e, h.0), h.1)

AreLines-split_newlines : (t : Text) → IsPlain t → AreLines (split_newlines t)
unfolding split_newlines
AreLines-split_newlines [] h = tt
AreLines-split_newlines (c ∷ cs) h = elim (Bool-cases (c == newline)) [
  | inl e ↦ rw e (tt, AreLines-split_newlines cs h.1)
  | inr e ↦ rw e (push-AreLines c _ (ground (arith, h.0)) (AreLines-split_newlines cs h.1))
]

-- What `splitlines` returns are lines.
pub splitlines-AreLines : (t : Text) → AreLines (splitlines t)
unfolding splitlines
splitlines-AreLines t = AreLines-split_newlines _ (IsPlain-one_newline false t)
