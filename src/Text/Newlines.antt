-- ===== src/Text/Newlines.antt =====
-- What reading a file in text mode makes of its newlines.
use shadow_forge.Base.{
  ℕ, zero, suc, ◌≡◌, refl, inl, inr, Bool, false, List, [], ◌∷◌, arith, any, any-append, drop,
  length, Bool-cases, ◌==◌,
}
use shadow_forge.Text.{
  Text, newline, carriage_return, is_break, one_newline, splitlines, universal, read_text,
  starts_with, replace_first, join,
}
use shadow_forge.Text.Lines.{IsLine, AreLines}

-- A carriage return stands in the text.
abbrev pub has_return : Text → Bool
has_return t = any (λ c. c == carriage_return) t

universal-has_return : (b : Bool) (t : Text) → has_return (universal b t) ≡ false
unfolding universal
universal-has_return b [] = refl
universal-has_return b (c ∷ cs) = ground (arith, universal-has_return (c == carriage_return) cs)

-- No carriage return is read.
pub read_text-has_return : (t : Text) → has_return (read_text t) ≡ false
unfolding read_text
read_text-has_return t = universal-has_return false t

universal_plain : (t : Text) → has_return t ≡ false → universal false t ≡ t
unfolding universal
universal_plain [] h = refl
universal_plain (c ∷ cs) h = ground (arith, h, universal_plain cs)

-- A text without carriage returns is read as it was written.
pub read_text_plain : (t : Text) → has_return t ≡ false → read_text t ≡ t
unfolding read_text
read_text_plain t h = universal_plain t h

one_newline-universal : (b : Bool) (t : Text) → one_newline false (universal b t) ≡ one_newline b t
unfolding universal one_newline is_break
one_newline-universal b [] = refl
one_newline-universal b (c ∷ cs) = ground (arith, one_newline-universal (c == carriage_return) cs)

-- The lines of a file are those of the text that is read of it.
pub splitlines-read_text : (t : Text) → splitlines (read_text t) ≡ splitlines t
unfolding splitlines read_text
splitlines-read_text t = rw (one_newline-universal false t)

drop-has_return : (n : ℕ) (t : Text) → has_return t ≡ false → has_return (drop n t) ≡ false
drop-has_return zero t h = h
drop-has_return (suc n) [] h = refl
drop-has_return (suc n) (c ∷ cs) h = drop-has_return n cs (ground (arith, h))

pub replace_first-has_return :
    (old new t : Text)
    → has_return new ≡ false
    → has_return t ≡ false
    → has_return (replace_first old new t) ≡ false
unfolding replace_first
replace_first-has_return old new [] n h = ground (arith, n)
replace_first-has_return old new (c ∷ cs) n h = elim (Bool-cases (starts_with old (c ∷ cs))) [
  | inl e ↦
      rw
        (
          e,
          any-append (λ x. x == carriage_return) new (drop (length old) (c ∷ cs)),
          n,
          drop-has_return (length old) (c ∷ cs) h,
        )
        refl
  | inr e ↦ rw e (ground (arith, h, replace_first-has_return old new cs n (ground (arith, h))))
]

IsLine-has_return : (l : Text) → IsLine l → has_return l ≡ false
unfolding is_break
IsLine-has_return [] h = refl
IsLine-has_return (c ∷ cs) h = ground (arith, h.0, IsLine-has_return cs h.1)

-- Lines that are joined hold no carriage return.
pub join-has_return : (ls : List Text) → AreLines ls → has_return (join ls) ≡ false
unfolding join
join-has_return [] h = refl
join-has_return (l ∷ []) h = IsLine-has_return l h.0
join-has_return (l ∷ m ∷ ls) h =
    rw
      (
        any-append (λ x. x == carriage_return) l (newline ∷ join (m ∷ ls)),
        IsLine-has_return l h.0,
        join-has_return (m ∷ ls) h.1,
      )
      refl
