-- ===== src/Patch/Splice.antt =====
-- Replaced and inserted lines: the two range routines and the two insertions of patch/engine.py.
use mathlib.Core.Option.{map}
use mathlib.Core.Path.{subst}
use shadow_forge.Base.{
  ℕ, zero, suc, ltb, length, ◌+◌, ◌≡◌, Bool, true, false, ◌&&◌, List, [], ◌∷◌, ◌++◌, Option, none,
  some, Result, ok, err, All-append, take, drop, head?, if◌then◌else◌, ap,
}
use shadow_forge.Text.{Text, splitlines, join}
use shadow_forge.Text.Lines.{AreLines, IsLine, splitlines-AreLines}
use shadow_forge.Patch.{RangeAnchor, PatchFailureCode, anchor_ambiguous, python_unsafe_insert}
use shadow_forge.Patch.Simulate.{
  simulate_range, simulate_insert, missing_symbol_code, signature_at, find_symbol_indices,
}
use shadow_forge.Patch.Apply.{apply_range, apply_insert}

take-AreLines : (n : ℕ) (ls : List Text) → AreLines ls → AreLines (take n ls)
take-AreLines zero ls h = tt
take-AreLines (suc n) [] h = tt
take-AreLines (suc n) (l ∷ ls) h = (h.0, take-AreLines n ls h.1)

drop-AreLines : (n : ℕ) (ls : List Text) → AreLines ls → AreLines (drop n ls)
drop-AreLines zero ls h = h
drop-AreLines (suc n) [] h = tt
drop-AreLines (suc n) (l ∷ ls) h = drop-AreLines n ls h.1

-- Lines put in place of, or between, the lines of a text.
spliced-AreLines :
    (i j : ℕ) (content : Text) (lines : List Text)
    → AreLines lines
    → AreLines (take i lines ++ (splitlines content ++ drop j lines))
spliced-AreLines i j content lines h =
    All-append IsLine (take i lines) _ (take-AreLines i lines h) (
      All-append IsLine (splitlines content) _ (splitlines-AreLines content)
        (drop-AreLines j lines h))

if_agree :
    {A B : Type 0} (b : Bool) (x : A) (f : A → B) (P : A → Type 0) (updated : A)
    → (if b then none else some x) ≡ some updated
    → P x
    → ((if b then none else some (f x)) ≡ some (f updated)) × P updated
if_agree true x f P updated e p = cc
if_agree false x f P updated e p = (ap (λ o. map f o) e, subst P (cc) p)

-- The application of a range writes the simulated lines, joined.
pub apply_range-simulate :
    (anchor : RangeAnchor) (content : Text) (lines updated : List Text)
    → simulate_range anchor content lines ≡ some updated
    → AreLines lines
    → (apply_range anchor content lines ≡ some (join updated)) × AreLines updated
unfolding apply_range simulate_range
apply_range-simulate anchor content lines updated e h =
    if_agree _ _ join AreLines updated e (spliced-AreLines _ _ content lines h)

passed :
    {E A : Type 0} (b c : Bool) (x y : E) (v u : A)
    → (if b then err x else if c then err y else ok v) ≡ ok u
    → v ≡ u
passed true c x y v u e = cc
passed false true x y v u e = cc
passed false false x y v u e = cc

-- So does the application of an insertion.
pub apply_insert-simulate :
    (is_py mutated : Bool) (original : Option (List Text)) (symbol content : Text)
    (lines updated : List Text)
    → simulate_insert is_py mutated original symbol content lines ≡ ok updated
    → AreLines lines
    → (apply_insert symbol content lines ≡ some (join updated)) × AreLines updated
unfolding apply_insert simulate_insert
apply_insert-simulate is_py mutated original symbol content lines updated e h =
    found (find_symbol_indices lines symbol) e
  where
    spliced : ℕ → List Text
    spliced i = take (i + 1) lines ++ (splitlines content ++ drop (i + 1) lines)

    found :
        (is : List ℕ)
        → (elim is as (λ _. Result PatchFailureCode (List Text)) [
          | [] ↦ err (missing_symbol_code mutated original symbol)
          | i ∷ more ↦
              if ltb 0 (length more)
              then err anchor_ambiguous
              else if is_py && signature_at lines i
              then err python_unsafe_insert
              else ok (spliced i)
        ])
          ≡ ok updated
        → ((elim (head? is) as (λ _. Option Text) [
          | none ↦ none
          | some i ↦ some (join (spliced i))
        ])
            ≡ some (join updated))
          × AreLines updated
    found [] e = cc
    found (i ∷ more) e =
        let same =
          passed (ltb 0 (length more)) (is_py && signature_at lines i) anchor_ambiguous
            python_unsafe_insert (spliced i) updated e in
        (
          ap (λ ls. some (join ls)) same,
          subst AreLines same (spliced-AreLines (i + 1) (i + 1) content lines h),
        )
