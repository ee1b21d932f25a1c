-- ===== src/Candidate/Selectors.antt =====
-- What is reported of a selector that is not found (patch/engine.py, `_missing_or_conflict_issue`
-- and `_find_symbol_offsets`).
use shadow_forge.Base.{
  ℕ, ◌+◌, ◌≡◌, refl, ◌↔◌, Bool, true, false, [], ◌∷◌, ◌++◌, some, arith, ltb, ◌==◌, length, All,
}
use shadow_forge.Text.{Text, codes, starts_with, contains}
use shadow_forge.Patch.{anchor_missing, order_conflict}
use shadow_forge.Candidate.{exact, contains_match, NodeSelector}
use shadow_forge.Candidate.Select.{places_from, find_symbol_offsets}
use shadow_forge.Candidate.Simulate.{missing_or_conflict}

no_backslash_place :
    (sub : Text) (i : ℕ) (t : Text)
    → All (λ c. (c == b'\\') ≡ false) t
    → places_from (b'\\' ∷ sub) 0 i t ≡ []
unfolding places_from starts_with
no_backslash_place sub i [] h = refl
no_backslash_place sub i (c ∷ cs) h = ground (arith, h.0, no_backslash_place sub (i + 1) cs h.1)

-- A selector of kind `exact` that is not found is reported as missing, never as an order
-- conflict, if the original source has no backslash, also where an earlier operation has changed
-- the file.
pub missing_or_conflict-exact :
    (selector : NodeSelector) (original : Text) (mutated : Bool)
    → selector.match_kind ≡ exact
    → All (λ c. (c == b'\\') ≡ false) original
    → missing_or_conflict selector (some original) mutated ≡ anchor_missing
unfolding missing_or_conflict find_symbol_offsets contains starts_with
missing_or_conflict-exact selector original mutated e h =
    ground (arith, no_backslash_place (codes "b" ++ (selector.value ++ codes "\\b")) 0 original h)

place_iff :
    (s : ℕ) (sub : Text) (i : ℕ) (t : Text)
    → ltb 0 (length (places_from (s ∷ sub) 0 i t)) ≡ contains (s ∷ sub) t
unfolding places_from contains starts_with
place_iff s sub i [] = refl
place_iff s sub i (c ∷ cs) = ground (arith, place_iff s sub (i + 1) cs)

-- A selector of kind `contains` with a value that is not empty is reported as an order conflict
-- exactly if the file was changed by an earlier operation and its original source contained the
-- value.
pub missing_or_conflict-contains :
    (selector : NodeSelector) (s : ℕ) (sub original : Text) (mutated : Bool)
    → selector.match_kind ≡ contains_match
    → selector.value ≡ s ∷ sub
    → (missing_or_conflict selector (some original) mutated ≡ order_conflict)
      ↔ ((mutated ≡ true) × (contains (s ∷ sub) original ≡ true))
unfolding missing_or_conflict find_symbol_offsets contains starts_with
missing_or_conflict-contains selector s sub [] mutated k v = ground arith
missing_or_conflict-contains selector s sub (c ∷ cs) mutated k v =
    ground (arith, place_iff s sub 0 (c ∷ cs))
