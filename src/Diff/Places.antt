-- ===== src/Diff/Places.antt =====
-- Where a hunk goes (patch/engine.py, `apply_hunk_to_text`).
use shadow_forge.Base.{
  ℕ, zero, suc, ◌≤◌, ◌≡◌, refl, ◌∙◌, sym, ap, Bool, true, false, not, ◌&&◌, List, [], ◌∷◌, ◌++◌,
  Option, none, some, arith, ltb, if◌then◌else◌, length, map, All, All-append, Bool-cases, ◌==◌,
  Option-cases, inl, inr, ◌⊎◌,
}
use shadow_forge.Text.{Text, newline, contains, replace_first, text_eq}
use shadow_forge.Text.Search.{contains-Split}
use shadow_forge.Diff.{rstrip_of, hunk_to_before_after, line_text}
use shadow_forge.Diff.Hunk.{
  Hunk, Parts, parts_of, down_from, sizes_of, sizes, is_unsafe_drop, partial_hunk, try_sizes,
  apply_partial_hunk, apply_relative, not_empty, apply_flexible, apply_hunk_to_text,
}

-- One occurrence of a text in the content is exchanged, and nothing else changes.
pub record Placed (before after content result : Text) : Type 0 where
  pub ahead : Text
  pub behind : Text
  pub found : content ≡ ahead ++ (before ++ behind)
  pub made : result ≡ ahead ++ (after ++ behind)

contains-Placed :
    (before after content result : Text)
    → contains before content ≡ true
    → result ≡ replace_first before after content
    → Placed before after content result
contains-Placed before after content result c r =
    let s = contains-Split before after content c in
    record { ahead = s.before; behind = s.behind; found = s.whole; made = r ∙ s.replaced }

-- How much context is kept ahead of the changes and behind them.
abbrev pub IsWithin : Parts → ℕ × ℕ → Type 0
IsWithin parts (p, f) = (p ≤ length parts.preceding) × (f ≤ length parts.following)

-- A place of the changes with the given context.
abbrev pub IsPlacedWith : Parts → Text → Text → ℕ × ℕ → Type 0
IsPlacedWith parts content result s =
    let (before, after) = hunk_to_before_after (partial_hunk parts s) in
    IsWithin parts s × Placed before after content result

down_from_le : (n m : ℕ) → n ≤ m → All (λ p. p ≤ m) (down_from n)
down_from_le zero m h = (h, tt)
down_from_le (suc n) m h = (h, down_from_le n m (ground arith))

some_same : {x y : Text} → some x ≡ some y → x ≡ y
some_same h = ap (λ o. elim o [ none ↦ [] | some t ↦ t ]) h

-- A size is passed over, or it gives the result.
chosen :
    {x result : Text} {rest : Option Text} (unsafe big found : Bool)
    → (if unsafe then rest else if big && found then some x else rest) ≡ some result
    → (rest ≡ some result) ⊎ ((found ≡ true) × (x ≡ result))
chosen true big found h = inl h
chosen false true true h = inr (refl, some_same h)
chosen false true false h = inl h
chosen false false found h = inl h

module _ (parts : Parts) where
  sizes_of-IsWithin :
      (total : ℕ) (ps : List ℕ)
      → All (λ p. p ≤ length parts.preceding) ps
      → All (IsWithin parts) (sizes_of total (length parts.preceding) (length parts.following) ps)
  unfolding sizes_of
  sizes_of-IsWithin total [] h = tt
  sizes_of-IsWithin total (p ∷ ps) h = ground (arith, sizes_of-IsWithin total ps)

  sizes-IsWithin :
      (us : List ℕ)
      → All (IsWithin parts) (sizes (length parts.preceding) (length parts.following) us)
  unfolding sizes
  sizes-IsWithin [] = tt
  sizes-IsWithin (u ∷ us) =
      All-append (IsWithin parts) _ _ (sizes_of-IsWithin u _ (down_from_le _ _ (omega arith)))
        (sizes-IsWithin us)

  try_sizes-IsPlacedWith :
      (hunk : Hunk) (content result : Text) (ss : List (ℕ × ℕ))
      → All (IsWithin parts) ss
      → try_sizes hunk parts content ss ≡ some result
      → (s : ℕ × ℕ) × IsPlacedWith parts content result s
  unfolding try_sizes
  try_sizes-IsPlacedWith hunk content result [] w h = cc
  try_sizes-IsPlacedWith hunk content result (s ∷ ss) w h =
      elim (chosen (is_unsafe_drop hunk parts content s) _
        (contains (hunk_to_before_after (partial_hunk parts s)).0 content) h) [
          | inl later ↦ try_sizes-IsPlacedWith hunk content result ss w.1 later
          | inr (found, made) ↦ (s, (w.0, contains-Placed _ _ content result found (sym made)))
        ]

-- The old and the new lines of a hunk.
abbrev pub old_text : Hunk → Text
old_text hunk = (hunk_to_before_after (map line_text hunk)).0

abbrev pub new_text : Hunk → Text
new_text hunk = (hunk_to_before_after (map line_text hunk)).1

-- The newlines at the end taken off.
abbrev pub cut : Text → Text
cut t = rstrip_of (λ c. c == newline) t

-- How a hunk can be applied.
pub data IsAppliedAs (content : Text) (hunk : Hunk) (result : Text) : Type 0 where
  exact : Placed (old_text hunk) (new_text hunk) content result → IsAppliedAs content hunk result
  trimmed :
      contains (old_text hunk) content ≡ false
      → Placed (cut (old_text hunk)) (cut (new_text hunk)) content result
      → IsAppliedAs content hunk result
  relative :
      contains (old_text hunk) content ≡ false
      → apply_relative (old_text hunk) (new_text hunk) content ≡ some result
      → IsAppliedAs content hunk result
  in_context :
      contains (old_text hunk) content ≡ false
      → (s : ℕ × ℕ) → IsPlacedWith (parts_of hunk) content result s
      → IsAppliedAs content hunk result

apply_partial_hunk-IsPlacedWith :
    (content : Text) (hunk : Hunk) (result : Text)
    → apply_partial_hunk content hunk ≡ some result
    → (s : ℕ × ℕ) × IsPlacedWith (parts_of hunk) content result s
unfolding apply_partial_hunk
apply_partial_hunk-IsPlacedWith content hunk result h =
    try_sizes-IsPlacedWith (parts_of hunk) hunk content result _ (sizes-IsWithin (parts_of hunk) _)
      h

not_empty-some : {o : Option Text} {t : Text} → not_empty o ≡ some t → o ≡ some t
not_empty-some {o = none} h = cc
not_empty-some {o = some []} h = cc
not_empty-some {o = some (c ∷ cs)} h = h

apply_flexible-IsAppliedAs :
    (content : Text) (hunk : Hunk) (result : Text)
    → let (before, after) = hunk_to_before_after (map line_text hunk) in
      contains before content ≡ false
      → apply_flexible before after content hunk ≡ some result
      → IsAppliedAs content hunk result
unfolding apply_flexible
apply_flexible-IsAppliedAs content hunk result c h =
    let (before, after) = hunk_to_before_after (map line_text hunk) in
    elim (Option-cases (apply_relative before after content)) [
      | inl e ↦
          let (s, placed) =
            apply_partial_hunk-IsPlacedWith content hunk result
              (not_empty-some (rw (e, apply_flexible) at h)) in
          in_context c s placed
      | inr (t, e) ↦ relative c (e ∙ rw (e, apply_flexible) at h)
    ]

-- If a hunk is applied, then in one of four ways. One occurrence of its old lines is exchanged
-- for its new ones; or, where the old lines do not occur exactly, one occurrence of them without
-- the newlines at the end is exchanged for the new ones without these; or one of the changes with
-- part of its context, never more than the hunk has; or the result is that of the strategy by
-- relative indentation.
pub apply_hunk_to_text-IsAppliedAs :
    (content : Text) (hunk : Hunk) (result : Text)
    → apply_hunk_to_text content hunk ≡ some result
    → IsAppliedAs content hunk result
unfolding apply_hunk_to_text
apply_hunk_to_text-IsAppliedAs content hunk result h =
    let (before, after) = hunk_to_before_after (map line_text hunk) in
    elim (Bool-cases (contains before content)) [
      | inl e ↦
          exact (
            contains-Placed _ _ content result e
              (sym (some_same (rw (e, apply_hunk_to_text) at h))))
      | inr e ↦
          elim (Bool-cases (
            ltb 0 (length (cut before))
            && not (text_eq (cut before) before)
            && contains (cut before) content)) [
              | inl t ↦ trimmed e (
                  contains-Placed _ _ content result (ground arith)
                    (sym (some_same (rw (e, t, apply_hunk_to_text) at h))))
              | inr t ↦
                  apply_flexible-IsAppliedAs content hunk result e
                    (rw (e, t, apply_hunk_to_text) at h)
            ]
    ]
