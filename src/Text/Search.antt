-- ===== src/Text/Search.antt =====
-- What a match of `startswith`, `in` and `replace(…, 1)` says of the text.
use shadow_forge.Base.{
  ◌≡◌, refl, true, [], ◌∷◌, ◌++◌, arith, Bool-cases, inl, inr, ap, sym, length, drop,
}
use mathlib.Core.List.{append-nil}
use shadow_forge.Text.{Text, starts_with, contains, replace_first}

pub starts_with-drop : (p t : Text) → starts_with p t ≡ true → t ≡ p ++ drop (length p) t
unfolding starts_with
starts_with-drop [] t h = refl
starts_with-drop (p ∷ ps) [] h = cc
starts_with-drop (p ∷ ps) (c ∷ cs) h = ground (arith, starts_with-drop ps cs)

pub starts_with-append : (p t : Text) → starts_with p (p ++ t) ≡ true
unfolding starts_with
starts_with-append [] t = refl
starts_with-append (p ∷ ps) t = ground (arith, starts_with-append ps t)

-- The place of the first match.
pub record Split (sub new t : Text) : Type 0 where
  pub before : Text
  pub behind : Text
  pub whole : t ≡ before ++ (sub ++ behind)
  pub replaced : replace_first sub new t ≡ before ++ (new ++ behind)

pub contains-Split : (sub new t : Text) → contains sub t ≡ true → Split sub new t
unfolding contains replace_first
contains-Split [] new [] h = record {
  before = [];
  behind = [];
  whole = refl;
  replaced = sym (append-nil new);
}
contains-Split (s ∷ ss) new [] h = cc
contains-Split sub new (c ∷ cs) h = elim (Bool-cases (starts_with sub (c ∷ cs))) [
  | inl e ↦ record {
    before = [];
    behind = drop (length sub) (c ∷ cs);
    whole = starts_with-drop sub (c ∷ cs) e;
    replaced = rw e;
  }
  | inr e ↦
      let rest = contains-Split sub new cs (rw e at h) in
      record {
        before = c ∷ rest.before;
        behind = rest.behind;
        whole = ap (λ r. c ∷ r) rest.whole;
        replaced = rw e (ap (λ r. c ∷ r) rest.replaced);
      }
]
