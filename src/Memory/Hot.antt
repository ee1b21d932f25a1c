-- ===== src/Memory/Hot.antt =====
-- What `_select_hot` keeps and what it evicts (memory/compactor.py).
use mathlib.Core.List.{reverse, append-nil, append_assoc, reverse-cons, reverse-reverse}
use shadow_forge.Base.{
  ℕ, ◌+◌, ◌-◌, ◌*◌, ◌≤◌, ◌≡◌, refl, sym, ap, ◌∙◌, ◌⊎◌, inl, inr, true, ◌&&◌, ◌||◌, List, [], ◌∷◌,
  ◌++◌, arith, ltb, leb, Bool-cases, length, take, length-append, length-take, length-drop,
}
use shadow_forge.Text.{Text}
use shadow_forge.Memory.{
  Message, estimate_tokens, history_tokens, truncate_to_tokens, is_turn_start, has_some, grow, trim,
  select_hot,
}

-- With a bound of at least two tokens, a truncated text is longer than four characters to the token
-- by no more than the mark between its two parts.
pub truncate_to_tokens_le :
    (text : Text) (max_tokens : ℕ)
    → 2 ≤ max_tokens
    → length (truncate_to_tokens text max_tokens) ≤ 4 * max_tokens + 15
unfolding truncate_to_tokens
truncate_to_tokens_le text max_tokens h = grind (arith, length-append, length-take, length-drop)

-- The end of a list.
pub record Suffix (part whole : List Message) : Type 0 where
  pub front : List Message
  pub joined : front ++ part ≡ whole

trim-Suffix : (hot : List Message) → Suffix (trim hot) hot
unfolding trim
trim-Suffix [] = record { front = []; joined = refl }
trim-Suffix (m ∷ []) = record { front = []; joined = refl }
trim-Suffix (m ∷ n ∷ ms) = elim (Bool-cases (is_turn_start m)) [
  | inl e ↦ rw (e, trim) (record { front = []; joined = refl })
  | inr e ↦
      let s = trim-Suffix (n ∷ ms) in
      rw (e, trim) (record { front = m ∷ s.front; joined = ap (λ l. m ∷ l) s.joined })
]

grow-Suffix :
    (budget cap : ℕ) (older hot : List Message) (used : ℕ)
    → Suffix (grow budget cap older hot used) (reverse older ++ hot)
unfolding grow
grow-Suffix budget cap [] hot used = record { front = []; joined = refl }
grow-Suffix budget cap (m ∷ older) hot used =
    let taken = grow-Suffix budget cap older (m ∷ hot) (used + estimate_tokens m.content) in
    let whole = append_assoc (reverse older) (m ∷ []) hot in
    elim (Bool-cases
      (has_some hot && (ltb budget (used + estimate_tokens m.content) || leb cap (length hot)))) [
        | inl e ↦ rw (e, grow) (record { front = reverse (m ∷ older); joined = refl })
        | inr e ↦
            rw (e, grow)
              (record {
                front = taken.front;
                joined = taken.joined ∙ sym whole ∙ ap (λ l. l ++ hot) (sym (reverse-cons m older));
              })
      ]

-- Within the budget and the cap, or a single message.
abbrev pub Fits : ℕ → ℕ → List Message → Type 0
Fits budget cap hot =
    (1 ≤ length hot) × (((history_tokens hot ≤ budget) × (length hot ≤ cap)) ⊎ (length hot ≡ 1))

grow-Fits :
    (budget cap : ℕ) (older : List Message) (m : Message) (hot : List Message) (used : ℕ)
    → used ≡ history_tokens (m ∷ hot)
    → Fits budget cap (m ∷ hot)
    → Fits budget cap (grow budget cap older (m ∷ hot) used)
unfolding grow history_tokens
grow-Fits budget cap [] m hot used u f = f
grow-Fits budget cap (n ∷ older) m hot used u f =
    elim (Bool-cases
      (ltb budget (used + estimate_tokens n.content) || leb cap (length (m ∷ hot)))) [
        | inl e ↦ rw (e, grow) f
        | inr e ↦
            rw (e, grow)
              (grow-Fits budget cap older n (m ∷ hot) (used + estimate_tokens n.content)
                (omega arith) (ground arith))
      ]

-- Trimming keeps a message, adds none, and leaves a turn start at the front of several.
abbrev pub AreWhole : List Message → Type 0
AreWhole [] = ⊥
AreWhole (m ∷ []) = Unit
AreWhole (m ∷ n ∷ ms) = is_turn_start m ≡ true

trim_lem :
    (m : Message) (ms : List Message)
    → AreWhole (trim (m ∷ ms))
      × (1 ≤ length (trim (m ∷ ms)))
      × (length (trim (m ∷ ms)) ≤ length (m ∷ ms))
      × (history_tokens (trim (m ∷ ms)) ≤ history_tokens (m ∷ ms))
unfolding trim history_tokens
trim_lem m [] = ground arith
trim_lem m (n ∷ ms) = elim (Bool-cases (is_turn_start m)) [
  | inl e ↦ rw (e, trim) (e, omega arith, omega arith, omega arith)
  | inr e ↦
      let (whole, some_left, shorter, cheaper) = trim_lem n ms in
      rw (e, trim) (whole, some_left, omega (arith, shorter), omega (arith, cheaper))
]

whole_front :
    (front part whole : List Message)
    → front ++ part ≡ whole
    → take (length whole - length part) whole ≡ front
whole_front front part whole h =
    ap (λ w. take (length w - length part) w) (sym h)
    ∙ ap (λ n. take n (front ++ part)) (omega (arith, length-append front part))
    ∙ take_front front
  where
    take_front : (xs : List Message) → take (length xs) (xs ++ part) ≡ xs
    take_front [] = refl
    take_front (x ∷ xs) = ap (λ l. x ∷ l) (take_front xs)

-- Nothing is lost and nothing is reordered: what is evicted, followed by what stays, is the history.
pub select_hot-evicted :
    (history : List Message) (budget cap : ℕ)
    → let s = select_hot history budget cap in s.evicted ++ s.hot ≡ history
unfolding select_hot
select_hot-evicted history budget cap =
    let grown = grow budget cap (reverse history) [] 0 in
    let t = trim-Suffix grown in
    let g = grow-Suffix budget cap (reverse history) [] 0 in
    let whole : (g.front ++ t.front) ++ trim grown ≡ history =
      append_assoc g.front t.front (trim grown)
      ∙ ap (λ l. g.front ++ l) t.joined
      ∙ g.joined
      ∙ append-nil (reverse (reverse history))
      ∙ reverse-reverse history in
    ap (λ l. l ++ trim grown) (whole_front (g.front ++ t.front) (trim grown) history whole) ∙ whole

trim-Fits :
    (budget cap : ℕ) (hot : List Message)
    → Fits budget cap hot
    → Fits budget cap (trim hot) × AreWhole (trim hot)
trim-Fits budget cap [] f = ground arith
trim-Fits budget cap (m ∷ ms) (some_left, f) =
    let (whole, left, shorter, cheaper) = trim_lem m ms in ((left, trimmed f), whole)
  where
    trimmed :
        ((history_tokens (m ∷ ms) ≤ budget) × (length (m ∷ ms) ≤ cap)) ⊎ (length (m ∷ ms) ≡ 1)
        → ((history_tokens (trim (m ∷ ms)) ≤ budget) × (length (trim (m ∷ ms)) ≤ cap))
          ⊎ (length (trim (m ∷ ms)) ≡ 1)
    trimmed f = ground (arith, trim_lem m ms)

snoc_cons :
    (xs : List Message) (x : Message)
    → (y : Message) × (ys : List Message) × (xs ++ x ∷ [] ≡ y ∷ ys)
snoc_cons [] x = (x, [], refl)
snoc_cons (y ∷ ys) x = (y, ys ++ x ∷ [], refl)

-- Of a history that is not empty at least one message stays. What stays is within the token
-- budget and the cap on messages, or is a single message; it begins with the start of a turn, or
-- is a single message; and its tokens are those reported.
pub select_hot-Fits :
    (m : Message) (ms : List Message) (budget cap : ℕ)
    → let s = select_hot (m ∷ ms) budget cap in
      Fits budget cap s.hot × AreWhole s.hot × (s.used ≡ history_tokens s.hot)
unfolding select_hot
select_hot-Fits m ms budget cap =
    let (y, ys, e) = snoc_cons (reverse ms) m in
    let first =
      grow-Fits budget cap ys y [] (0 + estimate_tokens y.content) (omega arith)
        (omega arith, inr refl) in
    let (fits, whole) = trim-Fits budget cap _ first in rw (reverse-cons, e) (fits, whole, refl)
