-- ===== src/Memory.antt =====
-- What stays in the window when a history is compacted (services/agentd-py/agentd/memory/
-- compactor.py).
pub mod Hot
mod Tests
use shadow_forge.Base.{
  ℕ, ◌+◌, ◌-◌, ◌*◌, ◌/◌, String, Bool, true, false, not, ◌&&◌, ◌||◌, List, [], ◌∷◌, ◌++◌, ltb, leb,
  if◌then◌else◌, length, take, drop, str_eq,
}
use mathlib.Core.List.{reverse}
use shadow_forge.Text.{Text, codes, newline}

pub record Message : Type 0 where
  pub role : String
  pub content : Text

-- `max(1, len(text) // 4)`
pub estimate_tokens : Text → ℕ
estimate_tokens text = let n = length text / 4 in if ltb n 1 then 1 else n

pub history_tokens : List Message → ℕ
unfolding estimate_tokens
history_tokens [] = 0
history_tokens (m ∷ ms) = estimate_tokens m.content + history_tokens ms

-- `[truncated]` between two ellipses, each on the line of its own.
abbrev pub truncation_mark : Text
truncation_mark = newline ∷ 8230 ∷ (codes "[truncated]" ++ 8230 ∷ newline ∷ [])

pub truncate_to_tokens : Text → ℕ → Text
truncate_to_tokens text max_tokens =
    let max_chars = if ltb (max_tokens * 4) 8 then 8 else max_tokens * 4 in
    let head = max_chars / 2 in
    let tail = max_chars - head in
    if leb (length text) max_chars
    then text
    else take head text ++ (truncation_mark ++ drop (length text - tail) text)

-- Tool results attach backward to the action that produced them.
pub is_turn_start : Message → Bool
is_turn_start m = not (str_eq m.role "tool_result" || str_eq m.role "tool")

abbrev pub has_some : List Message → Bool
has_some [] = false
has_some (m ∷ ms) = true

-- The loop over the history from the newest message on.
pub grow : ℕ → ℕ → List Message → List Message → ℕ → List Message
unfolding estimate_tokens
grow budget cap [] hot used = hot
grow budget cap (m ∷ older) hot used =
    let t = estimate_tokens m.content in
    if has_some hot && (ltb budget (used + t) || leb cap (length hot))
    then hot
    else grow budget cap older (m ∷ hot) (used + t)

-- Messages at the front that continue a turn are taken off, but not the last one.
pub trim : List Message → List Message
unfolding is_turn_start
trim [] = []
trim (m ∷ []) = m ∷ []
trim (m ∷ n ∷ ms) = let rest = trim (n ∷ ms) in if is_turn_start m then m ∷ n ∷ ms else rest

-- What is evicted, what stays, and the tokens of the latter.
pub record Selection : Type 0 where
  pub evicted : List Message
  pub hot : List Message
  pub used : ℕ

pub select_hot : List Message → ℕ → ℕ → Selection
unfolding grow trim history_tokens
select_hot history hot_budget_tokens hot_turns_cap = record {
  evicted = take (length history - length hot) history;
  hot = hot;
  used = history_tokens hot;
}
  where
    hot : List Message
    hot = trim (grow hot_budget_tokens hot_turns_cap (reverse history) [] 0)
