-- ===== src/Memory/Tests.antt =====
-- Histories of a few messages.
use shadow_forge.Base.{◌≡◌, refl, List, [], ◌∷◌, ◌++◌}
use shadow_forge.Text.{codes}
use shadow_forge.Memory.{Message, history_tokens, select_hot}
use shadow_forge.Memory.Hot.{Fits, AreWhole, select_hot-evicted, select_hot-Fits}

abbrev said : Message
said = record { role = "user"; content = codes "find the bug please" }

abbrev called : Message
called = record { role = "assistant"; content = codes "reading a.py" }

abbrev answered : Message
answered = record { role = "tool_result"; content = codes "def f(): pass" }

abbrev history : List Message
history = said ∷ called ∷ answered ∷ said ∷ []

-- The third message fits the budget, but its turn does not.
last_turn_kept : (select_hot history 8 10).hot ≡ said ∷ []
unfolding select_hot
last_turn_kept = refl

select_hot-evicted_example :
    (select_hot history 8 10).evicted ++ (select_hot history 8 10).hot ≡ history
select_hot-evicted_example = select_hot-evicted history 8 10

select_hot-Fits_example :
    let s = select_hot history 8 10 in
    Fits 8 10 s.hot × AreWhole s.hot × (s.used ≡ history_tokens s.hot)
select_hot-Fits_example = select_hot-Fits said (called ∷ answered ∷ said ∷ []) 8 10
