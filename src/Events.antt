-- ===== src/Events.antt =====
-- The broadcaster of events (services/agentd-py/agentd/orchestrator/broadcaster.py). A queue is a
-- number; what has been put into it stands in `queues`. A default dictionary with no entry for a
-- channel holds the empty value.
pub mod Streams
mod Tests
use shadow_forge.Base.{
  ℕ, suc, ◌+◌, ◌-◌, String, Bool, true, false, not, List, [], ◌∷◌, ◌++◌, Option, none, some, leb,
  ◌==◌, if◌then◌else◌, length, take, drop, any, keep, lookup, insert, remove,
}
use shadow_forge.Text.{Text, codes, newline}

-- An event, which the broadcaster does not read.
abbrev pub Event : Type 0
Event = String

abbrev pub replay_buffer_size : ℕ
replay_buffer_size = 50

pub cap_event_output : Text → ℕ → Text
cap_event_output text limit =
    if leb (length text) limit
    then text
    else take limit text ++ (newline ∷ 8230 ∷ codes " truncated")

pub record EventBroadcaster : Type 0 where
  pub subscribers : List (String × List ℕ)
  pub replay : List (String × List Event)
  pub queues : ℕ → List Event
  pub next_queue : ℕ

abbrev pub or_empty {ℓ} : {A : Type ℓ} → Option (List A) → List A
or_empty none = []
or_empty (some xs) = xs

abbrev pub replay_of : String → EventBroadcaster → List Event
replay_of channel_id b = or_empty (lookup channel_id b.replay)

abbrev pub subscribers_of : String → EventBroadcaster → List ℕ
subscribers_of channel_id b = or_empty (lookup channel_id b.subscribers)

abbrev pub has_queue : ℕ → List ℕ → Bool
has_queue q qs = any (λ p. p == q) qs

abbrev pub put : (ℕ → Bool) → List Event → (ℕ → List Event) → ℕ → List Event
put chosen events queues q = if chosen q then queues q ++ events else queues q

-- The new queue holds the replayed events; its number is returned.
pub subscribe : String → EventBroadcaster → EventBroadcaster × ℕ
subscribe channel_id b =
    let queue = b.next_queue in
    (
      record b {
        subscribers = insert channel_id (queue ∷ subscribers_of channel_id b) b.subscribers;
        replay = insert channel_id (replay_of channel_id b) b.replay;
        queues = λ q. if q == queue then replay_of channel_id b else b.queues q;
        next_queue = suc queue;
      },
      queue,
    )

abbrev pub without : ℕ → List ℕ → List ℕ
without queue qs = keep (λ q. not (q == queue)) qs

abbrev pub entry : String → List ℕ → List (String × List ℕ) → List (String × List ℕ)
entry channel_id [] m = remove channel_id m
entry channel_id (q ∷ qs) m = insert channel_id (q ∷ qs) m

pub unsubscribe : String → ℕ → EventBroadcaster → EventBroadcaster
unsubscribe channel_id queue b = elim (lookup channel_id b.subscribers) [
  | none ↦ b
  | some subs ↦ record b { subscribers = entry channel_id (without queue subs) b.subscribers }
]

-- `deque(maxlen=50)` drops from the front.
pub appended : Event → List Event → List Event
appended event events = let all = events ++ event ∷ [] in drop (length all - replay_buffer_size) all

pub broadcast : String → Event → EventBroadcaster → EventBroadcaster
unfolding appended
broadcast channel_id event b = record b {
  replay = insert channel_id (appended event (replay_of channel_id b)) b.replay;
  queues = put (λ q. has_queue q (subscribers_of channel_id b)) (event ∷ []) b.queues;
}

pub clear_replay : String → EventBroadcaster → EventBroadcaster
clear_replay channel_id b = record b { replay = remove channel_id b.replay }
