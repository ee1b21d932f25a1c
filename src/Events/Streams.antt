-- ===== src/Events/Streams.antt =====
-- What a subscriber receives (orchestrator/broadcaster.py).
use shadow_forge.Base.{
  ℕ, ◌+◌, ◌-◌, ◌≤◌, ◌<◌, ◌≡◌, refl, sym, ap, ◌∙◌, ◌⊎◌, String, true, false, List, [], ◌∷◌, ◌++◌,
  Option, none, some, arith, Bool-cases, Option-cases, inl, inr, ◌==◌, ==_iff, if◌then◌else◌,
  length, length-append, length-take, length-drop, lookup, insert, lookup-insert, lookup-remove,
  str_eq, eq_iff,
}
use text.Mathlib.TextPositions.{eq_refl}
use mathlib.Core.List.{append-nil, append_assoc}
use shadow_forge.Text.{Text}
use shadow_forge.Events.{
  Event, cap_event_output, EventBroadcaster, or_empty, replay_of, subscribers_of, has_queue,
  subscribe, without, entry, unsubscribe, appended, broadcast, clear_replay,
}

-- Capped output is at most twelve characters longer than the limit, and it is longer than the
-- limit if the text was.
pub cap_event_output_le :
    (text : Text) (limit : ℕ)
    → (length (cap_event_output text limit) ≤ limit + 12)
      × ((length text ≤ limit) ⊎ (limit < length (cap_event_output text limit)))
unfolding cap_event_output
cap_event_output_le text limit = grind (arith, length-append, length-take)

-- The calls of the broadcaster.
pub data Call : Type 0 where
  subscribing clearing : String → Call
  unsubscribing : String → ℕ → Call
  broadcasting : String → Event → Call

abbrev pub called : Call → EventBroadcaster → EventBroadcaster
called (subscribing c) b = (subscribe c b).0
called (clearing c) b = clear_replay c b
called (unsubscribing c q) b = unsubscribe c q b
called (broadcasting c e) b = broadcast c e b

pub calls : List Call → EventBroadcaster → EventBroadcaster
calls [] b = b
calls (k ∷ ks) b = calls ks (called k b)

-- The events that are broadcast on a channel, in order.
abbrev pub sent : String → List Call → List Event
sent c [] = []
sent c (broadcasting d e ∷ ks) = if str_eq d c then e ∷ sent c ks else sent c ks
sent c (_ ∷ ks) = sent c ks

-- The queue is not unsubscribed.
abbrev pub Stays : ℕ → List Call → Type 0
Stays q [] = Unit
Stays q (unsubscribing d p ∷ ks) = ((p == q) ≡ false) × Stays q ks
Stays q (_ ∷ ks) = Stays q ks

-- The queue is subscribed to this channel and to no other.
pub record IsSubscribed (q : ℕ) (c : String) (b : EventBroadcaster) : Type 0 where
  pub old : q < b.next_queue
  pub here : has_queue q (subscribers_of c b) ≡ true
  pub elsewhere : (d : String) → str_eq d c ≡ false → has_queue q (subscribers_of d b) ≡ false

-- A channel's entry is exchanged for one with the same answer for the queue.
same_members :
    (q : ℕ) (d e : String) (m n : List (String × List ℕ)) (o : Option (List ℕ))
    → lookup e n ≡ (if str_eq d e then o else lookup e m)
    → has_queue q (or_empty o) ≡ has_queue q (or_empty (lookup d m))
    → has_queue q (or_empty (lookup e n)) ≡ has_queue q (or_empty (lookup e m))
same_members q d e m n o l h = elim (Bool-cases (str_eq d e)) [
  | inl same ↦
      ap (λ x. has_queue q (or_empty x)) (rw same at l)
      ∙ h
      ∙ ap (λ x. has_queue q (or_empty (lookup x m))) (ground (arith, eq_iff d e, same))
  | inr other ↦ ap (λ x. has_queue q (or_empty x)) (rw other at l)
]

has_queue-without :
    (q p : ℕ) (qs : List ℕ) → (p == q) ≡ false → has_queue q (without p qs) ≡ has_queue q qs
has_queue-without q p [] h = refl
has_queue-without q p (r ∷ rs) h = ground (arith, has_queue-without q p rs h)

lookup-entry :
    (d e : String) (qs : List ℕ) (m : List (String × List ℕ))
    → (o : Option (List ℕ)) × (lookup e (entry d qs m) ≡ (if str_eq d e then o else lookup e m))
      × (or_empty o ≡ qs)
lookup-entry d e [] m = (none, lookup-remove d e m, refl)
lookup-entry d e (q ∷ qs) m = (some (q ∷ qs), lookup-insert d e (q ∷ qs) m, refl)

-- The membership of the queue is kept in every channel.
called-members :
    (q : ℕ) (k : Call) (b : EventBroadcaster)
    → Stays q (k ∷ [])
    → q < b.next_queue
    → (e : String) → has_queue q (subscribers_of e (called k b)) ≡ has_queue q (subscribers_of e b)
unfolding subscribe broadcast clear_replay unsubscribe
called-members q (subscribing d) b h l e =
    same_members q d e b.subscribers _ (some (b.next_queue ∷ subscribers_of d b))
      (lookup-insert d e _ b.subscribers) (ground arith)
called-members q (clearing d) b h l e = refl
called-members q (broadcasting d x) b h l e = refl
called-members q (unsubscribing d p) b h l e = elim (Option-cases (lookup d b.subscribers)) [
  | inl none_there ↦ rw (none_there, unsubscribe)
  | inr (subs, there) ↦
      let (o, found, same) = lookup-entry d e (without p subs) b.subscribers in
      rw (there, unsubscribe)
        (same_members q d e b.subscribers _ o found (
          ap (has_queue q) same
          ∙ has_queue-without q p subs h.0
          ∙ ap (λ x. has_queue q (or_empty x)) (sym there)))
]

called-next : (k : Call) (b : EventBroadcaster) → b.next_queue ≤ (called k b).next_queue
unfolding subscribe broadcast clear_replay unsubscribe
called-next (subscribing d) b = omega arith
called-next (clearing d) b = omega arith
called-next (broadcasting d x) b = omega arith
called-next (unsubscribing d p) b = elim (Option-cases (lookup d b.subscribers)) [
  | inl e ↦ rw (e, unsubscribe) (omega arith)
  | inr (subs, e) ↦ rw (e, unsubscribe) (omega arith)
]

called-IsSubscribed :
    (q : ℕ) (c : String) (k : Call) (b : EventBroadcaster)
    → Stays q (k ∷ [])
    → IsSubscribed q c b
    → IsSubscribed q c (called k b)
called-IsSubscribed q c k b h s = record {
  old = omega (arith, called-next k b, s.old);
  here = called-members q k b h s.old c ∙ s.here;
  elsewhere = λ d n. called-members q k b h s.old d ∙ s.elsewhere d n;
}

-- One call puts into the queue what it sends on the channel.
called-queue :
    (q : ℕ) (c : String) (k : Call) (b : EventBroadcaster)
    → IsSubscribed q c b
    → (called k b).queues q ≡ b.queues q ++ sent c (k ∷ [])
unfolding subscribe broadcast clear_replay unsubscribe
called-queue q c (subscribing d) b s = ground (arith, append-nil (b.queues q), s.old)
called-queue q c (clearing d) b s = sym (append-nil (b.queues q))
called-queue q c (unsubscribing d p) b s = elim (Option-cases (lookup d b.subscribers)) [
  | inl e ↦ rw (e, unsubscribe) (sym (append-nil (b.queues q)))
  | inr (subs, e) ↦ rw (e, unsubscribe) (sym (append-nil (b.queues q)))
]
called-queue q c (broadcasting d e) b s = elim (Bool-cases (str_eq d c)) [
  | inl same ↦
      let is : d ≡ c = ground (arith, eq_iff d c, same) in
      let member : has_queue q (subscribers_of d b) ≡ true =
        ap (λ x. has_queue q (subscribers_of x b)) is ∙ s.here in
      rw (member, same)
  | inr other ↦ rw (s.elsewhere d other, other) (sym (append-nil (b.queues q)))
]

sent-cons :
    (c : String) (k : Call) (ks : List Call) → sent c (k ∷ ks) ≡ sent c (k ∷ []) ++ sent c ks
sent-cons c (subscribing d) ks = refl
sent-cons c (clearing d) ks = refl
sent-cons c (unsubscribing d p) ks = refl
sent-cons c (broadcasting d e) ks = elim (Bool-cases (str_eq d c)) [
  | inl same ↦ rw same
  | inr other ↦ rw other
]

Stays-cons : (q : ℕ) (k : Call) (ks : List Call) → Stays q (k ∷ ks) → Stays q (k ∷ []) × Stays q ks
Stays-cons q (subscribing d) ks h = (tt, h)
Stays-cons q (clearing d) ks h = (tt, h)
Stays-cons q (broadcasting d e) ks h = (tt, h)
Stays-cons q (unsubscribing d p) ks h = ((h.0, tt), h.1)

calls-queue :
    (q : ℕ) (c : String) (ks : List Call) (b : EventBroadcaster)
    → Stays q ks
    → IsSubscribed q c b
    → (calls ks b).queues q ≡ b.queues q ++ sent c ks
unfolding calls
calls-queue q c [] b h s = sym (append-nil (b.queues q))
calls-queue q c (k ∷ ks) b h s =
    let (first, others) = Stays-cons q k ks h in
    calls-queue q c ks (called k b) others (called-IsSubscribed q c k b first s)
    ∙ ap (λ l. l ++ sent c ks) (called-queue q c k b s)
    ∙ append_assoc (b.queues q) (sent c (k ∷ [])) (sent c ks)
    ∙ ap (λ l. b.queues q ++ l) (sym (sent-cons c k ks))

-- The number of the next queue is no subscriber.
abbrev pub IsFresh : EventBroadcaster → Type 0
IsFresh b = (d : String) → has_queue b.next_queue (subscribers_of d b) ≡ false

-- If the number of the next queue is no subscriber yet, a new subscriber of a channel receives
-- first the replayed events of the channel and then exactly the events that are broadcast on it,
-- each once and in order, whatever is subscribed, cleared, unsubscribed or broadcast on other
-- channels meanwhile, as long as its own queue is not unsubscribed.
pub subscribe-calls :
    (b : EventBroadcaster) (c : String) (ks : List Call)
    → IsFresh b
    → Stays b.next_queue ks
    → let (after, queue) = subscribe c b in
      (calls ks after).queues queue ≡ replay_of c b ++ sent c ks
unfolding subscribe
subscribe-calls b c ks fresh h =
    let q = b.next_queue in
    let after = (subscribe c b).0 in
    calls-queue q c ks after h (record {
      old = omega arith;
      here = rw (lookup-insert, eq_refl) (ground arith);
      elsewhere = λ d n.
          let other : str_eq c d ≡ false = ground (arith, eq_iff c d, eq_iff d c, n) in
          rw (lookup-insert, other) (fresh d);
    })
    ∙ ap (λ x. (if x then replay_of c b else b.queues q) ++ sent c ks) ((==_iff q q).1 refl)

-- No replay buffer holds more than fifty events.
abbrev pub AreBounded : EventBroadcaster → Type 0
AreBounded b = (d : String) → length (replay_of d b) ≤ 50

appended_le : (event : Event) (events : List Event) → length (appended event events) ≤ 50
unfolding appended
appended_le event events =
    omega (arith, length-drop (length (events ++ event ∷ []) - 50) (events ++ event ∷ []))

inserted_le :
    (c d : String) (events : List Event) (b : EventBroadcaster)
    → length events ≤ 50
    → AreBounded b
    → length (or_empty (lookup d (insert c events b.replay))) ≤ 50
inserted_le c d events b n h = elim (Bool-cases (str_eq c d)) [
  | inl same ↦ rw (lookup-insert, same) n
  | inr other ↦ rw (lookup-insert, other) (h d)
]

called-AreBounded : (k : Call) (b : EventBroadcaster) → AreBounded b → AreBounded (called k b)
unfolding subscribe broadcast clear_replay unsubscribe
called-AreBounded (subscribing c) b h d = inserted_le c d (replay_of c b) b (h c) h
called-AreBounded (broadcasting c e) b h d =
    inserted_le c d (appended e (replay_of c b)) b (appended_le e (replay_of c b)) h
called-AreBounded (clearing c) b h d = elim (Bool-cases (str_eq c d)) [
  | inl same ↦ rw (lookup-remove, same) (omega arith)
  | inr other ↦ rw (lookup-remove, other) (h d)
]
called-AreBounded (unsubscribing c p) b h d = elim (Option-cases (lookup c b.subscribers)) [
  | inl e ↦ rw (e, unsubscribe) (h d)
  | inr (subs, e) ↦ rw (e, unsubscribe) (h d)
]

-- If no replay buffer holds more than fifty events, then none does after any sequence of calls.
pub calls-AreBounded :
    (ks : List Call) (b : EventBroadcaster) → AreBounded b → AreBounded (calls ks b)
unfolding calls
calls-AreBounded [] b h = h
calls-AreBounded (k ∷ ks) b h = calls-AreBounded ks (called k b) (called-AreBounded k b h)
