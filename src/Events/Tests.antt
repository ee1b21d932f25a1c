-- ===== src/Events/Tests.antt =====
-- Two subscribers of two channels.
use shadow_forge.Base.{◌≡◌, refl, List, [], ◌∷◌, ◌++◌, arith, lookup}
use shadow_forge.Events.{EventBroadcaster, replay_of, subscribe}
use shadow_forge.Events.Streams.{
  Call, subscribing, unsubscribing, broadcasting, clearing, calls, sent, IsFresh, subscribe-calls,
  AreBounded, calls-AreBounded,
}

-- One event stands in the replay buffer of the channel.
abbrev started : EventBroadcaster
started = record {
  subscribers = [];
  replay = ("t1", "planned" ∷ []) ∷ [];
  queues = λ q. [];
  next_queue = 0;
}

abbrev run : List Call
run =
    broadcasting "t1" "patched"
    ∷ subscribing "t2"
    ∷ broadcasting "t2" "other"
    ∷ clearing "t1"
    ∷ unsubscribing "t2" 1
    ∷ broadcasting "t1" "done"
    ∷ []

started-IsFresh : IsFresh started
unfolding lookup
started-IsFresh d = refl

subscribe-calls_example :
    let (after, queue) = subscribe "t1" started in
    (calls run after).queues queue ≡ replay_of "t1" started ++ sent "t1" run
subscribe-calls_example = subscribe-calls started "t1" run started-IsFresh (refl, tt)

started-AreBounded : AreBounded started
unfolding lookup
started-AreBounded d = ground arith

calls-AreBounded_example : AreBounded (calls run started)
calls-AreBounded_example = calls-AreBounded run started started-AreBounded
