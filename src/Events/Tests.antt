-- ===== src/Events/Tests.antt =====
-- A bus with one envelope in its buffer, and one subscriber.
use requestinspector_relay.Base.{
  ℕ, [], ◌∷◌, ◌≡◌, ◌+◌, ◌-◌, refl, none, some, ◌&&◌, leb, if◌then◌else◌, arith, drop, format_uint,
}
use requestinspector_relay.Events.{
  Envelope, BusLimits, QueuedEnvelope, Subscriber, Bus, exchange_started, envelopes, replay_after,
  forward_take, forward_hand, forward_done, publish,
}
use requestinspector_relay.Events.Replay.{IsReplayable, publish-IsReplayable, replay_after_complete}
use requestinspector_relay.Events.Delivery.{IsAccounted}
use requestinspector_relay.Events.Session.{
  Session, IsFaithful, Reach-IsFaithful, send, taken, handed, done, here, next,
}

abbrev test_limits : BusLimits
test_limits = record {
  replay_count = 2;
  replay_bytes = 50;
  subscriber_count = 2;
  subscriber_bytes = 50;
}

abbrev test_envelope : Envelope ℕ
test_envelope = record {
  schema_version = 1;
  id = "1";
  timestamp = 3;
  type = exchange_started;
  exchange_id = "x";
  revision = 1;
  payload = none;
}

abbrev test_queued : QueuedEnvelope ℕ
test_queued = record { envelope = test_envelope; size = 10 }

abbrev test_subscriber : Subscriber ℕ
test_subscriber = record {
  address = 7;
  queue = [];
  handed = none;
  delivered = none;
  pending_count = 0;
  pending_bytes = 0;
}

abbrev test_bus : Bus ℕ
test_bus = record {
  limits = test_limits;
  next_id = 1;
  replay = test_queued ∷ [];
  replay_size = 10;
  subscribers = test_subscriber ∷ [];
  closed = [];
}

test_bus-IsReplayable : IsReplayable test_bus
unfolding format_uint
test_bus-IsReplayable = record {
  count = omega arith;
  bytes = omega arith;
  sized = refl;
  oldest = 1;
  numbered = (refl, tt);
  latest = refl;
}

test_subscriber-IsAccounted : IsAccounted test_limits test_subscriber
test_subscriber-IsAccounted = record {
  count = refl;
  bytes = refl;
  few = omega arith;
  small = omega arith;
}

publish-IsReplayable_example : IsReplayable (publish (λ e. some 10) 4 test_bus test_envelope).0
publish-IsReplayable_example =
    publish-IsReplayable (λ e. some 10) 4 test_bus test_envelope (omega arith) test_bus-IsReplayable

replay_after_complete_example : replay_after test_bus (format_uint 1) ≡ (
    if leb test_bus-IsReplayable.oldest 1 && leb 1 test_bus.next_id
    then some (envelopes (drop (1 + 1 - test_bus-IsReplayable.oldest) test_bus.replay))
    else none)
replay_after_complete_example = replay_after_complete test_bus test_bus-IsReplayable 1

abbrev take_one : Unit {0} → ℕ
take_one u = 5

abbrev before : Session ℕ
before = record { subscriber = test_subscriber; sent = []; received = [] }

abbrev after : Session ℕ
after = record {
  subscriber = test_subscriber;
  sent = test_queued ∷ [];
  received = test_queued ∷ [];
}

Reach-IsFaithful_example : IsFaithful test_limits after
unfolding forward_take forward_hand forward_done
Reach-IsFaithful_example =
    Reach-IsFaithful test_limits before after
      (record { accounted = test_subscriber-IsAccounted; stream = refl })
      (next
        (next (next (next here (send test_queued (ground arith) refl)) (taken refl)) (handed refl))
        (done refl))
