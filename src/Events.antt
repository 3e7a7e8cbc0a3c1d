-- ===== src/Events.antt =====
-- internal/events/bus.go: the envelopes, the replay buffer and the subscribers. `Data` is the type of
-- the payloads, which the bus carries unread. Every operation holds the mutex to its end, except
-- `forward`, whose steps are apart.
pub mod Replay
pub mod Delivery
pub mod Session
mod Tests
use requestinspector_relay.Base.{
  ℕ, ◌+◌, ◌-◌, ◌%◌, ◌^◌, String, ◌≡◌, List, [], ◌∷◌, ◌++◌, map, Option, none, some, Bool, true,
  false, ◌&&◌, ◌||◌, ltb, leb, ◌==◌, if◌then◌else◌, str_eq, length, format_uint,
}

pub data EventType : Type 0 where
  exchange_started request_completed response_completed exchange_failed : EventType
  exchange_evicted exchange_deleted history_cleared config_changed : EventType

pub record Envelope (Data : Type 0) : Type 0 where
  pub schema_version : ℕ
  pub id : String
  pub timestamp : ℕ
  pub type : EventType
  pub exchange_id : String
  pub revision : ℕ
  pub payload : Option Data

pub record BusLimits : Type 0 where
  pub replay_count : ℕ
  pub replay_bytes : ℕ
  pub subscriber_count : ℕ
  pub subscriber_bytes : ℕ

pub record QueuedEnvelope (Data : Type 0) : Type 0 where
  pub envelope : Envelope Data
  pub size : ℕ

-- A subscriber with the identity of its address. `queue` is the channel that `Publish` fills and
-- `forward` drains; `handed` is the envelope that `forward` holds until the reader takes it, and
-- `delivered` the one that the reader has taken and that is still counted.
pub record Subscriber (Data : Type 0) : Type 0 where
  pub address : ℕ
  pub queue : List (QueuedEnvelope Data)
  pub handed : Option (QueuedEnvelope Data)
  pub delivered : Option (QueuedEnvelope Data)
  pub pending_count : ℕ
  pub pending_bytes : ℕ

-- `closed` lists the subscribers whose `done` channel was closed, the last one first.
pub record Bus (Data : Type 0) : Type 0 where
  pub limits : BusLimits
  pub next_id : ℕ
  pub replay : List (QueuedEnvelope Data)
  pub replay_size : ℕ
  pub subscribers : List (Subscriber Data)
  pub closed : List ℕ

abbrev at_least_one : ℕ → ℕ
at_least_one n = if ltb n 1 then 1 else n

unfoldable pub normalized_limits : BusLimits → BusLimits
normalized_limits l = record {
  replay_count = at_least_one l.replay_count;
  replay_bytes = at_least_one l.replay_bytes;
  subscriber_count = at_least_one l.subscriber_count;
  subscriber_bytes = at_least_one l.subscriber_bytes;
}

module _ {Data : Type 0} where
  unfoldable pub new_bus : BusLimits → Bus Data
  unfolding normalized_limits
  new_bus limits = record {
    limits = normalized_limits limits;
    next_id = 0;
    replay = [];
    replay_size = 0;
    subscribers = [];
    closed = [];
  }

  -- The loop of `trimReplay`, over the buffer and its size in bytes.
  unfoldable pub trim : BusLimits → List (QueuedEnvelope Data) → ℕ → List (QueuedEnvelope Data) × ℕ
  trim l [] bytes = ([], bytes)
  trim l (q ∷ replay) bytes =
      let rest = trim l replay (bytes - q.size) in
      if ltb l.replay_count (length (q ∷ replay)) || ltb l.replay_bytes bytes
      then rest
      else (q ∷ replay, bytes)

  abbrev is_overloaded : BusLimits → ℕ → Subscriber Data → Bool
  is_overloaded l size target =
      ltb l.subscriber_bytes size
      || leb l.subscriber_count target.pending_count
      || ltb l.subscriber_bytes (target.pending_bytes + size)

  -- The loop of `Publish` over the subscribers: those that stay, and those that are disconnected. A
  -- send to a full channel takes the `default` branch.
  unfoldable pub deliver :
      BusLimits → QueuedEnvelope Data → List (Subscriber Data) → List (Subscriber Data) × List ℕ
  deliver l queued [] = ([], [])
  deliver l queued (target ∷ targets) =
      let (kept, gone) = deliver l queued targets in
      if is_overloaded l queued.size target
      then (kept, target.address ∷ gone)
      else if leb l.subscriber_count (length target.queue)
      then (kept, target.address ∷ gone)
      else (
        record target {
          queue = target.queue ++ queued ∷ [];
          pending_count = target.pending_count + 1;
          pending_bytes = target.pending_bytes + queued.size;
        }
            ∷ kept,
        gone,
      )

  -- `disconnect`: a subscriber that is no longer there is left alone.
  unfoldable pub disconnect : ℕ → List (Subscriber Data) → List (Subscriber Data) × List ℕ
  disconnect address [] = ([], [])
  disconnect address (target ∷ targets) =
      let (kept, gone) = disconnect address targets in
      if target.address == address then (targets, address ∷ []) else (target ∷ kept, gone)

  unfoldable pub envelopes : List (QueuedEnvelope Data) → List (Envelope Data)
  envelopes [] = []
  envelopes (q ∷ queued) = q.envelope ∷ envelopes queued

  -- The loop of `replayAfter`; `none` asks for a reset.
  unfoldable pub after_from : String → List (QueuedEnvelope Data) → Option (List (Envelope Data))
  unfolding envelopes
  after_from id [] = none
  after_from id (q ∷ queued) =
      if str_eq q.envelope.id id then some (envelopes queued) else after_from id queued

  unfoldable pub replay_after : Bus Data → String → Option (List (Envelope Data))
  unfolding after_from
  replay_after bus id =
      if str_eq id "" then some (envelopes bus.replay) else after_from id bus.replay

  unfoldable pub subscribe : Bus Data → String → ℕ → Bus Data × Option (List (Envelope Data))
  unfolding replay_after
  subscribe bus id address = (
    record bus {
      subscribers =
          record {
            address = address;
            queue = [];
            handed = none;
            delivered = none;
            pending_count = 0;
            pending_bytes = 0;
          }
          ∷ bus.subscribers;
    },
    replay_after bus id,
  )

  -- The identifier of the last envelope of the buffer, or the empty text.
  unfoldable pub last_id : List (QueuedEnvelope Data) → String
  last_id [] = ""
  last_id (q ∷ []) = q.envelope.id
  last_id (_ ∷ q ∷ queued) = last_id (q ∷ queued)

  unfoldable pub subscribe_with_snapshot :
      {Snapshot : Type 0}
      → Bus Data
      → (Unit {0} → Snapshot)
      → ℕ
      → Bus Data × Option (List (Envelope Data)) × Snapshot × String
  unfolding subscribe last_id
  subscribe_with_snapshot bus snapshot address =
      let value = snapshot tt in
      let cursor = last_id bus.replay in
      let (bus', replay) = subscribe bus cursor address in (bus', replay, value, cursor)

  unfoldable pub close : Bus Data → ℕ → Bus Data
  unfolding disconnect
  close bus address =
      let (kept, gone) = disconnect address bus.subscribers in
      record bus { subscribers = kept; closed = gone ++ bus.closed }

  -- One round of `forward`: an envelope leaves the channel; the reader takes it; and, under the
  -- mutex, the counts fall. The three steps are apart: a `Publish` may come between any two.
  unfoldable pub forward_take : Subscriber Data → Subscriber Data
  forward_take s = elim s.delivered [
    | some q ↦ s
    | none ↦ (elim s.handed [
      | some q ↦ s
      | none ↦ (elim s.queue [ [] ↦ s | q ∷ queue ↦ record s { queue = queue; handed = some q } ])
    ])
  ]

  unfoldable pub forward_hand : Subscriber Data → Subscriber Data
  forward_hand s = elim s.delivered [
    | some q ↦ s
    | none ↦ (elim s.handed [ none ↦ s | some q ↦ record s { handed = none; delivered = some q } ])
  ]

  unfoldable pub forward_done : Subscriber Data → Subscriber Data
  forward_done s = elim s.delivered [
    | none ↦ s
    | some q ↦ record s {
      delivered = none;
      pending_count = s.pending_count - 1;
      pending_bytes = s.pending_bytes - q.size;
    }
  ]

  -- `marshal` is the length of `json.Marshal`'s result, or `none` for its error; `now` is the clock.
  module _ (marshal : Envelope Data → Option ℕ) (now : ℕ) where
    unfoldable pub envelope_size : Envelope Data → ℕ
    envelope_size e = elim (marshal e) [ none ↦ 1 | some n ↦ n ]

    unfoldable pub publish : Bus Data → Envelope Data → Bus Data × Envelope Data
    unfolding envelope_size
    publish bus envelope =
        let id = (bus.next_id + 1) % 2 ^ 64 in
        let sent : Envelope Data = record envelope {
          schema_version = 1;
          id = format_uint id;
          timestamp = now;
        } in
        let queued : QueuedEnvelope Data = record { envelope = sent; size = envelope_size sent } in
        let (replay, bytes) =
          trim bus.limits (bus.replay ++ queued ∷ []) (bus.replay_size + queued.size) in
        let (kept, gone) = deliver bus.limits queued bus.subscribers in
        (
          record bus {
            next_id = id;
            replay = replay;
            replay_size = bytes;
            subscribers = kept;
            closed = gone ++ bus.closed;
          },
          sent,
        )
