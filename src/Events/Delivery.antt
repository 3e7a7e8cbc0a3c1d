-- ===== src/Events/Delivery.antt =====
-- The subscribers: the accounting of what they have not read, and what reaches a reader.
use requestinspector_relay.Base.{
  ℕ, ◌+◌, ◌≤◌, ◌≡◌, refl, sym, ◌∙◌, ap, List, [], ◌∷◌, ◌++◌, Option, none, some, false, not, leb,
  length, arith, Bool-cases, inl, inr, map, keep, All, length-append, append_assoc,
}
use requestinspector_relay.Events.{
  BusLimits, QueuedEnvelope, Subscriber, is_overloaded, deliver, forward_take, forward_hand,
  forward_done,
}
use requestinspector_relay.Events.Replay.{total_size, total_size-append}

module _ {Data : Type 0} where
  abbrev pub held : Option (QueuedEnvelope Data) → List (QueuedEnvelope Data)
  held none = []
  held (some q) = q ∷ []

  -- What a subscriber has not read yet, the oldest first.
  abbrev pub outstanding : Subscriber Data → List (QueuedEnvelope Data)
  outstanding s = held s.handed ++ s.queue

  -- What is counted: also the envelope that the reader has taken just now.
  abbrev pub counted : Subscriber Data → List (QueuedEnvelope Data)
  counted s = held s.delivered ++ outstanding s

  -- The counts are those of the counted envelopes, and within the limits.
  pub record IsAccounted (l : BusLimits) (s : Subscriber Data) : Type 0 where
    pub count : s.pending_count ≡ length (counted s)
    pub bytes : s.pending_bytes ≡ total_size (counted s)
    pub few : s.pending_count ≤ l.subscriber_count
    pub small : s.pending_bytes ≤ l.subscriber_bytes

  abbrev pub enqueue : QueuedEnvelope Data → Subscriber Data → Subscriber Data
  enqueue q s = record s {
    queue = s.queue ++ q ∷ [];
    pending_count = s.pending_count + 1;
    pending_bytes = s.pending_bytes + q.size;
  }

  pub outstanding-enqueue :
      (q : QueuedEnvelope Data) (s : Subscriber Data)
      → outstanding (enqueue q s) ≡ outstanding s ++ q ∷ []
  outstanding-enqueue q s = sym (append_assoc (held s.handed) s.queue (q ∷ []))

  counted-enqueue :
      (q : QueuedEnvelope Data) (s : Subscriber Data) → counted (enqueue q s) ≡ counted s ++ q ∷ []
  counted-enqueue q s =
      ap (◌++◌ (held s.delivered)) (outstanding-enqueue q s)
      ∙ sym (append_assoc (held s.delivered) (outstanding s) (q ∷ []))

  pub enqueue-IsAccounted :
      (l : BusLimits) (q : QueuedEnvelope Data) (s : Subscriber Data)
      → IsAccounted l s
      → is_overloaded l q.size s ≡ false
      → IsAccounted l (enqueue q s)
  enqueue-IsAccounted l q s v h = record {
    count =
        omega (arith, v.count, ap length (counted-enqueue q s), length-append (counted s) (q ∷ []));
    bytes = omega (
      arith,
      v.bytes,
      ap total_size (counted-enqueue q s),
      total_size-append (counted s) (q ∷ []),
    );
    few = ground arith;
    small = ground arith;
  }

  length-queue-le : (s : Subscriber Data) → length s.queue ≤ length (counted s)
  length-queue-le s = omega (
    arith,
    length-append (held s.handed) s.queue,
    length-append (held s.delivered) (outstanding s),
  )

  module _ (l : BusLimits) (q : QueuedEnvelope Data) where
    abbrev pub addresses : List (Subscriber Data) → List ℕ
    addresses [] = []
    addresses (s ∷ subscribers) = s.address ∷ addresses subscribers

    -- One round: with the accounts in order a subscriber is disconnected only for its limits, and
    -- else its channel has room.
    deliver_one :
        (s : Subscriber Data)
        → IsAccounted l s
        → is_overloaded l q.size s ≡ false
        → leb l.subscriber_count (length s.queue) ≡ false
    deliver_one s v h = ground (arith, length-queue-le s, v.count)

    -- With every account in order, exactly the subscribers within their limits get the envelope,
    -- behind what they have not read, exactly the others are disconnected, and every account of
    -- those that stay is in order.
    deliver_lem :
        (subscribers : List (Subscriber Data))
        → All (IsAccounted l) subscribers
        → ((deliver l q subscribers).0
            ≡ map (enqueue q) (keep (λ s. not (is_overloaded l q.size s)) subscribers))
          × ((deliver l q subscribers).1
              ≡ addresses (keep (λ s. is_overloaded l q.size s) subscribers))
          × All (IsAccounted l) (deliver l q subscribers).0
    unfolding deliver
    deliver_lem [] a = (refl, refl, tt)
    deliver_lem (s ∷ subscribers) a = elim (Bool-cases (is_overloaded l q.size s)) [
      | inl over ↦
          let r = deliver_lem subscribers a.1 in
          rw (over, deliver) (r.0, ap (◌∷◌ s.address) r.1, r.2)
      | inr room ↦
          let r = deliver_lem subscribers a.1 in
          rw (room, deliver, deliver_one s a.0 room)
            (ap (◌∷◌ (enqueue q s)) r.0, r.1, (enqueue-IsAccounted l q s a.0 room, r.2))
    ]

  -- A step of the reader's side that changes no count and nothing that is counted.
  record IsSilent (s t : Subscriber Data) : Type 0 where
    pub same : counted t ≡ counted s
    pub count : t.pending_count ≡ s.pending_count
    pub bytes : t.pending_bytes ≡ s.pending_bytes

  IsSilent-IsAccounted :
      (l : BusLimits) (s t : Subscriber Data) → IsSilent s t → IsAccounted l s → IsAccounted l t
  IsSilent-IsAccounted l s t e v = record {
    count = e.count ∙ v.count ∙ ap length (sym e.same);
    bytes = e.bytes ∙ v.bytes ∙ ap total_size (sym e.same);
    few = omega (arith, v.few, e.count);
    small = omega (arith, v.small, e.bytes);
  }

  forward_take-IsSilent :
      (s : Subscriber Data) (d h : Option (QueuedEnvelope Data)) (q : List (QueuedEnvelope Data))
      → s.delivered ≡ d
      → s.handed ≡ h
      → s.queue ≡ q
      → IsSilent s (forward_take s)
  unfolding forward_take
  forward_take-IsSilent s (some y) h q ed eh eq =
      rw (ed, forward_take) (record { same = ground arith; count = refl; bytes = refl })
  forward_take-IsSilent s none (some x) q ed eh eq =
      rw (ed, forward_take)
        (rw (eh, forward_take) (record { same = ground arith; count = refl; bytes = refl }))
  forward_take-IsSilent s none none [] ed eh eq =
      rw (ed, forward_take)
        (rw (eh, forward_take)
          (rw (eq, forward_take) (record { same = ground arith; count = refl; bytes = refl })))
  forward_take-IsSilent s none none (x ∷ q) ed eh eq =
      rw (ed, forward_take)
        (rw (eh, forward_take)
          (rw (eq, forward_take) (record { same = ground arith; count = refl; bytes = refl })))

  forward_hand-IsSilent :
      (s : Subscriber Data) (d h : Option (QueuedEnvelope Data))
      → s.delivered ≡ d
      → s.handed ≡ h
      → IsSilent s (forward_hand s)
  unfolding forward_hand
  forward_hand-IsSilent s (some y) h ed eh =
      rw (ed, forward_hand) (record { same = ground arith; count = refl; bytes = refl })
  forward_hand-IsSilent s none none ed eh =
      rw (ed, forward_hand)
        (rw (eh, forward_hand) (record { same = ground arith; count = refl; bytes = refl }))
  forward_hand-IsSilent s none (some x) ed eh =
      rw (ed, forward_hand)
        (rw (eh, forward_hand) (record { same = ground arith; count = refl; bytes = refl }))

  -- The reader's side keeps the accounts.
  pub forward_take-IsAccounted :
      (l : BusLimits) (s : Subscriber Data) → IsAccounted l s → IsAccounted l (forward_take s)
  forward_take-IsAccounted l s =
      IsSilent-IsAccounted l s (forward_take s)
        (forward_take-IsSilent s s.delivered s.handed s.queue refl refl refl)

  pub forward_hand-IsAccounted :
      (l : BusLimits) (s : Subscriber Data) → IsAccounted l s → IsAccounted l (forward_hand s)
  forward_hand-IsAccounted l s =
      IsSilent-IsAccounted l s (forward_hand s)
        (forward_hand-IsSilent s s.delivered s.handed refl refl)

  pub forward_done-IsAccounted :
      (l : BusLimits) (s : Subscriber Data) → IsAccounted l s → IsAccounted l (forward_done s)
  unfolding forward_done
  forward_done-IsAccounted l s v = done_cases s s.delivered refl v
    where
      done_cases :
          (s : Subscriber Data) (d : Option (QueuedEnvelope Data))
          → s.delivered ≡ d
          → IsAccounted l s
          → IsAccounted l (forward_done s)
      done_cases s none ed v = rw (ed, forward_done) v
      done_cases s (some x) ed v =
          let known : counted s ≡ x ∷ outstanding s = ground arith in
          rw (ed, forward_done)
            (record {
              count = omega (arith, v.count, ap length known);
              bytes = omega (arith, v.bytes, ap total_size known);
              few = omega (arith, v.few);
              small = omega (arith, v.small);
            })
