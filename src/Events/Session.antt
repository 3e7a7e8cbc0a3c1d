-- ===== src/Events/Session.antt =====
-- One subscription over time: sends by `Publish`, and the three steps of `forward`, in any order.
use requestinspector_relay.Base.{
  ◌≡◌, refl, sym, ◌∙◌, ap, List, [], ◌∷◌, ◌++◌, Option, none, some, false, arith, append_assoc,
}
use requestinspector_relay.Events.{
  BusLimits, QueuedEnvelope, Subscriber, is_overloaded, forward_take, forward_hand, forward_done,
}
use requestinspector_relay.Events.Delivery.{
  held, outstanding, IsAccounted, enqueue, outstanding-enqueue, enqueue-IsAccounted,
  forward_take-IsAccounted, forward_hand-IsAccounted, forward_done-IsAccounted,
}

-- `sent` is what the bus queued for the subscriber, `received` what its reader got.
pub record Session (Data : Type 0) : Type 0 where
  pub subscriber : Subscriber Data
  pub sent : List (QueuedEnvelope Data)
  pub received : List (QueuedEnvelope Data)

-- What the reader takes in a step of `forward_hand`, by what is delivered and what is handed.
abbrev pub taken_of :
    {Data : Type 0}
    → Option (QueuedEnvelope Data)
    → Option (QueuedEnvelope Data)
    → List (QueuedEnvelope Data)
taken_of (some q) handed = []
taken_of none handed = held handed

module _ {Data : Type 0} where
  pub data Step (l : BusLimits) (a b : Session Data) : Type 0 where
    send :
        (q : QueuedEnvelope Data)
        → is_overloaded l q.size a.subscriber ≡ false
        → b ≡ record a { subscriber = enqueue q a.subscriber; sent = a.sent ++ q ∷ [] }
        → Step l a b
    taken : b ≡ record a { subscriber = forward_take a.subscriber } → Step l a b
    handed :
        b ≡ record a {
          subscriber = forward_hand a.subscriber;
          received = a.received ++ taken_of a.subscriber.delivered a.subscriber.handed;
        }
        → Step l a b
    done : b ≡ record a { subscriber = forward_done a.subscriber } → Step l a b

  pub data Reach (l : BusLimits) (a : Session Data) : Session Data → Type 0 where
    here : Reach l a a
    next : {b c : Session Data} → Reach l a b → Step l b c → Reach l a c

  -- The accounts are in order, and what was sent is what was received and what is outstanding.
  pub record IsFaithful (l : BusLimits) (a : Session Data) : Type 0 where
    pub accounted : IsAccounted l a.subscriber
    pub stream : a.received ++ outstanding a.subscriber ≡ a.sent

  outstanding-forward_take : (s : Subscriber Data) → outstanding (forward_take s) ≡ outstanding s
  unfolding forward_take
  outstanding-forward_take s = by_parts s s.delivered s.handed s.queue refl refl refl
    where
      by_parts :
          (s : Subscriber Data) (d h : Option (QueuedEnvelope Data))
          (q : List (QueuedEnvelope Data))
          → s.delivered ≡ d
          → s.handed ≡ h
          → s.queue ≡ q
          → outstanding (forward_take s) ≡ outstanding s
      by_parts s (some y) h q ed eh eq = rw (ed, forward_take) refl
      by_parts s none (some x) q ed eh eq =
          rw (ed, forward_take) (rw (eh, forward_take) (ground arith))
      by_parts s none none [] ed eh eq =
          rw (ed, forward_take) (rw (eh, forward_take) (rw (eq, forward_take) (ground arith)))
      by_parts s none none (x ∷ q) ed eh eq =
          rw (ed, forward_take) (rw (eh, forward_take) (rw (eq, forward_take) (ground arith)))

  outstanding-forward_hand :
      (s : Subscriber Data)
      → taken_of s.delivered s.handed ++ outstanding (forward_hand s) ≡ outstanding s
  unfolding forward_hand
  outstanding-forward_hand s = by_parts s s.delivered s.handed refl refl
    where
      by_parts :
          (s : Subscriber Data) (d h : Option (QueuedEnvelope Data))
          → s.delivered ≡ d
          → s.handed ≡ h
          → taken_of s.delivered s.handed ++ outstanding (forward_hand s) ≡ outstanding s
      by_parts s (some y) h ed eh = rw (ed, forward_hand) refl
      by_parts s none none ed eh = rw (ed, forward_hand) (rw (eh, forward_hand) (ground arith))
      by_parts s none (some x) ed eh = rw (ed, forward_hand) (rw (eh, forward_hand) (ground arith))

  outstanding-forward_done : (s : Subscriber Data) → outstanding (forward_done s) ≡ outstanding s
  unfolding forward_done
  outstanding-forward_done s = by_parts s s.delivered refl
    where
      by_parts :
          (s : Subscriber Data) (d : Option (QueuedEnvelope Data))
          → s.delivered ≡ d
          → outstanding (forward_done s) ≡ outstanding s
      by_parts s none ed = rw (ed, forward_done) refl
      by_parts s (some x) ed = rw (ed, forward_done) refl

  Step-IsFaithful :
      (l : BusLimits) (a b : Session Data) → Step l a b → IsFaithful l a → IsFaithful l b
  Step-IsFaithful l a b (send q h e) f = rw e (record {
    accounted = enqueue-IsAccounted l q a.subscriber f.accounted h;
    stream =
        ap (◌++◌ a.received) (outstanding-enqueue q a.subscriber)
        ∙ sym (append_assoc a.received (outstanding a.subscriber) (q ∷ []))
        ∙ ap (λ x. x ++ q ∷ []) f.stream;
  })
  Step-IsFaithful l a b (taken e) f = rw e (record {
    accounted = forward_take-IsAccounted l a.subscriber f.accounted;
    stream = ap (◌++◌ a.received) (outstanding-forward_take a.subscriber) ∙ f.stream;
  })
  Step-IsFaithful l a b (handed e) f = rw e (record {
    accounted = forward_hand-IsAccounted l a.subscriber f.accounted;
    stream =
        append_assoc a.received (taken_of a.subscriber.delivered a.subscriber.handed)
          (outstanding (forward_hand a.subscriber))
        ∙ ap (◌++◌ a.received) (outstanding-forward_hand a.subscriber)
        ∙ f.stream;
  })
  Step-IsFaithful l a b (done e) f = rw e (record {
    accounted = forward_done-IsAccounted l a.subscriber f.accounted;
    stream = ap (◌++◌ a.received) (outstanding-forward_done a.subscriber) ∙ f.stream;
  })

  -- From a faithful subscription, however sends and reads are interleaved, what the reader got and
  -- what it has yet to read are together what was sent, in order and without a loss or a repetition,
  -- and the counts are right and within the limits.
  pub Reach-IsFaithful :
      (l : BusLimits) (a b : Session Data) → IsFaithful l a → Reach l a b → IsFaithful l b
  Reach-IsFaithful l a b f here = f
  Reach-IsFaithful l a b f (next {b = m} r st) =
      Step-IsFaithful l m b st (Reach-IsFaithful l a m f r)
