-- ===== src/App.antt =====
-- internal/app/udp_sessions.go: the replies of an upstream to one UDP client.
pub mod Sockets
pub mod Traffic
pub mod Management
pub mod Datagrams
pub mod Receive
mod Tests
mod PlaneTests
use requestinspector_relay.Base.{
  ℕ, ◌+◌, ◌-◌, ◌^◌, ◌≤◌, ◌<◌, ◌≡◌, String, List, [], ◌∷◌, Option, none, some, Bool, true, false,
  ltb, leb, if◌then◌else◌, length, All, arith, subst, sym,
}
use requestinspector_relay.Config.{Udp}

pub record UdpSession : Type 0 where
  pub window_start : ℕ
  pub replies : ℕ
  pub bytes : ℕ
  pub dropped : ℕ

abbrev renewed : UdpSession → ℕ → UdpSession
renewed s now =
    if leb (10 ^ 9) (now - s.window_start)
    then record s { window_start = now; replies = 0; bytes = 0 }
    else s

-- The session, and the reason of a refusal.
unfoldable pub allow_reply : Udp → UdpSession → ℕ → ℕ → UdpSession × Option String
allow_reply cfg s now size =
    let t = renewed s now in
    if leb cfg.max_replies_per_second t.replies
    then (t, some "reply_rate_limited")
    else if ltb cfg.max_reply_bytes_per_second (t.bytes + size)
    then (t, some "reply_byte_limited")
    else (record t { replies = t.replies + 1; bytes = t.bytes + size }, none)

unfoldable pub reject : UdpSession → UdpSession
reject s = record s { dropped = s.dropped + 1 }

-- One round of `receive`: the reply's size is written on to the client, or the reply is dropped.
unfoldable pub receive_one : Udp → UdpSession → ℕ → ℕ → UdpSession × Option ℕ
unfolding allow_reply reject
receive_one cfg s now size =
    if ltb cfg.max_datagram_bytes size
    then (reject s, none)
    else (let (t, reason) = allow_reply cfg s now size in
        (elim reason [ some text ↦ (reject t, none) | none ↦ (t, some size) ]))

abbrev sent_if : Option ℕ → List ℕ → List ℕ
sent_if none sent = sent
sent_if (some size) sent = size ∷ sent

-- The loop of `receive` over the arrivals, each with its time: the sizes sent on.
unfoldable pub receive : Udp → UdpSession → List (ℕ × ℕ) → UdpSession × List ℕ
unfolding receive_one
receive cfg s [] = (s, [])
receive cfg s ((now, size) ∷ arrivals) =
    let (t, one) = receive_one cfg s now size in
    let (last, sent) = receive cfg t arrivals in (last, sent_if one sent)

abbrev pub sum : List ℕ → ℕ
sum [] = 0
sum (n ∷ ns) = n + sum ns

-- One round within a window: the window stays, and what is sent on is counted and within the limits.
receive_one_lem :
    (cfg : Udp) (s : UdpSession) (now size : ℕ)
    → now - s.window_start < 10 ^ 9
    → s.replies ≤ cfg.max_replies_per_second
    → s.bytes ≤ cfg.max_reply_bytes_per_second
    → ((receive_one cfg s now size).0.window_start ≡ s.window_start)
      × ((receive_one cfg s now size).0.replies
          ≡ s.replies + length (sent_if (receive_one cfg s now size).1 []))
      × ((receive_one cfg s now size).0.bytes
          ≡ s.bytes + sum (sent_if (receive_one cfg s now size).1 []))
      × ((receive_one cfg s now size).0.replies ≤ cfg.max_replies_per_second)
      × ((receive_one cfg s now size).0.bytes ≤ cfg.max_reply_bytes_per_second)
unfolding receive_one allow_reply reject
receive_one_lem cfg s now size window r b = ground arith

length-sent_if :
    (o : Option ℕ) (sent : List ℕ) → length (sent_if o sent) ≡ length (sent_if o []) + length sent
length-sent_if none sent = omega arith
length-sent_if (some n) sent = omega arith

sum-sent_if : (o : Option ℕ) (sent : List ℕ) → sum (sent_if o sent) ≡ sum (sent_if o []) + sum sent
sum-sent_if none sent = omega arith
sum-sent_if (some n) sent = omega arith

-- Within one second from the start of the window, and from counts within the limits, whatever
-- arrives, the client gets no more replies and no more bytes than are left of the limits.
pub receive_bounds :
    (cfg : Udp) (s : UdpSession) (arrivals : List (ℕ × ℕ))
    → All (λ a. a.0 - s.window_start < 10 ^ 9) arrivals
    → s.replies ≤ cfg.max_replies_per_second
    → s.bytes ≤ cfg.max_reply_bytes_per_second
    → (s.replies + length (receive cfg s arrivals).1 ≤ cfg.max_replies_per_second)
      × (s.bytes + sum (receive cfg s arrivals).1 ≤ cfg.max_reply_bytes_per_second)
unfolding receive
receive_bounds cfg s [] window r b = (omega (arith, r), omega (arith, b))
receive_bounds cfg s ((now, size) ∷ arrivals) window r b =
    let one = receive_one cfg s now size in
    let l = receive_one_lem cfg s now size window.0 r b in
    let later : All (λ a. a.0 - one.0.window_start < 10 ^ 9) arrivals =
      subst (λ start. All (λ a. a.0 - start < 10 ^ 9) arrivals) (sym l.0) window.1 in
    let rest = receive_bounds cfg one.0 arrivals later l.3 l.4 in
    (
      omega (arith, rest.0, l.1, length-sent_if one.1 (receive cfg one.0 arrivals).1),
      omega (arith, rest.1, l.2, sum-sent_if one.1 (receive cfg one.0 arrivals).1),
    )
