-- ===== src/App/Tests.antt =====
-- A session with room for two replies, and three that arrive.
use requestinspector_relay.Base.{
  ℕ, List, ◌≡◌, ◌⊎◌, none, some, false, ◌+◌, ◌≤◌, true, [], ◌∷◌, arith, length,
}
use requestinspector_relay.Config.{Udp, Config, defaults}
use requestinspector_relay.Capture.Pipeline.{RepositoryOps, unreserved}
use requestinspector_relay.App.Receive.{
  DatagramEnv, Arrival, Ingestion, receive_datagram, receive_datagram-replies,
}
use requestinspector_relay.App.{UdpSession, receive, sum, receive_bounds}

abbrev pub test_udp : Udp
test_udp = record {
  enabled = true;
  listen = "a";
  mode = "proxy";
  upstream = "b";
  max_datagram_bytes = 100;
  max_sessions = 1;
  session_ttl = 1;
  capture_response = [];
  max_replies_per_second = 2;
  max_reply_bytes_per_second = 50;
}

abbrev test_session : UdpSession
test_session = record { window_start = 5; replies = 0; bytes = 0; dropped = 0 }

receive_bounds_example :
    (0 + length (receive test_udp test_session ((6, 20) ∷ (7, 40) ∷ (8, 20) ∷ [])).1 ≤ 2)
    × (0 + sum (receive test_udp test_session ((6, 20) ∷ (7, 40) ∷ (8, 20) ∷ [])).1 ≤ 50)
receive_bounds_example =
    receive_bounds test_udp test_session ((6, 20) ∷ (7, 40) ∷ (8, 20) ∷ [])
      (omega arith, (omega arith, (omega arith, tt))) (omega arith) (omega arith)

abbrev keeping_nothing : RepositoryOps (Unit {0})
keeping_nothing = record {
  save = λ r e. (r, []);
  reserve = λ r n. (r, unreserved);
  commit = λ r e. (r, none);
  cancel = λ r. r;
}

abbrev test_env : DatagramEnv
test_env = record { now = 5; new_id = some "x"; write = λ reply. (2, none); forward = none }

abbrev replying : Config
replying = record defaults {
  udp = record test_udp { mode = "capture"; capture_response = 1 ∷ 2 ∷ 3 ∷ [] };
}

abbrev arrival : Arrival
arrival = record { content = 7 ∷ 8 ∷ []; source = "c"; local_address = "l" }

abbrev nothing_yet : Ingestion (Unit {0})
nothing_yet = record { repository = tt; replies = []; announced = [] }

receive_datagram-replies_example :
    ((receive_datagram keeping_nothing test_env replying 1 arrival nothing_yet).replies ≡ [])
    ⊎ ((reply : List ℕ) × ((receive_datagram keeping_nothing test_env replying 1 arrival
            nothing_yet).replies
          ≡ reply ∷ [])
        × (length reply ≤ 2)
        × (length reply ≤ 3)
        × (2 ≤ 100)
        × (false ≡ false))
receive_datagram-replies_example =
    receive_datagram-replies keeping_nothing test_env replying 1 arrival nothing_yet
