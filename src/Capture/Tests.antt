-- ===== src/Capture/Tests.antt =====
-- Concrete exchanges, and runs of internal/capture on them.
use requestinspector_relay.Base.{ℕ, String, [], ◌∷◌, ◌≡◌, none, true, false, ◌≤◌, ◌+◌, length, take}
use requestinspector_relay.Config.{pos}
use requestinspector_relay.Capture.Model.{ConfigSnapshot, Request, Exchange, State, http}
use requestinspector_relay.Capture.Body.{Reader, read_body, read_body_bounds}

abbrev pub test_snapshot : ConfigSnapshot
test_snapshot = record {
  revision = 4;
  mode = "capture";
  upstream = record { url = ""; timeout = 30 };
  capture = record { status = 200; headers = []; body = 111 ∷ 107 ∷ [] };
  limits = record {
    request_body_bytes = 8;
    response_body_bytes = 8;
    request_header_bytes = 100;
    response_header_bytes = 100;
    concurrent_exchanges = 2;
  };
  preview = record { enabled = true; bytes = 4 };
  storage = record { mode = "memory"; sqlite_path = ""; retention_days = pos 7 };
}

abbrev pub test_request : Request
test_request = record {
  method = "GET";
  scheme = "http";
  protocol = "HTTP/1.1";
  host = "a";
  request_target = "/";
  path = "/";
  raw_query = "";
  remote_address = "b";
  headers = [];
  content_type = "";
  body = [];
  observed_body_bytes = 0;
  body_complete = false;
  header_bytes_estimate = 11;
  preview = [];
  preview_truncated = false;
  decoded_preview_bytes = none;
  preview_error = "";
}

abbrev pub test_exchange : String → State → ℕ → Exchange
test_exchange id state completed_at = record {
  id = id;
  transport = http;
  mode = "capture";
  config_revision = 4;
  configuration = test_snapshot;
  revision = 1;
  state = state;
  started_at = 3;
  completed_at = completed_at;
  duration = 0;
  request = test_request;
  datagram = none;
  response = none;
  effective_upstream = "";
  upstream_response_header_bytes_estimate = 0;
  upstream_observed_response_body_bytes = 0;
  proxy_timing = none;
  error = none;
  downstream_delivery = record { status = 0; body_bytes = 0; error = "" };
  persistence = none;
  started_monotonic = 3;
}

abbrev pub test_reader : Reader
test_reader = record { content = 1 ∷ 2 ∷ 3 ∷ []; failure = none }

read_body_bounds_example :
    (length (read_body test_reader 2).0 ≤ 2)
    × ((read_body test_reader 2).1 ≤ 2 + 1)
    × ((read_body test_reader 2).0 ≡ take (length (read_body test_reader 2).0) test_reader.content)
read_body_bounds_example = read_body_bounds test_reader 2
