-- ===== src/Capture/Pipeline/Tests.antt =====
-- Requests to a pipeline with a handler that answers 200, and a repository that keeps nothing.
use requestinspector_relay.Base.{[], ◌∷◌, ◌≡◌, ◌+◌, refl, none, some, false, arith}
use requestinspector_relay.Capture.Model.{receiving}
use requestinspector_relay.Capture.Tests.{test_snapshot, test_exchange, test_reader}
use requestinspector_relay.Capture.Pipeline.{
  RepositoryOps, Surroundings, World, Reserved, refused, reserved, Admission, saved,
}
use requestinspector_relay.Capture.Pipeline.Gate.{admit, start, next, enter, Reach-in_flight}
use requestinspector_relay.Capture.Pipeline.Serve.{Incoming, process, serve_http}
use requestinspector_relay.Capture.Pipeline.Follows.{saved_states, Ends}
use requestinspector_relay.Capture.Pipeline.Outcome.{process-Ends}
use requestinspector_relay.Capture.Pipeline.Requests.{
  IsSettled, serve_http-IsSettled, answered, serve_http-unpersisted,
}

abbrev answering : Reserved → RepositoryOps (Unit {0})
answering answer = record {
  save = λ r e. (r, []);
  reserve = λ r n. (r, answer);
  commit = λ r e. (r, none);
  cancel = λ r. r;
}

abbrev test_env : Surroundings
test_env = record {
  now = λ k. k;
  new_id = some "x";
  handlers = λ mode. some (λ request snapshot. (
    record {
      response = record { status = 200; headers = []; body = 111 ∷ [] };
      captured_response = none;
      effective_upstream = "";
      proxy_timing = none;
      request_inspection = none;
      upstream_response_header_bytes_estimate = 0;
      upstream_observed_response_body_bytes = 0;
    },
    none,
  ));
  is_canceled = false;
  write = λ body. (1, none);
  error_body = λ code message. some [];
  canonical = λ name. name;
}

abbrev no_admission : Admission
no_admission = record { in_flight = 0; admission_rejected = 0; body_too_large = 0 }

abbrev idle : World (Unit {0})
idle = record { admission = no_admission; repository = tt; clock = 5; log = [] }

abbrev busy : World (Unit {0})
busy = record idle {
  admission = record { in_flight = 2; admission_rejected = 0; body_too_large = 0 };
}

abbrev test_incoming : Incoming
test_incoming = record {
  method = "GET";
  is_tls = false;
  proto = "HTTP/1.1";
  host = "a";
  request_uri = "/";
  escaped_path = "/";
  raw_query = "";
  remote_addr = "b";
  headers = [];
  body = test_reader;
}

serve_http-IsSettled_example :
    IsSettled
      (answering reserved)
      test_env
      0
      1
      (serve_http (answering reserved) test_env idle test_incoming test_snapshot)
unfolding admit
serve_http-IsSettled_example =
    serve_http-IsSettled (answering reserved) test_env idle test_incoming test_snapshot "x" refl
      refl refl (ground arith)

process-Ends_example : Ends 0 (
    process
      (answering reserved)
      test_env
      (record idle { log = saved (test_exchange "x" receiving 0) ∷ [] })
      (test_exchange "x" receiving 0)
      test_snapshot
      test_reader)
process-Ends_example =
    process-Ends (answering reserved) test_env test_snapshot
      (record idle { log = saved (test_exchange "x" receiving 0) ∷ [] })
      (test_exchange "x" receiving 0) test_reader
      (record { before = []; states = refl; path = tt; admitted = refl; unsettled = refl }) refl

serve_http-unpersisted_example :
    (answered
        (answering refused)
        test_env
        (serve_http (answering refused) test_env idle test_incoming test_snapshot).log
      ≡ some 503)
    × (saved_states (serve_http (answering refused) test_env idle test_incoming test_snapshot).log
        ≡ [])
    × ((serve_http
          (answering refused)
          test_env
          idle
          test_incoming
          test_snapshot).admission.in_flight
        ≡ 0)
    × ((serve_http
          (answering refused)
          test_env
          idle
          test_incoming
          test_snapshot).admission.admission_rejected
        ≡ 0 + 1)
serve_http-unpersisted_example =
    serve_http-unpersisted (answering refused) test_env idle test_incoming test_snapshot refl
      (ground arith) refl

Reach-in_flight_example : (admit no_admission 2).0.in_flight ≡ 1
unfolding admit
Reach-in_flight_example = Reach-in_flight (next start (enter 2 refl refl refl))
