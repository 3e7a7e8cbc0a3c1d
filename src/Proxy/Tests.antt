-- ===== src/Proxy/Tests.antt =====
-- A request that is forwarded to an upstream at http://u, and its answer.
use Prim.Native.String.{◌++◌}
use requestinspector_relay.Base.{
  arith, ◌||◌, erase, insert, ◌+◌, ◌-◌, ◌/◌, ◌≤◌, String, [], ◌∷◌, ◌≡◌, ◌≢◌, refl, none, some, true,
  false, str_eq, lookup, length, ok, err, max, split_commas,
}
use requestinspector_relay.Capture.Body.{read_body, read_all_limited}
use requestinspector_relay.Capture.Model.{Request}
use requestinspector_relay.Capture.Tests.{test_request, test_snapshot, test_reader}
use requestinspector_relay.Proxy.{Texts}
use requestinspector_relay.Proxy.Headers.{
  remove_hop_by_hop, set_forwarding_headers, delete_all, connection_names, peer_host,
}
use requestinspector_relay.Proxy.Url.{
  Url, Urls, compose_url, compose_url_lem, join_escaped_path, without_slash, starts_with_slash,
  absolute,
}
use requestinspector_relay.Proxy.Body.{
  read_response_body, read_response_body-read_body, as_body_error,
}
use requestinspector_relay.Proxy.Timing.{TraceRecorder, timing, timing_bounds}
use requestinspector_relay.Proxy.Inspection.{
  Decompressors, decode_encodings, decode_encodings_bounds, parse_encodings, expanded, decode_each,
  decode_one, read_decoding,
}
use requestinspector_relay.Proxy.Handler.{
  ForwardedRequest, Network, UpstreamResponse, build_request, handle,
}
use requestinspector_relay.Proxy.Forwarding.{forwarded, build_request_lem}
use requestinspector_relay.Proxy.Outcome.{Handled, handle-Handled}

abbrev texts : Texts
texts = record {
  canonical = λ name. name;
  trim_space = λ text. text;
  equal_fold = str_eq;
  to_lower = λ text. text;
  split_host_port = λ address. some (address, "1");
  is_ip = λ address. false;
}

abbrev upstream_url : Url
upstream_url = record {
  scheme = "http";
  host = "u";
  has_user = false;
  fragment = "";
  raw_query = "";
  force_query = false;
  path = "/a/";
  raw_path = "";
}

abbrev urls : Urls
urls = record {
  parse = λ text. some upstream_url;
  escaped_path = λ url. "/a/";
  path_unescape = λ text. some text;
  to_text = λ url. "http://u/a/";
}

abbrev libraries : Decompressors
libraries = record {
  gzip = λ encoded. ok (record { reader = test_reader; close_error = none });
  zlib = λ encoded. err "no zlib";
  quoted = λ text. text;
}

abbrev client_request : Request
client_request = record test_request {
  headers = ("Connection", "X-Secret" ∷ []) ∷ ("X-Secret", "s" ∷ []) ∷ ("Accept", "t" ∷ []) ∷ [];
  body = 1 ∷ 2 ∷ [];
}

abbrev answering : UpstreamResponse
answering = record {
  status = 200;
  headers = ("Upgrade", "x" ∷ []) ∷ [];
  body = test_reader;
  is_read_canceled = false;
  close_error = none;
  is_close_canceled = false;
}

abbrev moments : TraceRecorder
moments = record { upstream_started = 1000; request_written = 2500; first_response_byte = 4100 }

abbrev network : Network
network = record {
  is_request = λ method destination. true;
  url_host = λ destination. "u";
  perform = λ request. ok answering;
  moments = moments;
  captured_at = 7000;
  is_canceled = false;
  is_deadline_exceeded = false;
}

abbrev sent : ForwardedRequest
sent = record {
  method = "GET";
  url = "http://u/a/";
  host = "u";
  headers =
      ("Accept", "t" ∷ [])
      ∷ ("X-Forwarded-For", "b" ∷ [])
      ∷ ("X-Forwarded-Host", "a" ∷ [])
      ∷ ("X-Forwarded-Proto", "http" ∷ [])
      ∷ [];
  body = 1 ∷ 2 ∷ [];
  content_length = 2;
}

is_built : build_request texts network "http://u/a/" client_request ≡ some sent
unfolding build_request remove_hop_by_hop set_forwarding_headers delete_all connection_names
    peer_host erase insert split_commas lookup
is_built = refl

build_request_lem_example :
    ((key : String) → lookup key sent.headers ≡ forwarded texts client_request key)
    × (sent.body ≡ client_request.body)
    × (sent.content_length ≡ length client_request.body)
    × (sent.method ≡ client_request.method)
    × (sent.url ≡ "http://u/a/")
build_request_lem_example =
    build_request_lem texts (record { proto = refl; host = refl; client = refl }) network
      "http://u/a/" client_request sent is_built

handle-Handled_example :
    Handled texts libraries network client_request test_snapshot
      (handle texts libraries network urls client_request test_snapshot)
handle-Handled_example =
    handle-Handled texts libraries network urls client_request test_snapshot (omega arith)

read_response_body-read_body_example :
    ((read_response_body test_reader 2).0 ≡ (read_body test_reader 2).0)
    × ((read_response_body test_reader 2).1 ≡ (read_body test_reader 2).1)
    × (as_body_error (read_response_body test_reader 2).2 ≡ (read_body test_reader 2).2)
read_response_body-read_body_example = read_response_body-read_body test_reader 2

timing_total : (timing moments (some 7000)).upstream_total_duration_us ≡ some 4
unfolding timing
timing_total = refl

timing_bounds_example : (1000 ≤ 7000) × (4 ≤ (7000 - 1000) / 1000) × ((7000 - 1000) / 1000 ≤ 4 + 2)
timing_bounds_example = timing_bounds moments 7000 4 timing_total

is_decoded : decode_encodings texts libraries (9 ∷ []) "gzip" 8 ≡ ok (1 ∷ 2 ∷ 3 ∷ [])
unfolding decode_encodings parse_encodings decode_each decode_one read_decoding split_commas
    read_all_limited
is_decoded = refl

decode_encodings_bounds_example :
    (3 ≤ max 1 8) × (3 ≤ expanded (length (parse_encodings texts libraries "gzip")) (max 1 1))
decode_encodings_bounds_example =
    decode_encodings_bounds texts libraries (9 ∷ []) "gzip" 8 (1 ∷ 2 ∷ 3 ∷ []) is_decoded

abbrev composed : Url
composed = record upstream_url { path = "/a/b"; raw_path = "/a/b"; raw_query = "q" }

is_composed : compose_url texts urls "http://u/a/" "/b" "q" ≡ ok composed
unfolding compose_url join_escaped_path
is_composed = refl

compose_url_lem_example :
    (composed.host ≢ "")
    × (composed.has_user ≡ false)
    × (composed.fragment ≡ "")
    × (composed.raw_query ≡ "q")
    × (composed.force_query ≡ false)
    × (starts_with_slash (absolute "/b") ≡ true)
    × (destination : Url) × (urls.parse "http://u/a/" ≡ some destination)
    × (texts.equal_fold destination.scheme "http" || texts.equal_fold destination.scheme "https"
        ≡ true)
    × (destination.raw_query ≡ "")
    × (destination.force_query ≡ false)
    × (composed.host ≡ destination.host)
    × (composed.raw_path
        ≡ without_slash
            (urls.escaped_path (record destination { scheme = texts.to_lower destination.scheme }))
          ++ absolute "/b")
compose_url_lem_example = compose_url_lem texts urls "http://u/a/" "/b" "q" composed is_composed
