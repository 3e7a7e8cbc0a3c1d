-- ===== src/Capture/Model.antt =====
-- internal/capture/model.go: the data of an exchange. Times are nanoseconds from Go's zero time, so
-- that 0 is `IsZero`; bodies are lists of bytes. A value here is immutable, so the deep copies that
-- `Clone` makes against later writes are the values themselves.
use Prim.Native.String.{len}
use requestinspector_relay.Base.{
  ℕ, ◌+◌, String, List, [], ◌∷◌, Bool, true, false, Option, none, some, lookup, if◌then◌else◌,
  str_eq, not,
}
use requestinspector_relay.Config.{Config, Upstream, CaptureResponse, Limits, Preview, Storage}

pub data State : Type 0 where
  receiving forwarding completed failed cancelled discarded : State

pub data Transport : Type 0 where
  http udp : Transport

abbrev pub Headers : Type 0
Headers = List (String × List String)

pub record ConfigSnapshot : Type 0 where
  pub revision : ℕ
  pub mode : String
  pub upstream : Upstream
  pub capture : CaptureResponse
  pub limits : Limits
  pub preview : Preview
  pub storage : Storage

unfoldable pub new_config_snapshot : Config → ℕ → ConfigSnapshot
new_config_snapshot cfg revision = record {
  revision = revision;
  mode = cfg.mode;
  upstream = cfg.upstream;
  capture = cfg.capture;
  limits = cfg.limits;
  preview = cfg.preview;
  storage = cfg.storage;
}

pub record Request : Type 0 where
  pub method : String
  pub scheme : String
  pub protocol : String
  pub host : String
  pub request_target : String
  pub path : String
  pub raw_query : String
  pub remote_address : String
  pub headers : Headers
  pub content_type : String
  pub body : List ℕ
  pub observed_body_bytes : ℕ
  pub body_complete : Bool
  pub header_bytes_estimate : ℕ
  pub preview : List ℕ
  pub preview_truncated : Bool
  pub decoded_preview_bytes : Option ℕ
  pub preview_error : String

pub record Response : Type 0 where
  pub status : ℕ
  pub headers : Headers
  pub body : List ℕ
  pub observed_body_bytes : ℕ
  pub body_complete : Bool
  pub header_bytes_estimate : ℕ
  pub origin : String
  pub preview : List ℕ
  pub preview_truncated : Bool
  pub decoded_preview_bytes : Option ℕ
  pub preview_error : String

pub record ProxyTiming : Type 0 where
  pub upstream_started_at : Option ℕ
  pub request_written_at : Option ℕ
  pub first_response_byte_at : Option ℕ
  pub response_captured_at : Option ℕ
  pub downstream_completed_at : Option ℕ
  pub upstream_dispatch_duration_us : Option ℕ
  pub upstream_wait_duration_us : Option ℕ
  pub upstream_receive_duration_us : Option ℕ
  pub upstream_total_duration_us : Option ℕ
  pub downstream_write_duration_us : Option ℕ
  pub proxy_total_duration_us : Option ℕ

pub record ExchangeError : Type 0 where
  pub category : String
  pub message : String

pub record DownstreamDelivery : Type 0 where
  pub status : ℕ
  pub body_bytes : ℕ
  pub error : String

pub record DatagramDelivery : Type 0 where
  pub result : String
  pub sent_bytes : ℕ
  pub message : String
  pub truncated : Bool

pub record Datagram : Type 0 where
  pub source_address : String
  pub local_address : String
  pub accepted_bytes : ℕ
  pub payload : List ℕ
  pub payload_complete : Bool
  pub preview : List ℕ
  pub preview_truncated : Bool
  pub discard_reason : String
  pub delivery : DatagramDelivery

pub record PersistenceStatus : Type 0 where
  pub state : String
  pub error : String

pub record Exchange : Type 0 where
  pub id : String
  pub transport : Transport
  pub mode : String
  pub config_revision : ℕ
  pub configuration : ConfigSnapshot
  pub revision : ℕ
  pub state : State
  pub started_at : ℕ
  pub completed_at : ℕ
  pub duration : ℕ
  pub request : Request
  pub datagram : Option Datagram
  pub response : Option Response
  pub effective_upstream : String
  pub upstream_response_header_bytes_estimate : ℕ
  pub upstream_observed_response_body_bytes : ℕ
  pub proxy_timing : Option ProxyTiming
  pub error : Option ExchangeError
  pub downstream_delivery : DownstreamDelivery
  pub persistence : Option PersistenceStatus
  pub started_monotonic : ℕ

unfoldable pub is_terminal : State → Bool
is_terminal receiving = false
is_terminal forwarding = false
is_terminal completed = true
is_terminal failed = true
is_terminal cancelled = true
is_terminal discarded = true

-- `Header.Get` at a canonical name: the first value, or the empty text.
unfoldable pub header_get : Headers → String → String
unfolding lookup
header_get headers name = elim (lookup name headers) [
  | none ↦ ""
  | some values ↦ elim values [ [] ↦ "" | value ∷ _ ↦ value ]
]

-- The inner loop of `HeaderBytesEstimate`.
value_bytes : String → List String → ℕ
value_bytes name [] = 0
value_bytes name (value ∷ values) = len name + 2 + len value + 2 + value_bytes name values

-- Its outer loop; `canonical` is `http.CanonicalHeaderKey`.
headers_bytes : (String → String) → Headers → ℕ
headers_bytes canonical [] = 0
headers_bytes canonical ((name, values) ∷ headers) =
    if str_eq (canonical name) "Host"
    then headers_bytes canonical headers
    else value_bytes name values + headers_bytes canonical headers

unfoldable pub header_bytes_estimate : (String → String) → Headers → String → ℕ
unfolding headers_bytes value_bytes
header_bytes_estimate canonical headers host =
    2
    + headers_bytes canonical headers
    + (if not (str_eq host "") then len "Host" + 2 + len host + 2 else 0)
