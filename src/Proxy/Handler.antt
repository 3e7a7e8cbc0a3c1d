-- ===== src/Proxy/Handler.antt =====
-- internal/proxy/handler.go: one request forwarded to the upstream, and its answer. What the network
-- does is a parameter; the cache of transports by their limit, which only saves connections, is part
-- of it.
use requestinspector_relay.Base.{
  ℕ, String, List, [], ◌∷◌, Option, none, some, Bool, true, false, not, ◌||◌, ◌&&◌, ltb, leb, ◌==◌,
  if◌then◌else◌, str_eq, length, insert, erase, has_part, codes, Result, ok, err, format_uint,
}
use requestinspector_relay.Capture.Model.{
  Headers, Request, ConfigSnapshot, header_get, header_bytes_estimate,
}
use requestinspector_relay.Capture.Body.{Reader}
use requestinspector_relay.Capture.Pipeline.{ModeResult, HandleError}
use requestinspector_relay.Proxy.{Texts}
use requestinspector_relay.Proxy.Headers.{remove_hop_by_hop, has_upgrade, set_forwarding_headers}
use requestinspector_relay.Proxy.Url.{Url, Urls, compose_url}
use requestinspector_relay.Proxy.Body.{
  ReadError, limit_invalid, too_large, broken, read_response_body,
}
use requestinspector_relay.Proxy.Timing.{TraceRecorder, timing}
use requestinspector_relay.Proxy.Inspection.{Decompressors, inspect}

pub record ForwardedRequest : Type 0 where
  pub method : String
  pub url : String
  pub host : String
  pub headers : Headers
  pub body : List ℕ
  pub content_length : ℕ

pub record UpstreamResponse : Type 0 where
  pub status : ℕ
  pub headers : Headers
  pub body : Reader
  pub is_read_canceled : Bool
  pub close_error : Option String
  pub is_close_canceled : Bool

-- An error of the transport: its text, and what `errors.Is` finds in it.
pub record TransportError : Type 0 where
  pub text : String
  pub is_canceled : Bool
  pub is_deadline : Bool

-- What one request meets: whether `http.NewRequestWithContext` accepts a method and an address, the
-- host of an address, what the client's `Do` yields, the moments of the trace, and whether, when an
-- error is classified, the client has gone away or the time is up.
pub record Network : Type 0 where
  pub is_request : String → String → Bool
  pub url_host : String → String
  pub perform : ForwardedRequest → Result TransportError UpstreamResponse
  pub moments : TraceRecorder
  pub captured_at : ℕ
  pub is_canceled : Bool
  pub is_deadline_exceeded : Bool

abbrev no_result : ModeResult
no_result = record {
  response = record { status = 0; headers = []; body = [] };
  captured_response = none;
  effective_upstream = "";
  proxy_timing = none;
  request_inspection = none;
  upstream_response_header_bytes_estimate = 0;
  upstream_observed_response_body_bytes = 0;
}

-- `failure`; `errors.Is` looks into its cause.
abbrev failure : ℕ → String → String → Bool → HandleError
failure status category message is_canceled = record {
  is_canceled = is_canceled;
  failure = some (record { status = status; category = category; message = message });
}

-- The error of the parent context.
abbrev parent_error : HandleError
parent_error = record { is_canceled = true; failure = none }

unfoldable pub classify_transport_error : Network → TransportError → HandleError
classify_transport_error network e =
    if network.is_canceled
    then parent_error
    else if network.is_deadline_exceeded || e.is_deadline
    then failure 504 "upstream_timeout" "Upstream request timed out." e.is_canceled
    else if has_part (codes "response headers exceeded") (codes e.text)
    then failure 502 "response_headers_too_large"
        "Upstream response headers exceed configured limit." e.is_canceled
    else failure 502 "upstream_unavailable" "Upstream connection could not be established."
        e.is_canceled

-- What `Handle` does after an error of the body that is not its length.
abbrev interrupted : Network → Bool → HandleError
interrupted network is_canceled =
    if network.is_deadline_exceeded
    then failure 504 "upstream_timeout" "Upstream request timed out." is_canceled
    else if network.is_canceled
    then parent_error
    else failure 502 "response_body_read_failed" "Upstream response body could not be read."
        is_canceled

-- The error of reading the body, or else of closing it.
unfoldable pub read_failure : Network → UpstreamResponse → Option ReadError → Option HandleError
read_failure network response (some too_large) =
    some (
      failure 502 "response_body_too_large" "Upstream response body exceeds configured limit."
        false)
read_failure network response (some limit_invalid) = some (interrupted network false)
read_failure network response (some (broken text)) =
    some (interrupted network response.is_read_canceled)
read_failure network response none = elim response.close_error [
  | none ↦ none
  | some text ↦ some (interrupted network response.is_close_canceled)
]

-- Whether closing the body, unread, told that the request was cancelled.
abbrev closing : UpstreamResponse → Bool
closing response = elim response.close_error [
  | none ↦ false
  | some text ↦ response.is_close_canceled
]

module _ (texts : Texts) where
  unfoldable pub build_request : Network → String → Request → Option ForwardedRequest
  build_request network destination incoming =
      if not (network.is_request incoming.method destination)
      then none
      else some (record {
        method = incoming.method;
        url = destination;
        host = network.url_host destination;
        headers =
            set_forwarding_headers texts
              (erase (texts.canonical "Content-Length") (remove_hop_by_hop texts incoming.headers))
              incoming.remote_address incoming.host incoming.scheme;
        body = incoming.body;
        content_length = length incoming.body;
      })

  unfoldable pub adjust_content_length : Headers → String → ℕ → ℕ → Headers
  adjust_content_length headers method status body_length =
      if str_eq method "HEAD" || (status == 304)
      then headers
      else if leb 100 status && ltb status 200 || (status == 204) || (status == 205)
      then erase (texts.canonical "Content-Length") headers
      else insert (texts.canonical "Content-Length") (format_uint body_length ∷ []) headers

  module _ (libraries : Decompressors) (network : Network) where
    -- The end of `Handle`, with the body.
    unfoldable pub deliver :
        Request → ConfigSnapshot → ModeResult → UpstreamResponse → Headers → List ℕ → ℕ → ModeResult
    unfolding adjust_content_length
    deliver incoming snapshot result response headers body observed =
        let inspection =
          inspect texts libraries body (header_get headers (texts.canonical "Content-Encoding"))
            snapshot.preview snapshot.limits.response_body_bytes in
        let adjusted =
          adjust_content_length headers incoming.method response.status (length body) in
        record result {
          proxy_timing = some (timing network.moments (some network.captured_at));
          captured_response = some (record {
            status = response.status;
            headers = adjusted;
            body = body;
            observed_body_bytes = observed;
            body_complete = true;
            header_bytes_estimate = header_bytes_estimate texts.canonical adjusted "";
            origin = "upstream";
            preview = inspection.preview;
            preview_truncated = inspection.preview_truncated;
            decoded_preview_bytes = inspection.decoded_preview_bytes;
            preview_error = inspection.error;
          });
          response = record { status = response.status; headers = adjusted; body = body };
        }

    abbrev timed : ModeResult → ModeResult
    timed result = record result { proxy_timing = some (timing network.moments none) }

    -- `Handle` from the answer of `Do` on.
    unfoldable pub receive_response :
        Request → ConfigSnapshot → ModeResult → UpstreamResponse → ModeResult × Option HandleError
    unfolding deliver read_failure
    receive_response incoming snapshot result response =
        if response.status == 101
        then (
          timed result,
          some (
              failure 502 "unsupported_upstream_upgrade"
                "Upstream attempted an unsupported protocol upgrade." (closing response)),
        )
        else (let headers = remove_hop_by_hop texts response.headers in
            let header_bytes = header_bytes_estimate texts.canonical headers "" in
            let counted : ModeResult = record result {
              upstream_response_header_bytes_estimate = header_bytes;
            } in
            if ltb snapshot.limits.response_header_bytes header_bytes
            then (
              timed counted,
              some (
                  failure 502 "response_headers_too_large"
                    "Upstream response headers exceed configured limit." (closing response)),
            )
            else (let (body, observed, read_error) =
                  read_response_body response.body snapshot.limits.response_body_bytes in
                let observing : ModeResult = record counted {
                  upstream_observed_response_body_bytes = observed;
                } in
                (elim (read_failure network response read_error) [
                  | some e ↦ (timed observing, some e)
                  | none ↦
                      (deliver incoming snapshot observing response headers body observed, none)
                ])))

    -- The result that `Handle` starts with, once the address is composed.
    abbrev pub begun : Urls → Url → Request → ConfigSnapshot → ModeResult
    begun urls url incoming snapshot = record no_result {
      effective_upstream = urls.to_text url;
      request_inspection = some (
          inspect texts libraries incoming.body
            (header_get incoming.headers (texts.canonical "Content-Encoding")) snapshot.preview
            snapshot.limits.request_body_bytes);
    }

    unfoldable pub handle : Urls → Request → ConfigSnapshot → ModeResult × Option HandleError
    unfolding build_request classify_transport_error receive_response
    handle urls incoming snapshot =
        elim (compose_url texts urls snapshot.upstream.url incoming.path incoming.raw_query) [
          | err e ↦ (
            no_result,
            some (failure 502 "invalid_upstream" "Configured upstream URL is invalid." false),
          )
          | ok url ↦
              (let destination = urls.to_text url in
                let result = begun urls url incoming snapshot in
                if str_eq incoming.method "CONNECT" || has_upgrade texts incoming.headers
                then (
                  result,
                  some (
                      failure 501 "unsupported_upgrade"
                        "HTTP upgrades and CONNECT tunnels are not supported." false),
                )
                else (elim (build_request network destination incoming) [
                  | none ↦ (
                    result,
                    some (
                        failure 502 "upstream_request_failed"
                          "Upstream request could not be created." false),
                  )
                  | some request ↦ (elim (network.perform request) [
                    | err e ↦ (timed result, some (classify_transport_error network e))
                    | ok response ↦ receive_response incoming snapshot result response
                  ])
                ]))
        ]
