-- ===== src/Proxy/Outcome.antt =====
-- What `Handle` of internal/proxy/handler.go answers: the upstream's response as a whole, or none.
use requestinspector_relay.Base.{
  ℕ, ◌≤◌, ◌<◌, String, List, [], ◌≡◌, ◌≢◌, ◌⊎◌, inl, inr, refl, Option, none, some, true, false,
  ◌==◌, ltb, ltb-eq-false, ==_iff, length, arith, Bool-cases, Option-cases, ok, Result-cases,
  str_eq, ◌||◌, ◌+◌, take_all, length-take, subst,
}
use requestinspector_relay.Capture.Model.{Request, Response, ConfigSnapshot, header_bytes_estimate}
use requestinspector_relay.Capture.Pipeline.{ModeResult, ModeError, HandleError}
use requestinspector_relay.Proxy.{Texts}
use requestinspector_relay.Proxy.Headers.{remove_hop_by_hop, has_upgrade}
use requestinspector_relay.Proxy.Url.{Urls, compose_url}
use requestinspector_relay.Proxy.Body.{
  ReadError, limit_invalid, too_large, broken, read_response_body,
}
use requestinspector_relay.Proxy.Inspection.{Decompressors}
use requestinspector_relay.Proxy.Handler.{
  Network, ForwardedRequest, UpstreamResponse, TransportError, classify_transport_error,
  read_failure, build_request, adjust_content_length, begun, deliver, receive_response, handle,
}

-- An error of the proxy: the client went away, or an answer of 501, 502 or 504.
abbrev IsProxyError : Network → Option ModeError → Type 0
IsProxyError network none = network.is_canceled ≡ true
IsProxyError network (some f) = (f.status ≡ 501) ⊎ ((f.status ≡ 502) ⊎ (f.status ≡ 504))

-- With an error, no response is kept or answered.
pub record IsRefused (network : Network) (result : ModeResult) (e : HandleError) : Type 0 where
  pub uncaptured : result.captured_response ≡ none
  pub empty : result.response.body ≡ []
  pub unstarted : result.response.status ≡ 0
  pub error : IsProxyError network e.failure

-- Without one, the upstream was asked once and what it answered is kept and answered, whole.
pub record IsDelivered (texts : Texts) (incoming : Request) (snapshot : ConfigSnapshot)
    (upstream : UpstreamResponse) (result : ModeResult) : Type 0 where
  pub status : result.response.status ≡ upstream.status
  pub body : result.response.body ≡ upstream.body.content
  pub headers :
      result.response.headers
      ≡ adjust_content_length texts
          (remove_hop_by_hop texts upstream.headers)
          incoming.method
          upstream.status
          (length upstream.body.content)
  pub body_within : length upstream.body.content ≤ snapshot.limits.response_body_bytes
  pub headers_within :
      header_bytes_estimate texts.canonical (remove_hop_by_hop texts upstream.headers) ""
      ≤ snapshot.limits.response_header_bytes
  pub unswitched : upstream.status ≢ 101
  pub captured : Response
  pub is_captured : result.captured_response ≡ some captured
  pub same_status : captured.status ≡ upstream.status
  pub same_body : captured.body ≡ upstream.body.content
  pub same_headers : captured.headers ≡ result.response.headers

module _ (texts : Texts) (libraries : Decompressors) (network : Network) where
  abbrev Outcome :
      Request → ConfigSnapshot → UpstreamResponse → ModeResult × Option HandleError → Type 0
  Outcome incoming snapshot upstream (result, none) =
      IsDelivered texts incoming snapshot upstream result
  Outcome incoming snapshot upstream (result, some e) = IsRefused network result e

  abbrev Refusal : Option HandleError → Type 0
  Refusal none = Unit
  Refusal (some e) = IsProxyError network e.failure

  read_failure_lem :
      (upstream : UpstreamResponse) (failure : Option ReadError)
      → Refusal (read_failure network upstream failure)
  unfolding read_failure
  read_failure_lem upstream (some limit_invalid) = ground arith
  read_failure_lem upstream (some too_large) = ground arith
  read_failure_lem upstream (some (broken text)) = ground arith
  read_failure_lem upstream none = ground arith

  classify_lem :
      (e : TransportError) → IsProxyError network (classify_transport_error network e).failure
  unfolding classify_transport_error
  classify_lem e = ground arith

  -- Below the largest limit, the errors of reading that are none leave the whole body.
  read_whole :
      (upstream : UpstreamResponse) (limit : ℕ)
      → limit < 9223372036854775807
      → read_failure network upstream (read_response_body upstream.body limit).2 ≡ none
      → ((read_response_body upstream.body limit).0 ≡ upstream.body.content)
        × (length upstream.body.content ≤ limit)
  unfolding read_failure read_response_body
  read_whole upstream limit small h = ground (
    arith,
    take_all (limit + 1) upstream.body.content,
    length-take (limit + 1) upstream.body.content,
  )

  -- A result that holds no response yet.
  abbrev IsBlank : ModeResult → Type 0
  IsBlank result =
      (result.captured_response ≡ none) × (result.response.body ≡ []) × (result.response.status ≡ 0)

  refused :
      (result : ModeResult) (e : HandleError)
      → IsBlank result
      → IsProxyError network e.failure
      → IsRefused network result e
  refused result e blank error = record {
    uncaptured = blank.0;
    empty = blank.1;
    unstarted = blank.2;
    error = error;
  }

  receive_response-Outcome :
      (incoming : Request) (snapshot : ConfigSnapshot) (result : ModeResult)
      (upstream : UpstreamResponse)
      → snapshot.limits.response_body_bytes < 9223372036854775807
      → IsBlank result
      → Outcome incoming snapshot upstream
          (receive_response texts libraries network incoming snapshot result upstream)
  unfolding receive_response deliver
  receive_response-Outcome incoming snapshot result upstream small blank =
      elim (Bool-cases (upstream.status == 101)) [
        | inl switching ↦ rw (switching, receive_response) (refused _ _ blank (inr (inl refl)))
        | inr plain ↦ elim (Bool-cases (ltb snapshot.limits.response_header_bytes estimate)) [
          | inl long ↦
              rw (plain, receive_response)
                (rw (long, receive_response) (refused _ _ blank (inr (inl refl))))
          | inr short ↦ elim (Option-cases (read_failure network upstream reading.2)) [
            | inr (e, bad) ↦
                rw (plain, receive_response)
                  (rw (short, receive_response)
                    (rw bad (
                      refused _ _ blank (subst Refusal bad (read_failure_lem upstream reading.2)))))
            | inl good ↦
                let whole = read_whole upstream snapshot.limits.response_body_bytes small good in
                rw (plain, receive_response)
                  (rw (short, receive_response)
                    (rw (good, whole.0)
                      (record {
                        status = refl;
                        body = refl;
                        headers = refl;
                        body_within = whole.1;
                        headers_within = ltb-eq-false _ _ short;
                        unswitched = ground (arith, ==_iff upstream.status 101, plain);
                        captured = _;
                        is_captured = refl;
                        same_status = refl;
                        same_body = refl;
                        same_headers = refl;
                      })))
          ]
        ]
      ]
    where
      estimate : ℕ
      estimate = header_bytes_estimate texts.canonical (remove_hop_by_hop texts upstream.headers) ""

      reading : List ℕ × ℕ × Option ReadError
      reading = read_response_body upstream.body snapshot.limits.response_body_bytes

  -- The outcome of `Handle`; without an error the upstream was sent the client's request.
  abbrev pub Handled : Request → ConfigSnapshot → ModeResult × Option HandleError → Type 0
  Handled incoming snapshot (result, some e) = IsRefused network result e
  Handled incoming snapshot (result, none) =
      (has_upgrade texts incoming.headers ≡ false)
      × (request : ForwardedRequest) × (build_request texts network result.effective_upstream
            incoming
          ≡ some request)
      × (upstream : UpstreamResponse) × (network.perform request ≡ ok upstream)
      × IsDelivered texts incoming snapshot upstream result

  effective_upstream_lem :
      (incoming : Request) (snapshot : ConfigSnapshot) (result : ModeResult)
      (upstream : UpstreamResponse)
      → (receive_response texts libraries network incoming snapshot result
          upstream).0.effective_upstream
        ≡ result.effective_upstream
  unfolding receive_response deliver
  effective_upstream_lem incoming snapshot result upstream = ground arith

  -- For every client's request and behaviour of the network, and every configuration whose limit of
  -- a response's body is below the largest `int64`, either there is an error, and no response is kept or answered; it is an answer of 501, 502 or 504, or tells that
  -- the client went away. Or the upstream was sent the request that `buildRequest` made, and what
  -- it answered, which is no switch of protocols, is answered and kept whole: its status, its body,
  -- which is within the limit, and its headers, which are too, less the hop-by-hop ones and with the
  -- body's length.
  pub handle-Handled :
      (urls : Urls) (incoming : Request) (snapshot : ConfigSnapshot)
      → snapshot.limits.response_body_bytes < 9223372036854775807
      → Handled incoming snapshot (handle texts libraries network urls incoming snapshot)
  unfolding handle
  handle-Handled urls incoming snapshot small =
      elim (Result-cases
        (compose_url texts urls snapshot.upstream.url incoming.path incoming.raw_query)) [
          | inr (e, bad) ↦ rw (bad, handle) (refused _ _ (refl, refl, refl) (inr (inl refl)))
          | inl (url, good) ↦
              let result = begun texts libraries network urls url incoming snapshot in
              elim (Bool-cases
                (str_eq incoming.method "CONNECT" || has_upgrade texts incoming.headers)) [
                  | inl upgrade ↦
                      rw (good, handle)
                        (rw (upgrade, handle) (refused _ _ (refl, refl, refl) (inl refl)))
                  | inr plain ↦
                      elim (Option-cases
                        (build_request texts network (urls.to_text url) incoming)) [
                          | inl unbuilt ↦
                              rw (good, handle)
                                (rw (plain, handle)
                                  (rw (unbuilt, handle)
                                    (refused _ _ (refl, refl, refl) (inr (inl refl)))))
                          | inr (request, built) ↦ elim (Result-cases (network.perform request)) [
                            | inr (e, failed) ↦
                                rw (good, handle)
                                  (rw (plain, handle)
                                    (rw (built, handle)
                                      (rw (failed, handle)
                                        (refused _ _ (refl, refl, refl) (classify_lem e)))))
                            | inl (upstream, answered) ↦
                                rw (good, handle)
                                  (rw (plain, handle)
                                    (rw (built, handle)
                                      (rw (answered, handle)
                                        (by_response request upstream _ (ground (arith, plain))
                                          built answered _
                                          (effective_upstream_lem incoming snapshot result upstream)
                                          (receive_response-Outcome incoming snapshot result
                                            upstream small (refl, refl, refl))))))
                          ]
                        ]
                ]
        ]
    where
      by_response :
          (request : ForwardedRequest) (upstream : UpstreamResponse) (destination : String)
          → has_upgrade texts incoming.headers ≡ false
          → build_request texts network destination incoming ≡ some request
          → network.perform request ≡ ok upstream
          → (after : ModeResult × Option HandleError) → after.0.effective_upstream ≡ destination
          → Outcome incoming snapshot upstream after
          → Handled incoming snapshot after
      by_response request upstream destination plain built answered (result, some e) same outcome =
          outcome
      by_response request upstream destination plain built answered (result, none) same outcome =
          (plain, request, rw same built, upstream, answered, outcome)
