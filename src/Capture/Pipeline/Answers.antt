-- ===== src/Capture/Pipeline/Answers.antt =====
-- How the pipeline answers: `writeDownstream`, `writeResponse`, `pipelineErrorResponse`,
-- `writePipelineError`, `modeFailure`, `capturedProxyError` and `applyModeResult`.
use requestinspector_relay.Base.{
  ℕ, ◌+◌, String, List, [], ◌∷◌, Option, none, some, Bool, true, false, ◌||◌, ◌&&◌, ltb, leb, ◌==◌,
  if◌then◌else◌, str_eq, length, ◌++◌, codes,
}
use requestinspector_relay.Config.{Preview}
use requestinspector_relay.Capture.Model.{
  Request, Response, ProxyTiming, Exchange, State, failed, cancelled, header_bytes_estimate,
}
use requestinspector_relay.Capture.Body.{preview}
use requestinspector_relay.Capture.Pipeline.{
  DownstreamResponse, ModeResult, HandleError, Surroundings, World, Inspection, responded,
  normalized_status, duration_microseconds,
}

abbrev no_timing : ProxyTiming
no_timing = record {
  upstream_started_at = none;
  request_written_at = none;
  first_response_byte_at = none;
  response_captured_at = none;
  downstream_completed_at = none;
  upstream_dispatch_duration_us = none;
  upstream_wait_duration_us = none;
  upstream_receive_duration_us = none;
  upstream_total_duration_us = none;
  downstream_write_duration_us = none;
  proxy_total_duration_us = none;
}

abbrev pub has_no_body : ℕ → Bool
has_no_body status =
    status == 204 || status == 205 || status == 304 || (leb 100 status && ltb status 200)

abbrev is_empty : List ℕ → Bool
is_empty [] = true
is_empty (_ ∷ _) = false

unfoldable pub apply_inspection : Request → Option Inspection → Request
apply_inspection r none = r
apply_inspection r (some i) = record r {
  preview = i.preview;
  preview_truncated = i.preview_truncated;
  decoded_preview_bytes = i.decoded_preview_bytes;
  preview_error = i.error;
}

unfoldable pub apply_mode_result : Exchange → ModeResult → Exchange
unfolding apply_inspection
apply_mode_result e result = record e {
  response = result.captured_response;
  effective_upstream = result.effective_upstream;
  proxy_timing = result.proxy_timing;
  upstream_response_header_bytes_estimate = result.upstream_response_header_bytes_estimate;
  upstream_observed_response_body_bytes = result.upstream_observed_response_body_bytes;
  request = apply_inspection e.request result.request_inspection;
}

-- State, status, category and message.
unfoldable pub mode_failure : HandleError → Bool → State × ℕ × String × String
unfolding normalized_status
mode_failure err is_canceled =
    if err.is_canceled || is_canceled
    then (cancelled, 502, "request_cancelled", "Request was cancelled.")
    else (elim err.failure [
      | some failure ↦ (failed, normalized_status failure.status, failure.category, failure.message)
      | none ↦ (failed, 502, "mode_handler_failed", "Request processing failed.")
    ])

abbrev or_else {ℓ} : {A : Type ℓ} → Option A → A → A
or_else none a = a
or_else (some x) a = x

module _ (env : Surroundings) where
  unfoldable pub error_response : ℕ → String → String → DownstreamResponse
  error_response status code message = record {
    status = status;
    headers = ("Content-Type", "application/json" ∷ []) ∷ [];
    body =
        or_else (env.error_body code message)
          (codes "{\"code\":\"internal_error\",\"message\":\"Request processing failed.\"}")
        ++ 10 ∷ [];
  }

  unfoldable pub captured_proxy_error : DownstreamResponse → Preview → Response
  unfolding preview
  captured_proxy_error response settings = record {
    status = response.status;
    headers = response.headers;
    body = response.body;
    observed_body_bytes = length response.body;
    body_complete = true;
    header_bytes_estimate = header_bytes_estimate env.canonical response.headers "";
    origin = "proxy_error";
    preview = (preview response.body settings).0;
    preview_truncated = (preview response.body settings).1;
    decoded_preview_bytes = none;
    preview_error = "";
  }

  -- The bytes written and the error, with the response as it goes out noted in the log.
  unfoldable pub write_downstream :
      {R : Type 0} → World R → DownstreamResponse → World R × ℕ × Option String
  unfolding normalized_status
  write_downstream w response =
      let status = normalized_status response.status in
      let silent = is_empty response.body || has_no_body status in
      let sent : DownstreamResponse = record response {
        status = status;
        body = if silent then [] else response.body;
      } in
      let (written, err) = env.write response.body in
      let w' = record w { log = responded sent ∷ w.log } in
      (w', if silent then 0 else written, if silent then none else err)

  unfoldable pub write_error : {R : Type 0} → World R → ℕ → String → String → World R
  write_error w status code message = (write_downstream w (error_response status code message)).0

  timing_after : Exchange → ℕ → ℕ → ProxyTiming
  unfolding duration_microseconds
  timing_after e started completed = record (or_else e.proxy_timing no_timing) {
    downstream_completed_at = some completed;
    downstream_write_duration_us = duration_microseconds started completed;
    proxy_total_duration_us = duration_microseconds e.started_monotonic completed;
  }

  unfoldable pub write_response :
      {R : Type 0}
      → World R
      → Exchange
      → DownstreamResponse
      → World R × Exchange × ℕ × Option String
  unfolding timing_after
  write_response w e response =
      let started = env.now w.clock in
      let (w', written, err) = write_downstream (record w { clock = w.clock + 1 }) response in
      let completed = env.now w'.clock in
      let e' : Exchange =
        if str_eq e.mode "proxy"
        then record e { proxy_timing = some (timing_after e started completed) }
        else e in
      (record w' { clock = w'.clock + 1 }, e', written, err)
