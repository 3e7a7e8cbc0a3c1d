-- ===== src/Proxy/Timing.antt =====
-- `traceRecorder` of internal/proxy/handler.go: the moments that a request to the upstream passes,
-- in nanoseconds, 0 where it has not, and the durations between them.
use requestinspector_relay.Base.{
  ℕ, ◌+◌, ◌-◌, ◌/◌, ◌≤◌, ◌≡◌, Option, none, some, ◌||◌, ltb, ◌==◌, if◌then◌else◌, arith,
}
use requestinspector_relay.Capture.Model.{ProxyTiming}

pub record TraceRecorder : Type 0 where
  pub upstream_started : ℕ
  pub request_written : ℕ
  pub first_response_byte : ℕ

abbrev set_time : ℕ → Option ℕ
set_time value = if value == 0 then none else some value

abbrev pub duration : ℕ → ℕ → Option ℕ
duration started completed =
    if started == 0 || completed == 0 || ltb completed started
    then none
    else some ((completed - started) / 1000)

-- The sum of the three, or what is measured at once.
abbrev total : Option ℕ → Option ℕ → Option ℕ → Option ℕ → Option ℕ
total (some dispatch) (some wait) (some receive) whole = some (dispatch + wait + receive)
total (some dispatch) (some wait) none whole = whole
total (some dispatch) none receive whole = whole
total none wait receive whole = whole

unfoldable pub timing : TraceRecorder → Option ℕ → ProxyTiming
timing recorder captured_at =
    let dispatch = duration recorder.upstream_started recorder.request_written in
    let wait = duration recorder.request_written recorder.first_response_byte in
    let base : ProxyTiming = record {
      upstream_started_at = set_time recorder.upstream_started;
      request_written_at = set_time recorder.request_written;
      first_response_byte_at = set_time recorder.first_response_byte;
      response_captured_at = none;
      downstream_completed_at = none;
      upstream_dispatch_duration_us = dispatch;
      upstream_wait_duration_us = wait;
      upstream_receive_duration_us = none;
      upstream_total_duration_us = none;
      downstream_write_duration_us = none;
      proxy_total_duration_us = none;
    } in
    (elim captured_at [
      | none ↦ base
      | some at ↦
          (let receive = duration recorder.first_response_byte at in
            record base {
              response_captured_at = set_time at;
              upstream_receive_duration_us = receive;
              upstream_total_duration_us =
                  total dispatch wait receive (duration recorder.upstream_started at);
            })
    ])

-- The total of an answered request is never more than the time that passed from its start to the
-- capture of the response, in whole microseconds, and by rounding at most two less: whichever
-- moments were recorded, and in whatever order.
pub timing_bounds :
    (recorder : TraceRecorder) (captured_at us : ℕ)
    → (timing recorder (some captured_at)).upstream_total_duration_us ≡ some us
    → (recorder.upstream_started ≤ captured_at)
      × (us ≤ (captured_at - recorder.upstream_started) / 1000)
      × ((captured_at - recorder.upstream_started) / 1000 ≤ us + 2)
unfolding timing
timing_bounds recorder captured_at us h = ground arith
