-- ===== src/Capture/Handler.antt =====
-- internal/capture/handler.go: the handler of the capture mode, which answers what is configured.
use requestinspector_relay.Base.{
  ℕ, String, ◌&&◌, Bool, not, none, Option, ◌==◌, if◌then◌else◌, str_eq, [], false,
}
use requestinspector_relay.Capture.Model.{Request, ConfigSnapshot}
use requestinspector_relay.Capture.Pipeline.{ModeResult, HandleError}

unfoldable pub capture_response_allows_body : String → ℕ → Bool
capture_response_allows_body method status =
    if str_eq method "HEAD"
    then false
    else not (status == 204) && not (status == 205) && not (status == 304)

unfoldable pub handle_capture : Request → ConfigSnapshot → ModeResult × Option HandleError
unfolding capture_response_allows_body
handle_capture request snapshot = (
  record {
    response = record {
      status = snapshot.capture.status;
      headers = snapshot.capture.headers;
      body =
          if capture_response_allows_body request.method snapshot.capture.status
          then snapshot.capture.body
          else [];
    };
    captured_response = none;
    effective_upstream = "";
    proxy_timing = none;
    request_inspection = none;
    upstream_response_header_bytes_estimate = 0;
    upstream_observed_response_body_bytes = 0;
  },
  none,
)
