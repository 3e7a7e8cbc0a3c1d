-- ===== src/Capture/Pipeline/Serve.antt =====
-- `Pipeline.ServeHTTP` and `startExchange`. Each early return of `ServeHTTP` ends a function here; a
-- step returns the world and the exchange as the deferred functions then find them.
use requestinspector_relay.Base.{
  ℕ, ◌+◌, String, List, [], ◌∷◌, Option, none, some, Bool, true, false, not, ◌&&◌, ltb,
  if◌then◌else◌, str_eq, length,
}
use requestinspector_relay.Events.{exchange_started, request_completed, response_completed}
use requestinspector_relay.Capture.Model.{
  Headers, ConfigSnapshot, Exchange, State, receiving, forwarding, completed, failed, cancelled,
  http, is_terminal, header_bytes_estimate, header_get,
}
use requestinspector_relay.Capture.Transition.{transition}
use requestinspector_relay.Capture.Body.{Reader, BodyError, body_too_large, read_body, preview}
use requestinspector_relay.Capture.Pipeline.{
  DownstreamResponse, HandleError, RepositoryOps, Surroundings, World, refused, unreserved,
  reserved, request_data, response_data, committed, cancelled_reservation, normalized_status,
  reserved_size, tick, save, publish, fail,
}
use requestinspector_relay.Capture.Pipeline.Gate.{
  admit, release, reject_admission, record_body_too_large,
}
use requestinspector_relay.Capture.Pipeline.Answers.{
  apply_mode_result, mode_failure, error_response, captured_proxy_error, write_error,
  write_response,
}

pub record Incoming : Type 0 where
  pub method : String
  pub is_tls : Bool
  pub proto : String
  pub host : String
  pub request_uri : String
  pub escaped_path : String
  pub raw_query : String
  pub remote_addr : String
  pub headers : Headers
  pub body : Reader

unfoldable pub new_exchange : (String → String) → Incoming → ConfigSnapshot → String → ℕ → Exchange
new_exchange canonical incoming snapshot id started = record {
  id = id;
  transport = http;
  mode = snapshot.mode;
  config_revision = snapshot.revision;
  configuration = snapshot;
  revision = 1;
  state = receiving;
  started_at = started;
  completed_at = 0;
  duration = 0;
  request = record {
    method = incoming.method;
    scheme = if incoming.is_tls then "https" else "http";
    protocol = incoming.proto;
    host = incoming.host;
    request_target = incoming.request_uri;
    path = incoming.escaped_path;
    raw_query = incoming.raw_query;
    remote_address = incoming.remote_addr;
    headers = incoming.headers;
    content_type = header_get incoming.headers "Content-Type";
    body = [];
    observed_body_bytes = 0;
    body_complete = false;
    header_bytes_estimate = header_bytes_estimate canonical incoming.headers incoming.host;
    preview = [];
    preview_truncated = false;
    decoded_preview_bytes = none;
    preview_error = "";
  };
  datagram = none;
  response = none;
  effective_upstream = "";
  upstream_response_header_bytes_estimate = 0;
  upstream_observed_response_body_bytes = 0;
  proxy_timing = none;
  error = none;
  downstream_delivery = record { status = 0; body_bytes = 0; error = "" };
  persistence = none;
  started_monotonic = started;
}

abbrev pub with_error : Exchange → String → String → Exchange
with_error e category message = record e {
  error = some (record { category = category; message = message });
}

abbrev error_text : Option String → String
error_text none = ""
error_text (some text) = text

-- The exchange with what `ReadBody` found.
unfoldable pub with_body : Exchange → ConfigSnapshot → List ℕ × ℕ × Option BodyError → Exchange
unfolding preview
with_body e snapshot (body, observed, err) = record e {
  request = record e.request {
    body = body;
    observed_body_bytes = observed;
    body_complete = elim err [ none ↦ true | some _ ↦ false ];
    preview = (preview body snapshot.preview).0;
    preview_truncated = (preview body snapshot.preview).1;
  };
}

-- Status, category and message of a body that was not read.
abbrev pub body_failure : BodyError → ℕ × String × String
body_failure body_too_large =
    (413, "request_body_too_large", "Request body exceeds configured limit.")
body_failure _ = (400, "request_body_read_failed", "Request body could not be read.")

module _ {R : Type 0} (ops : RepositoryOps R) (env : Surroundings) where
  -- `internalFailure`, for a transition that was refused.
  unfoldable pub internal_failure : World R → Exchange → World R × Exchange
  internal_failure w e =
      let (w', e') =
        fail ops env w (with_error e "pipeline_state_failed" "invalid exchange transition")
          failed in
      (write_error env w' 500 "pipeline_state_failed" "Request state could not be updated.", e')

  -- The end: the response has been written, the exchange completes.
  unfoldable pub complete : World R → Exchange → World R × Exchange
  complete w e = elim (transition e completed (env.now w.clock)) [
    | none ↦ internal_failure (tick ops env w) e
    | some e' ↦ (save ops env (tick ops env w) e', e')
  ]

  -- From the handler's success on.
  unfoldable pub deliver : World R → Exchange → DownstreamResponse → World R × Exchange
  deliver w e response =
      let (w', e', written, err) = write_response env w e response in
      let e'' : Exchange = record e' {
        downstream_delivery = record {
          status = normalized_status response.status;
          body_bytes = written;
          error = error_text err;
        };
      } in
      (elim err [
        | some _ ↦
            fail ops env w'
              (with_error e'' "downstream_write_failed"
                "Response could not be delivered completely.")
              failed
        | none ↦ complete w' e''
      ])

  -- The block that saves and publishes an upstream's response.
  unfoldable pub announce : World R → Exchange → ConfigSnapshot → World R × Exchange
  announce w e snapshot = elim e.response [
    | none ↦ (w, e)
    | some response ↦
        if str_eq snapshot.mode "proxy" && str_eq response.origin "upstream"
        then (let e' : Exchange = record e { revision = e.revision + 1 } in
            (
              publish ops env (save ops env w e') response_completed e' (
                  some (
                    response_data response.header_bytes_estimate (length response.body)
                      e'.proxy_timing)),
              e',
            ))
        else (w, e)
  ]

  -- The exchange with the error and, for a proxy that was not cancelled, the answer as its response.
  unfoldable pub with_failure : Exchange → ConfigSnapshot → State × ℕ × String × String → Exchange
  with_failure e snapshot (state, status, category, message) =
      let is_cancelled : Bool = elim state [ cancelled ↦ true | _ ↦ false ] in
      if str_eq snapshot.mode "proxy" && not is_cancelled
      then record (with_error e category message) {
        response = some (
            captured_proxy_error env (error_response env status category message) snapshot.preview);
      }
      else with_error e category message

  -- A handler's error: the answer is written, and then the exchange fails.
  unfoldable pub answer_failure :
      World R → Exchange → ConfigSnapshot → HandleError → World R × Exchange
  answer_failure w e snapshot err =
      let (state, status, category, message) = mode_failure err env.is_canceled in
      let response = error_response env status category message in
      let e2 = with_failure e snapshot (mode_failure err env.is_canceled) in
      let (w', e3, written, write_error) = write_response env w e2 response in
      let e4 : Exchange = record e3 {
        downstream_delivery = record {
          status = status;
          body_bytes = written;
          error = error_text write_error;
        };
      } in
      fail ops env w' e4 state

  -- From the choice of the handler on.
  unfoldable pub handle : World R → Exchange → ConfigSnapshot → World R × Exchange
  handle w e snapshot = elim (env.handlers snapshot.mode) [
    | none ↦
        (let (w', e') =
            fail ops env w
              (with_error e "mode_handler_unavailable" "Configured mode is unavailable.") failed in
          (write_error env w' 501 "mode_handler_unavailable" "Configured mode is unavailable.", e'))
    | some handler ↦
        (let (result, err) = handler e.request snapshot in
          let e' = apply_mode_result e result in
          (elim err [
            | some failure ↦ answer_failure w e' snapshot failure
            | none ↦ (let (w'', e'') = announce w e' snapshot in deliver w'' e'' result.response)
          ]))
  ]

  -- From the complete request on.
  unfoldable pub forward : World R → Exchange → ConfigSnapshot → World R × Exchange
  forward w e snapshot =
      if str_eq snapshot.mode "proxy"
      then (elim (transition e forwarding (env.now w.clock)) [
        | none ↦ internal_failure (tick ops env w) e
        | some e' ↦ handle (save ops env (tick ops env w) e') e' snapshot
      ])
      else handle w e snapshot

  unfoldable pub request_complete : World R → Exchange → ConfigSnapshot → World R × Exchange
  request_complete w e snapshot =
      let e' : Exchange = record e { revision = e.revision + 1 } in
      let w' = publish ops env (save ops env w e') request_completed e' (
        some (
          request_data e'.request.header_bytes_estimate (length e'.request.body) e'.request.preview
            e'.request.preview_truncated)) in
      forward w' e' snapshot

  -- `recordBodyTooLarge` is called for that error alone.
  unfoldable pub count_body_failure : World R → BodyError → World R
  count_body_failure w body_too_large = record w { admission = record_body_too_large w.admission }
  count_body_failure w _ = w

  unfoldable pub refuse_body : World R → Exchange → BodyError → World R × Exchange
  unfolding count_body_failure
  refuse_body w e err =
      let (status, category, message) = body_failure err in
      let (w', e') =
        fail ops env (count_body_failure w err) (with_error e category message) failed in
      (write_error env w' status category message, e')

  -- From the started exchange on.
  unfoldable pub process : World R → Exchange → ConfigSnapshot → Reader → World R × Exchange
  process w e snapshot body =
      if ltb snapshot.limits.request_header_bytes e.request.header_bytes_estimate
      then (let (w', e') =
            fail ops env w
              (with_error e "request_headers_too_large" "Request headers exceed configured limit.")
              failed in
          (
            write_error env w' 431 "request_headers_too_large"
                "Request headers exceed configured limit.",
            e',
          ))
      else (let read = read_body body snapshot.limits.request_body_bytes in
          let e' = with_body e snapshot read in
          (elim read.2 [ some err ↦ refuse_body w e' err | none ↦ request_complete w e' snapshot ]))

  -- The deferred commit of a reservation.
  unfoldable pub commit_terminal : World R × Exchange → World R
  commit_terminal (w, e) =
      if is_terminal e.state
      then (let queued : Exchange = record e {
        persistence = some (record { state = "queued"; error = "" });
      } in
          let w1 = save ops env w queued in
          let (repository, err) = ops.commit w1.repository queued in
          let w2 : World R = record w1 {
            repository = repository;
            log = committed queued ∷ w1.log;
          } in
          (elim err [
            | none ↦ w2
            | some text ↦
                save ops env w2
                  (record queued { persistence = some (record { state = "failed"; error = text }) })
          ]))
      else w

  unfoldable pub cancel_reservation : World R → World R
  cancel_reservation w = record w {
    repository = ops.cancel w.repository;
    log = cancelled_reservation ∷ w.log;
  }

  unfoldable pub start_exchange : World R → Incoming → ConfigSnapshot → World R × Option Exchange
  start_exchange w incoming snapshot =
      let started = env.now w.clock in
      (elim env.new_id [
        | none ↦ (tick ops env w, none)
        | some id ↦
            (let e = new_exchange env.canonical incoming snapshot id started in
              (publish ops env (save ops env (tick ops env w) e) exchange_started e none, some e))
      ])

  -- The deferred functions run in reverse order: commit, cancel, release.
  unfoldable pub serve_admitted : World R → Incoming → ConfigSnapshot → Bool → World R
  serve_admitted w incoming snapshot has_reservation =
      let (w1, started) = start_exchange w incoming snapshot in
      let w2 : World R = (elim started [
        | none ↦ write_error env w1 500 "exchange_id_failed" "Exchange could not be created."
        | some e ↦
            (let ended = process w1 e snapshot incoming.body in
              if has_reservation then commit_terminal ended else ended.0)
      ]) in
      if has_reservation then cancel_reservation w2 else w2

  unfoldable pub serve_http : World R → Incoming → ConfigSnapshot → World R
  serve_http w incoming snapshot =
      let (admission, admitted) = admit w.admission snapshot.limits.concurrent_exchanges in
      let w1 : World R = record w { admission = admission } in
      if not admitted
      then write_error env w1 503 "capacity_exhausted" "Concurrent exchange capacity is exhausted."
      else (let (repository, answer) = ops.reserve w1.repository (reserved_size snapshot) in
          let w2 : World R = record w1 { repository = repository } in
          let w3 : World R = (elim answer [
            | refused ↦
                write_error env (record w2 { admission = reject_admission w2.admission }) 503
                  "persistence_capacity_exhausted" "Persistence writer capacity is exhausted."
            | unreserved ↦ serve_admitted w2 incoming snapshot false
            | reserved ↦ serve_admitted w2 incoming snapshot true
          ]) in
          record w3 { admission = release w3.admission })
