-- ===== src/Capture/Pipeline.antt =====
-- internal/capture/pipeline.go: what `ServeHTTP` does with one request. The repository, the mode
-- handlers, the clock, the identifiers and the response writer are the pipeline's parameters, as in
-- Go they are its options and arguments; `World` is what they and the counters hold, with a log of
-- what was done, the last effect first.
pub mod Gate
pub mod Answers
pub mod Serve
pub mod Follows
pub mod Outcome
pub mod Requests
mod Tests
use requestinspector_relay.Base.{
  ℕ, ◌+◌, ◌-◌, ◌/◌, ◌^◌, String, List, [], ◌∷◌, Option, none, some, Bool, true, false, not, ◌||◌,
  ◌&&◌, ltb, leb, ◌==◌, if◌then◌else◌, str_eq, length,
}
use requestinspector_relay.Events.{Envelope, EventType, exchange_evicted, exchange_failed}
use requestinspector_relay.Capture.Model.{
  Headers, ConfigSnapshot, Request, Response, ProxyTiming, ExchangeError, Exchange, State, failed,
}
use requestinspector_relay.Capture.Transition.{transition}

pub record Inspection : Type 0 where
  pub preview : List ℕ
  pub preview_truncated : Bool
  pub decoded_preview_bytes : Option ℕ
  pub error : String

pub record DownstreamResponse : Type 0 where
  pub status : ℕ
  pub headers : Headers
  pub body : List ℕ

pub record ModeResult : Type 0 where
  pub response : DownstreamResponse
  pub captured_response : Option Response
  pub effective_upstream : String
  pub proxy_timing : Option ProxyTiming
  pub request_inspection : Option Inspection
  pub upstream_response_header_bytes_estimate : ℕ
  pub upstream_observed_response_body_bytes : ℕ

pub record ModeError : Type 0 where
  pub status : ℕ
  pub category : String
  pub message : String

-- An error of a handler: whether `errors.Is` finds `context.Canceled` in it, and the `ModeError`
-- that `errors.As` finds.
pub record HandleError : Type 0 where
  pub is_canceled : Bool
  pub failure : Option ModeError

-- The payloads that the pipeline publishes.
pub data EventData : Type 0 where
  request_data : ℕ → ℕ → List ℕ → Bool → EventData
  response_data : ℕ → ℕ → Option ProxyTiming → EventData
  error_data : Option ExchangeError → EventData

pub record Admission : Type 0 where
  pub in_flight : ℕ
  pub admission_rejected : ℕ
  pub body_too_large : ℕ

pub data Effect : Type 0 where
  saved : Exchange → Effect
  published : EventType → String → ℕ → Option EventData → Effect
  responded : DownstreamResponse → Effect
  committed : Exchange → Effect
  cancelled_reservation : Effect

pub record World (R : Type 0) : Type 0 where
  pub admission : Admission
  pub repository : R
  pub clock : ℕ
  pub log : List Effect

-- The answer of `Reserve`: refused, admitted with no reservation, or with one.
pub data Reserved : Type 0 where
  refused unreserved reserved : Reserved

-- The repository: `Save` with the exchanges that it evicted, and the reservation's operations.
-- `commit` tells the text of its error.
pub record RepositoryOps (R : Type 0) : Type 0 where
  pub save : R → Exchange → R × List Exchange
  pub reserve : R → ℕ → R × Reserved
  pub commit : R → Exchange → R × Option String
  pub cancel : R → R

-- What one request meets: readings of the clock, the identifier or an error, the handlers by mode,
-- whether the client went away, what a body of the given bytes leads to in the writer, the JSON of
-- an error's code and message, and `http.CanonicalHeaderKey`.
pub record Surroundings : Type 0 where
  pub now : ℕ → ℕ
  pub new_id : Option String
  pub handlers : String → Option (Request → ConfigSnapshot → ModeResult × Option HandleError)
  pub is_canceled : Bool
  pub write : List ℕ → ℕ × Option String
  pub error_body : String → String → Option (List ℕ)
  pub canonical : String → String

unfoldable pub normalized_status : ℕ → ℕ
normalized_status status = if ltb status 100 || ltb 599 status then 200 else status

abbrev pub max_int64 : ℕ
max_int64 = 2 ^ 63 - 1

unfoldable pub reservation_bytes : ℕ → ℕ → ℕ
reservation_bytes total value =
    if value == 0 then total else if ltb (max_int64 - value) total then max_int64 else total + value

unfoldable pub reserved_size : ConfigSnapshot → ℕ
unfolding reservation_bytes
reserved_size s =
    let request =
      reservation_bytes (reservation_bytes 0 s.limits.request_body_bytes)
        s.limits.request_header_bytes in
    if str_eq s.mode "proxy"
    then reservation_bytes (reservation_bytes request s.limits.response_body_bytes)
        s.limits.response_header_bytes
    else request

unfoldable pub duration_microseconds : ℕ → ℕ → Option ℕ
duration_microseconds started completed =
    if started == 0 || ltb completed started then none else some ((completed - started) / 1000)

-- The loop of `save` over the evicted exchanges.
unfoldable pub publish_evicted : List Exchange → List Effect → List Effect
publish_evicted [] log = log
publish_evicted (e ∷ evicted) log =
    publish_evicted evicted (published exchange_evicted e.id e.revision none ∷ log)

module _ {R : Type 0} (ops : RepositoryOps R) (env : Surroundings) where
  -- The clock is read once.
  abbrev tick : World R → World R
  tick w = record w { clock = w.clock + 1 }

  unfoldable pub save : World R → Exchange → World R
  unfolding publish_evicted
  save w e =
      let (repository, evicted) = ops.save w.repository e in
      record w { repository = repository; log = publish_evicted evicted (saved e ∷ w.log) }

  unfoldable pub publish : World R → EventType → Exchange → Option EventData → World R
  publish w type e payload = record w { log = published type e.id e.revision payload ∷ w.log }

  -- `fail`: an exchange that cannot make the transition is marked failed all the same.
  unfoldable pub fail : World R → Exchange → State → World R × Exchange
  fail w e state =
      let next : Exchange = (elim (transition e state (env.now w.clock)) [
        | none ↦ record e { state = failed }
        | some moved ↦ moved
      ]) in
      (publish (save (tick w) next) exchange_failed next (some (error_data next.error)), next)
