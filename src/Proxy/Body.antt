-- ===== src/Proxy/Body.antt =====
-- `readResponseBody` of internal/proxy/handler.go.
use requestinspector_relay.Base.{
  ℕ, ◌≡◌, List, [], Option, none, some, ltb, ◌==◌, if◌then◌else◌, length, take, arith, String,
}
use requestinspector_relay.Capture.Body.{
  Reader, read_all_limited, read_ahead, read_body, BodyError, limit_not_positive, body_too_large,
  read_failed,
}

pub data ReadError : Type 0 where
  limit_invalid too_large : ReadError
  broken : String → ReadError

unfoldable pub read_response_body : Reader → ℕ → List ℕ × ℕ × Option ReadError
unfolding read_all_limited read_ahead
read_response_body reader limit =
    if limit == 0
    then ([], 0, some limit_invalid)
    else (let (data_read, failure) = read_all_limited reader (read_ahead limit) in
        (elim failure [
          | some text ↦ ([], length data_read, some (broken text))
          | none ↦
              if ltb limit (length data_read)
              then (take limit data_read, length data_read, some too_large)
              else (data_read, length data_read, none)
        ]))

-- The error of the pipeline's reader that means the same.
abbrev pub as_body_error : Option ReadError → Option BodyError
as_body_error none = none
as_body_error (some limit_invalid) = some limit_not_positive
as_body_error (some too_large) = some body_too_large
as_body_error (some (broken text)) = some (read_failed text)

-- A response is read as the pipeline reads a request: for every reader and every limit the two give
-- the same bytes, the same number observed and the same error, also where `limit + 1` overflows.
pub read_response_body-read_body :
    (reader : Reader) (limit : ℕ)
    → ((read_response_body reader limit).0 ≡ (read_body reader limit).0)
      × ((read_response_body reader limit).1 ≡ (read_body reader limit).1)
      × (as_body_error (read_response_body reader limit).2 ≡ (read_body reader limit).2)
unfolding read_response_body read_body
read_response_body-read_body reader limit = ground arith
