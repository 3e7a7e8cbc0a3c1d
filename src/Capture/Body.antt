-- ===== src/Capture/Body.antt =====
-- internal/capture/body.go, and `preview` of internal/capture/pipeline.go.
use requestinspector_relay.Base.{
  ℕ, ◌+◌, ◌≤◌, String, ◌≡◌, List, [], Option, none, some, Bool, true, false, not, ◌||◌, ltb, leb,
  ◌==◌, if◌then◌else◌, length, take, arith, length-take, take_all, take-take,
}
use requestinspector_relay.Config.{Preview}

-- What `io.Reader` yields: bytes, and then the end or an error.
pub record Reader : Type 0 where
  pub content : List ℕ
  pub failure : Option String

-- `io.ReadAll(io.LimitReader(reader, n))`: an error behind the first `n` bytes is not met.
unfoldable pub read_all_limited : Reader → ℕ → List ℕ × Option String
read_all_limited r n =
    if leb n (length r.content) then (take n r.content, none) else (r.content, r.failure)

-- `limit + 1` of an `int64`, and as `io.LimitReader` reads it: at the largest limit the sum is
-- negative, and it reads nothing and tells no error.
unfoldable pub read_ahead : ℕ → ℕ
read_ahead limit = if ltb limit 9223372036854775807 then limit + 1 else 0

pub data BodyError : Type 0 where
  limit_not_positive body_too_large : BodyError
  read_failed : String → BodyError

-- The body, the number of bytes observed, and the error.
unfoldable pub read_body : Reader → ℕ → List ℕ × ℕ × Option BodyError
unfolding read_all_limited read_ahead
read_body r limit =
    if limit == 0
    then ([], 0, some limit_not_positive)
    else (let (read, err) = read_all_limited r (read_ahead limit) in
        (elim err [
          | some cause ↦ ([], length read, some (read_failed cause))
          | none ↦
              if ltb limit (length read)
              then (take limit read, length read, some body_too_large)
              else (read, length read, none)
        ]))

unfoldable pub preview : List ℕ → Preview → List ℕ × Bool
preview body settings =
    if not settings.enabled || leb (length body) settings.bytes
    then (body, false)
    else (take settings.bytes body, true)

-- Whatever the reader yields, no more than `limit` bytes are kept and `limit + 1` observed, and the
-- kept bytes are a front part of the content; also at the largest limit, where nothing is read.
pub read_body_bounds :
    (r : Reader) (limit : ℕ)
    → (length (read_body r limit).0 ≤ limit)
      × ((read_body r limit).1 ≤ limit + 1)
      × ((read_body r limit).0 ≡ take (length (read_body r limit).0) r.content)
unfolding read_body
read_body_bounds r limit = ground (
  arith,
  length-take (limit + 1) r.content,
  length-take limit r.content,
  take-take limit (limit + 1) r.content,
  length-take limit (take (limit + 1) r.content),
  take_all (length r.content) r.content,
)
