-- ===== src/Proxy/Inspection.antt =====
-- internal/proxy/inspection.go: the decoded preview of a body. The decompressors of gzip and zlib
-- are parameters, as is the quoting of `%q`; lengths times 100 stay in 64 bits, as bodies are
-- limited far below 2 ^ 56 bytes.
use Prim.Native.String.{String, ◌++◌}
use requestinspector_relay.Base.{
  ℕ, zero, suc, ◌+◌, ◌*◌, ◌≤◌, ◌≡◌, ◌⊎◌, inl, inr, List, [], ◌∷◌, Option, none, some, Bool, true,
  false, not, ◌||◌, ◌&&◌, ltb, leb, if◌then◌else◌, str_eq, length, take, reverse, arith,
  length-reverse, length-take, max, subst, Result, ok, err, bind, Result-cases, split_commas,
}
use requestinspector_relay.Config.{Preview}
use requestinspector_relay.Capture.Body.{Reader, read_all_limited}
use requestinspector_relay.Capture.Pipeline.{Inspection}
use requestinspector_relay.Proxy.{Texts}

-- What a decompressor yields, and the error of its `Close`.
pub record Decoding : Type 0 where
  pub reader : Reader
  pub close_error : Option String

pub record Decompressors : Type 0 where
  pub gzip : List ℕ → Result String Decoding
  pub zlib : List ℕ → Result String Decoding
  pub quoted : String → String

abbrev maximum_expansion_ratio : ℕ
maximum_expansion_ratio = 100

unfoldable pub inspection_prefix : List ℕ → Preview → List ℕ × Bool
inspection_prefix body settings =
    if not settings.enabled || leb (length body) settings.bytes
    then (body, false)
    else (take settings.bytes body, true)

-- What is read of a decoding: at most one byte more than allowed.
unfoldable pub read_decoding : Decoding → String → ℕ → Bool → Result String (List ℕ)
unfolding read_all_limited
read_decoding decoding encoding allowed ratio_bound =
    let (decoded, failure) = read_all_limited decoding.reader (allowed + 1) in
    (elim failure [
      | some text ↦ err ("decode " ++ encoding ++ " preview: " ++ text)
      | none ↦ (elim decoding.close_error [
        | some text ↦ err ("close " ++ encoding ++ " preview: " ++ text)
        | none ↦
            if ltb allowed (length decoded)
            then if ratio_bound
              then err "decoded preview exceeds expansion ratio"
              else err "decoded preview exceeds configured limit"
            else ok decoded
      ])
    ])

-- What a hundredfold growth at each of `n` decodings may lead to.
abbrev pub expanded : ℕ → ℕ → ℕ
expanded zero size = size
expanded (suc n) size = expanded n (size * 100)

expanded_mono : (n small large : ℕ) → small ≤ large → expanded n small ≤ expanded n large
expanded_mono zero small large h = h
expanded_mono (suc n) small large h = expanded_mono n (small * 100) (large * 100) (omega arith)

module _ (texts : Texts) (libraries : Decompressors) where
  abbrev opened : List ℕ → String → Result String Decoding
  opened encoded encoding =
      if str_eq encoding "gzip" || str_eq encoding "x-gzip"
      then libraries.gzip encoded
      else libraries.zlib encoded

  unfoldable pub decode_one : List ℕ → String → ℕ → Result String (List ℕ)
  unfolding read_decoding
  decode_one encoded encoding limit =
      if not (str_eq encoding "gzip" || str_eq encoding "x-gzip" || str_eq encoding "deflate")
      then err ("unsupported content encoding " ++ libraries.quoted encoding)
      else (elim (opened encoded encoding) [
        | err text ↦ err ("decode " ++ encoding ++ " preview: " ++ text)
        | ok decoding ↦
            (let ratio_limit = length encoded * maximum_expansion_ratio in
              let ratio_bound = ltb ratio_limit limit in
              let allowed = if ratio_bound then ratio_limit else limit in
              read_decoding decoding encoding (max 1 allowed) ratio_bound)
      ])

  abbrev named_encodings : List String → List String
  named_encodings [] = []
  named_encodings (part ∷ parts) =
      let name = texts.to_lower (texts.trim_space part) in
      let rest = named_encodings parts in
      if not (str_eq name "") && not (str_eq name "identity") then name ∷ rest else rest

  unfoldable pub parse_encodings : String → List String
  parse_encodings raw = named_encodings (split_commas raw)

  -- The loop of `decodeEncodings`, over the encodings from the last on.
  unfoldable pub decode_each : List String → List ℕ → ℕ → Result String (List ℕ)
  decode_each [] current limit = ok current
  decode_each (encoding ∷ encodings) current limit =
      bind (decode_one current encoding limit) (λ decoded. decode_each encodings decoded limit)

  abbrev decode_listed : List String → List ℕ → ℕ → Result String (List ℕ)
  decode_listed [] body limit = err "content encoding is empty"
  decode_listed (encoding ∷ encodings) body limit =
      decode_each (reverse (encoding ∷ encodings)) body limit

  unfoldable pub decode_encodings : List ℕ → String → ℕ → Result String (List ℕ)
  unfolding parse_encodings decode_each
  decode_encodings body raw limit = decode_listed (parse_encodings raw) body limit

  abbrev plain : List ℕ × Bool → String → Inspection
  plain (preview, truncated) error = record {
    preview = preview;
    preview_truncated = truncated;
    decoded_preview_bytes = none;
    error = error;
  }

  unfoldable pub inspect : List ℕ → String → Preview → ℕ → Inspection
  unfolding inspection_prefix decode_encodings
  inspect body encoding settings hard_limit =
      if str_eq (texts.trim_space encoding) ""
        || texts.equal_fold (texts.trim_space encoding) "identity"
      then plain (inspection_prefix body settings) ""
      else (elim (decode_encodings body encoding hard_limit) [
        | err text ↦ plain (inspection_prefix body settings) text
        | ok decoded ↦
            (let (preview, truncated) = inspection_prefix decoded settings in
              record {
                preview = preview;
                preview_truncated = truncated;
                decoded_preview_bytes = some (length preview);
                error = "";
              })
      ])

  read_decoding_bounds :
      (decoding : Decoding) (encoding : String) (allowed : ℕ) (ratio_bound : Bool)
      (decoded : List ℕ)
      → read_decoding decoding encoding allowed ratio_bound ≡ ok decoded
      → length decoded ≤ allowed
  unfolding read_decoding
  read_decoding_bounds decoding encoding allowed ratio_bound decoded h = ground arith

  -- What one decoding yields is no longer than the limit, and than a hundred times what it was made
  -- of: at least one byte is allowed.
  decode_one_bounds :
      (encoded : List ℕ) (encoding : String) (limit : ℕ) (decoded : List ℕ)
      → decode_one encoded encoding limit ≡ ok decoded
      → (length decoded ≤ max 1 limit) × (length decoded ≤ max 1 (length encoded * 100))
  unfolding decode_one
  decode_one_bounds encoded encoding limit decoded h = grind (arith, read_decoding_bounds)

  decode_each_bounds :
      (encodings : List String) (current : List ℕ) (limit : ℕ) (decoded : List ℕ)
      → decode_each encodings current limit ≡ ok decoded
      → (length decoded ≤ max (length current) (max 1 limit))
        × (length decoded ≤ expanded (length encodings) (max 1 (length current)))
  unfolding decode_each
  decode_each_bounds [] current limit decoded h = ground arith
  decode_each_bounds (encoding ∷ encodings) current limit decoded h =
      elim (Result-cases (decode_one current encoding limit)) [
        | inr (text, bad) ↦ cc (rw bad at h)
        | inl (next, good) ↦
            let one = decode_one_bounds current encoding limit next good in
            let more = decode_each_bounds encodings next limit decoded (rw good at h) in
            omega (
              arith,
              one,
              more,
              expanded_mono (length encodings) (max 1 (length next)) (max 1 (length current) * 100)
                  (omega (arith, one)),
            )
      ]

  decode_each-le_limit :
      (encodings : List String) (current : List ℕ) (limit : ℕ) (decoded : List ℕ)
      → 1 ≤ length encodings
      → decode_each encodings current limit ≡ ok decoded
      → length decoded ≤ max 1 limit
  unfolding decode_each
  decode_each-le_limit [] current limit decoded more h = absurd (omega (arith, more))
  decode_each-le_limit (encoding ∷ encodings) current limit decoded more h =
      elim (Result-cases (decode_one current encoding limit)) [
        | inr (text, bad) ↦ cc (rw bad at h)
        | inl (next, good) ↦ omega (
          arith,
          decode_one_bounds current encoding limit next good,
          decode_each_bounds encodings next limit decoded (rw good at h),
        )
      ]

  -- A decompression bomb does not get through, whatever the decompressors yield: a decoded body is
  -- no longer than the hard limit and one byte, and no longer than a hundredfold growth at each of
  -- its encodings allows.
  pub decode_encodings_bounds :
      (body : List ℕ) (raw : String) (limit : ℕ) (decoded : List ℕ)
      → decode_encodings body raw limit ≡ ok decoded
      → (length decoded ≤ max 1 limit)
        × (length decoded ≤ expanded (length (parse_encodings raw)) (max 1 (length body)))
  unfolding decode_encodings
  decode_encodings_bounds body raw limit decoded h = by_encodings (parse_encodings raw) h
    where
      by_encodings :
          (encodings : List String)
          → decode_listed encodings body limit ≡ ok decoded
          → (length decoded ≤ max 1 limit)
            × (length decoded ≤ expanded (length encodings) (max 1 (length body)))
      by_encodings [] h = cc
      by_encodings (encoding ∷ rest) h =
          let same = length-reverse (encoding ∷ rest) in
          (
            decode_each-le_limit (reverse (encoding ∷ rest)) body limit decoded
                (omega (arith, same)) h,
            subst (λ n. length decoded ≤ expanded n (max 1 (length body))) same
                (decode_each_bounds (reverse (encoding ∷ rest)) body limit decoded h).1,
          )

  inspection_prefix_bounds :
      (body : List ℕ) (settings : Preview)
      → settings.enabled ≡ true
      → length (inspection_prefix body settings).0 ≤ settings.bytes
  unfolding inspection_prefix
  inspection_prefix_bounds body settings enabled = ground (arith, length-take settings.bytes body)

  -- Whatever the decompressors yield, an enabled preview holds no more bytes than configured, and
  -- its size is told exactly where an encoding was decoded, in which case there is no error.
  pub inspect_bounds :
      (body : List ℕ) (encoding : String) (settings : Preview) (limit : ℕ)
      → settings.enabled ≡ true
      → (length (inspect body encoding settings limit).preview ≤ settings.bytes)
        × (((inspect body encoding settings limit).decoded_preview_bytes ≡ none)
            ⊎ (((inspect body encoding settings limit).decoded_preview_bytes
                  ≡ some (length (inspect body encoding settings limit).preview))
                × ((inspect body encoding settings limit).error ≡ "")))
  unfolding inspect
  inspect_bounds body encoding settings limit enabled =
      let whole = inspection_prefix_bounds body settings enabled in
      elim (Result-cases (decode_encodings body encoding limit)) [
        | inl (decoded, good) ↦
            ground (arith, whole, inspection_prefix_bounds decoded settings enabled, good)
        | inr (text, bad) ↦ ground (arith, whole, bad)
      ]
