-- ===== src/Config/Accepted.antt =====
-- What an accepted configuration satisfies, and so what the other parts may rely on.
use requestinspector_relay.Base.{
  ◌*◌, ◌^◌, ◌≤◌, ◌≡◌, ◌≢◌, ◌⊎◌, refl, List, [], ◌∷◌, ◌++◌, Bool, true, false, not, ◌&&◌, ◌==◌,
  if◌then◌else◌, str_eq, eq_iff, length, arith, String, All,
}
use requestinspector_relay.Config.{
  Config, Udp, mode_capture, mode_proxy, storage_memory, storage_sqlite,
}
use requestinspector_relay.Config.Validation.{
  Parsers, ValidationError, check, validate, validate_udp, preview_exceeds_body, joined, checks,
  udp_checks,
}

parts : (xs ys : List ValidationError) → xs ++ ys ≡ [] → (xs ≡ []) × (ys ≡ [])
parts [] ys h = (refl, h)
parts (x ∷ xs) ys h = cc h

joined-empty :
    (errors : List (List ValidationError)) → joined errors ≡ [] → All (λ es. es ≡ []) errors
joined-empty [] h = tt
joined-empty (es ∷ errors) h =
    ((parts es (joined errors) h).0, joined-empty errors (parts es (joined errors) h).1)

check-empty : (b : Bool) (e : ValidationError) → check b e ≡ [] → b ≡ false
check-empty true e h = cc h
check-empty false e h = refl

either : (s t u : String) → not (str_eq s t) && not (str_eq s u) ≡ false → (s ≡ t) ⊎ (s ≡ u)
either s t u h = ground (arith, eq_iff s t, eq_iff s u)

differ : (s t : String) → str_eq s t ≡ false → s ≢ t
differ s t h e = ground (arith, eq_iff s t)

-- The guarantees of the UDP settings.
pub record IsAcceptedUdp (u : Udp) : Type 0 where
  pub mode : (u.mode ≡ mode_capture) ⊎ (u.mode ≡ mode_proxy)
  pub datagram : (1 ≤ u.max_datagram_bytes) × (u.max_datagram_bytes ≤ 65507)
  pub sessions : (1 ≤ u.max_sessions) × (u.max_sessions ≤ 4096)
  pub ttl : (1 ≤ u.session_ttl) × (u.session_ttl ≤ 30 * 10 ^ 9)
  pub replies : (1 ≤ u.max_replies_per_second) × (1 ≤ u.max_reply_bytes_per_second)
  pub response : length u.capture_response ≤ u.max_datagram_bytes

-- The guarantees of an accepted configuration.
pub record IsAccepted (cfg : Config) : Type 0 where
  pub mode : (cfg.mode ≡ mode_capture) ⊎ (cfg.mode ≡ mode_proxy)
  pub distinct : cfg.listeners.management ≢ cfg.listeners.traffic
  pub timeout : 1 ≤ cfg.upstream.timeout
  pub status : (200 ≤ cfg.capture.status) × (cfg.capture.status ≤ 599)
  pub bodies : (1 ≤ cfg.limits.request_body_bytes) × (1 ≤ cfg.limits.response_body_bytes)
  pub headers : (1 ≤ cfg.limits.request_header_bytes) × (1 ≤ cfg.limits.response_header_bytes)
  pub concurrent : 1 ≤ cfg.limits.concurrent_exchanges
  pub preview :
      (1 ≤ cfg.preview.bytes)
      × (cfg.preview.bytes ≤ cfg.limits.request_body_bytes)
      × (cfg.preview.bytes ≤ cfg.limits.response_body_bytes)
  pub history : 1 ≤ cfg.history.max_exchanges
  pub storage : (cfg.storage.mode ≡ storage_memory) ⊎ (cfg.storage.mode ≡ storage_sqlite)
  pub udp : IsAcceptedUdp cfg.udp
  pub shutdown : 1 ≤ cfg.shutdown

preview_lem :
    (net : Parsers) (cfg : Config) (one two : ValidationError)
    → (if cfg.preview.bytes == 0 then one ∷ [] else check (preview_exceeds_body net cfg) two) ≡ []
    → (1 ≤ cfg.preview.bytes)
      × (cfg.preview.bytes ≤ cfg.limits.request_body_bytes)
      × (cfg.preview.bytes ≤ cfg.limits.response_body_bytes)
preview_lem net cfg one two h = ground (arith, check-empty (preview_exceeds_body net cfg) two)

validate_udp-IsAcceptedUdp :
    (net : Parsers) (cfg : Config) → validate_udp net cfg ≡ [] → IsAcceptedUdp cfg.udp
unfolding validate_udp udp_checks
validate_udp-IsAcceptedUdp net cfg h =
    let v = joined-empty (udp_checks net cfg) h in
    record {
      mode = either cfg.udp.mode mode_capture mode_proxy (check-empty _ _ v.0);
      datagram = ground (arith, check-empty _ _ v.1.1.1.0);
      sessions = ground (arith, check-empty _ _ v.1.1.1.1.0);
      ttl = ground (arith, check-empty _ _ v.1.1.1.1.1.0);
      replies = ground (arith, check-empty _ _ v.1.1.1.1.1.1.0, check-empty _ _ v.1.1.1.1.1.1.1.0);
      response = ground (arith, check-empty _ _ v.1.1.1.1.1.1.1.1.0);
    }

-- A configuration that `Validate` accepts has a known mode, different listeners for management and
-- traffic, positive limits and timeouts, a preview within both body limits, a status that may be
-- sent, a known storage, and UDP settings within their ranges.
pub validate-IsAccepted : (net : Parsers) (cfg : Config) → validate net cfg ≡ [] → IsAccepted cfg
unfolding validate checks
validate-IsAccepted net cfg h =
    let v = joined-empty (checks net cfg) h in
    record {
      mode = either cfg.mode mode_capture mode_proxy (check-empty _ _ v.0);
      distinct = differ _ _ (check-empty _ _ v.1.1.1.0);
      timeout = ground (arith, check-empty _ _ v.1.1.1.1.1.0);
      status = ground (arith, check-empty _ _ v.1.1.1.1.1.1.0);
      bodies = ground (arith, check-empty _ _ v.1.1.1.1.1.1.1.1.0);
      headers = ground (arith, check-empty _ _ v.1.1.1.1.1.1.1.1.1.0);
      concurrent = ground (arith, check-empty _ _ v.1.1.1.1.1.1.1.1.1.1.0);
      preview = preview_lem net cfg _ _ v.1.1.1.1.1.1.1.1.1.1.1.0;
      history = ground (arith, check-empty _ _ v.1.1.1.1.1.1.1.1.1.1.1.1.0);
      storage =
          either cfg.storage.mode storage_memory storage_sqlite
            (check-empty _ _ v.1.1.1.1.1.1.1.1.1.1.1.1.1.0);
      udp = validate_udp-IsAcceptedUdp net cfg v.1.1.1.1.1.1.1.1.1.1.1.1.1.1.1.1.1.0;
      shutdown = ground (arith, check-empty _ _ v.1.1.1.1.1.1.1.1.1.1.1.1.1.1.1.1.1.1.0);
    }
