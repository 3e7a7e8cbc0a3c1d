-- ===== src/Config/Overrides.antt =====
-- The overrides that the interface writes over the lower configuration: `applyOverrides` of
-- internal/config/config.go and `knownField` of internal/config/manager.go. A YAML node is read only
-- by its decoder, a parameter with the text of its error; a number that is not positive is 0 here,
-- as in the settings.
use requestinspector_relay.Base.{
  ℕ, String, List, [], ◌∷◌, Bool, any, if◌then◌else◌, str_eq, Result, ok, err, bind,
}
use requestinspector_relay.Config.{ℤ, Config}
use requestinspector_relay.Config.Validation.{ValidationError}

pub data ConfigError : Type 0 where
  revision_conflict not_exist : ConfigError
  unknown_field : String → ConfigError
  field_invalid : String → String → ConfigError
  invalid : List ValidationError → ConfigError
  not_persisted : String → ConfigError

-- `value.Decode` at the types of the settings, and `time.ParseDuration`.
pub record Decoders (Node : Type 0) : Type 0 where
  pub text : Node → Result String String
  pub flag : Node → Result String Bool
  pub int : Node → Result String ℕ
  pub signed_int : Node → Result String ℤ
  pub headers : Node → Result String (List (String × List String))
  pub bytes : Node → Result String (List ℕ)
  pub parse_duration : String → Result String ℕ

abbrev known_override_fields : List String
known_override_fields =
    "mode" ∷ "listeners.management" ∷ "listeners.traffic" ∷ "upstream.url" ∷ "upstream.timeout"
    ∷ "capture_response.status" ∷ "capture_response.headers" ∷ "capture_response.body"
    ∷ "cors.enabled" ∷ "limits.request_body_bytes" ∷ "limits.response_body_bytes"
    ∷ "limits.request_header_bytes" ∷ "limits.response_header_bytes" ∷ "limits.concurrent_exchanges"
    ∷ "preview.enabled" ∷ "preview.bytes" ∷ "history.max_exchanges" ∷ "storage.mode"
    ∷ "storage.sqlite_path" ∷ "storage.retention_days" ∷ "authentication.username"
    ∷ "authentication.password" ∷ "authentication.session_ttl" ∷ "shutdown_timeout" ∷ "udp.enabled"
    ∷ "udp.listen" ∷ "udp.mode" ∷ "udp.upstream" ∷ "udp.max_datagram_bytes" ∷ "udp.max_sessions"
    ∷ "udp.session_ttl" ∷ "udp.capture_response" ∷ "udp.max_replies_per_second"
    ∷ "udp.max_reply_bytes_per_second" ∷ []

unfoldable pub known_field : String → Bool
known_field field = any (λ candidate. str_eq candidate field) known_override_fields

-- One case of the switch: the error names the field.
abbrev decoded : {A : Type 0} → String → Result String A → (A → Config) → Result ConfigError Config
decoded field (ok a) update = ok (update a)
decoded field (err text) update = err (field_invalid field text)

module _ {Node : Type 0} (d : Decoders Node) where
  unfoldable pub decode_duration : Node → Result String ℕ
  decode_duration node = bind (d.text node) d.parse_duration

  -- The switch of `applyOverrides`.
  unfoldable pub apply_field : String → Node → Config → Result ConfigError Config
  unfolding decode_duration
  apply_field field node cfg =
      if str_eq field "mode"
      then decoded field (d.text node) (λ v. record cfg { mode = v })
      else if str_eq field "listeners.management"
      then decoded field (d.text node)
          (λ v. record cfg { listeners = record cfg.listeners { management = v } })
      else if str_eq field "listeners.traffic"
      then decoded field (d.text node)
          (λ v. record cfg { listeners = record cfg.listeners { traffic = v } })
      else if str_eq field "upstream.url"
      then decoded field (d.text node)
          (λ v. record cfg { upstream = record cfg.upstream { url = v } })
      else if str_eq field "upstream.timeout"
      then decoded field (decode_duration node)
          (λ v. record cfg { upstream = record cfg.upstream { timeout = v } })
      else if str_eq field "capture_response.status"
      then decoded field (d.int node)
          (λ v. record cfg { capture = record cfg.capture { status = v } })
      else if str_eq field "capture_response.headers"
      then decoded field (d.headers node)
          (λ v. record cfg { capture = record cfg.capture { headers = v } })
      else if str_eq field "capture_response.body"
      then decoded field (d.bytes node)
          (λ v. record cfg { capture = record cfg.capture { body = v } })
      else if str_eq field "cors.enabled"
      then decoded field (d.flag node) (λ v. record cfg { cors = record cfg.cors { enabled = v } })
      else if str_eq field "limits.request_body_bytes"
      then decoded field (d.int node)
          (λ v. record cfg { limits = record cfg.limits { request_body_bytes = v } })
      else if str_eq field "limits.response_body_bytes"
      then decoded field (d.int node)
          (λ v. record cfg { limits = record cfg.limits { response_body_bytes = v } })
      else if str_eq field "limits.request_header_bytes"
      then decoded field (d.int node)
          (λ v. record cfg { limits = record cfg.limits { request_header_bytes = v } })
      else if str_eq field "limits.response_header_bytes"
      then decoded field (d.int node)
          (λ v. record cfg { limits = record cfg.limits { response_header_bytes = v } })
      else if str_eq field "limits.concurrent_exchanges"
      then decoded field (d.int node)
          (λ v. record cfg { limits = record cfg.limits { concurrent_exchanges = v } })
      else if str_eq field "preview.enabled"
      then decoded field (d.flag node)
          (λ v. record cfg { preview = record cfg.preview { enabled = v } })
      else if str_eq field "preview.bytes"
      then decoded field (d.int node)
          (λ v. record cfg { preview = record cfg.preview { bytes = v } })
      else if str_eq field "history.max_exchanges"
      then decoded field (d.int node)
          (λ v. record cfg { history = record cfg.history { max_exchanges = v } })
      else if str_eq field "storage.mode"
      then decoded field (d.text node)
          (λ v. record cfg { storage = record cfg.storage { mode = v } })
      else if str_eq field "storage.sqlite_path"
      then decoded field (d.text node)
          (λ v. record cfg { storage = record cfg.storage { sqlite_path = v } })
      else if str_eq field "storage.retention_days"
      then decoded field (d.signed_int node)
          (λ v. record cfg { storage = record cfg.storage { retention_days = v } })
      else if str_eq field "authentication.username"
      then decoded field (d.text node) (λ v. record cfg { auth = record cfg.auth { username = v } })
      else if str_eq field "authentication.password"
      then decoded field (d.text node) (λ v. record cfg { auth = record cfg.auth { password = v } })
      else if str_eq field "authentication.session_ttl"
      then decoded field (decode_duration node)
          (λ v. record cfg { auth = record cfg.auth { session_ttl = v } })
      else if str_eq field "udp.enabled"
      then decoded field (d.flag node) (λ v. record cfg { udp = record cfg.udp { enabled = v } })
      else if str_eq field "udp.listen"
      then decoded field (d.text node) (λ v. record cfg { udp = record cfg.udp { listen = v } })
      else if str_eq field "udp.mode"
      then decoded field (d.text node) (λ v. record cfg { udp = record cfg.udp { mode = v } })
      else if str_eq field "udp.upstream"
      then decoded field (d.text node) (λ v. record cfg { udp = record cfg.udp { upstream = v } })
      else if str_eq field "udp.max_datagram_bytes"
      then decoded field (d.int node)
          (λ v. record cfg { udp = record cfg.udp { max_datagram_bytes = v } })
      else if str_eq field "udp.max_sessions"
      then decoded field (d.int node)
          (λ v. record cfg { udp = record cfg.udp { max_sessions = v } })
      else if str_eq field "udp.session_ttl"
      then decoded field (decode_duration node)
          (λ v. record cfg { udp = record cfg.udp { session_ttl = v } })
      else if str_eq field "udp.capture_response"
      then decoded field (d.bytes node)
          (λ v. record cfg { udp = record cfg.udp { capture_response = v } })
      else if str_eq field "udp.max_replies_per_second"
      then decoded field (d.int node)
          (λ v. record cfg { udp = record cfg.udp { max_replies_per_second = v } })
      else if str_eq field "udp.max_reply_bytes_per_second"
      then decoded field (d.int node)
          (λ v. record cfg { udp = record cfg.udp { max_reply_bytes_per_second = v } })
      else if str_eq field "shutdown_timeout"
      then decoded field (decode_duration node) (λ v. record cfg { shutdown = v })
      else err (unknown_field field)

  -- Its loop, in the order that the map yields.
  unfoldable pub apply_overrides : List (String × Node) → Config → Result ConfigError Config
  apply_overrides [] cfg = ok cfg
  apply_overrides ((field, node) ∷ overrides) cfg =
      bind (apply_field field node cfg) (apply_overrides overrides)
