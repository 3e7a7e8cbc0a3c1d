-- ===== src/Config/Validation.antt =====
-- `Validate`, `validateUDP` and what they call, in internal/config/config.go. The errors are a list,
-- as `errors.Join` takes them. The parsers of net and net/url and the case folding of strings are
-- parameters.
use Prim.Native.String.{String}
use requestinspector_relay.Base.{
  ℕ, ◌*◌, ◌^◌, List, [], ◌∷◌, ◌++◌, Option, none, some, Bool, true, false, not, ◌&&◌, ◌||◌, ltb,
  ◌==◌, if◌then◌else◌, str_eq, length, any, codes,
}
use requestinspector_relay.Config.{
  ℤ, pos, negsuc, Config, Listeners, mode_capture, mode_proxy, storage_memory, storage_sqlite,
}

pub record Ip : Type 0 where
  pub to4 : Option (List ℕ)
  pub is_unspecified : Bool
  pub is_multicast : Bool
  pub is_loopback : Bool

pub record Url : Type 0 where
  pub scheme : String
  pub host : String
  pub hostname : String
  pub port : String
  pub has_user : Bool
  pub fragment : String
  pub raw_query : String
  pub force_query : Bool

-- net.SplitHostPort, net.ParseIP, url.Parse, strings.EqualFold and strings.ToLower.
pub record Parsers : Type 0 where
  pub split_host_port : String → Option (String × String)
  pub parse_ip : String → Option Ip
  pub parse_url : String → Option Url
  pub equal_fold : String → String → Bool
  pub to_lower : String → String

pub data ValidationError : Type 0 where
  mode_unknown listeners_equal upstream_loops upstream_timeout capture_status : ValidationError
  listener_required listener_invalid : String → ValidationError
  upstream_unparsed upstream_scheme upstream_authority upstream_extras : ValidationError
  header_name_invalid header_controls_framing header_line_break : String → ValidationError
  body_limits header_limits concurrent_limit preview_bytes preview_exceeds : ValidationError
  history_capacity storage_mode retention credentials session_ttl shutdown : ValidationError
  udp_mode udp_listener udp_datagram_bytes udp_sessions udp_session_ttl : ValidationError
  udp_reply_rate udp_reply_bytes udp_response_bytes udp_upstream_forbidden : ValidationError
  udp_upstream_required udp_upstream_address udp_upstream_unicast udp_response_forbidden :
      ValidationError

-- `if test { validationErrors = append(validationErrors, e) }`
abbrev pub check : Bool → ValidationError → List ValidationError
check true e = e ∷ []
check false e = []

-- The errors of several checks, in order.
abbrev pub joined : List (List ValidationError) → List ValidationError
joined [] = []
joined (errors ∷ rest) = errors ++ joined rest

abbrev is_none_or {ℓ} : {A : Type ℓ} → Option A → (A → Bool) → Bool
is_none_or none test = true
is_none_or (some a) test = test a

abbrev is_such {ℓ} : {A : Type ℓ} → Option A → (A → Bool) → Bool
is_such none test = false
is_such (some a) test = test a

abbrev is_negative : ℤ → Bool
is_negative (pos n) = false
is_negative (negsuc n) = true

-- The characters `()<>@,;:\"/[]?={} ` and the tab.
abbrev separators : List ℕ
separators =
    40 ∷ 41 ∷ 60 ∷ 62 ∷ 64 ∷ 44 ∷ 59 ∷ 58 ∷ 92 ∷ 34 ∷ 47 ∷ 91 ∷ 93 ∷ 63 ∷ 61 ∷ 123 ∷ 125 ∷ 32 ∷ 9
    ∷ []

unfoldable pub valid_header_name : String → Bool
valid_header_name name =
    not (str_eq name "")
    && not (any (λ c. ltb 127 c || any (λ d. c == d) separators || ltb c 33) (codes name))

unfoldable pub is_ipv4_broadcast : Ip → Bool
is_ipv4_broadcast ip = is_such ip.to4 (λ octets. elim octets [
  | [] ↦ false
  | a ∷ rest ↦ (a == 255) && not (any (λ o. not (o == 255)) rest)
])

module _ (net : Parsers) where
  unfoldable pub validate_listener : String → String → List ValidationError
  validate_listener name address =
      if str_eq address ""
      then listener_required name ∷ []
      else (elim (net.split_host_port address) [ none ↦ listener_invalid name ∷ [] | some _ ↦ [] ])

  unfoldable pub validate_upstream : String → List ValidationError
  validate_upstream raw = elim (net.parse_url raw) [
    | none ↦ upstream_unparsed ∷ []
    | some url ↦
        if not (net.equal_fold url.scheme "http") && not (net.equal_fold url.scheme "https")
        then upstream_scheme ∷ []
        else if str_eq url.host ""
        then upstream_authority ∷ []
        else if url.has_user
            || not (str_eq url.fragment "")
            || not (str_eq url.raw_query "")
            || url.force_query
        then upstream_extras ∷ []
        else []
  ]

  unfoldable pub local_hosts_overlap : String → String → Bool
  local_hosts_overlap listener_host upstream_host =
      (str_eq listener_host ""
        || net.equal_fold listener_host "localhost"
        || is_such (net.parse_ip listener_host) (λ ip. ip.is_loopback || ip.is_unspecified))
      && (net.equal_fold upstream_host "localhost"
          || is_such (net.parse_ip upstream_host) (λ ip. ip.is_loopback))

  unfoldable pub upstream_port : Url → String
  upstream_port url =
      if str_eq url.port ""
      then (if net.equal_fold url.scheme "http"
          then "80"
          else if str_eq url.scheme "https"
          then "443"
          else "")
      else url.port

  unfoldable pub upstream_loops_to_listener : String → Listeners → Bool
  unfolding upstream_port local_hosts_overlap
  upstream_loops_to_listener raw listeners = is_such (net.parse_url raw) (λ url.
      any
        (λ address. is_such (net.split_host_port address) (λ parts.
          str_eq parts.1 (upstream_port url)
          && (net.equal_fold parts.0 url.hostname || local_hosts_overlap parts.0 url.hostname)))
        (listeners.management ∷ listeners.traffic ∷ []))

  unfoldable pub check_values : String → List String → List ValidationError
  check_values name [] = []
  check_values name (value ∷ values) =
      check (any (λ c. c == 10 || c == 13) (codes value)) (header_line_break name)
      ++ check_values name values

  abbrev controls_framing : String → Bool
  controls_framing lower =
      str_eq lower "content-length"
      || str_eq lower "transfer-encoding"
      || str_eq lower "trailer"
      || str_eq lower "connection"

  unfoldable pub check_headers : List (String × List String) → List ValidationError
  unfolding check_values valid_header_name
  check_headers [] = []
  check_headers ((name, values) ∷ headers) =
      check (not (valid_header_name name)) (header_name_invalid name)
      ++ (check (controls_framing (net.to_lower name)) (header_controls_framing name)
          ++ (check_values name values ++ check_headers headers))

  unfoldable pub validate_udp_upstream : String → List ValidationError
  unfolding is_ipv4_broadcast
  validate_udp_upstream address =
      if is_none_or (net.split_host_port address) (λ parts. str_eq parts.0 "" || str_eq parts.1 "")
      then udp_upstream_address ∷ []
      else if is_such (net.split_host_port address) (λ parts.
        is_such (net.parse_ip parts.0)
          (λ ip. ip.is_unspecified || ip.is_multicast || is_ipv4_broadcast ip))
      then udp_upstream_unicast ∷ []
      else []

  unfoldable pub validate_udp_mode : Config → List ValidationError
  unfolding validate_udp_upstream
  validate_udp_mode cfg =
      if str_eq cfg.udp.mode mode_capture
      then check (not (str_eq cfg.udp.upstream "")) udp_upstream_forbidden
      else if str_eq cfg.udp.mode mode_proxy
      then (if str_eq cfg.udp.upstream ""
          then udp_upstream_required ∷ []
          else validate_udp_upstream cfg.udp.upstream)
        ++ check (ltb 0 (length cfg.udp.capture_response)) udp_response_forbidden
      else []

  unfoldable pub udp_checks : Config → List (List ValidationError)
  unfolding validate_udp_mode
  udp_checks cfg =
      (check (not (str_eq cfg.udp.mode mode_capture) && not (str_eq cfg.udp.mode mode_proxy))
        udp_mode)
      ∷ (validate_listener "UDP listener" cfg.udp.listen)
      ∷ (check
          (str_eq cfg.udp.listen cfg.listeners.management
            || str_eq cfg.udp.listen cfg.listeners.traffic)
          udp_listener)
      ∷ (check (cfg.udp.max_datagram_bytes == 0 || ltb 65507 cfg.udp.max_datagram_bytes)
          udp_datagram_bytes)
      ∷ (check (cfg.udp.max_sessions == 0 || ltb 4096 cfg.udp.max_sessions) udp_sessions)
      ∷ (check (cfg.udp.session_ttl == 0 || ltb (30 * 10 ^ 9) cfg.udp.session_ttl) udp_session_ttl)
      ∷ (check (cfg.udp.max_replies_per_second == 0) udp_reply_rate)
      ∷ (check (cfg.udp.max_reply_bytes_per_second == 0) udp_reply_bytes)
      ∷ (check (ltb cfg.udp.max_datagram_bytes (length cfg.udp.capture_response))
          udp_response_bytes)
      ∷ (validate_udp_mode cfg)
      ∷ []

  unfoldable pub validate_udp : Config → List ValidationError
  unfolding udp_checks
  validate_udp cfg = joined (udp_checks cfg)

  unfoldable pub validate_mode : Config → List ValidationError
  unfolding validate_upstream upstream_loops_to_listener
  validate_mode cfg =
      if str_eq cfg.mode mode_proxy
      then (elim (validate_upstream cfg.upstream.url) [
        | e ∷ es ↦ e ∷ es
        | [] ↦ check (upstream_loops_to_listener cfg.upstream.url cfg.listeners) upstream_loops
      ])
      else []

  abbrev pub preview_exceeds_body : Config → Bool
  preview_exceeds_body cfg =
      ltb cfg.limits.request_body_bytes cfg.preview.bytes
      || ltb cfg.limits.response_body_bytes cfg.preview.bytes

  unfoldable pub checks : Config → List (List ValidationError)
  unfolding validate_mode check_headers validate_udp
  checks cfg =
      (check (not (str_eq cfg.mode mode_capture) && not (str_eq cfg.mode mode_proxy)) mode_unknown)
      ∷ (validate_listener "management listener" cfg.listeners.management)
      ∷ (validate_listener "traffic listener" cfg.listeners.traffic)
      ∷ (check (str_eq cfg.listeners.management cfg.listeners.traffic) listeners_equal)
      ∷ (validate_mode cfg)
      ∷ (check (cfg.upstream.timeout == 0) upstream_timeout)
      ∷ (check (ltb cfg.capture.status 200 || ltb 599 cfg.capture.status) capture_status)
      ∷ (check_headers cfg.capture.headers)
      ∷ (check (cfg.limits.request_body_bytes == 0 || cfg.limits.response_body_bytes == 0)
          body_limits)
      ∷ (check (cfg.limits.request_header_bytes == 0 || cfg.limits.response_header_bytes == 0)
          header_limits)
      ∷ (check (cfg.limits.concurrent_exchanges == 0) concurrent_limit)
      ∷ ((if cfg.preview.bytes == 0
          then preview_bytes ∷ []
          else check (preview_exceeds_body cfg) preview_exceeds))
      ∷ (check (cfg.history.max_exchanges == 0) history_capacity)
      ∷ (check
          (not (str_eq cfg.storage.mode storage_memory)
            && not (str_eq cfg.storage.mode storage_sqlite))
          storage_mode)
      ∷ (check (is_negative cfg.storage.retention_days) retention)
      ∷ (check
          (not (str_eq cfg.auth.username "") && str_eq cfg.auth.password ""
            || str_eq cfg.auth.username "" && not (str_eq cfg.auth.password ""))
          credentials)
      ∷ (check (cfg.auth.session_ttl == 0) session_ttl)
      ∷ (validate_udp cfg)
      ∷ (check (cfg.shutdown == 0) shutdown)
      ∷ []

  unfoldable pub validate : Config → List ValidationError
  unfolding checks
  validate cfg = joined (checks cfg)
