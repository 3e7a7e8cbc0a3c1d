-- ===== src/Httpapi/Update.antt =====
-- Changes of the configuration in internal/httpapi/handler.go.
use requestinspector_relay.Base.{
  ℕ, ◌==◌, List, [], ◌∷◌, ◌≡◌, refl, arith, Bool, true, false, not, ◌||◌, ◌&&◌, str_eq, eq_iff,
}
use requestinspector_relay.Config.{Config, Authentication, Udp}

abbrev pub bool_eq : Bool → Bool → Bool
bool_eq true b = b
bool_eq false b = not b

-- Go's `==` on the two groups of settings.
abbrev authentication_eq : Authentication → Authentication → Bool
authentication_eq a b =
    str_eq a.username b.username && str_eq a.password b.password && (a.session_ttl == b.session_ttl)

abbrev bytes_eq : List ℕ → List ℕ → Bool
bytes_eq [] [] = true
bytes_eq [] (d ∷ ds) = false
bytes_eq (c ∷ cs) [] = false
bytes_eq (c ∷ cs) (d ∷ ds) = c == d && bytes_eq cs ds

abbrev udp_eq : Udp → Udp → Bool
udp_eq a b =
    bool_eq a.enabled b.enabled
    && str_eq a.listen b.listen
    && str_eq a.mode b.mode
    && str_eq a.upstream b.upstream
    && (a.max_datagram_bytes == b.max_datagram_bytes)
    && (a.max_sessions == b.max_sessions)
    && (a.session_ttl == b.session_ttl)
    && bytes_eq a.capture_response b.capture_response
    && (a.max_replies_per_second == b.max_replies_per_second)
    && (a.max_reply_bytes_per_second == b.max_reply_bytes_per_second)

bytes_eq-eq : (a b : List ℕ) → bytes_eq a b ≡ true → a ≡ b
bytes_eq-eq [] [] h = refl
bytes_eq-eq [] (d ∷ ds) h = cc
bytes_eq-eq (c ∷ cs) [] h = cc
bytes_eq-eq (c ∷ cs) (d ∷ ds) h = ground (arith, bytes_eq-eq cs ds)

-- Equal settings of the UDP group are the same record.
pub udp_eq-eq : (a b : Udp) → udp_eq a b ≡ true → a ≡ b
udp_eq-eq a b h = ground (
  arith,
  eq_iff a.listen b.listen,
  eq_iff a.mode b.mode,
  eq_iff a.upstream b.upstream,
  bytes_eq-eq a.capture_response b.capture_response,
)

pub authentication_eq-eq : (a b : Authentication) → authentication_eq a b ≡ true → a ≡ b
authentication_eq-eq a b h =
    ground (arith, eq_iff a.username b.username, eq_iff a.password b.password)

unfoldable pub traffic_settings_changed : Config → Config → Bool
traffic_settings_changed current next =
    not (str_eq current.listeners.traffic next.listeners.traffic)
    || not (bool_eq current.cors.enabled next.cors.enabled)

unfoldable pub management_settings_changed : Config → Config → Bool
management_settings_changed current next =
    not (str_eq current.listeners.management next.listeners.management)
    || not (authentication_eq current.auth next.auth)

-- `current.UDP != next.UDP`
unfoldable pub udp_settings_changed : Config → Config → Bool
udp_settings_changed current next = not (udp_eq current.udp next.udp)
