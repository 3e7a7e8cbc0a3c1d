-- ===== src/Proxy.antt =====
-- internal/proxy: the handler that forwards a captured request to the upstream, and what it needs of
-- the libraries of Go for texts and addresses.
pub mod Headers
pub mod Url
pub mod Body
pub mod Timing
pub mod Inspection
pub mod Handler
pub mod Forwarding
pub mod Outcome
mod Tests
use requestinspector_relay.Base.{String, List, Option, Bool}

-- http.CanonicalHeaderKey, strings.TrimSpace, strings.EqualFold, strings.ToLower,
-- net.SplitHostPort, and whether net.ParseIP finds an address.
pub record Texts : Type 0 where
  pub canonical : String → String
  pub trim_space : String → String
  pub equal_fold : String → String → Bool
  pub to_lower : String → String
  pub split_host_port : String → Option (String × String)
  pub is_ip : String → Bool
