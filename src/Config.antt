-- ===== src/Config.antt =====
-- internal/config/config.go: the settings and their groups. Durations are in nanoseconds. A count
-- or a size is a natural number: 0 stands for all that the checks `<= 0` refuse. The retention, for
-- which 0 is a setting and the check is `< 0`, is an integer of Go's `int`.
pub mod Validation
pub mod Accepted
pub mod Overrides
pub mod Manager
pub mod Tests
use requestinspector_relay.Base.{ℕ, String, List, [], ◌∷◌, Bool, true, false, ◌*◌, ◌^◌}

pub data ℤ : Type 0 where
  pos : ℕ → ℤ
  negsuc : ℕ → ℤ

pub record Listeners : Type 0 where
  pub management : String
  pub traffic : String

pub record Upstream : Type 0 where
  pub url : String
  pub timeout : ℕ

pub record CaptureResponse : Type 0 where
  pub status : ℕ
  pub headers : List (String × List String)
  pub body : List ℕ

pub record Limits : Type 0 where
  pub request_body_bytes : ℕ
  pub response_body_bytes : ℕ
  pub request_header_bytes : ℕ
  pub response_header_bytes : ℕ
  pub concurrent_exchanges : ℕ

pub record Preview : Type 0 where
  pub enabled : Bool
  pub bytes : ℕ

pub record Storage : Type 0 where
  pub mode : String
  pub sqlite_path : String
  pub retention_days : ℤ

abbrev pub mode_capture : String
mode_capture = "capture"

abbrev pub mode_proxy : String
mode_proxy = "proxy"

abbrev pub storage_memory : String
storage_memory = "memory"

abbrev pub storage_sqlite : String
storage_sqlite = "sqlite"

pub record Cors : Type 0 where
  pub enabled : Bool

pub record History : Type 0 where
  pub max_exchanges : ℕ

pub record Authentication : Type 0 where
  pub username : String
  pub password : String
  pub session_ttl : ℕ

pub record Udp : Type 0 where
  pub enabled : Bool
  pub listen : String
  pub mode : String
  pub upstream : String
  pub max_datagram_bytes : ℕ
  pub max_sessions : ℕ
  pub session_ttl : ℕ
  pub capture_response : List ℕ
  pub max_replies_per_second : ℕ
  pub max_reply_bytes_per_second : ℕ

pub record Config : Type 0 where
  pub config_path : String
  pub listeners : Listeners
  pub mode : String
  pub upstream : Upstream
  pub capture : CaptureResponse
  pub cors : Cors
  pub limits : Limits
  pub preview : Preview
  pub history : History
  pub storage : Storage
  pub auth : Authentication
  pub udp : Udp
  pub shutdown : ℕ

abbrev second : ℕ
second = 10 ^ 9

unfoldable pub defaults : Config
defaults = record {
  config_path = "";
  listeners = record { management = "127.0.0.1:8080"; traffic = "0.0.0.0:8081" };
  mode = mode_capture;
  upstream = record { url = ""; timeout = 30 * second };
  capture = record {
    status = 200;
    headers = [];
    body = 123 ∷ 34 ∷ 111 ∷ 107 ∷ 34 ∷ 58 ∷ 116 ∷ 114 ∷ 117 ∷ 101 ∷ 125 ∷ [];
  };
  cors = record { enabled = false };
  limits = record {
    request_body_bytes = 2 ^ 20;
    response_body_bytes = 2 ^ 20;
    request_header_bytes = 64 * 2 ^ 10;
    response_header_bytes = 64 * 2 ^ 10;
    concurrent_exchanges = 128;
  };
  preview = record { enabled = true; bytes = 16 * 2 ^ 10 };
  history = record { max_exchanges = 100 };
  storage = record { mode = storage_sqlite; sqlite_path = ""; retention_days = pos 0 };
  auth = record { username = ""; password = ""; session_ttl = 24 * (3600 * second) };
  udp = record {
    enabled = false;
    listen = "0.0.0.0:12050";
    mode = mode_capture;
    upstream = "";
    max_datagram_bytes = 65507;
    max_sessions = 1024;
    session_ttl = 30 * second;
    capture_response = [];
    max_replies_per_second = 100;
    max_reply_bytes_per_second = 2 ^ 20;
  };
  shutdown = 10 * second;
}
