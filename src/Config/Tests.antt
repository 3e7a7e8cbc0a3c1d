-- ===== src/Config/Tests.antt =====
-- The defaults are accepted where the listeners' addresses are well formed.
use requestinspector_relay.Base.{◌≡◌, refl, [], none, some, str_eq}
use requestinspector_relay.Config.{defaults}
use requestinspector_relay.Config.Validation.{
  Parsers, validate, validate_listener, validate_mode, check_headers, validate_udp,
  validate_udp_mode, checks, udp_checks,
}
use requestinspector_relay.Config.Accepted.{IsAccepted, validate-IsAccepted}

abbrev pub test_parsers : Parsers
test_parsers = record {
  split_host_port = λ address. some ("127.0.0.1", "80");
  parse_ip = λ host. none;
  parse_url = λ raw. none;
  equal_fold = str_eq;
  to_lower = λ s. s;
}

defaults_accepted : validate test_parsers defaults ≡ []
unfolding validate validate_listener validate_mode check_headers validate_udp validate_udp_mode
    checks udp_checks defaults
defaults_accepted = refl

validate-IsAccepted_example : IsAccepted defaults
validate-IsAccepted_example = validate-IsAccepted test_parsers defaults defaults_accepted
