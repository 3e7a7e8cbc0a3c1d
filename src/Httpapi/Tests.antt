-- ===== src/Httpapi/Tests.antt =====
-- A range request, and logins of one client.
use requestinspector_relay.Base.{
  List, IsSorted, Separated, eq_iff, ◌≢◌, ◌+◌, ◌≤◌, ◌<◌, ◌≡◌, refl, [], ◌∷◌, none, length, some,
  true, arith, lookup, insert, parse_digits, parse_from,
}
use requestinspector_relay.Capture.Model.{Exchange, completed}
use requestinspector_relay.Capture.Tests.{test_exchange}
use requestinspector_relay.Httpapi.Listing.{
  exchange_ordering_time, boundary_of, older_than, listed_before, merge_exchanges,
  older_than-boundary_of,
}
use requestinspector_relay.Httpapi.Listing.Merge.{
  NewestFirst, first_with, merge_exchanges-NewestFirst,
}
use requestinspector_relay.Httpapi.Pages.Walk.{walk, walk_complete}
use requestinspector_relay.Httpapi.Range.{
  ByteRange, parse_range, parse_range_bounds, strip_prefix, has_char, split_dash, parse_parts,
  parse_int, start_range,
}
use requestinspector_relay.Httpapi.Authenticator.{
  Authenticator, denied, granted, recent_attempts, login, attempt, open_session, add_session, valid,
}
use requestinspector_relay.Httpapi.Logins.{login-valid, IsBounded, login-IsBounded}
use requestinspector_relay.Httpapi.Logins.Limits.{IsRecent, Try, logins, login-limited}

abbrev test_range : ByteRange
test_range = record { start = 2; end = 9 }

range_run : parse_range "bytes=2-99" 10 ≡ some test_range
unfolding parse_range strip_prefix has_char split_dash parse_parts parse_int start_range
    parse_digits parse_from
range_run = refl

parse_range_bounds_example : (2 ≤ 9) × (9 < 10)
parse_range_bounds_example = parse_range_bounds "bytes=2-99" 10 test_range range_run

abbrev test_auth : Authenticator
test_auth = record {
  username = "u";
  password = "p";
  ttl = 100;
  sessions = ("t", 50) ∷ [];
  attempts = ("c", 7 ∷ 7 ∷ 7 ∷ 7 ∷ 7 ∷ []) ∷ [];
  max_sessions = 2;
  max_attempts = 2;
}

login_run : (login test_auth 9 "d" "u" "p" (some "s")).1 ≡ granted "s" 109
unfolding login attempt open_session add_session recent_attempts lookup insert
login_run = refl

login-valid_example :
    (test_auth.username ≡ test_auth.username)
    × (test_auth.password ≡ test_auth.password)
    × (109 ≡ 9 + 100)
    × ((valid (login test_auth 9 "d" "u" "p" (some "s")).0 20 (some "s")).1 ≡ true)
login-valid_example =
    login-valid test_auth 9 20 "d" "u" "p" (some "s") "s" 109 login_run (omega arith)

abbrev wrong : Try
wrong = record { at = 7; username = "u"; password = "x"; token = none }

abbrev five : List Try
five = wrong ∷ wrong ∷ wrong ∷ wrong ∷ wrong ∷ []

wrong-IsRecent : IsRecent 9 7
wrong-IsRecent = (omega arith, omega arith)

login-limited_example :
    ((login (logins test_auth "e" five) 9 "e" "u" "p" (some "s")).1 ≡ denied "login_rate_limited")
    × ((login (logins test_auth "e" five) 9 "e" "u" "p" (some "s")).0.sessions
        ≡ (logins test_auth "e" five).sessions)
unfolding lookup
login-limited_example =
    login-limited test_auth "e" five 9 "u" "p" (some "s") refl refl (omega arith) (omega arith)
      (wrong-IsRecent, (wrong-IsRecent, (wrong-IsRecent, (wrong-IsRecent, (wrong-IsRecent, tt)))))

login-IsBounded_example : IsBounded (login test_auth 9 "d" "u" "p" (some "s")).0
login-IsBounded_example =
    login-IsBounded test_auth 9 "d" "u" "p" (some "s")
      (record { sessions = omega arith; attempts = omega arith })

abbrev newest : Exchange
newest = test_exchange "c" completed 9

abbrev middle : Exchange
middle = test_exchange "b" completed 7

abbrev oldest : Exchange
oldest = test_exchange "a" completed 5

listing_IsSorted : IsSorted listed_before (newest ∷ middle ∷ oldest ∷ [])
unfolding listed_before exchange_ordering_time
listing_IsSorted = ((refl, (refl, tt)), ((refl, tt), (tt, tt)))

older_than-boundary_of_example :
    older_than (newest ∷ middle ∷ oldest ∷ []) (some (boundary_of middle)) ≡ oldest ∷ []
older_than-boundary_of_example =
    older_than-boundary_of (newest ∷ []) (oldest ∷ []) middle listing_IsSorted
      (ground (arith, eq_iff "a" "b"), tt)

merge_exchanges-NewestFirst_example :
    NewestFirst (merge_exchanges (middle ∷ []) (oldest ∷ middle ∷ []))
    × Separated (λ x y. x.id ≢ y.id) (merge_exchanges (middle ∷ []) (oldest ∷ middle ∷ []))
    × (first_with "a" (merge_exchanges (middle ∷ []) (oldest ∷ middle ∷ []))
        ≡ first_with "a" (middle ∷ oldest ∷ middle ∷ []))
merge_exchanges-NewestFirst_example =
    merge_exchanges-NewestFirst (middle ∷ []) (oldest ∷ middle ∷ []) "a"

walk_complete_example :
    walk (length (middle ∷ oldest ∷ []) + 1) 1 (middle ∷ oldest ∷ []) none
    ≡ some (middle ∷ oldest ∷ [])
walk_complete_example =
    walk_complete 1 (middle ∷ oldest ∷ []) (omega arith) (omega arith) listing_IsSorted.1
      (((ground (arith, eq_iff "b" "a"), ground (arith, eq_iff "a" "b")), tt), (tt, tt))
