-- ===== src/Httpapi/Authenticator.antt =====
-- internal/httpapi/auth.go: logins, sessions and their limits. Each method holds the mutex to its
-- end. A client is the host that `clientAddress` finds; the token is random.
use requestinspector_relay.Base.{
  ℕ, ◌+◌, ◌*◌, ◌^◌, String, List, [], ◌∷◌, ◌++◌, Option, none, some, Bool, true, false, not, ◌&&◌,
  ◌||◌, ltb, leb, if◌then◌else◌, str_eq, length, keep, lookup, insert, erase, is_some,
}

pub record Authenticator : Type 0 where
  pub username : String
  pub password : String
  pub ttl : ℕ
  pub sessions : List (String × ℕ)
  pub attempts : List (String × List ℕ)
  pub max_sessions : ℕ
  pub max_attempts : ℕ

pub data Login : Type 0 where
  denied : String → Login
  granted : String → ℕ → Login

abbrev pub minute : ℕ
minute = 60 * 10 ^ 9

unfoldable pub new_authenticator : String → String → ℕ → Authenticator
new_authenticator username password ttl = record {
  username = username;
  password = password;
  ttl = ttl;
  sessions = [];
  attempts = [];
  max_sessions = 1024;
  max_attempts = 1024;
}

abbrev pub required : Authenticator → Bool
required auth = not (str_eq auth.username "")

-- `value.After(now.Add(-time.Minute))`
abbrev recent_of : ℕ → List ℕ → List ℕ
recent_of now values = keep (λ value. ltb now (value + minute)) values

unfoldable pub recent_attempts : Authenticator → String → ℕ → List ℕ
recent_attempts auth key now = elim (lookup key auth.attempts) [
  | none ↦ []
  | some values ↦ recent_of now values
]

unfoldable pub remove_expired : ℕ → List (String × ℕ) → List (String × ℕ)
remove_expired now sessions = keep (λ s. ltb now s.1) sessions

abbrev has_values : List ℕ → Bool
has_values [] = false
has_values (_ ∷ _) = true

unfoldable pub prune_attempts : ℕ → List (String × List ℕ) → List (String × List ℕ)
prune_attempts now [] = []
prune_attempts now ((key, values) ∷ attempts) =
    let rest = prune_attempts now attempts in
    if has_values (recent_of now values) then (key, recent_of now values) ∷ rest else rest

-- The new session, where there is a token.
unfoldable pub add_session : Authenticator → ℕ → Option String → Authenticator × Login
add_session auth now none = (auth, denied "session_creation_failed")
add_session auth now (some token) = (
  record auth { sessions = insert token (now + auth.ttl) auth.sessions },
  granted token (now + auth.ttl),
)

-- The new session, where there is room: the expired ones make some.
unfoldable pub open_session : Authenticator → ℕ → Option String → Authenticator × Login
unfolding remove_expired add_session
open_session auth now token =
    let pruned : Authenticator =
      if leb auth.max_sessions (length auth.sessions)
      then record auth { sessions = remove_expired now auth.sessions }
      else auth in
    if leb auth.max_sessions (length pruned.sessions)
    then (pruned, denied "session_capacity_exhausted")
    else add_session pruned now token

-- The attempt is counted before the credentials are looked at.
unfoldable pub attempt :
    Authenticator → ℕ → String → String → String → Option String → Authenticator × Login
unfolding recent_attempts open_session
attempt auth now key username password token =
    let recent = recent_attempts auth key now in
    if leb 5 (length recent)
    then (record auth { attempts = insert key recent auth.attempts }, denied "login_rate_limited")
    else (let counted : Authenticator = record auth {
      attempts = insert key (recent ++ now ∷ []) auth.attempts;
    } in
        if not (str_eq username auth.username) || not (str_eq password auth.password)
        then (counted, denied "invalid_credentials")
        else open_session counted now token)

unfoldable pub login :
    Authenticator → ℕ → String → String → String → Option String → Authenticator × Login
unfolding prune_attempts attempt
login auth now key username password token =
    if not (required auth)
    then (auth, denied "authentication_disabled")
    else if not (is_some (lookup key auth.attempts)) && leb auth.max_attempts (length auth.attempts)
    then (let pruned : Authenticator = record auth {
      attempts = prune_attempts now auth.attempts;
    } in
        if leb auth.max_attempts (length pruned.attempts)
        then (pruned, denied "login_rate_limited")
        else attempt pruned now key username password token)
    else attempt auth now key username password token

-- `valid`, with the session cookie's value if the request has one.
unfoldable pub valid : Authenticator → ℕ → Option String → Authenticator × Bool
valid auth now cookie = if not (required auth) then (auth, true) else (elim cookie [
  | none ↦ (auth, false)
  | some token ↦ (elim (lookup token auth.sessions) [
    | none ↦ (record auth { sessions = erase token auth.sessions }, false)
    | some expires ↦
        if not (ltb now expires)
        then (record auth { sessions = erase token auth.sessions }, false)
        else (auth, true)
  ])
])

unfoldable pub logout : Authenticator → Option String → Authenticator
logout auth cookie = elim cookie [
  | none ↦ auth
  | some token ↦ record auth { sessions = erase token auth.sessions }
]
