-- ===== src/Httpapi/Logins.antt =====
-- What the limits and the sessions of the management API guarantee.
pub mod Limits
use requestinspector_relay.Base.{
  ℕ, ◌+◌, ◌≤◌, ◌<◌, ◌≡◌, ◌⊎◌, refl, ap, ◌∙◌, le→leb, lookup-erase, String, List, [], ◌∷◌, ◌++◌,
  Option, none, some, true, false, not, ◌&&◌, ◌||◌, ltb, leb, str_eq, eq_iff, eq_refl, length,
  lookup, insert, lookup-insert, arith, Bool-cases, Option-cases, is_some, inl, inr, length-keep-le,
  length-insert_absent, length-insert_present,
}
use requestinspector_relay.Httpapi.Authenticator.{
  Authenticator, denied, granted, required, recent_attempts, remove_expired, prune_attempts,
  open_session, add_session, attempt, login, valid, logout,
}

add_session_lem :
    (auth : Authenticator) (now : ℕ) (token : Option String) (t : String) (x : ℕ)
    → (add_session auth now token).1 ≡ granted t x
    → (x ≡ now + auth.ttl)
      × (lookup t (add_session auth now token).0.sessions ≡ some x)
      × ((add_session auth now token).0.username ≡ auth.username)
unfolding add_session
add_session_lem auth now none t x h = ground arith
add_session_lem auth now (some text) t x h =
    ground (arith, eq_iff text t, lookup-insert text t (now + auth.ttl) auth.sessions)

-- A session is opened with a token that leads to its expiry.
open_session_lem :
    (auth : Authenticator) (now : ℕ) (token : Option String) (t : String) (x : ℕ)
    → (open_session auth now token).1 ≡ granted t x
    → (x ≡ now + auth.ttl)
      × (lookup t (open_session auth now token).0.sessions ≡ some x)
      × ((open_session auth now token).0.username ≡ auth.username)
unfolding open_session
open_session_lem auth now token t x h =
    let fewer : Authenticator = record auth { sessions = remove_expired now auth.sessions } in
    ground (arith, add_session_lem auth now token t x, add_session_lem fewer now token t x)

attempt_lem :
    (auth : Authenticator) (now : ℕ) (key username password : String) (token : Option String)
    (t : String) (x : ℕ)
    → (attempt auth now key username password token).1 ≡ granted t x
    → (username ≡ auth.username)
      × (password ≡ auth.password)
      × (x ≡ now + auth.ttl)
      × (lookup t (attempt auth now key username password token).0.sessions ≡ some x)
      × ((attempt auth now key username password token).0.username ≡ auth.username)
unfolding attempt
attempt_lem auth now key username password token t x h =
    let counted : Authenticator = record auth {
      attempts = insert key (recent_attempts auth key now ++ now ∷ []) auth.attempts;
    } in
    ground (
      arith,
      eq_iff username auth.username,
      eq_iff password auth.password,
      open_session_lem counted now token t x,
    )

login-granted :
    (auth : Authenticator) (now : ℕ) (key username password : String) (token : Option String)
    (t : String) (x : ℕ)
    → (login auth now key username password token).1 ≡ granted t x
    → (username ≡ auth.username)
      × (password ≡ auth.password)
      × (x ≡ now + auth.ttl)
      × (lookup t (login auth now key username password token).0.sessions ≡ some x)
      × ((login auth now key username password token).0.username ≡ auth.username)
      × (required auth ≡ true)
unfolding login
login-granted auth now key username password token t x h =
    let pruned : Authenticator = record auth { attempts = prune_attempts now auth.attempts } in
    ground (
      arith,
      attempt_lem auth now key username password token t x,
      attempt_lem pruned now key username password token t x,
    )

-- A login is granted only for the configured credentials, until `ttl` from now; and the token that
-- it hands out is valid at every time before that.
pub login-valid :
    (auth : Authenticator) (now at : ℕ) (key username password : String) (token : Option String)
    (t : String) (expires : ℕ)
    → (login auth now key username password token).1 ≡ granted t expires
    → at < expires
    → (username ≡ auth.username)
      × (password ≡ auth.password)
      × (expires ≡ now + auth.ttl)
      × ((valid (login auth now key username password token).0 at (some t)).1 ≡ true)
unfolding valid
login-valid auth now at key username password token t expires h early =
    let g = login-granted auth now key username password token t expires h in
    let open' : required (login auth now key username password token).0 ≡ true =
      ap (λ name. not (str_eq name "")) g.4 ∙ g.5 in
    (g.0, g.1, g.2, rw (open', valid) (rw (g.3, valid) (ground arith)))

-- A logged out token is not valid, and neither is one whose time is over.
logout-valid :
    (auth : Authenticator) (at : ℕ) (t : String)
    → required auth ≡ true
    → (valid (logout auth (some t)) at (some t)).1 ≡ false
unfolding valid logout
logout-valid auth at t on =
    rw (on, valid) (ground (arith, lookup-erase t t auth.sessions, eq_refl t))

-- The sessions and the clients with attempts stay within their maxima.
pub record IsBounded (auth : Authenticator) : Type 0 where
  pub sessions : length auth.sessions ≤ auth.max_sessions
  pub attempts : length auth.attempts ≤ auth.max_attempts

length-insert-le {ℓ} :
    {V : Type ℓ} (k : String) (v : V) (m : List (String × V)) → length (insert k v m) ≤ length m + 1
length-insert-le k v m = elim (Option-cases (lookup k m)) [
  | inl miss ↦ omega (arith, length-insert_absent k v m miss)
  | inr (w, hit) ↦ omega (arith, length-insert_present k v w m hit)
]

add_session-IsBounded :
    (auth : Authenticator) (now : ℕ) (token : Option String)
    → IsBounded auth
    → leb auth.max_sessions (length auth.sessions) ≡ false
    → IsBounded (add_session auth now token).0
unfolding add_session
add_session-IsBounded auth now none b room = b
add_session-IsBounded auth now (some text) b room = record {
  sessions = ground (arith, length-insert-le text (now + auth.ttl) auth.sessions);
  attempts = b.attempts;
}

open_session-IsBounded :
    (auth : Authenticator) (now : ℕ) (token : Option String)
    → IsBounded auth
    → IsBounded (open_session auth now token).0
unfolding open_session remove_expired
open_session-IsBounded auth now token b =
    elim (Bool-cases (leb auth.max_sessions (length auth.sessions))) [
      | inr room ↦
          rw (room, open_session)
            (rw (room, open_session) (add_session-IsBounded auth now token b room))
      | inl full ↦
          let fewer : Authenticator = record auth { sessions = remove_expired now auth.sessions } in
          let bounded : IsBounded fewer = record {
            sessions = omega (arith, b.sessions, length-keep-le (λ s. ltb now s.1) auth.sessions);
            attempts = b.attempts;
          } in
          elim (Bool-cases (leb auth.max_sessions (length fewer.sessions))) [
            | inl still ↦ rw (full, open_session) (rw (still, open_session) bounded)
            | inr room ↦
                rw (full, open_session)
                  (rw (room, open_session) (add_session-IsBounded fewer now token bounded room))
          ]
    ]

-- The client is known, or there is room for one more.
abbrev pub HasRoom : Authenticator → String → Type 0
HasRoom auth key =
    (is_some (lookup key auth.attempts) ≡ true) ⊎ (length auth.attempts < auth.max_attempts)

has_room :
    (auth : Authenticator) (key : String)
    → not (is_some (lookup key auth.attempts)) && leb auth.max_attempts (length auth.attempts)
      ≡ false
    → HasRoom auth key
has_room auth key h = ground arith

counted-IsBounded :
    (auth : Authenticator) (key : String) (values : List ℕ)
    → IsBounded auth
    → HasRoom auth key
    → IsBounded (record auth { attempts = insert key values auth.attempts })
counted-IsBounded auth key values b (inr room) = record {
  sessions = b.sessions;
  attempts = omega (arith, length-insert-le key values auth.attempts);
}
counted-IsBounded auth key values b (inl known) = record {
  sessions = b.sessions;
  attempts = elim (Option-cases (lookup key auth.attempts)) [
    | inl miss ↦ absurd (ground (arith, miss))
    | inr (old, hit) ↦
        omega (arith, b.attempts, length-insert_present key values old auth.attempts hit)
  ];
}

attempt-IsBounded :
    (auth : Authenticator) (now : ℕ) (key username password : String) (token : Option String)
    → IsBounded auth
    → HasRoom auth key
    → IsBounded (attempt auth now key username password token).0
unfolding attempt
attempt-IsBounded auth now key username password token b room =
    let recent = recent_attempts auth key now in
    elim (Bool-cases (leb 5 (length recent))) [
      | inl full ↦ rw (full, attempt) (counted-IsBounded auth key recent b room)
      | inr few ↦
          let counted = counted-IsBounded auth key (recent ++ now ∷ []) b room in
          elim (Bool-cases
            (not (str_eq username auth.username) || not (str_eq password auth.password))) [
              | inl wrong ↦ rw (few, attempt) (rw (wrong, attempt) counted)
              | inr right ↦
                  rw (few, attempt)
                    (rw (right, attempt) (open_session-IsBounded _ now token counted))
            ]
    ]

length-prune_attempts-le :
    (now : ℕ) (attempts : List (String × List ℕ))
    → length (prune_attempts now attempts) ≤ length attempts
unfolding prune_attempts
length-prune_attempts-le now [] = omega arith
length-prune_attempts-le now ((key, values) ∷ attempts) =
    ground (arith, length-prune_attempts-le now attempts)

-- A login, whatever comes of it, keeps the sessions and the clients with attempts within their
-- maxima.
pub login-IsBounded :
    (auth : Authenticator) (now : ℕ) (key username password : String) (token : Option String)
    → IsBounded auth
    → IsBounded (login auth now key username password token).0
unfolding login
login-IsBounded auth now key username password token b =
    let fewer : Authenticator = record auth { attempts = prune_attempts now auth.attempts } in
    let bounded : IsBounded fewer = record {
      sessions = b.sessions;
      attempts = omega (arith, b.attempts, length-prune_attempts-le now auth.attempts);
    } in
    elim (Bool-cases (required auth)) [
      | inr off ↦ rw (off, login) b
      | inl on ↦
          elim (Bool-cases (
            not (is_some (lookup key auth.attempts))
            && leb auth.max_attempts (length auth.attempts))) [
              | inr free ↦
                  rw (on, login)
                    (rw (free, login)
                      (attempt-IsBounded auth now key username password token b
                        (has_room auth key free)))
              | inl full ↦ elim (Bool-cases (leb auth.max_attempts (length fewer.attempts))) [
                | inl still ↦ rw (on, login) (rw (full, login) (rw (still, login) bounded))
                | inr room ↦
                    rw (on, login)
                      (rw (full, login)
                        (rw (room, login)
                          (attempt-IsBounded fewer now key username password token bounded
                            (inr (ground arith)))))
              ]
            ]
    ]
