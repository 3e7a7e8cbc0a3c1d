-- ===== src/Httpapi/Logins/Limits.antt =====
-- The limit on the logins of a client: `login` of internal/httpapi/auth.go, again and again.
use requestinspector_relay.Base.{
  ℕ, ◌+◌, ◌≤◌, ◌<◌, ◌≡◌, ◌⊎◌, refl, ap, ◌∙◌, sym, String, List, [], ◌∷◌, ◌++◌, Option, none, some,
  true, not, ltb, leb, str_eq, length, keep, lookup, insert, lookup-insert, eq_refl, arith, All,
  inl, inr, Bool-cases, Option-cases, is_some, if◌then◌else◌, le→leb, subst,
}
use requestinspector_relay.Httpapi.Authenticator.{
  Authenticator, denied, required, minute, recent_attempts, open_session, add_session, attempt,
  login,
}
use requestinspector_relay.Httpapi.Logins.{HasRoom}

-- A login that a client tries: when, what it sends, and the token that it would get.
pub record Try : Type 0 where
  pub at : ℕ
  pub username : String
  pub password : String
  pub token : Option String

-- The logins of one client, the first one first.
abbrev pub logins : Authenticator → String → List Try → Authenticator
logins auth key [] = auth
logins auth key (t ∷ tries) = logins (login auth t.at key t.username t.password t.token).0 key tries

abbrev pub IsRecent : ℕ → ℕ → Type 0
IsRecent now at = (at ≤ now) × (now < at + minute)

-- What is recorded of a client.
abbrev recorded_of : Option (List ℕ) → List ℕ
recorded_of none = []
recorded_of (some values) = values

abbrev recorded : Authenticator → String → List ℕ
recorded auth key = recorded_of (lookup key auth.attempts)

record Counts (auth : Authenticator) (key : String) (now count : ℕ) : Type 0 where
  pub on : required auth ≡ true
  pub room : HasRoom auth key
  pub recent : All (IsRecent now) (recorded auth key)
  pub counted : (count ≤ length (recorded auth key)) ⊎ (5 ≤ length (recorded auth key))

recent_whole :
    (now at : ℕ) (values : List ℕ)
    → at ≤ now
    → All (IsRecent now) values
    → keep (λ value. ltb at (value + minute)) values ≡ values
recent_whole now at [] h a = refl
recent_whole now at (v ∷ values) h a = ground (arith, h, a.0, recent_whole now at values h a.1)

recent_attempts-recorded :
    (auth : Authenticator) (key : String) (now at : ℕ)
    → at ≤ now
    → All (IsRecent now) (recorded auth key)
    → recent_attempts auth key at ≡ recorded auth key
unfolding recent_attempts
recent_attempts-recorded auth key now at h a = elim (Option-cases (lookup key auth.attempts)) [
  | inl miss ↦ rw (miss, recent_attempts) refl
  | inr (values, hit) ↦
      let own : recorded auth key ≡ values = ap recorded_of hit in
      rw (hit, recent_attempts) (recent_whole now at values h (subst (All (IsRecent now)) own a))
]

open_session-attempts :
    (auth : Authenticator) (now : ℕ) (token : Option String)
    → ((open_session auth now token).0.attempts ≡ auth.attempts)
      × ((open_session auth now token).0.username ≡ auth.username)
unfolding open_session add_session
open_session-attempts auth now none = (ground arith, ground arith)
open_session-attempts auth now (some token) = (ground arith, ground arith)

-- What an attempt leaves recorded: itself, too, unless there were five.
abbrev next_record : ℕ → List ℕ → List ℕ
next_record at recent = if leb 5 (length recent) then recent else recent ++ at ∷ []

attempt-attempts :
    (auth : Authenticator) (at : ℕ) (key username password : String) (token : Option String)
    → ((attempt auth at key username password token).0.attempts
        ≡ insert key (next_record at (recent_attempts auth key at)) auth.attempts)
      × ((attempt auth at key username password token).0.username ≡ auth.username)
unfolding attempt
attempt-attempts auth at key username password token =
    let counted : Authenticator = record auth {
      attempts = insert key (recent_attempts auth key at ++ at ∷ []) auth.attempts;
    } in
    let opened = open_session-attempts counted at token in
    (ground (arith, opened.0), ground (arith, opened.1))

login-attempt :
    (auth : Authenticator) (at : ℕ) (key username password : String) (token : Option String)
    → required auth ≡ true
    → HasRoom auth key
    → login auth at key username password token ≡ attempt auth at key username password token
unfolding login
login-attempt auth at key username password token on room = ground (arith, on, room)

All-after :
    (now at : ℕ) (values : List ℕ)
    → All (IsRecent now) values
    → IsRecent now at
    → All (IsRecent now) (values ++ at ∷ [])
All-after now at [] a h = (h, tt)
All-after now at (v ∷ values) a h = (a.0, All-after now at values a.1 h)

length-after : (at : ℕ) (values : List ℕ) → length (values ++ at ∷ []) ≡ length values + 1
length-after at [] = refl
length-after at (v ∷ values) = omega (arith, length-after at values)

next_record-All :
    (now at : ℕ) (values : List ℕ)
    → All (IsRecent now) values
    → IsRecent now at
    → All (IsRecent now) (next_record at values)
next_record-All now at values a h = elim (Bool-cases (leb 5 (length values))) [
  | inl full ↦ rw full a
  | inr few ↦ rw few (All-after now at values a h)
]

next_record-length :
    (at count : ℕ) (values : List ℕ)
    → (count ≤ length values) ⊎ (5 ≤ length values)
    → (count + 1 ≤ length (next_record at values)) ⊎ (5 ≤ length (next_record at values))
next_record-length at count values h = ground (arith, length-after at values)

-- Each recent login is counted, until there are five.
login-Counts :
    (auth : Authenticator) (key : String) (now count : ℕ) (t : Try)
    → Counts auth key now count
    → IsRecent now t.at
    → Counts (login auth t.at key t.username t.password t.token).0 key now (count + 1)
login-Counts auth key now count t c h =
    let same = login-attempt auth t.at key t.username t.password t.token c.on c.room in
    let made = attempt-attempts auth t.at key t.username t.password t.token in
    let seen = recent_attempts-recorded auth key now t.at h.0 c.recent in
    let values = next_record t.at (recorded auth key) in
    let found : lookup key (attempt auth t.at key t.username t.password t.token).0.attempts
        ≡ some values =
      rw made.0 (
        rw seen (
          lookup-insert key key values auth.attempts
          ∙ ap (λ b. if b then some values else lookup key auth.attempts) (eq_refl key))) in
    let own : recorded (attempt auth t.at key t.username t.password t.token).0 key ≡ values =
      ap recorded_of found in
    rw same (record {
      on = ap (λ name. not (str_eq name "")) made.1 ∙ c.on;
      room = inl (ap is_some found);
      recent =
          subst (All (IsRecent now)) (sym own)
            (next_record-All now t.at (recorded auth key) c.recent h);
      counted =
          subst (λ vs. (count + 1 ≤ length vs) ⊎ (5 ≤ length vs)) (sym own)
            (next_record-length t.at count (recorded auth key) c.counted);
    })

logins-Counts :
    (key : String) (now count : ℕ) (tries : List Try) (auth : Authenticator)
    → Counts auth key now count
    → All (λ t. IsRecent now t.at) tries
    → Counts (logins auth key tries) key now (count + length tries)
logins-Counts key now count [] auth c h = subst (Counts auth key now) (omega arith) c
logins-Counts key now count (t ∷ tries) auth c h =
    let after = (login auth t.at key t.username t.password t.token).0 in
    subst (Counts (logins auth key (t ∷ tries)) key now) (omega arith)
      (logins-Counts key now (count + 1) tries after (login-Counts auth key now count t c h.0) h.1)

-- A client that is new, and for which there is room, tries five logins or more, whatever they send
-- and whatever is answered. Within a minute after the first of them, each further login is refused,
-- even one with the right credentials, and no session is opened or lost.
pub login-limited :
    (auth : Authenticator) (key : String) (tries : List Try) (now : ℕ) (username password : String)
    (token : Option String)
    → required auth ≡ true
    → lookup key auth.attempts ≡ none
    → length auth.attempts < auth.max_attempts
    → 5 ≤ length tries
    → All (λ t. IsRecent now t.at) tries
    → ((login (logins auth key tries) now key username password token).1
        ≡ denied "login_rate_limited")
      × ((login (logins auth key tries) now key username password token).0.sessions
          ≡ (logins auth key tries).sessions)
unfolding attempt
login-limited auth key tries now username password token on unknown room many recent =
    let after = logins auth key tries in
    let empty : recorded auth key ≡ [] = ap recorded_of unknown in
    let c =
      logins-Counts key now 0 tries auth
        (record {
          on = on;
          room = inr room;
          recent = subst (All (IsRecent now)) (sym empty) tt;
          counted = inl (omega arith);
        })
        recent in
    let seen = recent_attempts-recorded after key now now (omega arith) c.recent in
    let full : leb 5 (length (recent_attempts after key now)) ≡ true =
      rw seen (le→leb 5 (length (recorded after key)) (omega (arith, c.counted, many))) in
    rw (login-attempt after now key username password token c.on c.room)
      (rw (full, attempt) (refl, refl))
