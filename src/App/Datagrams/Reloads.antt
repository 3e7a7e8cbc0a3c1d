-- ===== src/App/Datagrams/Reloads.antt =====
-- The plane of internal/app/udp.go keeps what the management interface relies on.
use requestinspector_relay.Base.{
  ℕ, String, [], ◌∷◌, ◌≡◌, refl, ap, ◌∙◌, Option, none, some, is_some, true, false, not, ◌||◌, ◌&&◌,
  ◌==◌, str_eq, arith, if_cases, option_cases, ==_iff, Bool-cases, inl, inr, ◌⊎◌, eq_iff,
}
use requestinspector_relay.Config.{Config, Udp}
use requestinspector_relay.Httpapi.Reload.{PlaneOps, IsPlane, Completes}
use requestinspector_relay.Httpapi.Update.{udp_settings_changed, udp_eq-eq}
use requestinspector_relay.App.Sockets.{
  Socket, Sockets, IsUsed, listen, close_socket, listen-IsUsed, close-listen-IsUsed,
}
use requestinspector_relay.App.Datagrams.{
  UdpPlane, UdpReload, UdpReloadPlan, UdpSessions, new_sessions, prepare, activate, abort, numbers,
  tables_of, close_listener, close_sessions, next_listener,
}

-- The lock is free, and what is open are the plane's own listener and table of sessions.
pub record IsFree (plane : UdpPlane) : Type 0 where
  pub free : plane.locked ≡ false
  pub used : IsUsed plane.sockets (numbers plane.listener)
  pub tables_used : IsUsed plane.tables (tables_of plane.sessions)

-- The plane has the settings, listens where they are enabled, and has sessions where it listens and
-- the mode is that of a proxy.
pub record Serves (plane : UdpPlane) (cfg : Config) : Type 0 where
  pub settings : plane.config ≡ cfg.udp
  pub listening : is_some plane.listener ≡ cfg.udp.enabled
  pub proxying : is_some plane.sessions ≡ (cfg.udp.enabled && str_eq cfg.udp.mode "proxy")

pub udp_ops : (String → Option String) → (Udp → Option String) → PlaneOps UdpPlane UdpReloadPlan
udp_ops bind resolve = record {
  prepare = prepare bind resolve;
  activate = λ current. activate;
  abort = abort;
}

-- A plane with the listener, the sessions and the settings of another.
pub record SameRuntime (s t : UdpPlane) : Type 0 where
  pub listener : t.listener ≡ s.listener
  pub sessions : t.sessions ≡ s.sessions
  pub config : t.config ≡ s.config

module _ (bind : String → Option String) (resolve : Udp → Option String) (s : UdpPlane)
    (cfg : Udp) where
  -- A listener at the new settings' address: it was bound for them, or it is the old one and the
  -- address has not changed.
  abbrev pub ListensAt : Option Socket → Type 0
  ListensAt none = Unit
  ListensAt (some listener) =
      (bind cfg.listen ≡ some listener.address)
      ⊎ ((s.listener ≡ some listener) × (s.config.listen ≡ cfg.listen))

  -- Sessions of a listener, with the new settings, that relay to their upstream.
  abbrev pub RelaysFor : Option Socket → Option UdpSessions → Type 0
  RelaysFor listener none = Unit
  RelaysFor listener (some sessions) =
      (listener ≡ some sessions.listener)
      × (resolve cfg ≡ some sessions.upstream)
      × (sessions.config ≡ cfg)

  pub record Renewed (t : UdpPlane) : Type 0 where
    pub listener : ListensAt t.listener
    pub sessions : RelaysFor t.listener t.sessions

  -- What a reload leaves running.
  abbrev pub Reloaded : UdpPlane × Option UdpReloadPlan → Type 0
  Reloaded (held, none) = SameRuntime s held
  Reloaded (held, some plan) = SameRuntime s (abort held plan).0 × Renewed (activate held plan).0

  new_sessions-RelaysFor :
      (listener : Option Socket) (upstream : String) (tables : Sockets)
      → resolve cfg ≡ some upstream
      → RelaysFor listener (new_sessions listener upstream cfg tables).1
  unfolding new_sessions listen
  new_sessions-RelaysFor none upstream tables h = tt
  new_sessions-RelaysFor (some listener) upstream tables h =
      elim (Bool-cases (str_eq cfg.mode "proxy")) [ inl p ↦ rw p (refl, h, refl) | inr p ↦ rw p tt ]

  -- A listener that stays is the old one, at the same address.
  kept-ListensAt :
      (listener : Option Socket)
      → s.listener ≡ listener
      → s.config.listen ≡ cfg.listen
      → ListensAt listener
  kept-ListensAt none h k = tt
  kept-ListensAt (some listener) h k = inr (h, k)

-- A socket that replaces the only one is the only one.
replace-IsUsed :
    (sockets : Sockets) (address : String) (n : ℕ)
    → IsUsed sockets (n ∷ [])
    → IsUsed (close_socket (listen sockets address).0 n) (sockets.count ∷ [])
unfolding listen close_socket
replace-IsUsed sockets address n u = record {
  same = ground (arith, u.same, u.past.0);
  past = (omega arith, tt);
}

only-IsUsed :
    (sockets : Sockets) (n : ℕ) → IsUsed sockets (n ∷ []) → IsUsed (close_socket sockets n) []
unfolding close_socket
only-IsUsed sockets n u = record { same = ground (arith, u.same); past = tt }

-- After a reload, the new table is the only one.
new_sessions-IsUsed :
    (old : Option UdpSessions) (listener : Option Socket) (upstream : String) (cfg : Udp)
    (tables : Sockets)
    → IsUsed tables (tables_of old)
    → IsUsed
        (close_sessions old (new_sessions listener upstream cfg tables).0)
        (tables_of (new_sessions listener upstream cfg tables).1)
unfolding new_sessions listen
new_sessions-IsUsed none none upstream cfg tables u = u
new_sessions-IsUsed (some old) none upstream cfg tables u = only-IsUsed tables old.number u
new_sessions-IsUsed none (some listener) upstream cfg tables u =
    elim (Bool-cases (str_eq cfg.mode "proxy")) [
      | inl p ↦ rw p (listen-IsUsed tables upstream [] u)
      | inr p ↦ rw p u
    ]
new_sessions-IsUsed (some old) (some listener) upstream cfg tables u =
    elim (Bool-cases (str_eq cfg.mode "proxy")) [
      | inl p ↦ rw p (replace-IsUsed tables upstream old.number u)
      | inr p ↦ rw p (only-IsUsed tables old.number u)
    ]

new_sessions_lem :
    (listener : Option Socket) (upstream : String) (cfg : Udp) (tables : Sockets)
    → is_some (new_sessions listener upstream cfg tables).1
      ≡ (is_some listener && str_eq cfg.mode "proxy")
unfolding new_sessions
new_sessions_lem none upstream cfg tables = refl
new_sessions_lem (some listener) upstream cfg tables = ground arith

-- Without a next listener none is left open.
close_listener-IsUsed :
    (old : Option Socket) (sockets : Sockets)
    → IsUsed sockets (numbers old)
    → IsUsed (close_listener old none sockets) []
close_listener-IsUsed none sockets u = u
close_listener-IsUsed (some old) sockets u = only-IsUsed sockets old.number u

-- A new listener is the only one left open.
moved-IsUsed :
    (old : Option Socket) (sockets : Sockets) (address : String)
    → IsUsed sockets (numbers old)
    → IsUsed
        (close_listener old (some (listen sockets address).1) (listen sockets address).0)
        ((listen sockets address).1.number ∷ [])
unfolding listen
moved-IsUsed none sockets address u = listen-IsUsed sockets address [] u
moved-IsUsed (some old) sockets address u =
    if_cases (λ s. IsUsed s (sockets.count ∷ [])) (old.number == sockets.count) _ _
      (λ same. absurd (omega (arith, u.past.0, (==_iff old.number sockets.count).0 same)))
      (λ other. replace-IsUsed sockets address old.number u)

kept-IsUsed :
    (old : Option Socket) (sockets : Sockets)
    → IsUsed sockets (numbers old)
    → IsUsed (close_listener old old sockets) (numbers old)
kept-IsUsed none sockets u = u
kept-IsUsed (some old) sockets u = rw ((==_iff old.number old.number).1 refl) u

module _ (s : UdpPlane) (cfg : Config) (f : IsFree s) where
  abbrev planned : String → Option Socket → UdpReload → UdpReloadPlan
  planned upstream listener result = record {
    config = cfg.udp;
    upstream = upstream;
    listener = listener;
    result = result;
    completed = false;
  }

  -- What an activated plan leads to, by its listener.
  activated :
      (sockets : Sockets) (upstream : String) (o : Option Socket) (result : UdpReload)
      → is_some (next_listener s.listener (planned upstream o result)) ≡ cfg.udp.enabled
      → IsUsed
          (close_listener s.listener (next_listener s.listener (planned upstream o result)) sockets)
          (numbers (next_listener s.listener (planned upstream o result)))
      → IsFree
          (activate (record s { locked = true; sockets = sockets }) (planned upstream o result)).0
        × Serves
            (activate (record s { locked = true; sockets = sockets }) (planned upstream o result)).0
            cfg
  unfolding activate
  activated sockets upstream o result enabled used =
      let next = next_listener s.listener (planned upstream o result) in
      (
        record {
          free = refl;
          used = used;
          tables_used = new_sessions-IsUsed s.sessions next upstream cfg.udp s.tables f.tables_used;
        },
        record {
          settings = refl;
          listening = enabled;
          proxying =
              new_sessions_lem next upstream cfg.udp s.tables
              ∙ ap (λ b. b && str_eq cfg.udp.mode "proxy") enabled;
        },
      )

module _ (bind : String → Option String) (resolve : Udp → Option String) (s : UdpPlane)
    (current next : Config) (f : IsFree s) (serving : Serves s current) where
  abbrev IsReloaded : UdpPlane × Option UdpReloadPlan → Type 0
  IsReloaded after =
      Completes (udp_ops bind resolve) IsFree Serves current next after
      × Reloaded bind resolve s next.udp after

  -- What a refusal leaves.
  untouched : IsReloaded (record s { locked = false }, none)
  untouched = (
    (
      record { free = refl; used = f.used; tables_used = f.tables_used },
      record {
        settings = serving.settings;
        listening = serving.listening;
        proxying = serving.proxying;
      },
    ),
    record { listener = refl; sessions = refl; config = refl },
  )

  -- A plan that disables the plane.
  disabled_reload :
      (result : UdpReload)
      → not next.udp.enabled ≡ true
      → IsReloaded (record s { locked = true }, some (planned s next f "" none result))
  unfolding udp_ops abort activate
  disabled_reload result disabled =
      let end =
        activated s next f s.sockets "" none result (ground (arith, disabled))
          (rw disabled (close_listener-IsUsed s.listener s.sockets f.used)) in
      (
        (untouched.0.0, untouched.0.1, end.0, end.1),
        (untouched.1, rw disabled (record { listener = tt; sessions = tt })),
      )

  -- A plan that keeps the listener.
  kept_reload :
      (upstream : String) (result : UdpReload)
      → not next.udp.enabled ≡ false
      → resolve next.udp ≡ some upstream
      → not (is_some s.listener) || not (str_eq s.config.listen next.udp.listen) ≡ false
      → IsReloaded (record s { locked = true }, some (planned s next f upstream none result))
  unfolding udp_ops abort activate
  kept_reload upstream result enabled resolved staying =
      let end =
        activated s next f s.sockets upstream none result (ground (arith, enabled, staying))
          (rw enabled (kept-IsUsed s.listener s.sockets f.used)) in
      (
        (untouched.0.0, untouched.0.1, end.0, end.1),
        (
          untouched.1,
          rw enabled (record {
            listener =
                kept-ListensAt bind resolve s next.udp s.listener refl
                  (ground (arith, staying, eq_iff s.config.listen next.udp.listen));
            sessions =
                new_sessions-RelaysFor bind resolve s next.udp s.listener upstream s.tables
                  resolved;
          }),
        ),
      )

  -- A plan with a new listener.
  moved_reload :
      (upstream address : String) (result : UdpReload)
      → not next.udp.enabled ≡ false
      → resolve next.udp ≡ some upstream
      → bind next.udp.listen ≡ some address
      → IsReloaded (
        record s { locked = true; sockets = (listen s.sockets address).0 },
        some (planned s next f upstream (some (listen s.sockets address).1) result),
      )
  unfolding udp_ops abort activate
  moved_reload upstream address result enabled resolved bound =
      let listener = (listen s.sockets address).1 in
      let end =
        activated s next f (listen s.sockets address).0 upstream (some listener) result
          (ground (arith, enabled))
          (rw enabled (moved-IsUsed s.listener s.sockets address f.used)) in
      (
        (
          record {
            free = refl;
            used = close-listen-IsUsed s.sockets address (numbers s.listener) f.used;
            tables_used = f.tables_used;
          },
          record {
            settings = serving.settings;
            listening = serving.listening;
            proxying = serving.proxying;
          },
          end.0,
          end.1,
        ),
        (
          record { listener = refl; sessions = refl; config = refl },
          rw enabled (record {
            listener = inl bound;
            sessions =
                new_sessions-RelaysFor bind resolve s next.udp (some listener) upstream s.tables
                  resolved;
          }),
        ),
      )

-- The plane of the datagrams, too: from a plane whose lock is free and of which just the listener
-- and the table of sessions are open, a reload that is refused or aborted leads to such a plane with
-- the same settings, listener and sessions. One that is activated leads to such a plane with the new
-- settings: it listens where they are enabled, at an address bound for them or, where it is
-- unchanged, at the old listener; and it has sessions where the mode is that of a proxy, made for
-- that listener, the new settings and the upstream resolved for them.
pub udp_prepare-Completes :
    (bind : String → Option String) (resolve : Udp → Option String) (s : UdpPlane)
    (current next : Config)
    → IsFree s
    → Serves s current
    → Completes (udp_ops bind resolve) IsFree Serves current next (prepare bind resolve s next)
      × Reloaded bind resolve s next.udp (prepare bind resolve s next)
unfolding prepare
udp_prepare-Completes bind resolve s current next f serving =
    if_cases P s.closed _ _ (λ ended. refused)
      (λ running.
        if_cases P (not next.udp.enabled) _ _
          (λ disabled. disabled_reload bind resolve s current next f serving _ disabled)
          (λ enabled.
            option_cases P (resolve next.udp) _ _ (λ unresolved. refused)
              (λ upstream resolved.
                if_cases P
                  (not (is_some s.listener) || not (str_eq s.config.listen next.udp.listen)) _ _
                  (λ moving.
                    option_cases P (bind next.udp.listen) _ _ (λ unbound. refused)
                      (λ address bound.
                        moved_reload bind resolve s current next f serving upstream address _
                          enabled resolved bound))
                  (λ staying.
                    kept_reload bind resolve s current next f serving upstream _ enabled resolved
                      staying))))
  where
    P : UdpPlane × Option UdpReloadPlan → Type 0
    P = IsReloaded bind resolve s current next f serving

    refused : P (record s { locked = false }, none)
    refused = untouched bind resolve s current next f serving

pub udp_ops-IsPlane :
    (bind : String → Option String) (resolve : Udp → Option String)
    → IsPlane (udp_ops bind resolve) IsFree Serves udp_settings_changed
unfolding udp_settings_changed udp_ops prepare
udp_ops-IsPlane bind resolve = record {
  completes =
      λ s current next f serving. (udp_prepare-Completes bind resolve s current next f serving).0;
  unchanged = λ s current next same serving.
      let e = udp_eq-eq current.udp next.udp (ground (arith, same)) in
      record {
        settings = serving.settings ∙ e;
        listening = serving.listening ∙ ap (λ u. u.enabled) e;
        proxying = serving.proxying ∙ ap (λ u. u.enabled && str_eq u.mode "proxy") e;
      };
}
