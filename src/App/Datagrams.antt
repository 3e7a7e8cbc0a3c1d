-- ===== src/App/Datagrams.antt =====
-- internal/app/udp.go: the plane that receives datagrams, and its reloads. What `listenUDP` answers
-- at an address and `resolveUDPUpstream` at the settings are parameters here; the tables of proxy
-- sessions are numbered as sockets are.
pub mod Reloads
use requestinspector_relay.Base.{
  ℕ, ◌+◌, ◌<◌, String, List, [], ◌∷◌, ◌≡◌, refl, sym, subst, ◌∙◌, Option, none, some, is_some, Bool,
  true, false, not, ◌||◌, ◌&&◌, ◌==◌, if◌then◌else◌, str_eq, eq_iff, arith, if_cases, option_cases,
  keep,
}
use requestinspector_relay.Config.{Config, Udp}
use requestinspector_relay.Httpapi.Reload.{PlaneOps, IsPlane, Completes}
use requestinspector_relay.Httpapi.Update.{udp_settings_changed, udp_eq-eq}
use requestinspector_relay.App.Sockets.{
  Socket, Sockets, IsUsed, listen, close_socket, without, listen-IsUsed, close-listen-IsUsed,
  close_socket-IsUsed,
}

-- `newUDPSessions` of internal/app/udp_sessions.go: the listener that replies are sent from, where
-- datagrams are relayed to, and the settings.
pub record UdpSessions : Type 0 where
  pub number : ℕ
  pub listener : Socket
  pub upstream : String
  pub config : Udp

pub record UdpPlane : Type 0 where
  pub locked : Bool
  pub closed : Bool
  pub config : Udp
  pub listener : Option Socket
  pub sessions : Option UdpSessions
  pub sockets : Sockets
  pub tables : Sockets

pub record UdpReload : Type 0 where
  pub enabled : Bool
  pub listener : String
  pub address_changed : Bool

pub record UdpReloadPlan : Type 0 where
  pub config : Udp
  pub upstream : String
  pub listener : Option Socket
  pub result : UdpReload
  pub completed : Bool

abbrev pub address_of : Option Socket → String
address_of none = ""
address_of (some listener) = listener.address

-- `newSessions`, which are made where there is a listener and the mode is that of a proxy.
unfoldable pub new_sessions : Option Socket → String → Udp → Sockets → Sockets × Option UdpSessions
unfolding listen
new_sessions none upstream cfg tables = (tables, none)
new_sessions (some listener) upstream cfg tables =
    if not (str_eq cfg.mode "proxy")
    then (tables, none)
    else (let (tables, table) = listen tables upstream in
        (
          tables,
          some (record {
            number = table.number;
            listener = listener;
            upstream = upstream;
            config = cfg;
          }),
        ))

-- `newUDPPlane` and `Start`
unfoldable pub start : Sockets → Option Socket → String → Udp → UdpPlane
unfolding new_sessions
start sockets listener upstream cfg =
    let (tables, sessions) =
      new_sessions listener upstream cfg (record { count = 0; open_numbers = [] }) in
    record {
      locked = false;
      closed = false;
      config = cfg;
      listener = listener;
      sessions = sessions;
      sockets = sockets;
      tables = tables;
    }

unfoldable pub prepare :
    (String → Option String)
    → (Udp → Option String)
    → UdpPlane
    → Config
    → UdpPlane × Option UdpReloadPlan
unfolding listen
prepare bind resolve plane cfg =
    let held : UdpPlane = record plane { locked = true } in
    let released : UdpPlane = record held { locked = false } in
    let plan : UdpReloadPlan = record {
      config = cfg.udp;
      upstream = "";
      listener = none;
      result = record { enabled = cfg.udp.enabled; listener = ""; address_changed = false };
      completed = false;
    } in
    if plane.closed
    then (released, none)
    else if not cfg.udp.enabled
    then (
      held,
      some (record plan {
        result = record plan.result { address_changed = is_some plane.listener };
      }),
    )
    else elim (resolve cfg.udp) [
      | none ↦ (released, none)
      | some upstream ↦
          (let resolved : UdpReloadPlan = record plan { upstream = upstream } in
            if not (is_some plane.listener) || not (str_eq plane.config.listen cfg.udp.listen)
            then elim (bind cfg.udp.listen) [
              | none ↦ (released, none)
              | some address ↦
                  (let (sockets, listener) = listen plane.sockets address in
                    (
                      record held { sockets = sockets },
                      some (record resolved {
                        listener = some listener;
                        result = record plan.result { address_changed = true; listener = address };
                      }),
                    ))
            ]
            else (
              held,
              some (record resolved {
                result = record plan.result { listener = address_of plane.listener };
              }),
            ))
    ]

abbrev pub numbers : Option Socket → List ℕ
numbers none = []
numbers (some listener) = listener.number ∷ []

abbrev pub tables_of : Option UdpSessions → List ℕ
tables_of none = []
tables_of (some sessions) = sessions.number ∷ []

-- The old listener is closed, unless it goes on.
abbrev pub close_listener : Option Socket → Option Socket → Sockets → Sockets
close_listener none next sockets = sockets
close_listener (some old) none sockets = close_socket sockets old.number
close_listener (some old) (some next) sockets =
    if old.number == next.number then sockets else close_socket sockets old.number

abbrev pub close_sessions : Option UdpSessions → Sockets → Sockets
close_sessions none tables = tables
close_sessions (some old) tables = close_socket tables old.number

abbrev pub next_listener : Option Socket → UdpReloadPlan → Option Socket
next_listener old plan =
    if not plan.config.enabled
    then none
    else (elim plan.listener [ none ↦ old | some listener ↦ some listener ])

unfoldable pub activate : UdpPlane → UdpReloadPlan → UdpPlane × UdpReloadPlan
unfolding new_sessions close_socket
activate plane plan =
    if plan.completed
    then (plane, plan)
    else (let listener = next_listener plane.listener plan in
        let (tables, sessions) = new_sessions listener plan.upstream plan.config plane.tables in
        (
          record plane {
            config = plan.config;
            listener = listener;
            sessions = sessions;
            tables = close_sessions plane.sessions tables;
            sockets = close_listener plane.listener listener plane.sockets;
            locked = false;
          },
          record plan { completed = true },
        ))

unfoldable pub abort : UdpPlane → UdpReloadPlan → UdpPlane × UdpReloadPlan
unfolding close_socket
abort plane plan =
    if plan.completed
    then (plane, plan)
    else (let done : UdpReloadPlan = record plan { completed = true } in
        elim plan.listener [
          | none ↦ (record plane { locked = false }, done)
          | some listener ↦ (
            record plane { sockets = close_socket plane.sockets listener.number; locked = false },
            done,
          )
        ])

unfoldable pub close : UdpPlane → UdpPlane
unfolding close_socket
close plane = record plane {
  closed = true;
  listener = none;
  sessions = none;
  tables = close_sessions plane.sessions plane.tables;
  sockets = close_listener plane.listener none plane.sockets;
}

-- `runtime`: whether a listener is still the plane's.
unfoldable pub runtime : UdpPlane → Socket → Udp × Option UdpSessions × Bool
runtime plane listener = (
  plane.config,
  plane.sessions,
  not plane.closed
      && (elim plane.listener [ none ↦ false | some current ↦ current.number == listener.number ]),
)
