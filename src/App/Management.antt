-- ===== src/App/Management.antt =====
-- internal/app/management.go: the plane that serves the management interface. A server is named by
-- the number of its listener's socket. Of a handler that `plane.factory` makes, which is
-- `NewManagementHandler` with the options of `Start` in internal/app/app.go, there are the address
-- that it names, the channel that ends its streams, and the credentials, which it takes from the
-- configuration that is current when it is made. The channels are numbered as they are made: closing
-- one twice would panic.
use requestinspector_relay.Base.{
  ℕ, ◌+◌, ◌<◌, ◌≤◌, String, List, [], ◌∷◌, ◌≡◌, ◌≢◌, refl, ap, subst, ◌∙◌, Option, none, some, Bool,
  true, false, not, if◌then◌else◌, str_eq, eq_iff, arith, if_cases, option_cases,
}
use requestinspector_relay.Config.{Config, Authentication}
use requestinspector_relay.Httpapi.Reload.{PlaneOps, IsPlane, Completes}
use requestinspector_relay.Httpapi.Update.{management_settings_changed, authentication_eq-eq}
use requestinspector_relay.App.Sockets.{
  Socket, Sockets, IsUsed, listen, close_socket, without, listen-IsUsed, close-listen-IsUsed,
  close_socket-IsUsed, without-first,
}

pub record ManagementHandler : Type 0 where
  pub address : String
  pub shutdown : ℕ
  pub auth : Authentication

-- `draining` are the old servers whose `Serve` has not returned yet.
pub record ManagementPlane : Type 0 where
  pub locked : Bool
  pub closed : Bool
  pub listener : Socket
  pub server : ℕ
  pub handler : ManagementHandler
  pub configured_address : String
  pub stream_shutdown : ℕ
  pub stream_closed : Bool
  pub servers : List ℕ
  pub draining : List ℕ
  pub sockets : Sockets
  pub channels : ℕ
  pub closed_channels : List ℕ

pub record ManagementReload : Type 0 where
  pub listener : String
  pub address_changed : Bool
  pub relogin_required : Bool

pub record ManagementReloadPlan : Type 0 where
  pub config : Config
  pub listener : Option Socket
  pub result : ManagementReload
  pub completed : Bool

-- `managementFactory`, while a configuration is current
unfoldable pub new_handler : Config → String → ℕ → ManagementHandler
new_handler current address shutdown = record {
  address = address;
  shutdown = shutdown;
  auth = current.auth;
}

-- `newManagementPlane` and `Start`, with the listener that was opened before.
unfoldable pub start : Sockets → Socket → Config → Config → ManagementPlane
unfolding new_handler
start sockets listener current cfg = record {
  locked = false;
  closed = false;
  listener = listener;
  server = listener.number;
  handler = new_handler current listener.address 0;
  configured_address = cfg.listeners.management;
  stream_shutdown = 0;
  stream_closed = false;
  servers = listener.number ∷ [];
  draining = [];
  sockets = sockets;
  channels = 1;
  closed_channels = [];
}

unfoldable pub prepare :
    (String → Option String)
    → ManagementPlane
    → Config
    → ManagementPlane × Option ManagementReloadPlan
unfolding listen
prepare bind plane cfg =
    let held : ManagementPlane = record plane { locked = true } in
    let released : ManagementPlane = record held { locked = false } in
    let relogin_required = not (str_eq cfg.auth.username "") in
    if plane.closed
    then (released, none)
    else if not (str_eq cfg.listeners.management plane.configured_address)
    then elim (bind cfg.listeners.management) [
      | none ↦ (released, none)
      | some address ↦
          (let (sockets, listener) = listen plane.sockets address in
            (
              record held { sockets = sockets },
              some (record {
                config = cfg;
                listener = some listener;
                result = record {
                  listener = address;
                  address_changed = true;
                  relogin_required = relogin_required;
                };
                completed = false;
              }),
            ))
    ]
    else (
      held,
      some (record {
        config = cfg;
        listener = none;
        result = record {
          listener = plane.listener.address;
          address_changed = false;
          relogin_required = relogin_required;
        };
        completed = false;
      }),
    )

-- The channel is closed, unless it was.
abbrev close_stream : ManagementPlane → List ℕ
close_stream plane =
    if plane.stream_closed
    then plane.closed_channels
    else plane.stream_shutdown ∷ plane.closed_channels

-- Where the address stays, the new handler is swapped in. The streams of the old handler end when the
-- new one is in place; an old server is drained.
unfoldable pub activate :
    Config → ManagementPlane → ManagementReloadPlan → ManagementPlane × ManagementReloadPlan
unfolding new_handler
activate current plane plan =
    if plan.completed
    then (plane, plan)
    else (let done : ManagementReloadPlan = record plan { completed = true } in
        let renewed : ManagementPlane = record plane {
          handler = new_handler current plan.result.listener plane.channels;
          configured_address = plan.config.listeners.management;
          stream_shutdown = plane.channels;
          stream_closed = false;
          channels = plane.channels + 1;
          closed_channels = close_stream plane;
          locked = false;
        } in
        elim plan.listener [
          | none ↦ (renewed, done)
          | some listener ↦ (
            record renewed {
              listener = listener;
              server = listener.number;
              servers = listener.number ∷ plane.servers;
              draining = plane.server ∷ plane.draining;
            },
            done,
          )
        ])

unfoldable pub abort :
    ManagementPlane → ManagementReloadPlan → ManagementPlane × ManagementReloadPlan
unfolding close_socket
abort plane plan =
    if plan.completed
    then (plane, plan)
    else (let done : ManagementReloadPlan = record plan { completed = true } in
        elim plan.listener [
          | none ↦ (record plane { locked = false }, done)
          | some listener ↦ (
            record plane { sockets = close_socket plane.sockets listener.number; locked = false },
            done,
          )
        ])

-- A server's `Serve` has returned: its listener is closed, and it is forgotten.
unfoldable pub served : ManagementPlane → ℕ → ManagementPlane
unfolding close_socket
served plane server = record plane {
  servers = without server plane.servers;
  draining = without server plane.draining;
  sockets = close_socket plane.sockets server;
}

unfoldable pub close_streams : ManagementPlane → ManagementPlane
close_streams plane = record plane { closed_channels = close_stream plane; stream_closed = true }

-- `Shutdown` under the lock; the servers then return from `Serve`.
unfoldable pub shutdown : ManagementPlane → ManagementPlane
shutdown plane = record plane {
  closed = true;
  closed_channels = close_stream plane;
  stream_closed = true;
}

-- Numbers below a bound, each less than the one before.
abbrev pub IsDescending : ℕ → List ℕ → Type 0
IsDescending bound [] = Unit
IsDescending bound (n ∷ ns) = (n < bound) × IsDescending n ns

-- The lock is free; the servers are the one of the plane's listener and those that are drained, and
-- the open sockets are theirs; and no channel was closed twice: the current one is newer than all
-- that were closed, unless it is the last of them.
pub record IsFree (plane : ManagementPlane) : Type 0 where
  pub free : plane.locked ≡ false
  pub listens : plane.listener.number ≡ plane.server
  pub serving : plane.servers ≡ plane.server ∷ plane.draining
  pub used : IsUsed plane.sockets (plane.server ∷ plane.draining)
  pub newest : plane.stream_shutdown < plane.channels
  pub closings :
      IsDescending
        (if plane.stream_closed then plane.stream_shutdown + 1 else plane.stream_shutdown)
        plane.closed_channels

-- The plane has the address of a configuration, and its handler the credentials; the handler names
-- the listener's address, and its streams end by the plane's channel.
pub record Serves (plane : ManagementPlane) (cfg : Config) : Type 0 where
  pub address : plane.configured_address ≡ cfg.listeners.management
  pub credentials : plane.handler.auth ≡ cfg.auth
  pub names_listener : plane.handler.address ≡ plane.listener.address
  pub ends_streams : plane.handler.shutdown ≡ plane.stream_shutdown

pub management_ops : (String → Option String) → PlaneOps ManagementPlane ManagementReloadPlan
management_ops bind = record { prepare = prepare bind; activate = activate; abort = abort }

IsDescending-mono :
    (small large : ℕ) (ns : List ℕ) → small ≤ large → IsDescending small ns → IsDescending large ns
IsDescending-mono small large [] h d = tt
IsDescending-mono small large (n ∷ ns) h d = (omega (arith, h, d.0), d.1)

-- However the current channel stands, after closing it the closed ones are below any later one.
close_stream_lem :
    (s : ManagementPlane) (bound : ℕ)
    → IsFree s
    → s.stream_shutdown + 1 ≤ bound
    → IsDescending bound (close_stream s)
close_stream_lem s bound f h = by_closed s.stream_closed f.closings
  where
    by_closed :
        (b : Bool)
        → IsDescending (if b then s.stream_shutdown + 1 else s.stream_shutdown) s.closed_channels
        → IsDescending bound
            (if b then s.closed_channels else s.stream_shutdown ∷ s.closed_channels)
    by_closed true d = IsDescending-mono (s.stream_shutdown + 1) bound s.closed_channels h d
    by_closed false d = (omega (arith, h), d)

pub management_prepare-Completes :
    (bind : String → Option String) (s : ManagementPlane) (current next : Config)
    → IsFree s
    → Serves s current
    → Completes (management_ops bind) IsFree Serves current next (prepare bind s next)
unfolding management_ops prepare activate abort new_handler
management_prepare-Completes bind s current next f serving =
    if_cases P s.closed _ _ (λ ended. (restored, still s.sockets))
      (λ running.
        if_cases P (not (str_eq next.listeners.management s.configured_address)) _ _
          (λ other.
            option_cases P (bind next.listeners.management) _ _
              (λ unbound. (restored, still s.sockets))
              (λ address bound. (
                record {
                  free = refl;
                  listens = f.listens;
                  serving = f.serving;
                  used = close-listen-IsUsed s.sockets address _ f.used;
                  newest = f.newest;
                  closings = f.closings;
                },
                still _,
                record {
                  free = refl;
                  listens = refl;
                  serving = ap (◌∷◌ s.sockets.count) f.serving;
                  used = listen-IsUsed s.sockets address _ f.used;
                  newest = omega arith;
                  closings = close_stream_lem s s.channels f (omega (arith, f.newest));
                },
                record {
                  address = refl;
                  credentials = refl;
                  names_listener = refl;
                  ends_streams = refl;
                },
              )))
          (λ same. (
            restored,
            still s.sockets,
            record {
              free = refl;
              listens = f.listens;
              serving = f.serving;
              used = f.used;
              newest = omega arith;
              closings = close_stream_lem s s.channels f (omega (arith, f.newest));
            },
            record {
              address = refl;
              credentials = refl;
              names_listener = refl;
              ends_streams = refl;
            },
          )))
  where
    P : ManagementPlane × Option ManagementReloadPlan → Type 0
    P = Completes (management_ops bind) IsFree Serves current next

    restored : IsFree (record s { locked = false })
    restored = record {
      free = refl;
      listens = f.listens;
      serving = f.serving;
      used = f.used;
      newest = f.newest;
      closings = f.closings;
    }

    still : (sockets : Sockets) → Serves (record s { locked = false; sockets = sockets }) current
    still sockets = record {
      address = serving.address;
      credentials = serving.credentials;
      names_listener = serving.names_listener;
      ends_streams = serving.ends_streams;
    }

pub management_ops-IsPlane :
    (bind : String → Option String)
    → IsPlane (management_ops bind) IsFree Serves management_settings_changed
unfolding management_settings_changed management_ops prepare
management_ops-IsPlane bind = record {
  completes = management_prepare-Completes bind;
  unchanged = λ s current next same serving. record {
    address =
        serving.address
        ∙ ground (arith, same, eq_iff current.listeners.management next.listeners.management);
    credentials =
        serving.credentials ∙ authentication_eq-eq current.auth next.auth (ground (arith, same));
    names_listener = serving.names_listener;
    ends_streams = serving.ends_streams;
  };
}

-- Closing the streams, as the shutdown does twice, closes no channel that is closed, and neither it
-- nor an old server that returns leaks a socket or leaves the lock held.
pub shutdown-IsFree :
    (s : ManagementPlane) (server : ℕ)
    → s.server ≢ server
    → IsFree s
    → IsFree (close_streams s) × IsFree (shutdown s) × IsFree (served s server)
unfolding close_streams shutdown served
shutdown-IsFree s server old f = (
  record {
    free = f.free;
    listens = f.listens;
    serving = f.serving;
    used = f.used;
    newest = f.newest;
    closings = close_stream_lem s (s.stream_shutdown + 1) f (omega arith);
  },
  record {
    free = f.free;
    listens = f.listens;
    serving = f.serving;
    used = f.used;
    newest = f.newest;
    closings = close_stream_lem s (s.stream_shutdown + 1) f (omega arith);
  },
  record {
    free = f.free;
    listens = f.listens;
    serving = ap (without server) f.serving ∙ without-first s.server server s.draining old;
    used =
        subst (IsUsed _) (without-first s.server server s.draining old)
          (close_socket-IsUsed s.sockets server _ f.used);
    newest = f.newest;
    closings = f.closings;
  },
)
