-- ===== src/App/Traffic.antt =====
-- internal/app/traffic.go: the plane that serves inspected traffic, and its reloads. A server is
-- named by the number of its listener's socket. What `net.Listen` answers at an address, the
-- listener's own address or an error, is a parameter.
use requestinspector_relay.Base.{
  ℕ, String, List, [], ◌∷◌, ◌≡◌, ◌≢◌, refl, ap, subst, Option, none, some, Bool, true, false, not,
  if◌then◌else◌, str_eq, eq_iff, arith, ◌∙◌, if_cases, option_cases,
}
use requestinspector_relay.Config.{Config}
use requestinspector_relay.Httpapi.Reload.{PlaneOps, IsPlane, Completes}
use requestinspector_relay.Httpapi.Update.{traffic_settings_changed}
use requestinspector_relay.App.Sockets.{
  Socket, Sockets, IsUsed, listen, close_socket, without, listen-IsUsed, close-listen-IsUsed,
  close_socket-IsUsed, without-first,
}

pub record TrafficPlane : Type 0 where
  pub locked : Bool
  pub closed : Bool
  pub listener : Socket
  pub server : ℕ
  pub configured_address : String
  pub servers : List ℕ
  pub draining : List ℕ
  pub cors_enabled : Bool
  pub sockets : Sockets

pub record TrafficReload : Type 0 where
  pub listener : String
  pub address_changed : Bool

pub record TrafficReloadPlan : Type 0 where
  pub config : Config
  pub listener : Option Socket
  pub result : TrafficReload
  pub completed : Bool

-- `newTrafficPlane` and `Start`, with the listener that was opened before.
unfoldable pub start : Sockets → Socket → Config → TrafficPlane
start sockets listener cfg = record {
  locked = false;
  closed = false;
  listener = listener;
  server = listener.number;
  configured_address = cfg.listeners.traffic;
  servers = listener.number ∷ [];
  draining = [];
  cors_enabled = cfg.cors.enabled;
  sockets = sockets;
}

unfoldable pub prepare :
    (String → Option String) → TrafficPlane → Config → TrafficPlane × Option TrafficReloadPlan
unfolding listen
prepare bind plane cfg =
    let held : TrafficPlane = record plane { locked = true } in
    let released : TrafficPlane = record held { locked = false } in
    if plane.closed
    then (released, none)
    else if not (str_eq cfg.listeners.traffic plane.configured_address)
    then elim (bind cfg.listeners.traffic) [
      | none ↦ (released, none)
      | some address ↦
          (let (sockets, listener) = listen plane.sockets address in
            (
              record held { sockets = sockets },
              some (record {
                config = cfg;
                listener = some listener;
                result = record { listener = address; address_changed = true };
                completed = false;
              }),
            ))
    ]
    else (
      held,
      some (record {
        config = cfg;
        listener = none;
        result = record { listener = plane.listener.address; address_changed = false };
        completed = false;
      }),
    )

unfoldable pub activate : TrafficPlane → TrafficReloadPlan → TrafficPlane × TrafficReloadPlan
activate plane plan =
    if plan.completed
    then (plane, plan)
    else (let done : TrafficReloadPlan = record plan { completed = true } in
        let allowing : TrafficPlane = record plane { cors_enabled = plan.config.cors.enabled } in
        elim plan.listener [
          | none ↦ (record allowing { locked = false }, done)
          | some listener ↦ (
            record allowing {
              listener = listener;
              server = listener.number;
              configured_address = plan.config.listeners.traffic;
              servers = listener.number ∷ plane.servers;
              draining = plane.server ∷ plane.draining;
              locked = false;
            },
            done,
          )
        ])

unfoldable pub abort : TrafficPlane → TrafficReloadPlan → TrafficPlane × TrafficReloadPlan
unfolding close_socket
abort plane plan =
    if plan.completed
    then (plane, plan)
    else (let done : TrafficReloadPlan = record plan { completed = true } in
        elim plan.listener [
          | none ↦ (record plane { locked = false }, done)
          | some listener ↦ (
            record plane { sockets = close_socket plane.sockets listener.number; locked = false },
            done,
          )
        ])

-- The end of the goroutine of `Activate`: an old server is shut down, or closed when the time is
-- up, and forgotten.
unfoldable pub drained : TrafficPlane → ℕ → TrafficPlane
unfolding close_socket
drained plane server = record plane {
  servers = without server plane.servers;
  draining = without server plane.draining;
  sockets = close_socket plane.sockets server;
}

abbrev close_all : List ℕ → Sockets → Sockets
close_all [] sockets = sockets
close_all (server ∷ servers) sockets = close_all servers (close_socket sockets server)

unfoldable pub close : TrafficPlane → TrafficPlane
unfolding close_socket
close plane = record plane { closed = true; sockets = close_all plane.servers plane.sockets }

-- The lock is free; the servers are the one of the plane's listener and those that are drained; and
-- the open sockets are theirs: no listener is leaked.
pub record IsFree (plane : TrafficPlane) : Type 0 where
  pub free : plane.locked ≡ false
  pub listens : plane.listener.number ≡ plane.server
  pub serving : plane.servers ≡ plane.server ∷ plane.draining
  pub used : IsUsed plane.sockets (plane.server ∷ plane.draining)

pub record Serves (plane : TrafficPlane) (cfg : Config) : Type 0 where
  pub address : plane.configured_address ≡ cfg.listeners.traffic
  pub cors : plane.cors_enabled ≡ cfg.cors.enabled

pub traffic_ops : (String → Option String) → PlaneOps TrafficPlane TrafficReloadPlan
traffic_ops bind = record { prepare = prepare bind; activate = λ current. activate; abort = abort }

pub traffic_prepare-Completes :
    (bind : String → Option String) (s : TrafficPlane) (current next : Config)
    → IsFree s
    → Serves s current
    → Completes (traffic_ops bind) IsFree Serves current next (prepare bind s next)
unfolding traffic_ops prepare activate abort
traffic_prepare-Completes bind s current next f serving =
    if_cases P s.closed _ _ (λ ended. restored)
      (λ running.
        if_cases P (not (str_eq next.listeners.traffic s.configured_address)) _ _
          (λ other.
            option_cases P (bind next.listeners.traffic) _ _ (λ unbound. restored)
              (λ address bound. (
                record {
                  free = refl;
                  listens = f.listens;
                  serving = f.serving;
                  used = close-listen-IsUsed s.sockets address _ f.used;
                },
                record { address = serving.address; cors = serving.cors },
                record {
                  free = refl;
                  listens = refl;
                  serving = ap (◌∷◌ s.sockets.count) f.serving;
                  used = listen-IsUsed s.sockets address _ f.used;
                },
                record { address = refl; cors = refl },
              )))
          (λ same. (
            restored.0,
            restored.1,
            record { free = refl; listens = f.listens; serving = f.serving; used = f.used },
            record {
              address = ground (arith, same, eq_iff next.listeners.traffic s.configured_address);
              cors = refl;
            },
          )))
  where
    P : TrafficPlane × Option TrafficReloadPlan → Type 0
    P = Completes (traffic_ops bind) IsFree Serves current next

    restored : IsFree (record s { locked = false }) × Serves (record s { locked = false }) current
    restored = (
      record { free = refl; listens = f.listens; serving = f.serving; used = f.used },
      record { address = serving.address; cors = serving.cors },
    )

pub traffic_ops-IsPlane :
    (bind : String → Option String)
    → IsPlane (traffic_ops bind) IsFree Serves traffic_settings_changed
unfolding traffic_settings_changed traffic_ops prepare
traffic_ops-IsPlane bind = record {
  completes = traffic_prepare-Completes bind;
  unchanged = λ s current next same serving. record {
    address =
        serving.address
        ∙ ground (arith, same, eq_iff current.listeners.traffic next.listeners.traffic);
    cors = serving.cors ∙ ground (arith, same);
  };
}

-- An old server that has been drained leaves no socket open, and no other server loses its own.
pub drained-IsFree :
    (s : TrafficPlane) (server : ℕ) → s.server ≢ server → IsFree s → IsFree (drained s server)
unfolding drained
drained-IsFree s server old f =
    let kept = without-first s.server server s.draining old in
    record {
      free = f.free;
      listens = f.listens;
      serving = ap (without server) f.serving ∙ kept;
      used = subst (IsUsed _) kept (close_socket-IsUsed s.sockets server _ f.used);
    }

-- A plan is completed once: after it was activated or aborted, neither a second `Activate` nor an
-- `Abort` changes the plane, so that the lock is not released twice.
pub completes_once :
    (s : TrafficPlane) (p : TrafficReloadPlan)
    → (activate (activate s p).0 (activate s p).1 ≡ activate s p)
      × (abort (activate s p).0 (activate s p).1 ≡ activate s p)
      × (activate (abort s p).0 (abort s p).1 ≡ abort s p)
      × (abort (abort s p).0 (abort s p).1 ≡ abort s p)
unfolding activate abort
completes_once s p = (ground arith, ground arith, ground arith, ground arith)
