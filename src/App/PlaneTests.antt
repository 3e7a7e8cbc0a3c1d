-- ===== src/App/PlaneTests.antt =====
-- The three planes, each with one listener, and a change of the configuration that moves them all.
use requestinspector_relay.Base.{String, [], ◌∷◌, refl, Option, none, some, arith}
use requestinspector_relay.Config.{Config, defaults}
use requestinspector_relay.Config.Tests.{test_parsers}
use requestinspector_relay.Config.Manager.Tests.{
  test_decoders, test_json, no_failure, test_manager, test_update, test_manager-IsConsistent,
}
use requestinspector_relay.Store.{new_memory, completed_items}
use requestinspector_relay.App.Sockets.{Socket, Sockets, IsUsed}
use requestinspector_relay.App.Tests.{test_udp}
use requestinspector_relay.App.Traffic
use requestinspector_relay.App.Management
use requestinspector_relay.App.Datagrams
use requestinspector_relay.App.Datagrams.Reloads
use requestinspector_relay.App.Traffic.{TrafficPlane, traffic_ops, traffic_ops-IsPlane}
use requestinspector_relay.App.Management.{ManagementPlane, management_ops, management_ops-IsPlane}
use requestinspector_relay.App.Datagrams.{UdpPlane, new_sessions}
use requestinspector_relay.App.Datagrams.Reloads.{
  udp_ops, udp_ops-IsPlane, udp_prepare-Completes, Reloaded,
}
use requestinspector_relay.Httpapi.Reload.{Completes}
use requestinspector_relay.Httpapi.Changes.{Api, apply_configuration_update}
use requestinspector_relay.Httpapi.Changes.InStep.{
  IsInStep, Updated, apply_configuration_update-Updated,
}

abbrev plane_sockets : Sockets
plane_sockets = record { count = 1; open_numbers = 0 ∷ [] }

abbrev no_sockets : Sockets
no_sockets = record { count = 0; open_numbers = [] }

abbrev first_listener : Socket
first_listener = record { number = 0; address = "l" }

abbrev bind_any : String → Option String
bind_any address = some address

abbrev moved : Config
moved = record defaults { listeners = record { management = "m"; traffic = "t" }; udp = test_udp }

plane_sockets-IsUsed : IsUsed plane_sockets (0 ∷ [])
plane_sockets-IsUsed = record { same = refl; past = (omega arith, tt) }

abbrev test_traffic : TrafficPlane
test_traffic = Traffic.start plane_sockets first_listener defaults

test_traffic-IsFree : Traffic.IsFree test_traffic
unfolding Traffic.start
test_traffic-IsFree = record {
  free = refl;
  listens = refl;
  serving = refl;
  used = plane_sockets-IsUsed;
}

test_traffic-Serves : Traffic.Serves test_traffic defaults
unfolding Traffic.start
test_traffic-Serves = record { address = refl; cors = refl }

abbrev test_management : ManagementPlane
test_management = Management.start plane_sockets first_listener defaults defaults

test_management-IsFree : Management.IsFree test_management
unfolding Management.start
test_management-IsFree = record {
  free = refl;
  listens = refl;
  serving = refl;
  used = plane_sockets-IsUsed;
  newest = omega arith;
  closings = tt;
}

test_management-Serves : Management.Serves test_management defaults
unfolding Management.start Management.new_handler
test_management-Serves = record {
  address = refl;
  credentials = refl;
  names_listener = refl;
  ends_streams = refl;
}

abbrev test_datagrams : UdpPlane
test_datagrams = Datagrams.start no_sockets none "" defaults.udp

no_sockets-IsUsed : IsUsed no_sockets []
no_sockets-IsUsed = record { same = refl; past = tt }

test_datagrams-IsFree : Reloads.IsFree test_datagrams
unfolding Datagrams.start new_sessions
test_datagrams-IsFree = record {
  free = refl;
  used = no_sockets-IsUsed;
  tables_used = no_sockets-IsUsed;
}

test_datagrams-Serves : Reloads.Serves test_datagrams defaults
unfolding Datagrams.start new_sessions defaults
test_datagrams-Serves = record { settings = refl; listening = refl; proxying = refl }

udp_prepare-Completes_example :
    Completes
      (udp_ops bind_any (λ settings. some "b"))
      Reloads.IsFree
      Reloads.Serves
      defaults
      moved
      (Datagrams.prepare bind_any (λ settings. some "b") test_datagrams moved)
    × Reloaded bind_any
        (λ settings. some "b")
        test_datagrams
        moved.udp
        (Datagrams.prepare bind_any (λ settings. some "b") test_datagrams moved)
udp_prepare-Completes_example =
    udp_prepare-Completes bind_any (λ settings. some "b") test_datagrams defaults moved
      test_datagrams-IsFree test_datagrams-Serves

abbrev test_api : Api String ManagementPlane TrafficPlane UdpPlane
test_api = record {
  manager = test_manager;
  management = test_management;
  traffic = test_traffic;
  udp = test_datagrams;
  history = new_memory 100;
  published = [];
  retention = none;
}

abbrev InStep : Api String ManagementPlane TrafficPlane UdpPlane → Type 0
InStep =
    IsInStep test_parsers test_decoders test_json (management_ops bind_any) (traffic_ops bind_any)
      (udp_ops bind_any (λ settings. some "b")) Management.IsFree Traffic.IsFree Reloads.IsFree
      Management.Serves Traffic.Serves Reloads.Serves

test_api-IsInStep : InStep test_api
unfolding new_memory completed_items defaults
test_api-IsInStep = record {
  kept = record {
    consistent = test_manager-IsConsistent;
    effective = refl;
    valid = record {
      positive = omega arith;
      bounded = omega arith;
      formed = record { distinct = tt; own = tt };
    };
    capacity = refl;
    retention = tt;
  };
  manages = (test_management-IsFree, test_management-Serves);
  receives = (test_traffic-IsFree, test_traffic-Serves);
  listens = (test_datagrams-IsFree, test_datagrams-Serves);
}

apply_configuration_update-Updated_example :
    Updated test_parsers test_decoders test_json
      (management_ops bind_any)
      (traffic_ops bind_any)
      (udp_ops bind_any (λ settings. some "b"))
      Management.IsFree
      Traffic.IsFree
      Reloads.IsFree
      Management.Serves
      Traffic.Serves
      Reloads.Serves
      test_api
      test_update
      (apply_configuration_update test_parsers test_decoders test_json
        (management_ops bind_any)
        (traffic_ops bind_any)
        (udp_ops bind_any (λ settings. some "b"))
        no_failure
        test_api
        test_update)
apply_configuration_update-Updated_example =
    apply_configuration_update-Updated test_parsers test_decoders test_json
      (management_ops bind_any) (traffic_ops bind_any) (udp_ops bind_any (λ settings. some "b"))
      Management.IsFree Traffic.IsFree Reloads.IsFree Management.Serves Traffic.Serves
      Reloads.Serves no_failure test_api test_update (management_ops-IsPlane bind_any)
      (traffic_ops-IsPlane bind_any) (udp_ops-IsPlane bind_any (λ settings. some "b"))
      test_api-IsInStep
