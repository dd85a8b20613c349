-- ===== src/Examples/Servers.antt =====
-- Examples of the servers and of the runner that starts and stops them.
use mathlib.Core.List.Permᴰ
use sidecar_agent.Prelude.{ℕ, true, false, List, [], ◌∷◌, map, none, some, ◌≡◌, ◌≢◌, refl, arith}
use sidecar_agent.Prelude.Int.{pos}
use sidecar_agent.Text.{Text, codes}
use sidecar_agent.Model.Error.{Error, Result, ok, err, external}
use sidecar_agent.Model.Request.{validate}
use sidecar_agent.Model.Service.{LocalService, ServiceInstance}
use sidecar_agent.Config.{default_config}
use sidecar_agent.Config.Checks.{Formats}
use sidecar_agent.Telemetry.{fallback_system}
use sidecar_agent.Registry.Register.{registration_for, register}
use sidecar_agent.Registry.Exec.{State}
use sidecar_agent.Registry.Register.Outcome.{IsRegistered}
use sidecar_agent.Registry.Discover.RoundTrip.{stored}
use sidecar_agent.Registry.Discover.{service_instance_from_entry}
use sidecar_agent.Registry.Consul.{ServiceEntry}
use sidecar_agent.Xds.Snapshot.{endpoint_of}
use sidecar_agent.Xds.Snapshot.Numbers.{IsOnWire, endpoint_of-registration_for}
use sidecar_agent.Xds.Server
use sidecar_agent.Xds.Server.{summary, publish}
use sidecar_agent.Xds.Server.Outcome.{IsOutcome, publish-IsOutcome}
use sidecar_agent.Dns
use sidecar_agent.Dns.{Msg, Library, message, handler}
use sidecar_agent.Dns.Answers.{loopback_record, address_questions, handler_mesh}
use sidecar_agent.Admin.{handle_register, status_200, bad_request, refresh_now}
use sidecar_agent.Admin
use sidecar_agent.Admin.Status.{IsReported, after_refresh-status}
use sidecar_agent.App.Serving.{Times, admin_server, runner_registry, admin_register-IsRegistered}
use sidecar_agent.Discovery.{new_watcher}
use sidecar_agent.Registry.Discover.{discover}
use sidecar_agent.App.Refresh
use sidecar_agent.App.Refresh.{Fresh}
use sidecar_agent.App.Refresh.Refines.{IsRefreshed, refresh_now-IsRefreshed}
use sidecar_agent.App.{Runner}
use sidecar_agent.App.Running.{Running, start_runner, shutdown_runner}
use sidecar_agent.App.Order.{Ends, IsIdle, IsUp, start_runner-Ends}
use sidecar_agent.App.Closing.{HasClosed, Fails, shutdown_runner-Ends}
use sidecar_agent.Examples.{willing, client, orders, running_orders, with_orders}
use sidecar_agent.Examples.Publishing.{builder, envoy, instances}
use sidecar_agent.Examples.Registry.{with_orders-AllTracked, orders_prefixes}

abbrev server : Server.Server
server = Server.new_server builder

publish-IsOutcome_example :
    IsOutcome server (publish envoy (λ calls node s. none) server instances 9)
publish-IsOutcome_example = publish-IsOutcome envoy (λ calls node s. none) server instances 9

abbrev cancelled : Error
cancelled = external (codes "context canceled")

-- What Consul returns of the registration.
abbrev orders_entry : ServiceEntry
orders_entry = record {
  node = none;
  service = some (stored (registration_for willing client running_orders));
}

endpoint_of-registration_for_example :
    (i : ServiceInstance) × (service_instance_from_entry (some orders_entry) ≡ some i)
    × ((endpoint_of i).address ≡ running_orders.address)
    × IsOnWire (pos 9000) (pos 10) (endpoint_of i)
unfolding sidecar_agent.Text.trim_space
endpoint_of-registration_for_example =
    endpoint_of-registration_for willing client (codes "orders:9000") running_orders
      with_orders-AllTracked.each.0 orders_entry refl refl refl orders_prefixes

-- A library that answers as its documentation says.
abbrev library : Library
library = record {
  set_reply = λ m. record m { answer = [] };
  exchange = λ m upstream. err cancelled;
  in_zone = λ zone m. true;
}

-- An IPv4 and an IPv6 question.
abbrev asked : Msg
asked = record {
  id = 7;
  question =
      record { name = codes "orders.eu.svc.cluster.local."; qtype = 1 }
      ∷ record { name = codes "orders.eu.svc.cluster.local."; qtype = 28 }
      ∷ [];
  authoritative = false;
  answer = [];
}

handler_mesh_example :
    (reply : Msg) × (handler library (Dns.new_server (codes "8.8.8.8:53")) asked ≡ message reply)
    × (reply.authoritative ≡ true)
    × (reply.id ≡ 7)
    × (reply.answer ≡ map loopback_record (address_questions asked.question))
handler_mesh_example =
    handler_mesh library (Dns.new_server (codes "8.8.8.8:53")) asked (λ m. refl) (λ m. refl) refl

abbrev runner : Runner
runner = record {
  cfg = default_config;
  telemetry = fallback_system;
  dns = Dns.new_server (codes "8.8.8.8:53");
  client = client;
  lease_refresh_interval = pos 3;
  watcher = new_watcher (pos 1);
  refresh_interval = pos 5;
  xds = server;
  envoy = some (pos 3);
}

abbrev idle : Running
idle = record { registry = with_orders; xds = server; envoy_started = false; launched = false }

start_runner-Ends_example :
    Ends
      (IsUp runner)
      IsIdle
      (start_runner willing envoy (λ calls node s. none) runner none 9 none idle)
start_runner-Ends_example =
    start_runner-Ends willing envoy (λ calls node s. none) runner none 9 none idle (refl, refl)

abbrev formats : Formats
formats = record {
  is_ip = λ t. true;
  split_host_port = λ t. ok (t, codes "1");
  parse_duration = λ t. ok (pos 20);
}

-- The admin server does not shut down in time.
shutdown_runner-Ends_example : Ends (HasClosed runner idle) (Fails (some cancelled) idle) (
    shutdown_runner willing envoy
      (λ calls node s. none)
      runner
      formats
      (λ l. l)
      (some cancelled)
      none
      none
      none
      idle)
shutdown_runner-Ends_example =
    shutdown_runner-Ends willing envoy (λ calls node s. none) runner formats (λ l. l)
      (λ l. Permᴰ.refl l) (some cancelled) none none none idle with_orders-AllTracked

-- The first list is found empty, and is published.
abbrev fresh : Fresh
fresh = record {
  registry = with_orders;
  watcher = new_watcher (pos 1);
  xds = server;
  local_service_gauge = 0;
}

abbrev hash : List ServiceInstance → Result Text
hash l = ok (codes "empty")

refresh_now-IsRefreshed_example :
    let after =
      Refresh.refresh_now willing client envoy (λ calls node s. none) hash 9 10 11 fresh in
    IsRefreshed hash fresh (discover willing client with_orders).1 after
    × (after.1.registry.local_services ≡ with_orders.local_services)
refresh_now-IsRefreshed_example =
    refresh_now-IsRefreshed willing client envoy (λ calls node s. none) hash 9 10 11 fresh

abbrev at_nine : Times
at_nine = record { built = 9; since = 10; now = 11 }

abbrev runner_admin : Admin.Server Fresh
runner_admin =
    admin_server willing client envoy (λ calls node s. none) hash (codes "127.0.0.1:15010") false
      at_nine

-- A service that is registered already is registered again.
not_refused : (handle_register runner_admin (ok orders) fresh).0.status ≢ bad_request
unfolding handle_register sidecar_agent.Admin.handle Admin.new_server admin_server runner_registry
    sidecar_agent.Registry.Register.register validate sidecar_agent.Model.Request.check_required
    sidecar_agent.Model.Request.required_fields sidecar_agent.Text.trim_space
    sidecar_agent.Model.Request.check_methods sidecar_agent.Text.has_prefix
    sidecar_agent.Registry.Register.local_service sidecar_agent.Registry.Register.register_over
    sidecar_agent.Prelude.lookup sidecar_agent.Text.text_eq sidecar_agent.Registry.Client.local_key
    sidecar_agent.Text.format_int sidecar_agent.Registry.Client.same_register_request
    sidecar_agent.Model.Route.texts_eq sidecar_agent.Model.Strings.unique_sorted_strings
    sidecar_agent.Sort.sort_by sidecar_agent.Registry.Register.replay
    sidecar_agent.Registry.Register.pass_lease sidecar_agent.Registry.Exec.now
    sidecar_agent.Registry.Exec.perform sidecar_agent.Registry.Register.store_local_service
    sidecar_agent.Text.text_lt
not_refused = after_refresh-status _ _

admin_register-IsRegistered_example :
    let answer = handle_register runner_admin (ok orders) fresh in
    (v : LocalService) × IsRegistered orders v answer.1.registry.local_services
    × IsReported v answer.0
admin_register-IsRegistered_example =
    admin_register-IsRegistered willing client envoy (λ calls node s. none) hash
      (codes "127.0.0.1:15010") false at_nine orders fresh not_refused
