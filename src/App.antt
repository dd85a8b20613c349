-- ===== src/App.antt =====
-- app/app.go: `Runner`, which assembles the parts, starts them and shuts them down.
pub mod Assembly
pub mod Running
pub mod Refresh
pub mod Serving
pub mod Main
pub mod Order
pub mod Closing
use sidecar_agent.Prelude.{
  ℕ, Bool, true, false, Option, none, some, List, [], ◌∷◌, if◌then◌else◌, ◌≡◌, refl,
}
use sidecar_agent.Prelude.Int.{ℤ}
use sidecar_agent.Text.{Text, codes}
use sidecar_agent.Model.Error.{Error, Result, ok, err}
use sidecar_agent.Model.Service.{LocalService}
use sidecar_agent.Config.{Config}
use sidecar_agent.Config.Checks.{Formats, must_duration}
use sidecar_agent.Telemetry.{Make, System, new_system}
use sidecar_agent.Registry.Consul.{Outside}
use sidecar_agent.Registry.Exec.{State}
use sidecar_agent.Registry.Client.{
  ApiConfig, api_config, Settings, Client, new_with_client, ensure_usable,
}
use sidecar_agent.Registry.Lease
use sidecar_agent.Xds.Snapshot.{BuilderSettings, Builder, Summary, new_builder}
use sidecar_agent.Xds.Snapshot.Build.{Envoy, Snapshot}
use sidecar_agent.Xds.Server
use sidecar_agent.Dns
use sidecar_agent.Discovery.{Watcher, new_watcher}
use sidecar_agent.Envoy.Bootstrap.{BootstrapConfig}

-- What a call ends with, panics included.
pub data Ending {ℓ} (A : Type ℓ) : Type ℓ where
  done : A → Ending A
  refused : Error → Ending A
  panicked : Ending A

infixl 5 ◌>>=◌
abbrev pub ◌>>=◌ {ℓ κ} : {A : Type ℓ} {B : Type κ} → Ending A → (A → Ending B) → Ending B
done a >>= f = f a
refused e >>= f = refused e
panicked >>= f = panicked

abbrev pub of_result {ℓ} : {A : Type ℓ} → Result A → Ending A
of_result (ok a) = done a
of_result (err e) = refused e

abbrev pub of_error : Option Error → Ending (Unit {0})
of_error none = done tt
of_error (some e) = refused e

abbrev pub of_panic {ℓ} : {A : Type ℓ} → Option A → Ending A
of_panic none = panicked
of_panic (some a) = done a

-- A part that has no state of its own in the model is there or not; `envoy` has the restart backoff.
pub record Runner : Type 0 where
  pub cfg : Config
  pub telemetry : System
  pub dns : Dns.Server
  pub client : Client
  pub lease_refresh_interval : ℤ
  pub watcher : Watcher
  pub refresh_interval : ℤ
  pub xds : Server.Server
  pub envoy : Option ℤ

-- What `New` asks of the outside: the constructors of the telemetry library, `api.NewClient` for
-- a configuration, and `WriteBootstrap`.
pub record Installs : Type 0 where
  pub make : Make → Option Error
  pub new_client : ApiConfig → Option Error
  pub write_bootstrap : Text → BootstrapConfig → Option Error

abbrev pub settings_of : Config → ℤ → ℤ → Settings
settings_of cfg ttl critical = record {
  route_kv_prefix = cfg.consul.route_kv_prefix;
  cluster_name = cfg.cluster_name;
  zone = cfg.zone;
  host_ip = cfg.host_ip;
  env = cfg.env;
  agent_lease_ttl = ttl;
  deregister_critical_service_after = critical;
}

abbrev pub bootstrap_of : Config → BootstrapConfig
bootstrap_of cfg = record {
  node_id = cfg.xds.node_id;
  cluster_name = cfg.cluster_name;
  admin_address = cfg.envoy.admin_address;
  xds_target = cfg.xds.listen_address;
}

module _ (y : Formats) (o : Outside) (x : Installs) where
  abbrev pub must : Text → Ending ℤ
  must raw = of_panic (must_duration y raw)

  -- The registry client, with the interval at which it refreshes leases.
  unfoldable pub assemble_client : Config → State → Ending (Client × ℤ × State)
  assemble_client cfg s = do
    timeout ← must cfg.consul.request_timeout
    ttl ← must cfg.consul.agent_lease_ttl
    interval ← must cfg.consul.agent_lease_refresh_interval
    critical ← must cfg.consul.deregister_critical_service_after
    dialled ← of_error (
        x.new_client
          (api_config cfg.consul.address cfg.consul.scheme cfg.consul.datacenter timeout))
    let made = new_with_client o (settings_of cfg ttl critical) s
    usable ← of_error (ensure_usable made.0)
    done (made.0, interval, made.1)

  unfoldable pub assemble_builder : Config → Ending Builder
  assemble_builder cfg = do
    timeout ← must cfg.xds.default_timeout
    per_try ← must cfg.xds.per_try_timeout
    ejection ← must cfg.xds.base_ejection_time
    done (
        new_builder (record {
          node_id = cfg.xds.node_id;
          listener_address = cfg.xds.listener_address;
          route_name = cfg.xds.route_name;
          cluster_name_prefix = [];
          local_cluster = cfg.cluster_name;
          default_timeout = timeout;
          retry_attempts = cfg.xds.retry_attempts;
          per_try_timeout = per_try;
          max_connections = cfg.xds.max_connections;
          max_pending_requests = cfg.xds.max_pending_requests;
          max_requests = cfg.xds.max_requests;
          consecutive_5xx = cfg.xds.consecutive_5xx;
          base_ejection_time = ejection;
          max_ejection_percent = cfg.xds.max_ejection_percent;
        }))

  -- The bootstrap file is written before the manager is made.
  unfoldable pub assemble_envoy : Config → Ending (Option ℤ)
  assemble_envoy cfg =
      if cfg.envoy.enabled
      then (do
        written ← of_error (x.write_bootstrap cfg.envoy.bootstrap_path (bootstrap_of cfg))
        backoff ← must cfg.envoy.restart_backoff
        done (some backoff))
      else done none

  -- `New`
  unfoldable pub new_runner : Config → State → Ending (Runner × State)
  new_runner cfg s = do
    system ← of_result (new_system x.make cfg.telemetry)
    made ← assemble_client cfg s
    builder ← assemble_builder cfg
    refresh_interval ← must cfg.discovery.refresh_interval
    debounce_interval ← must cfg.discovery.debounce_interval
    envoy ← assemble_envoy cfg
    done (
      record {
        cfg = cfg;
        telemetry = system;
        dns = Dns.new_server cfg.dns.upstream_dns;
        client = made.0;
        lease_refresh_interval = made.1;
        watcher = new_watcher debounce_interval;
        refresh_interval = refresh_interval;
        xds = Server.new_server builder;
        envoy = envoy;
      },
      made.2,
    )
