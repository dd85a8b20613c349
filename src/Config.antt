-- ===== src/Config.antt =====
-- config/config.go: the configuration and its defaults. Durations are texts, as in the file.
pub mod Checks
pub mod Load
pub mod Parts
pub mod Accepted
pub mod Verdict
pub mod Intervals
use sidecar_agent.Prelude.{ℕ, Bool, true, false}
use sidecar_agent.Text.{Text, codes}

pub record DnsConfig : Type 0 where
  pub listen_address : Text
  pub upstream_dns : Text

pub record AdminConfig : Type 0 where
  pub listen_address : Text

pub record DiscoveryConfig : Type 0 where
  pub refresh_interval : Text
  pub debounce_interval : Text

pub record ConsulConfig : Type 0 where
  pub address : Text
  pub scheme : Text
  pub datacenter : Text
  pub route_kv_prefix : Text
  pub request_timeout : Text
  pub agent_lease_ttl : Text
  pub agent_lease_refresh_interval : Text
  pub deregister_critical_service_after : Text

-- The numbers are `uint32`.
pub record XdsConfig : Type 0 where
  pub listen_address : Text
  pub node_id : Text
  pub listener_address : Text
  pub route_name : Text
  pub default_timeout : Text
  pub retry_attempts : ℕ
  pub per_try_timeout : Text
  pub max_connections : ℕ
  pub max_pending_requests : ℕ
  pub max_requests : ℕ
  pub consecutive_5xx : ℕ
  pub base_ejection_time : Text
  pub max_ejection_percent : ℕ

pub record EnvoyConfig : Type 0 where
  pub enabled : Bool
  pub binary_path : Text
  pub bootstrap_path : Text
  pub admin_address : Text
  pub drain_timeout : Text
  pub restart_backoff : Text
  pub log_level : Text

pub record TelemetryConfig : Type 0 where
  pub otlp_endpoint : Text
  pub trace_enabled : Bool
  pub trace_exporter : Text
  pub metric_enabled : Bool
  pub metric_exporter : Text
  pub log_enabled : Bool
  pub log_exporter : Text

pub record Config : Type 0 where
  pub env : Text
  pub cluster_name : Text
  pub zone : Text
  pub host_ip : Text
  pub dns : DnsConfig
  pub admin : AdminConfig
  pub discovery : DiscoveryConfig
  pub consul : ConsulConfig
  pub xds : XdsConfig
  pub envoy : EnvoyConfig
  pub telemetry : TelemetryConfig

-- `Default`
unfoldable pub default_config : Config
default_config = record {
  env = codes "dev";
  cluster_name = codes "cluster-a";
  zone = codes "idc-a-1";
  host_ip = codes "127.0.0.1";
  dns = record { listen_address = codes "127.0.0.1:15353"; upstream_dns = codes "8.8.8.8:53" };
  admin = record { listen_address = codes "127.0.0.1:15010" };
  discovery = record { refresh_interval = codes "5s"; debounce_interval = codes "1s" };
  consul = record {
    address = codes "127.0.0.1:8500";
    scheme = codes "http";
    datacenter = codes "dc1";
    route_kv_prefix = codes "routes";
    request_timeout = codes "3s";
    agent_lease_ttl = codes "10s";
    agent_lease_refresh_interval = codes "3s";
    deregister_critical_service_after = codes "30s";
  };
  xds = record {
    listen_address = codes "127.0.0.1:15011";
    node_id = codes "sidecar-agent-dev-node";
    listener_address = codes "127.0.0.1:15001";
    route_name = codes "local-route";
    default_timeout = codes "3s";
    retry_attempts = 2;
    per_try_timeout = codes "1s";
    max_connections = 1024;
    max_pending_requests = 2048;
    max_requests = 4096;
    consecutive_5xx = 5;
    base_ejection_time = codes "30s";
    max_ejection_percent = 50;
  };
  envoy = record {
    enabled = false;
    binary_path = codes "envoy";
    bootstrap_path = codes "./.tmp/envoy-bootstrap.yaml";
    admin_address = codes "127.0.0.1:19000";
    drain_timeout = codes "20s";
    restart_backoff = codes "3s";
    log_level = codes "info";
  };
  telemetry = record {
    otlp_endpoint = codes "http://127.0.0.1:4318";
    trace_enabled = false;
    trace_exporter = codes "stdout";
    metric_enabled = true;
    metric_exporter = codes "prometheus";
    log_enabled = true;
    log_exporter = codes "stdout";
  };
}
