-- ===== src/Telemetry/Metrics.antt =====
-- telemetry/metrics.go: `Metrics`, by what has been added to its counters and by its gauge.
use sidecar_agent.Prelude.{ℕ, ◌+◌}
use sidecar_agent.Prelude.Int.{ℤ, pos}

pub record Metrics : Type 0 where
  pub register_total : ℕ
  pub drain_total : ℕ
  pub deregister_total : ℕ
  pub discovery_refresh_total : ℕ
  pub xds_publish_total : ℕ
  pub envoy_restart_total : ℕ
  pub local_service_gauge_value : ℤ

-- As `NewMetrics` leaves them.
unfoldable pub no_metrics : Metrics
no_metrics = record {
  register_total = 0;
  drain_total = 0;
  deregister_total = 0;
  discovery_refresh_total = 0;
  xds_publish_total = 0;
  envoy_restart_total = 0;
  local_service_gauge_value = pos 0;
}

-- `IncRegister`
unfoldable pub inc_register : Metrics → Metrics
inc_register m = record m { register_total = m.register_total + 1 }

-- `IncDrain`
unfoldable pub inc_drain : Metrics → Metrics
inc_drain m = record m { drain_total = m.drain_total + 1 }

-- `IncDeregister`
unfoldable pub inc_deregister : Metrics → Metrics
inc_deregister m = record m { deregister_total = m.deregister_total + 1 }

-- `IncDiscoveryRefresh`
unfoldable pub inc_discovery_refresh : Metrics → Metrics
inc_discovery_refresh m = record m { discovery_refresh_total = m.discovery_refresh_total + 1 }

-- `IncXDSPublish`
unfoldable pub inc_xds_publish : Metrics → Metrics
inc_xds_publish m = record m { xds_publish_total = m.xds_publish_total + 1 }

-- `IncEnvoyRestart`
unfoldable pub inc_envoy_restart : Metrics → Metrics
inc_envoy_restart m = record m { envoy_restart_total = m.envoy_restart_total + 1 }

-- `SetLocalServiceGauge`
unfoldable pub set_local_service_gauge : ℤ → Metrics → Metrics
set_local_service_gauge value m = record m { local_service_gauge_value = value }
