-- ===== src/Config/Checks.antt =====
-- `Config.Validate`, `MustDuration` and `validateAddress`.
use sidecar_agent.Prelude.{Bool, not, ◌&&◌, ◌||◌, Option, none, some, List, [], ◌∷◌, if◌then◌else◌}
use sidecar_agent.Prelude.Int.{ℤ, ltb_int}
use sidecar_agent.Text.{Text, codes, text_eq, trim_space, is_empty}
use sidecar_agent.Model.Error.{Error, Result, ok, err}
use sidecar_agent.Config.{Config, TelemetryConfig}

-- `net.ParseIP` is not nil, `net.SplitHostPort` and `time.ParseDuration`, in nanoseconds.
pub record Formats : Type 0 where
  pub is_ip : Text → Bool
  pub split_host_port : Text → Result (Text × Text)
  pub parse_duration : Text → Result ℤ

-- What `Validate` ends with if not with nil; the last is no error but a panic.
pub data Problem : Type 0 where
  required : Text → Problem
  host_ip_invalid : Text → Problem
  address_invalid duration_invalid : Text → Error → Problem
  lease_interval_too_long : Problem
  required_for_envoy : Text → Problem
  exporter_invalid : Text → Text → Problem
  endpoint_required : Problem
  panics : Problem

-- Checks in a row: the first problem ends them.
infixl 5 ◌or_else◌
abbrev pub ◌or_else◌ : Option Problem → Option Problem → Option Problem
none or_else next = next
some e or_else next = some e

abbrev pub is_blank : Text → Bool
is_blank t = is_empty (trim_space t)

abbrev pub check_required : Text × Text → Option Problem
check_required (field, value) = if is_blank value then some (required field) else none

-- Go's loop over a map of fields.
unfoldable pub check_each : (Text × Text → Option Problem) → List (Text × Text) → Option Problem
check_each check [] = none
check_each check (f ∷ fields) = let rest = check_each check fields in check f or_else rest

unfoldable pub address_fields : Config → List (Text × Text)
address_fields c =
    (codes "dns.listen_address", c.dns.listen_address)
    ∷ (codes "admin.listen_address", c.admin.listen_address)
    ∷ (codes "xds.listen_address", c.xds.listen_address)
    ∷ (codes "xds.listener_address", c.xds.listener_address)
    ∷ (codes "envoy.admin_address", c.envoy.admin_address)
    ∷ (codes "dns.upstream_dns", c.dns.upstream_dns)
    ∷ []

unfoldable pub required_strings : Config → List (Text × Text)
required_strings c =
    (codes "consul.scheme", c.consul.scheme)
    ∷ (codes "consul.datacenter", c.consul.datacenter)
    ∷ (codes "consul.request_timeout", c.consul.request_timeout)
    ∷ (codes "consul.agent_lease_ttl", c.consul.agent_lease_ttl)
    ∷ (codes "consul.agent_lease_refresh_interval", c.consul.agent_lease_refresh_interval)
    ∷ (codes "consul.deregister_critical_service_after", c.consul.deregister_critical_service_after)
    ∷ (codes "xds.node_id", c.xds.node_id)
    ∷ (codes "xds.route_name", c.xds.route_name)
    ∷ (codes "xds.default_timeout", c.xds.default_timeout)
    ∷ (codes "xds.per_try_timeout", c.xds.per_try_timeout)
    ∷ (codes "envoy.drain_timeout", c.envoy.drain_timeout)
    ∷ (codes "envoy.restart_backoff", c.envoy.restart_backoff)
    ∷ (codes "envoy.log_level", c.envoy.log_level)
    ∷ []

unfoldable pub duration_fields : Config → List (Text × Text)
duration_fields c =
    (codes "discovery.refresh_interval", c.discovery.refresh_interval)
    ∷ (codes "discovery.debounce_interval", c.discovery.debounce_interval)
    ∷ (codes "consul.request_timeout", c.consul.request_timeout)
    ∷ (codes "consul.agent_lease_ttl", c.consul.agent_lease_ttl)
    ∷ (codes "consul.agent_lease_refresh_interval", c.consul.agent_lease_refresh_interval)
    ∷ (codes "consul.deregister_critical_service_after", c.consul.deregister_critical_service_after)
    ∷ (codes "xds.default_timeout", c.xds.default_timeout)
    ∷ (codes "xds.per_try_timeout", c.xds.per_try_timeout)
    ∷ (codes "xds.base_ejection_time", c.xds.base_ejection_time)
    ∷ (codes "envoy.drain_timeout", c.envoy.drain_timeout)
    ∷ (codes "envoy.restart_backoff", c.envoy.restart_backoff)
    ∷ []

unfoldable pub check_envoy : Config → Option Problem
check_envoy c =
    if c.envoy.enabled
    then if is_blank c.envoy.binary_path
      then some (required_for_envoy (codes "envoy.binary_path"))
      else if is_blank c.envoy.bootstrap_path
      then some (required_for_envoy (codes "envoy.bootstrap_path"))
      else none
    else none

-- `switch` on a trimmed exporter: one text of its own, or "otlp".
unfoldable pub check_exporter : Bool → Text → Text → Text → Option Problem
check_exporter enabled field first exporter =
    if enabled
    then if text_eq (trim_space exporter) first || text_eq (trim_space exporter) (codes "otlp")
      then none
      else some (exporter_invalid field exporter)
    else none

abbrev pub uses_otlp : Bool → Text → Bool
uses_otlp enabled exporter = enabled && text_eq (trim_space exporter) (codes "otlp")

abbrev pub check_endpoint : Bool → Text → Option Problem
check_endpoint needed endpoint =
    if needed then (if is_blank endpoint then some endpoint_required else none) else none

unfoldable pub check_telemetry : TelemetryConfig → Option Problem
check_telemetry t =
    check_exporter t.trace_enabled (codes "telemetry.trace_exporter") (codes "stdout")
      t.trace_exporter
    or_else check_exporter t.metric_enabled (codes "telemetry.metric_exporter") (codes "prometheus")
        t.metric_exporter
    or_else check_exporter t.log_enabled (codes "telemetry.log_exporter") (codes "stdout")
        t.log_exporter
    or_else (check_endpoint (uses_otlp t.trace_enabled t.trace_exporter) t.otlp_endpoint
        or_else check_endpoint
            (uses_otlp t.metric_enabled t.metric_exporter || uses_otlp t.log_enabled t.log_exporter)
            t.otlp_endpoint)

module _ (y : Formats) where
  unfoldable pub validate_address : Text × Text → Option Problem
  validate_address (field, value) =
      if is_blank value
      then some (required field)
      else elim (y.split_host_port (trim_space value)) [
        | err e ↦ some (address_invalid field e)
        | ok parts ↦ none
      ]

  -- `MustDuration`; `none` is its panic.
  unfoldable pub must_duration : Text → Option ℤ
  must_duration raw = elim (y.parse_duration (trim_space raw)) [ err e ↦ none | ok d ↦ some d ]

  unfoldable pub check_duration : Text × Text → Option Problem
  check_duration (field, value) = elim (y.parse_duration (trim_space value)) [
    | err e ↦ some (duration_invalid field e)
    | ok d ↦ none
  ]

  abbrev pub compare_lease : Option ℤ → Option ℤ → Option Problem
  compare_lease (some interval) (some ttl) =
      if not (ltb_int interval ttl) then some lease_interval_too_long else none
  compare_lease none ttl = some panics
  compare_lease (some interval) none = some panics

  unfoldable pub check_host : Text → Option Problem
  check_host ip = if not (y.is_ip (trim_space ip)) then some (host_ip_invalid ip) else none

  -- `Validate`, for the three maps in the order of their iteration.
  unfoldable pub validate_in_order :
      List (Text × Text) → List (Text × Text) → List (Text × Text) → Config → Option Problem
  validate_in_order addresses strings durations c =
      check_required (codes "env", c.env)
      or_else check_required (codes "cluster_name", c.cluster_name)
      or_else check_required (codes "zone", c.zone)
      or_else check_host c.host_ip
      or_else check_each validate_address addresses
      or_else validate_address (codes "consul.address", c.consul.address)
      or_else check_required (codes "consul.route_kv_prefix", c.consul.route_kv_prefix)
      or_else check_each check_required strings
      or_else check_each check_duration durations
      or_else compare_lease (must_duration c.consul.agent_lease_refresh_interval)
          (must_duration c.consul.agent_lease_ttl)
      or_else check_envoy c
      or_else check_telemetry c.telemetry

  unfoldable pub validate_config : Config → Option Problem
  validate_config c =
      validate_in_order (address_fields c) (required_strings c) (duration_fields c) c
