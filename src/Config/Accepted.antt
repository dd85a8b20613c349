-- ===== src/Config/Accepted.antt =====
-- Which configurations are accepted.
use sidecar_agent.Prelude.{true, false, ◌||◌, none, some, All, ◌≡◌, ◌↔◌, refl, arith}
use sidecar_agent.Prelude.Int.{ℤ, ltb_int}
use sidecar_agent.Text.{Text, codes, trim_space}
use sidecar_agent.Model.Error.{Result, ok, err}
use sidecar_agent.Config.{Config}
use sidecar_agent.Config.Checks.{
  Formats, address_invalid, duration_invalid, is_blank, address_fields, required_strings,
  duration_fields, uses_otlp, validate_address, must_duration, check_duration, compare_lease,
  check_host,
}
use sidecar_agent.Config.Parts.{IsGiven, IsExporter}

address_parsed :
    (r : Result (Text × Text)) (field : Text)
    → elim r [ err e ↦ some (address_invalid field e) | ok parts ↦ none ] ≡ none
    → (parts : Text × Text) × (r ≡ ok parts)
address_parsed (ok parts) field h = (parts, refl)
address_parsed (err e) field h = cc h

duration_parsed :
    (r : Result ℤ) (field : Text)
    → elim r [ err e ↦ some (duration_invalid field e) | ok d ↦ none ] ≡ none
    → (d : ℤ) × (r ≡ ok d)
duration_parsed (ok d) field h = (d, refl)
duration_parsed (err e) field h = cc h

module _ (y : Formats) where
  abbrev pub IsAddress : Text × Text → Type 0
  IsAddress f =
      (is_blank f.1 ≡ false)
      × ((parts : Text × Text) × (y.split_host_port (trim_space f.1) ≡ ok parts))

  abbrev pub IsDuration : Text × Text → Type 0
  IsDuration f = (d : ℤ) × (y.parse_duration (trim_space f.1) ≡ ok d)

  pub record IsAccepted (c : Config) : Type 0 where
    pub env : IsGiven (codes "env", c.env)
    pub cluster_name : IsGiven (codes "cluster_name", c.cluster_name)
    pub zone : IsGiven (codes "zone", c.zone)
    pub host_ip : y.is_ip (trim_space c.host_ip) ≡ true
    pub addresses : All IsAddress (address_fields c)
    pub consul : IsAddress (codes "consul.address", c.consul.address)
    pub prefix : IsGiven (codes "consul.route_kv_prefix", c.consul.route_kv_prefix)
    pub strings : All IsGiven (required_strings c)
    pub durations : All IsDuration (duration_fields c)
    -- leases are refreshed before they end
    pub lease :
        (interval : ℤ) × (ttl : ℤ) × (y.parse_duration
            (trim_space c.consul.agent_lease_refresh_interval)
          ≡ ok interval)
        × (y.parse_duration (trim_space c.consul.agent_lease_ttl) ≡ ok ttl)
        × (ltb_int interval ttl ≡ true)
    pub envoy :
        c.envoy.enabled ≡ true
        → (is_blank c.envoy.binary_path ≡ false) × (is_blank c.envoy.bootstrap_path ≡ false)
    pub trace : IsExporter c.telemetry.trace_enabled (codes "stdout") c.telemetry.trace_exporter
    pub metric :
        IsExporter c.telemetry.metric_enabled (codes "prometheus") c.telemetry.metric_exporter
    pub log : IsExporter c.telemetry.log_enabled (codes "stdout") c.telemetry.log_exporter
    pub endpoint :
        (uses_otlp c.telemetry.trace_enabled c.telemetry.trace_exporter
            || (uses_otlp c.telemetry.metric_enabled c.telemetry.metric_exporter
                || uses_otlp c.telemetry.log_enabled c.telemetry.log_exporter))
          ≡ true
        → is_blank c.telemetry.otlp_endpoint ≡ false

  IsAddress-of_none : (f : Text × Text) → validate_address y f ≡ none → IsAddress f
  unfolding validate_address
  IsAddress-of_none f h =
      let parsed = address_parsed (y.split_host_port (trim_space f.1)) f.0 in
      let given : is_blank f.1 ≡ false = ground (arith, h) in
      let tail : elim (y.split_host_port (trim_space f.1)) [
        | err e ↦ some (address_invalid f.0 e)
        | ok parts ↦ none
      ]
          ≡ none =
        ground (arith, h) in
      (given, parsed tail)

  none_of_address : (f : Text × Text) → IsAddress f → validate_address y f ≡ none
  unfolding validate_address
  none_of_address f h = ground (arith, h.0, h.1.1)

  IsDuration-of_none : (f : Text × Text) → check_duration y f ≡ none → IsDuration f
  unfolding check_duration
  IsDuration-of_none f h = duration_parsed (y.parse_duration (trim_space f.1)) f.0 h

  none_of_duration : (f : Text × Text) → IsDuration f → check_duration y f ≡ none
  unfolding check_duration
  none_of_duration f h = ground (arith, h.1)

  abbrev pub IsLease : Config → Type 0
  IsLease c =
      (interval : ℤ) × (ttl : ℤ) × (y.parse_duration
          (trim_space c.consul.agent_lease_refresh_interval)
        ≡ ok interval)
      × (y.parse_duration (trim_space c.consul.agent_lease_ttl) ≡ ok ttl)
      × (ltb_int interval ttl ≡ true)

  pub IsAddress-iff : (f : Text × Text) → (validate_address y f ≡ none) ↔ IsAddress f
  IsAddress-iff f = (IsAddress-of_none f, none_of_address f)

  pub IsDuration-iff : (f : Text × Text) → (check_duration y f ≡ none) ↔ IsDuration f
  IsDuration-iff f = (IsDuration-of_none f, none_of_duration f)

  pub host_iff : (ip : Text) → (check_host y ip ≡ none) ↔ (y.is_ip (trim_space ip) ≡ true)
  unfolding check_host
  host_iff ip = ground arith

  lease_of_results :
      (a b : Result ℤ)
      → (compare_lease y
            (elim a [ err e ↦ none | ok d ↦ some d ])
            (elim b [ err e ↦ none | ok d ↦ some d ])
          ≡ none)
        ↔ ((interval : ℤ) × (ttl : ℤ) × (a ≡ ok interval)
            × (b ≡ ok ttl)
            × (ltb_int interval ttl ≡ true))
  lease_of_results (ok interval) (ok ttl) = (
    (λ h. (interval, ttl, refl, refl, ground (arith, h))),
    (λ (i, t, e, f, less).
        let same : ltb_int interval ttl ≡ true = cc (e, f, less) in ground (arith, same)),
  )
  lease_of_results (ok interval) (err e) = ((λ h. cc h), (λ h. cc (h.3)))
  lease_of_results (err e) b = ((λ h. cc h), (λ h. cc (h.2)))

  pub IsLease-iff :
      (c : Config)
      → (compare_lease y
            (must_duration y c.consul.agent_lease_refresh_interval)
            (must_duration y c.consul.agent_lease_ttl)
          ≡ none)
        ↔ IsLease c
  unfolding must_duration
  IsLease-iff c =
      lease_of_results (y.parse_duration (trim_space c.consul.agent_lease_refresh_interval))
        (y.parse_duration (trim_space c.consul.agent_lease_ttl))
