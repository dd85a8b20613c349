-- ===== src/Config/Verdict.antt =====
-- The verdict of `Validate`: which configurations it accepts, and that it does not panic.
use mathlib.Core.List.{Permᴰ}
use sidecar_agent.Prelude.{Option, none, some, List, [], ◌∷◌, ◌≡◌, ◌≢◌, ◌↔◌, refl, arith}
use sidecar_agent.Text.{Text, codes}
use sidecar_agent.Config.{Config, TelemetryConfig}
use sidecar_agent.Config.Checks.{
  Formats, Problem, check_exporter, check_host, check_envoy, check_telemetry, panics, ◌or_else◌,
  address_fields, required_strings, duration_fields, check_each, check_required, check_duration,
  validate_address, must_duration, compare_lease, validate_in_order,
}
use sidecar_agent.Config.Accepted.{
  IsAccepted, IsDuration, host_iff, IsAddress-iff, IsDuration-iff, IsLease-iff,
}
use sidecar_agent.Config.Parts.{and_iff, each_iff, given_iff, IsEnvoy-iff, telemetry_iff}

module _ (y : Formats) where
  pub validate_in_order-IsAccepted :
      (c : Config) {addresses strings durations : List (Text × Text)}
      → Permᴰ addresses (address_fields c)
      → Permᴰ strings (required_strings c)
      → Permᴰ durations (duration_fields c)
      → (validate_in_order y addresses strings durations c ≡ none) ↔ IsAccepted y c
  unfolding validate_in_order
  validate_in_order-IsAccepted c p q r =
      let step =
        and_iff
          (and_iff
            (and_iff
              (and_iff
                (and_iff
                  (and_iff
                    (and_iff
                      (and_iff
                        (and_iff
                          (and_iff
                            (and_iff (given_iff (codes "env", c.env))
                              (given_iff (codes "cluster_name", c.cluster_name)))
                            (given_iff (codes "zone", c.zone)))
                          (host_iff y c.host_ip))
                        (each_iff (IsAddress-iff y) p))
                      (IsAddress-iff y (codes "consul.address", c.consul.address)))
                    (given_iff (codes "consul.route_kv_prefix", c.consul.route_kv_prefix)))
                  (each_iff given_iff q))
                (each_iff (IsDuration-iff y) r))
              (IsLease-iff y c))
            (IsEnvoy-iff c))
          (telemetry_iff c.telemetry) in
      (
        (λ h.
            let t = step.0 h in
            record {
              env = t.0.0.0.0.0.0.0.0.0.0.0;
              cluster_name = t.0.0.0.0.0.0.0.0.0.0.1;
              zone = t.0.0.0.0.0.0.0.0.0.1;
              host_ip = t.0.0.0.0.0.0.0.0.1;
              addresses = t.0.0.0.0.0.0.0.1;
              consul = t.0.0.0.0.0.0.1;
              prefix = t.0.0.0.0.0.1;
              strings = t.0.0.0.0.1;
              durations = t.0.0.0.1;
              lease = t.0.0.1;
              envoy = t.0.1;
              trace = t.1.0.0.0;
              metric = t.1.0.0.1;
              log = t.1.0.1;
              endpoint = t.1.1;
            }),
        (λ a. step.1 (
          ((
            (
              (
                (
                  (
                    (((((a.env, a.cluster_name), a.zone), a.host_ip), a.addresses), a.consul),
                    a.prefix,
                  ),
                  a.strings,
                ),
                a.durations,
              ),
              a.lease,
            ),
            a.envoy,
          )),
          (((a.trace, a.metric), a.log), a.endpoint),
        )),
      )

abbrev pub IsError : Option Problem → Type 0
IsError x = x ≢ some panics

IsError-or_else :
    {a b : Option Problem} → IsError a → (a ≡ none → IsError b) → IsError (a or_else b)
IsError-or_else {a = none} f g = g refl
IsError-or_else {a = some e} f g = f

IsError-check_each :
    {check : Text × Text → Option Problem}
    → ((f : Text × Text) → IsError (check f))
    → (fields : List (Text × Text)) → IsError (check_each check fields)
unfolding check_each
IsError-check_each f [] = λ e. cc e
IsError-check_each {check = check} f (x ∷ fields) =
    IsError-or_else (f x) (λ e. IsError-check_each {check = check} f fields)

IsError-required : (f : Text × Text) → IsError (check_required f)
IsError-required f = ground arith

IsError-telemetry : (t : TelemetryConfig) → IsError (check_telemetry t)
unfolding check_telemetry check_exporter
IsError-telemetry t = ground arith

IsError-envoy : (c : Config) → IsError (check_envoy c)
unfolding check_envoy
IsError-envoy c = ground arith

IsError-or_required :
    {a : Option Problem} → IsError a → (f : Text × Text) → IsError (a or_else check_required f)
IsError-or_required {a} h f = IsError-or_else {a = a} h (λ e. IsError-required f)

last_none : (a b : Option Problem) → (a or_else b) ≡ none → b ≡ none
last_none none b e = e
last_none (some x) b e = cc e

module _ (y : Formats) where
  IsError-address : (f : Text × Text) → IsError (validate_address y f)
  unfolding validate_address
  IsError-address f = ground arith

  IsError-duration : (f : Text × Text) → IsError (check_duration y f)
  unfolding check_duration
  IsError-duration f = ground arith

  IsError-lease :
      (a b : Text)
      → IsDuration y (codes "", a)
      → IsDuration y (codes "", b)
      → IsError (compare_lease y (must_duration y a) (must_duration y b))
  unfolding must_duration
  IsError-lease a b (d, e) (d2, e2) = ground (arith, e, e2)

  IsError-host : (ip : Text) → IsError (check_host y ip)
  unfolding check_host
  IsError-host ip = ground arith

  IsError-leases :
      (c : Config) {durations : List (Text × Text)}
      → Permᴰ durations (duration_fields c)
      → check_each (check_duration y) durations ≡ none
      → IsError (
          compare_lease y
            (must_duration y c.consul.agent_lease_refresh_interval)
            (must_duration y c.consul.agent_lease_ttl))
  unfolding duration_fields
  IsError-leases c r e =
      let parse = (each_iff (IsDuration-iff y) r).0 e in
      IsError-lease c.consul.agent_lease_refresh_interval c.consul.agent_lease_ttl parse.1.1.1.1.0
        parse.1.1.1.0

  -- Whatever order the loops over the maps take, the `MustDuration` calls that compare the lease's
  -- interval and TTL do not panic: `Validate` returns nil or an error.
  pub validate_in_order-IsError :
      (c : Config) (addresses strings : List (Text × Text)) {durations : List (Text × Text)}
      → Permᴰ durations (duration_fields c)
      → IsError (validate_in_order y addresses strings durations c)
  unfolding validate_in_order
  validate_in_order-IsError c addresses strings {durations} r =
      let consul =
        IsError-or_required
          (IsError-or_else
            (IsError-or_else
              (IsError-or_else
                (IsError-or_required
                  (IsError-or_required (IsError-required (codes "env", c.env))
                    (codes "cluster_name", c.cluster_name))
                  (codes "zone", c.zone))
                (λ e. IsError-host c.host_ip))
              (λ e. IsError-check_each IsError-address addresses))
            (λ e. IsError-address (codes "consul.address", c.consul.address)))
          (codes "consul.route_kv_prefix", c.consul.route_kv_prefix) in
      let parsed =
        IsError-or_else (IsError-or_else consul (λ e. IsError-check_each IsError-required strings))
          (λ e. IsError-check_each IsError-duration durations) in
      IsError-or_else
        (IsError-or_else (IsError-or_else parsed (λ e. IsError-leases c r (last_none _ _ e)))
          (λ e. IsError-envoy c))
        (λ e. IsError-telemetry c.telemetry)
