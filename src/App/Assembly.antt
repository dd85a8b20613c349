-- ===== src/App/Assembly.antt =====
-- `New` of the application does not panic on what `Validate` accepts.
use mathlib.Core.List.Permᴰ
use sidecar_agent.Prelude.{
  Bool, true, false, Option, none, some, All, if◌then◌else◌, ◌≡◌, ◌≢◌, refl,
}
use sidecar_agent.Prelude.Int.{ℤ}
use sidecar_agent.Text.{Text, codes}
use sidecar_agent.Model.Error.{Error, Result, ok, err}
use sidecar_agent.Config.{Config}
use sidecar_agent.Config.Checks.{Formats, must_duration, duration_fields, validate_config}
use sidecar_agent.Config.Accepted.{IsDuration}
use sidecar_agent.Config.Verdict.{validate_in_order-IsAccepted}
use sidecar_agent.Registry.Consul.{Outside}
use sidecar_agent.Registry.Exec.{State}
use sidecar_agent.Registry.Client.{api_config, new_with_client, ensure_usable}
use sidecar_agent.App.{
  Ending, done, refused, panicked, ◌>>=◌, of_result, of_error, Installs, must, assemble_client,
  assemble_builder, assemble_envoy, bootstrap_of, settings_of, new_runner,
}

abbrev pub NoPanic {ℓ} : {A : Type ℓ} → Ending A → Type ℓ
NoPanic m = m ≢ panicked

pub NoPanic-bind {ℓ κ} :
    {A : Type ℓ} {B : Type κ} (m : Ending A) (f : A → Ending B)
    → NoPanic m
    → ((a : A) → NoPanic (f a))
    → NoPanic (m >>= f)
NoPanic-bind (done a) f h k = k a
NoPanic-bind (refused e) f h k = λ p. cc p
NoPanic-bind panicked f h k = absurd (h refl)

pub NoPanic-done {ℓ} : {A : Type ℓ} (a : A) → NoPanic (done a)
NoPanic-done a = λ p. cc p

NoPanic-of_result {ℓ} : {A : Type ℓ} (r : Result A) → NoPanic (of_result r)
NoPanic-of_result (ok a) = λ p. cc p
NoPanic-of_result (err e) = λ p. cc p

pub NoPanic-of_error : (r : Option Error) → NoPanic (of_error r)
NoPanic-of_error none = λ p. cc p
NoPanic-of_error (some e) = λ p. cc p

-- The durations that `New` parses.
record AllParse (y : Formats) (cfg : Config) : Type 0 where
  refresh_interval : IsDuration y (codes "", cfg.discovery.refresh_interval)
  debounce_interval : IsDuration y (codes "", cfg.discovery.debounce_interval)
  request_timeout : IsDuration y (codes "", cfg.consul.request_timeout)
  agent_lease_ttl : IsDuration y (codes "", cfg.consul.agent_lease_ttl)
  agent_lease_refresh_interval : IsDuration y (codes "", cfg.consul.agent_lease_refresh_interval)
  deregister_after : IsDuration y (codes "", cfg.consul.deregister_critical_service_after)
  default_timeout : IsDuration y (codes "", cfg.xds.default_timeout)
  per_try_timeout : IsDuration y (codes "", cfg.xds.per_try_timeout)
  base_ejection_time : IsDuration y (codes "", cfg.xds.base_ejection_time)
  restart_backoff : IsDuration y (codes "", cfg.envoy.restart_backoff)

all_parse : (y : Formats) (cfg : Config) → All (IsDuration y) (duration_fields cfg) → AllParse y cfg
unfolding duration_fields
all_parse y cfg h = record {
  refresh_interval = h.0;
  debounce_interval = h.1.0;
  request_timeout = h.1.1.0;
  agent_lease_ttl = h.1.1.1.0;
  agent_lease_refresh_interval = h.1.1.1.1.0;
  deregister_after = h.1.1.1.1.1.0;
  default_timeout = h.1.1.1.1.1.1.0;
  per_try_timeout = h.1.1.1.1.1.1.1.0;
  base_ejection_time = h.1.1.1.1.1.1.1.1.0;
  restart_backoff = h.1.1.1.1.1.1.1.1.1.1.0;
}

module _ (y : Formats) (o : Outside) (x : Installs) where
  NoPanic-must : (raw : Text) → IsDuration y (codes "", raw) → NoPanic (must y o x raw)
  unfolding must_duration
  NoPanic-must raw (d, e) = rw (e, must_duration) (NoPanic-done d)

  -- One `MustDuration`, and what comes after it.
  parsed {ℓ} :
      {B : Type ℓ} (raw : Text) (f : ℤ → Ending B)
      → IsDuration y (codes "", raw)
      → ((d : ℤ) → NoPanic (f d))
      → NoPanic (must y o x raw >>= f)
  parsed raw f h k = NoPanic-bind (must y o x raw) f (NoPanic-must raw h) k

  module _ (cfg : Config) (a : AllParse y cfg) where
    NoPanic-client : (s : State) → NoPanic (assemble_client y o x cfg s)
    unfolding assemble_client
    NoPanic-client s = parsed _ _ a.request_timeout λ timeout. parsed _ _ a.agent_lease_ttl λ ttl.
        parsed _ _ a.agent_lease_refresh_interval λ interval.
          parsed _ _ a.deregister_after λ critical.
            let made = new_with_client o (settings_of cfg ttl critical) s in
            NoPanic-bind _ _
              (NoPanic-of_error (
                x.new_client
                  (api_config cfg.consul.address cfg.consul.scheme cfg.consul.datacenter timeout)))
              λ dialled.
                NoPanic-bind _ _ (NoPanic-of_error (ensure_usable made.0))
                  λ usable. NoPanic-done (made.0, interval, made.1)

    NoPanic-builder : NoPanic (assemble_builder y o x cfg)
    unfolding assemble_builder
    NoPanic-builder = parsed _ _ a.default_timeout λ timeout.
        parsed _ _ a.per_try_timeout
          λ per_try. parsed _ _ a.base_ejection_time λ ejection. NoPanic-done _

    NoPanic-managed : NoPanic (do
      written ← of_error (x.write_bootstrap cfg.envoy.bootstrap_path (bootstrap_of cfg))
      backoff ← must y o x cfg.envoy.restart_backoff
      done (some backoff))
    NoPanic-managed =
        NoPanic-bind _ _ (NoPanic-of_error _)
          λ written. parsed _ _ a.restart_backoff λ backoff. NoPanic-done _

    NoPanic-if {ℓ} :
        {B : Type ℓ} (b : Bool) {m n : Ending B}
        → NoPanic m
        → NoPanic n
        → NoPanic (if b then m else n)
    NoPanic-if true h k = h
    NoPanic-if false h k = k

    NoPanic-envoy : NoPanic (assemble_envoy y o x cfg)
    unfolding assemble_envoy
    NoPanic-envoy = NoPanic-if cfg.envoy.enabled NoPanic-managed (NoPanic-done none)

    NoPanic-runner : (s : State) → NoPanic (new_runner y o x cfg s)
    unfolding new_runner
    NoPanic-runner s = NoPanic-bind _ _ (NoPanic-of_result _) λ system.
        NoPanic-bind _ _ (NoPanic-client s) λ made. NoPanic-bind _ _ NoPanic-builder λ builder.
          parsed _ _ a.refresh_interval λ refresh.
            parsed _ _ a.debounce_interval
              λ debounce. NoPanic-bind _ _ NoPanic-envoy λ envoy. NoPanic-done _

-- On a configuration that `Validate` accepts, `New` returns a runner or an error: none of its calls
-- of `MustDuration` panics, whatever the libraries and Consul do.
pub new_runner-NoPanic :
    (y : Formats) (o : Outside) (x : Installs) (cfg : Config) (s : State)
    → validate_config y cfg ≡ none
    → new_runner y o x cfg s ≢ panicked
unfolding validate_config
new_runner-NoPanic y o x cfg s valid =
    let accepted =
      (validate_in_order-IsAccepted y cfg (Permᴰ.refl _) (Permᴰ.refl _) (Permᴰ.refl _)).0 valid in
    NoPanic-runner y o x cfg (all_parse y cfg accepted.durations) s
