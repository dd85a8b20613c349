-- ===== src/App/Running.antt =====
-- `Start` and `Shutdown` of `Runner`, in the order of their steps. What the HTTP server, the DNS
-- listeners, the Envoy manager and the telemetry system return is given; the registry client and the
-- xDS server act on their states.
use sidecar_agent.Xds.Server.{SetSnapshot}
use sidecar_agent.Prelude.{ℕ, Bool, true, Option, none, some, List, []}
use sidecar_agent.Model.Error.{Error, Result, ok, err}
use sidecar_agent.Model.Service.{LocalService}
use sidecar_agent.Config.Checks.{Formats, must_duration}
use sidecar_agent.Registry.Consul.{Outside}
use sidecar_agent.Registry.Exec.{State}
use sidecar_agent.Registry.Lease
use sidecar_agent.Xds.Snapshot.Build.{Envoy}
use sidecar_agent.Xds.Server
use sidecar_agent.App.{Runner, Ending, done, refused, panicked, ◌>>=◌, of_error, of_panic}

-- The goroutines of the DNS server, of the admin interface and of the watcher are launched together.
pub record Running : Type 0 where
  pub registry : State
  pub xds : Server.Server
  pub envoy_started : Bool
  pub launched : Bool

abbrev pub Action : Type 0
Action = Running → Ending (Unit {0}) × Running

abbrev pub proceed : Ending (Unit {0}) → Action → Action
proceed (done u) next w = next w
proceed (refused e) next w = (refused e, w)
proceed panicked next w = (panicked, w)

infixr 5 ◌and_next◌
abbrev pub ◌and_next◌ : Action → Action → Action
◌and_next◌ first next w = proceed (first w).0 next (first w).1

abbrev pub nil_or_refused {ℓ} : {A : Type ℓ} → Result A → Ending (Unit {0})
nil_or_refused (ok a) = done tt
nil_or_refused (err e) = refused e

-- A part without a state in the model, for what it returns.
abbrev pub returns : Option Error → Action
returns e w = (of_error e, w)

module _ (o : Outside) (y : Envoy) (set_snapshot : SetSnapshot) (r : Runner) where
  abbrev pub start_registry : Action
  start_registry w =
      let (result, s) = Lease.start o r.client w.registry in
      (nil_or_refused result, record w { registry = s })

  abbrev pub start_xds : Option Error → Action
  start_xds listen w =
      let (result, s) = Server.start listen w.xds in (of_error result, record w { xds = s })

  abbrev pub publish_empty : ℕ → Action
  publish_empty now w =
      let (s, result) = Server.publish y set_snapshot w.xds [] now in
      (nil_or_refused result, record w { xds = s })

  abbrev pub manager_started : Option Error → Action
  manager_started none w = (done tt, record w { envoy_started = true })
  manager_started (some e) w = (refused e, w)

  abbrev pub start_envoy : Option Error → Action
  start_envoy manager w = elim r.envoy [
    | none ↦ (done tt, w)
    | some backoff ↦ manager_started manager w
  ]

  abbrev pub launch : Action
  launch w = (done tt, record w { launched = true })

  -- `Start`, for what `net.Listen`, the clock at the publication and `Manager.Start` return.
  unfoldable pub start_runner : Option Error → ℕ → Option Error → Action
  start_runner listen now manager =
      start_registry
      and_next start_xds listen
      and_next publish_empty now
      and_next start_envoy manager
      and_next launch

  abbrev pub leave : (List LocalService → List LocalService) → Action
  leave visit w =
      let (result, s) = Lease.shutdown o r.client visit w.registry in
      (nil_or_refused result, record w { registry = s })

  abbrev pub stop_xds : Action
  stop_xds w = (done tt, record w { xds = Server.stop w.xds })

  -- The context of the manager's `Stop` is made first, by `MustDuration`.
  abbrev pub stop_envoy : Formats → Option Error → Action
  stop_envoy f manager w = elim r.envoy [
    | none ↦ (done tt, w)
    | some backoff ↦
        (of_panic (must_duration f r.cfg.envoy.drain_timeout) >>= λ timeout. of_error manager, w)
  ]

  -- `Shutdown`, for what the admin server, the DNS server, the manager and telemetry return.
  unfoldable pub shutdown_runner :
      Formats
      → (List LocalService → List LocalService)
      → (admin dns manager telemetry : Option Error) → Action
  shutdown_runner f visit admin dns manager telemetry =
      returns admin
      and_next leave visit
      and_next returns dns
      and_next stop_xds
      and_next stop_envoy f manager
      and_next returns telemetry
