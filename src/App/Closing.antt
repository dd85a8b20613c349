-- ===== src/App/Closing.antt =====
-- What `Shutdown` has closed when it returns.
use sidecar_agent.Xds.Server.{SetSnapshot}
use sidecar_agent.Prelude.{
  Bool, true, false, Option, none, some, List, if◌then◌else◌, ◌≡◌, ◌⊎◌, inl, inr, refl,
}
use sidecar_agent.Prelude.Int.{ℤ}
use sidecar_agent.Model.Error.{Error, Result, ok, err}
use sidecar_agent.Model.Service.{LocalService}
use sidecar_agent.Config.Checks.{Formats}
use sidecar_agent.Registry.Consul.{Outside}
use sidecar_agent.Registry.Exec.{State}
use sidecar_agent.Registry.Tracked.{AllTracked}
use sidecar_agent.Registry.Tracked.Runs.{IsOrder}
use sidecar_agent.Registry.Lease.Leaving.{HasLeft, shutdown-HasLeft}
use sidecar_agent.Xds.Snapshot.Build.{Envoy}
use sidecar_agent.Xds.Server
use sidecar_agent.App.{Runner, Ending, done, refused, panicked}
use sidecar_agent.App.Running.{Running, nil_or_refused, returns, leave, stop_envoy, shutdown_runner}
use sidecar_agent.App.Order.{Ends, Ends-proceed, Ends-returns}

-- The admin server has shut down, or nothing is changed.
abbrev pub Fails : Option Error → Running → Running → Type 0
Fails admin before after = (admin ≡ none) ⊎ (after ≡ before)

-- The services of the agent are deregistered, and the xDS server no longer listens.
abbrev pub HasClosed : Runner → Running → Running → Type 0
HasClosed r before after =
    HasLeft r.client before.registry after.registry × (after.xds.started ≡ false)

module _ (o : Outside) (y : Envoy) (set_snapshot : SetSnapshot) (r : Runner) (f : Formats)
    (visit : List LocalService → List LocalService) (order : IsOrder visit) where
  left-Ends :
      (admin : Option Error) (w : Running) (p : Result (Unit {0}) × State)
      → admin ≡ none
      → (p.0 ≡ ok tt → HasLeft r.client w.registry p.1)
      → Ends
          (λ a. HasLeft r.client w.registry a.registry)
          (Fails admin w)
          (nil_or_refused p.0, record w { registry = p.1 })
  left-Ends admin w (ok u, s) e h = h refl
  left-Ends admin w (err x, s) e h = inl e

  stopped_ends :
      (b : Bool) (s : Server.Server)
      → s.started ≡ b
      → (if b then record s { started = false } else s).started ≡ false
  stopped_ends true s e = refl
  stopped_ends false s e = e

  xds_stops : (s : Server.Server) → (Server.stop s).started ≡ false
  unfolding Server.stop
  xds_stops s = stopped_ends s.started s refl

  Ends-same :
      (Q N : Running → Type 0) (m : Ending (Unit {0})) (w : Running) → Q w → N w → Ends Q N (m, w)
  Ends-same Q N (done u) w q n = q
  Ends-same Q N (refused e) w q n = n
  Ends-same Q N panicked w q n = n

  manager_stops :
      (Q N : Running → Type 0) (b : Option ℤ) (m : ℤ → Ending (Unit {0})) (w : Running)
      → Q w
      → N w
      → Ends Q N (elim b [ none ↦ (done tt, w) | some backoff ↦ (m backoff, w) ])
  manager_stops Q N none m w q n = q
  manager_stops Q N (some backoff) m w q n = Ends-same Q N (m backoff) w q n

  closed-Ends :
      (dns manager telemetry : Option Error) (w : Running)
      → AllTracked r.client w.registry.local_services
      → Ends
          (HasClosed r w)
          (Fails none w)
          (shutdown_runner o y set_snapshot r f visit none dns manager telemetry w)
  unfolding shutdown_runner
  closed-Ends dns manager telemetry w tracked =
      let Left : Running → Type 0 = λ a. HasLeft r.client w.registry a.registry in
      let Q = HasClosed r w in
      let N = Fails none w in
      Ends-proceed Left Q N _
        (λ w1 h1.
          Ends-proceed Left Q N _
            (λ w2 h2.
              Ends-proceed Q Q N _ (λ w3 h3. Ends-returns Q N telemetry w3 h3 (inl refl))
                (stop_envoy o y set_snapshot r f manager (record w2 { xds = Server.stop w2.xds }))
                (manager_stops Q N r.envoy _ (record w2 { xds = Server.stop w2.xds })
                  (h2, xds_stops w2.xds) (inl refl)))
            (returns dns w1) (Ends-returns Left N dns w1 h1 (inl refl)))
        (leave o y set_snapshot r visit w)
        (left-Ends none w _ refl
          (λ e. shutdown-HasLeft o r.client visit order w.registry tracked e))

  -- From a state in which the invariant of the services holds: where `Shutdown` returns nil, each
  -- service is deregistered, Consul has been asked to deregister those that were not, leases are no
  -- longer refreshed, and the xDS server does not listen. Where it does not return nil, the admin
  -- server has shut down or the state is what it was before: an error of the admin server ends
  -- `Shutdown` before any service is deregistered.
  pub shutdown_runner-Ends :
      (admin dns manager telemetry : Option Error) (w : Running)
      → AllTracked r.client w.registry.local_services
      → Ends
          (HasClosed r w)
          (Fails admin w)
          (shutdown_runner o y set_snapshot r f visit admin dns manager telemetry w)
  shutdown_runner-Ends none dns manager telemetry w tracked =
      closed-Ends dns manager telemetry w tracked
  shutdown_runner-Ends (some e) dns manager telemetry w tracked = unfold shutdown_runner in inr refl
