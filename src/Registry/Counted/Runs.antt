-- ===== src/Registry/Counted/Runs.antt =====
-- Over the life of a client, its metrics tally with what Consul accepted.
use sidecar_agent.Prelude.{false, List, [], ◌∷◌, refl, arith}
use sidecar_agent.Registry.Consul.{Outside}
use sidecar_agent.Registry.Exec.{State}
use sidecar_agent.Registry.Client.{Client}
use sidecar_agent.Registry.Lease.{active_services, lease_tick, shutdown}
use sidecar_agent.Registry.Tracked.Runs.{
  Op, register_op, drain_op, deregister_op, start_op, tick_op, shutdown_op, new_state, apply, run,
}
use sidecar_agent.Registry.Live.Announcing.{AcceptsLeases}
use sidecar_agent.Registry.Within.{pass_leases-Within}
use sidecar_agent.Registry.Within.Methods.{
  register-Within, drain-Within, deregister-Within, start-Within, deregister_all-Within,
}
use sidecar_agent.Registry.Counted.{recorded, accepted, Tallies}
use sidecar_agent.Registry.Counted.Rules.{
  tally_steps, store-Counts, drain_service-Counts, deregister_service-Counts, announce-Counts,
}
use sidecar_agent.Telemetry.Metrics

module _ (o : Outside) (c : Client) (leases : AcceptsLeases o) where
  apply-Tallies : (op : Op) (s : State) → Tallies o s.history → Tallies o (apply o c op s).history
  unfolding apply lease_tick shutdown
  apply-Tallies (register_op r) s =
      (register-Within (tally_steps o) o c (store-Counts o) (announce-Counts o c leases) r).at s
  apply-Tallies (drain_op r) s = (drain-Within (tally_steps o) o (drain_service-Counts o) r).at s
  apply-Tallies (deregister_op r) s =
      (deregister-Within (tally_steps o) o (deregister_service-Counts o) r).at s
  apply-Tallies start_op s = (start-Within (tally_steps o) o c (λ s t. t)).at s
  apply-Tallies (tick_op visit p) s =
      (pass_leases-Within (tally_steps o) o c (visit (active_services s.local_services))).at s
  apply-Tallies (shutdown_op visit p) s =
      (deregister_all-Within (tally_steps o) o c (store-Counts o) (announce-Counts o c leases)
          (visit (active_services s.local_services))).at
        (record s { running = false })

  run_from-Tallies :
      (ops : List Op) (s : State) → Tallies o s.history → Tallies o (run o c ops s).history
  unfolding run
  run_from-Tallies [] s t = t
  run_from-Tallies (op ∷ ops) s t = run_from-Tallies ops (apply o c op s) (apply-Tallies op s t)

  -- Where Consul accepts each refresh of a lease, then after any sequence of operations of a new client,
  -- failed ones included and whatever else Consul answers, the counter of registrations is the number of
  -- registrations of an instance that Consul has accepted, the counter of drains that of the accepted
  -- requests for maintenance, and the counter of deregistrations is at most that of the accepted
  -- deregistrations: those of a shutdown, of a start and of a changed registration are not counted.
  pub run-Tallies : (ops : List Op) → Tallies o (run o c ops new_state).history
  unfolding new_state recorded accepted Metrics.no_metrics
  run-Tallies ops =
      run_from-Tallies ops new_state
        (record { registered = refl; drained = refl; deregistered = omega arith })
