-- ===== src/Registry/Live/Runs.antt =====
-- Over the life of a client, no registered instance is lost, and none is left at its end.
use mathlib.Core.Path.{subst}
use sidecar_agent.Prelude.{refl, false, List, [], ◌∷◌, ◌≡◌, sym, arith, Bool-cases, inl, inr}
use sidecar_agent.Text.{Text}
use sidecar_agent.Model.Error.{ok}
use sidecar_agent.Model.Service.{LocalService}
use sidecar_agent.Registry.Consul.{Outside}
use sidecar_agent.Registry.Exec.{State, Exec}
use sidecar_agent.Registry.Client.{Client}
use sidecar_agent.Registry.Lease.{active_services, pass_leases, lease_tick, start, shutdown}
use sidecar_agent.Registry.Lease.Leaving.{HasLeft, shutdown-HasLeft}
use sidecar_agent.Registry.Tracked.{AllTracked}
use sidecar_agent.Registry.Tracked.Runs.{
  IsOrder, Op, register_op, drain_op, deregister_op, start_op, tick_op, shutdown_op, new_state,
  apply, run, apply-AllTracked,
}
use sidecar_agent.Registry.Within.{pass_leases-Within}
use sidecar_agent.Registry.Within.Methods.{start-Within}
use sidecar_agent.Registry.Live.{is_live, HasEntry, NoOrphans}
use sidecar_agent.Registry.Live.Calm.{Calm, calm_steps}
use sidecar_agent.Registry.Live.Changes.{leaves-NoOrphans}
use sidecar_agent.Registry.Live.Announcing.{AcceptsLeases}
use sidecar_agent.Registry.Live.Registering.{register-Leads}
use sidecar_agent.Registry.Live.Leaving.{drain-Leads, deregister_request-Leads, shutdown-NoOrphans}

module _ (o : Outside) (c : Client) (leases : AcceptsLeases o) where
  pub same_map-NoOrphans :
      {A : Type 0} (m : Exec A) (s : State) → Calm o m → NoOrphans o s → NoOrphans o (m s).1
  same_map-NoOrphans m s calm h id e =
      subst (HasEntry id) (sym ((calm.at s).services)) (h id ((calm.at s).live id e))

  pub apply-NoOrphans :
      (op : Op) (s : State)
      → AllTracked c s.local_services
      → NoOrphans o s
      → NoOrphans o (apply o c op s)
  unfolding apply lease_tick
  apply-NoOrphans (register_op r) s t h = leaves-NoOrphans (register-Leads o c leases r) s (h, t)
  apply-NoOrphans (drain_op r) s t h = leaves-NoOrphans (drain-Leads o r) s h
  apply-NoOrphans (deregister_op r) s t h = leaves-NoOrphans (deregister_request-Leads o r) s h
  apply-NoOrphans start_op s t h =
      same_map-NoOrphans (start o c) s
        (start-Within (calm_steps o) o c (λ s. record { services = refl; live = λ id e. e })) h
  apply-NoOrphans (tick_op visit p) s t h =
      let vs = visit (active_services s.local_services) in
      same_map-NoOrphans (pass_leases o c vs) s (pass_leases-Within (calm_steps o) o c vs) h
  apply-NoOrphans (shutdown_op visit p) s t h = shutdown-NoOrphans o c visit s p t h

  run_from-NoOrphans :
      (ops : List Op) (s : State)
      → AllTracked c s.local_services
      → NoOrphans o s
      → NoOrphans o (run o c ops s) × AllTracked c (run o c ops s).local_services
  unfolding run
  run_from-NoOrphans [] s t h = (h, t)
  run_from-NoOrphans (op ∷ ops) s t h =
      run_from-NoOrphans ops (apply o c op s) (apply-AllTracked o c op s t)
        (apply-NoOrphans op s t h)

  -- Where Consul accepts each refresh of a lease, then after any sequence of registrations, drains,
  -- deregistrations, starts, lease rounds and shutdowns of a new client, whatever else Consul answers
  -- and whichever of them fail, each operation one step, each instance whose last accepted call has
  -- registered it has a service in the map that is not deregistered: the agent loses track of none.
  pub run-NoOrphans : (ops : List Op) → NoOrphans o (run o c ops new_state)
  unfolding new_state is_live
  run-NoOrphans ops =
      (run_from-NoOrphans ops new_state (record { each = tt; one_per_key = tt }) (λ id e. cc e)).0

  -- A shutdown that returns no error leaves no instance registered.
  pub shutdown-empty :
      (visit : List LocalService → List LocalService) (s : State) (id : Text)
      → IsOrder visit
      → AllTracked c s.local_services
      → NoOrphans o s
      → (shutdown o c visit s).0 ≡ ok tt
      → is_live o id (shutdown o c visit s).1.history ≡ false
  shutdown-empty visit s id order t h done = elim (Bool-cases (is_live o id after.history)) [
    | inl e ↦
        let entry : HasEntry id after.local_services =
          shutdown-NoOrphans o c visit s order t h id e in
        absurd (ground (arith, left.none_left entry.key entry.service entry.kept, entry.active))
    | inr e ↦ e
  ]
    where
      after : State
      after = (shutdown o c visit s).1

      left : HasLeft c s after
      left = shutdown-HasLeft o c visit order s t done
