-- ===== src/App/Serving/Life.antt =====
-- The agent at work: requests to the admin interface, the ticks of the watcher and those of the lease
-- loop, in any order, and the shutdown of the registry client at the end.
use mathlib.Core.Path.{subst}
use sidecar_agent.Xds.Server.{SetSnapshot}
use sidecar_agent.Prelude.{Bool, false, List, [], ◌∷◌, ◌≡◌, sym}
use sidecar_agent.Text.{Text}
use sidecar_agent.Model.Error.{Result, ok, err}
use sidecar_agent.Model.Service.{LocalService, ServiceInstance}
use sidecar_agent.Registry.Consul.{Outside}
use sidecar_agent.Registry.Exec.{State}
use sidecar_agent.Registry.Client.{Client}
use sidecar_agent.Registry.Register.{register}
use sidecar_agent.Registry.Lifecycle.{drain, deregister}
use sidecar_agent.Registry.Discover.{discover}
use sidecar_agent.Registry.Lease.{lease_tick, shutdown}
use sidecar_agent.Registry.Tracked.{AllTracked}
use sidecar_agent.Registry.Tracked.Runs.{
  IsOrder, Op, register_op, drain_op, deregister_op, tick_op, new_state, apply, run,
  apply-AllTracked,
}
use sidecar_agent.Registry.Live.{is_live, NoOrphans}
use sidecar_agent.Registry.Live.Calm.{calm_steps}
use sidecar_agent.Registry.Within.Methods.{discover-Within}
use sidecar_agent.Registry.Live.Announcing.{AcceptsLeases}
use sidecar_agent.Registry.Live.Runs.{
  same_map-NoOrphans, apply-NoOrphans, run-NoOrphans, shutdown-empty,
}
use sidecar_agent.Registry.Tracked.Runs.{run-AllTracked}
use sidecar_agent.Xds.Snapshot.Build.{Envoy}
use sidecar_agent.App.Refresh.{Fresh, refresh_now}
use sidecar_agent.App.Refresh.Refines.{refresh_now-IsRefreshed, IsRefreshed-registry}
use sidecar_agent.Admin
use sidecar_agent.App.Serving.{
  on_registry, Times, runner_registry, runner_refresher, admin_server, refresher-world,
}

pub data Event : Type 0 where
  requested : Times → Admin.Request → Event
  refreshed : Times → Event
  leases_passed : (visit : List LocalService → List LocalService) → IsOrder visit → Event

module _ (o : Outside) (c : Client) (y : Envoy) (set_snapshot : SetSnapshot)
    (hash_instances : List ServiceInstance → Result Text) (listen_address : Text)
    (has_metrics : Bool) where
  unfoldable pub step : Event → Fresh → Fresh
  step (requested t q) w =
      (Admin.serve (admin_server o c y set_snapshot hash_instances listen_address has_metrics t) q
        w).1
  step (refreshed t) w = (refresh_now o c y set_snapshot hash_instances t.built t.since t.now w).1
  step (leases_passed visit p) w = record w { registry = (lease_tick o c visit w.registry).1 }

  unfoldable pub live : List Event → Fresh → Fresh
  live [] w = w
  live (e ∷ events) w = live events (step e w)

  module _ (leases : AcceptsLeases o) where
    -- The registry client has lost no instance.
    abbrev Kept : Fresh → Type 0
    Kept w = NoOrphans o w.registry × AllTracked c w.registry.local_services

    of_op : (op : Op) (w : Fresh) → Kept w → Kept (record w { registry = apply o c op w.registry })
    of_op op w k =
        (apply-NoOrphans o c leases op w.registry k.1 k.0, apply-AllTracked o c op w.registry k.1)

    refresh-Kept :
        (t : Times) (w : Fresh)
        → Kept w
        → Kept (refresh_now o c y set_snapshot hash_instances t.built t.since t.now w).1
    refresh-Kept t w k =
        let after = refresh_now o c y set_snapshot hash_instances t.built t.since t.now w in
        let found : State = (discover o c w.registry).1 in
        let same : after.1.registry ≡ found =
          IsRefreshed-registry hash_instances w found after
            (refresh_now-IsRefreshed o c y set_snapshot hash_instances t.built t.since t.now w).0 in
        subst (λ s. NoOrphans o s × AllTracked c s.local_services) (sym same)
          (
            same_map-NoOrphans o c leases (discover o c) w.registry
                (discover-Within (calm_steps o) o c) k.0,
            subst (AllTracked c)
                (sym (((discover-Within (calm_steps o) o c).at w.registry).services)) k.1,
          )

    refresher-Kept :
        (t : Times) (w : Fresh)
        → Kept w
        → Kept (runner_refresher o c y set_snapshot hash_instances t w).1
    refresher-Kept t w k =
        subst Kept (sym (refresher-world o c y set_snapshot hash_instances t w))
          (refresh-Kept t w k)

    after_refresh-Kept :
        (v : LocalService) (r : Result (Unit {0}) × Fresh)
        → Kept r.1
        → Kept (Admin.after_refresh v r).1
    after_refresh-Kept v (ok u, w) k = k
    after_refresh-Kept v (err e, w) k = k

    -- An operation of the registry client and what the handler does after it.
    handled-Kept :
        (t : Times) (r : Result LocalService × Fresh)
        → Kept r.1
        → Kept
            (Admin.after_operation
              (admin_server o c y set_snapshot hash_instances listen_address has_metrics t)
              r).1
    unfolding Admin.refresh_now admin_server Admin.new_server
    handled-Kept t (err e, w) k = k
    handled-Kept t (ok v, w) k =
        after_refresh-Kept v (runner_refresher o c y set_snapshot hash_instances t w)
          (refresher-Kept t w k)

    serve-Kept :
        (t : Times) (q : Admin.Request) (w : Fresh)
        → Kept w
        → Kept
            (Admin.serve
              (admin_server o c y set_snapshot hash_instances listen_address has_metrics t)
              q
              w).1
    unfolding Admin.serve Admin.handle_register Admin.handle_drain Admin.handle_deregister
        Admin.handle admin_server Admin.new_server runner_registry apply
    serve-Kept t (Admin.post_register (ok r)) w k =
        handled-Kept t (on_registry (register o c r) w) (of_op (register_op r) w k)
    serve-Kept t (Admin.post_register (err e)) w k = k
    serve-Kept t (Admin.post_drain (ok r)) w k =
        handled-Kept t (on_registry (drain o r) w) (of_op (drain_op r) w k)
    serve-Kept t (Admin.post_drain (err e)) w k = k
    serve-Kept t (Admin.post_deregister (ok r)) w k =
        handled-Kept t (on_registry (deregister o r) w) (of_op (deregister_op r) w k)
    serve-Kept t (Admin.post_deregister (err e)) w k = k
    serve-Kept t Admin.get_healthz w k = k
    serve-Kept t Admin.get_debug_services w k = k
    serve-Kept t Admin.get_debug_xds w k = k
    serve-Kept t Admin.get_metrics w k = k
    serve-Kept t (Admin.get_watch flusher ticks) w k = k

    step-Kept : (e : Event) (w : Fresh) → Kept w → Kept (step e w)
    unfolding step apply
    step-Kept (requested t q) w k = serve-Kept t q w k
    step-Kept (refreshed t) w k = refresh-Kept t w k
    step-Kept (leases_passed visit p) w k = of_op (tick_op visit p) w k

    live-Kept : (events : List Event) (w : Fresh) → Kept w → Kept (live events w)
    unfolding live
    live-Kept [] w k = k
    live-Kept (e ∷ events) w k = live-Kept events (step e w) (step-Kept e w k)

    -- An agent whose registry client is new or has gone through any operations then answers any
    -- requests to its admin interface, malformed bodies included, with the refresh that follows each
    -- operation, and any ticks of its watcher and of its lease loop, in any order, each one step, and
    -- whatever Consul and Envoy answer, except that Consul accepts each refresh of a lease. A shutdown
    -- of the client that returns no error after all this leaves no instance registered.
    pub live_shutdown-empty :
        (ops : List Op) (events : List Event) (w : Fresh)
        (visit : List LocalService → List LocalService) (id : Text)
        → w.registry ≡ run o c ops new_state
        → IsOrder visit
        → (shutdown o c visit (live events w).registry).0 ≡ ok tt
        → is_live o id (shutdown o c visit (live events w).registry).1.history ≡ false
    live_shutdown-empty ops events w visit id from order done =
        let first : Kept w =
          subst (λ s. NoOrphans o s × AllTracked c s.local_services) (sym from)
            (run-NoOrphans o c leases ops, run-AllTracked o c ops) in
        let kept = live-Kept events w first in
        shutdown-empty o c leases visit (live events w).registry id order kept.1 kept.0 done
