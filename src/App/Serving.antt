-- ===== src/App/Serving.antt =====
-- The admin interface of the runner: `New` gives it the registry client, the xDS server and the runner
-- itself as the refresher. A request is one action; the times that its refresh reads are given.
pub mod Life
use sidecar_agent.Xds.Server.{SetSnapshot}
use sidecar_agent.Prelude.{ℕ, Bool, Option, none, some, List, ◌≡◌, ◌≢◌, refl, sym, ◌∙◌, ap}
use sidecar_agent.Text.{Text}
use sidecar_agent.Model.Error.{Error, Result, ok, err}
use sidecar_agent.Model.Request.{RegisterRequest}
use sidecar_agent.Model.Service.{LocalService, ServiceInstance}
use sidecar_agent.Registry.Consul.{Outside}
use sidecar_agent.Registry.Exec.{State, Exec}
use sidecar_agent.Registry.Exec.Rules.{Services}
use sidecar_agent.Registry.Client.{Client}
use sidecar_agent.Registry.Register.{register}
use sidecar_agent.Registry.Register.Outcome.{IsRegistered, register-IsRegistered}
use sidecar_agent.Registry.Lifecycle.{drain, deregister}
use sidecar_agent.Registry.Lifecycle.Listing.{local_services}
use sidecar_agent.Xds.Snapshot.Build.{Envoy, Snapshot}
use sidecar_agent.Xds.Server.{summary}
use sidecar_agent.Discovery.{Outcome, unchanged, debounced, published, failed}
use sidecar_agent.App.Refresh.{Fresh, refresh_now}
use sidecar_agent.App.Refresh.Refines.{refresh_now-IsRefreshed}
use sidecar_agent.Admin
use sidecar_agent.Admin.Status.{Contract, IsReported, handle_register-IsRegistered}

-- A method of the registry client on the whole state.
abbrev pub on_registry : {A : Type 0} → Exec A → Fresh → Result A × Fresh
on_registry m w = let (result, s) = m w.registry in (result, record w { registry = s })

-- The error that `RefreshNow` returns.
abbrev pub refresh_result : Outcome × Fresh → Result (Unit {0}) × Fresh
refresh_result (unchanged, w) = (ok tt, w)
refresh_result (debounced, w) = (ok tt, w)
refresh_result (published instances, w) = (ok tt, w)
refresh_result (failed e, w) = (err e, w)

-- When the snapshot is built, and the two times that the watcher reads.
pub record Times : Type 0 where
  pub built : ℕ
  pub since : ℕ
  pub now : ℕ

module _ (o : Outside) (c : Client) (y : Envoy) (set_snapshot : SetSnapshot)
    (hash_instances : List ServiceInstance → Result Text) where
  -- `*registry.Client` as the admin interface sees it.
  unfoldable pub runner_registry : Admin.Registry Fresh
  runner_registry = record {
    register = λ r. on_registry (register o c r);
    drain = λ r. on_registry (drain o r);
    deregister = λ r. on_registry (deregister o r);
    local_services = λ w. local_services w.registry.local_services;
  }

  -- `*Runner` as the admin interface sees it.
  unfoldable pub runner_refresher : Times → Admin.Refresher Fresh
  runner_refresher t w =
      refresh_result (refresh_now o c y set_snapshot hash_instances t.built t.since t.now w)

  -- The admin server of a runner.
  unfoldable pub admin_server : Text → (has_metrics : Bool) → Times → Admin.Server Fresh
  admin_server listen_address has_metrics t =
      Admin.new_server listen_address runner_registry (some (runner_refresher t))
        (some (λ w. summary w.xds)) has_metrics

  -- The local services.
  abbrev pub services_of : Fresh → Services
  services_of w = w.registry.local_services

  result_world : (r : Outcome × Fresh) → (refresh_result r).1 ≡ r.1
  result_world (unchanged, w) = refl
  result_world (debounced, w) = refl
  result_world (published instances, w) = refl
  result_world (failed e, w) = refl

  pub refresher-world :
      (t : Times) (w : Fresh)
      → (runner_refresher t w).1
        ≡ (refresh_now o c y set_snapshot hash_instances t.built t.since t.now w).1
  unfolding runner_refresher
  refresher-world t w =
      result_world (refresh_now o c y set_snapshot hash_instances t.built t.since t.now w)

  -- The registry client and the runner keep the contract of the admin interface.
  pub admin_server-Contract :
      (listen_address : Text) (has_metrics : Bool) (t : Times)
      → Contract (admin_server listen_address has_metrics t) services_of
  unfolding admin_server Admin.new_server runner_registry Admin.refresh_now
  admin_server-Contract listen_address has_metrics t = record {
    registers = λ r w. register-IsRegistered o c r w.registry;
    refreshes = λ w.
        ap services_of (refresher-world t w)
        ∙ (refresh_now-IsRefreshed o c y set_snapshot hash_instances t.built t.since t.now w).1;
  }

  -- The admin interface of a runner, over its registry client, its watcher and its xDS server: where
  -- the answer to a decoded registration has another status than 400, the service is registered for
  -- the request: it stands in the map under the request's name and port, is not deregistered, and has
  -- the fields of that request and the same methods, but for their order, their repetition and blanks
  -- around them. The answer is that service with status 200, or status 500 with an error: a refresh
  -- that fails takes nothing back.
  pub admin_register-IsRegistered :
      (listen_address : Text) (has_metrics : Bool) (t : Times) (r : RegisterRequest) (w : Fresh)
      → (let answer = Admin.handle_register (admin_server listen_address has_metrics t) (ok r) w in
          answer.0.status ≢ Admin.bad_request
          → (v : LocalService) × IsRegistered r v (services_of answer.1) × IsReported v answer.0)
  admin_register-IsRegistered listen_address has_metrics t r w other =
      handle_register-IsRegistered (admin_server listen_address has_metrics t) services_of r w
        (admin_server-Contract listen_address has_metrics t) other
