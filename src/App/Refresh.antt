-- ===== src/App/Refresh.antt =====
-- `RefreshNow` and `publishInstances`: one refresh over the registry client, the watcher and the xDS
-- server. The callback is serialised by a lock, and a refresh is one action.
pub mod Refines
use mathlib.Core.Path.{subst}
use sidecar_agent.Xds.Server.{SetSnapshot}
use sidecar_agent.Prelude.{
  ℕ, Bool, true, false, Option, none, some, List, [], ◌∷◌, length, if◌then◌else◌, ◌≡◌, refl, sym,
  ◌∙◌, ap, arith,
}
use sidecar_agent.Text.{Text, text_eq}
use sidecar_agent.Model.Error.{Error, Result, ok, err}
use sidecar_agent.Model.Service.{ServiceInstance}
use sidecar_agent.Registry.Consul.{Outside}
use sidecar_agent.Registry.Exec.{State, Exec}
use sidecar_agent.Registry.Client.{Client}
use sidecar_agent.Registry.Discover.{discover}
use sidecar_agent.Registry.Discover.Usable.{discover_lem}
use sidecar_agent.Registry.Lifecycle.Listing.{local_services}
use sidecar_agent.Xds.Snapshot.{Summary}
use sidecar_agent.Xds.Snapshot.Build.{Envoy, Snapshot}
use sidecar_agent.Xds.Server.{Server, publish}
use sidecar_agent.Xds.Server.Outcome.{IsCached, IsOutcome, publish-IsOutcome}
use sidecar_agent.Discovery.{
  Watcher, Round, Outcome, unchanged, debounced, published, failed, too_soon, after_update,
  publish_changed, after_hash, after_discover, refresh_once,
}

-- The states that a refresh changes, and the gauge of local services.
pub record Fresh : Type 0 where
  pub registry : State
  pub watcher : Watcher
  pub xds : Server
  pub local_service_gauge : ℕ

abbrev pub error_of {ℓ} : {A : Type ℓ} → Result A → Option Error
error_of (ok a) = none
error_of (err e) = some e

-- The watcher is kept among the states.
abbrev pub keep_watcher : (Watcher × Outcome) × Fresh → Outcome × Fresh
keep_watcher ((watcher, outcome), w) = (outcome, record w { watcher = watcher })

module _ (o : Outside) (c : Client) (y : Envoy) (set_snapshot : SetSnapshot)
    (hash_instances : List ServiceInstance → Result Text) (built : ℕ) where
  abbrev pub publish_with : Fresh → Server × Result Summary → Option Error × Fresh
  publish_with w (s, result) = (
    error_of result,
    record w { xds = s; local_service_gauge = length (local_services w.registry.local_services) },
  )

  -- `publishInstances`; `built` is the time of the build.
  unfoldable pub publish_instances : List ServiceInstance → Fresh → Option Error × Fresh
  publish_instances instances w = publish_with w (publish y set_snapshot w.xds instances built)

  -- What `Discover` finds in a state, and the two times that the watcher reads.
  abbrev pub round_of : Fresh → (since now : ℕ) → Round
  round_of w since now = record { found = (discover o c w.registry).0; since = since; now = now }

  -- `RefreshNow` with `publishInstances` for its callback, which acts on what `Discover` has left.
  unfoldable pub refresh_now : (since now : ℕ) → Fresh → Outcome × Fresh
  refresh_now since now w = keep_watcher (
      refresh_once hash_instances publish_instances w.watcher (round_of w since now)
        (record w { registry = (discover o c w.registry).1 }))
