-- ===== src/App/Refresh/Refines.antt =====
-- What a refresh of the runner leaves in the watcher and in the xDS server.
use sidecar_agent.Xds.Server.{SetSnapshot}
use sidecar_agent.Prelude.{
  ℕ, Bool, true, false, ◌⊎◌, Option, List, length, if◌then◌else◌, ◌≡◌, refl, ◌∙◌, ap, inl, inr,
}
use sidecar_agent.Text.{Text, text_eq}
use sidecar_agent.Model.Error.{Error, Result, ok, err}
use sidecar_agent.Model.Service.{ServiceInstance}
use sidecar_agent.Registry.Consul.{Outside}
use sidecar_agent.Registry.Exec.{State}
use sidecar_agent.Registry.Client.{Client}
use sidecar_agent.Registry.Discover.{discover}
use sidecar_agent.Registry.Discover.Usable.{discover_lem}
use sidecar_agent.Registry.Lifecycle.Listing.{local_services}
use sidecar_agent.Xds.Snapshot.{Summary}
use sidecar_agent.Xds.Snapshot.Build.{Envoy}
use sidecar_agent.Xds.Server.{Server, publish}
use sidecar_agent.Xds.Server.Outcome.{IsCached, IsFailure, IsOutcome, publish-IsOutcome}
use sidecar_agent.Discovery.{
  Watcher, Round, Outcome, unchanged, debounced, published, failed, too_soon, after_update,
  publish_changed, after_hash, after_discover, refresh_once,
}
use sidecar_agent.App.Refresh.{
  Fresh, keep_watcher, publish_with, publish_instances, round_of, refresh_now,
}

-- A published list was accepted by the cache, is counted, and has the fingerprint that the watcher
-- keeps. Otherwise the watcher is as it was, so that the next refresh tries again, and the server has
-- not changed or its publication has failed. The registry client is left in a given state.
abbrev pub IsRefreshed :
    (List ServiceInstance → Result Text) → Fresh → State → Outcome × Fresh → Type 0
IsRefreshed hash_instances w s (published instances, after) =
    (after.registry ≡ s)
    × ((u : Summary) × IsCached w.xds after.xds u)
    × (hash_instances instances ≡ ok after.watcher.last_fingerprint)
    × (after.local_service_gauge ≡ length (local_services s.local_services))
IsRefreshed hash_instances w s (unchanged, after) =
    (after.registry ≡ s) × (after.xds ≡ w.xds) × (after.watcher ≡ w.watcher)
IsRefreshed hash_instances w s (debounced, after) =
    (after.registry ≡ s) × (after.xds ≡ w.xds) × (after.watcher ≡ w.watcher)
IsRefreshed hash_instances w s (failed e, after) =
    (after.registry ≡ s)
    × (after.watcher ≡ w.watcher)
    × ((after.xds ≡ w.xds) ⊎ IsFailure w.xds after.xds e)

pub IsRefreshed-registry :
    (hash_instances : List ServiceInstance → Result Text) (w : Fresh) (s : State)
    (p : Outcome × Fresh)
    → IsRefreshed hash_instances w s p
    → p.1.registry ≡ s
IsRefreshed-registry h w s (published instances, after) r = r.0
IsRefreshed-registry h w s (unchanged, after) r = r.0
IsRefreshed-registry h w s (debounced, after) r = r.0
IsRefreshed-registry h w s (failed e, after) r = r.0

-- A predicate of both branches.
either_branch {ℓ} :
    {A : Type ℓ} (P : A → Type 0) (b : Bool) (m n : A) → P m → P n → P (if b then m else n)
either_branch P true m n h k = h
either_branch P false m n h k = k

module _ (o : Outside) (c : Client) (y : Envoy) (set_snapshot : SetSnapshot)
    (hash_instances : List ServiceInstance → Result Text) (built : ℕ) where
  -- A refresh of the runner from the state that `Discover` has left.
  abbrev update : List ServiceInstance → Fresh → Option Error × Fresh
  update = publish_instances o c y set_snapshot hash_instances built

  abbrev Refreshed : Fresh → (Watcher × Outcome) × Fresh → Type 0
  Refreshed w p = IsRefreshed hash_instances w w.registry (keep_watcher p)

  committed :
      (w : Fresh) (r : Round) (instances : List ServiceInstance) (fingerprint : Text)
      (p : Server × Result Summary)
      → hash_instances instances ≡ ok fingerprint
      → IsOutcome w.xds p
      → Refreshed w (
          after_update hash_instances update w.watcher r instances fingerprint
            (publish_with o c y set_snapshot hash_instances built w p))
  unfolding after_update
  committed w r instances fingerprint (s, ok u) h out = (refl, (u, out), h, refl)
  committed w r instances fingerprint (s, err e) h out = (refl, refl, inr out)

  changed-Refreshed :
      (w : Fresh) (r : Round) (instances : List ServiceInstance) (fingerprint : Text)
      → hash_instances instances ≡ ok fingerprint
      → Refreshed w (publish_changed hash_instances update w.watcher r w instances fingerprint)
  unfolding publish_changed publish_instances
  changed-Refreshed w r instances fingerprint h =
      let P = Refreshed w in
      either_branch P (text_eq fingerprint w.watcher.last_fingerprint) _ _ (refl, refl, refl)
        (either_branch P (too_soon w.watcher r.since) _ _ (refl, refl, refl)
          (committed w r instances fingerprint (publish y set_snapshot w.xds instances built) h
            (publish-IsOutcome y set_snapshot w.xds instances built)))

  hashed-Refreshed :
      (w : Fresh) (r : Round) (instances : List ServiceInstance) (h : Result Text)
      → hash_instances instances ≡ h
      → Refreshed w (after_hash hash_instances update w.watcher r w instances h)
  unfolding after_hash
  hashed-Refreshed w r instances (err e) h = (refl, refl, inl refl)
  hashed-Refreshed w r instances (ok fingerprint) h = changed-Refreshed w r instances fingerprint h

  found-Refreshed :
      (w : Fresh) (r : Round) (found : Result (List ServiceInstance))
      → Refreshed w (after_discover hash_instances update w.watcher r w found)
  unfolding after_discover
  found-Refreshed w r (err e) = (refl, refl, inl refl)
  found-Refreshed w r (ok instances) =
      hashed-Refreshed w r instances (hash_instances instances) refl

  -- A refresh that publishes a list has given the cache one snapshot, with the builder's next version,
  -- which was accepted and counted; the watcher keeps the list's fingerprint, and the gauge is the
  -- number of local services. A refresh that finds no change or comes too soon leaves the server and
  -- the watcher as they were. One that fails leaves the watcher, so that the next refresh tries again,
  -- and the server has not changed or has failed to publish, with that error and without counting.
  -- The registry client is left as `Discover` leaves it, with the same local services.
  pub refresh_now-IsRefreshed :
      (since now : ℕ) (w : Fresh)
      → (let after = refresh_now o c y set_snapshot hash_instances built since now w in
          IsRefreshed hash_instances w (discover o c w.registry).1 after
          × (after.1.registry.local_services ≡ w.registry.local_services))
  unfolding refresh_now refresh_once
  refresh_now-IsRefreshed since now w =
      let w' : Fresh = record w { registry = (discover o c w.registry).1 } in
      let r = round_of o c y set_snapshot hash_instances built w since now in
      let found = (discover o c w.registry).0 in
      let all = found-Refreshed w' r found in
      let kept =
        IsRefreshed-registry hash_instances w' w'.registry
          (keep_watcher (after_discover hash_instances update w.watcher r w' found)) all in
      (all, ap (λ (s : State). s.local_services) kept ∙ (discover_lem o c w.registry).1)
