-- ===== src/Xds/Server/Outcome.antt =====
-- What `Publish` asks of the cache, and what it leaves in the counter and in the summary.
use sidecar_agent.Prelude.{
  ℕ, ◌+◌, ◌%◌, ◌^◌, Option, none, some, List, ◌∷◌, ◌⊎◌, inl, inr, ◌≡◌, refl,
}
use sidecar_agent.Text.{decimal}
use sidecar_agent.Model.Error.{Error, Result, ok, err}
use sidecar_agent.Model.Service.{ServiceInstance}
use sidecar_agent.Xds.Snapshot.{Builder, Summary, group_instances}
use sidecar_agent.Xds.Snapshot.Build.{
  Envoy, Snapshot, Resources, no_resources, add_groups, Listener, snapshot_of, summary_of,
  build_listener, build,
}
use sidecar_agent.Xds.Snapshot.Build
use sidecar_agent.Xds.Server.{
  SetCall, SetSnapshot, Server, summary, set_in_cache, after_build, publish,
}

-- What a build leaves: a summary of the snapshot it returns, or the summary that was there.
abbrev IsBuilt : Builder → Builder × Result (Snapshot × Summary) → Type 0
IsBuilt b (after, ok (snapshot, u)) =
    (after.summary ≡ u)
    × (snapshot.version ≡ decimal u.version)
    × (u.version ≡ (b.version + 1) % 2 ^ 64)
IsBuilt b (after, err e) = after.summary ≡ b.summary

module _ (y : Envoy) (b : Builder) (r : Resources) (now : ℕ) where
  IsBuilt-checked :
      (listener : Listener) (refused inconsistent : Option Error)
      → (let version = (b.version + 1) % 2 ^ 64 in
          let advanced = record b { version = version } in
          let u = summary_of y b version r now in
          IsBuilt b (elim refused [
            | some e ↦ (advanced, err e)
            | none ↦ elim inconsistent [
              | some e ↦ (advanced, err e)
              | none ↦ (record advanced { summary = u }, ok (snapshot_of y b version r listener, u))
            ]
          ]))
  IsBuilt-checked listener (some e) inconsistent = refl
  IsBuilt-checked listener none (some e) = refl
  IsBuilt-checked listener none none = (refl, refl, refl)

  IsBuilt-publish : (listener : Listener) → IsBuilt b (Build.publish y b r listener now)
  unfolding Build.publish
  IsBuilt-publish listener =
      let snapshot = snapshot_of y b ((b.version + 1) % 2 ^ 64) r listener in
      IsBuilt-checked listener (y.new_snapshot snapshot) (y.consistent snapshot)

  IsBuilt-listener :
      (l : Result Listener)
      → IsBuilt b (elim l [ err e ↦ (b, err e) | ok listener ↦ Build.publish y b r listener now ])
  IsBuilt-listener (err e) = refl
  IsBuilt-listener (ok listener) = IsBuilt-publish listener

IsBuilt-build :
    (y : Envoy) (b : Builder) (instances : List ServiceInstance) (now : ℕ)
    → IsBuilt b (build y b instances now)
unfolding build
IsBuilt-build y b instances now =
    IsBuilt-listener y b (add_groups b no_resources (group_instances instances)) now
      (build_listener y b)

-- The call by which a server gives a snapshot to the cache.
abbrev pub set_call : Server → Snapshot → Option Error → SetCall
set_call s snapshot refused = record { node = s.node_id; snapshot = snapshot; refused = refused }

-- The cache has accepted a snapshot of the new version for the server's node, which is counted, and
-- `Summary` returns its summary.
pub record IsCached (s after : Server) (u : Summary) : Type 0 where
  pub snapshot : Snapshot
  pub cached : after.cache ≡ set_call s snapshot none ∷ s.cache
  pub version : snapshot.version ≡ decimal u.version
  pub next_version : u.version ≡ (s.builder.version + 1) % 2 ^ 64
  pub counted : after.publish_total ≡ s.publish_total + 1
  pub shown : summary after ≡ u
  pub kept_node : after.node_id ≡ s.node_id
  pub kept_listener : after.started ≡ s.started

-- The cache has refused a snapshot with this error, and `Summary` is about that snapshot.
pub record IsRefused (s after : Server) (e : Error) : Type 0 where
  pub snapshot : Snapshot
  pub asked : after.cache ≡ set_call s snapshot (some e) ∷ s.cache
  pub shown : snapshot.version ≡ decimal (summary after).version

-- Nothing was counted, and the cache was not asked or has refused.
pub record IsFailure (s after : Server) (e : Error) : Type 0 where
  pub not_counted : after.publish_total ≡ s.publish_total
  pub kept_node : after.node_id ≡ s.node_id
  pub kept_listener : after.started ≡ s.started
  pub cause : ((after.cache ≡ s.cache) × (summary after ≡ summary s)) ⊎ IsRefused s after e

abbrev pub IsOutcome : Server → Server × Result Summary → Type 0
IsOutcome s (after, ok u) = IsCached s after u
IsOutcome s (after, err e) = IsFailure s after e

module _ (y : Envoy) (set_snapshot : SetSnapshot) where
  set-IsOutcome :
      (s : Server) (b : Builder) (snapshot : Snapshot) (u : Summary) (refused : Option Error)
      → IsBuilt s.builder (b, ok (snapshot, u))
      → IsOutcome s (set_in_cache y set_snapshot (record s { builder = b }) snapshot u refused)
  set-IsOutcome s b snapshot u (some e) h = record {
    not_counted = refl;
    kept_node = refl;
    kept_listener = refl;
    cause = inr (record { snapshot = snapshot; asked = refl; shown = rw h.0 h.1 });
  }
  set-IsOutcome s b snapshot u none h = record {
    snapshot = snapshot;
    cached = refl;
    version = h.1;
    next_version = h.2;
    counted = refl;
    shown = h.0;
    kept_node = refl;
    kept_listener = refl;
  }

  after_build-IsOutcome :
      (s : Server) (r : Builder × Result (Snapshot × Summary))
      → IsBuilt s.builder r
      → IsOutcome s (after_build y set_snapshot s r)
  after_build-IsOutcome s (b, err e) h = record {
    not_counted = refl;
    kept_node = refl;
    kept_listener = refl;
    cause = inl (refl, h);
  }
  after_build-IsOutcome s (b, ok (snapshot, u)) h =
      set-IsOutcome s b snapshot u (set_snapshot s.cache s.node_id snapshot) h

  -- Where `Publish` returns a summary, the cache was asked once and accepted: a snapshot for the
  -- server's node with the summary's version, which is the builder's next one modulo 2^64; the
  -- publication was counted, and `Summary` returns that summary. Where it returns an error, nothing was
  -- counted, and either the cache was not asked and `Summary` is as before, or the cache was asked once
  -- for the server's node and returned that error, and yet `Summary` has the version of the refused
  -- snapshot. The node and the listener are the same in either case.
  pub publish-IsOutcome :
      (s : Server) (instances : List ServiceInstance) (now : ℕ)
      → IsOutcome s (publish y set_snapshot s instances now)
  unfolding publish
  publish-IsOutcome s instances now =
      after_build-IsOutcome s (build y s.builder instances now)
        (IsBuilt-build y s.builder instances now)
