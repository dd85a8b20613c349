-- ===== src/Xds/Server.antt =====
-- xds/server.go: `Server`, which keeps the snapshots in a cache of go-control-plane and serves them
-- over gRPC. Spans and logs are left out; a call under the lock is one action.
pub mod Outcome
use sidecar_agent.Prelude.{
  ℕ, ◌+◌, Bool, true, false, Option, none, some, List, [], ◌∷◌, if◌then◌else◌, ◌≡◌, ◌⊎◌, inl, inr,
  refl, sym, ◌∙◌, ap, arith,
}
use sidecar_agent.Text.{Text}
use sidecar_agent.Model.Error.{Error, Result, ok, err}
use sidecar_agent.Model.Service.{ServiceInstance}
use sidecar_agent.Xds.Snapshot.{Builder, Summary}
use sidecar_agent.Xds.Snapshot.Build.{Envoy, Snapshot, build}

-- A call of `SetSnapshot` of go-control-plane, with the error that it returned, if any.
pub record SetCall : Type 0 where
  pub node : Text
  pub snapshot : Snapshot
  pub refused : Option Error

-- `SetSnapshot`: what it returns after the earlier calls, the latest first.
abbrev pub SetSnapshot : Type 0
SetSnapshot = List SetCall → Text → Snapshot → Option Error

-- `cache` has all calls of `SetSnapshot`, the latest first: what the cache holds after them, a refused
-- one included, is up to go-control-plane.
pub record Server : Type 0 where
  pub node_id : Text
  pub builder : Builder
  pub cache : List SetCall
  pub publish_total : ℕ
  -- the gRPC server listens
  pub started : Bool

-- `NewServer`, for a builder that is there; the source has no other call.
unfoldable pub new_server : Builder → Server
new_server b = record {
  node_id = b.settings.node_id;
  builder = b;
  cache = [];
  publish_total = 0;
  started = false;
}

-- `Start`, for what `net.Listen` returns.
unfoldable pub start : Option Error → Server → Option Error × Server
start listen s =
    if s.started
    then (none, s)
    else elim listen [ some e ↦ (some e, s) | none ↦ (none, record s { started = true }) ]

-- `Stop`
unfoldable pub stop : Server → Server
stop s = if s.started then record s { started = false } else s

-- `Summary`
abbrev pub summary : Server → Summary
summary s = s.builder.summary

module _ (y : Envoy) (set_snapshot : SetSnapshot) where
  -- After the call.
  abbrev pub after_set : Server → Summary → Option Error → Server × Result Summary
  after_set s u (some e) = (s, err e)
  after_set s u none = (record s { publish_total = s.publish_total + 1 }, ok u)

  abbrev pub set_in_cache : Server → Snapshot → Summary → Option Error → Server × Result Summary
  set_in_cache s snapshot u refused =
      let call : SetCall = record { node = s.node_id; snapshot = snapshot; refused = refused } in
      after_set (record s { cache = call ∷ s.cache }) u refused

  abbrev pub after_build : Server → Builder × Result (Snapshot × Summary) → Server × Result Summary
  after_build s (b, err e) = (record s { builder = b }, err e)
  after_build s (b, ok (snapshot, u)) =
      set_in_cache (record s { builder = b }) snapshot u (set_snapshot s.cache s.node_id snapshot)

  -- `Publish`
  unfoldable pub publish : Server → List ServiceInstance → ℕ → Server × Result Summary
  publish s instances now = after_build s (build y s.builder instances now)
