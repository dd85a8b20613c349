-- ===== src/Xds/Snapshot/Build.antt =====
-- `Build`, `buildListener` and the operations of a builder.
use sidecar_agent.Prelude.{
  ◌==◌, ◌&&◌, not, if◌then◌else◌, ◌≡◌, refl, ℕ, ◌+◌, ◌%◌, ◌^◌, Option, none, some, List, [], ◌∷◌,
  ◌++◌, length,
}
use sidecar_agent.Prelude.Int.{ℤ, pos, uint32}
use sidecar_agent.Sort.{sort_by}
use sidecar_agent.Text.{Text, is_space, codes, decimal, scan_int}
use sidecar_agent.Text.Order.{text_order}
use sidecar_agent.Model.Error.{Error, Result, ok, err}
use sidecar_agent.Model.Service.{ServiceInstance}
use sidecar_agent.Xds.Snapshot.{
  Builder, Summary, ServiceGroup, group_instances, cluster_name, Cluster, build_cluster,
  VirtualHost, build_virtual_host, ClusterLoadAssignment, build_load_assignment,
}

pub record Listener : Type 0 where
  pub name : Text
  pub address : Text
  pub port_value : ℕ
  pub route_config_name : Text

pub record RouteConfiguration : Type 0 where
  pub name : Text
  pub virtual_hosts : List VirtualHost

pub record Snapshot : Type 0 where
  pub version : Text
  pub endpoints : List ClusterLoadAssignment
  pub clusters : List Cluster
  pub route_config : RouteConfiguration
  pub listener : Listener

-- `net.SplitHostPort`, and the refusals of `cachev3.NewSnapshot` and of `Consistent`.
pub record Envoy : Type 0 where
  pub split_host_port : Text → Result (Text × Text)
  pub new_snapshot : Snapshot → Option Error
  pub consistent : Snapshot → Option Error

-- `%d` of `Sscanf` skips blanks, but not the end of a line.
unfoldable pub scan_after_blanks : Text → Option ℤ
scan_after_blanks [] = none
scan_after_blanks (c ∷ s) =
    let rest = scan_after_blanks s in if is_space c && not (c == 10) then rest else scan_int (c ∷ s)

test_blanks : scan_after_blanks (codes " 80") ≡ some (pos 80)
unfolding scan_after_blanks scan_int is_space
test_blanks = refl

-- A failed scan leaves the zero.
abbrev parse_port : Text → ℕ
parse_port raw = elim (scan_after_blanks raw) [ none ↦ 0 | some n ↦ uint32 n ]

abbrev pub listener_at : Builder → Text → Text → Listener
listener_at b host port = record {
  name = codes "local-listener";
  address = host;
  port_value = parse_port port;
  route_config_name = b.settings.route_name;
}

-- The resources that the loop of `Build` appends to.
pub record Resources : Type 0 where
  pub clusters : List Cluster
  pub endpoints : List ClusterLoadAssignment
  pub virtual_hosts : List VirtualHost
  pub service_names : List Text
  pub endpoint_count : ℕ

abbrev pub no_resources : Resources
no_resources = record {
  clusters = [];
  endpoints = [];
  virtual_hosts = [];
  service_names = [];
  endpoint_count = 0;
}

abbrev pub add_group : Builder → Resources → ServiceGroup → Resources
add_group b r g =
    let name = cluster_name b g.name g.namespace g.port in
    let (load_assignment, count) = build_load_assignment b name g.instances in
    record {
      clusters = r.clusters ++ build_cluster b name ∷ [];
      endpoints = r.endpoints ++ load_assignment ∷ [];
      virtual_hosts = r.virtual_hosts ++ build_virtual_host b name g.dns g.port ∷ [];
      service_names = r.service_names ++ (g.name ++ b'.' ∷ g.namespace) ∷ [];
      endpoint_count = r.endpoint_count + count;
    }

unfoldable pub add_groups : Builder → Resources → List ServiceGroup → Resources
add_groups b r [] = r
add_groups b r (g ∷ groups) = add_groups b (add_group b r g) groups

module _ (y : Envoy) where
  unfoldable pub build_listener : Builder → Result Listener
  build_listener b = elim (y.split_host_port b.settings.listener_address) [
    | err e ↦ err e
    | ok (host, port) ↦ ok (listener_at b host port)
  ]

  abbrev pub snapshot_of : Builder → ℕ → Resources → Listener → Snapshot
  snapshot_of b version r listener = record {
    version = decimal version;
    endpoints = r.endpoints;
    clusters = r.clusters;
    route_config = record { name = b.settings.route_name; virtual_hosts = r.virtual_hosts };
    listener = listener;
  }

  abbrev pub summary_of : Builder → ℕ → Resources → ℕ → Summary
  summary_of b version r now = record {
    version = version;
    listener_name = codes "local-listener";
    route_name = b.settings.route_name;
    services = sort_by text_order (λ s. s) r.service_names;
    cluster_count = length r.clusters;
    endpoint_count = r.endpoint_count;
    published_at = now;
  }

  -- From `version.Add` on: the counter is of 64 bits, and it advances even where the snapshot is refused.
  unfoldable pub publish :
      Builder → Resources → Listener → ℕ → Builder × Result (Snapshot × Summary)
  publish b r listener now =
      let version = (b.version + 1) % 2 ^ 64 in
      let advanced = record b { version = version } in
      let snapshot = snapshot_of b version r listener in
      let summary = summary_of b version r now in
      elim (y.new_snapshot snapshot) [
        | some e ↦ (advanced, err e)
        | none ↦ elim (y.consistent snapshot) [
          | some e ↦ (advanced, err e)
          | none ↦ (record advanced { summary = summary }, ok (snapshot, summary))
        ]
      ]

  unfoldable pub build : Builder → List ServiceInstance → ℕ → Builder × Result (Snapshot × Summary)
  build b instances now =
      let resources = add_groups b no_resources (group_instances instances) in
      elim (build_listener b) [
        | err e ↦ (b, err e)
        | ok listener ↦ publish b resources listener now
      ]
