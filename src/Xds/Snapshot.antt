-- ===== src/Xds/Snapshot.antt =====
-- xds/snapshot.go: `Builder`, which turns instances into one Envoy snapshot. The protobuf messages
-- are records with the fields that the source sets to anything but a constant.
pub mod Groups
pub mod Endpoints
pub mod Priority
pub mod Build
pub mod Published
pub mod Numbers
use sidecar_agent.Prelude.{
  ℕ, ◌+◌, ◌%◌, ◌^◌, Option, none, some, List, [], ◌∷◌, ◌++◌, map, if◌then◌else◌, ◌≡◌, refl,
}
use sidecar_agent.Prelude.Int.{ℤ, pos, uint32}
use sidecar_agent.Grouping.{collect}
use sidecar_agent.Sort.{sort_by}
use sidecar_agent.Text.{Text, codes, text_eq, trim_space, is_empty, decimal, format_int, scan_int}
use sidecar_agent.Text.Order.{text_order}
use sidecar_agent.Model.Error.{Error, Result, ok, err}
use sidecar_agent.Model.Service.{ServiceInstance}

-- Durations are in nanoseconds.
pub record BuilderSettings : Type 0 where
  pub node_id : Text
  pub listener_address : Text
  pub route_name : Text
  pub cluster_name_prefix : Text
  pub local_cluster : Text
  pub default_timeout : ℤ
  pub retry_attempts : ℕ
  pub per_try_timeout : ℤ
  pub max_connections : ℕ
  pub max_pending_requests : ℕ
  pub max_requests : ℕ
  pub consecutive_5xx : ℕ
  pub base_ejection_time : ℤ
  pub max_ejection_percent : ℕ

pub record Summary : Type 0 where
  pub version : ℕ
  pub listener_name : Text
  pub route_name : Text
  pub services : List Text
  pub cluster_count : ℕ
  pub endpoint_count : ℕ
  pub published_at : ℕ

pub record Builder : Type 0 where
  pub settings : BuilderSettings
  pub version : ℕ
  pub summary : Summary

-- `NewBuilder`
unfoldable pub new_builder : BuilderSettings → Builder
new_builder st = record {
  settings =
      if is_empty (trim_space st.cluster_name_prefix)
      then record st { cluster_name_prefix = codes "cluster" }
      else st;
  version = 0;
  summary = record {
    version = 0;
    listener_name = codes "local-listener";
    route_name = st.route_name;
    services = [];
    cluster_count = 0;
    endpoint_count = 0;
    published_at = 0;
  };
}

pub record ServiceGroup : Type 0 where
  pub name : Text
  pub namespace : Text
  pub dns : Text
  pub port : ℤ
  pub instances : List ServiceInstance

abbrev pub key_of : Text → Text → ℤ → Text
key_of name namespace port = name ++ b'|' ∷ (namespace ++ b'|' ∷ format_int port)

abbrev pub group_key : ServiceInstance → Text
group_key i = key_of i.name i.namespace i.port

abbrev pub fresh_group : ServiceInstance → ServiceGroup
fresh_group i = record {
  name = i.name;
  namespace = i.namespace;
  dns = i.dns;
  port = i.port;
  instances = [];
}

abbrev pub add_instance : ServiceGroup → ServiceInstance → ServiceGroup
add_instance g i = record g { instances = g.instances ++ i ∷ [] }

-- The map that the first loop of `groupInstances` fills.
unfoldable pub grouped : List ServiceInstance → List (Text × ServiceGroup)
grouped instances = collect group_key fresh_group add_instance instances []

-- The second loop; Go's order of a map is not fixed, and the sort makes up for that.
unfoldable pub group_instances : List ServiceInstance → List ServiceGroup
group_instances instances =
    sort_by text_order (λ g. key_of g.name g.namespace g.port) (map (λ e. e.1) (grouped instances))

unfoldable pub cluster_name : Builder → Text → Text → ℤ → Text
cluster_name b service namespace port =
    b.settings.cluster_name_prefix
    ++ b'.' ∷ (trim_space service ++ b'.' ∷ (trim_space namespace ++ b'.' ∷ format_int port))

pub record LbEndpoint : Type 0 where
  pub address : Text
  pub port_value : ℕ
  pub load_balancing_weight : ℕ

pub record LocalityLbEndpoints : Type 0 where
  pub zone : Text
  pub priority : ℕ
  pub lb_endpoints : List LbEndpoint

pub record ClusterLoadAssignment : Type 0 where
  pub cluster_name : Text
  pub endpoints : List LocalityLbEndpoints

abbrev pub endpoint_of : ServiceInstance → LbEndpoint
endpoint_of i = record {
  address = i.address;
  port_value = uint32 i.port;
  load_balancing_weight = uint32 i.weight;
}

-- Instances of the agent's own cluster come first.
abbrev pub priority_of : Builder → ServiceInstance → ℕ
priority_of b i =
    if text_eq (trim_space i.cluster) (trim_space b.settings.local_cluster) then 0 else 1

abbrev pub bucket_key : Builder → ServiceInstance → Text
bucket_key b i = i.zone ++ b'|' ∷ decimal (priority_of b i)

abbrev pub fresh_bucket : Builder → ServiceInstance → LocalityLbEndpoints
fresh_bucket b i = record { zone = i.zone; priority = priority_of b i; lb_endpoints = [] }

abbrev pub add_endpoint : LocalityLbEndpoints → ServiceInstance → LocalityLbEndpoints
add_endpoint l i = record l { lb_endpoints = l.lb_endpoints ++ endpoint_of i ∷ [] }

unfoldable pub locality_buckets : Builder → List ServiceInstance → List (Text × LocalityLbEndpoints)
locality_buckets b instances = collect (bucket_key b) (fresh_bucket b) add_endpoint instances []

-- `count++` for each instance.
unfoldable pub count_instances : List ServiceInstance → ℕ
count_instances [] = 0
count_instances (i ∷ instances) = 1 + count_instances instances

unfoldable pub build_load_assignment :
    Builder → Text → List ServiceInstance → ClusterLoadAssignment × ℕ
build_load_assignment b name instances = (
  record {
    cluster_name = name;
    endpoints =
        sort_by text_order (λ l. decimal l.priority ++ b'|' ∷ l.zone)
          (map (λ e. e.1) (locality_buckets b instances));
  },
  count_instances instances,
)

pub record Cluster : Type 0 where
  pub name : Text
  pub connect_timeout : ℤ
  pub max_connections : ℕ
  pub max_pending_requests : ℕ
  pub max_requests : ℕ
  pub consecutive_5xx : ℕ
  pub base_ejection_time : ℤ
  pub max_ejection_percent : ℕ

unfoldable pub build_cluster : Builder → Text → Cluster
build_cluster b name = record {
  name = name;
  connect_timeout = b.settings.default_timeout;
  max_connections = b.settings.max_connections;
  max_pending_requests = b.settings.max_pending_requests;
  max_requests = b.settings.max_requests;
  consecutive_5xx = b.settings.consecutive_5xx;
  base_ejection_time = b.settings.base_ejection_time;
  max_ejection_percent = b.settings.max_ejection_percent;
}

pub record VirtualHost : Type 0 where
  pub name : Text
  pub domains : List Text
  pub prefix : Text
  pub cluster : Text
  pub timeout : ℤ
  pub retry_on : Text
  pub num_retries : ℕ
  pub per_try_timeout : ℤ

unfoldable pub build_virtual_host : Builder → Text → Text → ℤ → VirtualHost
build_virtual_host b name dns port = record {
  name = name;
  domains = dns ∷ (dns ++ b':' ∷ format_int port) ∷ [];
  prefix = codes "/";
  cluster = name;
  timeout = b.settings.default_timeout;
  retry_on = codes "connect-failure,5xx,reset";
  num_retries = b.settings.retry_attempts;
  per_try_timeout = b.settings.per_try_timeout;
}
