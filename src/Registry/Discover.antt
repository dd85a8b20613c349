-- ===== src/Registry/Discover.antt =====
-- `Client.Discover`: the healthy instances of this environment.
pub mod Usable
pub mod RoundTrip
use sidecar_agent.Prelude.{true, not, ◌||◌, Option, none, some, List, [], ◌∷◌, ◌++◌, if◌then◌else◌}
use sidecar_agent.Prelude.Int.{ℤ, pos, leb_int}
use sidecar_agent.Sort.{sort_by}
use sidecar_agent.Text.{
  Text, codes, text_eq, trim_space, is_empty, has_prefix, trim_prefix, split, format_int, scan_int,
}
use sidecar_agent.Text.Order.{text_order}
use sidecar_agent.Model.Strings.{unique_sorted_strings}
use sidecar_agent.Model.Service.{ServiceInstance}
use sidecar_agent.Registry.Consul.{AgentService, ServiceEntry, Outside}
use sidecar_agent.Registry.Exec.{Exec, pure, ◌>>=◌, get_services, get_entries}
use sidecar_agent.Registry.Client.{Client}
use sidecar_agent.Registry.Lease.{meta_value}

-- `parsePositiveInt`
unfoldable pub parse_positive_int : Text → ℤ → ℤ
parse_positive_int raw fallback = elim (scan_int (trim_space raw)) [
  | none ↦ fallback
  | some value ↦ if leb_int value (pos 0) then fallback else value
]

-- `clusterFromTags`
unfoldable pub cluster_from_tags : List Text → Text
cluster_from_tags [] = []
cluster_from_tags (tag ∷ tags) =
    let rest = cluster_from_tags tags in
    if has_prefix (trim_space tag) (codes "cluster=")
    then trim_prefix (trim_space tag) (codes "cluster=")
    else rest

-- The service's address, or else the node's.
unfoldable pub entry_address : AgentService → Option Text → Text
entry_address service node =
    let address = trim_space service.address in
    if is_empty address then (elim node [ none ↦ address | some n ↦ trim_space n ]) else address

unfoldable pub instance_of : AgentService → Text → ServiceInstance
instance_of service address = record {
  instance_id = meta_value (codes "instance_id") service.meta;
  name = service.service;
  namespace = meta_value (codes "namespace") service.meta;
  dns = meta_value (codes "dns") service.meta;
  env = meta_value (codes "env") service.meta;
  zone = meta_value (codes "zone") service.meta;
  version = meta_value (codes "version") service.meta;
  protocol = meta_value (codes "protocol") service.meta;
  address = address;
  port = service.port;
  weight = parse_positive_int (meta_value (codes "weight") service.meta) (pos 100);
  cluster = cluster_from_tags service.tags;
  route_config_ref = meta_value (codes "route_config_ref") service.meta;
  route_prefixes =
      unique_sorted_strings (split b',' (meta_value (codes "route_prefixes") service.meta));
}

instance_at : AgentService → Text → Option ServiceInstance
instance_at service address =
    if is_empty address || leb_int service.port (pos 0)
    then none
    else some (instance_of service address)

-- `serviceInstanceFromEntry`; `false` is `none`.
unfoldable pub service_instance_from_entry : Option ServiceEntry → Option ServiceInstance
unfolding instance_at
service_instance_from_entry none = none
service_instance_from_entry (some entry) = elim entry.service [
  | none ↦ none
  | some service ↦ instance_at service (entry_address service entry.node)
]

-- The key of the final sort.
unfoldable pub instance_key : ServiceInstance → Text
instance_key i = i.name ++ b'|' ∷ (i.namespace ++ b'|' ∷ (i.address ++ b'|' ∷ format_int i.port))

module _ (o : Outside) (c : Client) where
  keep_in_env : Option ServiceInstance → List ServiceInstance → List ServiceInstance
  keep_in_env none rest = rest
  keep_in_env (some i) rest =
      if not (text_eq (trim_space i.env) (trim_space c.settings.env)) then rest else i ∷ rest

  -- What the inner loop appends.
  unfoldable pub instances_of : List (Option ServiceEntry) → List ServiceInstance
  unfolding keep_in_env
  instances_of [] = []
  instances_of (entry ∷ entries) =
      keep_in_env (service_instance_from_entry entry) (instances_of entries)

  unfoldable pub discover_services : List Text → List ServiceInstance → Exec (List ServiceInstance)
  discover_services [] instances = pure instances
  discover_services (name ∷ names) instances = do
    entries ← get_entries o name true
    discover_services names (instances ++ instances_of entries)

  unfoldable pub discover : Exec (List ServiceInstance)
  discover = do
    names ← get_services o
    instances ← discover_services names []
    pure (sort_by text_order instance_key instances)
