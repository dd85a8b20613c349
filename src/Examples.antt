-- ===== src/Examples.antt =====
-- The theorems at concrete inputs.
pub mod Model
pub mod Registry
pub mod Publishing
pub mod Config
pub mod Servers
pub mod Envoy
pub mod Live
use sidecar_agent.Prelude.{ℕ, Bool, true, false, Option, none, some, List, [], ◌∷◌, ◌≡◌, refl}
use sidecar_agent.Prelude.Int.{ℤ, pos}
use sidecar_agent.Text.{Text, codes}
use sidecar_agent.Model.Error.{Error, Result, ok, err, external}
use sidecar_agent.Model.Request.{KernelInfo, RegisterRequest, DrainRequest, DeregisterRequest}
use sidecar_agent.Model.Service.{LocalService, serving, ServiceInstance}
use sidecar_agent.Registry.Consul.{Outside, AgentService, ServiceEntry}
use sidecar_agent.Registry.Exec.{State}
use sidecar_agent.Registry.Client.{Client, Settings}

abbrev pub orders : RegisterRequest
orders = record {
  app_id = codes "shop";
  app_name = codes "Shop";
  name = codes "orders";
  namespace = codes "eu";
  port = pos 9000;
  dns = codes "orders.eu";
  env = codes "prod";
  weight = pos 10;
  protocol = codes "grpc";
  kernel = record { language = codes "go"; version = codes "1" };
  methods = codes "/shop.Orders/Get" ∷ codes "/shop.Orders/Put" ∷ [];
  version = codes "v1";
}

abbrev pub orders_v2 : RegisterRequest
orders_v2 = record orders { version = codes "v2" }

abbrev pub client : Client
client = record {
  settings = record {
    route_kv_prefix = codes "routes/";
    cluster_name = codes "c1";
    zone = codes "z1";
    host_ip = codes "10.0.0.1";
    env = codes "prod";
    agent_lease_ttl = pos 15;
    deregister_critical_service_after = pos 60;
  };
  agent_id = codes "c1:z1:10.0.0.1";
  agent_run_id = codes "run2";
  started_at = 1;
  has_agent = true;
  has_health = true;
  has_catalog = true;
  has_kv = true;
}

-- A Consul that takes everything and has nothing stored.
abbrev pub willing : Outside
willing = record {
  reply = λ h call. none;
  kv_value = λ h key. ok none;
  service_names = λ h. ok [];
  entries = λ h name passing. ok [];
  clock = λ h. 7;
  random = λ h. ok (1 ∷ 2 ∷ 3 ∷ 4 ∷ 5 ∷ 6 ∷ 7 ∷ 8 ∷ 9 ∷ 10 ∷ 11 ∷ 12 ∷ 13 ∷ 14 ∷ 15 ∷ 16 ∷ []);
  parse_duration = λ t. ok (pos 5);
  format_duration = λ n. codes "15s";
  format_time = λ n. codes "now";
  encode = λ d. codes "document";
  decode = λ t. err (external (codes "no document"));
}

abbrev pub running_orders : LocalService
running_orders = record {
  request = orders;
  instance_id = codes "i1";
  agent_id = codes "c1:z1:10.0.0.1";
  agent_run_id = codes "run2";
  address = codes "10.0.0.1";
  zone = codes "z1";
  route_prefixes = codes "/shop.Orders/" ∷ [];
  route_config_ref = codes "routes/prod/eu/orders/current";
  lease_check_id = codes "service:i1:agent-lease";
  state = serving;
  registered_at = 2;
  updated_at = 3;
  drain_deadline = none;
}

abbrev pub with_orders : State
with_orders = record {
  local_services = (codes "orders:9000", running_orders) ∷ [];
  running = true;
  history = [];
}

abbrev pub drain_orders : DrainRequest
drain_orders = record { name = codes "orders"; port = pos 9000; grace_period_raw = codes "5ns" }

abbrev pub deregister_orders : DeregisterRequest
deregister_orders = record { name = codes "orders"; port = pos 9000 }

abbrev pub entry_of_run : Text → Text → Option ServiceEntry
entry_of_run id run = some (record {
  node = none;
  service = some (record {
    id = id;
    service = codes "orders";
    address = codes "10.0.0.1";
    port = pos 9000;
    tags = [];
    meta = (codes "agent_id", codes "c1:z1:10.0.0.1") ∷ (codes "agent_run_id", run) ∷ [];
  });
})

abbrev pub instance_in : Text → Text → Text → ServiceInstance
instance_in id zone cluster = record {
  instance_id = id;
  name = codes "orders";
  namespace = codes "eu";
  dns = codes "orders.eu";
  env = codes "prod";
  zone = zone;
  version = codes "v1";
  protocol = codes "grpc";
  address = codes "10.0.0.1";
  port = pos 9000;
  weight = pos 10;
  cluster = cluster;
  route_config_ref = codes "routes/prod/eu/orders/current";
  route_prefixes = codes "/shop.Orders/" ∷ [];
}
