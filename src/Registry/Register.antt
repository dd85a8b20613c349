-- ===== src/Registry/Register.antt =====
-- `Client.Register`. Spans and logs are left out. The handler is one action: what a second request
-- does between its steps is not modelled.
pub mod Outcome
pub mod Same
pub mod Conflict
pub mod Succeeds
use sidecar_agent.Prelude.{
  ℕ, Bool, true, false, not, Option, none, some, List, [], ◌∷◌, ◌++◌, if◌then◌else◌, lookup, insert,
  ◌≡◌, refl,
}
use sidecar_agent.Prelude.Int.{ℤ}
use sidecar_agent.Text.{Text, codes, trim_space, format_int, join, is_empty}
use sidecar_agent.Text.Equality.{text_key}
use sidecar_agent.Model.Error.{Error, route_conflict, Result, ok, err}
use sidecar_agent.Model.Request.{RegisterRequest, validate}
use sidecar_agent.Model.Route.{RouteDocument, canonicalize, equal, extract_route_prefixes}
use sidecar_agent.Model.Strings.{unique_sorted_strings}
use sidecar_agent.Model.Service.{LocalService, ServiceState, registered, serving, deregistered}
use sidecar_agent.Registry.Consul.{
  AgentServiceCheck, AgentServiceRegistration, service_register, service_deregister, update_ttl,
  kv_put, inc_register, Outside,
}
use sidecar_agent.Registry.Exec.{
  State, Exec, pure, fail, lift, check, ◌>>=◌, ◌>>◌, perform, now, get_value, count,
}
use sidecar_agent.Registry.Client.{
  Client, local_key, route_config_ref, lease_check_id_for, same_register_request, new_instance_id,
}

-- `localService`
unfoldable pub local_service : Text → ℤ → Exec (Option LocalService)
local_service name port s = (ok (lookup (local_key name port) s.local_services), s)

-- `storeLocalService`
unfoldable pub store_local_service : LocalService → Exec (Unit {0})
store_local_service service s = (
  ok tt,
  record s {
    local_services =
        insert (local_key service.request.name service.request.port) service s.local_services;
  },
)

abbrev pub is_deregistered : ServiceState → Bool
is_deregistered deregistered = true
is_deregistered _ = false

module _ (o : Outside) (c : Client) where
  -- `registrationFor`
  unfoldable pub registration_for : LocalService → AgentServiceRegistration
  registration_for service = record {
    id = service.instance_id;
    name = service.request.name;
    address = service.address;
    port = service.request.port;
    tags = (codes "cluster=" ++ trim_space c.settings.cluster_name) ∷ [];
    meta =
        (codes "app_id", service.request.app_id)
        ∷ (codes "app_name", service.request.app_name)
        ∷ (codes "agent_id", service.agent_id)
        ∷ (codes "agent_run_id", service.agent_run_id)
        ∷ (codes "agent_host_ip", service.address)
        ∷ (codes "agent_started_at", o.format_time c.started_at)
        ∷ (codes "namespace", service.request.namespace)
        ∷ (codes "dns", service.request.dns)
        ∷ (codes "env", service.request.env)
        ∷ (codes "zone", service.zone)
        ∷ (codes "weight", format_int service.request.weight)
        ∷ (codes "route_prefixes", join b',' service.route_prefixes)
        ∷ (codes "version", service.request.version)
        ∷ (codes "protocol", service.request.protocol)
        ∷ (codes "kernel_language", service.request.kernel.language)
        ∷ (codes "kernel_version", service.request.kernel.version)
        ∷ (codes "route_config_ref", service.route_config_ref)
        ∷ (codes "instance_id", service.instance_id)
        ∷ (codes "run_date", o.format_time service.registered_at)
        ∷ [];
    checks =
        record {
          check_id = codes "service:" ++ (service.instance_id ++ codes ":tcp");
          tcp = service.address ++ b':' ∷ format_int service.request.port;
          interval = codes "10s";
          ttl = [];
          deregister_critical_service_after =
              o.format_duration c.settings.deregister_critical_service_after;
        }
        ∷ record {
          check_id = service.lease_check_id;
          tcp = [];
          interval = [];
          ttl = o.format_duration c.settings.agent_lease_ttl;
          deregister_critical_service_after =
              o.format_duration c.settings.deregister_critical_service_after;
        }
        ∷ [];
  }

  -- `passLease`
  unfoldable pub pass_lease : LocalService → Exec (Unit {0})
  pass_lease service =
      perform o
        (update_ttl service.lease_check_id (codes "agent ownership is healthy") (codes "passing"))

  -- The comparison with the document that is stored; no value and an empty one are passed over.
  unfoldable pub compare_stored : Text → RouteDocument → RouteDocument → Exec (Unit {0})
  compare_stored key doc existing =
      if not (equal existing doc) then fail (route_conflict key) else pure tt

  unfoldable pub check_stored : Text → RouteDocument → Option Text → Exec (Unit {0})
  check_stored key doc none = pure tt
  check_stored key doc (some value) =
      if is_empty value
      then pure tt
      else (do existing ← lift (o.decode value); compare_stored key doc existing)

  -- `ensureRouteDocument`
  unfoldable pub ensure_route_document : Text → RouteDocument → Exec (Unit {0})
  ensure_route_document key doc = do
    stored ← get_value o key
    check_stored key doc stored
    perform o (kv_put key (o.encode (canonicalize doc)))

  -- The service is registered again as it is: only its lease is refreshed.
  unfoldable pub replay : LocalService → Exec LocalService
  replay existing = do
    pass_lease existing
    t ← now o
    let service = record existing { updated_at = t }
    store_local_service service
    pure service

  -- The old instance of a service whose registration has changed.
  unfoldable pub retire : LocalService → Exec (Unit {0})
  retire existing = do
    perform o (service_deregister existing.instance_id)
    t ← now o
    store_local_service (record existing { state = deregistered; updated_at = t })

  unfoldable pub route_doc : RegisterRequest → ℕ → RouteDocument
  route_doc request t = record {
    service = request.name;
    version = request.version;
    updated_at = t;
    namespace = request.namespace;
    port = request.port;
    protocol = request.protocol;
    prefixes = extract_route_prefixes request.methods;
    exact_paths = unique_sorted_strings request.methods;
  }

  unfoldable pub new_service : RegisterRequest → Text → ℕ → LocalService
  new_service request instance_id t = record {
    request = request;
    instance_id = instance_id;
    agent_id = c.agent_id;
    agent_run_id = c.agent_run_id;
    address = trim_space c.settings.host_ip;
    zone = trim_space c.settings.zone;
    route_prefixes = extract_route_prefixes request.methods;
    route_config_ref = route_config_ref c request.env request.namespace request.name;
    lease_check_id = lease_check_id_for instance_id;
    state = registered;
    registered_at = t;
    updated_at = t;
    drain_deadline = none;
  }

  -- The instance is written to Consul, its lease is passed and it is kept as serving.
  unfoldable pub announce : LocalService → Exec LocalService
  announce service = do
    perform o (service_register (registration_for service))
    pass_lease service
    t ← now o
    let served = record service { state = serving; updated_at = t }
    store_local_service served
    count inc_register
    pure served

  unfoldable pub register_new : RegisterRequest → Exec LocalService
  register_new request = do
    t ← now o
    ensure_route_document (route_config_ref c request.env request.namespace request.name)
        (route_doc request t)
    instance_id ← new_instance_id o
    t' ← now o
    announce (new_service request instance_id t')

  unfoldable pub register_over : RegisterRequest → Option LocalService → Exec LocalService
  register_over request none = register_new request
  register_over request (some existing) =
      if is_deregistered existing.state
      then register_new request
      else if same_register_request existing.request request
      then replay existing
      else (do retire existing; register_new request)

  unfoldable pub register : RegisterRequest → Exec LocalService
  register request = do
    check (validate request)
    existing ← local_service request.name request.port
    register_over request existing
