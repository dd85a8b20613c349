-- ===== src/Registry/Within/Methods.antt =====
-- The methods of the client, by their steps.
use sidecar_agent.Prelude.{true, false, Option, none, some, List, [], ◌∷◌, ◌++◌, if◌then◌else◌}
use sidecar_agent.Prelude.Int.{ℤ}
use sidecar_agent.Text.{Text}
use sidecar_agent.Text.Order.{text_order}
use sidecar_agent.Sort.{sort_by}
use sidecar_agent.Model.Request.{
  RegisterRequest, DrainRequest, DeregisterRequest, validate, validate_drain, validate_deregister,
  grace_period,
}
use sidecar_agent.Model.Service.{LocalService, ServiceInstance}
use sidecar_agent.Registry.Consul.{service_deregister, AgentService, ServiceEntry, Outside}
use sidecar_agent.Registry.Exec.{State, pure, perform}
use sidecar_agent.Registry.Client.{Client, ensure_usable, same_register_request}
use sidecar_agent.Registry.Register.{
  local_service, store_local_service, replay, retire, announce, register_new, register_over,
  register, is_deregistered,
}
use sidecar_agent.Registry.Lifecycle.{found, drain_service, drain, deregister_service, deregister}
use sidecar_agent.Registry.Discover.{instance_key, instances_of, discover_services, discover}
use sidecar_agent.Registry.Lease.{
  is_stale, clean_entry, clean_entries, clean_services, cleanup_previous_runs, start,
  deregister_all,
}
use sidecar_agent.Registry.Within.{
  Allows, Within, Within-pure, Within-fail, Within-lift, Within-check, Within-if, Within-bind,
  now-Within, deregistration-Within, get_services-Within, get_entries-Within,
  new_instance_id-Within, pass_lease-Within, ensure_route_document-Within,
}

module _ {R : State → State → Type 0} (a : Allows R) (o : Outside) where
  local_service-Within : (name : Text) (port : ℤ) → Within R (local_service name port)
  unfolding local_service
  local_service-Within name port = record { at = λ s. a.nothing s }

  found-Within :
      (name : Text) (port : ℤ) (existing : Option LocalService)
      → Within R (found name port existing)
  unfolding found
  found-Within name port none = Within-fail a _
  found-Within name port (some v) = Within-pure a v

  pub drain-Within :
      ((k : Text) (grace : ℤ) (v : LocalService) → Within R (drain_service o k grace v))
      → (request : DrainRequest) → Within R (drain o request)
  unfolding drain
  drain-Within step request =
      Within-bind a (Within-check a (validate_drain o.parse_duration request)) λ u.
        Within-bind a (Within-lift a (grace_period o.parse_duration request)) λ grace.
          Within-bind a (local_service-Within request.name request.port) λ existing.
            Within-bind a (found-Within request.name request.port existing) λ v. step _ grace v

  pub deregister-Within :
      ((k : Text) (v : LocalService) → Within R (deregister_service o k v))
      → (request : DeregisterRequest) → Within R (deregister o request)
  unfolding deregister
  deregister-Within step request = Within-bind a (Within-check a (validate_deregister request)) λ u.
      Within-bind a (local_service-Within request.name request.port)
        λ existing. Within-bind a (found-Within request.name request.port existing) λ v. step _ v

  module _ (c : Client) where
    clean_entry-Within : (entry : Option ServiceEntry) → Within R (clean_entry o c entry)
    unfolding clean_entry
    clean_entry-Within none = Within-pure a tt
    clean_entry-Within (some entry) = by_service entry.service
      where
        by_service :
            (found : Option AgentService)
            → Within R (elim found [
              | none ↦ pure tt
              | some service ↦
                  if is_stale o c service
                  then perform o (service_deregister service.id)
                  else pure tt
            ])
        by_service none = Within-pure a tt
        by_service (some service) =
            Within-if a (is_stale o c service) (deregistration-Within a o service.id)
              (Within-pure a tt)

    clean_entries-Within :
        (entries : List (Option ServiceEntry)) → Within R (clean_entries o c entries)
    unfolding clean_entries
    clean_entries-Within [] = Within-pure a tt
    clean_entries-Within (entry ∷ entries) =
        Within-bind a (clean_entry-Within entry) λ u. clean_entries-Within entries

    clean_services-Within : (names : List Text) → Within R (clean_services o c names)
    unfolding clean_services
    clean_services-Within [] = Within-pure a tt
    clean_services-Within (name ∷ names) =
        Within-bind a (get_entries-Within a o name false)
          λ entries. Within-bind a (clean_entries-Within entries) λ u. clean_services-Within names

    -- The start of the loop concerns the map and the calls of none.
    pub start-Within : ((s : State) → R s (record s { running = true })) → Within R (start o c)
    unfolding start cleanup_previous_runs
    start-Within running = Within-bind a (Within-check a (ensure_usable c)) λ u.
        Within-bind a (Within-bind a (get_services-Within a o) λ names. clean_services-Within names)
          λ u. record { at = running }

    discover_services-Within :
        (names : List Text) (instances : List ServiceInstance)
        → Within R (discover_services o c names instances)
    unfolding discover_services
    discover_services-Within [] instances = Within-pure a instances
    discover_services-Within (name ∷ names) instances =
        Within-bind a (get_entries-Within a o name true)
          λ entries. discover_services-Within names (instances ++ instances_of o c entries)

    pub discover-Within : Within R (discover o c)
    unfolding discover
    discover-Within = Within-bind a (get_services-Within a o) λ names.
        Within-bind a (discover_services-Within names [])
          λ instances. Within-pure a (sort_by text_order instance_key instances)

    -- What may be stored, and how an announcement ends.
    module _ (stores : (v : LocalService) → Within R (store_local_service v))
        (announces : (v : LocalService) → Within R (announce o c v)) where
      replay-Within : (v : LocalService) → Within R (replay o c v)
      unfolding replay
      replay-Within v = Within-bind a (pass_lease-Within a o c v) λ u.
          Within-bind a (now-Within a o) λ t.
            Within-bind a (stores (record v { updated_at = t }))
              λ u. Within-pure a (record v { updated_at = t })

      retire-Within : (v : LocalService) → Within R (retire o c v)
      unfolding retire
      retire-Within v =
          Within-bind a (deregistration-Within a o v.instance_id)
            λ u. Within-bind a (now-Within a o) λ t. stores _

      register_new-Within : (request : RegisterRequest) → Within R (register_new o c request)
      unfolding register_new
      register_new-Within request = Within-bind a (now-Within a o) λ t.
          Within-bind a (ensure_route_document-Within a o c _ _) λ u.
            Within-bind a (new_instance_id-Within a o)
              λ id. Within-bind a (now-Within a o) λ t'. announces _

      register_over-Within :
          (request : RegisterRequest) (existing : Option LocalService)
          → Within R (register_over o c request existing)
      unfolding register_over
      register_over-Within request none = register_new-Within request
      register_over-Within request (some v) =
          Within-if a (is_deregistered v.state) (register_new-Within request) (
            Within-if a (same_register_request v.request request) (replay-Within v)
              (Within-bind a (retire-Within v) λ u. register_new-Within request))

      pub register-Within : (request : RegisterRequest) → Within R (register o c request)
      unfolding register
      register-Within request = Within-bind a (Within-check a (validate request)) λ u.
          Within-bind a (local_service-Within request.name request.port)
            λ existing. register_over-Within request existing

      pub deregister_all-Within :
          (services : List LocalService) → Within R (deregister_all o c services)
      unfolding deregister_all
      deregister_all-Within [] = Within-pure a tt
      deregister_all-Within (v ∷ services) =
          Within-bind a (deregistration-Within a o v.instance_id) λ u.
            Within-bind a (now-Within a o)
              λ t. Within-bind a (stores _) λ u. deregister_all-Within services
