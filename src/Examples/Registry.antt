-- ===== src/Examples/Registry.antt =====
-- Examples of the registry client.
use mathlib.Core.List.Permᴰ
use sidecar_agent.Prelude.{All, List, [], ◌∷◌, ◌≡◌, ◌≢◌, refl, Option, some, none, inl, arith}
use sidecar_agent.Prelude.Int.{pos}
use sidecar_agent.Text.{Text, codes, text_eq}
use sidecar_agent.Text.Equality.{text_eq_iff}
use sidecar_agent.Model.Error.{ok, err, route_conflict}
use sidecar_agent.Model.Request.{
  validate, validate_drain, grace_period, validate_deregister, RegisterRequest,
}
use sidecar_agent.Model.Route.{canonicalize, RouteDocument}
use sidecar_agent.Model.Service.{LocalService}
use sidecar_agent.Text.Split.{Lacks}
use sidecar_agent.Registry.Consul.{Outside, kv_get, time_now, service_deregister}
use sidecar_agent.Registry.Exec.{State}
use sidecar_agent.Registry.Exec.Rules.{Holds}
use sidecar_agent.Registry.Client.{local_key}
use sidecar_agent.Registry.Register.{register, route_doc, registration_for}
use sidecar_agent.Registry.Register.Outcome.{IsRegistered, register-IsRegistered}
use sidecar_agent.Registry.Register.Succeeds.{register-ok}
use sidecar_agent.Registry.Register.Conflict.{register_new_version, reference, retired}
use sidecar_agent.Registry.Lifecycle.{drain}
use sidecar_agent.Registry.Lifecycle.Outcome.{drain_lem, drain_end}
use sidecar_agent.Registry.Lifecycle.Listing.{local_services}
use sidecar_agent.Registry.Lease.{active_services, lease_tick, shutdown}
use sidecar_agent.Registry.Lease.Leaving.{HasLeft, shutdown-HasLeft}
use sidecar_agent.Registry.Lease.Cleanup.{clean_entries_lem, Cleaned}
use sidecar_agent.Registry.Discover.{discover, service_instance_from_entry}
use sidecar_agent.Registry.Discover.RoundTrip.{
  stored, advertised, service_instance_from_entry-registration_for,
}
use sidecar_agent.Registry.Discover.Usable.{IsListing, discover_lem}
use sidecar_agent.Registry.Tracked.{AllTracked}
use sidecar_agent.Registry.Tracked.Runs.{
  run, new_state, run-AllTracked, register_op, drain_op, deregister_op, start_op, Op,
}
use sidecar_agent.Registry.Tracked.Listed.{local_services_any_order}
use sidecar_agent.Examples.{
  orders, orders_v2, client, willing, running_orders, with_orders, drain_orders, deregister_orders,
  entry_of_run,
}

abbrev day : List Op
day =
    start_op
    ∷ register_op orders
    ∷ drain_op drain_orders
    ∷ register_op orders_v2
    ∷ deregister_op deregister_orders
    ∷ []

run-AllTracked_example : AllTracked client (run willing client day new_state).local_services
run-AllTracked_example = run-AllTracked willing client day

register-IsRegistered_example :
    Holds
      (λ v. IsRegistered orders v (register willing client orders with_orders).1.local_services)
      (register willing client orders with_orders).0
register-IsRegistered_example = register-IsRegistered willing client orders with_orders

register-ok_example : (v : LocalService) × ((register willing client orders with_orders).0 ≡ ok v)
unfolding validate sidecar_agent.Model.Request.check_required
    sidecar_agent.Model.Request.required_fields sidecar_agent.Text.trim_space
    sidecar_agent.Model.Request.check_methods sidecar_agent.Text.has_prefix
register-ok_example =
    register-ok willing (record { accepts = λ h call. refl; bytes = λ h. (_, refl) }) client orders
      with_orders refl (λ h. inl refl)

-- The store keeps the document of the first version.
abbrev keeping : Outside
keeping = record willing {
  kv_value = λ h key. ok (some (codes "document"));
  decode = λ t. ok (canonicalize (route_doc willing client orders 2));
}

other_version : codes "v1" ≢ codes "v2"
unfolding text_eq
other_version e = ground (arith, (text_eq_iff (codes "v1") (codes "v2")).1 e)

register_new_version_example : register keeping client orders_v2 with_orders ≡ (
  err (route_conflict (reference client orders_v2)),
  record (retired keeping running_orders with_orders) {
    history =
        kv_get (reference client orders_v2)
        ∷ time_now
        ∷ time_now
        ∷ service_deregister (codes "i1")
        ∷ [];
  },
)
unfolding validate sidecar_agent.Model.Request.check_required
    sidecar_agent.Model.Request.required_fields sidecar_agent.Text.trim_space
    sidecar_agent.Model.Request.check_methods sidecar_agent.Text.has_prefix
    sidecar_agent.Prelude.lookup sidecar_agent.Text.text_eq sidecar_agent.Registry.Client.local_key
    sidecar_agent.Text.format_int route_doc
register_new_version_example =
    register_new_version keeping client with_orders orders_v2 running_orders (codes "document") 2
      refl refl refl other_version refl refl refl refl

pub with_orders-AllTracked : AllTracked client with_orders.local_services
unfolding local_key sidecar_agent.Text.trim_space sidecar_agent.Text.format_int validate
    sidecar_agent.Model.Request.check_required sidecar_agent.Model.Request.required_fields
    sidecar_agent.Model.Request.check_methods sidecar_agent.Text.has_prefix
    sidecar_agent.Registry.Client.lease_check_id_for
    sidecar_agent.Model.Route.extract_route_prefixes
    sidecar_agent.Model.Strings.unique_sorted_strings sidecar_agent.Sort.sort_by
    sidecar_agent.Text.last_index text_eq sidecar_agent.Registry.Client.route_config_ref
    sidecar_agent.Text.trim_slashes
with_orders-AllTracked = record {
  each = (
    record {
      key_of = refl;
      valid = refl;
      owner = refl;
      run = refl;
      lease = refl;
      address = refl;
      prefixes = refl;
      document = refl;
      announced = ((λ e. cc), (λ e. cc));
    },
    tt,
  );
  one_per_key = (tt, tt);
}

shutdown-HasLeft_example :
    HasLeft client with_orders (shutdown willing client (λ l. l) with_orders).1
unfolding shutdown sidecar_agent.Registry.Lease.deregister_all active_services
    sidecar_agent.Registry.Exec.perform sidecar_agent.Registry.Exec.now
    sidecar_agent.Registry.Register.store_local_service
shutdown-HasLeft_example =
    shutdown-HasLeft willing client (λ l. l) (λ l. Permᴰ.refl l) with_orders with_orders-AllTracked
      refl

clean_entries_lem_example :
    Cleaned willing client
      (entry_of_run (codes "i0") (codes "run1") ∷ entry_of_run (codes "i1") (codes "run2") ∷ [])
      with_orders
clean_entries_lem_example =
    clean_entries_lem willing client (λ h call. refl)
      (entry_of_run (codes "i0") (codes "run1") ∷ entry_of_run (codes "i1") (codes "run2") ∷ [])
      with_orders

-- A catalog with one service, of which one instance is healthy.
abbrev stocked : Outside
stocked = record willing {
  service_names = λ h. ok (codes "orders" ∷ []);
  entries = λ h name passing. ok (none ∷ entry_of_run (codes "i1") (codes "run2") ∷ []);
}

discover_lem_example :
    Holds (IsListing stocked client) (discover stocked client with_orders).0
    × ((discover stocked client with_orders).1.local_services ≡ with_orders.local_services)
discover_lem_example = discover_lem stocked client with_orders

pub orders_prefixes : All (Lacks b',') running_orders.route_prefixes
orders_prefixes = (
  (
    refl,
    (
      refl,
      (refl, (refl, (refl, (refl, (refl, (refl, (refl, (refl, (refl, (refl, (refl, tt))))))))))),
    ),
  ),
  tt,
)

service_instance_from_entry-registration_for_example :
    service_instance_from_entry (
      some (record {
        node = none;
        service = some (stored (registration_for willing client running_orders));
      }))
    ≡ some (advertised client running_orders)
unfolding sidecar_agent.Text.trim_space
service_instance_from_entry-registration_for_example =
    service_instance_from_entry-registration_for willing client (codes "orders:9000") running_orders
      with_orders-AllTracked.each.0
      (record {
        node = none;
        service = some (stored (registration_for willing client running_orders));
      })
      refl refl refl orders_prefixes

drain_lem_example :
    drain willing drain_orders with_orders
    ≡ drain_end willing with_orders drain_orders (pos 5) (some running_orders) none
unfolding validate_drain grace_period sidecar_agent.Text.trim_space sidecar_agent.Prelude.lookup
    sidecar_agent.Text.text_eq sidecar_agent.Registry.Client.local_key sidecar_agent.Text.format_int
drain_lem_example =
    drain_lem willing with_orders drain_orders (pos 5) refl refl (some running_orders) refl

local_services_any_order_example :
    local_services (run willing client day new_state).local_services
    ≡ local_services (run willing client day new_state).local_services
local_services_any_order_example =
    local_services_any_order willing client day (run willing client day new_state).local_services
      (Permᴰ.refl (run willing client day new_state).local_services)
