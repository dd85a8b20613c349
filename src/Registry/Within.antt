-- ===== src/Registry/Within.antt =====
-- What an action does to the state, as a relation that each of its steps stays within: one traversal of
-- the client's methods for all such relations.
pub mod Methods
use sidecar_agent.Prelude.{
  Bool, true, false, not, Option, none, some, List, [], ◌∷◌, ◌++◌, if◌then◌else◌,
}
use sidecar_agent.Text.{Text, is_empty}
use sidecar_agent.Text.Order.{text_order}
use sidecar_agent.Sort.{sort_by}
use sidecar_agent.Model.Error.{Error, route_conflict, Result, ok, err}
use sidecar_agent.Model.Route.{RouteDocument, equal, canonicalize}
use sidecar_agent.Model.Service.{LocalService, ServiceInstance}
use sidecar_agent.Registry.Consul.{
  Call, service_register, service_deregister, enable_service_maintenance, update_ttl, kv_get,
  kv_put, catalog_services, health_service, time_now, rand_read, inc_register, inc_drain,
  inc_deregister, AgentService, ServiceEntry, History, Outside,
}
use sidecar_agent.Registry.Exec.{
  State, Exec, pure, fail, lift, check, proceed, ask, ◌>>=◌, perform, now, random_bytes, get_value,
  get_services, get_entries,
}
use sidecar_agent.Registry.Client.{Client, ensure_usable, new_instance_id}
use sidecar_agent.Registry.Register.{
  pass_lease, compare_stored, check_stored, ensure_route_document,
}
use sidecar_agent.Registry.Discover.{instance_key, instances_of, discover_services, discover}
use sidecar_agent.Registry.Lease.{
  pass_leases, is_stale, clean_entry, clean_entries, clean_services, cleanup_previous_runs,
}

-- A call that neither registers an instance nor puts one into maintenance nor is a counter.
abbrev pub IsPlain : Call → Type 0
IsPlain (service_register g) = ⊥
IsPlain (enable_service_maintenance i a) = ⊥
IsPlain inc_register = ⊥
IsPlain inc_drain = ⊥
IsPlain inc_deregister = ⊥
IsPlain _ = Unit

-- A relation that a sequence of plain calls stays within.
pub record Allows (R : State → State → Type 0) : Type 0 where
  pub nothing : (s : State) → R s s
  pub then_more : {s t u : State} → R s t → R t u → R s u
  pub plain :
      (call : Call) → IsPlain call → (s : State) → R s (record s { history = call ∷ s.history })

pub record Within (R : State → State → Type 0) {A : Type 0} (m : Exec A) : Type 0 where
  pub at : (s : State) → R s (m s).1

module _ {R : State → State → Type 0} (a : Allows R) where
  pub Within-pure : {A : Type 0} (x : A) → Within R (pure x)
  Within-pure x = record { at = λ s. a.nothing s }

  pub Within-fail : {A : Type 0} (e : Error) → Within R (fail {A = A} e)
  Within-fail e = record { at = λ s. a.nothing s }

  pub Within-lift : {A : Type 0} (r : Result A) → Within R (lift r)
  Within-lift r = record { at = λ s. a.nothing s }

  pub Within-check : (e : Option Error) → Within R (check e)
  Within-check none = record { at = λ s. a.nothing s }
  Within-check (some e) = record { at = λ s. a.nothing s }

  pub Within-if :
      {A : Type 0} (b : Bool) {m n : Exec A}
      → Within R m
      → Within R n
      → Within R (if b then m else n)
  Within-if true wm wn = wm
  Within-if false wm wn = wn

  proceed_within :
      {A B : Type 0} {f : A → Exec B}
      → ((x : A) → Within R (f x))
      → (r : Result A) (s : State) → R s (proceed r f s).1
  proceed_within wf (ok x) s = (wf x).at s
  proceed_within wf (err e) s = a.nothing s

  -- One step, then the rest of the block.
  pub Within-bind :
      {A B : Type 0} {m : Exec A} {f : A → Exec B}
      → Within R m
      → ((x : A) → Within R (f x))
      → Within R (m >>= f)
  Within-bind {m = m} wm wf = record {
    at = λ s. a.then_more (wm.at s) (proceed_within wf (m s).0 (m s).1);
  }

  Within-ask :
      {A : Type 0} (call : Call) (answer : History → Result A)
      → IsPlain call
      → Within R (ask call answer)
  Within-ask call answer p = record { at = λ s. a.plain call p s }

  module _ (o : Outside) where
    pub now-Within : Within R (now o)
    unfolding now
    now-Within = Within-ask _ _ tt

    pub deregistration-Within : (id : Text) → Within R (perform o (service_deregister id))
    unfolding perform
    deregistration-Within id = Within-ask _ _ tt

    random_bytes-Within : Within R (random_bytes o)
    unfolding random_bytes
    random_bytes-Within = Within-ask _ _ tt

    get_value-Within : (key : Text) → Within R (get_value o key)
    unfolding get_value
    get_value-Within key = Within-ask _ _ tt

    put-Within : (key value : Text) → Within R (perform o (kv_put key value))
    unfolding perform
    put-Within key value = Within-ask _ _ tt

    pub get_services-Within : Within R (get_services o)
    unfolding get_services
    get_services-Within = Within-ask _ _ tt

    pub get_entries-Within :
        (name : Text) (passing_only : Bool) → Within R (get_entries o name passing_only)
    unfolding get_entries
    get_entries-Within name passing_only = Within-ask _ _ tt

    pub new_instance_id-Within : Within R (new_instance_id o)
    unfolding new_instance_id
    new_instance_id-Within =
        Within-bind random_bytes-Within λ buffer. Within-bind now-Within λ t. Within-pure _

    module _ (c : Client) where
      pub pass_lease-Within : (v : LocalService) → Within R (pass_lease o c v)
      unfolding pass_lease perform
      pass_lease-Within v = Within-ask _ _ tt

      compare_stored-Within :
          (key : Text) (doc existing : RouteDocument)
          → Within R (compare_stored o c key doc existing)
      unfolding compare_stored
      compare_stored-Within key doc existing =
          Within-if (not (equal existing doc)) (Within-fail (route_conflict key)) (Within-pure tt)

      check_stored-Within :
          (key : Text) (doc : RouteDocument) (stored : Option Text)
          → Within R (check_stored o c key doc stored)
      unfolding check_stored
      check_stored-Within key doc none = Within-pure tt
      check_stored-Within key doc (some value) = Within-if (is_empty value) (Within-pure tt) (
          Within-bind (Within-lift (o.decode value))
            λ existing. compare_stored-Within key doc existing)

      pub ensure_route_document-Within :
          (key : Text) (doc : RouteDocument) → Within R (ensure_route_document o c key doc)
      unfolding ensure_route_document
      ensure_route_document-Within key doc = Within-bind (get_value-Within key) λ stored.
          Within-bind (check_stored-Within key doc stored)
            λ u. put-Within key (o.encode (canonicalize doc))

      pub pass_leases-Within : (services : List LocalService) → Within R (pass_leases o c services)
      unfolding pass_leases
      pass_leases-Within [] = Within-pure tt
      pass_leases-Within (v ∷ services) =
          let rest = pass_leases-Within services in
          record {
            at = λ s. a.then_more ((pass_lease-Within v).at s) (rest.at (pass_lease o c v s).1);
          }
