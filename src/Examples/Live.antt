-- ===== src/Examples/Live.antt =====
-- Examples of agents that keep track of their instances, or lose one.
use mathlib.Core.List.Permᴰ
use sidecar_agent.Prelude.{ℕ, true, false, Option, none, some, List, [], ◌∷◌, ◌≡◌, refl}
use sidecar_agent.Prelude.Int.{pos}
use sidecar_agent.Text.{Text, codes}
use sidecar_agent.Model.Error.{Error, Result, ok, err, external}
use sidecar_agent.Model.Request.{validate}
use sidecar_agent.Model.Service.{LocalService, ServiceInstance}
use sidecar_agent.Registry.Consul.{History, update_ttl, kv_put, Outside}
use sidecar_agent.Registry.Exec.{State}
use sidecar_agent.Registry.Register.{register, route_doc}
use sidecar_agent.Registry.Lease.{deregister_all, shutdown}
use sidecar_agent.Registry.Tracked.Runs.{Op, start_op, register_op, drain_op, new_state, run}
use sidecar_agent.Registry.Live.{is_live, NoOrphans}
use sidecar_agent.Registry.Live.Runs.{run-NoOrphans}
use sidecar_agent.Registry.Live.Stranded.{IsStranded, register-IsStranded}
use sidecar_agent.Registry.Live.{HasEntry}
use sidecar_agent.Registry.Live.Announcing.{AcceptsLeases}
use sidecar_agent.Registry.Live.Opening.{Fits, Opens}
use sidecar_agent.Registry.Live.Racing.{race, registered_at, after_new, race-done, race-HasEntry}
use sidecar_agent.Prelude.{lookup, ap, arith, ◌+◌, if◌then◌else◌, inr}
use sidecar_agent.Text.{text_eq}
use sidecar_agent.Text.Equality.{text_key, text_eq_iff}
use sidecar_agent.Registry.Client.{local_key, route_config_ref}
use sidecar_agent.Registry.Counted.{Tallies}
use sidecar_agent.Registry.Counted.Runs.{run-Tallies}
use sidecar_agent.Discovery.{new_watcher}
use sidecar_agent.Xds.Server
use sidecar_agent.App.Refresh.{Fresh}
use sidecar_agent.Admin
use sidecar_agent.App.Serving.{Times}
use sidecar_agent.App.Serving.Life.{
  Event, requested, refreshed, leases_passed, live, live_shutdown-empty,
}
use sidecar_agent.Examples.{orders, client, willing, drain_orders}
use sidecar_agent.Examples.Publishing.{builder, envoy}

-- The identifier that is made of these random bytes.
abbrev first_id : Text
first_id = codes "00000000-0000-7708-890a-0b0c0d0e0f10"

-- The service is registered and drained.
abbrev morning : List Op
morning = start_op ∷ register_op orders ∷ drain_op drain_orders ∷ []

run-NoOrphans_example : NoOrphans willing (run willing client morning new_state)
run-NoOrphans_example = run-NoOrphans willing client (λ h i t s. refl) morning

registered_in_the_morning :
    is_live willing first_id (run willing client morning new_state).history ≡ true
unfolding is_live run new_state sidecar_agent.Registry.Tracked.Runs.apply
    sidecar_agent.Registry.Lifecycle.drain sidecar_agent.Model.Request.validate_drain
    sidecar_agent.Text.trim_space sidecar_agent.Registry.Register.local_service
    sidecar_agent.Registry.Lifecycle.found sidecar_agent.Prelude.lookup register validate
    sidecar_agent.Model.Request.check_required sidecar_agent.Model.Request.required_fields
    sidecar_agent.Model.Request.check_methods sidecar_agent.Text.has_prefix
    sidecar_agent.Registry.Register.register_over sidecar_agent.Registry.Lease.start
    sidecar_agent.Registry.Lease.cleanup_previous_runs sidecar_agent.Registry.Lease.clean_services
    sidecar_agent.Registry.Client.ensure_usable sidecar_agent.Registry.Exec.get_services
    sidecar_agent.Registry.Exec.perform sidecar_agent.Registry.Exec.now
    sidecar_agent.Registry.Exec.get_value sidecar_agent.Registry.Exec.random_bytes
    sidecar_agent.Registry.Exec.count sidecar_agent.Registry.Register.register_new
    sidecar_agent.Registry.Register.ensure_route_document
    sidecar_agent.Registry.Register.check_stored sidecar_agent.Registry.Client.new_instance_id
    sidecar_agent.Registry.Register.announce sidecar_agent.Registry.Register.pass_lease
    sidecar_agent.Registry.Register.registration_for sidecar_agent.Registry.Register.new_service
    sidecar_agent.Registry.Register.store_local_service sidecar_agent.Registry.Live.effect
    sidecar_agent.Registry.Live.after_reply sidecar_agent.Text.text_eq
    sidecar_agent.Registry.Client.format_uuid sidecar_agent.Registry.Client.hex_encode
    sidecar_agent.Registry.Client.stamp sidecar_agent.Registry.Client.version_byte
    sidecar_agent.Registry.Client.variant_byte sidecar_agent.Model.Request.grace_period
    sidecar_agent.Registry.Client.local_key sidecar_agent.Text.format_int
    sidecar_agent.Prelude.insert sidecar_agent.Registry.Lifecycle.drain_service
    sidecar_agent.Registry.Lifecycle.put_service
registered_in_the_morning = refl

run-Tallies_example : Tallies willing (run willing client morning new_state).history
run-Tallies_example = run-Tallies willing client (λ h i t s. refl) morning

-- Nothing is refused.
left : (vs : List LocalService) (s : State) → (deregister_all willing client vs s).0 ≡ ok tt
unfolding deregister_all sidecar_agent.Registry.Exec.perform sidecar_agent.Registry.Exec.now
    sidecar_agent.Registry.Register.store_local_service
left [] s = refl
left (v ∷ vs) s = left vs _

shut_down : (s : State) → (shutdown willing client (λ l. l) s).0 ≡ ok tt
unfolding shutdown
shut_down s = left _ _

abbrev no_lease : Error
no_lease = external (codes "no such check")

-- A Consul that takes everything but the lease.
abbrev without_leases : Outside
without_leases = record willing {
  reply = λ h call. elim call [ update_ttl i t s ↦ some no_lease | _ ↦ none ];
}

register-IsStranded_example :
    (id : Text) × IsStranded without_leases no_lease new_state id
      (register without_leases client orders new_state)
unfolding validate sidecar_agent.Prelude.lookup new_state sidecar_agent.Model.Request.check_required
    sidecar_agent.Model.Request.required_fields sidecar_agent.Text.trim_space
    sidecar_agent.Model.Request.check_methods sidecar_agent.Text.has_prefix
register-IsStranded_example =
    register-IsStranded without_leases client orders no_lease _
      (record {
        opens = record {
          reads = λ h t. tt;
          puts = λ h k v. refl;
          registers = λ h g. refl;
          random = λ h. refl;
        };
        refuses = λ h i t s. refl;
      })
      new_state refl refl

-- Each read of the random source gives another last byte.
abbrev counted : History → ℕ
counted [] = 0
counted (call ∷ h) = counted h + 1

abbrev bytes : History → List ℕ
bytes h = 0 ∷ 0 ∷ 0 ∷ 0 ∷ 0 ∷ 0 ∷ 7 ∷ 8 ∷ 9 ∷ 10 ∷ 11 ∷ 12 ∷ 13 ∷ 14 ∷ 15 ∷ counted h ∷ []

-- The document that was put last under a key.
abbrev put_last : Text → History → Option Text
put_last key [] = none
put_last key (kv_put k value ∷ h) = if text_eq k key then some value else put_last key h
put_last key (_ ∷ h) = put_last key h

-- It reads what was put, and what was put are the routes of the service.
abbrev random_consul : Outside
random_consul = record willing {
  random = λ h. ok (bytes h);
  kv_value = λ h key. ok (put_last key h);
  decode = λ raw. ok (route_doc willing client orders 0);
}

fits :
    (t : ℕ) (x : Option Text) → Fits random_consul (route_doc random_consul client orders t) (ok x)
unfolding route_doc
fits t none = tt
fits t (some raw) = inr (
  route_doc willing client orders 0,
  refl,
  record {
    service = refl;
    version = refl;
    namespace = refl;
    port = refl;
    protocol = refl;
    prefixes = λ p. refl;
    exact_paths = λ p. refl;
  },
)

opens : Opens random_consul client orders bytes
opens = record {
  reads =
      λ h t. fits t (put_last (route_config_ref client orders.env orders.namespace orders.name) h);
  puts = λ h k v. refl;
  registers = λ h g. refl;
  random = λ h. refl;
}

abbrev takes_leases : AcceptsLeases random_consul
takes_leases h i t s = refl

abbrev first : LocalService
first = registered_at random_consul client orders bytes opens takes_leases new_state

abbrev second : LocalService
second =
    registered_at random_consul client orders bytes opens takes_leases
      (after_new random_consul client orders bytes opens takes_leases new_state)

two_instances : text_eq first.instance_id second.instance_id ≡ false
unfolding new_state sidecar_agent.Registry.Register.new_service text_eq
    sidecar_agent.Registry.Client.format_uuid sidecar_agent.Registry.Client.hex_encode
    sidecar_agent.Registry.Client.stamp sidecar_agent.Registry.Client.version_byte
    sidecar_agent.Registry.Client.variant_byte
two_instances = refl

absent : lookup (local_key orders.name orders.port) new_state.local_services ≡ none
unfolding new_state sidecar_agent.Prelude.lookup
absent = refl

both_return : (race random_consul client orders new_state).0 ≡ ok (first, second)
both_return =
    ap (λ (p : Result (LocalService × LocalService) × State). p.0)
      (race-done random_consul client orders bytes opens takes_leases new_state absent)

nothing_kept : ¬ (HasEntry first.instance_id new_state.local_services)
unfolding new_state sidecar_agent.Prelude.lookup
nothing_kept h = cc h.kept

race-HasEntry_example :
    (is_live random_consul first.instance_id (race random_consul client orders new_state).1.history
      ≡ true)
    × (¬ (HasEntry first.instance_id (race random_consul client orders new_state).1.local_services))
race-HasEntry_example =
    race-HasEntry random_consul client orders bytes opens takes_leases new_state first second absent
      both_return
      (λ e. ground (arith, two_instances, (text_eq_iff first.instance_id second.instance_id).1 e))
      nothing_kept

abbrev fresh : Fresh
fresh = record {
  registry = run willing client morning new_state;
  watcher = new_watcher (pos 1);
  xds = Server.new_server builder;
  local_service_gauge = 0;
}

abbrev hash : List ServiceInstance → Result Text
hash instances = ok (codes "fingerprint")

abbrev at_ten : Times
at_ten = record { built = 9; since = 10; now = 11 }

-- A body that cannot be read, a registration, a tick of each loop and a question.
abbrev events : List Event
events =
    requested at_ten (Admin.post_register (err no_lease))
    ∷ requested at_ten (Admin.post_register (ok orders))
    ∷ refreshed at_ten
    ∷ leases_passed (λ l. l) (λ l. Permᴰ.refl l)
    ∷ requested at_ten Admin.get_debug_services
    ∷ []

abbrev worked : Fresh
worked =
    live willing client envoy (λ calls node s. none) hash (codes "127.0.0.1:15010") false events
      fresh

live_shutdown-empty_example :
    is_live willing first_id (shutdown willing client (λ l. l) worked.registry).1.history ≡ false
live_shutdown-empty_example =
    live_shutdown-empty willing client envoy (λ calls node s. none) hash (codes "127.0.0.1:15010")
      false (λ h i t s. refl) morning events fresh (λ l. l) first_id refl (λ l. Permᴰ.refl l)
      (shut_down worked.registry)
