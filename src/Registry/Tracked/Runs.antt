-- ===== src/Registry/Tracked/Runs.antt =====
-- The life of a client: any sequence of requests, ticks, starts and shutdowns. Each operation is one
-- step, as `Drain` and `Deregister` are by their lock.
use mathlib.Core.List.{Permᴰ}
use sidecar_agent.Prelude.{
  All-perm, ℕ, false, Option, none, some, List, [], ◌∷◌, arith, All, if◌then◌else◌, Bool-cases, inl,
  inr,
}
use sidecar_agent.Text.{Text}
use sidecar_agent.Model.Request.{RegisterRequest, DrainRequest, DeregisterRequest}
use sidecar_agent.Model.Service.{LocalService, deregistered}
use sidecar_agent.Registry.Consul.{Outside, AgentService, ServiceEntry, service_deregister}
use sidecar_agent.Registry.Exec.{State, pure, perform}
use sidecar_agent.Registry.Exec.Rules.{
  Services, Keeps, Any, Keeps-pure, Keeps-if, ◌▷◌, Keeps-check, Keeps-perform, Keeps-now,
  Keeps-get_services, Keeps-get_entries,
}
use sidecar_agent.Registry.Client.{Client, ensure_usable}
use sidecar_agent.Registry.Register.{register, is_deregistered, pass_lease}
use sidecar_agent.Registry.Lifecycle.{drain, deregister}
use sidecar_agent.Registry.Lease.{
  active_services, pass_leases, lease_tick, is_stale, clean_entry, clean_entries, clean_services,
  cleanup_previous_runs, start, deregister_all, shutdown,
}
use sidecar_agent.Registry.Tracked.{IsTracked, IsTrackedEntry, AllTracked}
use sidecar_agent.Registry.Tracked.Kept.{
  IsOwn, store-Keeps, pass_lease-Keeps, register-Keeps, drain-Keeps, deregister-Keeps,
}

-- An order of iteration: every element is visited once.
abbrev pub IsOrder : (List LocalService → List LocalService) → Type 0
IsOrder visit = (l : List LocalService) → Permᴰ l (visit l)

pub data Op : Type 0 where
  register_op : RegisterRequest → Op
  drain_op : DrainRequest → Op
  deregister_op : DeregisterRequest → Op
  start_op : Op
  tick_op : (visit : List LocalService → List LocalService) → IsOrder visit → Op
  shutdown_op : (visit : List LocalService → List LocalService) → IsOrder visit → Op

-- The client as `NewWithClient` makes it.
unfoldable pub new_state : State
new_state = record { local_services = []; running = false; history = [] }

module _ (o : Outside) (c : Client) where
  unfoldable pub apply : Op → State → State
  apply (register_op r) s = (register o c r s).1
  apply (drain_op r) s = (drain o r s).1
  apply (deregister_op r) s = (deregister o r s).1
  apply start_op s = (start o c s).1
  apply (tick_op visit p) s = (lease_tick o c visit s).1
  apply (shutdown_op visit p) s = (shutdown o c visit s).1

  unfoldable pub run : List Op → State → State
  run [] s = s
  run (op ∷ ops) s = run ops (apply op s)

  pub active-IsOwn : (m : Services) → All (IsTrackedEntry c) m → All (IsOwn o c) (active_services m)
  unfolding active_services
  active-IsOwn [] h = tt
  active-IsOwn ((k, v) ∷ m) h = elim (Bool-cases (is_deregistered v.state)) [
    | inl e ↦ rw e (active-IsOwn m h.1)
    | inr e ↦ rw e (own h.0, active-IsOwn m h.1)
  ]
    where
      own : {k : Text} → IsTracked c k v → IsOwn o c v
      own t = rw t.key_of at t

  clean_entry-Keeps :
      (entry : Option ServiceEntry) → Keeps (AllTracked c) Any (clean_entry o c entry)
  unfolding clean_entry
  clean_entry-Keeps none = Keeps-pure tt tt
  clean_entry-Keeps (some entry) = by_service entry.service
    where
      by_service :
          (found : Option AgentService)
          → Keeps (AllTracked c) Any (elim found [
            | none ↦ pure tt
            | some service ↦
                if is_stale o c service then perform o (service_deregister service.id) else pure tt
          ])
      by_service none = Keeps-pure tt tt
      by_service (some service) =
          Keeps-if (is_stale o c service) (perform o (service_deregister service.id)) (pure tt)
            (λ e. Keeps-perform o _) (λ e. Keeps-pure tt tt)

  clean_entries-Keeps :
      (entries : List (Option ServiceEntry)) → Keeps (AllTracked c) Any (clean_entries o c entries)
  unfolding clean_entries
  clean_entries-Keeps [] = Keeps-pure tt tt
  clean_entries-Keeps (entry ∷ entries) =
      clean_entry-Keeps entry ▷ λ u q. clean_entries-Keeps entries

  clean_services-Keeps : (names : List Text) → Keeps (AllTracked c) Any (clean_services o c names)
  unfolding clean_services
  clean_services-Keeps [] = Keeps-pure tt tt
  clean_services-Keeps (name ∷ names) = Keeps-get_entries o name false ▷ λ entries q.
      clean_entries-Keeps entries ▷ λ u q. clean_services-Keeps names

  start-Keeps : Keeps (AllTracked c) Any (start o c)
  unfolding start cleanup_previous_runs
  start-Keeps = Keeps-check (ensure_usable c) ▷ λ u q.
      (Keeps-get_services o ▷ λ names q. clean_services-Keeps names) ▷ λ u q. record {
        state = λ s h. h;
        result = λ s h. tt;
      }

  pass_leases-Keeps :
      (services : List LocalService) → Keeps (AllTracked c) Any (pass_leases o c services)
  unfolding pass_leases
  pass_leases-Keeps [] = record { state = λ s h. h; result = λ s h. tt }
  pass_leases-Keeps (v ∷ services) =
      let rest = pass_leases-Keeps services in
      let first = pass_lease-Keeps o c v in
      record {
        state = λ s h. rest.state (pass_lease o c v s).1 (first.state s h);
        result = λ s h. rest.result (pass_lease o c v s).1 (first.state s h);
      }

  deregister_all-Keeps :
      (services : List LocalService)
      → All (IsOwn o c) services
      → Keeps (AllTracked c) Any (deregister_all o c services)
  unfolding deregister_all
  deregister_all-Keeps [] h = Keeps-pure tt tt
  deregister_all-Keeps (v ∷ services) h = Keeps-perform o _ ▷ λ u q. Keeps-now o ▷ λ time q.
      store-Keeps o c (record v { state = deregistered; updated_at = time }) (gone time) ▷ λ u q.
      deregister_all-Keeps services h.1
    where
      gone : (time : ℕ) → IsOwn o c (record v { state = deregistered; updated_at = time })
      gone time = ground (arith, h.0)

  pub apply-AllTracked :
      (op : Op) (s : State)
      → AllTracked c s.local_services
      → AllTracked c (apply op s).local_services
  unfolding apply lease_tick shutdown
  apply-AllTracked (register_op r) s h = (register-Keeps o c r).state s h
  apply-AllTracked (drain_op r) s h = (drain-Keeps o c r).state s h
  apply-AllTracked (deregister_op r) s h = (deregister-Keeps o c r).state s h
  apply-AllTracked start_op s h = start-Keeps.state s h
  apply-AllTracked (tick_op visit p) s h =
      (pass_leases-Keeps (visit (active_services s.local_services))).state s h
  apply-AllTracked (shutdown_op visit p) s h =
      (deregister_all-Keeps (visit (active_services s.local_services))
          (All-perm (IsOwn o c) (p _) (active-IsOwn s.local_services h.each))).state
        (record s { running = false }) h

  run_from-AllTracked :
      (ops : List Op) (s : State)
      → AllTracked c s.local_services
      → AllTracked c (run ops s).local_services
  unfolding run
  run_from-AllTracked [] s h = h
  run_from-AllTracked (op ∷ ops) s h =
      run_from-AllTracked ops (apply op s) (apply-AllTracked op s h)

  -- After any sequence of registrations, drains, deregistrations, starts, lease rounds and shutdowns,
  -- failed ones included and whatever Consul answers, each service in the map stands under the key
  -- of its own name and port, passed validation, is owned by this run of this agent, has the lease
  -- check of its instance, the prefixes of its methods and its own route document, and is neither
  -- initial nor merely registered; and no key occurs twice.
  pub run-AllTracked : (ops : List Op) → AllTracked c (run ops new_state).local_services
  unfolding new_state
  run-AllTracked ops = run_from-AllTracked ops new_state (record { each = tt; one_per_key = tt })
