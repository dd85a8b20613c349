-- ===== src/Registry/Lease.antt =====
-- Ownership of services over runs of the agent: `Start`, `Shutdown`, one tick of `leaseLoop` and
-- `cleanupPreviousRuns`. `visit` is the order in which Go iterates over a map.
pub mod Ticks
pub mod Cleanup
pub mod Leaving
use sidecar_agent.Prelude.{
  ℕ, Bool, true, false, not, ◌||◌, Option, none, some, List, [], ◌∷◌, map, if◌then◌else◌, lookup,
  ◌≡◌, refl,
}
use sidecar_agent.Text.{Text, codes, text_eq, trim_space}
use sidecar_agent.Text.Equality.{text_key}
use sidecar_agent.Model.Error.{Error, Result, ok, err}
use sidecar_agent.Model.Service.{LocalService, deregistered}
use sidecar_agent.Registry.Consul.{AgentService, ServiceEntry, service_deregister, Outside}
use sidecar_agent.Registry.Exec.{
  State, Exec, pure, check, proceed, ◌>>=◌, ◌>>◌, perform, now, get_services, get_entries,
}
use sidecar_agent.Registry.Client.{Client, ensure_usable}
use sidecar_agent.Registry.Register.{store_local_service, is_deregistered, pass_lease}

-- `meta[key]`: a missing key has the empty text.
abbrev text_or_empty : Option Text → Text
text_or_empty none = []
text_or_empty (some t) = t

unfoldable pub meta_value : Text → List (Text × Text) → Text
unfolding lookup
meta_value key meta = text_or_empty (lookup key meta)

unfoldable pub active_services : List (Text × LocalService) → List LocalService
active_services [] = []
active_services ((key, service) ∷ rest) =
    let others = active_services rest in
    if is_deregistered service.state then others else service ∷ others

module _ (o : Outside) (c : Client) where
  -- An error of one lease is logged, and the next one is refreshed.
  unfoldable pub pass_leases : List LocalService → Exec (Unit {0})
  pass_leases [] s = (ok tt, s)
  pass_leases (service ∷ services) s = pass_leases services (pass_lease o c service s).1

  -- One round of `leaseLoop`, at a tick.
  unfoldable pub lease_tick : (List LocalService → List LocalService) → Exec (Unit {0})
  lease_tick visit s = pass_leases (visit (active_services s.local_services)) s

  -- The entry belongs to this agent and to another run of it.
  unfoldable pub is_stale : AgentService → Bool
  is_stale service =
      if not (text_eq (trim_space (meta_value (codes "agent_id") service.meta)) c.agent_id)
      then false
      else not
          (text_eq (trim_space (meta_value (codes "agent_run_id") service.meta)) c.agent_run_id)

  unfoldable pub clean_entry : Option ServiceEntry → Exec (Unit {0})
  clean_entry none = pure tt
  clean_entry (some entry) = elim entry.service [
    | none ↦ pure tt
    | some service ↦ if is_stale service then perform o (service_deregister service.id) else pure tt
  ]

  unfoldable pub clean_entries : List (Option ServiceEntry) → Exec (Unit {0})
  unfolding clean_entry
  clean_entries [] = pure tt
  clean_entries (entry ∷ entries) = do clean_entry entry; clean_entries entries

  unfoldable pub clean_services : List Text → Exec (Unit {0})
  clean_services [] = pure tt
  clean_services (name ∷ names) = do
    entries ← get_entries o name false
    clean_entries entries
    clean_services names

  unfoldable pub cleanup_previous_runs : Exec (Unit {0})
  cleanup_previous_runs = do names ← get_services o; clean_services names

  -- `Start`: the loop is started once.
  unfoldable pub start : Exec (Unit {0})
  start = do
    check (ensure_usable c)
    cleanup_previous_runs
    λ s. (ok tt, record s { running = true })

  unfoldable pub deregister_all : List LocalService → Exec (Unit {0})
  deregister_all [] = pure tt
  deregister_all (service ∷ services) = do
    perform o (service_deregister service.instance_id)
    t ← now o
    store_local_service (record service { state = deregistered; updated_at = t })
    deregister_all services

  -- `Shutdown`: the loop has ended before the services are read.
  unfoldable pub shutdown : (List LocalService → List LocalService) → Exec (Unit {0})
  shutdown visit s =
      deregister_all (visit (active_services s.local_services)) (record s { running = false })
