-- ===== src/Registry/Lease/Ticks.antt =====
-- One round of lease refreshes.
use sidecar_agent.Prelude.{List, [], ◌∷◌, ◌≡◌, refl}
use sidecar_agent.Text.{codes}
use sidecar_agent.Model.Error.{ok}
use sidecar_agent.Model.Service.{LocalService}
use sidecar_agent.Registry.Consul.{Call, History, Outside, update_ttl}
use sidecar_agent.Registry.Exec.{State, perform}
use sidecar_agent.Registry.Client.{Client}
use sidecar_agent.Registry.Register.{pass_lease}
use sidecar_agent.Registry.Lease.{active_services, pass_leases, lease_tick}

-- The refresh of one lease.
abbrev pub lease_call : LocalService → Call
lease_call v = update_ttl v.lease_check_id (codes "agent ownership is healthy") (codes "passing")

-- The calls for services in the order in which they are visited, the latest first.
abbrev pub lease_calls : List LocalService → History → History
lease_calls [] h = h
lease_calls (v ∷ vs) h = lease_calls vs (lease_call v ∷ h)

module _ (o : Outside) (c : Client) where
  pass_leases_lem :
      (vs : List LocalService) (s : State)
      → pass_leases o c vs s ≡ (ok tt, record s { history = lease_calls vs s.history })
  unfolding pass_leases pass_lease perform
  pass_leases_lem [] s = refl
  pass_leases_lem (v ∷ vs) s = pass_leases_lem vs (record s { history = lease_call v ∷ s.history })

  -- A round never fails. It refreshes the lease of each service that is not deregistered, once and in
  -- the order of the iteration, whether or not Consul refuses some of them, and changes no service.
  pub lease_tick_lem :
      (visit : List LocalService → List LocalService) (s : State)
      → lease_tick o c visit s ≡ (
        ok tt,
        record s { history = lease_calls (visit (active_services s.local_services)) s.history },
      )
  unfolding lease_tick
  lease_tick_lem visit s = pass_leases_lem (visit (active_services s.local_services)) s
