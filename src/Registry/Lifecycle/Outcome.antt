-- ===== src/Registry/Lifecycle/Outcome.antt =====
-- Draining and deregistering, on every branch.
use sidecar_agent.Prelude.{Option, none, some, ◌∷◌, ◌≡◌, arith, lookup, insert}
use sidecar_agent.Prelude.Int.{ℤ}
use sidecar_agent.Text.{codes}
use sidecar_agent.Text.Equality.{text_key}
use sidecar_agent.Model.Error.{Error, local_service_not_found, Result, ok, err}
use sidecar_agent.Model.Request.{
  DrainRequest, DeregisterRequest, validate_drain, validate_deregister, grace_period,
}
use sidecar_agent.Model.Service.{LocalService, draining, deregistered}
use sidecar_agent.Registry.Consul.{
  Outside, History, service_deregister, enable_service_maintenance, time_now, inc_drain,
  inc_deregister,
}
use sidecar_agent.Registry.Exec.{State, perform, now, count}
use sidecar_agent.Registry.Client.{local_key}
use sidecar_agent.Registry.Register.{local_service}
use sidecar_agent.Registry.Lifecycle.{
  add_duration, put_service, found, drain_service, drain, deregister_service, deregister,
}

module _ (o : Outside) (s : State) where
  abbrev maintenance : LocalService → sidecar_agent.Registry.Consul.Call
  maintenance v = enable_service_maintenance v.instance_id (codes "draining by sidecar-agent")

  -- What `Drain` makes of a service.
  abbrev pub drained : LocalService → ℤ → LocalService
  drained v grace = record v {
    state = draining;
    updated_at = o.clock (time_now ∷ maintenance v ∷ s.history);
    drain_deadline = some (add_duration (o.clock (maintenance v ∷ s.history)) grace);
  }

  -- How a valid drain request ends, by whether the service is known and Consul agrees.
  abbrev pub drain_end :
      DrainRequest → ℤ → Option LocalService → Option Error → Result LocalService × State
  drain_end r grace none e = (err (local_service_not_found r.name r.port), s)
  drain_end r grace (some v) (some e) = (err e, record s { history = maintenance v ∷ s.history })
  drain_end r grace (some v) none = (
    ok (drained v grace),
    record s {
      local_services = insert (local_key r.name r.port) (drained v grace) s.local_services;
      history = inc_drain ∷ time_now ∷ time_now ∷ maintenance v ∷ s.history;
    },
  )

  abbrev consul_says : Option LocalService → Option Error
  consul_says none = none
  consul_says (some v) = o.reply s.history (maintenance v)

  -- A valid drain request of an unknown service is an error and does nothing. For a known one Consul is
  -- asked to put that instance into maintenance; if it refuses, its error is returned and the map stays
  -- as it was, and otherwise the service is kept as draining, with the deadline that the grace
  -- period gives.
  pub drain_lem :
      (r : DrainRequest) (grace : ℤ)
      → validate_drain o.parse_duration r ≡ none
      → grace_period o.parse_duration r ≡ ok grace
      → (existing : Option LocalService)
      → lookup (local_key r.name r.port) s.local_services ≡ existing
      → drain o r s ≡ drain_end r grace existing (consul_says existing)
  unfolding drain local_service found drain_service put_service perform now count
  drain_lem r grace valid g none known = ground (arith, valid, g, known)
  drain_lem r grace valid g (some v) known = ground (arith, valid, g, known)

  -- A request that does not pass validation changes nothing and calls nobody.
  pub drain_invalid :
      (r : DrainRequest) (e : Error)
      → validate_drain o.parse_duration r ≡ some e
      → drain o r s ≡ (err e, s)
  unfolding drain
  drain_invalid r e h = ground (arith, h)

  abbrev pub gone : LocalService → LocalService
  gone v = record v {
    state = deregistered;
    updated_at = o.clock (service_deregister v.instance_id ∷ s.history);
    drain_deadline = none;
  }

  abbrev pub deregister_end :
      DeregisterRequest → Option LocalService → Option Error → Result LocalService × State
  deregister_end r none e = (err (local_service_not_found r.name r.port), s)
  deregister_end r (some v) (some e) =
      (err e, record s { history = service_deregister v.instance_id ∷ s.history })
  deregister_end r (some v) none = (
    ok (gone v),
    record s {
      local_services = insert (local_key r.name r.port) (gone v) s.local_services;
      history = inc_deregister ∷ time_now ∷ service_deregister v.instance_id ∷ s.history;
    },
  )

  abbrev deregister_answer : Option LocalService → Option Error
  deregister_answer none = none
  deregister_answer (some v) = o.reply s.history (service_deregister v.instance_id)

  -- A valid request to deregister an unknown service is an error and does nothing. For a known one
  -- Consul is asked to deregister that instance; if it refuses, its error is returned and the map
  -- stays as it was, and otherwise the service is kept as deregistered, without a deadline.
  pub deregister_lem :
      (r : DeregisterRequest)
      → validate_deregister r ≡ none
      → (existing : Option LocalService)
      → lookup (local_key r.name r.port) s.local_services ≡ existing
      → deregister o r s ≡ deregister_end r existing (deregister_answer existing)
  unfolding deregister local_service found deregister_service put_service perform now count
  deregister_lem r valid none known = ground (arith, valid, known)
  deregister_lem r valid (some v) known = ground (arith, valid, known)
