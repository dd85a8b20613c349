-- ===== src/Registry/Lifecycle.antt =====
-- `Client.Drain` and `Client.Deregister`, which hold the lock throughout, and `LocalServices`.
pub mod Listing
pub mod Outcome
use sidecar_agent.Prelude.{
  ℕ, ◌+◌, ◌-◌, Bool, true, false, Option, none, some, List, [], ◌∷◌, map, if◌then◌else◌, insert,
  lookup, ltb, ◌≡◌, refl,
}
use sidecar_agent.Prelude.Int.{ℤ, pos, negsuc, ltb_int}
use sidecar_agent.Text.{Text, codes, text_eq, text_lt}
use sidecar_agent.Text.Equality.{text_key}
use sidecar_agent.Model.Error.{Error, local_service_not_found, Result, ok, err}
use sidecar_agent.Model.Request.{
  DrainRequest, DeregisterRequest, validate_drain, validate_deregister, grace_period,
}
use sidecar_agent.Model.Service.{LocalService, draining, deregistered}
use sidecar_agent.Registry.Consul.{
  service_deregister, enable_service_maintenance, inc_drain, inc_deregister, Outside,
}
use sidecar_agent.Registry.Exec.{
  State, Exec, pure, fail, lift, check, ◌>>=◌, ◌>>◌, perform, now, count,
}
use sidecar_agent.Registry.Client.{local_key}
use sidecar_agent.Registry.Register.{local_service}

-- `c.localServices[key] = service`
unfoldable pub put_service : Text → LocalService → Exec (Unit {0})
put_service key service s =
    (ok tt, record s { local_services = insert key service s.local_services })

-- The service, or the error that there is none.
unfoldable pub found : Text → ℤ → Option LocalService → Exec LocalService
found name port none = fail (local_service_not_found name port)
found name port (some service) = pure service

-- `t.Add(d)`
abbrev pub add_duration : ℕ → ℤ → ℕ
add_duration t (pos n) = t + n
add_duration t (negsuc n) = t - (n + 1)

module _ (o : Outside) where
  unfoldable pub drain_service : Text → ℤ → LocalService → Exec LocalService
  drain_service key grace service = do
    perform o (enable_service_maintenance service.instance_id (codes "draining by sidecar-agent"))
    t ← now o
    t' ← now o
    let drained = record service {
      state = draining;
      updated_at = t';
      drain_deadline = some (add_duration t grace);
    }
    put_service key drained
    count inc_drain
    pure drained

  unfoldable pub drain : DrainRequest → Exec LocalService
  drain request = do
    check (validate_drain o.parse_duration request)
    grace ← lift (grace_period o.parse_duration request)
    existing ← local_service request.name request.port
    service ← found request.name request.port existing
    drain_service (local_key request.name request.port) grace service

  unfoldable pub deregister_service : Text → LocalService → Exec LocalService
  deregister_service key service = do
    perform o (service_deregister service.instance_id)
    t ← now o
    let gone = record service { state = deregistered; updated_at = t; drain_deadline = none }
    put_service key gone
    count inc_deregister
    pure gone

  unfoldable pub deregister : DeregisterRequest → Exec LocalService
  deregister request = do
    check (validate_deregister request)
    existing ← local_service request.name request.port
    service ← found request.name request.port existing
    deregister_service (local_key request.name request.port) service

-- The comparison of `LocalServices`: by name, then by port.
unfoldable pub name_port_lt : Text × ℤ → Text × ℤ → Bool
name_port_lt (n, p) (m, q) = if text_eq n m then ltb_int p q else text_lt n m

abbrev pub name_port : LocalService → Text × ℤ
name_port v = (v.request.name, v.request.port)
