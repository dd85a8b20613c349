-- ===== src/Registry/Live/Stranded.antt =====
-- A registration whose lease is refused.
use sidecar_agent.Prelude.{ℕ, true, none, some, List, lookup, ◌≡◌, refl}
use sidecar_agent.Text.{Text}
use sidecar_agent.Text.Equality.{text_key, text_eq_iff}
use sidecar_agent.Model.Error.{Error, Result, err}
use sidecar_agent.Model.Request.{RegisterRequest, validate}
use sidecar_agent.Model.Service.{LocalService}
use sidecar_agent.Registry.Consul.{History, Outside, update_ttl}
use sidecar_agent.Registry.Exec.{State, perform}
use sidecar_agent.Registry.Client.{Client, local_key}
use sidecar_agent.Registry.Register.{
  local_service, pass_lease, announce, register_new, register_over, register, registration_for,
  new_service,
}
use sidecar_agent.Registry.Live.{effect, after_reply, is_live}
use sidecar_agent.Registry.Live.Opening.{Opens, new_instance, prepared, register_new-announce}

-- Consul has no other routes for the service and accepts what a registration writes, but not the lease.
pub record RefusesLeases (o : Outside) (c : Client) (r : RegisterRequest) (e : Error)
    (bytes : History → List ℕ) : Type 0 where
  pub opens : Opens o c r bytes
  pub refuses :
      (h : History) (check_id output status : Text)
      → o.reply h (update_ttl check_id output status) ≡ some e

-- The call failed, the map is as it was, and this instance is registered.
abbrev pub IsStranded : Outside → Error → State → Text → Result LocalService × State → Type 0
IsStranded o e s id r =
    (r.0 ≡ err e) × (r.1.local_services ≡ s.local_services) × (is_live o id r.1.history ≡ true)

module _ (o : Outside) (c : Client) (r : RegisterRequest) (e : Error) (bytes : History → List ℕ)
    (w : RefusesLeases o c r e bytes) where
  announce-IsStranded :
      (v : LocalService) (s : State) → IsStranded o e s v.instance_id (announce o c v s)
  unfolding announce perform pass_lease registration_for is_live effect after_reply
  announce-IsStranded v s =
      rw (w.opens.registers, w.refuses)
        (
          refl,
          refl,
          rw (w.refuses, w.opens.registers, (text_eq_iff v.instance_id v.instance_id).1 refl) refl,
        )

  register_new-IsStranded : (s : State) → (id : Text) × IsStranded o e s id (register_new o c r s)
  unfolding new_service
  register_new-IsStranded s =
      let v : LocalService = new_instance o c r bytes w.opens s.history in
      rw (register_new-announce o c r bytes w.opens s)
        (v.instance_id, announce-IsStranded v (prepared o c r bytes w.opens s))

  -- Where each read of the service's route document returns nothing, an empty value or routes that say
  -- the same as the request, and Consul accepts every document and every registration of an instance,
  -- and refuses the refresh of leases, a valid request for a name and port that the map does not have
  -- fails with that error and leaves the map as it was, and yet there is an instance that is
  -- registered, as the last accepted call about it.
  pub register-IsStranded :
      (s : State)
      → validate r ≡ none
      → lookup (local_key r.name r.port) s.local_services ≡ none
      → (id : Text) × IsStranded o e s id (register o c r s)
  unfolding register local_service register_over
  register-IsStranded s valid absent = rw (valid, absent) (register_new-IsStranded s)
