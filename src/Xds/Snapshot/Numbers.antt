-- ===== src/Xds/Snapshot/Numbers.antt =====
-- The machine integers of an endpoint, for a service whose registration was accepted.
use mathlib.Core.Path.{subst}
use sidecar_agent.Prelude.{
  All, some, true, false, refl, ℕ, suc, ◌<◌, ◌≤◌, ◌%◌, ◌^◌, none, ◌≡◌, sym, ◌∙◌, ap, arith,
}
use sidecar_agent.Text.{Text, trim_space, is_empty}
use sidecar_agent.Text.Split.{Lacks}
use sidecar_agent.Prelude.Int.{ltb_int, ℤ, pos, uint32}
use sidecar_agent.Model.Request.{validate}
use sidecar_agent.Model.Request.Valid.{validate-IsValid}
use sidecar_agent.Model.Service.{LocalService, ServiceInstance}
use sidecar_agent.Registry.Client.{Client}
use sidecar_agent.Registry.Consul.{Outside, ServiceEntry}
use sidecar_agent.Registry.Register.{registration_for}
use sidecar_agent.Registry.Tracked.{IsTracked}
use sidecar_agent.Registry.Discover.{service_instance_from_entry}
use sidecar_agent.Registry.Discover.RoundTrip.{
  stored, advertised, service_instance_from_entry-registration_for,
}
use sidecar_agent.Xds.Snapshot.{LbEndpoint, endpoint_of}

-- The port is the one of the request, and the weight is its remainder modulo 2^32.
pub record IsOnWire (port weight : ℤ) (e : LbEndpoint) : Type 0 where
  pub exact_port : port ≡ pos e.port_value
  pub positive_port : 0 < e.port_value
  pub small_port : e.port_value ≤ 65535
  pub given_weight : ℕ
  pub is_weight : weight ≡ pos (suc given_weight)
  pub weight_kept : e.load_balancing_weight ≡ suc given_weight % 2 ^ 32

endpoint_of-advertised :
    (c : Client) (v : LocalService)
    → validate v.request ≡ none
    → IsOnWire v.request.port v.request.weight (endpoint_of (advertised c v))
endpoint_of-advertised c v valid =
    let good = validate-IsValid v.request valid in
    let (n, w) = good.weight in
    let kept : uint32 v.request.port ≡ good.port.number =
      ap uint32 good.port.is_number ∙ omega (arith, good.port.small) in
    record {
      exact_port = good.port.is_number ∙ ap pos (sym kept);
      positive_port = subst (λ x. 0 < x) (sym kept) good.port.positive;
      small_port = subst (λ x. x ≤ 65535) (sym kept) good.port.small;
      given_weight = n;
      is_weight = w;
      weight_kept = ap uint32 w;
    }

-- Another agent makes an instance of a service of the map, where Consul returns the fields of its
-- registration, the host has an address, the weight fits in 64 bits and no prefix has a comma. The
-- endpoint of this instance has the service's address and exactly the port of its request, which is
-- from 1 to 65535, so that the conversion to 32 bits loses nothing; the weight of the request is
-- positive, and the endpoint has it modulo 2^32.
pub endpoint_of-registration_for :
    (o : Outside) (c : Client) (k : Text) (v : LocalService)
    → IsTracked c k v
    → (entry : ServiceEntry) → entry.service ≡ some (stored (registration_for o c v))
    → is_empty (trim_space c.settings.host_ip) ≡ false
    → ltb_int v.request.weight (pos (2 ^ 63)) ≡ true
    → All (Lacks b',') v.route_prefixes
    → (i : ServiceInstance) × (service_instance_from_entry (some entry) ≡ some i)
      × ((endpoint_of i).address ≡ v.address)
      × IsOnWire v.request.port v.request.weight (endpoint_of i)
endpoint_of-registration_for o c k v tracked entry e host fits clean = (
  advertised c v,
  service_instance_from_entry-registration_for o c k v tracked entry e host fits clean,
  refl,
  endpoint_of-advertised c v tracked.valid,
)
