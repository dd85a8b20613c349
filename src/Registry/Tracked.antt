-- ===== src/Registry/Tracked.antt =====
-- The invariant of the map `localServices`: what holds of every service that the agent keeps.
pub mod Kept
pub mod Runs
pub mod Listed
use sidecar_agent.Prelude.{
  Bool, true, false, Option, none, some, List, [], ◌∷◌, ◌≡◌, ◌≢◌, refl, sym, ◌∙◌, arith, All,
  if◌then◌else◌, lookup, insert, Bool-cases, inl, inr, ap,
}
use sidecar_agent.Text.{Text, text_eq, trim_space}
use sidecar_agent.Text.Equality.{text_key, text_eq_iff}
use sidecar_agent.Sort.Distinct.{Distinct, Fresh}
use sidecar_agent.Model.Request.{validate}
use sidecar_agent.Model.Route.{extract_route_prefixes}
use sidecar_agent.Model.Service.{LocalService, ServiceState, init, registered}
use sidecar_agent.Registry.Exec.Rules.{Services}
use sidecar_agent.Registry.Client.{Client, local_key, route_config_ref, lease_check_id_for}

-- A service that this run of the agent has announced, under the key of its name and port.
pub record IsTracked (c : Client) (key : Text) (v : LocalService) : Type 0 where
  pub key_of : key ≡ local_key v.request.name v.request.port
  pub valid : validate v.request ≡ none
  pub owner : v.agent_id ≡ c.agent_id
  pub run : v.agent_run_id ≡ c.agent_run_id
  pub lease : v.lease_check_id ≡ lease_check_id_for v.instance_id
  pub address : v.address ≡ trim_space c.settings.host_ip
  pub prefixes : v.route_prefixes ≡ extract_route_prefixes v.request.methods
  pub document :
      v.route_config_ref ≡ route_config_ref c v.request.env v.request.namespace v.request.name
  pub announced : (v.state ≢ init) × (v.state ≢ registered)

abbrev pub key_part : Text × LocalService → Text
key_part e = e.0

abbrev pub IsTrackedEntry : Client → Text × LocalService → Type 0
IsTrackedEntry c e = IsTracked c e.0 e.1

pub record AllTracked (c : Client) (m : Services) : Type 0 where
  pub each : All (IsTrackedEntry c) m
  pub one_per_key : Distinct key_part m

All-insert :
    (P : Text × LocalService → Type 0) (k : Text) (v : LocalService) (m : Services)
    → P (k, v)
    → All P m
    → All P (insert k v m)
unfolding insert
All-insert P k v [] p h = (p, tt)
All-insert P k v ((j, w) ∷ m) p h = elim (Bool-cases (text_eq j k)) [
  | inl e ↦ rw e (p, h.1)
  | inr e ↦ rw e (h.0, All-insert P k v m p h.1)
]

Distinct-insert :
    (k : Text) (v : LocalService) (m : Services)
    → Distinct key_part m
    → Distinct key_part (insert k v m)
unfolding insert
Distinct-insert k v [] d = (tt, tt)
Distinct-insert k v ((j, w) ∷ m) d = elim (Bool-cases (text_eq j k)) [
  | inl e ↦ rw e (rw (sym ((text_eq_iff j k).0 e)) d)
  | inr e ↦ rw e (
    All-insert (λ x. key_part x ≢ j) k v m (λ q. ground (arith, e, text_eq_iff j k, sym q)) d.0,
    Distinct-insert k v m d.1,
  )
]

pub All-lookup :
    (P : Text × LocalService → Type 0) (k : Text) (m : Services)
    → All P m
    → (v : LocalService) → lookup k m ≡ some v
    → P (k, v)
unfolding lookup
All-lookup P k [] h v e = cc
All-lookup P k ((j, w) ∷ m) h v e = elim (Bool-cases (text_eq j k)) [
  | inl q ↦ here ((text_eq_iff j k).0 q) (ground (arith, q, e))
  | inr q ↦ All-lookup P k m h.1 v (ground (arith, q, e))
]
  where
    here : j ≡ k → w ≡ v → P (k, v)
    here p r = rw (← p, ← r) h.0

pub AllTracked-insert :
    (c : Client) (k : Text) (v : LocalService) (m : Services)
    → IsTracked c k v
    → AllTracked c m
    → AllTracked c (insert k v m)
AllTracked-insert c k v m p h = record {
  each = All-insert (IsTrackedEntry c) k v m p h.each;
  one_per_key = Distinct-insert k v m h.one_per_key;
}
