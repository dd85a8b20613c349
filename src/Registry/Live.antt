-- ===== src/Registry/Live.antt =====
-- Which instances Consul has been told of, by the calls that it accepted, and whether the agent still
-- keeps each of them in its map.
pub mod Calm
pub mod Changes
pub mod Steps
pub mod Announcing
pub mod Registering
pub mod Leaving
pub mod Runs
pub mod Opening
pub mod Stranded
pub mod Racing
use sidecar_agent.Prelude.{
  Bool, true, false, Option, none, some, List, [], ◌∷◌, if◌then◌else◌, lookup, insert,
  lookup-insert, ◌≡◌, ◌≢◌, refl, sym, ◌∙◌, ap, arith, Bool-cases, inl, inr,
}
use sidecar_agent.Text.{Text, text_eq}
use sidecar_agent.Text.Equality.{text_key, text_eq_iff}
use sidecar_agent.Model.Error.{Error}
use sidecar_agent.Model.Service.{LocalService}
use sidecar_agent.Registry.Consul.{Call, service_register, service_deregister, History, Outside}
use sidecar_agent.Registry.Exec.{State}
use sidecar_agent.Registry.Exec.Rules.{Services}
use sidecar_agent.Registry.Register.{is_deregistered}

-- What a call that is accepted makes of an instance.
unfoldable pub effect : Text → Call → Bool → Bool
effect id (service_register g) before = if text_eq g.id id then true else before
effect id (service_deregister i) before = if text_eq i id then false else before
effect id _ before = before

unfoldable pub after_reply : Option Error → (after before : Bool) → Bool
after_reply none after before = after
after_reply (some e) after before = before

-- The instance is registered: the last accepted call about it has registered it.
unfoldable pub is_live : Outside → Text → History → Bool
is_live o id [] = false
is_live o id (call ∷ h) =
    let before = is_live o id h in after_reply (o.reply h call) (effect id call before) before

-- The map has a service with this instance that is not deregistered.
pub record HasEntry (id : Text) (m : Services) : Type 0 where
  pub key : Text
  pub service : LocalService
  pub kept : lookup key m ≡ some service
  pub same : service.instance_id ≡ id
  pub active : is_deregistered service.state ≡ false

-- What holds of every registered instance and of the map.
abbrev pub Covered : Outside → (Text → Services → Type 0) → State → Type 0
Covered o X s = (id : Text) → is_live o id s.history ≡ true → X id s.local_services

-- Each registered instance has its service in the map.
abbrev pub NoOrphans : Outside → State → Type 0
NoOrphans o = Covered o HasEntry

-- A service that is not deregistered stands under the key with this instance at most.
abbrev pub Only : Text → Text → Services → Type 0
Only k id m =
    (v : LocalService) → lookup k m ≡ some v → is_deregistered v.state ≡ false → v.instance_id ≡ id

-- No service stands under the key, or one that is deregistered.
abbrev pub Vacant : Text → Services → Type 0
Vacant k m = (v : LocalService) → lookup k m ≡ some v → is_deregistered v.state ≡ true

-- A service under another key stays.
pub elsewhere-HasEntry :
    {id : Text} (k : Text) (u : LocalService) (m : Services) (h : HasEntry id m)
    → text_eq k h.key ≡ false
    → HasEntry id (insert k u m)
elsewhere-HasEntry k u m h q = record {
  key = h.key;
  service = h.service;
  kept = lookup-insert k h.key u m ∙ rw q h.kept;
  same = h.same;
  active = h.active;
}

pub lookup_here : (k : Text) (u : LocalService) (m : Services) → lookup k (insert k u m) ≡ some u
lookup_here k u m = lookup-insert k k u m ∙ rw ((text_eq_iff k k).1 refl) refl

-- The service that is stored is there.
pub here-HasEntry :
    (k : Text) (u : LocalService) (m : Services)
    → is_deregistered u.state ≡ false
    → HasEntry u.instance_id (insert k u m)
here-HasEntry k u m a = record {
  key = k;
  service = u;
  kept = lookup_here k u m;
  same = refl;
  active = a;
}

module _ {id : Text} (k : Text) (u : LocalService) (m : Services) (h : HasEntry id m) where
  -- What stands under the key of the entry, where that is the key of the new service.
  at_key : text_eq k h.key ≡ true → lookup k m ≡ some h.service
  at_key q = ap (λ j. lookup j m) ((text_eq_iff k h.key).0 q) ∙ h.kept

  -- Over a vacant key, any service may be stored.
  pub over_nothing-HasEntry : Vacant k m → HasEntry id (insert k u m)
  over_nothing-HasEntry free = elim (Bool-cases (text_eq k h.key)) [
    | inl q ↦ absurd (ground (arith, free h.service (at_key q), h.active))
    | inr q ↦ elsewhere-HasEntry k u m h q
  ]

  -- Over a service of the same instance, one that is not deregistered.
  pub same-HasEntry :
      Only k u.instance_id m → is_deregistered u.state ≡ false → HasEntry id (insert k u m)
  same-HasEntry only a = elim (Bool-cases (text_eq k h.key)) [
    | inl q ↦
        let e : u.instance_id ≡ id = sym (only h.service (at_key q) h.active) ∙ h.same in
        rw (← e) (here-HasEntry k u m a)
    | inr q ↦ elsewhere-HasEntry k u m h q
  ]

  -- Over a service of another instance, any service.
  pub other-HasEntry : {i : Text} → Only k i m → i ≢ id → HasEntry id (insert k u m)
  other-HasEntry only d = elim (Bool-cases (text_eq k h.key)) [
    | inl q ↦ absurd (d (sym (only h.service (at_key q) h.active) ∙ h.same))
    | inr q ↦ elsewhere-HasEntry k u m h q
  ]

-- The service that stands under a key is the only one there.
pub lookup-Only :
    (k : Text) (v : LocalService) (m : Services) → lookup k m ≡ some v → Only k v.instance_id m
lookup-Only k v m e w q a =
    let same : some v ≡ some w = sym e ∙ q in
    let one : v ≡ w = cc same in ap (λ (x : LocalService). x.instance_id) (sym one)

module _ (k : Text) (u : LocalService) (m : Services) (gone : is_deregistered u.state ≡ true) where
  -- A key with a deregistered service is vacant.
  pub gone-Vacant : Vacant k (insert k u m)
  gone-Vacant v e =
      let same : some u ≡ some v = sym (lookup_here k u m) ∙ e in
      let one : u ≡ v = cc same in
      ap (λ (x : LocalService). is_deregistered x.state) (sym one) ∙ gone

  -- A deregistered service that is stored is in nobody's way.
  pub gone-Only : (j id : Text) → Only j id m → Only j id (insert k u m)
  gone-Only j id only v e a = elim (Bool-cases (text_eq k j)) [
    | inl q ↦ absurd (ground (arith, gone, a, e, q, lookup-insert k j u m))
    | inr q ↦ only v (ground (arith, e, q, lookup-insert k j u m)) a
  ]
