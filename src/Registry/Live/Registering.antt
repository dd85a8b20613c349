-- ===== src/Registry/Live/Registering.antt =====
-- A registration keeps every registered instance in the map.
use mathlib.Core.Path.{subst}
use sidecar_agent.Prelude.{ℕ, true, false, Option, none, some, lookup, ◌≡◌, refl, sym, ◌∙◌, ap}
use sidecar_agent.Text.{Text}
use sidecar_agent.Text.Equality.{text_key}
use sidecar_agent.Model.Request.{RegisterRequest, validate}
use sidecar_agent.Model.Service.{LocalService, deregistered}
use sidecar_agent.Registry.Consul.{Outside}
use sidecar_agent.Registry.Exec.{State}
use sidecar_agent.Registry.Exec.Rules.{Services}
use sidecar_agent.Registry.Client.{Client, local_key, same_register_request}
use sidecar_agent.Registry.Register.{
  local_service, store_local_service, replay, retire, new_service, announce, register_new,
  register_over, register, is_deregistered,
}
use sidecar_agent.Registry.Lifecycle.{put_service}
use sidecar_agent.Registry.Tracked.{IsTrackedEntry, AllTracked, All-lookup}
use sidecar_agent.Registry.Within.{
  now-Within, pass_lease-Within, ensure_route_document-Within, new_instance_id-Within,
}
use sidecar_agent.Registry.Live.{HasEntry, NoOrphans, Only, Vacant, lookup-Only, gone-Vacant}
use sidecar_agent.Registry.Live.Calm.{calm_steps}
use sidecar_agent.Registry.Live.Changes.{
  Leads, Quiet, Fine, weaken, Leads-check, Leads-pure, Leads-if, ◌▷◌, Calm-Leads,
}
use sidecar_agent.Registry.Live.Steps.{calmly, deregister-Leads, put_gone, put_same, Other}
use sidecar_agent.Registry.Live.Announcing.{AcceptsLeases, own_key, announce-Leads}

module _ (o : Outside) (c : Client) (leases : AcceptsLeases o) where
  replay-Leads :
      (v : LocalService)
      → is_deregistered v.state ≡ false
      → Leads o (Quiet o HasEntry (Only (own_key v) v.instance_id)) (Fine o) (replay o c v)
  unfolding replay store_local_service put_service
  replay-Leads v a = calmly o _ (pass_lease-Within (calm_steps o) o c v) ▷ λ u.
      calmly o _ (now-Within (calm_steps o) o) ▷ λ t.
      store t ▷ λ u. Leads-pure o (record v { updated_at = t }) (λ s p. p)
    where
      store :
          (t : ℕ)
          → Leads o
              (Quiet o HasEntry (Only (own_key v) v.instance_id))
              (Fine o)
              (store_local_service (record v { updated_at = t }))
      store t = put_same o (own_key v) (record v { updated_at = t }) a

  retire-Leads :
      (v : LocalService)
      → Leads o
          (Quiet o HasEntry (Only (own_key v) v.instance_id))
          (λ (u : Unit {0}). Quiet o HasEntry (Vacant (own_key v)))
          (retire o c v)
  unfolding retire store_local_service put_service
  retire-Leads v = deregister-Leads o (Only (own_key v) v.instance_id) v.instance_id ▷ λ u.
      Calm-Leads o _ (λ id m h. h.1) (now-Within (calm_steps o) o) ▷ λ t. store t
    where
      store :
          (t : ℕ)
          → Leads o
              (Quiet o (Other v.instance_id) (Only (own_key v) v.instance_id))
              (λ (u : Unit {0}). Quiet o HasEntry (Vacant (own_key v)))
              (store_local_service (record v { state = deregistered; updated_at = t }))
      store t =
          put_gone o (Only (own_key v) v.instance_id) (Vacant (own_key v)) (own_key v) v.instance_id
            (record v { state = deregistered; updated_at = t }) (λ m h. h)
            (λ m h.
              gone-Vacant (own_key v) (record v { state = deregistered; updated_at = t }) m refl)

  register_new-Leads :
      (request : RegisterRequest)
      → Leads o
          (Quiet o HasEntry (Vacant (local_key request.name request.port)))
          (Fine o)
          (register_new o c request)
  unfolding register_new new_service
  register_new-Leads request = calmly o _ (now-Within (calm_steps o) o) ▷ λ t.
      calmly o _ (ensure_route_document-Within (calm_steps o) o c _ _) ▷ λ u.
      calmly o _ (new_instance_id-Within (calm_steps o) o) ▷ λ id.
      calmly o _ (now-Within (calm_steps o) o) ▷ λ t'. announce_new id t'
    where
      announce_new :
          (id : Text) (t : ℕ)
          → Leads o
              (Quiet o HasEntry (Vacant (local_key request.name request.port)))
              (Fine o)
              (announce o c (new_service o c request id t))
      announce_new id t = announce-Leads o c leases (new_service o c request id t)

  -- Before the registration over what stands under the key.
  abbrev Finds : RegisterRequest → Option LocalService → State → Type 0
  Finds request existing s =
      NoOrphans o s × (lookup (local_key request.name request.port) s.local_services ≡ existing)

  vacant :
      (k : Text) (existing : Option LocalService) (m : Services)
      → ((v : LocalService) → existing ≡ some v → is_deregistered v.state ≡ true)
      → lookup k m ≡ existing
      → Vacant k m
  vacant k existing m h e v q = h v (sym e ∙ q)

  register_over-Leads :
      (request : RegisterRequest) (existing : Option LocalService)
      → ((v : LocalService) → existing ≡ some v → local_key request.name request.port ≡ own_key v)
      → Leads o (Finds request existing) (Fine o) (register_over o c request existing)
  unfolding register_over
  register_over-Leads request none own =
      weaken _ (λ s f. (f.0, vacant _ none s.local_services (λ v e. cc e) f.1))
        (register_new-Leads request)
  register_over-Leads request (some v) own =
      Leads-if o (is_deregistered v.state)
        (λ d.
          weaken _ (λ s f. (f.0, vacant _ (some v) s.local_services (gone d) f.1))
            (register_new-Leads request))
        (λ a.
          Leads-if o (same_register_request v.request request)
            (λ e. weaken _ known (replay-Leads v a))
            (λ e. weaken _ known (retire-Leads v ▷ λ u. new_again)))
    where
      gone :
          is_deregistered v.state ≡ true
          → (w : LocalService) → some v ≡ some w
          → is_deregistered w.state ≡ true
      gone d w e =
          let one : v ≡ w = cc e in ap (λ (x : LocalService). is_deregistered x.state) (sym one) ∙ d

      known :
          (s : State)
          → Finds request (some v) s
          → Quiet o HasEntry (Only (own_key v) v.instance_id) s
      known s f = (
        f.0,
        lookup-Only (own_key v) v s.local_services
            (ap (λ j. lookup j s.local_services) (sym (own v refl)) ∙ f.1),
      )

      new_again :
          Leads o (Quiet o HasEntry (Vacant (own_key v))) (Fine o) (register_new o c request)
      new_again =
          subst (λ k. Leads o (Quiet o HasEntry (Vacant k)) (Fine o) (register_new o c request))
            (own v refl) (register_new-Leads request)

  -- What stands under the key, with that key.
  abbrev Looked : RegisterRequest → Option LocalService → State → Type 0
  Looked request existing s =
      Finds request existing s
      × ((v : LocalService) → existing ≡ some v → local_key request.name request.port ≡ own_key v)

  local_service-Leads :
      (request : RegisterRequest)
      → Leads o
          (λ s. NoOrphans o s × AllTracked c s.local_services)
          (Looked request)
          (local_service request.name request.port)
  unfolding local_service
  local_service-Leads request = record {
    at = λ s h. (
      (h.0, refl),
      (λ v e.
          (All-lookup (IsTrackedEntry c) (local_key request.name request.port) s.local_services
            h.1.each v e).key_of),
    );
  }

  pub register-Leads :
      (request : RegisterRequest)
      → Leads o (λ s. NoOrphans o s × AllTracked c s.local_services) (Fine o) (register o c request)
  unfolding register
  register-Leads request = Leads-check (validate request) (λ s h. h.0) ▷ λ u.
      local_service-Leads request ▷ λ existing. record {
        at = λ s h. (register_over-Leads request existing h.1).at s h.0;
      }
