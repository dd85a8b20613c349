-- ===== src/Registry/Live/Announcing.antt =====
-- An announcement keeps every registered instance in the map, the new one included.
use mathlib.Core.Path.{subst}
use sidecar_agent.Prelude.{
  true, false, none, ◌∷◌, insert, ◌≡◌, ◌⊎◌, inl, inr, refl, sym, ◌∙◌, Option-cases,
}
use sidecar_agent.Text.{Text}
use sidecar_agent.Text.Equality.{text_key}
use sidecar_agent.Model.Service.{LocalService, serving}
use sidecar_agent.Registry.Consul.{
  Call, service_register, update_ttl, time_now, inc_register, History, Outside,
}
use sidecar_agent.Registry.Exec.{State, perform, now, count}
use sidecar_agent.Registry.Client.{Client, local_key}
use sidecar_agent.Registry.Register.{
  store_local_service, pass_lease, announce, is_deregistered, registration_for,
}
use sidecar_agent.Registry.Live.{
  effect, is_live, HasEntry, Vacant, over_nothing-HasEntry, here-HasEntry,
}
use sidecar_agent.Registry.Live.Calm.{is_live-before}
use sidecar_agent.Registry.Live.Changes.{Leads, Quiet, Fine}
use sidecar_agent.Registry.Live.Steps.{after_register, after_refused}

-- Consul accepts each refresh of a lease.
abbrev pub AcceptsLeases : Outside → Type 0
AcceptsLeases o =
    (h : History) (check_id output status : Text)
    → o.reply h (update_ttl check_id output status) ≡ none

abbrev pub own_key : LocalService → Text
own_key v = local_key v.request.name v.request.port

module _ (o : Outside) (c : Client) (leases : AcceptsLeases o) where
  -- The calls of an announcement after the first.
  last_calls :
      (call : Call) (h : History) (check_id output status : Text) (id : Text)
      → is_live o id (inc_register ∷ time_now ∷ update_ttl check_id output status ∷ call ∷ h) ≡ true
      → is_live o id (call ∷ h) ≡ true
  unfolding effect
  last_calls call h i output status id e =
      is_live-before o (update_ttl i output status) (call ∷ h) id (λ id b e. e)
        (is_live-before o time_now _ id (λ id b e. e)
          (is_live-before o inc_register _ id (λ id b e. e) e))

  -- The instance that is announced has its service, and the others keep theirs.
  announced :
      (v : LocalService) (s : State) (id : Text)
      → Quiet o HasEntry (Vacant (own_key v)) s
      → is_deregistered v.state ≡ false
      → (v.instance_id ≡ id) ⊎ (is_live o id s.history ≡ true)
      → HasEntry id (insert (own_key v) v s.local_services)
  announced v s id q a (inl p) =
      subst (λ i. HasEntry i (insert (own_key v) v s.local_services)) p
        (here-HasEntry (own_key v) v s.local_services a)
  announced v s id q a (inr live) =
      over_nothing-HasEntry (own_key v) v s.local_services (q.0 id live) q.1

  pub announce-Leads :
      (v : LocalService)
      → Leads o (Quiet o HasEntry (Vacant (own_key v))) (λ a. Fine o a) (announce o c v)
  unfolding announce perform pass_lease now store_local_service count registration_for
  announce-Leads v = record {
    at = λ s q.
        elim (Option-cases (o.reply s.history (service_register (registration_for o c v)))) [
          | inl a ↦
              rw (a, leases)
                (λ id e.
                  announced (record v { state = serving; updated_at = _ }) s id q refl
                    (after_register o (registration_for o c v) s.history id
                      (last_calls _ s.history _ _ _ id e)))
          | inr (x, a) ↦ rw a (λ id e. q.0 id (sym (after_refused o _ s.history id x a) ∙ e))
        ];
  }
