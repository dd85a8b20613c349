-- ===== src/Registry/Live/Racing.antt =====
-- Two registrations of one service that look it up before either has stored it. The other modules take
-- a registration as one step; here the second lookup comes between the steps of the first.
use sidecar_agent.Prelude.{
  ℕ, Bool, true, false, Option, none, some, List, ◌∷◌, lookup, insert, lookup-insert, if◌then◌else◌,
  ◌≡◌, ◌≢◌, refl, sym, ◌∙◌, ap, Bool-cases, inl, inr,
}
use sidecar_agent.Text.{Text, text_eq, codes}
use sidecar_agent.Text.Equality.{text_key, text_eq_iff}
use sidecar_agent.Model.Error.{Error, Result, ok}
use sidecar_agent.Model.Request.{RegisterRequest}
use sidecar_agent.Model.Service.{LocalService, serving}
use sidecar_agent.Registry.Consul.{
  Call, History, Outside, service_register, update_ttl, time_now, inc_register, rand_read, kv_put,
  kv_get,
}
use sidecar_agent.Registry.Exec.{State, Exec, pure, ◌>>=◌, perform, now, count}
use sidecar_agent.Registry.Exec.Rules.{Services}
use sidecar_agent.Registry.Client.{Client, local_key}
use sidecar_agent.Registry.Register.{
  local_service, store_local_service, pass_lease, announce, register_new, register_over,
  registration_for, new_service,
}
use sidecar_agent.Registry.Live.{effect, after_reply, is_live, HasEntry}
use sidecar_agent.Registry.Live.Announcing.{AcceptsLeases, own_key}
use sidecar_agent.Registry.Live.Opening.{Opens, new_instance, prepared, register_new-announce}

-- Both requests are valid and look the service up; then the first goes through, and then the second.
unfoldable pub race : Outside → Client → RegisterRequest → Exec (LocalService × LocalService)
race o c r = do
  first ← local_service r.name r.port
  second ← local_service r.name r.port
  v ← register_over o c r first
  w ← register_over o c r second
  pure (v, w)

module _ (o : Outside) (c : Client) (r : RegisterRequest) (bytes : History → List ℕ)
    (w : Opens o c r bytes) (leases : AcceptsLeases o) where
  -- The state after an announcement.
  abbrev calls_of : LocalService → History → History
  calls_of v h =
      update_ttl v.lease_check_id (codes "agent ownership is healthy") (codes "passing")
      ∷ service_register (registration_for o c v)
      ∷ h

  abbrev served : LocalService → History → LocalService
  served v h = record v { state = serving; updated_at = o.clock (calls_of v h) }

  abbrev after_announce : LocalService → State → State
  after_announce v s = record s {
    local_services = insert (own_key v) (served v s.history) s.local_services;
    history = inc_register ∷ time_now ∷ calls_of v s.history;
  }

  announce-done :
      (v : LocalService) (s : State)
      → announce o c v s ≡ (ok (served v s.history), after_announce v s)
  unfolding announce perform pass_lease now store_local_service count
  announce-done v s = rw (w.registers, leases) refl

  same_reply : (x : Option Error) (b : Bool) → after_reply x b b ≡ b
  unfolding after_reply
  same_reply none b = refl
  same_reply (some e) b = refl

  -- A call about no instance.
  neutral :
      (call : Call) (h : History) (id : Text)
      → ((b : Bool) → effect id call b ≡ b)
      → is_live o id (call ∷ h) ≡ is_live o id h
  unfolding is_live
  neutral call h id e =
      ap (λ b. after_reply (o.reply h call) b (is_live o id h)) (e (is_live o id h))
      ∙ same_reply (o.reply h call) (is_live o id h)

  -- An announcement registers this instance and leaves the others.
  is_live-announced :
      (v : LocalService) (h : History) (id : Text)
      → is_live o id (inc_register ∷ time_now ∷ calls_of v h)
        ≡ (if text_eq v.instance_id id then true else is_live o id h)
  unfolding effect is_live after_reply registration_for
  is_live-announced v h id =
      neutral inc_register _ id (λ b. refl)
      ∙ (neutral time_now _ id (λ b. refl)
          ∙ (neutral (update_ttl _ _ _) _ id (λ b. refl) ∙ first_call v h id))
    where
      first_call :
          (v : LocalService) (h : History) (id : Text)
          → is_live o id (service_register (registration_for o c v) ∷ h)
            ≡ (if text_eq v.instance_id id then true else is_live o id h)
      first_call v h id = rw (w.registers h (registration_for o c v)) refl

  -- What precedes it concerns no instance.
  is_live-prepared :
      (s : State) (id : Text)
      → is_live o id (prepared o c r bytes w s).history ≡ is_live o id s.history
  unfolding effect
  is_live-prepared s id =
      neutral time_now _ id (λ b. refl)
      ∙ (neutral time_now _ id (λ b. refl)
          ∙ (neutral rand_read _ id (λ b. refl)
              ∙ (neutral (kv_put _ _) _ id (λ b. refl)
                  ∙ (neutral (kv_get _) _ id (λ b. refl) ∙ neutral time_now _ id (λ b. refl)))))

  -- The state and the service after the registration of a new instance.
  abbrev pub registered_at : State → LocalService
  registered_at s = served (new_instance o c r bytes w s.history) (prepared o c r bytes w s).history

  abbrev pub after_new : State → State
  after_new s = after_announce (new_instance o c r bytes w s.history) (prepared o c r bytes w s)

  register_new-done : (s : State) → register_new o c r s ≡ (ok (registered_at s), after_new s)
  register_new-done s =
      register_new-announce o c r bytes w s
      ∙ announce-done (new_instance o c r bytes w s.history) (prepared o c r bytes w s)

  is_live-after_new :
      (s : State) (id : Text)
      → is_live o id (after_new s).history
        ≡ (if text_eq (registered_at s).instance_id id then true else is_live o id s.history)
  is_live-after_new s id =
      is_live-announced (new_instance o c r bytes w s.history) (prepared o c r bytes w s).history id
      ∙ ap (λ b. if text_eq (registered_at s).instance_id id then true else b)
          (is_live-prepared s id)

  pub race-done :
      (s : State)
      → lookup (local_key r.name r.port) s.local_services ≡ none
      → race o c r s ≡ (ok (registered_at s, registered_at (after_new s)), after_new (after_new s))
  unfolding race local_service register_over
  race-done s absent = rw (absent, register_new-done s, register_new-done (after_new s)) refl

  -- Over a service of another instance nothing is left of the first.
  replaced :
      (k : Text) (u v : LocalService) (m : Services)
      → u.instance_id ≢ v.instance_id
      → (HasEntry u.instance_id m → ⊥)
      → HasEntry u.instance_id (insert k v (insert k u m))
      → ⊥
  replaced k u v m other fresh h = elim (Bool-cases (text_eq k h.key)) [
    | inl q ↦
        let found : some v ≡ some h.service =
          sym (lookup-insert k h.key v (insert k u m) ∙ rw q refl) ∙ h.kept in
        let same : v ≡ h.service = cc found in
        other (sym h.same ∙ ap (λ (x : LocalService). x.instance_id) (sym same))
    | inr q ↦ fresh (record {
      key = h.key;
      service = h.service;
      kept =
          sym
            (lookup-insert k h.key v (insert k u m) ∙ rw q (lookup-insert k h.key u m ∙ rw q refl))
          ∙ h.kept;
      same = h.same;
      active = h.active;
    })
  ]

  if_same : (b : Bool) → (if b then true else true) ≡ true
  if_same true = refl
  if_same false = refl

  first_is_live :
      (s : State) → is_live o (registered_at s).instance_id (after_new (after_new s)).history ≡ true
  first_is_live s =
      let id : Text = (registered_at s).instance_id in
      let before : is_live o id (after_new s).history ≡ true =
        is_live-after_new s id ∙ rw ((text_eq_iff id id).1 refl) refl in
      is_live-after_new (after_new s) id
      ∙ rw before (if_same (text_eq (registered_at (after_new s)).instance_id id))

  first_is_replaced :
      (s : State)
      → (registered_at s).instance_id ≢ (registered_at (after_new s)).instance_id
      → ¬ (HasEntry (registered_at s).instance_id s.local_services)
      → ¬ (HasEntry (registered_at s).instance_id (after_new (after_new s)).local_services)
  unfolding new_service
  first_is_replaced s other fresh =
      replaced (local_key r.name r.port) (registered_at s) (registered_at (after_new s))
        s.local_services other fresh

  -- Two registrations with the same request, for a service that the map does not have: both look it up
  -- before either has stored it, and then one goes through and after it the other. Each read of the
  -- service's route document returns nothing, an empty value or routes that say the same as the
  -- request, and Consul takes every document, instance and lease. Where both return, with different
  -- instances, the instance of the first stays registered, as the last accepted call about it, but no
  -- service of the map has it, unless one had before.
  pub race-HasEntry :
      (s : State) (first second : LocalService)
      → lookup (local_key r.name r.port) s.local_services ≡ none
      → (race o c r s).0 ≡ ok (first, second)
      → first.instance_id ≢ second.instance_id
      → ¬ (HasEntry first.instance_id s.local_services)
      → (is_live o first.instance_id (race o c r s).1.history ≡ true)
        × (¬ (HasEntry first.instance_id (race o c r s).1.local_services))
  race-HasEntry s first second absent done other fresh =
      let both : ok (registered_at s, registered_at (after_new s)) ≡ ok (first, second) =
        sym (ap (λ (p : Result (LocalService × LocalService) × State). p.0) (race-done s absent))
        ∙ done in
      let one : registered_at s ≡ first = cc both in
      let two : registered_at (after_new s) ≡ second = cc both in
      rw (race-done s absent, ← one)
        (first_is_live s, first_is_replaced s (rw (← one, ← two) at other) (rw (← one) at fresh))
