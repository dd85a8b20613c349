-- ===== src/Registry/Live/Leaving.antt =====
-- A drain, a deregistration and a shutdown keep every registered instance in the map.
use sidecar_agent.Prelude.{
  ℕ, false, Option, none, some, List, [], ◌∷◌, lookup, insert, All, All-mono, All-perm, ◌≡◌, ◌≢◌,
  refl, sym, Bool-cases, inl, inr,
}
use sidecar_agent.Prelude.Int.{ℤ}
use sidecar_agent.Text.{Text, text_eq}
use sidecar_agent.Text.Equality.{text_key, text_eq_iff}
use sidecar_agent.Sort.Distinct.{Distinct}
use sidecar_agent.Model.Request.{
  DrainRequest, DeregisterRequest, validate_drain, validate_deregister, grace_period,
}
use sidecar_agent.Model.Service.{LocalService, draining, deregistered}
use sidecar_agent.Registry.Consul.{inc_drain, inc_deregister, Outside}
use sidecar_agent.Registry.Exec.{State}
use sidecar_agent.Registry.Exec.Rules.{Services}
use sidecar_agent.Registry.Client.{Client, local_key}
use sidecar_agent.Registry.Register.{local_service, store_local_service, is_deregistered}
use sidecar_agent.Registry.Lifecycle.{
  add_duration, put_service, found, drain_service, drain, deregister_service, deregister,
}
use sidecar_agent.Registry.Lease.{active_services, deregister_all, shutdown}
use sidecar_agent.Registry.Tracked.{IsTrackedEntry, AllTracked, key_part}
use sidecar_agent.Registry.Tracked.Runs.{IsOrder}
use sidecar_agent.Registry.Within.{now-Within}
use sidecar_agent.Registry.Live.{effect, HasEntry, NoOrphans, Only, lookup-Only, gone-Only}
use sidecar_agent.Registry.Live.Calm.{Calm-maintenance, calm_steps}
use sidecar_agent.Registry.Live.Changes.{
  Leads, Quiet, Fine, weaken, Leads-check, Leads-lift, Leads-pure, Leads-fail, ◌▷◌, Calm-Leads,
  leaves-NoOrphans,
}
use sidecar_agent.Registry.Live.Steps.{
  calmly, Other, deregister-Leads, put_gone, put_same, count-Leads,
}
use sidecar_agent.Registry.Live.Announcing.{own_key}

module _ (o : Outside) where
  -- What stands under the key.
  local_service-Leads :
      (name : Text) (port : ℤ)
      → Leads o
          (NoOrphans o)
          (λ existing s. NoOrphans o s × (lookup (local_key name port) s.local_services ≡ existing))
          (local_service name port)
  unfolding local_service
  local_service-Leads name port = record { at = λ s h. (h, refl) }

  found-Leads :
      (name : Text) (port : ℤ) (existing : Option LocalService)
      → Leads o
          (λ s. NoOrphans o s × (lookup (local_key name port) s.local_services ≡ existing))
          (λ v. Quiet o HasEntry (Only (local_key name port) v.instance_id))
          (found name port existing)
  unfolding found
  found-Leads name port none = Leads-fail o _ (λ s h. h.0)
  found-Leads name port (some v) =
      Leads-pure o v (λ s h. (h.0, lookup-Only (local_key name port) v s.local_services h.1))

  drain_service-Leads :
      (k : Text) (grace : ℤ) (v : LocalService)
      → Leads o (Quiet o HasEntry (Only k v.instance_id)) (Fine o) (drain_service o k grace v)
  unfolding drain_service effect
  drain_service-Leads k grace v = calmly o _ (Calm-maintenance o _ _) ▷ λ u.
      calmly o _ (now-Within (calm_steps o) o) ▷ λ t.
      calmly o _ (now-Within (calm_steps o) o) ▷ λ t'. put_same o k (drained t t') refl ▷ λ u.
      count-Leads o inc_drain (λ id b e. e) ▷ λ u. Leads-pure o (drained t t') (λ s h. h)
    where
      drained : ℕ → ℕ → LocalService
      drained t t' = record v {
        state = draining;
        updated_at = t';
        drain_deadline = some (add_duration t grace);
      }

  pub drain-Leads : (request : DrainRequest) → Leads o (NoOrphans o) (Fine o) (drain o request)
  unfolding drain
  drain-Leads request = Leads-check (validate_drain o.parse_duration request) (λ s h. h) ▷ λ u.
      Leads-lift (grace_period o.parse_duration request) (λ s h. h) ▷ λ grace.
      local_service-Leads request.name request.port ▷ λ existing.
      found-Leads request.name request.port existing ▷ λ v. drain_service-Leads _ grace v

  deregister_service-Leads :
      (k : Text) (v : LocalService)
      → Leads o (Quiet o HasEntry (Only k v.instance_id)) (Fine o) (deregister_service o k v)
  unfolding deregister_service effect
  deregister_service-Leads k v = deregister-Leads o (Only k v.instance_id) v.instance_id ▷ λ u.
      Calm-Leads o _ (λ id m h. h.1) (now-Within (calm_steps o) o) ▷ λ t.
      put_gone o (Only k v.instance_id) (λ m. Unit) k v.instance_id (gone t) (λ m h. h) (λ m h. tt)
      ▷ λ u. weaken (NoOrphans o) (λ s h. h.0) (count-Leads o inc_deregister (λ id b e. e)) ▷ λ u.
          Leads-pure o (gone t) (λ s h. h)
    where
      gone : ℕ → LocalService
      gone t = record v { state = deregistered; updated_at = t; drain_deadline = none }

  pub deregister_request-Leads :
      (request : DeregisterRequest) → Leads o (NoOrphans o) (Fine o) (deregister o request)
  unfolding deregister
  deregister_request-Leads request = Leads-check (validate_deregister request) (λ s h. h) ▷ λ u.
      local_service-Leads request.name request.port ▷ λ existing.
      found-Leads request.name request.port existing ▷ λ v. deregister_service-Leads _ v

-- No other service stands under the key of a service.
abbrev Alone : Services → LocalService → Type 0
Alone m v = Only (own_key v) v.instance_id m

module _ (o : Outside) (c : Client) where
  deregister_all-Leads :
      (vs : List LocalService)
      → Leads o (Quiet o HasEntry (λ m. All (Alone m) vs)) (Fine o) (deregister_all o c vs)
  unfolding deregister_all store_local_service put_service
  deregister_all-Leads [] = Leads-pure o tt (λ s h. h.0)
  deregister_all-Leads (v ∷ vs) =
      deregister-Leads o (λ m. All (Alone m) (v ∷ vs)) v.instance_id ▷ λ u.
      Calm-Leads o _ (λ id m h. h.1) (now-Within (calm_steps o) o) ▷ λ t.
      store t ▷ λ u. deregister_all-Leads vs
    where
      gone : ℕ → LocalService
      gone t = record v { state = deregistered; updated_at = t }

      store :
          (t : ℕ)
          → Leads o
              (Quiet o (Other v.instance_id) (λ m. All (Alone m) (v ∷ vs)))
              (λ (u : Unit {0}). Quiet o HasEntry (λ m. All (Alone m) vs))
              (store_local_service (gone t))
      store t =
          put_gone o (λ m. All (Alone m) (v ∷ vs)) (λ m. All (Alone m) vs) (own_key v) v.instance_id
            (gone t) (λ m h. h.0)
            (λ m h.
              All-mono (Alone m) (Alone (insert (own_key v) (gone t) m))
                (λ w. gone-Only (own_key v) (gone t) m refl (own_key w) w.instance_id) vs h.1)

  All-both :
      {A : Type 0} (P Q : A → Type 0) (xs : List A) → All P xs → All Q xs → All (λ x. P x × Q x) xs
  All-both P Q [] p q = tt
  All-both P Q (x ∷ xs) p q = ((p.0, q.0), All-both P Q xs p.1 q.1)

  -- Each entry is what its key finds.
  lookup_each : (m : Services) → Distinct key_part m → All (λ e. lookup e.0 m ≡ some e.1) m
  unfolding lookup
  lookup_each [] d = tt
  lookup_each ((k, v) ∷ m) d = (
    rw ((text_eq_iff k k).1 refl) refl,
    All-mono (λ e. (e.0 ≢ k) × (lookup e.0 m ≡ some e.1)) (λ e. lookup e.0 ((k, v) ∷ m) ≡ some e.1)
        (λ e h. elsewhere e.0 e.1 (λ q. h.0 (sym q)) h.1) m
        (All-both _ _ m d.0 (lookup_each m d.1)),
  )
    where
      elsewhere :
          (j : Text) (w : LocalService)
          → k ≢ j
          → lookup j m ≡ some w
          → lookup j ((k, v) ∷ m) ≡ some w
      elsewhere j w other e = elim (Bool-cases (text_eq k j)) [
        | inl q ↦ absurd (other ((text_eq_iff k j).0 q))
        | inr q ↦ rw q e
      ]

  active-All :
      (P : LocalService → Type 0) (m : Services) → All (λ e. P e.1) m → All P (active_services m)
  unfolding active_services
  active-All P [] h = tt
  active-All P ((k, v) ∷ m) h = elim (Bool-cases (is_deregistered v.state)) [
    | inl e ↦ rw e (active-All P m h.1)
    | inr e ↦ rw e (h.0, active-All P m h.1)
  ]

  active-Alone : (m : Services) → AllTracked c m → All (Alone m) (active_services m)
  active-Alone m h = active-All (Alone m) m (
      All-mono (λ e. IsTrackedEntry c e × (lookup e.0 m ≡ some e.1)) (λ e. Alone m e.1)
        (λ e q. rw q.0.key_of at (lookup-Only e.0 e.1 m q.1)) m
        (All-both _ _ m h.each (lookup_each m h.one_per_key)))

  pub shutdown-NoOrphans :
      (visit : List LocalService → List LocalService) (s : State)
      → IsOrder visit
      → AllTracked c s.local_services
      → NoOrphans o s
      → NoOrphans o (shutdown o c visit s).1
  unfolding shutdown
  shutdown-NoOrphans visit s order tracked h =
      leaves-NoOrphans (deregister_all-Leads (visit (active_services s.local_services)))
        (record s { running = false })
        (h, All-perm (Alone s.local_services) (order _) (active-Alone s.local_services tracked))
