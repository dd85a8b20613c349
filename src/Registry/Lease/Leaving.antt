-- ===== src/Registry/Lease/Leaving.antt =====
-- A shutdown that succeeds leaves no service registered.
use mathlib.Core.List.Memᴰ
use mathlib.Core.List.{Memᴰ, Permᴰ}
use mathlib.Core.Path.{subst}
use sidecar_agent.Prelude.{
  true, false, none, some, List, [], ◌∷◌, map, ◌≡◌, refl, sym, ◌∙◌, ap, arith, if◌then◌else◌,
  lookup, insert, lookup-insert, All, Bool-cases, Option-cases, ◌⊎◌, inl, inr,
}
use sidecar_agent.Text.{Text, text_eq}
use sidecar_agent.Text.Equality.{text_key, text_eq_iff}
use sidecar_agent.Model.Error.{Error, Result, ok, err}
use sidecar_agent.Model.Service.{LocalService, deregistered}
use sidecar_agent.Registry.Consul.{Call, Outside, service_deregister, time_now}
use sidecar_agent.Registry.Exec.{State, perform, now}
use sidecar_agent.Registry.Exec.Rules.{Services}
use sidecar_agent.Registry.Client.{Client, local_key}
use sidecar_agent.Registry.Register.{store_local_service, is_deregistered}
use sidecar_agent.Registry.Tracked.{AllTracked, IsTrackedEntry, All-lookup}
use sidecar_agent.Registry.Tracked.Runs.{IsOrder}
use sidecar_agent.Registry.Lease.{active_services, deregister_all, shutdown}

abbrev pub own_key : LocalService → Text
own_key v = local_key v.request.name v.request.port

module _ (o : Outside) (c : Client) where
  -- The state after one service of the loop.
  abbrev next_state : LocalService → State → State
  next_state v s = record s {
    local_services =
        insert (own_key v)
          (record v {
            state = deregistered;
            updated_at = o.clock (service_deregister v.instance_id ∷ s.history);
          })
          s.local_services;
    history = time_now ∷ service_deregister v.instance_id ∷ s.history;
  }

  step_accepted :
      (v : LocalService) (vs : List LocalService) (s : State)
      → o.reply s.history (service_deregister v.instance_id) ≡ none
      → deregister_all o c (v ∷ vs) s ≡ deregister_all o c vs (next_state v s)
  unfolding deregister_all perform now store_local_service
  step_accepted v vs s h = ground (arith, h)

  step_refused :
      (v : LocalService) (vs : List LocalService) (s : State) (e : Error)
      → o.reply s.history (service_deregister v.instance_id) ≡ some e
      → (deregister_all o c (v ∷ vs) s).0 ≡ err e
  unfolding deregister_all perform
  step_refused v vs s e h = ground (arith, h)

  -- Where the loop succeeds, Consul accepted the first service and the rest of the loop succeeded.
  step_ok :
      (v : LocalService) (vs : List LocalService) (s : State)
      → (deregister_all o c (v ∷ vs) s).0 ≡ ok tt
      → (deregister_all o c (v ∷ vs) s ≡ deregister_all o c vs (next_state v s))
        × ((deregister_all o c vs (next_state v s)).0 ≡ ok tt)
  step_ok v vs s h = elim (Option-cases (o.reply s.history (service_deregister v.instance_id))) [
    | inl e ↦ (
      step_accepted v vs s e,
      sym (ap (λ (p : Result (Unit {0}) × State). p.0) (step_accepted v vs s e)) ∙ h,
    )
    | inr (x, e) ↦ cc (step_refused v vs s x e, h)
  ]

  -- What is still active is among the services to come.
  abbrev Covers : List LocalService → Services → Type 0
  Covers vs m =
      (k : Text) (v : LocalService)
      → lookup k m ≡ some v
      → is_deregistered v.state ≡ false
      → Memᴰ k (map own_key vs)

  Covers-next :
      (v : LocalService) (vs : List LocalService) (s : State)
      → Covers (v ∷ vs) s.local_services
      → Covers vs (next_state v s).local_services
  Covers-next v vs s cov k w e a = elim (Bool-cases (text_eq (own_key v) k)) [
    | inl q ↦
        absurd (ground (arith, q, e, a, lookup-insert (own_key v) k (stored v) s.local_services))
    | inr q ↦
        later q (
          cov k w (ground (arith, q, e, lookup-insert (own_key v) k (stored v) s.local_services)) a)
  ]
    where
      stored : LocalService → LocalService
      stored u = record u {
        state = deregistered;
        updated_at = o.clock (service_deregister u.instance_id ∷ s.history);
      }

      later :
          text_eq (own_key v) k ≡ false
          → Memᴰ k (own_key v ∷ map own_key vs)
          → Memᴰ k (map own_key vs)
      later q (Memᴰ.head p) = absurd (ground (arith, q, (text_eq_iff (own_key v) k).1 (sym p)))
      later q (Memᴰ.tail m) = m

  remembered :
      (vs : List LocalService) (s : State) (call : Call)
      → (deregister_all o c vs s).0 ≡ ok tt
      → Memᴰ call s.history
      → Memᴰ call (deregister_all o c vs s).1.history
  remembered [] s call h m = unfold deregister_all in m
  remembered (v ∷ vs) s call h m =
      let (e, h') = step_ok v vs s h in
      rw e (remembered vs (next_state v s) call h' (Memᴰ.tail (Memᴰ.tail m)))

  deregister_all-Covers :
      (vs : List LocalService) (s : State)
      → (deregister_all o c vs s).0 ≡ ok tt
      → Covers vs s.local_services
      → Covers [] (deregister_all o c vs s).1.local_services
  deregister_all-Covers [] s h cov = unfold deregister_all in cov
  deregister_all-Covers (v ∷ vs) s h cov =
      let (e, h') = step_ok v vs s h in
      rw e (deregister_all-Covers vs (next_state v s) h' (Covers-next v vs s cov))

  deregister_all-calls :
      (vs : List LocalService) (s : State)
      → (deregister_all o c vs s).0 ≡ ok tt
      → All (λ v. Memᴰ (service_deregister v.instance_id) (deregister_all o c vs s).1.history) vs
  deregister_all-calls [] s h = tt
  deregister_all-calls (v ∷ vs) s h =
      let (e, h') = step_ok v vs s h in
      subst
        (λ (p : Result (Unit {0}) × State).
          All (λ w. Memᴰ (service_deregister w.instance_id) p.1.history) (v ∷ vs))
        (sym e)
        (
          remembered vs (next_state v s) (service_deregister v.instance_id) h'
              (Memᴰ.tail (Memᴰ.head refl)),
          deregister_all-calls vs (next_state v s) h',
        )

Memᴰ-perm : {A : Type 0} {a : A} {xs ys : List A} → Permᴰ xs ys → Memᴰ a xs → Memᴰ a ys
Memᴰ-perm Permᴰ.nil m = m
Memᴰ-perm (Permᴰ.cons e p) (Memᴰ.head q) = Memᴰ.head (q ∙ e)
Memᴰ-perm (Permᴰ.cons e p) (Memᴰ.tail m) = Memᴰ.tail (Memᴰ-perm p m)
Memᴰ-perm (Permᴰ.swap e f) (Memᴰ.head q) = Memᴰ.tail (Memᴰ.head (q ∙ e))
Memᴰ-perm (Permᴰ.swap e f) (Memᴰ.tail (Memᴰ.head q)) = Memᴰ.head (q ∙ f)
Memᴰ-perm (Permᴰ.swap e f) (Memᴰ.tail (Memᴰ.tail m)) = Memᴰ.tail (Memᴰ.tail m)
Memᴰ-perm (Permᴰ.trans p q) m = Memᴰ-perm q (Memᴰ-perm p m)

Memᴰ-map : {A B : Type 0} (f : A → B) {a : A} {xs : List A} → Memᴰ a xs → Memᴰ (f a) (map f xs)
Memᴰ-map f (Memᴰ.head e) = Memᴰ.head (ap f e)
Memᴰ-map f (Memᴰ.tail m) = Memᴰ.tail (Memᴰ-map f m)

lookup-active :
    (k : Text) (v : LocalService) (m : Services)
    → lookup k m ≡ some v
    → is_deregistered v.state ≡ false
    → Memᴰ v (active_services m)
unfolding lookup active_services
lookup-active k v [] e a = cc
lookup-active k v ((j, w) ∷ m) e a = elim (Bool-cases (text_eq j k)) [
  | inl q ↦
      let p : w ≡ v = ground (arith, q, e) in
      let d : is_deregistered w.state ≡ false =
        ap (λ (u : LocalService). is_deregistered u.state) p ∙ a in
      rw d (Memᴰ.head (sym p))
  | inr q ↦
      deeper (Bool-cases (is_deregistered w.state)) (lookup-active k v m (ground (arith, q, e)) a)
]
  where
    deeper :
        (is_deregistered w.state ≡ true) ⊎ (is_deregistered w.state ≡ false)
        → Memᴰ v (active_services m)
        → Memᴰ v (if is_deregistered w.state then active_services m else w ∷ active_services m)
    deeper (inl d) mem = rw d mem
    deeper (inr d) mem = rw d (Memᴰ.tail mem)

-- What a shutdown that succeeds leaves behind.
pub record HasLeft (c : Client) (before after : State) : Type 0 where
  pub none_left :
      (k : Text) (v : LocalService)
      → lookup k after.local_services ≡ some v
      → is_deregistered v.state ≡ true
  pub all_told :
      (k : Text) (v : LocalService)
      → lookup k before.local_services ≡ some v
      → is_deregistered v.state ≡ false
      → Memᴰ (service_deregister v.instance_id) after.history
  pub stopped : after.running ≡ false

running-deregister_all :
    (o : Outside) (c : Client) (vs : List LocalService) (s : State)
    → (deregister_all o c vs s).0 ≡ ok tt
    → (deregister_all o c vs s).1.running ≡ s.running
running-deregister_all o c [] s h = unfold deregister_all in refl
running-deregister_all o c (v ∷ vs) s h =
    let (e, h') = step_ok o c v vs s h in
    ap (λ (p : Result (Unit {0}) × State). p.1.running) e
    ∙ running-deregister_all o c vs (next_state o c v s) h'

All-Memᴰ : {A : Type 0} (P : A → Type 0) {a : A} (xs : List A) → All P xs → Memᴰ a xs → P a
All-Memᴰ P [] h m = absurd (Memᴰ.not-nil m)
All-Memᴰ P (x ∷ xs) h (Memᴰ.head e) = subst P (sym e) h.0
All-Memᴰ P (x ∷ xs) h (Memᴰ.tail m) = All-Memᴰ P xs h.1 m

module _ (o : Outside) (c : Client) (visit : List LocalService → List LocalService)
    (order : IsOrder visit) (s : State) (tracked : AllTracked c s.local_services)
    (done : (shutdown o c visit s).0 ≡ ok tt) where
  visited :
      (k : Text) (v : LocalService)
      → lookup k s.local_services ≡ some v
      → is_deregistered v.state ≡ false
      → Memᴰ v (visit (active_services s.local_services))
  visited k v e a = Memᴰ-perm (order _) (lookup-active k v s.local_services e a)

  covered : Covers o c (visit (active_services s.local_services)) s.local_services
  covered k v e a =
      subst (λ j. Memᴰ j (map own_key (visit (active_services s.local_services))))
        (sym (All-lookup (IsTrackedEntry c) k s.local_services tracked.each v e).key_of)
        (Memᴰ-map own_key (visited k v e a))

  not_active :
      (v : LocalService) → ((is_deregistered v.state ≡ false) → ⊥) → is_deregistered v.state ≡ true
  not_active v h = elim (Bool-cases (is_deregistered v.state)) [ inl e ↦ e | inr e ↦ absurd (h e) ]

  -- After a shutdown that succeeds, begun where the invariant of the map holds, every service in the
  -- map is deregistered, Consul has been asked to deregister each instance that was not so before,
  -- and the refresh of leases is stopped, whatever the order of the iteration.
  pub shutdown-HasLeft : HasLeft c s (shutdown o c visit s).1
  unfolding shutdown
  shutdown-HasLeft =
      let vs = visit (active_services s.local_services) in
      let s' : State = record s { running = false } in
      record {
        none_left = λ k v e.
            not_active v (λ a. Memᴰ.not-nil (deregister_all-Covers o c vs s' done covered k v e a));
        all_told = λ k v e a. All-Memᴰ _ vs (deregister_all-calls o c vs s' done) (visited k v e a);
        stopped = running-deregister_all o c vs s' done;
      }
