-- ===== src/Registry/Live/Steps.antt =====
-- The steps that tell Consul of an instance, and those that replace a service in the map.
use sidecar_agent.Prelude.{
  true, false, none, some, ◌∷◌, insert, ◌≡◌, ◌≢◌, ◌⊎◌, inl, inr, refl, arith, Bool-cases,
  Option-cases,
}
use sidecar_agent.Text.{Text, text_eq}
use sidecar_agent.Text.Equality.{text_key, text_eq_iff}
use sidecar_agent.Model.Error.{Error}
use sidecar_agent.Model.Service.{LocalService}
use sidecar_agent.Registry.Consul.{
  Call, service_register, service_deregister, AgentServiceRegistration, History, Outside,
}
use sidecar_agent.Registry.Exec.{Exec, perform, count}
use sidecar_agent.Registry.Exec.Rules.{Services}
use sidecar_agent.Registry.Register.{is_deregistered}
use sidecar_agent.Registry.Lifecycle.{put_service}
use sidecar_agent.Registry.Live.{
  effect, after_reply, is_live, HasEntry, NoOrphans, Only, same-HasEntry, other-HasEntry,
}
use sidecar_agent.Registry.Live.Calm.{IsCalm, Calm, is_live-before, deregister-IsCalm}
use sidecar_agent.Registry.Live.Changes.{Leads, Quiet, Fine, Calm-Leads}

-- An instance other than this one, with its service.
abbrev pub Other : Text → Text → Services → Type 0
Other i id m = (i ≢ id) × HasEntry id m

pub after_register :
    (o : Outside) (g : AgentServiceRegistration) (h : History) (id : Text)
    → is_live o id (service_register g ∷ h) ≡ true
    → (g.id ≡ id) ⊎ (is_live o id h ≡ true)
unfolding is_live effect after_reply
after_register o g h id e = elim (Option-cases (o.reply h (service_register g))) [
  | inl a ↦ elim (Bool-cases (text_eq g.id id)) [
    | inl q ↦ inl ((text_eq_iff g.id id).0 q)
    | inr q ↦ inr (ground (arith, e, a, q))
  ]
  | inr (x, a) ↦ inr (ground (arith, e, a))
]

-- A call that is refused changes nothing.
pub after_refused :
    (o : Outside) (call : Call) (h : History) (id : Text) (x : Error)
    → o.reply h call ≡ some x
    → is_live o id (call ∷ h) ≡ is_live o id h
unfolding is_live after_reply
after_refused o call h id x a = rw a refl

pub after_deregister :
    (o : Outside) (i : Text) (h : History) (id : Text)
    → o.reply h (service_deregister i) ≡ none
    → is_live o id (service_deregister i ∷ h) ≡ true
    → (i ≢ id) × (is_live o id h ≡ true)
unfolding is_live effect after_reply
after_deregister o i h id a e = elim (Bool-cases (text_eq i id)) [
  | inl q ↦ absurd (ground (arith, e, a, q))
  | inr q ↦ ((λ r. ground (arith, q, (text_eq_iff i id).1 r)), ground (arith, e, a, q))
]

module _ (o : Outside) where
  -- A calm action, where there are no orphans.
  pub calmly :
      (M : Services → Type 0) {A : Type 0} {m : Exec A}
      → Calm o m
      → Leads o (Quiet o HasEntry M) (λ a. Quiet o HasEntry M) m
  calmly M = Calm-Leads o M (λ id m h. h)

  not_registering :
      (i : Text) (h : History) (id : Text)
      → is_live o id (service_deregister i ∷ h) ≡ true
      → is_live o id h ≡ true
  not_registering i h id = is_live-before o (service_deregister i) h id (deregister-IsCalm i)

  -- Consul is told that an instance is gone, or refuses.
  pub deregister-Leads :
      (M : Services → Type 0) (i : Text)
      → Leads o
          (Quiet o HasEntry M)
          (λ (u : Unit {0}). Quiet o (Other i) M)
          (perform o (service_deregister i))
  unfolding perform
  deregister-Leads M i = record {
    at = λ s q. elim (Option-cases (o.reply s.history (service_deregister i))) [
      | inl a ↦
          rw a (
            (λ id e. let (d, live) = after_deregister o i s.history id a e in (d, q.0 id live)),
            q.1,
          )
      | inr (x, a) ↦ rw a (λ id e. q.0 id (not_registering i s.history id e))
    ];
  }

  -- The service of the instance that is gone is replaced.
  pub put_gone :
      (M M' : Services → Type 0) (k i : Text) (u : LocalService)
      → ((m : Services) → M m → Only k i m)
      → ((m : Services) → M m → M' (insert k u m))
      → Leads o (Quiet o (Other i) M) (λ (x : Unit {0}). Quiet o HasEntry M') (put_service k u)
  unfolding put_service
  put_gone M M' k i u only next = record {
    at = λ s q. (
      (λ id e.
          other-HasEntry k u s.local_services (q.0 id e).1 (only s.local_services q.1)
            (q.0 id e).0),
      next s.local_services q.1,
    );
  }

  -- A service that is not deregistered takes the place of one with its instance.
  pub put_same :
      (k : Text) (u : LocalService)
      → is_deregistered u.state ≡ false
      → Leads o (Quiet o HasEntry (Only k u.instance_id)) (Fine o) (put_service k u)
  unfolding put_service
  put_same k u a = record { at = λ s q id e. same-HasEntry k u s.local_services (q.0 id e) q.1 a }

  pub count-Leads :
      (call : Call)
      → IsCalm call
      → Leads o (NoOrphans o) (λ (u : Unit {0}). NoOrphans o) (count call)
  unfolding count
  count-Leads call calm = record {
    at = λ s h id e. h id (is_live-before o call s.history id calm e);
  }
