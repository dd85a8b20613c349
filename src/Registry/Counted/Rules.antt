-- ===== src/Registry/Counted/Rules.antt =====
-- Each step of the client's methods keeps the tally.
use sidecar_agent.Prelude.{
  ◌+◌, ◌≤◌, Bool, true, false, ◌∷◌, if◌then◌else◌, Option-cases, inl, inr, ◌≡◌, refl, ap, arith,
}
use sidecar_agent.Prelude.Int.{ℤ}
use sidecar_agent.Text.{Text, codes}
use sidecar_agent.Model.Service.{LocalService}
use sidecar_agent.Registry.Consul.{
  Call, service_register, service_deregister, enable_service_maintenance, update_ttl, kv_get,
  kv_put, catalog_services, health_service, time_now, rand_read, inc_register, inc_drain,
  inc_deregister, History, Outside,
}
use sidecar_agent.Registry.Exec.{State, Exec, perform, now, count}
use sidecar_agent.Registry.Client.{Client}
use sidecar_agent.Registry.Register.{store_local_service, pass_lease, announce, registration_for}
use sidecar_agent.Registry.Lifecycle.{put_service, drain_service, deregister_service}
use sidecar_agent.Registry.Live.Announcing.{AcceptsLeases}
use sidecar_agent.Registry.Within.{IsPlain, Allows, Within}
use sidecar_agent.Registry.Counted.{
  recorded, accepted, is_accepted, is_registration, is_maintenance, is_deregistration, Tallies,
}
use sidecar_agent.Telemetry.Metrics

-- If the metrics tallied before, they do after.
abbrev pub KeepsTally : Outside → State → State → Type 0
KeepsTally o before after = Tallies o before.history → Tallies o after.history

abbrev pub Counts : Outside → {A : Type 0} → Exec A → Type 0
Counts o m = Within (KeepsTally o) m

module _ (o : Outside) where
  -- A deregistration that is accepted or not.
  pub deregistration-Tallies :
      (id : _) (h : History) → Tallies o h → Tallies o (service_deregister id ∷ h)
  unfolding recorded accepted
  deregistration-Tallies id h t = record {
    registered = t.registered;
    drained = t.drained;
    deregistered = by_reply (is_accepted (o.reply h (service_deregister id)));
  }
    where
      by_reply :
          (b : Bool)
          → (recorded h).deregister_total
            ≤ (if b then accepted o is_deregistration h + 1 else accepted o is_deregistration h)
      by_reply true = omega (arith, t.deregistered)
      by_reply false = t.deregistered

  same :
      {h h' : History}
      → recorded h' ≡ recorded h
      → accepted o is_registration h' ≡ accepted o is_registration h
      → accepted o is_maintenance h' ≡ accepted o is_maintenance h
      → accepted o is_deregistration h' ≡ accepted o is_deregistration h
      → Tallies o h
      → Tallies o h'
  same r a b d t = record {
    registered = rw (r, a) t.registered;
    drained = rw (r, b) t.drained;
    deregistered = rw (r, d) t.deregistered;
  }

  -- A plain call.
  pub plain-Tallies :
      (call : Call) → IsPlain call → (h : History) → Tallies o h → Tallies o (call ∷ h)
  unfolding recorded accepted
  plain-Tallies (update_ttl i a b) n h t = same refl refl refl refl t
  plain-Tallies (kv_get k) n h t = same refl refl refl refl t
  plain-Tallies (kv_put k v) n h t = same refl refl refl refl t
  plain-Tallies catalog_services n h t = same refl refl refl refl t
  plain-Tallies (health_service a b) n h t = same refl refl refl refl t
  plain-Tallies time_now n h t = same refl refl refl refl t
  plain-Tallies rand_read n h t = same refl refl refl refl t
  plain-Tallies (service_register g) n h t = absurd n
  plain-Tallies (service_deregister i) n h t = deregistration-Tallies i h t
  plain-Tallies (enable_service_maintenance i a) n h t = absurd n
  plain-Tallies inc_register n h t = absurd n
  plain-Tallies inc_drain n h t = absurd n
  plain-Tallies inc_deregister n h t = absurd n

  pub tally_steps : Allows (KeepsTally o)
  tally_steps = record {
    nothing = λ s t. t;
    then_more = λ p q t. q (p t);
    plain = λ call p s t. plain-Tallies call p s.history t;
  }

  pub store-Counts : (v : LocalService) → Counts o (store_local_service v)
  unfolding store_local_service
  store-Counts v = record { at = λ s t. t }

  pub drain_service-Counts :
      (k : Text) (grace : ℤ) (v : LocalService) → Counts o (drain_service o k grace v)
  unfolding drain_service perform now put_service count recorded accepted Metrics.inc_drain
  drain_service-Counts k grace v = record {
    at = λ s t.
        elim (Option-cases (
          o.reply s.history
            (enable_service_maintenance v.instance_id (codes "draining by sidecar-agent")))) [
              | inl a ↦ rw a (record {
                registered = t.registered;
                drained = rw a (ap (λ n. n + 1) t.drained);
                deregistered = t.deregistered;
              })
              | inr (x, a) ↦ rw a (record {
                registered = t.registered;
                drained = rw a t.drained;
                deregistered = t.deregistered;
              })
            ];
  }

  pub deregister_service-Counts :
      (k : Text) (v : LocalService) → Counts o (deregister_service o k v)
  unfolding deregister_service perform now put_service count recorded accepted
      Metrics.inc_deregister
  deregister_service-Counts k v = record {
    at = λ s t. elim (Option-cases (o.reply s.history (service_deregister v.instance_id))) [
      | inl a ↦ rw a (record {
        registered = t.registered;
        drained = t.drained;
        deregistered = rw a (omega (arith, t.deregistered));
      })
      | inr (x, a) ↦ rw a (deregistration-Tallies v.instance_id s.history t)
    ];
  }

  module _ (c : Client) (leases : AcceptsLeases o) where
    pub announce-Counts : (v : LocalService) → Counts o (announce o c v)
    unfolding announce perform pass_lease now store_local_service count recorded accepted
        Metrics.inc_register
    announce-Counts v = record {
      at = λ s t.
          elim (Option-cases (o.reply s.history (service_register (registration_for o c v)))) [
            | inl a ↦
                rw (a, leases)
                  (record {
                    registered = rw a (ap (λ n. n + 1) t.registered);
                    drained = t.drained;
                    deregistered = t.deregistered;
                  })
            | inr (x, a) ↦ rw a (record {
              registered = rw a t.registered;
              drained = t.drained;
              deregistered = t.deregistered;
            })
          ];
    }
