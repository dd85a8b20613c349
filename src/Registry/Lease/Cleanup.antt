-- ===== src/Registry/Lease/Cleanup.antt =====
-- What a start takes down: the instances of earlier runs of this agent, and no others.
use sidecar_agent.Prelude.{
  true, false, Option, none, some, List, [], ◌∷◌, ◌≡◌, ◌≢◌, ◌⊎◌, refl, ◌∙◌, arith, Bool-cases, inl,
  inr,
}
use sidecar_agent.Text.{codes, trim_space}
use sidecar_agent.Text.Equality.{text_eq_iff}
use sidecar_agent.Model.Error.{ok}
use sidecar_agent.Registry.Consul.{
  AgentService, ServiceEntry, Call, History, Outside, service_deregister,
}
use sidecar_agent.Registry.Exec.{State, perform, proceed}
use sidecar_agent.Registry.Client.{Client}
use sidecar_agent.Registry.Lease.{meta_value, is_stale, clean_entry, clean_entries}

-- The instance was registered by this agent, in another run.
pub record IsLeftover (c : Client) (service : AgentService) : Type 0 where
  pub own : trim_space (meta_value (codes "agent_id") service.meta) ≡ c.agent_id
  pub other_run : trim_space (meta_value (codes "agent_run_id") service.meta) ≢ c.agent_run_id

-- The services of the entries of which a predicate holds, in order, nil pointers passed over.
pub data Selects (P : AgentService → Type 0)
    : List (Option ServiceEntry) → List AgentService → Type 0 where
  done : Selects P [] []
  no_entry :
      {es : List (Option ServiceEntry)} {vs : List AgentService}
      → Selects P es vs
      → Selects P (none ∷ es) vs
  no_service :
      {es : List (Option ServiceEntry)} {vs : List AgentService} (e : ServiceEntry)
      → e.service ≡ none
      → Selects P es vs
      → Selects P (some e ∷ es) vs
  taken :
      {es : List (Option ServiceEntry)} {vs : List AgentService} (e : ServiceEntry)
      (v : AgentService)
      → e.service ≡ some v
      → P v
      → Selects P es vs
      → Selects P (some e ∷ es) (v ∷ vs)
  passed :
      {es : List (Option ServiceEntry)} {vs : List AgentService} (e : ServiceEntry)
      (v : AgentService)
      → e.service ≡ some v
      → ¬ (P v)
      → Selects P es vs
      → Selects P (some e ∷ es) vs

-- The calls that deregister services, the latest first.
abbrev pub deregister_calls : List AgentService → History → History
deregister_calls [] h = h
deregister_calls (v ∷ vs) h = deregister_calls vs (service_deregister v.id ∷ h)

module _ (o : Outside) (c : Client) where
  IsLeftover-of_stale : (v : AgentService) → is_stale o c v ≡ true → IsLeftover c v
  unfolding is_stale
  IsLeftover-of_stale v h =
      let own = text_eq_iff (trim_space (meta_value (codes "agent_id") v.meta)) c.agent_id in
      let run =
        text_eq_iff (trim_space (meta_value (codes "agent_run_id") v.meta)) c.agent_run_id in
      record { own = ground (arith, h, own); other_run = λ e. ground (arith, h, run.1 e) }

  not_IsLeftover : (v : AgentService) → is_stale o c v ≡ false → ¬ (IsLeftover c v)
  unfolding is_stale
  not_IsLeftover v h l =
      let own = text_eq_iff (trim_space (meta_value (codes "agent_id") v.meta)) c.agent_id in
      let run =
        text_eq_iff (trim_space (meta_value (codes "agent_run_id") v.meta)) c.agent_run_id in
      l.other_run (run.0 (ground (arith, h, own.1 l.own)))

  -- What a loop over entries that ends without an error has done.
  abbrev pub Cleaned : List (Option ServiceEntry) → State → Type 0
  Cleaned entries s =
      (vs : List AgentService) × Selects (IsLeftover c) entries vs
      × (clean_entries o c entries s
          ≡ (ok tt, record s { history = deregister_calls vs s.history }))

  nothing_to_do :
      (entry : Option ServiceEntry) (es : List (Option ServiceEntry)) (s : State)
      → clean_entry o c entry s ≡ (ok tt, s)
      → clean_entries o c (entry ∷ es) s ≡ clean_entries o c es s
  unfolding clean_entries
  nothing_to_do entry es s e = rw (e, proceed)

  one_call :
      (entry : Option ServiceEntry) (v : AgentService) (es : List (Option ServiceEntry)) (s : State)
      → clean_entry o c entry s
        ≡ (ok tt, record s { history = service_deregister v.id ∷ s.history })
      → clean_entries o c (entry ∷ es) s
        ≡ clean_entries o c es (record s { history = service_deregister v.id ∷ s.history })
  unfolding clean_entries
  one_call entry v es s e = rw (e, proceed)

  -- Where Consul refuses nothing, the loop over the entries of a service deregisters exactly the
  -- instances whose trimmed agent id is this agent's and whose trimmed run id is not this run's, each
  -- once and in order, and does nothing else.
  pub clean_entries_lem :
      ((h : History) (call : Call) → o.reply h call ≡ none)
      → (entries : List (Option ServiceEntry)) (s : State) → Cleaned entries s
  clean_entries_lem accepts [] s = ([], done, unfold clean_entries in refl)
  clean_entries_lem accepts (none ∷ es) s =
      let (vs, sel, e) = clean_entries_lem accepts es s in
      (vs, no_entry sel, nothing_to_do none es s (unfold clean_entry in refl) ∙ e)
  clean_entries_lem accepts (some entry ∷ es) s =
      by_service entry.service refl (clean_entries_lem accepts es s) (λ v.
        clean_entries_lem accepts es (record s { history = service_deregister v.id ∷ s.history }))
    where
      by_stale :
          (v : AgentService)
          → entry.service ≡ some v
          → (is_stale o c v ≡ true) ⊎ (is_stale o c v ≡ false)
          → Cleaned es s
          → Cleaned es (record s { history = service_deregister v.id ∷ s.history })
          → Cleaned (some entry ∷ es) s
      by_stale v q (inl stale) same (vs, sel, e) = (
        v ∷ vs,
        taken entry v q (IsLeftover-of_stale v stale) sel,
        one_call (some entry) v es s (
              unfold clean_entry perform in
              ground (arith, q, stale, accepts s.history (service_deregister v.id)))
            ∙ e,
      )
      by_stale v q (inr fresh) (vs, sel, e) next = (
        vs,
        passed entry v q (not_IsLeftover v fresh) sel,
        nothing_to_do (some entry) es s (unfold clean_entry in ground (arith, q, fresh)) ∙ e,
      )

      by_service :
          (found : Option AgentService)
          → entry.service ≡ found
          → Cleaned es s
          → ((v : AgentService)
              → Cleaned es (record s { history = service_deregister v.id ∷ s.history }))
          → Cleaned (some entry ∷ es) s
      by_service none q (vs, sel, e) next = (
        vs,
        no_service entry q sel,
        nothing_to_do (some entry) es s (unfold clean_entry in ground (arith, q)) ∙ e,
      )
      by_service (some v) q same next = by_stale v q (Bool-cases (is_stale o c v)) same (next v)
