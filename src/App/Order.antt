-- ===== src/App/Order.antt =====
-- What `Start` has brought up when it returns.
use sidecar_agent.Xds.Server.{SetCall, SetSnapshot}
use sidecar_agent.Prelude.{
  ℕ, Bool, true, false, Option, none, some, List, [], ◌∷◌, if◌then◌else◌, ◌≡◌, refl, ◌∙◌,
}
use sidecar_agent.Prelude.Int.{ℤ}
use sidecar_agent.Model.Error.{Error, Result, ok, err}
use sidecar_agent.Registry.Consul.{Outside}
use sidecar_agent.Registry.Exec.{State, Exec, check}
use sidecar_agent.Registry.Exec
use sidecar_agent.Registry.Client.{Client, ensure_usable}
use sidecar_agent.Registry.Lease
use sidecar_agent.Xds.Snapshot.{Summary}
use sidecar_agent.Xds.Snapshot.Build.{Envoy, Snapshot}
use sidecar_agent.Xds.Server
use sidecar_agent.Xds.Server.Outcome.{set_call, IsOutcome, publish-IsOutcome}
use sidecar_agent.App.{Runner, Ending, done, refused, panicked, of_error}
use sidecar_agent.App.Running.{
  Running, Action, proceed, nil_or_refused, returns, start_registry, start_xds, publish_empty,
  manager_started, start_envoy, start_runner,
}

-- `Q` holds where an action returns nil, and `N` where it does not.
abbrev pub Ends : (Q N : Running → Type 0) → Ending (Unit {0}) × Running → Type 0
Ends Q N (done u, w) = Q w
Ends Q N (refused e, w) = N w
Ends Q N (panicked, w) = N w

pub Ends-proceed :
    (Q R N : Running → Type 0) (b : Action)
    → ((w : Running) → Q w → Ends R N (b w))
    → (p : Ending (Unit {0}) × Running) → Ends Q N p
    → Ends R N (proceed p.0 b p.1)
Ends-proceed Q R N b h (done u, w) q = h w q
Ends-proceed Q R N b h (refused e, w) q = q
Ends-proceed Q R N b h (panicked, w) q = q

pub Ends-returns :
    (Q N : Running → Type 0) (e : Option Error) (w : Running) → Q w → N w → Ends Q N (returns e w)
Ends-returns Q N none w q n = q
Ends-returns Q N (some e) w q n = n

-- Nothing runs that uses the xDS server.
abbrev pub IsIdle : Running → Type 0
IsIdle w = (w.envoy_started ≡ false) × (w.launched ≡ false)

abbrev IsStarted : Result (Unit {0}) × State → Type 0
IsStarted (ok u, s) = s.running ≡ true
IsStarted (err e, s) = Unit

IsStarted-proceed :
    {A : Type 0} (f : A → Exec (Unit {0})) (p : Result A × State)
    → ((a : A) (s : State) → IsStarted (f a s))
    → IsStarted (Exec.proceed p.0 f p.1)
IsStarted-proceed f (ok a, s) h = h a s
IsStarted-proceed f (err e, s) h = tt

lease-IsStarted : (o : Outside) (c : Client) (s : State) → IsStarted (Lease.start o c s)
unfolding Lease.start
lease-IsStarted o c s =
    IsStarted-proceed _ (check (ensure_usable c) s)
      λ u s1. IsStarted-proceed _ (Lease.cleanup_previous_runs o c s1) λ v s2. refl

-- What `Start` ensures one after the other.
abbrev pub HasLeases : Running → Type 0
HasLeases w = IsIdle w × (w.registry.running ≡ true)

abbrev pub Listens : Running → Type 0
Listens w = HasLeases w × (w.xds.started ≡ true)

-- The latest call of `SetSnapshot` gave the cache a snapshot for the server's node, and it was accepted.
abbrev pub IsFilled : Running → Type 0
IsFilled w =
    (snapshot : Snapshot) × (rest : List SetCall) × (w.xds.cache
      ≡ set_call w.xds snapshot none ∷ rest)

abbrev pub IsPublished : Running → Type 0
IsPublished w = Listens w × IsFilled w

abbrev pub is_some {ℓ} : {A : Type ℓ} → Option A → Bool
is_some none = false
is_some (some a) = true

-- All of it runs.
pub record IsUp (r : Runner) (w : Running) : Type 0 where
  pub leases : w.registry.running ≡ true
  pub listens : w.xds.started ≡ true
  pub filled : IsFilled w
  pub envoy : w.envoy_started ≡ is_some r.envoy
  pub launched : w.launched ≡ true

abbrev IsManaged : Option ℤ → Running → Type 0
IsManaged b w =
    (w.registry.running ≡ true)
    × (w.xds.started ≡ true)
    × IsFilled w
    × (w.envoy_started ≡ is_some b)

abbrev IsListening : Option Error × Server.Server → Type 0
IsListening (none, s) = s.started ≡ true
IsListening (some e, s) = Unit

IsListening-if :
    (b : Bool) (listen : Option Error) (s : Server.Server)
    → s.started ≡ b
    → IsListening (
        if b
        then (none, s)
        else (elim listen [ some e ↦ (some e, s) | none ↦ (none, record s { started = true }) ]))
IsListening-if true listen s e = e
IsListening-if false none s e = refl
IsListening-if false (some x) s e = tt

start_listens : (listen : Option Error) (s : Server.Server) → IsListening (Server.start listen s)
unfolding Server.start
start_listens listen s = IsListening-if s.started listen s refl

module _ (o : Outside) (y : Envoy) (set_snapshot : SetSnapshot) (r : Runner) where
  registry-Ends :
      (w : Running) (p : Result (Unit {0}) × State)
      → IsIdle w
      → IsStarted p
      → Ends HasLeases IsIdle (nil_or_refused p.0, record w { registry = p.1 })
  registry-Ends w (ok u, s) idle h = (idle, h)
  registry-Ends w (err e, s) idle h = idle

  xds-Ends :
      (w : Running) (p : Option Error × Server.Server)
      → HasLeases w
      → IsListening p
      → Ends Listens IsIdle (of_error p.0, record w { xds = p.1 })
  xds-Ends w (none, s) h listening = (h, listening)
  xds-Ends w (some e, s) h listening = h.0

  publish-Ends :
      (w : Running) (p : Server.Server × Result Summary)
      → Listens w
      → IsOutcome w.xds p
      → Ends IsPublished IsIdle (nil_or_refused p.1, record w { xds = p.0 })
  publish-Ends w (s, ok u) h out =
      ((h.0, out.kept_listener ∙ h.1), (out.snapshot, w.xds.cache, rw out.kept_node out.cached))
  publish-Ends w (s, err e) h out = h.0.0

  envoy-Ends :
      (b : Option ℤ) (manager : Option Error) (w : Running)
      → IsPublished w
      → Ends (IsManaged b) IsIdle (elim b [
        | none ↦ (done tt, w)
        | some backoff ↦ manager_started o y set_snapshot r manager w
      ])
  envoy-Ends none manager w h = (h.0.0.1, h.0.1, h.1, h.0.0.0.0)
  envoy-Ends (some backoff) none w h = (h.0.0.1, h.0.1, h.1, refl)
  envoy-Ends (some backoff) (some e) w h = h.0.0.0

  -- From a state in which neither Envoy nor the goroutines that serve run: where `Start` returns
  -- nil, leases are being refreshed, the xDS server listens and its cache has accepted a snapshot
  -- for its node, Envoy runs if it is managed, and the goroutines are launched. Where `Start`
  -- returns an error, neither Envoy nor any of the goroutines has been started.
  pub start_runner-Ends :
      (listen : Option Error) (now : ℕ) (manager : Option Error) (w : Running)
      → IsIdle w
      → Ends (IsUp r) IsIdle (start_runner o y set_snapshot r listen now manager w)
  unfolding start_runner
  start_runner-Ends listen now manager w idle =
      Ends-proceed HasLeases (IsUp r) IsIdle _
        (λ w1 h1.
          Ends-proceed Listens (IsUp r) IsIdle _
            (λ w2 h2.
              Ends-proceed IsPublished (IsUp r) IsIdle _
                (λ w3 h3.
                  Ends-proceed (IsManaged r.envoy) (IsUp r) IsIdle _
                    (λ w4 h4. record {
                      leases = h4.0;
                      listens = h4.1;
                      filled = h4.2;
                      envoy = h4.3;
                      launched = refl;
                    })
                    (start_envoy o y set_snapshot r manager w3) (envoy-Ends r.envoy manager w3 h3))
                (publish_empty o y set_snapshot r now w2)
                (publish-Ends w2 _ h2 (publish-IsOutcome y set_snapshot w2.xds [] now)))
            (start_xds o y set_snapshot r listen w1)
            (xds-Ends w1 _ h1 (start_listens listen w1.xds)))
        (start_registry o y set_snapshot r w)
        (registry-Ends w _ idle (lease-IsStarted o r.client w.registry))
