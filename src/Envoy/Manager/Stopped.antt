-- ===== src/Envoy/Manager/Stopped.antt =====
-- `Stop` ends the goroutine `watchLoop`, or leaves it where it waits for a channel.
use sidecar_agent.Prelude.{
  ℕ, ◌+◌, ◌≤◌, ◌==◌, ==_iff, true, Bool, Bool-cases, Option, none, some, Option-cases, ◌⊎◌, inl,
  inr, ◌≡◌, ◌≢◌, refl, ap, arith,
}
use sidecar_agent.Envoy.Manager.{
  Phase, unborn, running, exited, stored, closed, Loop, no_loop, at_top, restarting, ended, reading,
  waiting, cleaning, checking, backing_off, Manager, update, CallStep, start_again, start_done,
  start_failed, stop_unstarted, stop_idle, stop_refused, stop_waits, stop_seen, stop_failed,
  stop_gave_up, LoopStep, read_state, no_context, no_process, read_channel, woken, clean_own,
  clean_other, stopped, crashed, stopped_in_backoff, backoff_over, restart_dropped, restart_stopped,
  restart_done, restart_failed, ProcessStep, parent_ends, exits, stores, closes, calls, watches,
  proceeds, Reach, new, later,
}
use sidecar_agent.Envoy.Manager.Ending.{steps_left, Run, Over, Run-Over, Run-left}

-- What a reachable manager can cancel is its context, and nothing while a `Stop` waits.
abbrev Cancels : Manager → Type 0
Cancels m =
    ((c : ℕ) → m.cancel ≡ some c → m.ctx ≡ some c)
    × ((d : Option ℕ) → m.lock ≡ some d → m.cancel ≡ none)

CallStep-Cancels : {m : Manager} {b : Bool} {n : Manager} → CallStep m b n → Cancels m → Cancels n
CallStep-Cancels (start_again c l e) h = h
CallStep-Cancels (start_done l e) h = ((λ c q. q), (λ d q. ground (arith, l, q)))
CallStep-Cancels (start_failed l e) h = ((λ c q. cc q), (λ d q. refl))
CallStep-Cancels (stop_unstarted l e) h = h
CallStep-Cancels (stop_idle c l e k) h = ((λ d q. cc q), (λ d q. refl))
CallStep-Cancels (stop_refused c p l e k) h = ((λ d q. cc q), (λ d q. refl))
CallStep-Cancels (stop_waits c p l e k) h = ((λ d q. cc q), (λ d q. refl))
CallStep-Cancels (stop_seen d l e k) h = ((λ c q. cc (q, h.1 (some d) l)), (λ d q. cc q))
CallStep-Cancels (stop_failed d l e k) h = ((h.0), (λ d q. cc q))
CallStep-Cancels (stop_gave_up d l) h = ((h.0), (λ d q. cc q))

-- No goroutine but a caller's changes them.
LoopStep-Cancels : {m : Manager} {i : ℕ} {n : Manager} → LoopStep m i n → Cancels m → Cancels n
LoopStep-Cancels (read_state c q l e k j) h = h
LoopStep-Cancels (no_context l e k) h = h
LoopStep-Cancels (no_process l e k) h = h
LoopStep-Cancels (read_channel c q e) h = h
LoopStep-Cancels (woken c q d e k) h = h
LoopStep-Cancels (clean_own c q l e k) h = h
LoopStep-Cancels (clean_other c q l e k) h = h
LoopStep-Cancels (stopped c e k) h = h
LoopStep-Cancels (crashed c e k) h = h
LoopStep-Cancels (stopped_in_backoff c e k) h = h
LoopStep-Cancels (backoff_over c e) h = h
LoopStep-Cancels (restart_dropped l e k) h = h
LoopStep-Cancels (restart_stopped c l e k j) h = h
LoopStep-Cancels (restart_done c l e k j) h = h
LoopStep-Cancels (restart_failed c l e k j) h = h

ProcessStep-Cancels : {m n : Manager} → ProcessStep m n → Cancels m → Cancels n
ProcessStep-Cancels (parent_ends c) h = h
ProcessStep-Cancels (exits q e) h = h
ProcessStep-Cancels (stores q b l e) h = h
ProcessStep-Cancels (closes q e) h = h

Reach-Cancels : {m : Manager} → Reach m → Cancels m
Reach-Cancels new = ((λ c q. cc q), (λ d q. refl))
Reach-Cancels (later b r (calls s)) = CallStep-Cancels s (Reach-Cancels r)
Reach-Cancels (later b r (watches i s)) = LoopStep-Cancels s (Reach-Cancels r)
Reach-Cancels (later b r (proceeds s)) = ProcessStep-Cancels s (Reach-Cancels r)

cancelled_here :
    (f : ℕ → Bool) (x : Option ℕ) (c d : ℕ) → x ≡ some c → x ≡ some d → update f c true d ≡ true
cancelled_here f x c d e q = ground (arith, e, q)

-- A call that takes the cancel function away has cancelled the context.
stop-Over :
    {m : Manager} {b : Bool} {n : Manager}
    → CallStep m b n
    → Cancels m
    → m.cancel ≢ none
    → n.cancel ≡ none
    → Over n
stop-Over (start_again c l e) h live gone = absurd (live gone)
stop-Over (start_done l e) h live gone = absurd (live e)
stop-Over (start_failed l e) h live gone = absurd (live e)
stop-Over (stop_unstarted l e) h live gone = absurd (live e)
stop-Over {m} (stop_idle c l e k) h live gone =
    λ d q. cancelled_here m.cancelled m.ctx c d (h.0 c e) q
stop-Over {m} (stop_refused c p l e k) h live gone =
    λ d q. cancelled_here m.cancelled m.ctx c d (h.0 c e) q
stop-Over {m} (stop_waits c p l e k) h live gone =
    λ d q. cancelled_here m.cancelled m.ctx c d (h.0 c e) q
stop-Over (stop_seen d l e k) h live gone = λ d q. cc q
stop-Over (stop_failed d l e k) h live gone = absurd (live gone)
stop-Over (stop_gave_up d l) h live gone = absurd (live gone)

-- The channel that the goroutine waits for is not closed; a nil channel never is.
abbrev pub Waits : Manager → Loop → Type 0
Waits m (waiting c p none) = Unit
Waits m (waiting c p (some d)) = m.phase d ≢ closed
Waits m _ = ⊥

own_process : (x : Option ℕ) (p : ℕ) → (x ≡ some p) ⊎ (x ≢ some p)
own_process none p = inr (λ q. cc q)
own_process (some d) p = elim (Bool-cases (d == p)) [
  | inl q ↦ inl (ap some ((==_iff d p).0 q))
  | inr q ↦ inr (λ r. ground (arith, q, r))
]

-- What goroutine `i` can do while the mutex is free.
can_go_on :
    (m : Manager) (i : ℕ)
    → m.lock ≡ none
    → Over m
    → ((n : Manager) × LoopStep m i n) ⊎ (steps_left (m.loop i) ≡ 0) ⊎ Waits m (m.loop i)
can_go_on m i free over = by_loop (m.loop i) refl
  where
    Goes : Loop → Type 0
    Goes l = ((n : Manager) × LoopStep m i n) ⊎ (steps_left l ≡ 0) ⊎ Waits m l

    by_ctx : m.loop i ≡ at_top → (c : ℕ) → m.ctx ≡ some c → Goes at_top
    by_ctx e c q = elim (Option-cases m.cmd) [
      | inl k ↦ inl (_, no_process free e k)
      | inr (p, k) ↦ inl (_, read_state c p free e q k)
    ]

    by_loop : (l : Loop) → m.loop i ≡ l → Goes l
    by_loop no_loop e = inr (inl refl)
    by_loop ended e = inr (inl refl)
    by_loop at_top e = elim (Option-cases m.ctx) [
      | inl q ↦ inl (_, no_context free e q)
      | inr (c, q) ↦ by_ctx e c q
    ]
    by_loop (reading c p) e = inl (_, read_channel c p e)
    by_loop (waiting c p none) e = inr (inr tt)
    by_loop (waiting c p (some d)) e = by_phase (m.phase d) refl
      where
        by_phase : (x : Phase) → m.phase d ≡ x → Goes (waiting c p (some d))
        by_phase closed q = inl (_, woken c p d e q)
        by_phase unborn q = inr (inr (λ k. ground (arith, k, q)))
        by_phase running q = inr (inr (λ k. ground (arith, k, q)))
        by_phase exited q = inr (inr (λ k. ground (arith, k, q)))
        by_phase stored q = inr (inr (λ k. ground (arith, k, q)))
    by_loop (cleaning c p) e = elim (own_process m.cmd p) [
      | inl q ↦ inl (_, clean_own c p free e q)
      | inr q ↦ inl (_, clean_other c p free e q)
    ]
    by_loop (checking c) e = elim (Bool-cases (m.cancelled c)) [
      | inl q ↦ inl (_, stopped c e q)
      | inr q ↦ inl (_, crashed c e q)
    ]
    by_loop (backing_off c) e = inl (_, backoff_over c e)
    by_loop restarting e = elim (Option-cases m.ctx) [
      | inl q ↦ inl (_, restart_dropped free e q)
      | inr (c, q) ↦ inl (_, restart_stopped c free e q (over c q))
    ]

-- Where a goroutine stands: it is held up by a `Stop`, can go on, has ended or waits for a channel.
abbrev pub Stands : Manager → ℕ → Type 0
Stands m i =
    ((d : Option ℕ) × (m.lock ≡ some d))
    ⊎ ((n : Manager) × LoopStep m i n)
    ⊎ (steps_left (m.loop i) ≡ 0)
    ⊎ Waits m (m.loop i)

-- After a call that takes the cancel function away, which is what `Stop` does first, and as long as no
-- `Start` makes a new context, each goroutine of `watchLoop` takes seven steps at most, through any
-- interleaving. After that a `Stop` holds the mutex, or the goroutine can take its next step, or it has
-- none left, or it waits for a channel that is not closed.
pub stop-Ends :
    {m n k : Manager} {b : Bool} (i steps : ℕ)
    → Reach m
    → CallStep m b n
    → m.cancel ≢ none
    → n.cancel ≡ none
    → Run i n steps k
    → (steps + steps_left (k.loop i) ≤ steps_left (n.loop i)) × (steps ≤ 7) × Stands k i
stop-Ends {m} {n} {k} i steps r s live gone path =
    let over = stop-Over s (Reach-Cancels r) live gone in
    let bound = Run-left path over in
    (
      bound,
      omega (arith, bound, at_most (n.loop i)),
      by_lock (Run-Over path over) (Option-cases k.lock),
    )
  where
    by_lock : Over k → (k.lock ≡ none) ⊎ ((d : Option ℕ) × (k.lock ≡ some d)) → Stands k i
    by_lock over (inl free) = inr (can_go_on k i free over)
    by_lock over (inr held) = inl held

    at_most : (l : Loop) → steps_left l ≤ 7
    at_most no_loop = omega arith
    at_most ended = omega arith
    at_most restarting = omega arith
    at_most (backing_off c) = omega arith
    at_most (checking c) = omega arith
    at_most (cleaning c p) = omega arith
    at_most (waiting c p d) = omega arith
    at_most (reading c p) = omega arith
    at_most at_top = omega arith
