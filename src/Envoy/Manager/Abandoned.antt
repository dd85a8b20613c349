-- ===== src/Envoy/Manager/Abandoned.antt =====
-- A manager whose restart has failed.
use mathlib.Core.Path.{subst}
use sidecar_agent.Prelude.{
  ℕ, ◌<◌, ◌≤◌, Bool, none, some, ◌⊎◌, inl, inr, ◌≡◌, ◌≢◌, refl, sym, arith, ◌==◌, Bool-cases,
}
use sidecar_agent.Envoy.Manager.{
  running, Loop, no_loop, at_top, restarting, ended, reading, waiting, cleaning, checking,
  backing_off, Manager, update, go_to, CallStep, start_again, start_done, start_failed,
  stop_unstarted, stop_idle, stop_refused, stop_waits, stop_seen, stop_failed, stop_gave_up,
  LoopStep, read_state, no_context, no_process, read_channel, woken, clean_own, clean_other,
  stopped, crashed, stopped_in_backoff, backoff_over, restart_dropped, restart_stopped,
  restart_done, restart_failed, ProcessStep, parent_ends, exits, stores, closes, Step, calls,
  watches, proceeds, Reach,
}
use sidecar_agent.Envoy.Manager.Invariant.{Inv, none_running}
use sidecar_agent.Envoy.Manager.Single.{Reach-Inv}

-- The loop has nothing to do but to end.
abbrev Over : Loop → Type 0
Over no_loop = Unit
Over ended = Unit
Over at_top = Unit
Over _ = ⊥

-- Nothing runs and nothing will start a process, though `Start` takes the manager for started.
pub record Abandoned (m : Manager) : Type 0 where
  pub no_cmd : m.cmd ≡ none
  pub nothing_runs : (p : ℕ) → m.phase p ≢ running
  pub over : (i : ℕ) → Over (m.loop i)
  pub unlocked : m.lock ≡ none
  pub started : m.cancel ≢ none

-- Steps after each of which the manager still has its cancel function: nobody calls `Stop`.
pub data Unstopped (m : Manager) : Manager → Type 0 where
  nothing : Unstopped m m
  goes_on :
      {n k : Manager} (b : Bool) → Unstopped m n → Step n b k → k.cancel ≢ none → Unstopped m k

not-Over : {m : Manager} → Abandoned m → (i : ℕ) (l : Loop) → m.loop i ≡ l → (Over l → ⊥) → ⊥
not-Over h i l e k = k (subst Over e (h.over i))

go_to-Abandoned : {m : Manager} (i : ℕ) (l : Loop) → Over l → Abandoned m → Abandoned (go_to i l m)
go_to-Abandoned {m} i l o h = record {
  no_cmd = h.no_cmd;
  nothing_runs = h.nothing_runs;
  over = now;
  unlocked = h.unlocked;
  started = h.started;
}
  where
    now : (j : ℕ) → Over (update m.loop i l j)
    now j = elim (Bool-cases (i == j)) [ inl q ↦ rw q o | inr q ↦ rw q (h.over j) ]

CallStep-Abandoned :
    {m : Manager} {b : Bool} {n : Manager}
    → CallStep m b n
    → n.cancel ≢ none
    → Abandoned m
    → Abandoned n
CallStep-Abandoned (start_again c l e) t h = h
CallStep-Abandoned (start_done l e) t h = absurd (h.started e)
CallStep-Abandoned (start_failed l e) t h = absurd (h.started e)
CallStep-Abandoned (stop_unstarted l e) t h = h
CallStep-Abandoned (stop_idle c l e k) t h = absurd (t refl)
CallStep-Abandoned (stop_refused c q l e k) t h = absurd (t refl)
CallStep-Abandoned (stop_waits c q l e k) t h = absurd (t refl)
CallStep-Abandoned (stop_seen d l e k) t h = absurd (ground (arith, h.unlocked, l))
CallStep-Abandoned (stop_failed d l e k) t h = absurd (ground (arith, h.unlocked, l))
CallStep-Abandoned (stop_gave_up d l) t h = absurd (ground (arith, h.unlocked, l))

LoopStep-Abandoned :
    {m : Manager} {i : ℕ} {n : Manager} → LoopStep m i n → Abandoned m → Abandoned n
LoopStep-Abandoned (read_state c q l e k j) h = absurd (ground (arith, h.no_cmd, j))
LoopStep-Abandoned {i = i} (no_context l e k) h = go_to-Abandoned i ended tt h
LoopStep-Abandoned {i = i} (no_process l e k) h = go_to-Abandoned i ended tt h
LoopStep-Abandoned {i = i} (read_channel c q e) h = absurd (not-Over h i (reading c q) e (λ o. o))
LoopStep-Abandoned {i = i} (woken c q d e k) h =
    absurd (not-Over h i (waiting c q (some d)) e (λ o. o))
LoopStep-Abandoned {i = i} (clean_own c q l e k) h = absurd (not-Over h i (cleaning c q) e (λ o. o))
LoopStep-Abandoned {i = i} (clean_other c q l e k) h =
    absurd (not-Over h i (cleaning c q) e (λ o. o))
LoopStep-Abandoned {i = i} (stopped c e k) h = absurd (not-Over h i (checking c) e (λ o. o))
LoopStep-Abandoned {i = i} (crashed c e k) h = absurd (not-Over h i (checking c) e (λ o. o))
LoopStep-Abandoned {i = i} (stopped_in_backoff c e k) h =
    absurd (not-Over h i (backing_off c) e (λ o. o))
LoopStep-Abandoned {i = i} (backoff_over c e) h = absurd (not-Over h i (backing_off c) e (λ o. o))
LoopStep-Abandoned {i = i} (restart_dropped l e k) h = absurd (not-Over h i restarting e (λ o. o))
LoopStep-Abandoned {i = i} (restart_stopped c l e k j) h =
    absurd (not-Over h i restarting e (λ o. o))
LoopStep-Abandoned {i = i} (restart_done c l e k j) h = absurd (not-Over h i restarting e (λ o. o))
LoopStep-Abandoned {i = i} (restart_failed c l e k j) h =
    absurd (not-Over h i restarting e (λ o. o))

ProcessStep-Abandoned : {m n : Manager} → ProcessStep m n → Abandoned m → Abandoned n
ProcessStep-Abandoned (parent_ends c) h = record {
  no_cmd = h.no_cmd;
  nothing_runs = h.nothing_runs;
  over = h.over;
  unlocked = h.unlocked;
  started = h.started;
}
ProcessStep-Abandoned (exits q e) h = absurd (h.nothing_runs q e)
ProcessStep-Abandoned (stores q b l e) h = record {
  no_cmd = h.no_cmd;
  nothing_runs = λ p a. h.nothing_runs p (ground (arith, a));
  over = h.over;
  unlocked = h.unlocked;
  started = h.started;
}
ProcessStep-Abandoned (closes q e) h = record {
  no_cmd = h.no_cmd;
  nothing_runs = λ p a. h.nothing_runs p (ground (arith, a));
  over = h.over;
  unlocked = h.unlocked;
  started = h.started;
}

Unstopped-Abandoned : {m n : Manager} → Unstopped m n → Abandoned m → Abandoned n
Unstopped-Abandoned nothing h = h
Unstopped-Abandoned (goes_on b r (calls s) t) h = CallStep-Abandoned s t (Unstopped-Abandoned r h)
Unstopped-Abandoned (goes_on b r (watches i s) t) h = LoopStep-Abandoned s (Unstopped-Abandoned r h)
Unstopped-Abandoned (goes_on b r (proceeds s) t) h =
    ProcessStep-Abandoned s (Unstopped-Abandoned r h)

-- A restart after a crash that fails, in a manager that has been started once and keeps no process,
-- is the last one: as long as nobody calls `Stop`, no step of any goroutine and no further `Start` makes
-- an Envoy process run again.
pub restart_failed-Abandoned :
    {m n : Manager} (c : ℕ)
    → Reach m
    → m.next_ctx ≤ 1
    → m.loop 0 ≡ restarting
    → m.cmd ≡ none
    → m.lock ≡ none
    → m.cancel ≡ some c
    → Unstopped (go_to 0 at_top m) n
    → (n.cmd ≡ none) × ((p : ℕ) → n.phase p ≢ running)
restart_failed-Abandoned {m} c r few e idle free live path =
    let last = Unstopped-Abandoned path first in (last.no_cmd, last.nothing_runs)
  where
    inv : Inv m
    inv = Reach-Inv r few

    others : (j : ℕ) → Over (update m.loop 0 at_top j)
    others j = elim (Bool-cases (0 == j)) [
      | inl q ↦ rw q tt
      | inr q ↦ rw q (by_loop (inv.loops j) (ground (arith, q)))
    ]
      where
        by_loop : (m.loop j ≡ no_loop) ⊎ (j < m.next_ctx) → 0 < j → Over (m.loop j)
        by_loop (inl k) above = subst Over (sym k) tt
        by_loop (inr k) above = absurd (omega (arith, k, few, above))

    first : Abandoned (go_to 0 at_top m)
    first = record {
      no_cmd = idle;
      nothing_runs = none_running inv restarting e (λ p w. w);
      over = others;
      unlocked = free;
      started = λ k. ground (arith, live, k);
    }
