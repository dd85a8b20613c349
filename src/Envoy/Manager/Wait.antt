-- ===== src/Envoy/Manager/Wait.antt =====
-- A `Stop` that begins while the process runs.
use sidecar_agent.Prelude.{ℕ, Bool, false, none, some, ◌⊎◌, inl, inr, ◌≡◌, refl, ◌∙◌, ap, arith}
use sidecar_agent.Envoy.Manager.{
  running, exited, closed, Manager, cancel_now, CallStep, start_again, start_done, start_failed,
  stop_unstarted, stop_idle, stop_refused, stop_waits, stop_seen, stop_failed, stop_gave_up,
  LoopStep, read_state, no_context, no_process, read_channel, woken, clean_own, clean_other,
  stopped, crashed, stopped_in_backoff, backoff_over, restart_dropped, restart_stopped,
  restart_done, restart_failed, ProcessStep, parent_ends, exits, stores, closes, calls, watches,
  proceeds, Patient, here, and_then, Reach, new, later,
}

-- A `Stop` holds the mutex and waits for a channel that is closed only after the mutex is taken.
pub record Stuck (m : Manager) (p : ℕ) : Type 0 where
  pub held : m.lock ≡ some (some p)
  pub before : (m.phase p ≡ running) ⊎ (m.phase p ≡ exited)

-- The mutex is not free.
not_free : {m : Manager} {p : ℕ} → Stuck m p → m.lock ≡ none → ⊥
not_free h l = ground (arith, h.held, l)

not_closed :
    {m : Manager} {p : ℕ} → Stuck m p → (d : ℕ) → m.lock ≡ some (some d) → m.phase d ≡ closed → ⊥
not_closed {m} {p} h d l e =
    let q : p ≡ d = ground (arith, h.held, l) in ground (arith, ap m.phase q, h.before, e)

CallStep-Stuck : {m n : Manager} (p : ℕ) → CallStep m false n → Stuck m p → Stuck n p
CallStep-Stuck p (start_again c l e) h = h
CallStep-Stuck p (start_done l e) h = absurd (not_free h l)
CallStep-Stuck p (start_failed l e) h = absurd (not_free h l)
CallStep-Stuck p (stop_unstarted l e) h = h
CallStep-Stuck p (stop_idle c l e k) h = absurd (not_free h l)
CallStep-Stuck p (stop_refused c q l e k) h = absurd (not_free h l)
CallStep-Stuck p (stop_waits c q l e k) h = absurd (not_free h l)
CallStep-Stuck p (stop_seen d l e k) h = absurd (not_closed h d l e)
CallStep-Stuck p (stop_failed d l e k) h = absurd (not_closed h d l e)

-- A step of a loop takes the mutex or changes neither it nor a process.
LoopStep-quiet :
    {m : Manager} {i : ℕ} {n : Manager}
    → LoopStep m i n
    → (m.lock ≡ none) ⊎ ((n.lock ≡ m.lock) × (n.phase ≡ m.phase))
LoopStep-quiet (read_state c q l e k j) = inl l
LoopStep-quiet (no_context l e k) = inl l
LoopStep-quiet (no_process l e k) = inl l
LoopStep-quiet (read_channel c q e) = inr (refl, refl)
LoopStep-quiet (woken c q d e k) = inr (refl, refl)
LoopStep-quiet (clean_own c q l e k) = inl l
LoopStep-quiet (clean_other c q l e k) = inl l
LoopStep-quiet (stopped c e k) = inr (refl, refl)
LoopStep-quiet (crashed c e k) = inr (refl, refl)
LoopStep-quiet (stopped_in_backoff c e k) = inr (refl, refl)
LoopStep-quiet (backoff_over c e) = inr (refl, refl)
LoopStep-quiet (restart_dropped l e k) = inl l
LoopStep-quiet (restart_stopped c l e k j) = inl l
LoopStep-quiet (restart_done c l e k j) = inl l
LoopStep-quiet (restart_failed c l e k j) = inl l

LoopStep-Stuck :
    {m : Manager} {i : ℕ} {n : Manager} (p : ℕ) → LoopStep m i n → Stuck m p → Stuck n p
LoopStep-Stuck p s h = elim (LoopStep-quiet s) [
  | inl l ↦ absurd (not_free h l)
  | inr (same, phases) ↦ record {
    held = same ∙ h.held;
    before = ground (arith, h.before, ap (λ f. f p) phases);
  }
]

ProcessStep-Stuck : {m n : Manager} (p : ℕ) → ProcessStep m n → Stuck m p → Stuck n p
ProcessStep-Stuck p (parent_ends c) h = record { held = h.held; before = h.before }
ProcessStep-Stuck p (exits q e) h = record { held = h.held; before = ground (arith, h.before) }
ProcessStep-Stuck p (stores q b l e) h = absurd (not_free h l)
ProcessStep-Stuck p (closes q e) h = record { held = h.held; before = ground (arith, h.before, e) }

Patient-Stuck : {m n : Manager} (p : ℕ) → Patient m n → Stuck m p → Stuck n p
Patient-Stuck p here h = h
Patient-Stuck p (and_then r (calls s)) h = CallStep-Stuck p s (Patient-Stuck p r h)
Patient-Stuck p (and_then r (watches i s)) h = LoopStep-Stuck p s (Patient-Stuck p r h)
Patient-Stuck p (and_then r (proceeds s)) h = ProcessStep-Stuck p s (Patient-Stuck p r h)

-- The channel is that of the process.
abbrev Paired : Manager → Type 0
Paired m = m.wait_done ≡ m.cmd

CallStep-Paired : {m : Manager} {b : Bool} {n : Manager} → CallStep m b n → Paired m → Paired n
CallStep-Paired (start_again c l e) h = h
CallStep-Paired (start_done l e) h = refl
CallStep-Paired (start_failed l e) h = h
CallStep-Paired (stop_unstarted l e) h = h
CallStep-Paired (stop_idle c l e k) h = h
CallStep-Paired (stop_refused c q l e k) h = h
CallStep-Paired (stop_waits c q l e k) h = h
CallStep-Paired (stop_seen d l e k) h = refl
CallStep-Paired (stop_failed d l e k) h = h
CallStep-Paired (stop_gave_up d l) h = h

LoopStep-Paired : {m : Manager} {i : ℕ} {n : Manager} → LoopStep m i n → Paired m → Paired n
LoopStep-Paired (read_state c q l e k j) h = h
LoopStep-Paired (no_context l e k) h = h
LoopStep-Paired (no_process l e k) h = h
LoopStep-Paired (read_channel c q e) h = h
LoopStep-Paired (woken c q d e k) h = h
LoopStep-Paired (clean_own c q l e k) h = refl
LoopStep-Paired (clean_other c q l e k) h = h
LoopStep-Paired (stopped c e k) h = h
LoopStep-Paired (crashed c e k) h = h
LoopStep-Paired (stopped_in_backoff c e k) h = h
LoopStep-Paired (backoff_over c e) h = h
LoopStep-Paired (restart_dropped l e k) h = h
LoopStep-Paired (restart_stopped c l e k j) h = h
LoopStep-Paired (restart_done c l e k j) h = refl
LoopStep-Paired (restart_failed c l e k j) h = h

ProcessStep-Paired : {m n : Manager} → ProcessStep m n → Paired m → Paired n
ProcessStep-Paired (parent_ends c) h = h
ProcessStep-Paired (exits p e) h = h
ProcessStep-Paired (stores p b l e) h = h
ProcessStep-Paired (closes p e) h = h

pub Reach-Paired : {m : Manager} → Reach m → m.wait_done ≡ m.cmd
Reach-Paired new = refl
Reach-Paired (later b r (calls s)) = CallStep-Paired s (Reach-Paired r)
Reach-Paired (later b r (watches i s)) = LoopStep-Paired s (Reach-Paired r)
Reach-Paired (later b r (proceeds s)) = ProcessStep-Paired s (Reach-Paired r)

-- Where `Stop` begins to wait while the process of the manager runs, then through any interleaving of
-- the goroutines the mutex stays with it and the channel that it waits for is not closed, until `Stop`
-- gives up because its own context ends: the goroutine that would close the channel needs the mutex
-- before it does.
pub stop_waits-Stuck :
    {m n : Manager} (c p : ℕ)
    → Reach m
    → m.lock ≡ none
    → m.cancel ≡ some c
    → m.cmd ≡ some p
    → m.phase p ≡ running
    → Patient (record (cancel_now c m) { lock = some m.wait_done }) n
    → Stuck n p
stop_waits-Stuck c p r l k e alive path =
    Patient-Stuck p path (record { held = ap some (Reach-Paired r ∙ e); before = inl alive })
