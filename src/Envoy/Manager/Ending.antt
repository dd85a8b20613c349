-- ===== src/Envoy/Manager/Ending.antt =====
-- The goroutine `watchLoop` after `Stop` has cancelled the manager's context.
use sidecar_agent.Prelude.{
  ℕ, suc, ◌+◌, ◌≤◌, true, Bool, some, inl, inr, ◌≡◌, ◌≢◌, refl, arith, ◌==◌, ==_iff, Bool-cases,
}
use sidecar_agent.Envoy.Manager.{
  Loop, no_loop, at_top, restarting, ended, reading, waiting, cleaning, checking, backing_off,
  Manager, update, CallStep, start_again, start_done, start_failed, stop_unstarted, stop_idle,
  stop_refused, stop_waits, stop_seen, stop_failed, stop_gave_up, LoopStep, read_state, no_context,
  no_process, read_channel, woken, clean_own, clean_other, stopped, crashed, stopped_in_backoff,
  backoff_over, restart_dropped, restart_stopped, restart_done, restart_failed, ProcessStep,
  parent_ends, exits, stores, closes,
}

-- The number of steps that a loop can still take when nothing can be started again.
abbrev pub steps_left : Loop → ℕ
steps_left no_loop = 0
steps_left ended = 0
steps_left restarting = 1
steps_left (backing_off c) = 2
steps_left (checking c) = 3
steps_left (cleaning c p) = 4
steps_left (waiting c p d) = 5
steps_left (reading c p) = 6
steps_left at_top = 7

-- Steps during which no `Start` makes a context, with the number of those that goroutine `i` takes.
pub data Run (i : ℕ) (m : Manager) : ℕ → Manager → Type 0 where
  begin : Run i m 0 m
  own : {k : ℕ} {n n' : Manager} → Run i m k n → LoopStep n i n' → Run i m (suc k) n'
  other : {k : ℕ} {n n' : Manager} (j : ℕ) → Run i m k n → j ≢ i → LoopStep n j n' → Run i m k n'
  call :
      {k : ℕ} {b : Bool} {n n' : Manager}
      → Run i m k n
      → CallStep n b n'
      → n'.next_ctx ≡ n.next_ctx
      → Run i m k n'
  process : {k : ℕ} {n n' : Manager} → Run i m k n → ProcessStep n n' → Run i m k n'

-- The context of the manager, if it has one, is cancelled.
abbrev pub Over : Manager → Type 0
Over m = (c : ℕ) → m.ctx ≡ some c → m.cancelled c ≡ true

still_cancelled : (f : ℕ → Bool) (c d : ℕ) → f d ≡ true → update f c true d ≡ true
still_cancelled f c d e = ground (arith, e)

LoopStep-Over : {m : Manager} {i : ℕ} {n : Manager} → LoopStep m i n → Over m → Over n
LoopStep-Over (read_state c q l e k j) h = h
LoopStep-Over (no_context l e k) h = h
LoopStep-Over (no_process l e k) h = h
LoopStep-Over (read_channel c q e) h = h
LoopStep-Over (woken c q d e k) h = h
LoopStep-Over (clean_own c q l e k) h = h
LoopStep-Over (clean_other c q l e k) h = h
LoopStep-Over (stopped c e k) h = h
LoopStep-Over (crashed c e k) h = h
LoopStep-Over (stopped_in_backoff c e k) h = h
LoopStep-Over (backoff_over c e) h = h
LoopStep-Over (restart_dropped l e k) h = h
LoopStep-Over (restart_stopped c l e k j) h = h
LoopStep-Over (restart_done c l e k j) h = h
LoopStep-Over (restart_failed c l e k j) h = h

CallStep-Over :
    {m : Manager} {b : Bool} {n : Manager}
    → CallStep m b n
    → n.next_ctx ≡ m.next_ctx
    → Over m
    → Over n
CallStep-Over (start_again c l e) s h = h
CallStep-Over (start_done l e) s h = absurd (omega (arith, s))
CallStep-Over (start_failed l e) s h = absurd (omega (arith, s))
CallStep-Over (stop_unstarted l e) s h = h
CallStep-Over {m} (stop_idle c l e k) s h = λ d q. still_cancelled m.cancelled c d (h d q)
CallStep-Over {m} (stop_refused c q l e k) s h = λ d q. still_cancelled m.cancelled c d (h d q)
CallStep-Over {m} (stop_waits c q l e k) s h = λ d q. still_cancelled m.cancelled c d (h d q)
CallStep-Over (stop_seen d l e k) s h = λ d q. cc q
CallStep-Over (stop_failed d l e k) s h = h
CallStep-Over (stop_gave_up d l) s h = h

ProcessStep-Over : {m n : Manager} → ProcessStep m n → Over m → Over n
ProcessStep-Over {m} (parent_ends c) h = λ d q. still_cancelled m.cancelled c d (h d q)
ProcessStep-Over (exits q e) h = h
ProcessStep-Over (stores q b l e) h = h
ProcessStep-Over (closes q e) h = h

-- The loop that has moved on has fewer steps left.
moved :
    (f : ℕ → Loop) (i : ℕ) (l k : Loop)
    → f i ≡ l
    → suc (steps_left k) ≤ steps_left l
    → suc (steps_left (update f i k i)) ≤ steps_left (f i)
moved f i l k e less = rw (e, (==_iff i i).1 refl) less

LoopStep-left :
    {m : Manager} {i : ℕ} {n : Manager}
    → LoopStep m i n
    → Over m
    → suc (steps_left (n.loop i)) ≤ steps_left (m.loop i)
LoopStep-left {m} {i} (read_state c q l e k j) h =
    moved m.loop i at_top (reading c q) e (omega arith)
LoopStep-left {m} {i} (no_context l e k) h = moved m.loop i at_top ended e (omega arith)
LoopStep-left {m} {i} (no_process l e k) h = moved m.loop i at_top ended e (omega arith)
LoopStep-left {m} {i} (read_channel c q e) h =
    moved m.loop i (reading c q) (waiting c q m.wait_done) e (omega arith)
LoopStep-left {m} {i} (woken c q d e k) h =
    moved m.loop i (waiting c q (some d)) (cleaning c q) e (omega arith)
LoopStep-left {m} {i} (clean_own c q l e k) h =
    moved m.loop i (cleaning c q) (checking c) e (omega arith)
LoopStep-left {m} {i} (clean_other c q l e k) h =
    moved m.loop i (cleaning c q) (checking c) e (omega arith)
LoopStep-left {m} {i} (stopped c e k) h = moved m.loop i (checking c) ended e (omega arith)
LoopStep-left {m} {i} (crashed c e k) h =
    moved m.loop i (checking c) (backing_off c) e (omega arith)
LoopStep-left {m} {i} (stopped_in_backoff c e k) h =
    moved m.loop i (backing_off c) ended e (omega arith)
LoopStep-left {m} {i} (backoff_over c e) h =
    moved m.loop i (backing_off c) restarting e (omega arith)
LoopStep-left {m} {i} (restart_dropped l e k) h = moved m.loop i restarting ended e (omega arith)
LoopStep-left {m} {i} (restart_stopped c l e k j) h =
    moved m.loop i restarting ended e (omega arith)
LoopStep-left (restart_done c l e k j) h = absurd (ground (arith, h c k, j))
LoopStep-left (restart_failed c l e k j) h = absurd (ground (arith, h c k, j))

elsewhere : (f : ℕ → Loop) (i j : ℕ) (l : Loop) → j ≢ i → update f j l i ≡ f i
elsewhere f i j l d = elim (Bool-cases (j == i)) [
  | inl q ↦ absurd (d ((==_iff j i).0 q))
  | inr q ↦ rw q refl
]

LoopStep-elsewhere :
    {m : Manager} {j : ℕ} {n : Manager} (i : ℕ) → LoopStep m j n → j ≢ i → n.loop i ≡ m.loop i
LoopStep-elsewhere {m} {j} i (read_state c q l e k k') d = elsewhere m.loop i j (reading c q) d
LoopStep-elsewhere {m} {j} i (no_context l e k) d = elsewhere m.loop i j ended d
LoopStep-elsewhere {m} {j} i (no_process l e k) d = elsewhere m.loop i j ended d
LoopStep-elsewhere {m} {j} i (read_channel c q e) d =
    elsewhere m.loop i j (waiting c q m.wait_done) d
LoopStep-elsewhere {m} {j} i (woken c q d' e k) d = elsewhere m.loop i j (cleaning c q) d
LoopStep-elsewhere {m} {j} i (clean_own c q l e k) d = elsewhere m.loop i j (checking c) d
LoopStep-elsewhere {m} {j} i (clean_other c q l e k) d = elsewhere m.loop i j (checking c) d
LoopStep-elsewhere {m} {j} i (stopped c e k) d = elsewhere m.loop i j ended d
LoopStep-elsewhere {m} {j} i (crashed c e k) d = elsewhere m.loop i j (backing_off c) d
LoopStep-elsewhere {m} {j} i (stopped_in_backoff c e k) d = elsewhere m.loop i j ended d
LoopStep-elsewhere {m} {j} i (backoff_over c e) d = elsewhere m.loop i j restarting d
LoopStep-elsewhere {m} {j} i (restart_dropped l e k) d = elsewhere m.loop i j ended d
LoopStep-elsewhere {m} {j} i (restart_stopped c l e k k') d = elsewhere m.loop i j ended d
LoopStep-elsewhere {m} {j} i (restart_done c l e k k') d = elsewhere m.loop i j at_top d
LoopStep-elsewhere {m} {j} i (restart_failed c l e k k') d = elsewhere m.loop i j at_top d

CallStep-loop :
    {m : Manager} {b : Bool} {n : Manager}
    → CallStep m b n
    → n.next_ctx ≡ m.next_ctx
    → n.loop ≡ m.loop
CallStep-loop (start_again c l e) s = refl
CallStep-loop (start_done l e) s = absurd (omega (arith, s))
CallStep-loop (start_failed l e) s = refl
CallStep-loop (stop_unstarted l e) s = refl
CallStep-loop (stop_idle c l e k) s = refl
CallStep-loop (stop_refused c q l e k) s = refl
CallStep-loop (stop_waits c q l e k) s = refl
CallStep-loop (stop_seen d l e k) s = refl
CallStep-loop (stop_failed d l e k) s = refl
CallStep-loop (stop_gave_up d l) s = refl

ProcessStep-loop : {m n : Manager} → ProcessStep m n → n.loop ≡ m.loop
ProcessStep-loop (parent_ends c) = refl
ProcessStep-loop (exits q e) = refl
ProcessStep-loop (stores q b l e) = refl
ProcessStep-loop (closes q e) = refl

pub Run-Over : {i : ℕ} {m : Manager} {k : ℕ} {n : Manager} → Run i m k n → Over m → Over n
Run-Over begin h = h
Run-Over (own r s) h = LoopStep-Over s (Run-Over r h)
Run-Over (other j r d s) h = LoopStep-Over s (Run-Over r h)
Run-Over (call r s e) h = CallStep-Over s e (Run-Over r h)
Run-Over (process r s) h = ProcessStep-Over s (Run-Over r h)

pub Run-left :
    {i : ℕ} {m : Manager} {k : ℕ} {n : Manager}
    → Run i m k n
    → Over m
    → k + steps_left (n.loop i) ≤ steps_left (m.loop i)
Run-left begin h = omega arith
Run-left (own r s) h = omega (arith, Run-left r h, LoopStep-left s (Run-Over r h))
Run-left {i} (other j r d s) h = rw (LoopStep-elsewhere i s d) (Run-left r h)
Run-left (call r s e) h = rw (CallStep-loop s e) (Run-left r h)
Run-left (process r s) h = rw (ProcessStep-loop s) (Run-left r h)
