-- ===== src/Envoy/Manager.antt =====
-- envoy/manager.go: `Manager` and its goroutines as a system of steps. The mutex is held across a
-- wait in `Stop` only; each other section under it is one step, taken while nobody holds it.
pub mod Wait
pub mod Invariant
pub mod Single
pub mod Abandoned
pub mod Ending
pub mod Stopped
use sidecar_agent.Prelude.{
  ℕ, suc, ◌==◌, Bool, true, false, Option, none, some, if◌then◌else◌, ◌≡◌, ◌≢◌, refl,
}

-- A process, the goroutine that waits for it and the channel that this closes.
pub data Phase : Type 0 where
  unborn running exited stored closed : Phase

-- A goroutine in `watchLoop`, by what it does next: `c` and `p` are the context and the process that
-- it has read, `d` the channel.
pub data Loop : Type 0 where
  no_loop at_top restarting ended : Loop
  reading : (c p : ℕ) → Loop
  waiting : (c p : ℕ) → (d : Option ℕ) → Loop
  cleaning : (c p : ℕ) → Loop
  checking backing_off : (c : ℕ) → Loop

-- The fields of `Manager` and what its goroutines do. Contexts, processes and loops are numbered; a
-- process and its channel have one number.
pub record Manager : Type 0 where
  pub cmd : Option ℕ
  pub wait_done : Option ℕ
  -- `waitErr` is nil or an exit status
  pub wait_ok : Bool
  pub ctx : Option ℕ
  pub cancel : Option ℕ
  -- held by a `Stop` that waits for a channel
  pub lock : Option (Option ℕ)
  pub cancelled : ℕ → Bool
  pub phase : ℕ → Phase
  pub loop : ℕ → Loop
  pub next_ctx : ℕ
  pub next_process : ℕ

-- `NewManager`
abbrev pub new_manager : Manager
new_manager = record {
  cmd = none;
  wait_done = none;
  wait_ok = true;
  ctx = none;
  cancel = none;
  lock = none;
  cancelled = λ c. false;
  phase = λ p. unborn;
  loop = λ i. no_loop;
  next_ctx = 0;
  next_process = 0;
}

abbrev pub update {ℓ} : {A : Type ℓ} → (ℕ → A) → ℕ → A → ℕ → A
update f i a j = if i == j then a else f j

-- `startProcessLocked`, where the process starts.
abbrev pub spawn : Manager → Manager
spawn m = record m {
  cmd = some m.next_process;
  wait_done = some m.next_process;
  wait_ok = true;
  phase = update m.phase m.next_process running;
  next_process = suc m.next_process;
}

-- `m.ctx, m.cancel = context.WithCancel(parent)`
abbrev pub with_context : Manager → Manager
with_context m = record m {
  ctx = some m.next_ctx;
  cancel = some m.next_ctx;
  next_ctx = suc m.next_ctx;
}

-- `m.cancel(); m.cancel = nil`
abbrev pub cancel_now : ℕ → Manager → Manager
cancel_now c m = record m { cancel = none; cancelled = update m.cancelled c true }

abbrev pub go_to : ℕ → Loop → Manager → Manager
go_to i l m = record m { loop = update m.loop i l }

-- `Start` and `Stop`. The index is true where a waiting `Stop` ends because its own context does.
pub data CallStep (m : Manager) : Bool → Manager → Type 0 where
  start_again : (c : ℕ) → m.lock ≡ none → m.cancel ≡ some c → CallStep m false m
  start_done :
      m.lock ≡ none
      → m.cancel ≡ none
      → CallStep m false (go_to m.next_ctx at_top (spawn (with_context m)))
  start_failed :
      m.lock ≡ none → m.cancel ≡ none → CallStep m false (cancel_now m.next_ctx (with_context m))
  stop_unstarted : m.lock ≡ none → m.cancel ≡ none → CallStep m false m
  stop_idle :
      (c : ℕ) → m.lock ≡ none → m.cancel ≡ some c → m.cmd ≡ none → CallStep m false (cancel_now c m)
  stop_refused :
      (c p : ℕ)
      → m.lock ≡ none
      → m.cancel ≡ some c
      → m.cmd ≡ some p
      → CallStep m false (cancel_now c m)
  stop_waits :
      (c p : ℕ)
      → m.lock ≡ none
      → m.cancel ≡ some c
      → m.cmd ≡ some p
      → CallStep m false (record (cancel_now c m) { lock = some m.wait_done })
  stop_seen :
      (d : ℕ)
      → m.lock ≡ some (some d)
      → m.phase d ≡ closed
      → m.wait_ok ≡ true
      → CallStep m false
          (record m { lock = none; cmd = none; wait_done = none; wait_ok = true; ctx = none })
  stop_failed :
      (d : ℕ)
      → m.lock ≡ some (some d)
      → m.phase d ≡ closed
      → m.wait_ok ≡ false
      → CallStep m false (record m { lock = none })
  stop_gave_up : (d : Option ℕ) → m.lock ≡ some d → CallStep m true (record m { lock = none })

-- A goroutine `i` in `watchLoop`; it reads `m.waitDone` without the lock.
pub data LoopStep (m : Manager) (i : ℕ) : Manager → Type 0 where
  read_state :
      (c p : ℕ)
      → m.lock ≡ none
      → m.loop i ≡ at_top
      → m.ctx ≡ some c
      → m.cmd ≡ some p
      → LoopStep m i (go_to i (reading c p) m)
  no_context : m.lock ≡ none → m.loop i ≡ at_top → m.ctx ≡ none → LoopStep m i (go_to i ended m)
  no_process : m.lock ≡ none → m.loop i ≡ at_top → m.cmd ≡ none → LoopStep m i (go_to i ended m)
  read_channel :
      (c p : ℕ) → m.loop i ≡ reading c p → LoopStep m i (go_to i (waiting c p m.wait_done) m)
  woken :
      (c p d : ℕ)
      → m.loop i ≡ waiting c p (some d)
      → m.phase d ≡ closed
      → LoopStep m i (go_to i (cleaning c p) m)
  clean_own :
      (c p : ℕ)
      → m.lock ≡ none
      → m.loop i ≡ cleaning c p
      → m.cmd ≡ some p
      → LoopStep m i
          (go_to i (checking c) (record m { cmd = none; wait_done = none; wait_ok = true }))
  clean_other :
      (c p : ℕ)
      → m.lock ≡ none
      → m.loop i ≡ cleaning c p
      → m.cmd ≢ some p
      → LoopStep m i (go_to i (checking c) m)
  stopped : (c : ℕ) → m.loop i ≡ checking c → m.cancelled c ≡ true → LoopStep m i (go_to i ended m)
  crashed :
      (c : ℕ)
      → m.loop i ≡ checking c
      → m.cancelled c ≡ false
      → LoopStep m i (go_to i (backing_off c) m)
  stopped_in_backoff :
      (c : ℕ) → m.loop i ≡ backing_off c → m.cancelled c ≡ true → LoopStep m i (go_to i ended m)
  backoff_over : (c : ℕ) → m.loop i ≡ backing_off c → LoopStep m i (go_to i restarting m)
  restart_dropped :
      m.lock ≡ none → m.loop i ≡ restarting → m.ctx ≡ none → LoopStep m i (go_to i ended m)
  restart_stopped :
      (c : ℕ)
      → m.lock ≡ none
      → m.loop i ≡ restarting
      → m.ctx ≡ some c
      → m.cancelled c ≡ true
      → LoopStep m i (go_to i ended m)
  restart_done :
      (c : ℕ)
      → m.lock ≡ none
      → m.loop i ≡ restarting
      → m.ctx ≡ some c
      → m.cancelled c ≡ false
      → LoopStep m i (go_to i at_top (spawn m))
  restart_failed :
      (c : ℕ)
      → m.lock ≡ none
      → m.loop i ≡ restarting
      → m.ctx ≡ some c
      → m.cancelled c ≡ false
      → LoopStep m i (go_to i at_top m)

-- A process and the goroutine of `startProcessLocked`; a parent context may end at any time.
pub data ProcessStep (m : Manager) : Manager → Type 0 where
  parent_ends : (c : ℕ) → ProcessStep m (record m { cancelled = update m.cancelled c true })
  exits :
      (p : ℕ) → m.phase p ≡ running → ProcessStep m (record m { phase = update m.phase p exited })
  stores :
      (p : ℕ) (exit_status : Bool)
      → m.lock ≡ none
      → m.phase p ≡ exited
      → ProcessStep m (record m { phase = update m.phase p stored; wait_ok = exit_status })
  closes :
      (p : ℕ) → m.phase p ≡ stored → ProcessStep m (record m { phase = update m.phase p closed })

pub data Step (m : Manager) : Bool → Manager → Type 0 where
  calls : {b : Bool} {n : Manager} → CallStep m b n → Step m b n
  watches : {n : Manager} (i : ℕ) → LoopStep m i n → Step m false n
  proceeds : {n : Manager} → ProcessStep m n → Step m false n

-- Any number of steps, none of which is a `Stop` that gives up.
pub data Patient (m : Manager) : Manager → Type 0 where
  here : Patient m m
  and_then : {n k : Manager} → Patient m n → Step n false k → Patient m k

-- The states that a new manager may come to.
pub data Reach : Manager → Type 0 where
  new : Reach new_manager
  later : {m n : Manager} (b : Bool) → Reach m → Step m b n → Reach n
