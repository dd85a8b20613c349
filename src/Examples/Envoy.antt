-- ===== src/Examples/Envoy.antt =====
-- Examples of the Envoy manager: a run in which the process crashes once.
use sidecar_agent.Prelude.{ℕ, ◌+◌, ◌≤◌, true, false, none, some, ◌≡◌, ◌≢◌, refl, arith}
use sidecar_agent.Envoy.Manager.{
  Manager, running, exited, stored, closed, at_top, restarting, reading, waiting, cleaning,
  checking, backing_off, new_manager, update, spawn, with_context, cancel_now, go_to, start_done,
  read_state, read_channel, woken, clean_own, crashed, backoff_over, restart_done, no_process,
  exits, stores, closes, calls, stop_waits, stop_gave_up, watches, proceeds, here, and_then, Reach,
  new, later,
}
use sidecar_agent.Envoy.Manager.Wait.{Stuck, stop_waits-Stuck}
use sidecar_agent.Envoy.Manager.Ending.{steps_left, begin, own, call}
use sidecar_agent.Envoy.Manager.Stopped.{Stands, stop-Ends}
use sidecar_agent.Envoy.Manager.Single.{one_process}
use sidecar_agent.Envoy.Manager.Abandoned.{nothing, goes_on, restart_failed-Abandoned}

abbrev started : Manager
started = go_to 0 at_top (spawn (with_context new_manager))

started_reached : Reach started
started_reached = later false new (calls (start_done refl refl))

-- The process has exited and its channel is closed; the loop waited for it.
abbrev dead : Manager
dead =
    let waits = go_to 0 (waiting 0 0 (some 0)) (go_to 0 (reading 0 0) started) in
    let gone = record waits { phase = update waits.phase 0 exited } in
    let kept = record gone { phase = update gone.phase 0 stored; wait_ok = false } in
    record kept { phase = update kept.phase 0 closed }

dead_reached : Reach dead
dead_reached =
    later false
      (later false
        (later false
          (later false
            (later false started_reached (watches 0 (read_state 0 0 refl refl refl refl)))
            (watches 0 (read_channel 0 0 refl)))
          (proceeds (exits 0 refl)))
        (proceeds (stores 0 false refl refl)))
      (proceeds (closes 0 refl))

-- After the backoff.
abbrev to_restart : Manager
to_restart = go_to 0 restarting (
    go_to 0 (backing_off 0) (
      go_to 0 (checking 0)
        (record (go_to 0 (cleaning 0 0) dead) { cmd = none; wait_done = none; wait_ok = true })))

to_restart_reached : Reach to_restart
to_restart_reached =
    later false
      (later false
        (later false (later false dead_reached (watches 0 (woken 0 0 0 refl refl)))
          (watches 0 (clean_own 0 0 refl refl refl)))
        (watches 0 (crashed 0 refl refl)))
      (watches 0 (backoff_over 0 refl))

abbrev restarted : Manager
restarted = go_to 0 at_top (spawn to_restart)

restarted_reached : Reach restarted
restarted_reached = later false to_restart_reached (watches 0 (restart_done 0 refl refl refl refl))

-- The process that runs.
abbrev second : ℕ
second = 1

one_process_example : (second ≡ second) × (restarted.cmd ≡ some second)
one_process_example = one_process second second restarted_reached (omega arith) refl refl

abbrev stopping : Manager
stopping = record (cancel_now 0 restarted) { lock = some (some 1) }

-- The process exits while `Stop` waits for it.
stop_waits-Stuck_example : Stuck (record stopping { phase = update stopping.phase 1 exited }) 1
stop_waits-Stuck_example =
    stop_waits-Stuck 0 1 restarted_reached refl refl refl refl
      (and_then here (proceeds (exits 1 refl)))

-- The loop sees that there is no process, and ends.
restart_failed-Abandoned_example :
    let m = go_to 0 at_top to_restart in (m.cmd ≡ none) × ((p : ℕ) → m.phase p ≢ running)
restart_failed-Abandoned_example =
    restart_failed-Abandoned 0 to_restart_reached (omega arith) refl refl refl refl
      (goes_on false nothing (watches 0 (no_process refl refl refl)) (λ e. cc e))

-- `Stop` gives up, and the loop reads the state.
abbrev given_up : Manager
given_up = record stopping { lock = none }

stop-Ends_example :
    let k = go_to 0 (reading 0 1) given_up in
    (1 + steps_left (k.loop 0) ≤ steps_left (stopping.loop 0)) × (1 ≤ 7) × Stands k 0
stop-Ends_example =
    stop-Ends 0 1 restarted_reached (stop_waits 0 1 refl refl refl) (λ e. cc e) refl
      (own (call begin (stop_gave_up (some 1) refl) refl) (read_state 0 1 refl refl refl refl))
