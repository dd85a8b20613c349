-- ===== src/App/Main.antt =====
-- `main` of cmd/sidecar-agent/main.go and `WaitForShutdown`: from the file to the end of the process.
-- A second signal, which ends the process at once, is left out.
pub mod Crash
pub mod Quiet
use sidecar_agent.Xds.Server.{SetSnapshot}
use sidecar_agent.Prelude.{
  ℕ, Bool, true, false, ◌&&◌, Option, none, some, List, [], ◌∷◌, if◌then◌else◌, ◌≡◌, refl,
}
use sidecar_agent.Prelude.Int.{ℤ, pos, leb_int}
use sidecar_agent.Text.{Text}
use sidecar_agent.Model.Error.{Error, Result, ok, err}
use sidecar_agent.Model.Service.{LocalService}
use sidecar_agent.Config.{Config}
use sidecar_agent.Config.Checks.{Formats, Problem, panics}
use sidecar_agent.Config.Load.{Files, Loaded, loaded, unreadable, load}
use sidecar_agent.Registry.Consul.{Outside}
use sidecar_agent.Registry.Exec.{State}
use sidecar_agent.Xds.Snapshot.Build.{Envoy, Snapshot}
use sidecar_agent.App.{Runner, Installs, Ending, done, refused, panicked, ◌>>=◌, new_runner}
use sidecar_agent.App.Running.{Running, Action, ◌and_next◌, start_runner, shutdown_runner}

-- The process returns from `main`, ends by `log.Fatal`, or panics.
pub data Exit : Type 0 where
  finished fatal crashed : Exit

abbrev pub exit_of {ℓ} : {A : Type ℓ} → Ending A → Exit
exit_of (done a) = finished
exit_of (refused e) = fatal
exit_of panicked = crashed

abbrev pub is_panic : Problem → Bool
is_panic panics = true
is_panic _ = false

-- What the parts without a state return, the time of the first publication, and the order in which Go
-- iterates over the services.
pub record Answers : Type 0 where
  pub listen : Option Error
  pub now : ℕ
  pub manager_start : Option Error
  pub visit : List LocalService → List LocalService
  pub admin : Option Error
  pub dns : Option Error
  pub manager_stop : Option Error
  pub telemetry : Option Error
  -- The lease loop, and the watcher after a first refresh without an error, get to their tickers.
  pub lease_loop_runs : Bool
  pub watcher_runs : Bool

-- `time.NewTicker` in a goroutine, which panics where the interval is not positive.
abbrev pub new_ticker : (reached : Bool) → (interval : ℤ) → Action
new_ticker reached interval w =
    (if reached && leb_int interval (pos 0) then panicked else done tt, w)

module _ (y : Formats) (fs : Files) (o : Outside) (x : Installs) (v : Envoy)
    (set_snapshot : SetSnapshot) (a : Answers) where
  -- `WaitForShutdown`, once the context has ended.
  unfoldable pub wait_for_shutdown : Runner → Action
  wait_for_shutdown r =
      shutdown_runner o v set_snapshot r y a.visit a.admin a.dns a.manager_stop a.telemetry

  abbrev pub at_first : Runner → State → Running
  at_first r s = record { registry = s; xds = r.xds; envoy_started = false; launched = false }

  -- `Run`, in which a panic of a goroutine ends the process: `Start`, the tickers of the goroutines, as
  -- far as they get there, and the wait for the end.
  unfoldable pub run_runner : Runner × State → Ending (Unit {0})
  run_runner (r, s) =
      ((start_runner o v set_snapshot r a.listen a.now a.manager_start
          and_next new_ticker a.lease_loop_runs r.lease_refresh_interval
          and_next new_ticker a.watcher_runs r.refresh_interval
          and_next wait_for_shutdown r)
        (at_first r s)).0

  unfoldable pub after_load : State → Loaded → Exit
  after_load s (unreadable e) = fatal
  after_load s (loaded c (some p)) = if is_panic p then crashed else fatal
  after_load s (loaded c none) = exit_of (new_runner y o x c s >>= run_runner)

  -- `main`, for the path on the command line.
  unfoldable pub run_main : Text → State → Exit
  run_main path s = after_load s (load y fs path)
