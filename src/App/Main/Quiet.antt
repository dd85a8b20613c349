-- ===== src/App/Main/Quiet.antt =====
-- Actions of the runner that do not panic: `Start`, `Shutdown` and a ticker with a positive interval.
use sidecar_agent.Xds.Server.{SetSnapshot}
use sidecar_agent.Prelude.{ℕ, Bool, true, false, Option, none, some, List, ◌≡◌, refl}
use sidecar_agent.Prelude.Int.{ℤ, pos, leb_int}
use sidecar_agent.Text.{codes}
use sidecar_agent.Model.Error.{Error, Result, ok, err}
use sidecar_agent.Model.Service.{LocalService}
use sidecar_agent.Config.Checks.{Formats, must_duration}
use sidecar_agent.Config.Accepted.{IsDuration}
use sidecar_agent.Registry.Consul.{Outside}
use sidecar_agent.Xds.Snapshot.Build.{Envoy}
use sidecar_agent.App.{Runner, Ending, done, refused, panicked, ◌>>=◌, of_error, of_panic}
use sidecar_agent.App.Assembly.{NoPanic, NoPanic-done, NoPanic-of_error}
use sidecar_agent.App.Running.{
  Running, Action, proceed, ◌and_next◌, nil_or_refused, returns, start_registry, start_xds,
  publish_empty, manager_started, start_envoy, launch, start_runner, leave, stop_xds, stop_envoy,
  shutdown_runner,
}
use sidecar_agent.App.Main.{new_ticker}

NoPanic-proceed :
    (m : Ending (Unit {0})) (b : Action) (w : Running)
    → NoPanic m
    → ((w : Running) → NoPanic (b w).0)
    → NoPanic (proceed m b w).0
NoPanic-proceed (done u) b w h k = k w
NoPanic-proceed (refused e) b w h k = λ p. cc p
NoPanic-proceed panicked b w h k = absurd (h refl)

abbrev pub IsQuiet : Action → Type 0
IsQuiet a = (w : Running) → NoPanic (a w).0

pub IsQuiet-and_next :
    (first next : Action) → IsQuiet first → IsQuiet next → IsQuiet (first and_next next)
IsQuiet-and_next first next h k w = NoPanic-proceed (first w).0 next (first w).1 (h w) k

NoPanic-nil {ℓ} : {A : Type ℓ} (r : Result A) → NoPanic (nil_or_refused r)
NoPanic-nil (ok a) = λ p. cc p
NoPanic-nil (err e) = λ p. cc p

abbrev Quiet : Ending (Unit {0}) × Running → Type 0
Quiet p = NoPanic p.0

module _ (o : Outside) (v : Envoy) (set_snapshot : SetSnapshot) (r : Runner) where
  NoPanic-managed :
      (b : Option ℤ) (manager : Option Error) (w : Running)
      → Quiet (elim b [
        | none ↦ (done tt, w)
        | some backoff ↦ manager_started o v set_snapshot r manager w
      ])
  NoPanic-managed none manager w = λ p. cc p
  NoPanic-managed (some b) none w = λ p. cc p
  NoPanic-managed (some b) (some e) w = λ p. cc p

  pub NoPanic-start :
      (listen : Option Error) (now : ℕ) (manager : Option Error)
      → IsQuiet (start_runner o v set_snapshot r listen now manager)
  unfolding start_runner
  NoPanic-start listen now manager =
      let registry = start_registry o v set_snapshot r in
      let xds = start_xds o v set_snapshot r listen in
      let empty = publish_empty o v set_snapshot r now in
      let envoy = start_envoy o v set_snapshot r manager in
      let last = launch o v set_snapshot r in
      IsQuiet-and_next registry (xds and_next empty and_next envoy and_next last)
        (λ w. NoPanic-nil _)
        (IsQuiet-and_next xds (empty and_next envoy and_next last) (λ w. NoPanic-of_error _)
          (IsQuiet-and_next empty (envoy and_next last) (λ w. NoPanic-nil _)
            (IsQuiet-and_next envoy last (NoPanic-managed r.envoy manager) (λ w. NoPanic-done tt))))

  NoPanic-stopped :
      (b : Option ℤ) (m : Ending (Unit {0})) (w : Running)
      → NoPanic m
      → Quiet (elim b [ none ↦ (done tt, w) | some backoff ↦ (m, w) ])
  NoPanic-stopped none m w h = λ p. cc p
  NoPanic-stopped (some b) m w h = h

  NoPanic-drain :
      (y : Formats) (manager : Option Error)
      → IsDuration y (codes "", r.cfg.envoy.drain_timeout)
      → NoPanic
          (of_panic (must_duration y r.cfg.envoy.drain_timeout) >>= λ timeout. of_error manager)
  unfolding must_duration
  NoPanic-drain y manager (d, e) = rw (e, must_duration) (NoPanic-of_error manager)

  pub NoPanic-shutdown :
      (y : Formats) (visit : List LocalService → List LocalService)
      (admin dns manager telemetry : Option Error)
      → IsDuration y (codes "", r.cfg.envoy.drain_timeout)
      → IsQuiet (shutdown_runner o v set_snapshot r y visit admin dns manager telemetry)
  unfolding shutdown_runner
  NoPanic-shutdown y visit admin dns manager telemetry d =
      let all = leave o v set_snapshot r visit in
      let xds = stop_xds o v set_snapshot r in
      let envoy = stop_envoy o v set_snapshot r y manager in
      let last = returns telemetry in
      IsQuiet-and_next (returns admin)
        (all and_next returns dns and_next xds and_next envoy and_next last)
        (λ w. NoPanic-of_error admin)
        (IsQuiet-and_next all (returns dns and_next xds and_next envoy and_next last)
          (λ w. NoPanic-nil _)
          (IsQuiet-and_next (returns dns) (xds and_next envoy and_next last)
            (λ w. NoPanic-of_error dns)
            (IsQuiet-and_next xds (envoy and_next last) (λ w. NoPanic-done tt)
              (IsQuiet-and_next envoy last
                (λ w. NoPanic-stopped r.envoy _ w (NoPanic-drain y manager d))
                (λ w. NoPanic-of_error telemetry)))))

pub NoPanic-new_ticker :
    (reached : Bool) (interval : ℤ)
    → leb_int interval (pos 0) ≡ false
    → IsQuiet (new_ticker reached interval)
NoPanic-new_ticker true interval h w = rw h (λ p. cc p)
NoPanic-new_ticker false interval h w = λ p. cc p
