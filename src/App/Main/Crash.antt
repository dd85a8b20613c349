-- ===== src/App/Main/Crash.antt =====
-- Where the process may panic: the durations that `MustDuration` parses, and the intervals of tickers.
use mathlib.Core.List.Permᴰ
use mathlib.Core.Path.{subst}
use sidecar_agent.Xds.Server.{SetSnapshot}
use sidecar_agent.Prelude.{
  true, false, ◌⊎◌, none, some, if◌then◌else◌, ◌≡◌, ◌≢◌, refl, sym, ◌∙◌, ap, Bool-cases, inl, inr,
}
use sidecar_agent.Prelude.Int.{pos, leb_int}
use sidecar_agent.Text.{Text, codes}
use sidecar_agent.Model.Error.{Result, ok, err}
use sidecar_agent.Config.{Config, default_config}
use sidecar_agent.Config.Checks.{
  Formats, Problem, panics, required, host_ip_invalid, address_invalid, duration_invalid,
  lease_interval_too_long, required_for_envoy, exporter_invalid, endpoint_required, is_blank,
  duration_fields, address_fields, required_strings, validate_config,
}
use sidecar_agent.Config.Accepted.{IsDuration}
use sidecar_agent.Config.Verdict.{IsError, validate_in_order-IsAccepted, validate_in_order-IsError}
use sidecar_agent.Config.Load.{Files, Loaded, loaded, unreadable, anchor, load}
use sidecar_agent.Telemetry.{new_system}
use sidecar_agent.Registry.Consul.{Outside}
use sidecar_agent.Registry.Exec.{State}
use sidecar_agent.Xds.Snapshot.Build.{Envoy}
use sidecar_agent.App.{
  Runner, Installs, Ending, done, refused, panicked, ◌>>=◌, of_result, assemble_client,
  assemble_builder, assemble_envoy, must, new_runner,
}
use sidecar_agent.App.Assembly.{NoPanic, new_runner-NoPanic}
use sidecar_agent.App.Running.{◌and_next◌, start_runner}
use sidecar_agent.App.Main.Quiet.{
  IsQuiet-and_next, NoPanic-start, NoPanic-shutdown, NoPanic-new_ticker,
}
use sidecar_agent.App.Main.{
  Exit, crashed, fatal, exit_of, is_panic, Answers, new_ticker, wait_for_shutdown, at_first,
  run_runner, after_load, run_main,
}

abbrev IsVerdict : Formats → Loaded → Type 0
IsVerdict y (loaded c v) = v ≡ validate_config y c
IsVerdict y (unreadable e) = Unit

module _ (y : Formats) (fs : Files) where
  decoded-IsVerdict :
      (path : Text) (r : Result Config)
      → IsVerdict y (elim r [
        | err e ↦ unreadable e
        | ok c ↦ loaded (anchor y fs path c) (validate_config y (anchor y fs path c))
      ])
  decoded-IsVerdict path (ok c) = refl
  decoded-IsVerdict path (err e) = tt

  read-IsVerdict :
      (path : Text) (r : Result Text)
      → IsVerdict y (elim r [
        | err e ↦ unreadable e
        | ok bytes ↦ elim (fs.unmarshal bytes default_config) [
          | err e ↦ unreadable e
          | ok c ↦ loaded (anchor y fs path c) (validate_config y (anchor y fs path c))
        ]
      ])
  read-IsVerdict path (ok bytes) = decoded-IsVerdict path (fs.unmarshal bytes default_config)
  read-IsVerdict path (err e) = tt

  load-IsVerdict : (path : Text) → IsVerdict y (load y fs path)
  unfolding load
  load-IsVerdict path = elim (Bool-cases (is_blank path)) [
    | inl e ↦ rw e refl
    | inr e ↦ rw e (read-IsVerdict path (fs.read_file path))
  ]

-- A runner keeps its configuration.
abbrev IsFor : Config → Ending (Runner × State) → Type 0
IsFor c m = (p : Runner × State) → m ≡ done p → p.0.cfg ≡ c

IsFor-bind {ℓ} :
    {A : Type ℓ} (c : Config) (m : Ending A) (f : A → Ending (Runner × State))
    → ((a : A) → IsFor c (f a))
    → IsFor c (m >>= f)
IsFor-bind c (done a) f h p q = h a p q
IsFor-bind c (refused e) f h p q = cc q
IsFor-bind c panicked f h p q = cc q

IsFor-done : (c : Config) (p : Runner × State) → p.0.cfg ≡ c → IsFor c (done p)
IsFor-done c p e q f =
    ap (λ (m : Ending (Runner × State)). elim m [ done a ↦ a.0.cfg | refused x ↦ c | panicked ↦ c ])
      (sym f)
    ∙ e

new_runner-IsFor :
    (y : Formats) (o : Outside) (x : Installs) (c : Config) (s : State)
    → IsFor c (new_runner y o x c s)
unfolding new_runner
new_runner-IsFor y o x c s = IsFor-bind c (of_result (new_system x.make c.telemetry)) _ λ system.
    IsFor-bind c (assemble_client y o x c s) _ λ made.
      IsFor-bind c (assemble_builder y o x c) _ λ builder.
        IsFor-bind c (must y o x c.discovery.refresh_interval) _ λ refresh.
          IsFor-bind c (must y o x c.discovery.debounce_interval) _
            λ debounce. IsFor-bind c (assemble_envoy y o x c) _ λ envoy. IsFor-done c _ refl

abbrev NoCrash : Exit → Type 0
NoCrash x = x ≢ crashed

NoCrash-exit_of {ℓ} : {A : Type ℓ} (m : Ending A) → NoPanic m → NoCrash (exit_of m)
NoCrash-exit_of (done a) h = λ p. cc p
NoCrash-exit_of (refused e) h = λ p. cc p
NoCrash-exit_of panicked h = absurd (h refl)

problem-NoCrash : (p : Problem) → p ≢ panics → NoCrash (if is_panic p then crashed else fatal)
problem-NoCrash (required f) h = λ q. cc q
problem-NoCrash (host_ip_invalid t) h = λ q. cc q
problem-NoCrash (address_invalid f e) h = λ q. cc q
problem-NoCrash (duration_invalid f e) h = λ q. cc q
problem-NoCrash lease_interval_too_long h = λ q. cc q
problem-NoCrash (required_for_envoy f) h = λ q. cc q
problem-NoCrash (exporter_invalid f t) h = λ q. cc q
problem-NoCrash endpoint_required h = λ q. cc q
problem-NoCrash panics h = absurd (h refl)

verdict-IsError : (y : Formats) (c : Config) → IsError (validate_config y c)
unfolding validate_config
verdict-IsError y c =
    validate_in_order-IsError y c (address_fields c) (required_strings c)
      (Permᴰ.refl (duration_fields c))

drain_of :
    (y : Formats) (c : Config)
    → validate_config y c ≡ none
    → IsDuration y (codes "", c.envoy.drain_timeout)
unfolding validate_config duration_fields
drain_of y c valid =
    let accepted =
      (validate_in_order-IsAccepted y c (Permᴰ.refl _) (Permᴰ.refl _) (Permᴰ.refl _)).0 valid in
    accepted.durations.1.1.1.1.1.1.1.1.1.0

module _ (y : Formats) (fs : Files) (o : Outside) (x : Installs) (v : Envoy)
    (set_snapshot : SetSnapshot) (a : Answers) where
  NoPanic-run :
      (r : Runner) (s : State)
      → IsDuration y (codes "", r.cfg.envoy.drain_timeout)
      → leb_int r.lease_refresh_interval (pos 0) ≡ false
      → leb_int r.refresh_interval (pos 0) ≡ false
      → NoPanic (run_runner y fs o x v set_snapshot a (r, s))
  unfolding run_runner wait_for_shutdown
  NoPanic-run r s d lease refresh =
      let wait = wait_for_shutdown y fs o x v set_snapshot a r in
      let leases = new_ticker a.lease_loop_runs r.lease_refresh_interval in
      let refreshes = new_ticker a.watcher_runs r.refresh_interval in
      IsQuiet-and_next (start_runner o v set_snapshot r a.listen a.now a.manager_start)
        (leases and_next refreshes and_next wait)
        (NoPanic-start o v set_snapshot r a.listen a.now a.manager_start)
        (IsQuiet-and_next leases (refreshes and_next wait)
          (NoPanic-new_ticker a.lease_loop_runs r.lease_refresh_interval lease)
          (IsQuiet-and_next refreshes wait
            (NoPanic-new_ticker a.watcher_runs r.refresh_interval refresh)
            (NoPanic-shutdown o v set_snapshot r y a.visit a.admin a.dns a.manager_stop a.telemetry
              d)))
        (at_first y fs o x v set_snapshot a r s)

  -- The file is accepted, and `New` makes a runner of it with an interval that is not positive.
  abbrev pub HasBadInterval : State → Loaded → Type 0
  HasBadInterval s l =
      (c : Config) × (r : Runner) × (s' : State) × (l ≡ loaded c none)
      × (new_runner y o x c s ≡ done (r, s'))
      × ((leb_int r.lease_refresh_interval (pos 0) ≡ true)
          ⊎ (leb_int r.refresh_interval (pos 0) ≡ true))

  made-NoCrash :
      (c : Config) (s : State)
      → none ≡ validate_config y c
      → (m : Ending (Runner × State)) → new_runner y o x c s ≡ m
      → NoCrash (exit_of (m >>= run_runner y fs o x v set_snapshot a))
        ⊎ HasBadInterval s (loaded c none)
  made-NoCrash c s h (refused e) q = inl (λ p. cc p)
  made-NoCrash c s h panicked q = absurd (new_runner-NoPanic y o x c s (sym h) q)
  made-NoCrash c s h (done (r, s')) q =
      elim (Bool-cases (leb_int r.lease_refresh_interval (pos 0))) [
        | inl bad ↦ inr (c, r, s', refl, q, inl bad)
        | inr lease ↦ elim (Bool-cases (leb_int r.refresh_interval (pos 0))) [
          | inl bad ↦ inr (c, r, s', refl, q, inr bad)
          | inr refresh ↦
              let same = new_runner-IsFor y o x c s (r, s') q in
              let drain =
                subst (λ k. IsDuration y (codes "", k.envoy.drain_timeout)) (sym same)
                  (drain_of y c (sym h)) in
              inl (NoCrash-exit_of _ (NoPanic-run r s' drain lease refresh))
        ]
      ]

  loaded-NoCrash :
      (s : State) (l : Loaded)
      → IsVerdict y l
      → NoCrash (after_load y fs o x v set_snapshot a s l) ⊎ HasBadInterval s l
  unfolding after_load
  loaded-NoCrash s (unreadable e) h = inl (λ p. cc p)
  loaded-NoCrash s (loaded c none) h = made-NoCrash c s h (new_runner y o x c s) refl
  loaded-NoCrash s (loaded c (some p)) h =
      inl (problem-NoCrash p (λ e. verdict-IsError y c (sym h ∙ ap some e)))

  -- Whatever the file holds and whatever the parts return, no duration that `MustDuration` parses in
  -- `Validate`, in `New` or in `Shutdown` makes the process panic, and neither do the tickers of the
  -- lease loop and of the watcher: it returns or ends by `log.Fatal`; or else the file is accepted and
  -- the runner that `New` makes of it has an interval for one of these tickers that is not positive.
  pub run_main-NoCrash :
      (path : Text) (s : State)
      → (run_main y fs o x v set_snapshot a path s ≢ crashed) ⊎ HasBadInterval s (load y fs path)
  unfolding run_main
  run_main-NoCrash path s = loaded-NoCrash s (load y fs path) (load-IsVerdict y fs path)
