-- ===== src/Examples/Config.antt =====
-- Examples of the configuration, the telemetry system and the assembly.
use mathlib.Core.List.Permᴰ
use sidecar_agent.Prelude.{true, false, [], none, some, ◌≡◌, ◌≢◌, ◌⊎◌, refl}
use sidecar_agent.Text.{Text, codes, scan_int}
use sidecar_agent.Model.Error.{ok, err, external}
use sidecar_agent.Config.{Config, default_config}
use sidecar_agent.Config.Checks.{
  Formats, address_fields, required_strings, duration_fields, must_duration, validate_in_order,
  validate_config, check_telemetry,
}
use sidecar_agent.Telemetry.{new_system}
use sidecar_agent.Telemetry.Installed.{expected_system, new_system-expected_system}
use sidecar_agent.App.{Installs}
use sidecar_agent.App.Main.{crashed, Answers, run_main}
use sidecar_agent.App.Main.Crash.{HasBadInterval, run_main-NoCrash}
use sidecar_agent.Config.Load.{Files, load}
use sidecar_agent.Examples.Publishing.{envoy}
use sidecar_agent.Examples.{willing, with_orders}

-- Durations in whole nanoseconds by their leading digits.
abbrev formats : Formats
formats = record {
  is_ip = λ t. true;
  split_host_port = λ t. ok (t, codes "1");
  parse_duration =
      λ t. elim (scan_int t) [ none ↦ err (external (codes "duration")) | some n ↦ ok n ];
}

default_valid : validate_config formats default_config ≡ none
unfolding validate_config default_config validate_in_order sidecar_agent.Text.trim_space
    sidecar_agent.Config.Checks.check_host sidecar_agent.Config.Checks.check_each address_fields
    sidecar_agent.Config.Checks.validate_address required_strings duration_fields
    sidecar_agent.Config.Checks.check_duration scan_int must_duration
    sidecar_agent.Config.Checks.check_envoy check_telemetry
    sidecar_agent.Config.Checks.check_exporter sidecar_agent.Text.text_eq
default_valid = refl

new_system-expected_system_example :
    new_system (λ m. none) default_config.telemetry ≡ ok (expected_system default_config.telemetry)
unfolding check_telemetry default_config sidecar_agent.Config.Checks.check_exporter
    sidecar_agent.Text.text_eq sidecar_agent.Text.trim_space
new_system-expected_system_example =
    new_system-expected_system (λ m. none) default_config.telemetry (λ m. refl) refl

abbrev installs : Installs
installs = record { make = λ m. none; new_client = λ cfg. none; write_bootstrap = λ path c. none }

-- A file that cannot be read; without a path the defaults are taken.
abbrev files : Files
files = record {
  read_file = λ path. err (external (codes "no such file"));
  unmarshal = λ bytes c. ok c;
  is_abs = λ path. false;
  dir = λ path. path;
  join = λ dir path. dir;
}

abbrev answers : Answers
answers = record {
  listen = none;
  now = 9;
  manager_start = none;
  visit = λ l. l;
  admin = none;
  dns = none;
  manager_stop = none;
  telemetry = none;
  lease_loop_runs = true;
  watcher_runs = true;
}

run_main-NoCrash_example :
    run_main formats files willing installs envoy (λ calls node s. none) answers [] with_orders
      ≢ crashed
    ⊎ HasBadInterval formats files willing installs envoy
        (λ calls node s. none)
        answers
        with_orders
        (load formats files [])
run_main-NoCrash_example =
    run_main-NoCrash formats files willing installs envoy (λ calls node s. none) answers []
      with_orders
