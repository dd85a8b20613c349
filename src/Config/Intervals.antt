-- ===== src/Config/Intervals.antt =====
-- Intervals that are accepted although a ticker does not take them: `time.NewTicker` panics on a
-- duration that is not positive.
use mathlib.Core.List.Permᴰ
use sidecar_agent.Prelude.{none, some, ◌≡◌, refl}
use sidecar_agent.Prelude.Int.{ℤ}
use sidecar_agent.Text.{Text, trim_space}
use sidecar_agent.Model.Error.{ok}
use sidecar_agent.Config.{Config}
use sidecar_agent.Config.Checks.{
  Formats, address_fields, required_strings, duration_fields, must_duration, validate_config,
}
use sidecar_agent.Config.Accepted.{IsAccepted}
use sidecar_agent.Config.Verdict.{validate_in_order-IsAccepted}

-- The configuration with another refresh interval of the watcher.
abbrev pub with_refresh : Text → Config → Config
with_refresh raw c = record c { discovery = record c.discovery { refresh_interval = raw } }

module _ (y : Formats) where
  IsAccepted-with_refresh :
      (c : Config) (raw : Text) (d : ℤ)
      → y.parse_duration (trim_space raw) ≡ ok d
      → IsAccepted y c
      → IsAccepted y (with_refresh raw c)
  unfolding address_fields required_strings duration_fields
  IsAccepted-with_refresh c raw d e a = record {
    env = a.env;
    cluster_name = a.cluster_name;
    zone = a.zone;
    host_ip = a.host_ip;
    addresses = a.addresses;
    consul = a.consul;
    prefix = a.prefix;
    strings = a.strings;
    durations = ((d, e), a.durations.1);
    lease = a.lease;
    envoy = a.envoy;
    trace = a.trace;
    metric = a.metric;
    log = a.log;
    endpoint = a.endpoint;
  }

  -- An accepted configuration stays accepted with any refresh interval that parses, whatever its
  -- sign, and `MustDuration` then gives the watcher that interval.
  pub refresh_interval_unchecked :
      (c : Config) (raw : Text) (d : ℤ)
      → y.parse_duration (trim_space raw) ≡ ok d
      → validate_config y c ≡ none
      → (validate_config y (with_refresh raw c) ≡ none)
        × (must_duration y (with_refresh raw c).discovery.refresh_interval ≡ some d)
  unfolding validate_config must_duration
  refresh_interval_unchecked c raw d e valid =
      let before =
        (validate_in_order-IsAccepted y c (Permᴰ.refl _) (Permᴰ.refl _) (Permᴰ.refl _)).0 valid in
      let after = IsAccepted-with_refresh c raw d e before in
      (
        (validate_in_order-IsAccepted y (with_refresh raw c) (Permᴰ.refl _) (Permᴰ.refl _)
              (Permᴰ.refl _)).1
            after,
        rw (e, must_duration) refl,
      )
