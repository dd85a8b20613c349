-- ===== src/Telemetry/Installed.antt =====
-- Which providers `New` installs for a configuration that `Validate` accepts, and that `Shutdown`
-- closes all of them.
use sidecar_agent.Prelude.{
  Bool, true, false, ◌||◌, ◌&&◌, Option, none, some, List, [], ◌∷◌, if◌then◌else◌, ◌≡◌, ◌⊎◌, inl,
  inr, refl, ap, arith, Bool-cases,
}
use sidecar_agent.Text.{Text, codes, text_eq, trim_space}
use sidecar_agent.Model.Error.{Error, ok}
use sidecar_agent.Config.{TelemetryConfig}
use sidecar_agent.Config.Checks.{check_telemetry}
use sidecar_agent.Config.Parts.{IsExporter, telemetry_iff}
use sidecar_agent.Telemetry.{
  stdout, prometheus, otlp, Make, resource_new, stdoutlog_new, otlploghttp_new, stdouttrace_new,
  otlptracehttp_new, prometheus_new, otlpmetrichttp_new, Provider, System, fallback_system,
  new_logger_provider, new_meter_provider, new_tracer_provider, install_log, install_meter,
  install_tracer, install, make_all, new_metrics, new_system,
}

-- The exporter that a text names: a signal's own one, or OTLP.
abbrev pub chosen : Text → Provider → Text → Text → Provider
chosen first own exporter endpoint =
    if text_eq (trim_space exporter) first then own else otlp (trim_space endpoint)

abbrev pub when : Bool → Provider → Option Provider
when true p = some p
when false p = none

-- What a configuration asks for, save that traces alone are not installed.
unfoldable pub expected_system : TelemetryConfig → System
expected_system cfg = record {
  otel_logger = cfg.log_enabled;
  metrics_handler =
      cfg.metric_enabled && text_eq (trim_space cfg.metric_exporter) (codes "prometheus");
  log_provider =
      when cfg.log_enabled (chosen (codes "stdout") stdout cfg.log_exporter cfg.otlp_endpoint);
  meter_provider =
      when cfg.metric_enabled
        (chosen (codes "prometheus") prometheus cfg.metric_exporter cfg.otlp_endpoint);
  tracer_provider =
      when (cfg.trace_enabled && (cfg.log_enabled || cfg.metric_enabled))
        (chosen (codes "stdout") stdout cfg.trace_exporter cfg.otlp_endpoint);
}

module _ (make : Make → Option Error) (makes : (m : Make) → make m ≡ none)
    (cfg : TelemetryConfig) where
  makes_all : (ms : List Make) → make_all make ms ≡ none
  unfolding make_all
  makes_all [] = refl
  makes_all (m ∷ ms) = rw (makes m, make_all) (makes_all ms)

  makes_metrics : new_metrics make ≡ none
  unfolding new_metrics
  makes_metrics = makes_all _

  logs_made :
      (text_eq (trim_space cfg.log_exporter) (codes "stdout") ≡ true)
        ⊎ (text_eq (trim_space cfg.log_exporter) (codes "otlp") ≡ true)
      → new_logger_provider make cfg
        ≡ ok (chosen (codes "stdout") stdout cfg.log_exporter cfg.otlp_endpoint)
  unfolding new_logger_provider
  logs_made h =
      ground (arith, h, makes stdoutlog_new, makes (otlploghttp_new (trim_space cfg.otlp_endpoint)))

  metrics_made :
      (text_eq (trim_space cfg.metric_exporter) (codes "prometheus") ≡ true)
        ⊎ (text_eq (trim_space cfg.metric_exporter) (codes "otlp") ≡ true)
      → new_meter_provider make cfg
        ≡ ok (
          chosen (codes "prometheus") prometheus cfg.metric_exporter cfg.otlp_endpoint,
          text_eq (trim_space cfg.metric_exporter) (codes "prometheus"),
        )
  unfolding new_meter_provider
  metrics_made h =
      ground
        (arith, h, makes prometheus_new, makes (otlpmetrichttp_new (trim_space cfg.otlp_endpoint)))

  traces_made :
      (text_eq (trim_space cfg.trace_exporter) (codes "stdout") ≡ true)
        ⊎ (text_eq (trim_space cfg.trace_exporter) (codes "otlp") ≡ true)
      → new_tracer_provider make cfg
        ≡ ok (chosen (codes "stdout") stdout cfg.trace_exporter cfg.otlp_endpoint)
  unfolding new_tracer_provider
  traces_made h =
      ground
        (arith, h, makes stdouttrace_new, makes (otlptracehttp_new (trim_space cfg.otlp_endpoint)))

  with_log : System
  with_log = record fallback_system {
    otel_logger = cfg.log_enabled;
    log_provider =
        when cfg.log_enabled (chosen (codes "stdout") stdout cfg.log_exporter cfg.otlp_endpoint);
  }

  log_installed :
      IsExporter cfg.log_enabled (codes "stdout") cfg.log_exporter
      → install_log make cfg fallback_system ≡ ok with_log
  unfolding install_log with_log
  log_installed h = elim (Bool-cases cfg.log_enabled) [
    | inl on ↦ rw (logs_made (h on), on) refl
    | inr off ↦ rw off refl
  ]

  with_meter : System
  unfolding with_log
  with_meter = record with_log {
    metrics_handler =
        cfg.metric_enabled && text_eq (trim_space cfg.metric_exporter) (codes "prometheus");
    meter_provider =
        when cfg.metric_enabled
          (chosen (codes "prometheus") prometheus cfg.metric_exporter cfg.otlp_endpoint);
  }

  meter_installed :
      IsExporter cfg.metric_enabled (codes "prometheus") cfg.metric_exporter
      → install_meter make cfg with_log ≡ ok with_meter
  unfolding install_meter with_meter
  meter_installed h = elim (Bool-cases cfg.metric_enabled) [
    | inl on ↦ rw (metrics_made (h on), on) refl
    | inr off ↦ rw off refl
  ]

  with_tracer : System
  unfolding with_meter
  with_tracer = record with_meter {
    tracer_provider =
        when cfg.trace_enabled
          (chosen (codes "stdout") stdout cfg.trace_exporter cfg.otlp_endpoint);
  }

  tracer_installed :
      IsExporter cfg.trace_enabled (codes "stdout") cfg.trace_exporter
      → install_tracer make cfg with_meter ≡ ok with_tracer
  unfolding install_tracer with_tracer
  tracer_installed h = elim (Bool-cases cfg.trace_enabled) [
    | inl on ↦ rw (traces_made (h on), on) refl
    | inr off ↦ rw off refl
  ]

  and_true : (b : Bool) → (b && true) ≡ b
  and_true true = refl
  and_true false = refl

  and_false : (b : Bool) → (b && false) ≡ false
  and_false true = refl
  and_false false = refl

  with_tracer_expected :
      (cfg.log_enabled || cfg.metric_enabled) ≡ true → with_tracer ≡ expected_system cfg
  unfolding with_tracer with_meter with_log expected_system
  with_tracer_expected on = rw (on, and_true cfg.trace_enabled) refl

  fallback_expected :
      (cfg.log_enabled || cfg.metric_enabled) ≡ false → fallback_system ≡ expected_system cfg
  unfolding expected_system
  fallback_expected off =
      let log : cfg.log_enabled ≡ false = ground (arith, off) in
      let metric : cfg.metric_enabled ≡ false = ground (arith, off) in
      rw (log, metric, and_false cfg.trace_enabled) refl

  installed :
      check_telemetry cfg ≡ none → install make cfg fallback_system ≡ ok (expected_system cfg)
  unfolding install
  installed h =
      let good = (telemetry_iff cfg).0 h in
      elim (Bool-cases (cfg.log_enabled || cfg.metric_enabled)) [
        | inl on ↦
            rw
              (
                on,
                makes resource_new,
                log_installed good.0.1,
                meter_installed good.0.0.1,
                tracer_installed good.0.0.0,
              )
              (ap ok (with_tracer_expected on))
        | inr off ↦ rw off (ap ok (fallback_expected off))
      ]

-- Where no constructor of the library fails, `New` succeeds for each telemetry configuration that
-- `Validate` accepts: the logger, the log and the metric provider are those that are enabled, each
-- with the exporter that is named, the metrics have a handler exactly for Prometheus, and the trace
-- provider is installed if traces are enabled and logs or metrics are too, but not for traces alone.
pub new_system-expected_system :
    (make : Make → Option Error) (cfg : TelemetryConfig)
    → ((m : Make) → make m ≡ none)
    → check_telemetry cfg ≡ none
    → new_system make cfg ≡ ok (expected_system cfg)
unfolding new_system
new_system-expected_system make cfg makes h =
    rw (installed make makes cfg h, makes_metrics make makes cfg) refl
