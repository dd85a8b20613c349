-- ===== src/Telemetry.antt =====
-- telemetry: `New` and `Shutdown` of `System`, and `NewMetrics`. Which exporters and providers are
-- made and installed is modelled, what they do is not.
pub mod Installed
pub mod Metrics
use sidecar_agent.Prelude.{
  Bool, true, false, ◌||◌, Option, none, some, List, [], ◌∷◌, ◌++◌, if◌then◌else◌, ◌≡◌, refl,
}
use sidecar_agent.Text.{Text, codes, text_eq, trim_space}
use sidecar_agent.Model.Error.{Error, external, Result, ok, err}
use sidecar_agent.Config.{TelemetryConfig}

-- The constructors of the OpenTelemetry library that may fail.
pub data Make : Type 0 where
  resource_new stdoutlog_new prometheus_new stdouttrace_new : Make
  -- the OTLP exporters, by their endpoint
  otlploghttp_new otlpmetrichttp_new otlptracehttp_new : Text → Make
  -- instruments of the meter by their names, and the callback of the gauge
  int64_counter int64_observable_gauge : Text → Make
  register_callback : Make

-- A provider, by its exporter.
pub data Provider : Type 0 where
  stdout prometheus : Provider
  otlp : Text → Provider

-- `logger` is the fallback or that of the log provider; the handler of the metrics is there or nil.
pub record System : Type 0 where
  pub otel_logger : Bool
  pub metrics_handler : Bool
  pub log_provider : Option Provider
  pub meter_provider : Option Provider
  pub tracer_provider : Option Provider

abbrev pub fallback_system : System
fallback_system = record {
  otel_logger = false;
  metrics_handler = false;
  log_provider = none;
  meter_provider = none;
  tracer_provider = none;
}

abbrev pub and_then {ℓ κ} : {A : Type ℓ} {B : Type κ} → Result A → (A → Result B) → Result B
and_then (ok a) f = f a
and_then (err e) f = err e

-- Whether a constructor fails.
module _ (make : Make → Option Error) where
  abbrev pub made {ℓ} : {A : Type ℓ} → Option Error → A → Result A
  made none a = ok a
  made (some e) a = err e

  unfoldable pub new_logger_provider : TelemetryConfig → Result Provider
  new_logger_provider cfg =
      if text_eq (trim_space cfg.log_exporter) (codes "stdout")
      then made (make stdoutlog_new) stdout
      else if text_eq (trim_space cfg.log_exporter) (codes "otlp")
      then made (make (otlploghttp_new (trim_space cfg.otlp_endpoint)))
          (otlp (trim_space cfg.otlp_endpoint))
      else err (external (codes "unsupported telemetry log exporter"))

  -- With the provider: whether there is a handler.
  unfoldable pub new_meter_provider : TelemetryConfig → Result (Provider × Bool)
  new_meter_provider cfg =
      if text_eq (trim_space cfg.metric_exporter) (codes "prometheus")
      then made (make prometheus_new) (prometheus, true)
      else if text_eq (trim_space cfg.metric_exporter) (codes "otlp")
      then made (make (otlpmetrichttp_new (trim_space cfg.otlp_endpoint)))
          (otlp (trim_space cfg.otlp_endpoint), false)
      else err (external (codes "unsupported telemetry metric exporter"))

  unfoldable pub new_tracer_provider : TelemetryConfig → Result Provider
  new_tracer_provider cfg =
      if text_eq (trim_space cfg.trace_exporter) (codes "stdout")
      then made (make stdouttrace_new) stdout
      else if text_eq (trim_space cfg.trace_exporter) (codes "otlp")
      then made (make (otlptracehttp_new (trim_space cfg.otlp_endpoint)))
          (otlp (trim_space cfg.otlp_endpoint))
      else err (external (codes "unsupported telemetry trace exporter"))

  -- The three steps under `if cfg.LogEnabled || cfg.MetricEnabled`.
  unfoldable pub install_log : TelemetryConfig → System → Result System
  install_log cfg s =
      if cfg.log_enabled
      then and_then (new_logger_provider cfg)
          (λ p. ok (record s { log_provider = some p; otel_logger = true }))
      else ok s

  unfoldable pub install_meter : TelemetryConfig → System → Result System
  install_meter cfg s =
      if cfg.metric_enabled
      then and_then (new_meter_provider cfg)
          (λ p. ok (record s { meter_provider = some p.0; metrics_handler = p.1 }))
      else ok s

  unfoldable pub install_tracer : TelemetryConfig → System → Result System
  install_tracer cfg s =
      if cfg.trace_enabled
      then and_then (new_tracer_provider cfg) (λ p. ok (record s { tracer_provider = some p }))
      else ok s

  unfoldable pub install : TelemetryConfig → System → Result System
  install cfg s =
      if cfg.log_enabled || cfg.metric_enabled
      then and_then (made (make resource_new) s) (λ s0.
        and_then (install_log cfg s0)
          (λ s1. and_then (install_meter cfg s1) (λ s2. install_tracer cfg s2)))
      else ok s

  -- The instruments in the order of the source: the first error ends it.
  unfoldable pub make_all : List Make → Option Error
  make_all [] = none
  make_all (m ∷ rest) = let next = make_all rest in elim (make m) [ some e ↦ some e | none ↦ next ]

  -- `NewMetrics`
  unfoldable pub new_metrics : Option Error
  new_metrics = make_all (
      int64_counter (codes "sidecar_agent.register.total")
      ∷ int64_counter (codes "sidecar_agent.drain.total")
      ∷ int64_counter (codes "sidecar_agent.deregister.total")
      ∷ int64_counter (codes "sidecar_agent.discovery.refresh.total")
      ∷ int64_counter (codes "sidecar_agent.xds.publish.total")
      ∷ int64_counter (codes "sidecar_agent.envoy.restart.total")
      ∷ int64_observable_gauge (codes "sidecar_agent.local.services")
      ∷ register_callback
      ∷ [])

  -- `New`
  unfoldable pub new_system : TelemetryConfig → Result System
  new_system cfg = and_then (install cfg fallback_system) (λ s. made new_metrics s)

-- `errors.Join`: the errors that are not nil.
abbrev pub join_error : List Error → Option Error → List Error
join_error es none = es
join_error es (some e) = es ++ e ∷ []

pub data Signal : Type 0 where
  logs metrics traces : Signal

-- Whether a provider's `Shutdown` fails.
module _ (close : Signal → Provider → Option Error) where
  -- The providers that were shut down, and the errors joined so far.
  abbrev pub close_signal :
      Signal
      → Option Provider
      → List (Signal × Provider) × List Error
      → List (Signal × Provider) × List Error
  close_signal g none r = r
  close_signal g (some p) (closed, es) = (closed ++ (g, p) ∷ [], join_error es (close g p))

  -- `Shutdown`
  unfoldable pub shutdown : System → List (Signal × Provider) × List Error
  shutdown s =
      close_signal traces s.tracer_provider
        (close_signal metrics s.meter_provider (close_signal logs s.log_provider ([], [])))
