-- ===== src/Config/Parts.antt =====
-- When the checks of `Validate` that need no parser pass.
use mathlib.Core.List.{Permᴰ}
use mathlib.Core.List.Permᴰ
use sidecar_agent.Prelude.{
  Bool, true, false, ◌||◌, Option, none, some, List, [], ◌∷◌, All, All-perm, All-mono, ◌≡◌, ◌↔◌,
  ◌⊎◌, refl, arith,
}
use sidecar_agent.Text.{Text, codes, text_eq, trim_space}
use sidecar_agent.Config.{Config, TelemetryConfig}
use sidecar_agent.Config.Checks.{
  Problem, ◌or_else◌, is_blank, check_required, check_each, check_envoy, check_exporter, uses_otlp,
  check_endpoint, check_telemetry,
}

both : (a b : Option Problem) → ((a or_else b) ≡ none) ↔ ((a ≡ none) × (b ≡ none))
both none b = ((λ h. (refl, h)), (λ h. h.1))
both (some e) b = ((λ h. cc h), (λ h. cc (h.0)))

pub and_iff :
    {a b : Option Problem} {A B : Type 0}
    → (a ≡ none) ↔ A
    → (b ≡ none) ↔ B
    → ((a or_else b) ≡ none) ↔ (A × B)
and_iff {a} {b} f g =
    let step = both a b in
    ((λ h. (f.0 (step.0 h).0, g.0 (step.0 h).1)), (λ h. step.1 (f.1 h.0, g.1 h.1)))

check_each_iff :
    (check : Text × Text → Option Problem) (fields : List (Text × Text))
    → (check_each check fields ≡ none) ↔ All (λ f. check f ≡ none) fields
unfolding check_each
check_each_iff check [] = ((λ h. tt), (λ h. refl))
check_each_iff check (f ∷ fields) =
    let step = both (check f) (check_each check fields) in
    let rest = check_each_iff check fields in
    ((λ h. ((step.0 h).0, rest.0 (step.0 h).1)), (λ h. step.1 (h.0, rest.1 h.1)))

-- More than blanks.
abbrev pub IsGiven : Text × Text → Type 0
IsGiven f = is_blank f.1 ≡ false

-- Off, or one of the exporters that are known.
abbrev pub IsExporter : Bool → Text → Text → Type 0
IsExporter enabled first exporter =
    enabled ≡ true
    → (text_eq (trim_space exporter) first ≡ true)
      ⊎ (text_eq (trim_space exporter) (codes "otlp") ≡ true)

pub given_iff : (f : Text × Text) → (check_required f ≡ none) ↔ IsGiven f
given_iff f = ground arith

pub each_iff :
    {check : Text × Text → Option Problem} {Good : Text × Text → Type 0}
    {order fields : List (Text × Text)}
    → ((f : Text × Text) → (check f ≡ none) ↔ Good f)
    → Permᴰ order fields
    → (check_each check order ≡ none) ↔ All Good fields
each_iff {check} {Good} {order} {fields} f p =
    let step = check_each_iff check order in
    (
      (λ h. All-perm Good p (All-mono (λ x. check x ≡ none) Good (λ x. (f x).0) order (step.0 h))),
      (λ h. step.1 (
          All-mono Good (λ x. check x ≡ none) (λ x. (f x).1) order
            (All-perm Good (Permᴰ.symm p) h))),
    )

IsExporter-iff :
    (enabled : Bool) (field first exporter : Text)
    → (check_exporter enabled field first exporter ≡ none) ↔ IsExporter enabled first exporter
unfolding check_exporter
IsExporter-iff enabled field first exporter = ground arith

endpoint_iff :
    (first second : Bool) (endpoint : Text)
    → ((check_endpoint first endpoint or_else check_endpoint second endpoint) ≡ none)
      ↔ ((first || second) ≡ true → is_blank endpoint ≡ false)
endpoint_iff first second endpoint = ground arith

pub telemetry_iff :
    (t : TelemetryConfig)
    → (check_telemetry t ≡ none) ↔ (
        ((IsExporter t.trace_enabled (codes "stdout") t.trace_exporter
            × IsExporter t.metric_enabled (codes "prometheus") t.metric_exporter)
          × IsExporter t.log_enabled (codes "stdout") t.log_exporter)
        × ((uses_otlp t.trace_enabled t.trace_exporter
                || (uses_otlp t.metric_enabled t.metric_exporter
                    || uses_otlp t.log_enabled t.log_exporter))
              ≡ true
            → is_blank t.otlp_endpoint ≡ false))
unfolding check_telemetry
telemetry_iff t =
    and_iff
      (and_iff
        (and_iff
          (IsExporter-iff t.trace_enabled (codes "telemetry.trace_exporter") (codes "stdout")
            t.trace_exporter)
          (IsExporter-iff t.metric_enabled (codes "telemetry.metric_exporter") (codes "prometheus")
            t.metric_exporter))
        (IsExporter-iff t.log_enabled (codes "telemetry.log_exporter") (codes "stdout")
          t.log_exporter))
      (endpoint_iff (uses_otlp t.trace_enabled t.trace_exporter)
        (uses_otlp t.metric_enabled t.metric_exporter || uses_otlp t.log_enabled t.log_exporter)
        t.otlp_endpoint)

abbrev pub IsEnvoy : Config → Type 0
IsEnvoy c =
    c.envoy.enabled ≡ true
    → (is_blank c.envoy.binary_path ≡ false) × (is_blank c.envoy.bootstrap_path ≡ false)

pub IsEnvoy-iff : (c : Config) → (check_envoy c ≡ none) ↔ IsEnvoy c
unfolding check_envoy
IsEnvoy-iff c = ground arith
