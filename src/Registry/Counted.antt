-- ===== src/Registry/Counted.antt =====
-- What the client's metrics say of the calls that Consul accepted.
pub mod Rules
pub mod Runs
use sidecar_agent.Prelude.{
  ℕ, ◌+◌, ◌≤◌, Bool, true, false, ◌&&◌, Option, none, some, List, [], ◌∷◌, if◌then◌else◌, ◌≡◌,
  arith,
}
use sidecar_agent.Model.Error.{Error}
use sidecar_agent.Registry.Consul.{
  Call, service_register, service_deregister, enable_service_maintenance, inc_register, inc_drain,
  inc_deregister, History, Outside,
}
use sidecar_agent.Telemetry.Metrics

-- The metrics after the calls of `metricsRecorder`.
unfoldable pub recorded : History → Metrics.Metrics
recorded [] = Metrics.no_metrics
recorded (call ∷ h) =
    let before = recorded h in
    elim call [
      | inc_register ↦ Metrics.inc_register before
      | inc_drain ↦ Metrics.inc_drain before
      | inc_deregister ↦ Metrics.inc_deregister before
      | _ ↦ before
    ]

abbrev pub is_registration : Call → Bool
is_registration (service_register g) = true
is_registration _ = false

abbrev pub is_deregistration : Call → Bool
is_deregistration (service_deregister id) = true
is_deregistration _ = false

abbrev pub is_maintenance : Call → Bool
is_maintenance (enable_service_maintenance id reason) = true
is_maintenance _ = false

abbrev pub is_accepted : Option Error → Bool
is_accepted none = true
is_accepted (some e) = false

-- The number of calls of a kind that were accepted.
unfoldable pub accepted : Outside → (Call → Bool) → History → ℕ
accepted o kind [] = 0
accepted o kind (call ∷ h) =
    let before = accepted o kind h in
    if kind call && is_accepted (o.reply h call) then before + 1 else before

-- Registrations and drains are counted as often as Consul accepted them, deregistrations at most so.
pub record Tallies (o : Outside) (h : History) : Type 0 where
  pub registered : (recorded h).register_total ≡ accepted o is_registration h
  pub drained : (recorded h).drain_total ≡ accepted o is_maintenance h
  pub deregistered : (recorded h).deregister_total ≤ accepted o is_deregistration h
