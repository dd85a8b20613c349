-- ===== src/Admin/Status.antt =====
-- What a status says of the agent's services.
use mathlib.Core.Path.{subst}
use sidecar_agent.Prelude.{◌≡◌, ◌≢◌, ◌⊎◌, inl, inr, refl, sym, ◌∙◌, ap, arith}
use sidecar_agent.Model.Error.{Error, Result, ok, err}
use sidecar_agent.Model.Request.{RegisterRequest}
use sidecar_agent.Model.Service.{LocalService}
use sidecar_agent.Registry.Exec.Rules.{Services, Holds}
use sidecar_agent.Registry.Register.Outcome.{IsRegistered}
use sidecar_agent.Admin.{
  Response, write_json, write_error, service, status_200, Server, refresh_now, after_refresh,
  after_operation, bad_request, internal_server_error, handle, handle_register,
}

-- What the admin interface relies on of the registry and the refresher that it is given: a registration
-- that returns a service has registered it, and a refresh leaves the services alone.
pub record Contract {W : Type 0} (s : Server W) (services_of : W → Services) : Type 0 where
  pub registers :
      (r : RegisterRequest) (w : W)
      → Holds
          (λ v. IsRegistered r v (services_of (s.registry.register r w).1))
          (s.registry.register r w).0
  pub refreshes : (w : W) → services_of (refresh_now s w).1 ≡ services_of w

-- The service with status 200, or else an error of the refresh with status 500.
abbrev pub IsReported : LocalService → Response → Type 0
IsReported v r =
    (r ≡ write_json status_200 (service v))
    ⊎ ((e : Error) × (r ≡ write_error internal_server_error e))

module _ {W : Type 0} where
  refreshed_world : (v : LocalService) (r : Result (Unit {0}) × W) → (after_refresh v r).1 ≡ r.1
  refreshed_world v (ok u, w) = refl
  refreshed_world v (err e, w) = refl

  refreshed-IsReported :
      (v : LocalService) (r : Result (Unit {0}) × W) → IsReported v (after_refresh v r).0
  refreshed-IsReported v (ok u, w) = inl refl
  refreshed-IsReported v (err e, w) = inr (e, refl)

-- An operation that the registry has done is never answered by 400.
pub after_refresh-status :
    {W : Type 0} (v : LocalService) (r : Result (Unit {0}) × W)
    → (after_refresh v r).0.status ≢ bad_request
after_refresh-status v (ok u, w) e = omega (arith, e)
after_refresh-status v (err x, w) e = omega (arith, e)

module _ {W : Type 0} (s : Server W) (services_of : W → Services)
    (refreshes : (w : W) → services_of (refresh_now s w).1 ≡ services_of w)
    (Q : LocalService → Services → Type 0) where
  reported :
      (r : Result LocalService × W)
      → Holds (λ v. Q v (services_of r.1)) r.0
      → (after_operation s r).0.status ≢ bad_request
      → (v : LocalService) × Q v (services_of (after_operation s r).1)
        × IsReported v (after_operation s r).0
  reported (err e, w) h other = absurd (other refl)
  reported (ok v, w) h other =
      let kept = ap services_of (refreshed_world v (refresh_now s w)) ∙ refreshes w in
      (v, subst (Q v) (sym kept) h, refreshed-IsReported v (refresh_now s w))

-- An admin interface over a registry and a refresher that keep their contract: where the answer to
-- a decoded registration has another status than 400, the service is registered for the request: it
-- stands in the map under the request's name and port, is not deregistered, and has the same
-- request but for the order, the repetition and the blanks of its methods. The answer is that
-- service with status 200, or status 500 with an error: a refresh that fails takes nothing back.
pub handle_register-IsRegistered :
    {W : Type 0} (s : Server W) (services_of : W → Services) (r : RegisterRequest) (w : W)
    → Contract s services_of
    → (handle_register s (ok r) w).0.status ≢ bad_request
    → (v : LocalService) × IsRegistered r v (services_of (handle_register s (ok r) w).1)
      × IsReported v (handle_register s (ok r) w).0
unfolding handle_register handle
handle_register-IsRegistered s services_of r w contract other =
    reported s services_of contract.refreshes (IsRegistered r) (s.registry.register r w)
      (contract.registers r w) other
