-- ===== src/Model/Error.antt =====
-- The errors that the agent returns (`fmt.Errorf` and `errors.New` in model, registry and envoy), and
-- results that may be one.
use sidecar_agent.Prelude.Int.{ℤ}
use sidecar_agent.Text.{Text}

pub data Error : Type 0 where
  required : Text → Error
  port_invalid : ℤ → Error
  weight_not_positive methods_empty : Error
  method_invalid : Text → Error
  name_required grace_not_positive : Error
  local_service_not_found : Text → ℤ → Error
  route_conflict : Text → Error
  -- any other error, by its message: most come from a library or a remote party
  external : Text → Error

pub data Result {ℓ} (A : Type ℓ) : Type ℓ where
  ok : A → Result A
  err : Error → Result A
