-- ===== src/Model/Service.antt =====
-- Services as the agent keeps them, and instances as it discovers them.
use sidecar_agent.Prelude.{ℕ, Option, List}
use sidecar_agent.Prelude.Int.{ℤ}
use sidecar_agent.Text.{Text}
use sidecar_agent.Model.Request.{RegisterRequest}

pub data ServiceState : Type 0 where
  init registered serving draining deregistered : ServiceState

-- Times are nanoseconds of UTC.
pub record LocalService : Type 0 where
  pub request : RegisterRequest
  pub instance_id : Text
  pub agent_id : Text
  pub agent_run_id : Text
  pub address : Text
  pub zone : Text
  pub route_prefixes : List Text
  pub route_config_ref : Text
  pub lease_check_id : Text
  pub state : ServiceState
  pub registered_at : ℕ
  pub updated_at : ℕ
  pub drain_deadline : Option ℕ

pub record ServiceInstance : Type 0 where
  pub instance_id : Text
  pub name : Text
  pub namespace : Text
  pub dns : Text
  pub env : Text
  pub zone : Text
  pub version : Text
  pub protocol : Text
  pub address : Text
  pub port : ℤ
  pub weight : ℤ
  pub cluster : Text
  pub route_config_ref : Text
  pub route_prefixes : List Text
