-- ===== src/Registry/Consul.antt =====
-- What the agent sees of Consul, of the clock and of the random source: the interfaces `agentAPI`,
-- `healthAPI`, `catalogAPI` and `kvAPI` of registry/consul.go. Their answers are not under src/, so
-- they are functions of the whole history of calls: any remote party, however it changes between
-- two calls, is such a function.
use sidecar_agent.Prelude.{ℕ, Bool, Option, List}
use sidecar_agent.Prelude.Int.{ℤ}
use sidecar_agent.Text.{Text}
use sidecar_agent.Model.Error.{Error, Result}
use sidecar_agent.Model.Route.{RouteDocument}

-- `api.AgentServiceCheck`; a field that the source leaves out is empty.
pub record AgentServiceCheck : Type 0 where
  pub check_id : Text
  pub tcp : Text
  pub interval : Text
  pub ttl : Text
  pub deregister_critical_service_after : Text

-- `api.AgentServiceRegistration`
pub record AgentServiceRegistration : Type 0 where
  pub id : Text
  pub name : Text
  pub address : Text
  pub port : ℤ
  pub tags : List Text
  pub meta : List (Text × Text)
  pub checks : List AgentServiceCheck

-- `api.AgentService`
pub record AgentService : Type 0 where
  pub id : Text
  pub service : Text
  pub address : Text
  pub port : ℤ
  pub tags : List Text
  pub meta : List (Text × Text)

-- `api.ServiceEntry`: the node by its address. A nil pointer is `none`.
pub record ServiceEntry : Type 0 where
  pub node : Option Text
  pub service : Option AgentService

pub data Call : Type 0 where
  service_register : AgentServiceRegistration → Call
  service_deregister : Text → Call
  enable_service_maintenance : Text → Text → Call
  update_ttl : Text → Text → Text → Call
  kv_get : Text → Call
  kv_put : Text → Text → Call
  catalog_services : Call
  health_service : Text → Bool → Call
  time_now rand_read : Call
  inc_register inc_drain inc_deregister : Call

-- The latest call comes first.
abbrev pub History : Type 0
History = List Call

pub record Outside : Type 0 where
  -- the error of a call that returns nothing else
  pub reply : History → Call → Option Error
  pub kv_value : History → Text → Result (Option Text)
  -- the service names in the order in which Go iterates over the map
  pub service_names : History → Result (List Text)
  pub entries : History → Text → Bool → Result (List (Option ServiceEntry))
  -- nanoseconds of UTC
  pub clock : History → ℕ
  -- sixteen random bytes
  pub random : History → Result (List ℕ)
  -- `time.ParseDuration`, `Duration.String` and `Time.Format(time.RFC3339)`
  pub parse_duration : Text → Result ℤ
  pub format_duration : ℤ → Text
  pub format_time : ℕ → Text
  -- `json.Marshal` and `json.Unmarshal` of route documents
  pub encode : RouteDocument → Text
  pub decode : Text → Result RouteDocument
