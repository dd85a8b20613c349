-- ===== src/Registry/Live/Calm.antt =====
-- Actions that leave the map alone and register no instance.
use sidecar_agent.Prelude.{Bool, true, Option, none, some, ◌∷◌, ◌≡◌, refl, ◌∙◌, arith}
use sidecar_agent.Text.{Text}
use sidecar_agent.Model.Error.{Error}
use sidecar_agent.Registry.Consul.{
  Call, service_register, service_deregister, enable_service_maintenance, update_ttl, kv_get,
  kv_put, catalog_services, health_service, time_now, rand_read, inc_register, inc_drain,
  inc_deregister, History, Outside,
}
use sidecar_agent.Registry.Exec.{State, Exec, perform}
use sidecar_agent.Registry.Live.{effect, after_reply, is_live}
use sidecar_agent.Registry.Within.{IsPlain, Allows, Within}

-- The call registers nothing.
abbrev pub IsCalm : Call → Type 0
IsCalm call = (id : Text) (before : Bool) → effect id call before ≡ true → before ≡ true

lowered :
    (r : Option Error) (after before : Bool)
    → (after ≡ true → before ≡ true)
    → after_reply r after before ≡ true
    → before ≡ true
unfolding after_reply
lowered none after before h e = h e
lowered (some x) after before h e = e

pub deregister-IsCalm : (i : Text) → IsCalm (service_deregister i)
unfolding effect
deregister-IsCalm i id before e = ground (arith, e)

plain-IsCalm : (call : Call) → IsPlain call → IsCalm call
unfolding effect
plain-IsCalm (service_deregister i) p = deregister-IsCalm i
plain-IsCalm (update_ttl i a b) p = λ id before e. e
plain-IsCalm (kv_get k) p = λ id before e. e
plain-IsCalm (kv_put k v) p = λ id before e. e
plain-IsCalm catalog_services p = λ id before e. e
plain-IsCalm (health_service a b) p = λ id before e. e
plain-IsCalm time_now p = λ id before e. e
plain-IsCalm rand_read p = λ id before e. e
plain-IsCalm (service_register g) p = absurd p
plain-IsCalm (enable_service_maintenance i a) p = absurd p
plain-IsCalm inc_register p = absurd p
plain-IsCalm inc_drain p = absurd p
plain-IsCalm inc_deregister p = absurd p

-- The map is the same, and no instance is newly registered.
pub record IsCalmer (o : Outside) (before after : State) : Type 0 where
  pub services : after.local_services ≡ before.local_services
  pub live : (id : Text) → is_live o id after.history ≡ true → is_live o id before.history ≡ true

abbrev pub Calm : Outside → {A : Type 0} → Exec A → Type 0
Calm o m = Within (IsCalmer o) m

module _ (o : Outside) where
  -- Before a call that registers nothing.
  pub is_live-before :
      (call : Call) (h : History) (id : Text)
      → IsCalm call
      → is_live o id (call ∷ h) ≡ true
      → is_live o id h ≡ true
  unfolding is_live
  is_live-before call h id calm e =
      lowered (o.reply h call) (effect id call (is_live o id h)) (is_live o id h)
        (calm id (is_live o id h)) e

  pub calm_steps : Allows (IsCalmer o)
  calm_steps = record {
    nothing = λ s. record { services = refl; live = λ id e. e };
    then_more = λ p q. record {
      services = q.services ∙ p.services;
      live = λ id e. p.live id (q.live id e);
    };
    plain = λ call p s. record {
      services = refl;
      live = λ id e. is_live-before call s.history id (plain-IsCalm call p) e;
    };
  }

  pub Calm-maintenance :
      (id reason : Text) → Calm o (perform o (enable_service_maintenance id reason))
  unfolding perform effect
  Calm-maintenance id reason = record {
    at = λ s. record { services = refl; live = λ i e. is_live-before _ s.history i (λ i b q. q) e };
  }
