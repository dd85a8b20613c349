-- ===== src/Registry/Exec.antt =====
-- Methods of `Client` that change its map of services, call Consul and may return an error. What was
-- done before an error stays done.
pub mod Rules
use sidecar_agent.Prelude.{ℕ, Bool, Option, none, some, List, [], ◌∷◌, ◌≡◌, refl}
use sidecar_agent.Text.{Text}
use sidecar_agent.Model.Error.{Error, Result, ok, err}
use sidecar_agent.Model.Service.{LocalService}
use sidecar_agent.Registry.Consul.{
  Call, kv_get, catalog_services, health_service, time_now, rand_read, History, Outside,
  ServiceEntry,
}

-- The fields of `Client` that change: `localServices`, whether `lifecycleCancel` is set, and the calls
-- made so far.
pub record State : Type 0 where
  pub local_services : List (Text × LocalService)
  pub running : Bool
  pub history : History

abbrev pub Exec : Type 0 → Type 0
Exec A = State → Result A × State

abbrev pub pure : {A : Type 0} → A → Exec A
pure a s = (ok a, s)

abbrev pub fail : {A : Type 0} → Error → Exec A
fail e s = (err e, s)

abbrev pub lift : {A : Type 0} → Result A → Exec A
lift r s = (r, s)

-- A Go error value: `nil` goes on.
abbrev pub check : Option Error → Exec (Unit {0})
check none s = (ok tt, s)
check (some e) s = (err e, s)

abbrev pub proceed : {A B : Type 0} → Result A → (A → Exec B) → Exec B
proceed (ok a) f s = f a s
proceed (err e) f s = (err e, s)

infixl 5 ◌>>=◌ ◌>>◌
abbrev pub ◌>>=◌ : {A B : Type 0} → Exec A → (A → Exec B) → Exec B
◌>>=◌ m f s = proceed (m s).0 f (m s).1

abbrev pub ◌>>◌ : {B : Type 0} → Exec (Unit {0}) → Exec B → Exec B
m >> k = m >>= λ _. k

-- One call is made and remembered; `answer` is what the caller gets for it.
abbrev pub ask : {A : Type 0} → Call → (History → Result A) → Exec A
ask call answer s = (answer s.history, record s { history = call ∷ s.history })

abbrev pub nil_or_error : Option Error → Result (Unit {0})
nil_or_error none = ok tt
nil_or_error (some e) = err e

module _ (o : Outside) where
  -- A call that returns an error or nothing.
  unfoldable pub perform : Call → Exec (Unit {0})
  perform call = ask call (λ h. nil_or_error (o.reply h call))

  -- `time.Now().UTC()`
  unfoldable pub now : Exec ℕ
  now = ask time_now (λ h. ok (o.clock h))

  unfoldable pub random_bytes : Exec (List ℕ)
  random_bytes = ask rand_read o.random

  unfoldable pub get_value : Text → Exec (Option Text)
  get_value key = ask (kv_get key) (λ h. o.kv_value h key)

  unfoldable pub get_services : Exec (List Text)
  get_services = ask catalog_services o.service_names

  unfoldable pub get_entries : Text → Bool → Exec (List (Option ServiceEntry))
  get_entries name passing_only =
      ask (health_service name passing_only) (λ h. o.entries h name passing_only)

-- A counter of `metricsRecorder`: it returns nothing.
unfoldable pub count : Call → Exec (Unit {0})
count call = ask call (λ h. ok tt)
