-- ===== src/Registry/Register/Succeeds.antt =====
-- A valid registration goes through when nothing outside refuses it.
use sidecar_agent.Prelude.{
  ℕ, Bool, true, false, Option, none, some, List, ◌∷◌, ◌≡◌, refl, ◌⊎◌, inl, inr, arith,
  if◌then◌else◌,
}
use sidecar_agent.Text.{Text, is_empty}
use sidecar_agent.Model.Error.{Result, ok, err}
use sidecar_agent.Model.Request.{RegisterRequest, validate}
use sidecar_agent.Model.Route.{RouteDocument, equal, canonicalize}
use sidecar_agent.Model.Service.{LocalService}
use sidecar_agent.Registry.Consul.{Outside, Call, History, kv_get}
use sidecar_agent.Registry.Exec.{
  State, Exec, pure, check, proceed, ◌>>=◌, perform, now, get_value, random_bytes, count,
}
use sidecar_agent.Registry.Client.{Client, same_register_request, new_instance_id}
use sidecar_agent.Registry.Register.Conflict.{reference}
use sidecar_agent.Registry.Register.{
  local_service, store_local_service, pass_lease, ensure_route_document, check_stored,
  compare_stored, replay, retire, route_doc, announce, register_new, register_over, register,
  is_deregistered,
}

record Succeeds {A : Type 0} (m : Exec A) : Type 0 where
  at : (s : State) → (a : A) × ((m s).0 ≡ ok a)

-- No call is refused, and there are random bytes.
pub record IsWilling (o : Outside) : Type 0 where
  pub accepts : (h : History) (call : Call) → o.reply h call ≡ none
  pub bytes : (h : History) → (b : List ℕ) × (o.random h ≡ ok b)

-- No route document is stored for the service, or one that says the same as the request.
abbrev pub NoConflict : Outside → Client → RegisterRequest → History → Type 0
NoConflict o c r h =
    (o.kv_value h (reference c r) ≡ ok none)
    ⊎ ((value : Text) × (old : RouteDocument) × (o.kv_value h (reference c r) ≡ ok (some value))
        × (is_empty value ≡ false)
        × (o.decode value ≡ ok old)
        × (equal old (route_doc o c r 0) ≡ true))

module _ {A B : Type 0} {f : A → Exec B} where
  Succeeds-proceed :
      ((a : A) → Succeeds (f a))
      → (r : Result A) (a : A) (s : State) → r ≡ ok a
      → (b : B) × ((proceed r f s).0 ≡ ok b)
  Succeeds-proceed sf (ok a') a s e = (sf a').at s
  Succeeds-proceed sf (err x) a s e = cc

  infixr 20 ◌▷◌
  ◌▷◌ : {m : Exec A} → Succeeds m → ((a : A) → Succeeds (f a)) → Succeeds (m >>= f)
  ◌▷◌ {m = m} sm sf = record {
    at = λ s. Succeeds-proceed sf (m s).0 (sm.at s).0 (m s).1 (sm.at s).1;
  }

module _ (o : Outside) (w : IsWilling o) (c : Client) where
  perform-Succeeds : (call : Call) → Succeeds (perform o call)
  unfolding perform
  perform-Succeeds call = record { at = λ s. (tt, rw (w.accepts s.history call)) }

  now-Succeeds : Succeeds (now o)
  unfolding now
  now-Succeeds = record { at = λ s. (o.clock s.history, refl) }

  random-Succeeds : Succeeds (random_bytes o)
  unfolding random_bytes
  random-Succeeds = record { at = λ s. w.bytes s.history }

  store-Succeeds : (v : LocalService) → Succeeds (store_local_service v)
  unfolding store_local_service
  store-Succeeds v = record { at = λ s. (tt, refl) }

  count-Succeeds : (call : Call) → Succeeds (count call)
  unfolding count
  count-Succeeds call = record { at = λ s. (tt, refl) }

  pure-Succeeds : {A : Type 0} (a : A) → Succeeds (pure a)
  pure-Succeeds a = record { at = λ s. (a, refl) }

  pass_lease-Succeeds : (v : LocalService) → Succeeds (pass_lease o c v)
  unfolding pass_lease
  pass_lease-Succeeds v = perform-Succeeds _

  -- The document that is read does not stop the registration.
  stored_passes :
      (r : RegisterRequest) (t : ℕ) (h : History)
      → NoConflict o c r h
      → (stored : Option Text) × (o.kv_value h (reference c r) ≡ ok stored)
        × Succeeds (check_stored o c (reference c r) (route_doc o c r t) stored)
  unfolding check_stored compare_stored route_doc equal canonicalize
  stored_passes r t h (inl nothing) = (none, nothing, record { at = λ s. (tt, refl) })
  stored_passes r t h (inr (value, old, stored, filled, decoded, same)) =
      (some value, stored, record { at = λ s. (tt, ground (arith, filled, decoded, same)) })

  ensure-Succeeds :
      (r : RegisterRequest)
      → ((h : History) → NoConflict o c r h)
      → (t : ℕ) → Succeeds (ensure_route_document o c (reference c r) (route_doc o c r t))
  unfolding ensure_route_document get_value
  ensure-Succeeds r free t = record {
    at = λ s.
        let (stored, e, passes) = stored_passes r t s.history (free s.history) in
        rw (e, proceed)
          ((passes ▷ λ u. perform-Succeeds _).at
            (record s { history = kv_get (reference c r) ∷ s.history }));
  }

  replay-Succeeds : (v : LocalService) → Succeeds (replay o c v)
  unfolding replay
  replay-Succeeds v =
      pass_lease-Succeeds v ▷ λ u. now-Succeeds ▷ λ t. store-Succeeds _ ▷ λ u. pure-Succeeds _

  retire-Succeeds : (v : LocalService) → Succeeds (retire o c v)
  unfolding retire
  retire-Succeeds v = perform-Succeeds _ ▷ λ u. now-Succeeds ▷ λ t. store-Succeeds _

  announce-Succeeds : (v : LocalService) → Succeeds (announce o c v)
  unfolding announce
  announce-Succeeds v = perform-Succeeds _ ▷ λ u. pass_lease-Succeeds v ▷ λ u.
      now-Succeeds ▷ λ t. store-Succeeds _ ▷ λ u. count-Succeeds _ ▷ λ u. pure-Succeeds _

  instance_id-Succeeds : Succeeds (new_instance_id o)
  unfolding new_instance_id
  instance_id-Succeeds = random-Succeeds ▷ λ b. now-Succeeds ▷ λ t. pure-Succeeds _

  register_new-Succeeds :
      (r : RegisterRequest) → ((h : History) → NoConflict o c r h) → Succeeds (register_new o c r)
  unfolding register_new
  register_new-Succeeds r free = now-Succeeds ▷ λ t. ensure-Succeeds r free t ▷ λ u.
      instance_id-Succeeds ▷ λ instance_id. now-Succeeds ▷ λ t'. announce-Succeeds _

  Succeeds-if :
      {A : Type 0} (b : Bool) {m n : Exec A}
      → Succeeds m
      → Succeeds n
      → Succeeds (if b then m else n)
  Succeeds-if true sm sn = sm
  Succeeds-if false sm sn = sn

  over-Succeeds :
      (r : RegisterRequest)
      → ((h : History) → NoConflict o c r h)
      → (existing : Option LocalService) → Succeeds (register_over o c r existing)
  unfolding register_over
  over-Succeeds r free none = register_new-Succeeds r free
  over-Succeeds r free (some v) =
      Succeeds-if (is_deregistered v.state) (register_new-Succeeds r free) (
        Succeeds-if (same_register_request v.request r) (replay-Succeeds v)
          (retire-Succeeds v ▷ λ u. register_new-Succeeds r free))

  -- Where no call is refused, random bytes can be read, and at any time the store has either no route
  -- document for the service or one that says the same as the request, every request that passes
  -- validation is registered, whatever services are in the map.
  pub register-ok :
      (r : RegisterRequest) (s : State)
      → validate r ≡ none
      → ((h : History) → NoConflict o c r h)
      → (v : LocalService) × ((register o c r s).0 ≡ ok v)
  unfolding register local_service
  register-ok r s valid free = rw (valid, check) ((over-Succeeds r free _).at s)
