-- ===== src/Registry/Tracked/Kept.antt =====
-- Every operation of the client keeps the invariant of its map of services.
use sidecar_agent.Prelude.{ℕ, not, Option, none, some, ◌≡◌, refl, arith, if◌then◌else◌}
use sidecar_agent.Prelude.Int.{ℤ}
use sidecar_agent.Text.{Text, is_empty}
use sidecar_agent.Model.Error.{route_conflict}
use sidecar_agent.Model.Request.{
  RegisterRequest, DrainRequest, DeregisterRequest, validate, validate_drain, validate_deregister,
  grace_period,
}
use sidecar_agent.Model.Route.{RouteDocument, equal}
use sidecar_agent.Model.Service.{LocalService, serving, deregistered, draining}
use sidecar_agent.Registry.Consul.{Outside}
use sidecar_agent.Registry.Exec.{pure, fail, lift, ◌>>=◌}
use sidecar_agent.Registry.Exec.Rules.{
  Keeps, Any, Keeps-pure, Keeps-fail, Keeps-if, ◌▷◌, Keeps-lift, Keeps-check, Keeps-perform,
  Keeps-now, Keeps-random_bytes, Keeps-get_value, Keeps-count,
}
use sidecar_agent.Registry.Client.{Client, local_key, new_instance_id, same_register_request}
use sidecar_agent.Registry.Register.{
  local_service, store_local_service, pass_lease, compare_stored, check_stored,
  ensure_route_document, replay, retire, new_service, announce, register_new, register_over,
  register, is_deregistered,
}
use sidecar_agent.Registry.Lifecycle.{
  add_duration, put_service, found, drain_service, drain, deregister_service, deregister,
}
use sidecar_agent.Registry.Tracked.{
  IsTracked, IsTrackedEntry, AllTracked, AllTracked-insert, All-lookup,
}

module _ (o : Outside) (c : Client) where
  -- The service that stands under its key.
  abbrev pub IsOwn : LocalService → Type 0
  IsOwn v = IsTracked c (local_key v.request.name v.request.port) v

  pub store-Keeps : (v : LocalService) → IsOwn v → Keeps (AllTracked c) Any (store_local_service v)
  unfolding store_local_service
  store-Keeps v t = record {
    state = λ s h. AllTracked-insert c _ v s.local_services t h;
    result = λ s h. tt;
  }

  pub pass_lease-Keeps : (v : LocalService) → Keeps (AllTracked c) Any (pass_lease o c v)
  unfolding pass_lease
  pass_lease-Keeps v = Keeps-perform o _

  abbrev Found : Text → Option LocalService → Type 0
  Found key found = (v : LocalService) → found ≡ some v → IsTracked c key v

  local_service-Keeps :
      (name : Text) (port : ℤ)
      → Keeps (AllTracked c) (Found (local_key name port)) (local_service name port)
  unfolding local_service
  local_service-Keeps name port = record {
    state = λ s h. h;
    result =
        λ s h v e. All-lookup (IsTrackedEntry c) (local_key name port) s.local_services h.each v e;
  }

  compare_stored-Keeps :
      (key : Text) (doc existing : RouteDocument)
      → Keeps (AllTracked c) Any (compare_stored o c key doc existing)
  unfolding compare_stored
  compare_stored-Keeps key doc existing =
      Keeps-if (not (equal existing doc)) (fail (route_conflict key)) (pure tt)
        (λ e. Keeps-fail (route_conflict key)) (λ e. Keeps-pure tt tt)

  check_stored-Keeps :
      (key : Text) (doc : RouteDocument) (stored : Option Text)
      → Keeps (AllTracked c) Any (check_stored o c key doc stored)
  unfolding check_stored
  check_stored-Keeps key doc none = Keeps-pure tt tt
  check_stored-Keeps key doc (some value) =
      Keeps-if (is_empty value) (pure tt) (lift (o.decode value) >>= compare_stored o c key doc)
        (λ e. Keeps-pure tt tt)
        (λ e. Keeps-lift (o.decode value) ▷ λ existing q. compare_stored-Keeps key doc existing)

  ensure_route_document-Keeps :
      (key : Text) (doc : RouteDocument)
      → Keeps (AllTracked c) Any (ensure_route_document o c key doc)
  unfolding ensure_route_document
  ensure_route_document-Keeps key doc = Keeps-get_value o key ▷ λ stored q.
      check_stored-Keeps key doc stored ▷ λ u q'. Keeps-perform o _

  replay-Keeps : (v : LocalService) → IsOwn v → Keeps (AllTracked c) IsOwn (replay o c v)
  unfolding replay
  replay-Keeps v t = pass_lease-Keeps v ▷ λ u q. Keeps-now o ▷ λ time q'.
      store-Keeps (record v { updated_at = time }) (touched time) ▷ λ u' q''.
      Keeps-pure _ (touched time)
    where
      touched : (time : ℕ) → IsOwn (record v { updated_at = time })
      touched time = ground arith

  retire-Keeps : (v : LocalService) → IsOwn v → Keeps (AllTracked c) Any (retire o c v)
  unfolding retire
  retire-Keeps v t = Keeps-perform o _ ▷ λ u q. Keeps-now o ▷ λ time q'.
      store-Keeps (record v { state = deregistered; updated_at = time }) (ground arith)

  announce-Keeps :
      (request : RegisterRequest) (instance_id : Text) (t : ℕ)
      → validate request ≡ none
      → Keeps (AllTracked c) IsOwn (announce o c (new_service o c request instance_id t))
  unfolding announce new_service
  announce-Keeps request instance_id t valid = Keeps-perform o _ ▷ λ u q.
      pass_lease-Keeps _ ▷ λ u q. Keeps-now o ▷ λ time q.
      store-Keeps _ (own time) ▷ λ u q. Keeps-count _ ▷ λ u q. Keeps-pure _ (own time)
    where
      own :
          (time : ℕ)
          → IsOwn (record (new_service o c request instance_id t) {
            state = serving;
            updated_at = time;
          })
      own time = record {
        key_of = refl;
        valid = valid;
        owner = refl;
        run = refl;
        lease = refl;
        address = refl;
        prefixes = refl;
        document = refl;
        announced = ((λ e. cc), (λ e. cc));
      }

  new_instance_id-Keeps : Keeps (AllTracked c) Any (new_instance_id o)
  unfolding new_instance_id
  new_instance_id-Keeps = Keeps-random_bytes o ▷ λ buffer q. Keeps-now o ▷ λ t q. Keeps-pure _ tt

  register_new-Keeps :
      (request : RegisterRequest)
      → validate request ≡ none
      → Keeps (AllTracked c) IsOwn (register_new o c request)
  unfolding register_new
  register_new-Keeps request valid = Keeps-now o ▷ λ t q. ensure_route_document-Keeps _ _ ▷ λ u q.
      new_instance_id-Keeps ▷ λ instance_id q.
      Keeps-now o ▷ λ t' q. announce-Keeps request instance_id t' valid

  register_over-Keeps :
      (request : RegisterRequest) (existing : Option LocalService)
      → validate request ≡ none
      → Found (local_key request.name request.port) existing
      → Keeps (AllTracked c) IsOwn (register_over o c request existing)
  unfolding register_over
  register_over-Keeps request none valid f = register_new-Keeps request valid
  register_over-Keeps request (some v) valid f =
      Keeps-if (is_deregistered v.state) (register_new o c request)
        (if same_register_request v.request request
          then replay o c v
          else (retire o c v >>= λ u. register_new o c request))
        (λ e. register_new-Keeps request valid)
        (λ e.
          Keeps-if (same_register_request v.request request) (replay o c v)
            (retire o c v >>= λ u. register_new o c request) (λ e'. replay-Keeps v own)
            (λ e'. retire-Keeps v own ▷ λ u q. register_new-Keeps request valid))
    where
      own : IsOwn v
      own = own_of_key (f v refl)
        where
          own_of_key : {k : Text} → IsTracked c k v → IsOwn v
          own_of_key t = rw t.key_of at t

  -- A registration keeps the map as it should be, and what it returns is kept under its own key.
  pub register-Keeps :
      (request : RegisterRequest) → Keeps (AllTracked c) IsOwn (register o c request)
  unfolding register
  register-Keeps request = Keeps-check (validate request) ▷ λ u valid.
      local_service-Keeps request.name request.port ▷ λ existing f.
      register_over-Keeps request existing valid f

  put-Keeps :
      (k : Text) (v : LocalService) → IsTracked c k v → Keeps (AllTracked c) Any (put_service k v)
  unfolding put_service
  put-Keeps k v t = record {
    state = λ s h. AllTracked-insert c k v s.local_services t h;
    result = λ s h. tt;
  }

  found-Keeps :
      (name : Text) (port : ℤ) (existing : Option LocalService)
      → Found (local_key name port) existing
      → Keeps (AllTracked c) (IsTracked c (local_key name port)) (found name port existing)
  unfolding found
  found-Keeps name port none f = Keeps-fail _
  found-Keeps name port (some v) f = Keeps-pure v (f v refl)

  drain_service-Keeps :
      (k : Text) (grace : ℤ) (v : LocalService)
      → IsTracked c k v
      → Keeps (AllTracked c) (IsTracked c k) (drain_service o k grace v)
  unfolding drain_service
  drain_service-Keeps k grace v t = Keeps-perform o _ ▷ λ u q. Keeps-now o ▷ λ time q.
      Keeps-now o ▷ λ time' q. put-Keeps k _ (drained time time') ▷ λ u q.
      Keeps-count _ ▷ λ u q. Keeps-pure _ (drained time time')
    where
      drained :
          (time time' : ℕ)
          → IsTracked c k (record v {
            state = draining;
            updated_at = time';
            drain_deadline = some (add_duration time grace);
          })
      drained time time' = ground arith

  pub drain-Keeps :
      (request : DrainRequest)
      → Keeps (AllTracked c) (IsTracked c (local_key request.name request.port)) (drain o request)
  unfolding drain
  drain-Keeps request = Keeps-check (validate_drain o.parse_duration request) ▷ λ u valid.
      Keeps-lift (grace_period o.parse_duration request) ▷ λ grace q.
      local_service-Keeps request.name request.port ▷ λ existing f.
      found-Keeps request.name request.port existing f ▷ λ v t. drain_service-Keeps _ grace v t

  deregister_service-Keeps :
      (k : Text) (v : LocalService)
      → IsTracked c k v
      → Keeps (AllTracked c) (IsTracked c k) (deregister_service o k v)
  unfolding deregister_service
  deregister_service-Keeps k v t = Keeps-perform o _ ▷ λ u q. Keeps-now o ▷ λ time q.
      put-Keeps k _ (gone time) ▷ λ u q. Keeps-count _ ▷ λ u q. Keeps-pure _ (gone time)
    where
      gone :
          (time : ℕ)
          → IsTracked c k
              (record v { state = deregistered; updated_at = time; drain_deadline = none })
      gone time = ground arith

  pub deregister-Keeps :
      (request : DeregisterRequest)
      → Keeps
          (AllTracked c)
          (IsTracked c (local_key request.name request.port))
          (deregister o request)
  unfolding deregister
  deregister-Keeps request = Keeps-check (validate_deregister request) ▷ λ u valid.
      local_service-Keeps request.name request.port ▷ λ existing f.
      found-Keeps request.name request.port existing f ▷ λ v t. deregister_service-Keeps _ v t
