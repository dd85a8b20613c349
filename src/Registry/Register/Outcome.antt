-- ===== src/Registry/Register/Outcome.antt =====
-- What a registration that returns no error has done to the map of services.
use sidecar_agent.Prelude.{
  ℕ, Bool, true, false, Option, none, some, ◌≡◌, refl, ◌∙◌, arith, if◌then◌else◌, lookup, insert,
  lookup-insert,
}
use sidecar_agent.Prelude.Int.{eqb_int_iff}
use sidecar_agent.Text.{Text}
use sidecar_agent.Text.Equality.{text_key, text_eq_iff, text_eq_refl}
use sidecar_agent.Model.Error.{Result, ok, err}
use sidecar_agent.Model.Request.{RegisterRequest, validate}
use sidecar_agent.Model.Route.Equal.{texts_eq_iff}
use sidecar_agent.Model.Strings.{unique_sorted_strings}
use sidecar_agent.Model.Service.{LocalService}
use sidecar_agent.Registry.Consul.{Outside, service_register}
use sidecar_agent.Registry.Exec.{State, Exec, pure, check, proceed, ◌>>=◌, perform, now, count}
use sidecar_agent.Registry.Exec.Rules.{Services, Holds}
use sidecar_agent.Registry.Client.{
  Client, local_key, same_register_request, new_instance_id, route_config_ref,
}
use sidecar_agent.Registry.Register.Same.{SameRequest, SameRequest-of_test}
use sidecar_agent.Registry.Register.{
  local_service, store_local_service, pass_lease, replay, retire, new_service, announce,
  register_new, register_over, register, is_deregistered, registration_for, route_doc,
  ensure_route_document,
}

-- `Q` holds of the result and of the map that is left with it.
record Returns {A : Type 0} (Q : A → Services → Type 0) (m : Exec A) : Type 0 where
  at : (s : State) → Holds (λ a. Q a (m s).1.local_services) (m s).0

module _ {A B : Type 0} {R : B → Services → Type 0} {f : A → Exec B} where
  Returns-proceed :
      ((a : A) → Returns R (f a))
      → (r : Result A) (s : State)
      → Holds (λ b. R b (proceed r f s).1.local_services) (proceed r f s).0
  Returns-proceed rf (ok a) s = (rf a).at s
  Returns-proceed rf (err e) s = tt

  after : (m : Exec A) → ((a : A) → Returns R (f a)) → Returns R (m >>= f)
  after m rf = record { at = λ s. Returns-proceed rf (m s).0 (m s).1 }

Returns-if :
    {A : Type 0} {Q : A → Services → Type 0} (b : Bool) (m n : Exec A)
    → (b ≡ true → Returns Q m)
    → (b ≡ false → Returns Q n)
    → Returns Q (if b then m else n)
Returns-if true m n km kn = km refl
Returns-if false m n km kn = kn refl

-- Two requests that count as one name the same service.
pub same_key :
    (left right : RegisterRequest)
    → same_register_request left right ≡ true
    → local_key left.name left.port ≡ local_key right.name right.port
unfolding same_register_request
same_key left right h =
    let p : (left.name ≡ right.name) × (left.port ≡ right.port) =
      ground (arith, text_eq_iff left.name right.name, eqb_int_iff left.port right.port) in
    cc (p.0, p.1)

pub same_register_request_refl : (r : RegisterRequest) → same_register_request r r ≡ true
unfolding same_register_request
same_register_request_refl r = ground (
  arith,
  text_eq_refl r.app_id,
  text_eq_refl r.app_name,
  text_eq_refl r.name,
  text_eq_refl r.namespace,
  (eqb_int_iff r.port r.port).1 refl,
  text_eq_refl r.dns,
  text_eq_refl r.env,
  (eqb_int_iff r.weight r.weight).1 refl,
  text_eq_refl r.protocol,
  text_eq_refl r.kernel.language,
  text_eq_refl r.kernel.version,
  text_eq_refl r.version,
  (texts_eq_iff (unique_sorted_strings r.methods) (unique_sorted_strings r.methods)).1 refl,
)

-- The service stands in the map for the request, and has not been deregistered.
pub record IsRegistered (r : RegisterRequest) (v : LocalService) (m : Services) : Type 0 where
  pub kept : lookup (local_key r.name r.port) m ≡ some v
  pub active : is_deregistered v.state ≡ false
  pub same : SameRequest v.request r

lookup_stored :
    (k j : Text) (v : LocalService) (m : Services) → k ≡ j → lookup j (insert k v m) ≡ some v
lookup_stored k j v m e = lookup-insert k j v m ∙ rw ((text_eq_iff k j).1 e) refl

module _ (o : Outside) (c : Client) (r : RegisterRequest) where
  replay-Returns :
      (v : LocalService)
      → is_deregistered v.state ≡ false
      → same_register_request v.request r ≡ true
      → Returns (IsRegistered r) (replay o c v)
  unfolding replay
  replay-Returns v a e = after (pass_lease o c v) λ u. after (now o) stored
    where
      stored :
          (t : ℕ)
          → Returns (IsRegistered r) (
              store_local_service (record v { updated_at = t }) >>= λ u.
              pure (record v { updated_at = t }))
      stored t = record {
        at = λ s.
            unfold store_local_service in
            record {
              kept = lookup_stored _ _ _ s.local_services (same_key v.request r e);
              active = a;
              same = SameRequest-of_test v.request r e;
            };
      }

  announce-Returns :
      (instance_id : Text) (t : ℕ)
      → Returns (IsRegistered r) (announce o c (new_service o c r instance_id t))
  unfolding announce new_service store_local_service count
  announce-Returns instance_id t =
      let v = new_service o c r instance_id t in
      after (perform o (service_register (registration_for o c v))) λ u.
        after (pass_lease o c v) λ u. after (now o) λ time. record {
          at = λ s. record {
            kept = lookup_stored _ _ _ s.local_services refl;
            active = refl;
            same = SameRequest-of_test r r (same_register_request_refl r);
          };
        }

  register_new-Returns : Returns (IsRegistered r) (register_new o c r)
  unfolding register_new
  register_new-Returns = after (now o) λ t.
      after
        (ensure_route_document o c (route_config_ref c r.env r.namespace r.name)
          (route_doc o c r t))
        λ u. after (new_instance_id o) λ instance_id. after (now o) (announce-Returns instance_id)

  register_over-Returns :
      (existing : Option LocalService) → Returns (IsRegistered r) (register_over o c r existing)
  unfolding register_over
  register_over-Returns none = register_new-Returns
  register_over-Returns (some v) =
      Returns-if (is_deregistered v.state) (register_new o c r)
        (if same_register_request v.request r
          then replay o c v
          else (retire o c v >>= λ u. register_new o c r))
        (λ e. register_new-Returns)
        (λ e.
          Returns-if (same_register_request v.request r) (replay o c v)
            (retire o c v >>= λ u. register_new o c r) (λ e'. replay-Returns v e e')
            (λ e'. after (retire o c v) λ u. register_new-Returns))

  -- A registration that returns a service leaves exactly that service in the map under the name and
  -- port of the request. The service is not deregistered, and its own request has the fields of this
  -- one and the same methods, but for their order, their repetition and blanks around them.
  pub register-IsRegistered :
      (s : State)
      → Holds (λ v. IsRegistered r v (register o c r s).1.local_services) (register o c r s).0
  unfolding register
  register-IsRegistered s =
      (after (check (validate r)) λ u. after (local_service r.name r.port) register_over-Returns).at
        s
