-- ===== src/Registry/Live/Opening.antt =====
-- A registration with a Consul that has no other routes for its service and takes every document, step
-- by step.
use sidecar_agent.Prelude.{
  ℕ, ◌/◌, ◌^◌, true, Option, none, some, ◌⊎◌, inl, inr, Bool-cases, List, ◌∷◌, ◌≡◌, refl,
}
use sidecar_agent.Text.{Text, is_empty}
use sidecar_agent.Text.Equality.{text_key}
use sidecar_agent.Model.Error.{Result, ok, err}
use sidecar_agent.Model.Request.{RegisterRequest}
use sidecar_agent.Model.Service.{LocalService}
use sidecar_agent.Registry.Consul.{
  History, Outside, service_register, kv_put, kv_get, time_now, rand_read, AgentServiceRegistration,
}
use sidecar_agent.Registry.Exec.{State, proceed, ◌>>=◌, perform, now, get_value, random_bytes}
use sidecar_agent.Registry.Client.{
  Client, new_instance_id, route_config_ref, format_uuid, hex_encode, stamp,
}
use sidecar_agent.Model.Route.{RouteDocument, canonicalize}
use sidecar_agent.Model.Route.Equal.{SameRoutes, equal_iff}
use sidecar_agent.Registry.Register.{
  ensure_route_document, check_stored, compare_stored, announce, register_new, new_service,
  route_doc,
}

-- What a read of the key of a document returns lets the document through: nothing is stored, or a
-- value that is empty or says the same routes.
abbrev pub Fits : Outside → RouteDocument → Result (Option Text) → Type 0
Fits o doc (err e) = ⊥
Fits o doc (ok none) = Unit
Fits o doc (ok (some raw)) =
    (is_empty raw ≡ true) ⊎ ((d : RouteDocument) × (o.decode raw ≡ ok d) × SameRoutes d doc)

-- Consul has no other routes for the service, takes every document and every instance, and there are
-- random bytes.
pub record Opens (o : Outside) (c : Client) (r : RegisterRequest) (bytes : History → List ℕ)
    : Type 0 where
  pub reads :
      (h : History) (t : ℕ)
      → Fits o (route_doc o c r t) (o.kv_value h (route_config_ref c r.env r.namespace r.name))
  pub puts : (h : History) (key value : Text) → o.reply h (kv_put key value) ≡ none
  pub registers :
      (h : History) (g : AgentServiceRegistration) → o.reply h (service_register g) ≡ none
  pub random : (h : History) → o.random h ≡ ok (bytes h)

module _ (o : Outside) (c : Client) (r : RegisterRequest) (bytes : History → List ℕ)
    (w : Opens o c r bytes) where
  checked :
      (key : Text) (doc : RouteDocument) (raw : Text) (s : State)
      → Fits o doc (ok (some raw))
      → check_stored o c key doc (some raw) s ≡ (ok tt, s)
  unfolding check_stored compare_stored
  checked key doc raw s (inl e) = rw e refl
  checked key doc raw s (inr (d, e, same)) = elim (Bool-cases (is_empty raw)) [
    | inl q ↦ rw q refl
    | inr q ↦ rw (q, e, (equal_iff d doc).1 same) refl
  ]

  ensured_from :
      (key : Text) (doc : RouteDocument) (x : Result (Option Text)) (s : State)
      → Fits o doc x
      → proceed x
          (λ v. check_stored o c key doc v >>= λ u.
            perform o (kv_put key (o.encode (canonicalize doc))))
          s
        ≡ (ok tt, record s { history = kv_put key (o.encode (canonicalize doc)) ∷ s.history })
  unfolding perform
  ensured_from key doc (err e) s h = absurd h
  ensured_from key doc (ok none) s h = unfold check_stored in rw (w.puts) refl
  ensured_from key doc (ok (some raw)) s h = rw (checked key doc raw s h, w.puts) refl

  ensured :
      (t : ℕ) (s : State)
      → (let key = route_config_ref c r.env r.namespace r.name in
          let doc = route_doc o c r t in
          ensure_route_document o c key doc s ≡ (
            ok tt,
            record s {
              history = kv_put key (o.encode (canonicalize doc)) ∷ kv_get key ∷ s.history;
            },
          ))
  unfolding ensure_route_document get_value
  ensured t s =
      let key = route_config_ref c r.env r.namespace r.name in
      ensured_from key (route_doc o c r t) (o.kv_value s.history key)
        (record s { history = kv_get key ∷ s.history }) (w.reads s.history t)

  abbrev made_id : History → Text
  made_id h = format_uuid (hex_encode (stamp (o.clock (rand_read ∷ h) / 10 ^ 6) (bytes h)))

  made :
      (s : State)
      → new_instance_id o s
        ≡ (ok (made_id s.history), record s { history = time_now ∷ rand_read ∷ s.history })
  unfolding new_instance_id random_bytes now
  made s = rw (w.random) refl

  -- The calls of a registration before it announces the instance.
  abbrev before_id : History → History
  before_id h =
      let key = route_config_ref c r.env r.namespace r.name in
      kv_put key (o.encode (canonicalize (route_doc o c r (o.clock h)))) ∷ kv_get key ∷ time_now ∷ h

  -- The instance that a registration announces.
  abbrev pub new_instance : History → LocalService
  new_instance h =
      let before = before_id h in
      new_service o c r (made_id before) (o.clock (time_now ∷ rand_read ∷ before))

  abbrev pub prepared : State → State
  prepared s = record s { history = time_now ∷ time_now ∷ rand_read ∷ before_id s.history }

  -- A registration of a new instance is its announcement.
  pub register_new-announce :
      (s : State) → register_new o c r s ≡ announce o c (new_instance s.history) (prepared s)
  unfolding register_new now
  register_new-announce s =
      let s1 : State = record s { history = time_now ∷ s.history } in
      let s2 : State = record s { history = before_id s.history } in
      rw (ensured (o.clock s.history) s1, made s2) refl
