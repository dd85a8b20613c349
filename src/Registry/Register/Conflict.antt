-- ===== src/Registry/Register/Conflict.antt =====
-- What happens to a running service whose registration changes while its route document stands.
use sidecar_agent.Prelude.{
  ℕ, false, none, some, ◌∷◌, ◌≡◌, ◌≢◌, arith, lookup, insert, Bool-cases, inl, inr,
}
use sidecar_agent.Text.{Text, is_empty, text_eq}
use sidecar_agent.Text.Equality.{text_key, text_eq_iff}
use sidecar_agent.Model.Error.{route_conflict, ok, err}
use sidecar_agent.Model.Request.{RegisterRequest, validate}
use sidecar_agent.Model.Route.{RouteDocument, canonicalize, equal}
use sidecar_agent.Model.Service.{LocalService, deregistered}
use sidecar_agent.Registry.Consul.{Outside, service_deregister, kv_get, time_now}
use sidecar_agent.Registry.Exec.{State, perform, now, get_value}
use sidecar_agent.Registry.Client.{Client, local_key, route_config_ref, same_register_request}
use sidecar_agent.Registry.Register.{
  local_service, store_local_service, compare_stored, check_stored, ensure_route_document, retire,
  route_doc, register_new, register_over, register, is_deregistered,
}

-- Another version makes another document.
equal-version_ne : (d other : RouteDocument) → d.version ≢ other.version → equal d other ≡ false
unfolding equal
equal-version_ne d other h = elim (Bool-cases (text_eq d.version other.version)) [
  | inl e ↦ absurd (h ((text_eq_iff d.version other.version).0 e))
  | inr e ↦ ground (arith, e)
]

abbrev pub reference : Client → RegisterRequest → Text
reference c r = route_config_ref c r.env r.namespace r.name

module _ (o : Outside) (c : Client) (s : State) (r : RegisterRequest) where
  -- A stored document that differs stops a new registration before anything is written.
  register_new_conflict :
      (value : Text) (old : RouteDocument)
      → o.kv_value (time_now ∷ s.history) (reference c r) ≡ ok (some value)
      → is_empty value ≡ false
      → o.decode value ≡ ok old
      → equal old (route_doc o c r (o.clock s.history)) ≡ false
      → register_new o c r s ≡ (
        err (route_conflict (reference c r)),
        record s { history = kv_get (reference c r) ∷ time_now ∷ s.history },
      )
  unfolding register_new ensure_route_document check_stored compare_stored now get_value
  register_new_conflict value old stored filled decoded differs =
      ground (arith, stored, filled, decoded, differs)

-- The state after the old instance of `v` has been taken down.
abbrev pub retired : Outside → LocalService → State → State
retired o v s = record s {
  local_services =
      insert (local_key v.request.name v.request.port)
        (record v {
          state = deregistered;
          updated_at = o.clock (service_deregister v.instance_id ∷ s.history);
        })
        s.local_services;
  history = time_now ∷ service_deregister v.instance_id ∷ s.history;
}

retire_accepted :
    (o : Outside) (c : Client) (s : State) (v : LocalService)
    → o.reply s.history (service_deregister v.instance_id) ≡ none
    → retire o c v s ≡ (ok tt, retired o v s)
unfolding retire perform now store_local_service
retire_accepted o c s v accepted = ground (arith, accepted)

version_changed :
    (left right : RegisterRequest)
    → left.version ≢ right.version
    → same_register_request left right ≡ false
unfolding same_register_request
version_changed left right h = elim (Bool-cases (text_eq left.version right.version)) [
  | inl e ↦ absurd (h ((text_eq_iff left.version right.version).0 e))
  | inr e ↦ ground (arith, e)
]

-- A running service asks to be registered in another version, the stored document being the one that
-- its first registration wrote, and reading back what was written. Then the registration fails
-- with a conflict; but by then the running instance has been deregistered in Consul and
-- marked so in the map, and nothing registers it again.
pub register_new_version :
    (o : Outside) (c : Client) (s : State) (r : RegisterRequest) (v : LocalService) (value : Text)
    (t : ℕ)
    → validate r ≡ none
    → lookup (local_key r.name r.port) s.local_services ≡ some v
    → is_deregistered v.state ≡ false
    → v.request.version ≢ r.version
    → o.reply s.history (service_deregister v.instance_id) ≡ none
    → o.kv_value (time_now ∷ (retired o v s).history) (reference c r) ≡ ok (some value)
    → is_empty value ≡ false
    → o.decode value ≡ ok (canonicalize (route_doc o c v.request t))
    → register o c r s ≡ (
      err (route_conflict (reference c r)),
      record (retired o v s) {
        history =
            kv_get (reference c r)
            ∷ time_now
            ∷ time_now
            ∷ service_deregister v.instance_id
            ∷ s.history;
      },
    )
unfolding register register_over local_service
register_new_version o c s r v value t valid known active version accepted stored filled decoded =
    let differs : equal (canonicalize (route_doc o c v.request t))
          (route_doc o c r (o.clock (retired o v s).history))
        ≡ false =
      equal-version_ne _ _ (unfold canonicalize route_doc in version) in
    ground (
      arith,
      valid,
      known,
      active,
      version_changed v.request r version,
      retire_accepted o c s v accepted,
      register_new_conflict o c (retired o v s) r value (canonicalize (route_doc o c v.request t))
          stored filled decoded differs,
    )
