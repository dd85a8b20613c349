-- ===== src/Registry/Register/Same.antt =====
-- What `sameRegisterRequest` compares.
use sidecar_agent.Prelude.{Bool, true, false, ◌&&◌, ◌≡◌, refl}
use sidecar_agent.Prelude.Int.{eqb_int, eqb_int_iff}
use sidecar_agent.Text.{Text, text_eq}
use sidecar_agent.Text.Equality.{text_eq_iff}
use sidecar_agent.Model.Request.{RegisterRequest}
use sidecar_agent.Model.Route.Equal.{texts_eq_iff}
use sidecar_agent.Model.Route.{texts_eq}
use sidecar_agent.Model.Strings.{unique_sorted_strings}
use sidecar_agent.Model.Strings.Canonical.{has_value, unique_sorted_strings-eq_iff}
use sidecar_agent.Registry.Client.{same_register_request}

-- Two requests say the same: the order, the repetition and the surrounding blanks of the methods do
-- not count, nor do blank methods.
pub record SameRequest (left right : RegisterRequest) : Type 0 where
  pub app_id : left.app_id ≡ right.app_id
  pub app_name : left.app_name ≡ right.app_name
  pub name : left.name ≡ right.name
  pub namespace : left.namespace ≡ right.namespace
  pub port : left.port ≡ right.port
  pub dns : left.dns ≡ right.dns
  pub env : left.env ≡ right.env
  pub weight : left.weight ≡ right.weight
  pub protocol : left.protocol ≡ right.protocol
  pub language : left.kernel.language ≡ right.kernel.language
  pub kernel_version : left.kernel.version ≡ right.kernel.version
  pub version : left.version ≡ right.version
  pub methods : (t : Text) → has_value t left.methods ≡ has_value t right.methods

both : (a b : Bool) → (a && b) ≡ true → (a ≡ true) × (b ≡ true)
both true b h = (refl, h)
both false b h = cc h

-- The tests, one after the other.
tests :
    (left right : RegisterRequest)
    → same_register_request left right ≡ true
    → (text_eq left.app_id right.app_id ≡ true)
      × (text_eq left.app_name right.app_name ≡ true)
      × (text_eq left.name right.name ≡ true)
      × (text_eq left.namespace right.namespace ≡ true)
      × (eqb_int left.port right.port ≡ true)
      × (text_eq left.dns right.dns ≡ true)
      × (text_eq left.env right.env ≡ true)
      × (eqb_int left.weight right.weight ≡ true)
      × (text_eq left.protocol right.protocol ≡ true)
      × (text_eq left.kernel.language right.kernel.language ≡ true)
      × (text_eq left.kernel.version right.kernel.version ≡ true)
      × (text_eq left.version right.version ≡ true)
      × (texts_eq (unique_sorted_strings left.methods) (unique_sorted_strings right.methods) ≡ true)
unfolding same_register_request
tests left right h0 =
    let (h1, t12) =
      both
        (text_eq left.app_id right.app_id
          && text_eq left.app_name right.app_name
          && text_eq left.name right.name
          && text_eq left.namespace right.namespace
          && eqb_int left.port right.port
          && text_eq left.dns right.dns
          && text_eq left.env right.env
          && eqb_int left.weight right.weight
          && text_eq left.protocol right.protocol
          && text_eq left.kernel.language right.kernel.language
          && text_eq left.kernel.version right.kernel.version
          && text_eq left.version right.version)
        (texts_eq (unique_sorted_strings left.methods) (unique_sorted_strings right.methods)) h0 in
    let (h2, t11) = both _ _ h1 in
    let (h3, t10) = both _ _ h2 in
    let (h4, t9) = both _ _ h3 in
    let (h5, t8) = both _ _ h4 in
    let (h6, t7) = both _ _ h5 in
    let (h7, t6) = both _ _ h6 in
    let (h8, t5) = both _ _ h7 in
    let (h9, t4) = both _ _ h8 in
    let (h10, t3) = both _ _ h9 in
    let (h11, t2) = both _ _ h10 in
    let (t0, t1) = both _ _ h11 in (t0, t1, t2, t3, t4, t5, t6, t7, t8, t9, t10, t11, t12)

pub SameRequest-of_test :
    (left right : RegisterRequest)
    → same_register_request left right ≡ true
    → SameRequest left right
SameRequest-of_test left right h =
    let (
      id, app, name, space, port, dns, env, weight, protocol, language, kernel, version, methods,
    ) =
      tests left right h in
    record {
      app_id = (text_eq_iff left.app_id right.app_id).0 id;
      app_name = (text_eq_iff left.app_name right.app_name).0 app;
      name = (text_eq_iff left.name right.name).0 name;
      namespace = (text_eq_iff left.namespace right.namespace).0 space;
      port = (eqb_int_iff left.port right.port).0 port;
      dns = (text_eq_iff left.dns right.dns).0 dns;
      env = (text_eq_iff left.env right.env).0 env;
      weight = (eqb_int_iff left.weight right.weight).0 weight;
      protocol = (text_eq_iff left.protocol right.protocol).0 protocol;
      language = (text_eq_iff left.kernel.language right.kernel.language).0 language;
      kernel_version = (text_eq_iff left.kernel.version right.kernel.version).0 kernel;
      version = (text_eq_iff left.version right.version).0 version;
      methods = (unique_sorted_strings-eq_iff left.methods right.methods).0 (
          (texts_eq_iff (unique_sorted_strings left.methods)
              (unique_sorted_strings right.methods)).0
            methods);
    }
