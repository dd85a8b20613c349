-- ===== src/Registry/Discover/RoundTrip.antt =====
-- What `registrationFor` writes, `serviceInstanceFromEntry` reads.
use mathlib.Core.Path.{subst}
use sidecar_agent.Prelude.{
  ℕ, suc, ◌<◌, ◌^◌, Bool, true, false, Option, none, some, List, [], ◌∷◌, ◌++◌, All, if◌then◌else◌,
  ◌≡◌, refl, sym, ◌∙◌, ap, arith, ◌||◌,
}
use sidecar_agent.Prelude.Int.{ℤ, pos, ltb_int, leb_int}
use sidecar_agent.Text.{
  Text, codes, trim_space, is_empty, is_space, has_prefix, trim_prefix, split, join, format_int,
  scan_int,
}
use sidecar_agent.Text.Split.{Lacks, split-join}
use sidecar_agent.Text.Scan.{trim_space-append, scan_int-decimal}
use sidecar_agent.Text.Trim.{trim_space_idem}
use sidecar_agent.Model.Request.{port_is_bad}
use sidecar_agent.Model.Request.Valid.{validate-IsValid, test_of_IsPort}
use sidecar_agent.Model.Route.{extract_route_prefixes}
use sidecar_agent.Model.Service.{LocalService, ServiceInstance}
use sidecar_agent.Model.Strings.{unique_sorted_strings}
use sidecar_agent.Model.Strings.Canonical.{unique_sorted_strings_idem}
use sidecar_agent.Registry.Consul.{AgentServiceRegistration, AgentService, ServiceEntry, Outside}
use sidecar_agent.Registry.Client.{Client}
use sidecar_agent.Registry.Register.{registration_for}
use sidecar_agent.Registry.Tracked.{IsTracked}
use sidecar_agent.Registry.Lease.{meta_value}
use sidecar_agent.Registry.Discover.{
  parse_positive_int, cluster_from_tags, entry_address, instance_of, instance_at,
  service_instance_from_entry,
}

-- The entry of a registration: its fields as they were registered.
abbrev pub stored : AgentServiceRegistration → AgentService
stored g = record {
  id = g.id;
  service = g.name;
  address = g.address;
  port = g.port;
  tags = g.tags;
  meta = g.meta;
}

-- The instance that other agents should see of a service.
abbrev pub advertised : Client → LocalService → ServiceInstance
advertised c v = record {
  instance_id = v.instance_id;
  name = v.request.name;
  namespace = v.request.namespace;
  dns = v.request.dns;
  env = v.request.env;
  zone = v.zone;
  version = v.request.version;
  protocol = v.request.protocol;
  address = v.address;
  port = v.request.port;
  weight = v.request.weight;
  cluster = trim_space c.settings.cluster_name;
  route_config_ref = v.route_config_ref;
  route_prefixes = v.route_prefixes;
}

weight_read :
    (n : ℕ) → suc n < 2 ^ 63 → parse_positive_int (format_int (pos (suc n))) (pos 100) ≡ pos (suc n)
unfolding parse_positive_int format_int
weight_read n b = rw (scan_int-decimal (suc n) b, parse_positive_int) (ground arith)

weight_kept :
    (w : ℤ)
    → ((n : ℕ) × (w ≡ pos (suc n)))
    → ltb_int w (pos (2 ^ 63)) ≡ true
    → parse_positive_int (format_int w) (pos 100) ≡ w
weight_kept w (n, e) fits =
    subst (λ x. ltb_int x (pos (2 ^ 63)) ≡ true → parse_positive_int (format_int x) (pos 100) ≡ x)
      (sym e) (λ f. weight_read n (ground (arith, f))) fits

cluster_read :
    (t : Text) → cluster_from_tags ((codes "cluster=" ++ trim_space t) ∷ []) ≡ trim_space t
unfolding cluster_from_tags
cluster_read t =
    let e : trim_space (codes "cluster=" ++ trim_space t) ≡ codes "cluster=" ++ trim_space t =
      trim_space-append b'c' (codes "luster=") t
        (unfold is_space in (refl, (refl, (refl, (refl, (refl, (refl, (refl, (refl, tt))))))))) in
    rw e (unfold has_prefix trim_prefix in refl)

prefixes_read :
    (ps : List Text)
    → All (Lacks b',') ps
    → unique_sorted_strings ps ≡ ps
    → unique_sorted_strings (split b',' (join b',' ps)) ≡ ps
prefixes_read [] h e =
    unfold split join unique_sorted_strings trim_space sidecar_agent.Sort.sort_by in refl
prefixes_read (p ∷ ps) h e = ap unique_sorted_strings (split-join b',' p ps h) ∙ e

entry_read :
    (entry : ServiceEntry) (a : AgentService)
    → entry.service ≡ some a
    → service_instance_from_entry (some entry) ≡ instance_at a (entry_address a entry.node)
unfolding service_instance_from_entry
entry_read entry a e = rw (e, service_instance_from_entry) refl

module _ (o : Outside) (c : Client) (k : Text) (v : LocalService) (tracked : IsTracked c k v) where
  prefixes_fixed : unique_sorted_strings v.route_prefixes ≡ v.route_prefixes
  unfolding extract_route_prefixes
  prefixes_fixed = rw (tracked.prefixes) (unique_sorted_strings_idem _)

  address_read :
      (host : Option Text)
      → is_empty v.address ≡ false
      → entry_address (stored (registration_for o c v)) host ≡ v.address
  unfolding entry_address registration_for
  address_read host h =
      let e : trim_space v.address ≡ v.address =
        rw (tracked.address) (trim_space_idem c.settings.host_ip) in
      rw (e, h) refl

  instance_read :
      ltb_int v.request.weight (pos (2 ^ 63)) ≡ true
      → All (Lacks b',') v.route_prefixes
      → instance_of (stored (registration_for o c v)) v.address ≡ advertised c v
  unfolding instance_of registration_for meta_value sidecar_agent.Prelude.lookup
      sidecar_agent.Text.text_eq
  instance_read fits clean =
      let valid = validate-IsValid v.request tracked.valid in
      rw
        (
          weight_kept v.request.weight valid.weight fits,
          cluster_read c.settings.cluster_name,
          prefixes_read v.route_prefixes clean prefixes_fixed,
        )
        refl

  port_read : port_is_bad v.request.port ≡ false → leb_int v.request.port (pos 0) ≡ false
  port_read h = ground (arith, h)

  instance_at_read :
      is_empty v.address ≡ false
      → leb_int v.request.port (pos 0) ≡ false
      → instance_of (stored (registration_for o c v)) v.address ≡ advertised c v
      → instance_at (stored (registration_for o c v)) v.address ≡ some (advertised c v)
  unfolding instance_at registration_for
  instance_at_read filled port same = rw (filled, port) (ap some same)

  -- A service of the map is discovered as it was registered: where Consul returns the fields of the
  -- registration, the host has an address, the weight fits in 64 bits and no prefix has a comma, the
  -- instance read from the entry has the id, the names, the address, the port, the weight, the cluster,
  -- the route reference and the prefixes of the service.
  pub service_instance_from_entry-registration_for :
      (entry : ServiceEntry)
      → entry.service ≡ some (stored (registration_for o c v))
      → is_empty (trim_space c.settings.host_ip) ≡ false
      → ltb_int v.request.weight (pos (2 ^ 63)) ≡ true
      → All (Lacks b',') v.route_prefixes
      → service_instance_from_entry (some entry) ≡ some (advertised c v)
  service_instance_from_entry-registration_for entry e host fits clean =
      let filled : is_empty v.address ≡ false = rw (tracked.address) host in
      let valid = validate-IsValid v.request tracked.valid in
      entry_read entry (stored (registration_for o c v)) e
      ∙ ap (instance_at (stored (registration_for o c v))) (address_read entry.node filled)
      ∙ instance_at_read filled (port_read (test_of_IsPort v.request.port valid.port))
          (instance_read fits clean)
