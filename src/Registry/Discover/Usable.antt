-- ===== src/Registry/Discover/Usable.antt =====
-- What every discovered instance satisfies.
use sidecar_agent.Prelude.{
  true, false, Option, none, some, List, [], ◌∷◌, ◌++◌, All, All-append, if◌then◌else◌, ◌≡◌, refl,
  arith, Bool-cases, inl, inr, ◌||◌,
}
use sidecar_agent.Prelude.Int.{ℤ, pos, leb_int}
use sidecar_agent.Sort.Sorted.{Sorted, sort_by-Sorted, All-sort_by}
use sidecar_agent.Text.{format_int, Text, text_eq, trim_space, is_empty, scan_int}
use sidecar_agent.Text.Equality.{text_eq_iff}
use sidecar_agent.Text.Order.{text_order}
use sidecar_agent.Model.Service.{ServiceInstance}
use sidecar_agent.Model.Strings.Canonical.{Ascending, unique_sorted_strings-Ascending}
use sidecar_agent.Registry.Consul.{AgentService, ServiceEntry, Outside}
use sidecar_agent.Registry.Exec.{State}
use sidecar_agent.Registry.Exec.Rules.{
  Holds, Services, Keeps, Keeps-pure, ◌▷◌, Keeps-get_services, Keeps-get_entries,
}
use sidecar_agent.Registry.Client.{Client}
use sidecar_agent.Registry.Discover.{
  parse_positive_int, entry_address, instance_of, instance_at, service_instance_from_entry,
  instance_key, keep_in_env, instances_of, discover_services, discover,
}

-- Of an environment, with an address, a positive port and weight, and each prefix once.
pub record IsUsable (c : Client) (i : ServiceInstance) : Type 0 where
  pub own_env : trim_space i.env ≡ trim_space c.settings.env
  pub addressed : is_empty i.address ≡ false
  pub port : leb_int i.port (pos 0) ≡ false
  pub weight : leb_int i.weight (pos 0) ≡ false
  pub prefixes : Ascending i.route_prefixes

positive :
    (raw : Text) (fallback : ℤ)
    → leb_int fallback (pos 0) ≡ false
    → leb_int (parse_positive_int raw fallback) (pos 0) ≡ false
unfolding parse_positive_int
positive raw fallback h = scanned (scan_int (trim_space raw))
  where
    scanned :
        (o : Option ℤ)
        → leb_int
            (elim o [
              | none ↦ fallback
              | some value ↦ if leb_int value (pos 0) then fallback else value
            ])
            (pos 0)
          ≡ false
    scanned none = h
    scanned (some value) = elim (Bool-cases (leb_int value (pos 0))) [
      | inl e ↦ rw e h
      | inr e ↦ rw e e
    ]

-- What is kept, if anything.
abbrev Kept : Client → Option ServiceInstance → Type 0
Kept c none = Unit
Kept c (some i) = trim_space i.env ≡ trim_space c.settings.env → IsUsable c i

module _ (o : Outside) (c : Client) where
  instance_at-Kept :
      (service : AgentService) (address : Text) → Kept c (instance_at service address)
  unfolding instance_at instance_of
  instance_at-Kept service address =
      elim (Bool-cases (is_empty address || leb_int service.port (pos 0))) [
        | inl e ↦ rw e tt
        | inr e ↦ rw e λ env. record {
          own_env = env;
          addressed = ground (arith, e);
          port = ground (arith, e);
          weight = positive _ (pos 100) (ground arith);
          prefixes = unique_sorted_strings-Ascending _;
        }
      ]

  from_entry-Kept : (entry : Option ServiceEntry) → Kept c (service_instance_from_entry entry)
  unfolding service_instance_from_entry
  from_entry-Kept none = tt
  from_entry-Kept (some entry) = by_service entry.service
    where
      by_service :
          (found : Option AgentService)
          → Kept c (elim found [
            | none ↦ none
            | some service ↦ instance_at service (entry_address service entry.node)
          ])
      by_service none = tt
      by_service (some service) = instance_at-Kept service (entry_address service entry.node)

  keep_in_env-IsUsable :
      (found : Option ServiceInstance) (rest : List ServiceInstance)
      → Kept c found
      → All (IsUsable c) rest
      → All (IsUsable c) (keep_in_env o c found rest)
  unfolding keep_in_env
  keep_in_env-IsUsable none rest k h = h
  keep_in_env-IsUsable (some i) rest k h =
      elim (Bool-cases (text_eq (trim_space i.env) (trim_space c.settings.env))) [
        | inl e ↦ rw e (k ((text_eq_iff (trim_space i.env) (trim_space c.settings.env)).0 e), h)
        | inr e ↦ rw e h
      ]

  instances_of-IsUsable :
      (entries : List (Option ServiceEntry)) → All (IsUsable c) (instances_of o c entries)
  unfolding instances_of
  instances_of-IsUsable [] = tt
  instances_of-IsUsable (entry ∷ entries) =
      keep_in_env-IsUsable (service_instance_from_entry entry) (instances_of o c entries)
        (from_entry-Kept entry) (instances_of-IsUsable entries)

  discover_services-Keeps :
      (P : Services → Type 0) (names : List Text) (l : List ServiceInstance)
      → All (IsUsable c) l
      → Keeps P (All (IsUsable c)) (discover_services o c names l)
  unfolding discover_services
  discover_services-Keeps P [] l h = Keeps-pure l h
  discover_services-Keeps P (name ∷ names) l h = Keeps-get_entries o name true ▷ λ entries q.
      discover_services-Keeps P names (l ++ instances_of o c entries)
        (All-append (IsUsable c) l (instances_of o c entries) h (instances_of-IsUsable entries))

  -- Name, namespace, address and port.
  abbrev pub listing_key : ServiceInstance → Text
  listing_key i = i.name ++ b'|' ∷ (i.namespace ++ b'|' ∷ (i.address ++ b'|' ∷ format_int i.port))

  abbrev pub IsListing : List ServiceInstance → Type 0
  IsListing l = All (IsUsable c) l × Sorted text_order listing_key l

  discover-Keeps : (P : Services → Type 0) → Keeps P IsListing (discover o c)
  unfolding discover instance_key
  discover-Keeps P = Keeps-get_services o ▷ λ names q.
      discover_services-Keeps P names [] tt ▷ λ l h. Keeps-pure _ (
        All-sort_by text_order instance_key (IsUsable c) l h,
        sort_by-Sorted text_order instance_key l,
      )

  -- Whatever Consul answers, each instance of a list that `Discover` returns is of the agent's environment,
  -- has an address, a positive port, a positive weight and its prefixes in strictly ascending order;
  -- the list is in the order of the texts that join name, namespace, address and port by bars; and no
  -- local service changes.
  pub discover_lem :
      (s : State)
      → Holds IsListing (discover o c s).0 × ((discover o c s).1.local_services ≡ s.local_services)
  discover_lem s =
      let keeps = discover-Keeps (λ m. m ≡ s.local_services) in
      (keeps.result s refl, keeps.state s refl)
