-- ===== src/Xds/Snapshot/Groups.antt =====
-- `groupInstances`: what a group holds.
use sidecar_agent.Prelude.{
  Option, none, some, List, [], ◌∷◌, ◌++◌, map, select, length, length-append, All, ◌≡◌, refl, ◌∙◌,
  arith,
}
use sidecar_agent.Prelude.Int.{ℤ}
use sidecar_agent.Text.{Text, text_eq, format_int}
use sidecar_agent.Text.Equality.{text_key}
use sidecar_agent.Text.Order.{text_order}
use sidecar_agent.Grouping.Count.{total, total-sort_by, total-collect}
use sidecar_agent.Model.Service.{ServiceInstance}
use sidecar_agent.Xds.Snapshot.{
  ServiceGroup, group_key, fresh_group, add_instance, grouped, group_instances,
}

-- Name, namespace and port.
abbrev pub joined : Text → Text → ℤ → Text
joined name namespace port = name ++ b'|' ∷ (namespace ++ b'|' ∷ format_int port)

-- The instances with a key.
abbrev pub having : Text → List ServiceInstance → List ServiceInstance
having k = select (λ i. text_eq (joined i.name i.namespace i.port) k)

-- The group of some instances: the first one names it, and gives the DNS name.
abbrev pub group_of : List ServiceInstance → Option ServiceGroup
group_of [] = none
group_of (i ∷ instances) = some (record {
  name = i.name;
  namespace = i.namespace;
  dns = i.dns;
  port = i.port;
  instances = i ∷ instances;
})

abbrev pub key_of_group : ServiceGroup → Text
key_of_group g = joined g.name g.namespace g.port

-- The sizes of the groups add up to the number of instances.
pub total-group_instances :
    (l : List ServiceInstance) → total (λ g. length g.instances) (group_instances l) ≡ length l
unfolding group_instances grouped
total-group_instances l =
    let size = λ (g : ServiceGroup). length g.instances in
    total-sort_by text_order key_of_group size (map (λ e. e.1) (grouped l))
    ∙ omega (
      arith,
      total-collect group_key fresh_group add_instance size (λ a. refl)
          (λ g a. omega (arith, length-append g.instances (a ∷ []))) l [],
    )

-- `groups` is what the list falls into.
abbrev pub IsGrouping : List ServiceInstance → List ServiceGroup → Type 0
IsGrouping l groups =
    All (λ g. group_of (having (key_of_group g) l) ≡ some g) groups
    × (total (λ g. length g.instances) groups ≡ length l)
