-- ===== src/Xds/Snapshot/Endpoints.antt =====
-- `buildLoadAssignment`: what a locality holds.
use sidecar_agent.Prelude.{
  ℕ, if◌then◌else◌, Option, none, some, List, [], ◌∷◌, ◌++◌, map, select, length, length-append,
  All, All-mono, append-nil, append_assoc, ◌≡◌, refl, sym, ◌∙◌, ap, arith, Bool-cases, inl, inr,
}
use sidecar_agent.Prelude.Int.{uint32}
use sidecar_agent.Text.{Text, text_eq, decimal, trim_space}
use sidecar_agent.Text.Order.{text_order}
use sidecar_agent.Sort.Sorted.{All-sort_by}
use sidecar_agent.Grouping.{gathered, collect}
use sidecar_agent.Grouping.Values.{All-collected}
use sidecar_agent.Grouping.Count.{total, total-sort_by, total-collect}
use sidecar_agent.Model.Service.{ServiceInstance}
use sidecar_agent.Xds.Snapshot.{
  Builder, LbEndpoint, LocalityLbEndpoints, ClusterLoadAssignment, endpoint_of, bucket_key,
  fresh_bucket, add_endpoint, locality_buckets, count_instances, build_load_assignment,
}

module _ (b : Builder) where
  -- Instances of the agent's own cluster have rank 0, others 1.
  abbrev pub rank : ServiceInstance → ℕ
  rank i = if text_eq (trim_space i.cluster) (trim_space b.settings.local_cluster) then 0 else 1

  -- The address of an instance, with its port and weight in 32 bits.
  abbrev pub endpoint_at : ServiceInstance → LbEndpoint
  endpoint_at i = record {
    address = i.address;
    port_value = uint32 i.port;
    load_balancing_weight = uint32 i.weight;
  }

  -- The instances of a zone with a rank.
  abbrev pub at_locality : Text → List ServiceInstance → List ServiceInstance
  at_locality k = select (λ i. text_eq (i.zone ++ b'|' ∷ decimal (rank i)) k)

  -- The locality of some instances: the endpoints of all of them, with the first one's zone and priority.
  abbrev pub locality_of : List ServiceInstance → Option LocalityLbEndpoints
  locality_of [] = none
  locality_of (i ∷ instances) =
      some (record {
        zone = i.zone;
        priority = rank i;
        lb_endpoints = map endpoint_at (i ∷ instances);
      })

  gathered-some :
      (k : Text) (l : List ServiceInstance) (g : LocalityLbEndpoints)
      → gathered (bucket_key b) (fresh_bucket b) add_endpoint k l (some g)
        ≡ some (record g { lb_endpoints = g.lb_endpoints ++ map endpoint_of (at_locality k l) })
  gathered-some k [] g =
      ap (λ es. some (record g { lb_endpoints = es })) (sym (append-nil g.lb_endpoints))
  gathered-some k (i ∷ l) g = elim (Bool-cases (text_eq (bucket_key b i) k)) [
    | inl e ↦ rw e (
        gathered-some k l (add_endpoint g i)
        ∙ ap (λ es. some (record g { lb_endpoints = es }))
            (append_assoc g.lb_endpoints (endpoint_of i ∷ []) (map endpoint_of (at_locality k l))))
    | inr e ↦ rw e (gathered-some k l g)
  ]

  gathered-none :
      (k : Text) (l : List ServiceInstance)
      → gathered (bucket_key b) (fresh_bucket b) add_endpoint k l none
        ≡ locality_of (at_locality k l)
  gathered-none k [] = refl
  gathered-none k (i ∷ l) = elim (Bool-cases (text_eq (bucket_key b i) k)) [
    | inl e ↦ rw e (gathered-some k l (add_endpoint (fresh_bucket b i) i))
    | inr e ↦ rw e (gathered-none k l)
  ]

  abbrev pub key_of_locality : LocalityLbEndpoints → Text
  key_of_locality l = l.zone ++ b'|' ∷ decimal l.priority

  gathered-build_load_assignment :
      (name : Text) (l : List ServiceInstance)
      → All
          (λ g. locality_of (at_locality (key_of_locality g) l) ≡ some g)
          (build_load_assignment b name l).0.endpoints
  unfolding build_load_assignment locality_buckets
  gathered-build_load_assignment name l =
      let m = map (λ e. e.1) (collect (bucket_key b) (fresh_bucket b) add_endpoint l []) in
      All-sort_by text_order (λ g. decimal g.priority ++ b'|' ∷ g.zone)
        (λ g. locality_of (at_locality (key_of_locality g) l) ≡ some g) m
        (All-mono
          (λ g.
            gathered (bucket_key b) (fresh_bucket b) add_endpoint (key_of_locality g) l none
            ≡ some g)
          (λ g. locality_of (at_locality (key_of_locality g) l) ≡ some g)
          (λ g q. sym (gathered-none (key_of_locality g) l) ∙ q) m
          (All-collected (bucket_key b) (fresh_bucket b) add_endpoint key_of_locality (λ a. refl)
            (λ g a. refl) l))

  pub count_instances_lem : (l : List ServiceInstance) → count_instances l ≡ length l
  unfolding count_instances
  count_instances_lem [] = refl
  count_instances_lem (i ∷ l) = omega (arith, count_instances_lem l)

  -- The localities have as many endpoints as are counted.
  pub total-build_load_assignment :
      (name : Text) (l : List ServiceInstance)
      → total (λ g. length g.lb_endpoints) (build_load_assignment b name l).0.endpoints
        ≡ (build_load_assignment b name l).1
  unfolding build_load_assignment locality_buckets
  total-build_load_assignment name l =
      let size = λ (g : LocalityLbEndpoints). length g.lb_endpoints in
      let m = map (λ e. e.1) (collect (bucket_key b) (fresh_bucket b) add_endpoint l []) in
      total-sort_by text_order (λ g. decimal g.priority ++ b'|' ∷ g.zone) size m
      ∙ omega (
        arith,
        count_instances_lem l,
        total-collect (bucket_key b) (fresh_bucket b) add_endpoint size (λ a. refl)
            (λ g a. omega (arith, length-append g.lb_endpoints (endpoint_of a ∷ []))) l [],
      )

  counted : (name : Text) (l : List ServiceInstance) → (build_load_assignment b name l).1 ≡ length l
  unfolding build_load_assignment
  counted name l = count_instances_lem l

  -- `a` puts the endpoints of the list into localities.
  abbrev pub IsAssignment : List ServiceInstance → ClusterLoadAssignment × ℕ → Type 0
  IsAssignment l (a, count) =
      All (λ g. locality_of (at_locality (key_of_locality g) l) ≡ some g) a.endpoints
      × (total (λ g. length g.lb_endpoints) a.endpoints ≡ length l)
      × (count ≡ length l)

  -- Each locality of a load assignment has the endpoints of the instances with its zone and its
  -- priority, joined by a bar to one key, all of them and in order, and it has at least one; the
  -- priority is 0 for instances of the agent's own cluster, but for blanks around its name, and 1 for
  -- others, and an endpoint has the instance's address, and its port and weight in 32 bits. The sizes
  -- of the localities add up to the length of the list, which is also the count that is returned.
  pub build_load_assignment_lem :
      (name : Text) (l : List ServiceInstance) → IsAssignment l (build_load_assignment b name l)
  build_load_assignment_lem name l = (
    gathered-build_load_assignment name l,
    total-build_load_assignment name l ∙ counted name l,
    counted name l,
  )
