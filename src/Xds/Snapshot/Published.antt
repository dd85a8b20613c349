-- ===== src/Xds/Snapshot/Published.antt =====
-- `Build`: what a published snapshot holds, and what a refused one leaves.
use sidecar_agent.Prelude.{
  ℕ, ◌+◌, ◌%◌, ◌^◌, ◌<◌, none, List, [], ◌∷◌, ◌++◌, map, length, length-append, ◌≡◌, refl, sym, ◌∙◌,
  ap, arith,
}
use sidecar_agent.Text.{Text}
use sidecar_agent.Grouping.Count.{total}
use sidecar_agent.Model.Error.{Error, ok, err}
use sidecar_agent.Model.Service.{ServiceInstance}
use sidecar_agent.Xds.Snapshot.{
  Builder, Summary, ServiceGroup, group_instances, cluster_name, Cluster, build_cluster,
  VirtualHost, build_virtual_host, ClusterLoadAssignment, build_load_assignment,
}
use sidecar_agent.Xds.Snapshot.Groups.{total-group_instances}
use sidecar_agent.Xds.Snapshot.Endpoints.{count_instances_lem}
use sidecar_agent.Xds.Snapshot.Build.{
  Envoy, Listener, listener_at, Resources, no_resources, add_group, add_groups, Snapshot,
  build_listener, snapshot_of, summary_of, publish, build,
}

abbrev cluster_names : List Cluster → List Text
cluster_names = map (λ c. c.name)

abbrev routed : List VirtualHost → List Text
routed = map (λ v. v.cluster)

abbrev assigned : List ClusterLoadAssignment → List Text
assigned = map (λ a. a.cluster_name)

-- Routes and endpoints name the clusters, in the same order.
pub record IsClosed (r : Resources) : Type 0 where
  pub routes : routed r.virtual_hosts ≡ cluster_names r.clusters
  pub assignments : assigned r.endpoints ≡ cluster_names r.clusters

map-append {ℓ κ} :
    {A : Type ℓ} {B : Type κ} (f : A → B) (xs ys : List A) → map f (xs ++ ys) ≡ map f xs ++ map f ys
map-append f [] ys = refl
map-append f (x ∷ xs) ys = ap (λ l. f x ∷ l) (map-append f xs ys)

module _ (b : Builder) where
  add_group-IsClosed : (r : Resources) (g : ServiceGroup) → IsClosed r → IsClosed (add_group b r g)
  unfolding build_cluster build_virtual_host build_load_assignment
  add_group-IsClosed r g h =
      let name = cluster_name b g.name g.namespace g.port in
      let cluster = build_cluster b name in
      let clusters = map-append (λ c. c.name) r.clusters (cluster ∷ []) in
      record {
        routes =
            map-append (λ v. v.cluster) r.virtual_hosts
              (build_virtual_host b name g.dns g.port ∷ [])
            ∙ ap (λ l. l ++ name ∷ []) h.routes
            ∙ sym clusters;
        assignments =
            map-append (λ a. a.cluster_name) r.endpoints
              ((build_load_assignment b name g.instances).0 ∷ [])
            ∙ ap (λ l. l ++ name ∷ []) h.assignments
            ∙ sym clusters;
      }

  pub add_groups-IsClosed :
      (r : Resources) (gs : List ServiceGroup) → IsClosed r → IsClosed (add_groups b r gs)
  unfolding add_groups
  add_groups-IsClosed r [] h = h
  add_groups-IsClosed r (g ∷ gs) h =
      add_groups-IsClosed (add_group b r g) gs (add_group-IsClosed r g h)

  counted :
      (name : Text) (g : ServiceGroup)
      → (build_load_assignment b name g.instances).1 ≡ length g.instances
  unfolding build_load_assignment
  counted name g = count_instances_lem b g.instances

  endpoint_count-add_groups :
      (r : Resources) (gs : List ServiceGroup)
      → (add_groups b r gs).endpoint_count ≡ r.endpoint_count + total (λ g. length g.instances) gs
  unfolding add_groups
  endpoint_count-add_groups r [] = omega arith
  endpoint_count-add_groups r (g ∷ gs) = omega (
    arith,
    endpoint_count-add_groups (add_group b r g) gs,
    counted (cluster_name b g.name g.namespace g.port) g,
  )

  cluster_count-add_groups :
      (r : Resources) (gs : List ServiceGroup)
      → length (add_groups b r gs).clusters ≡ length r.clusters + length gs
  unfolding add_groups
  cluster_count-add_groups r [] = omega arith
  cluster_count-add_groups r (g ∷ gs) =
      let cluster = build_cluster b (cluster_name b g.name g.namespace g.port) in
      omega (
        arith,
        cluster_count-add_groups (add_group b r g) gs,
        length-append r.clusters (cluster ∷ []),
      )

-- A snapshot and its summary, published after a builder's state.
pub record IsPublished (b : Builder) (instances : List ServiceInstance) (after : Builder)
    (s : Snapshot) (u : Summary) : Type 0 where
  -- the next version, and the counter keeps it
  pub next_version : u.version ≡ b.version + 1
  pub kept_version : after.version ≡ u.version
  pub kept_summary : after.summary ≡ u
  -- one cluster for each group, one endpoint for each instance
  pub clusters : u.cluster_count ≡ length (group_instances instances)
  pub endpoints : u.endpoint_count ≡ length instances
  -- no route and no assignment names a cluster that is not there
  pub routes : routed s.route_config.virtual_hosts ≡ cluster_names s.clusters
  pub assignments : assigned s.endpoints ≡ cluster_names s.clusters
  pub route_name : s.route_config.name ≡ s.listener.route_config_name

module _ (y : Envoy) (b : Builder) (instances : List ServiceInstance) (now : ℕ) where
  abbrev pub Publishes : Type 0
  Publishes =
      (after : Builder) × (s : Snapshot) × (u : Summary) × (build y b instances now
        ≡ (after, ok (s, u)))
      × IsPublished b instances after s u

  listens :
      (host port : Text)
      → y.split_host_port b.settings.listener_address ≡ ok (host, port)
      → build_listener y b ≡ ok (listener_at b host port)
  unfolding build_listener
  listens host port split = rw (split, build_listener) refl

  publishes :
      (r : Resources) (listener : Listener)
      → ((s : Snapshot) → y.new_snapshot s ≡ none)
      → ((s : Snapshot) → y.consistent s ≡ none)
      → publish y b r listener now ≡ (
        record b {
          version = (b.version + 1) % 2 ^ 64;
          summary = summary_of y b ((b.version + 1) % 2 ^ 64) r now;
        },
        ok (
          snapshot_of y b ((b.version + 1) % 2 ^ 64) r listener,
          summary_of y b ((b.version + 1) % 2 ^ 64) r now,
        ),
      )
  unfolding publish
  publishes r listener accepts closed =
      let s = snapshot_of y b ((b.version + 1) % 2 ^ 64) r listener in
      rw (accepts s, closed s, publish) refl

  builds :
      (host port : Text)
      → y.split_host_port b.settings.listener_address ≡ ok (host, port)
      → build y b instances now
        ≡ publish y b
            (add_groups b no_resources (group_instances instances))
            (listener_at b host port)
            now
  unfolding build
  builds host port split = rw (listens host port split, build) refl

  -- Where the listening address splits, the control plane takes every snapshot and the counter is below
  -- 2^64 - 1, a build publishes the next version: one cluster for each group and one endpoint for each
  -- instance are counted, every route and every load assignment names a cluster of the snapshot, the
  -- listener asks for the route configuration that is there, and the summary is kept.
  pub build-Publishes :
      (host port : Text)
      → y.split_host_port b.settings.listener_address ≡ ok (host, port)
      → ((s : Snapshot) → y.new_snapshot s ≡ none)
      → ((s : Snapshot) → y.consistent s ≡ none)
      → b.version + 1 < 2 ^ 64
      → Publishes
  build-Publishes host port split accepts closed small =
      let groups = group_instances instances in
      let r = add_groups b no_resources groups in
      let u = summary_of y b (b.version + 1) r now in
      let s = snapshot_of y b (b.version + 1) r (listener_at b host port) in
      let links : IsClosed r =
        add_groups-IsClosed b no_resources groups (record { routes = refl; assignments = refl }) in
      let no_wrap : (b.version + 1) % 2 ^ 64 ≡ b.version + 1 = omega (arith, small) in
      (
        record b { version = b.version + 1; summary = u },
        s,
        u,
        builds host port split
            ∙ publishes r (listener_at b host port) accepts closed
            ∙ ap
                (λ n. (
                  record b { version = n; summary = summary_of y b n r now },
                  ok (snapshot_of y b n r (listener_at b host port), summary_of y b n r now),
                ))
                no_wrap,
        record {
          next_version = refl;
          kept_version = refl;
          kept_summary = refl;
          clusters = omega (arith, cluster_count-add_groups b no_resources groups);
          endpoints = omega (
            arith,
            endpoint_count-add_groups b no_resources groups,
            total-group_instances instances,
          );
          routes = links.routes;
          assignments = links.assignments;
          route_name = refl;
        },
      )

  -- A build that ends with an error leaves the summary of the last published snapshot as it is.
  pub build_error :
      (e : Error)
      → (build y b instances now).1 ≡ err e
      → (build y b instances now).0.summary ≡ b.summary
  unfolding build publish build_listener
  build_error e h = ground (arith, h)
