-- ===== src/Examples/Publishing.antt =====
-- Examples of snapshots and refreshes.
use sidecar_agent.Prelude.{ℕ, List, [], ◌∷◌, refl, some, none, arith}
use sidecar_agent.Prelude.Int.{pos}
use sidecar_agent.Text.{Text, codes}
use sidecar_agent.Model.Error.{Result, ok, external}
use sidecar_agent.Model.Service.{ServiceInstance}
use sidecar_agent.Xds.Snapshot.{BuilderSettings, Builder, new_builder, build_load_assignment}
use sidecar_agent.Xds.Snapshot.Endpoints.{IsAssignment, build_load_assignment_lem}
use sidecar_agent.Xds.Snapshot.Priority.{Ordered, build_load_assignment-Ordered}
use sidecar_agent.Xds.Snapshot.Build.{Envoy}
use sidecar_agent.Xds.Snapshot.Published.{Publishes, build-Publishes}
use sidecar_agent.Discovery.{new_watcher, Round}
use sidecar_agent.Discovery.Spacing.{Spaced, publications, publications-Spaced}
use sidecar_agent.Examples.{instance_in}

abbrev pub instances : List ServiceInstance
instances =
    instance_in (codes "i1") (codes "z1") (codes "c1")
    ∷ instance_in (codes "i2") (codes "z2") (codes "c1")
    ∷ instance_in (codes "i3") (codes "z1") (codes "c2")
    ∷ []

abbrev builder_settings : BuilderSettings
builder_settings = record {
  node_id = codes "node";
  listener_address = codes "127.0.0.1:15000";
  route_name = codes "local-route";
  cluster_name_prefix = [];
  local_cluster = codes "c1";
  default_timeout = pos 5;
  retry_attempts = 2;
  per_try_timeout = pos 2;
  max_connections = 100;
  max_pending_requests = 100;
  max_requests = 100;
  consecutive_5xx = 5;
  base_ejection_time = pos 30;
  max_ejection_percent = 50;
}

abbrev pub builder : Builder
builder = record (new_builder builder_settings) { version = 3 }

abbrev pub envoy : Envoy
envoy = record {
  split_host_port = λ a. ok (codes "127.0.0.1", codes "15000");
  new_snapshot = λ s. none;
  consistent = λ s. none;
}

-- A control plane that takes nothing.
abbrev refusing : Envoy
refusing = record envoy { consistent = λ s. some (external (codes "inconsistent")) }

build_load_assignment_lem_example :
    IsAssignment builder instances (build_load_assignment builder (codes "orders") instances)
build_load_assignment_lem_example = build_load_assignment_lem builder (codes "orders") instances

build_load_assignment-Ordered_example :
    Ordered (build_load_assignment builder (codes "orders") instances).0.endpoints
build_load_assignment-Ordered_example =
    build_load_assignment-Ordered builder (codes "orders") instances

build-Publishes_example : Publishes envoy builder instances 9
unfolding new_builder
build-Publishes_example =
    build-Publishes envoy builder instances 9 (codes "127.0.0.1") (codes "15000") refl (λ s. refl)
      (λ s. refl) (omega arith)

abbrev hash : List ServiceInstance → Result Text
hash [] = ok (codes "none")
hash (i ∷ l) = ok i.instance_id

abbrev rounds : List Round
rounds =
    record { found = ok instances; since = 10; now = 11 }
    ∷ record { found = ok []; since = 12; now = 12 }
    ∷ record { found = ok []; since = 40; now = 41 }
    ∷ []

publications-Spaced_example :
    Spaced hash
      (λ l (n : ℕ). (none, n))
      (pos 20)
      []
      none
      (publications hash (λ l (n : ℕ). (none, n)) (new_watcher (pos 20)) 0 rounds)
unfolding new_watcher
publications-Spaced_example =
    publications-Spaced hash (λ l n. (none, n)) (new_watcher (pos 20)) 0 rounds
      (omega arith, (omega arith, (omega arith, tt)))
