-- ===== src/Registry/Tracked/Listed.antt =====
-- The list of local services does not show the order of the map.
use mathlib.Core.List.{Permᴰ}
use sidecar_agent.Prelude.{List, [], ◌∷◌, map, ◌≡◌, sym, ◌∙◌, ap, All}
use sidecar_agent.Prelude.Int.{ℤ}
use sidecar_agent.Sort.Distinct.{Distinct, Fresh}
use sidecar_agent.Sort.Unique.{sort_by-perm}
use sidecar_agent.Text.{Text}
use sidecar_agent.Model.Service.{LocalService}
use sidecar_agent.Registry.Consul.{Outside}
use sidecar_agent.Registry.Exec.Rules.{Services}
use sidecar_agent.Registry.Client.{Client, local_key}
use sidecar_agent.Registry.Lifecycle.{name_port}
use sidecar_agent.Registry.Lifecycle.Listing.{local_services, name_port_order, service_of}
use sidecar_agent.Registry.Tracked.{IsTracked, IsTrackedEntry, AllTracked, key_part}
use sidecar_agent.Registry.Tracked.Runs.{Op, run, run-AllTracked, new_state}

module _ (c : Client) where
  Fresh-name_port :
      (k : Text) (v : LocalService) (m : Services)
      → IsTracked c k v
      → All (IsTrackedEntry c) m
      → Fresh key_part k m
      → Fresh name_port (name_port v) (map service_of m)
  Fresh-name_port k v [] t h f = tt
  Fresh-name_port k v ((j, w) ∷ m) t h f = (
    (λ e. f.0 (h.0.key_of ∙ ap (λ (np : Text × ℤ). local_key np.0 np.1) e ∙ sym t.key_of)),
    Fresh-name_port k v m t h.1 f.1,
  )

  Distinct-name_port :
      (m : Services)
      → All (IsTrackedEntry c) m
      → Distinct key_part m
      → Distinct name_port (map service_of m)
  Distinct-name_port [] h d = tt
  Distinct-name_port ((k, v) ∷ m) h d =
      (Fresh-name_port k v m h.0 h.1 d.0, Distinct-name_port m h.1 d.1)

  map-permᴰ : {xs ys : Services} → Permᴰ xs ys → Permᴰ (map service_of xs) (map service_of ys)
  map-permᴰ Permᴰ.nil = Permᴰ.nil
  map-permᴰ (Permᴰ.cons e p) = Permᴰ.cons (ap service_of e) (map-permᴰ p)
  map-permᴰ (Permᴰ.swap e f) = Permᴰ.swap (ap service_of e) (ap service_of f)
  map-permᴰ (Permᴰ.trans p q) = Permᴰ.trans (map-permᴰ p) (map-permᴰ q)

  listing_of_AllTracked :
      (m order : Services)
      → AllTracked c m
      → Permᴰ m order
      → local_services m ≡ local_services order
  unfolding local_services
  listing_of_AllTracked m order h p =
      sort_by-perm name_port_order name_port (map-permᴰ p)
        (Distinct-name_port m h.each h.one_per_key)

-- After any sequence of operations, `LocalServices` returns the same list for every order in which Go
-- iterates over the map.
pub local_services_any_order :
    (o : Outside) (c : Client) (ops : List Op) (order : Services)
    → Permᴰ (run o c ops new_state).local_services order
    → local_services order ≡ local_services (run o c ops new_state).local_services
local_services_any_order o c ops order p =
    sym (listing_of_AllTracked c _ order (run-AllTracked o c ops) p)
