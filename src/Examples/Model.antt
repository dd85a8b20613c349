-- ===== src/Examples/Model.antt =====
-- Examples of requests, routes and strings.
use mathlib.Core.List.Permᴰ
use sidecar_agent.Prelude.{[], ◌∷◌, ◌≡◌, ◌↔◌, true}
use sidecar_agent.Prelude.Int.{pos}
use sidecar_agent.Text.{Text, codes}
use sidecar_agent.Model.Route.{RouteDocument, equal, extract_route_prefixes}
use sidecar_agent.Model.Route.Equal.{SameRoutes, equal_iff}
use sidecar_agent.Model.Route.Extract.{HasPrefix, extract_route_prefixes_iff}
use sidecar_agent.Model.Strings.{contains, unique_sorted_strings}
use sidecar_agent.Model.Strings.Canonical.{has_value, unique_sorted_strings-eq_iff}
use sidecar_agent.Examples.{orders}

extract_route_prefixes_iff_example :
    (contains (codes "/shop.Orders/") (extract_route_prefixes orders.methods) ≡ true)
    ↔ HasPrefix (codes "/shop.Orders/") orders.methods
extract_route_prefixes_iff_example =
    extract_route_prefixes_iff (codes "/shop.Orders/") orders.methods

abbrev document : RouteDocument
document = record {
  service = codes "orders";
  version = codes "v1";
  updated_at = 5;
  namespace = codes "eu";
  port = pos 9000;
  protocol = codes "grpc";
  prefixes = codes "/shop.Orders/" ∷ [];
  exact_paths = [];
}

abbrev later_document : RouteDocument
later_document = record document {
  updated_at = 6;
  prefixes = codes " /shop.Orders/" ∷ codes "/shop.Orders/" ∷ [];
}

equal_iff_example : (equal document later_document ≡ true) ↔ SameRoutes document later_document
equal_iff_example = equal_iff document later_document

unique_sorted_strings-eq_iff_example :
    (unique_sorted_strings (codes "b" ∷ codes " a" ∷ [])
      ≡ unique_sorted_strings (codes "a" ∷ codes "b" ∷ codes "a" ∷ []))
    ↔ ((t : Text)
        → has_value t (codes "b" ∷ codes " a" ∷ [])
          ≡ has_value t (codes "a" ∷ codes "b" ∷ codes "a" ∷ []))
unique_sorted_strings-eq_iff_example =
    unique_sorted_strings-eq_iff (codes "b" ∷ codes " a" ∷ [])
      (codes "a" ∷ codes "b" ∷ codes "a" ∷ [])
