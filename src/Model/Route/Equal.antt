-- ===== src/Model/Route/Equal.antt =====
-- What `RouteDocument.Equal` compares.
use sidecar_agent.Prelude.{true, List, [], ◌∷◌, ◌≡◌, refl, ◌↔◌, arith}
use sidecar_agent.Prelude.Int.{eqb_int_iff}
use sidecar_agent.Text.{Text}
use sidecar_agent.Text.Equality.{text_eq_iff}
use sidecar_agent.Model.Strings.{unique_sorted_strings}
use sidecar_agent.Model.Strings.Canonical.{has_value, unique_sorted_strings-eq_iff}
use sidecar_agent.Model.Route.{RouteDocument, texts_eq, equal}

pub texts_eq_iff : (xs ys : List Text) → (texts_eq xs ys ≡ true) ↔ (xs ≡ ys)
unfolding texts_eq
texts_eq_iff [] [] = ((λ h. refl), (λ h. refl))
texts_eq_iff [] (y ∷ ys) = ((λ h. cc), (λ h. cc))
texts_eq_iff (x ∷ xs) [] = ((λ h. cc), (λ h. cc))
texts_eq_iff (x ∷ xs) (y ∷ ys) = (
  (λ h. ground (arith, text_eq_iff x y, texts_eq_iff xs ys)),
  (λ h. ground (arith, text_eq_iff x y, texts_eq_iff xs ys)),
)

-- Two documents say the same: the times of writing do not count, nor do the order, the repetition
-- and the surrounding blanks of prefixes and paths.
pub record SameRoutes (d other : RouteDocument) : Type 0 where
  pub service : d.service ≡ other.service
  pub version : d.version ≡ other.version
  pub namespace : d.namespace ≡ other.namespace
  pub port : d.port ≡ other.port
  pub protocol : d.protocol ≡ other.protocol
  pub prefixes : (t : Text) → has_value t d.prefixes ≡ has_value t other.prefixes
  pub exact_paths : (t : Text) → has_value t d.exact_paths ≡ has_value t other.exact_paths

equal_parts :
    (d other : RouteDocument)
    → equal d other ≡ true
    → (d.service ≡ other.service)
      × (d.version ≡ other.version)
      × (d.namespace ≡ other.namespace)
      × (d.port ≡ other.port)
      × (d.protocol ≡ other.protocol)
      × (unique_sorted_strings d.prefixes ≡ unique_sorted_strings other.prefixes)
      × (unique_sorted_strings d.exact_paths ≡ unique_sorted_strings other.exact_paths)
unfolding equal
equal_parts d other h = ground (
  arith,
  text_eq_iff d.service other.service,
  text_eq_iff d.version other.version,
  text_eq_iff d.namespace other.namespace,
  eqb_int_iff d.port other.port,
  text_eq_iff d.protocol other.protocol,
  texts_eq_iff (unique_sorted_strings d.prefixes) (unique_sorted_strings other.prefixes),
  texts_eq_iff (unique_sorted_strings d.exact_paths) (unique_sorted_strings other.exact_paths),
)

SameRoutes-of_equal : (d other : RouteDocument) → equal d other ≡ true → SameRoutes d other
SameRoutes-of_equal d other h =
    let (service, version, namespace, port, protocol, prefixes, paths) = equal_parts d other h in
    record {
      service = service;
      version = version;
      namespace = namespace;
      port = port;
      protocol = protocol;
      prefixes = (unique_sorted_strings-eq_iff d.prefixes other.prefixes).0 prefixes;
      exact_paths = (unique_sorted_strings-eq_iff d.exact_paths other.exact_paths).0 paths;
    }

equal_of_SameRoutes : (d other : RouteDocument) → SameRoutes d other → equal d other ≡ true
unfolding equal
equal_of_SameRoutes d other s = ground (
  arith,
  text_eq_iff d.service other.service,
  text_eq_iff d.version other.version,
  text_eq_iff d.namespace other.namespace,
  eqb_int_iff d.port other.port,
  text_eq_iff d.protocol other.protocol,
  texts_eq_iff (unique_sorted_strings d.prefixes) (unique_sorted_strings other.prefixes),
  texts_eq_iff (unique_sorted_strings d.exact_paths) (unique_sorted_strings other.exact_paths),
  (unique_sorted_strings-eq_iff d.prefixes other.prefixes).1 s.prefixes,
  (unique_sorted_strings-eq_iff d.exact_paths other.exact_paths).1 s.exact_paths,
)

-- `Equal` holds exactly when the two documents name one service, version, namespace, port and
-- protocol, and have the same trimmed prefixes and paths, whatever their order and repetition and
-- whatever the two times of writing.
pub equal_iff : (d other : RouteDocument) → (equal d other ≡ true) ↔ SameRoutes d other
equal_iff d other = (SameRoutes-of_equal d other, equal_of_SameRoutes d other)
