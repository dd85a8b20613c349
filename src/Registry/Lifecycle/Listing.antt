-- ===== src/Registry/Lifecycle/Listing.antt =====
-- `LocalServices` orders its copy of the map by name and port.
use sidecar_agent.Prelude.{true, false, List, map, ◌≡◌, arith}
use sidecar_agent.Prelude.Int.{ℤ, ltb_int_irrefl, ltb_int_trans, ltb_int_total}
use sidecar_agent.Sort.{StrictOrder, sort_by}
use sidecar_agent.Text.{Text}
use sidecar_agent.Text.Equality.{text_eq_iff, text_eq_refl}
use sidecar_agent.Text.Order.{text_lt_irrefl, text_lt_trans, text_lt_total}
use sidecar_agent.Model.Service.{LocalService}
use sidecar_agent.Registry.Lifecycle.{name_port_lt, name_port}

pub name_port_irrefl : (a : Text × ℤ) → name_port_lt a a ≡ false
unfolding name_port_lt
name_port_irrefl (n, p) = ground (arith, text_eq_refl n, ltb_int_irrefl p)

pub name_port_trans :
    (a b c : Text × ℤ) → name_port_lt a b ≡ true → name_port_lt b c ≡ true → name_port_lt a c ≡ true
unfolding name_port_lt
name_port_trans (n, p) (m, q) (l, r) h k = ground (
  arith,
  text_eq_iff n m,
  text_eq_iff m l,
  text_eq_iff n l,
  text_lt_trans n m l,
  text_lt_trans n m n,
  text_lt_irrefl n,
  ltb_int_trans p q r,
)

pub name_port_total : (a b : Text × ℤ) → name_port_lt a b ≡ false → name_port_lt b a ≡ false → a ≡ b
unfolding name_port_lt
name_port_total (n, p) (m, q) h k =
    ground (arith, text_eq_iff n m, text_eq_iff m n, text_lt_total n m, ltb_int_total p q)

abbrev pub name_port_order : StrictOrder (Text × ℤ)
name_port_order = record {
  lt = name_port_lt;
  lt_irrefl = name_port_irrefl;
  lt_trans = name_port_trans;
  lt_total = name_port_total;
}

abbrev pub service_of : Text × LocalService → LocalService
service_of e = e.1

-- `LocalServices`, for the entries of the map in the order in which Go iterates.
unfoldable pub local_services : List (Text × LocalService) → List LocalService
local_services entries = sort_by name_port_order name_port (map service_of entries)
