-- ===== src/Model/Strings.antt =====
-- `UniqueSortedStrings`. The map of the source is a list without repetition, in the order in which
-- its keys came in.
pub mod Canonical
use sidecar_agent.Prelude.{Bool, false, ◌||◌, List, [], ◌∷◌, ◌++◌, if◌then◌else◌, ◌≡◌, refl}
use sidecar_agent.Text.{Text, codes, text_eq, trim_space, is_empty}
use sidecar_agent.Text.Order.{text_order}
use sidecar_agent.Sort.{sort_by}

unfoldable pub contains : Text → List Text → Bool
contains t [] = false
contains t (x ∷ xs) = text_eq x t || contains t xs

-- `unique[trimmed] = struct{}{}`
unfoldable pub add_unique : Text → List Text → List Text
unfolding contains
add_unique t set = if contains t set then set else set ++ t ∷ []

-- The loop that fills the map.
unfoldable pub collect : List Text → List Text → List Text
unfolding add_unique
collect unique [] = unique
collect unique (value ∷ values) =
    let trimmed = trim_space value in
    collect (if is_empty trimmed then unique else add_unique trimmed unique) values

abbrev pub itself : Text → Text
itself t = t

unfoldable pub unique_sorted_strings : List Text → List Text
unfolding collect
unique_sorted_strings values = sort_by text_order itself (collect [] values)

test_unique :
    unique_sorted_strings (codes "b" ∷ codes " a" ∷ [] ∷ codes "b " ∷ [])
    ≡ codes "a" ∷ codes "b" ∷ []
unfolding unique_sorted_strings text_eq trim_space sort_by sidecar_agent.Text.text_lt
test_unique = refl
