-- ===== src/Model/Route.antt =====
-- Route documents, and the prefixes that `ExtractRoutePrefixes` takes from the methods.
pub mod Equal
pub mod Prefix
pub mod Extract
use sidecar_agent.Prelude.{
  ℕ, zero, suc, Bool, true, false, ◌&&◌, Option, none, some, List, [], ◌∷◌, take, if◌then◌else◌,
  not, ◌≡◌, refl,
}
use sidecar_agent.Prelude.Int.{ℤ, eqb_int}
use sidecar_agent.Text.{Text, codes, text_eq, trim_space, has_prefix, last_index}
use sidecar_agent.Model.Strings.{unique_sorted_strings}

pub record RouteDocument : Type 0 where
  pub service : Text
  pub version : Text
  -- nanoseconds of UTC
  pub updated_at : ℕ
  pub namespace : Text
  pub port : ℤ
  pub protocol : Text
  pub prefixes : List Text
  pub exact_paths : List Text

-- `slices.Equal`
unfoldable pub texts_eq : List Text → List Text → Bool
texts_eq [] [] = true
texts_eq [] (y ∷ ys) = false
texts_eq (x ∷ xs) [] = false
texts_eq (x ∷ xs) (y ∷ ys) = text_eq x y && texts_eq xs ys

unfoldable pub canonicalize : RouteDocument → RouteDocument
canonicalize d = record d {
  prefixes = unique_sorted_strings d.prefixes;
  exact_paths = unique_sorted_strings d.exact_paths;
}

unfoldable pub equal : RouteDocument → RouteDocument → Bool
unfolding texts_eq canonicalize
equal d other =
    let left = canonicalize d in
    let right = canonicalize other in
    text_eq left.service right.service
    && text_eq left.version right.version
    && text_eq left.namespace right.namespace
    && eqb_int left.port right.port
    && text_eq left.protocol right.protocol
    && texts_eq left.prefixes right.prefixes
    && texts_eq left.exact_paths right.exact_paths

-- The part of a path through its last slash; `index <= 0` leaves nothing.
up_to_last_slash : Text → Option Text
up_to_last_slash trimmed = elim (last_index b'/' trimmed) [
  | none ↦ none
  | some zero ↦ none
  | some (suc i) ↦ some (take (suc (suc i)) trimmed)
]

-- One round of the loop of `ExtractRoutePrefixes`; `none` is `continue`.
unfoldable pub prefix_of : Text → Option Text
unfolding up_to_last_slash
prefix_of method =
    let trimmed = trim_space method in
    if not (has_prefix trimmed (codes "/")) then none else up_to_last_slash trimmed

unfoldable pub prefixes_of : List Text → List Text
prefixes_of [] = []
prefixes_of (method ∷ methods) = elim (prefix_of method) [
  | none ↦ prefixes_of methods
  | some p ↦ p ∷ prefixes_of methods
]

unfoldable pub extract_route_prefixes : List Text → List Text
unfolding prefixes_of prefix_of
extract_route_prefixes methods = unique_sorted_strings (prefixes_of methods)

test_prefixes :
    extract_route_prefixes
      (codes "/acme.Auth/Login" ∷ codes "/x" ∷ codes " /acme.Auth/Out" ∷ codes "no" ∷ [])
    ≡ codes "/acme.Auth/" ∷ []
unfolding extract_route_prefixes unique_sorted_strings text_eq trim_space has_prefix last_index
    sidecar_agent.Sort.sort_by sidecar_agent.Text.text_lt
test_prefixes = refl
