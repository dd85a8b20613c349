-- ===== src/Model/Route/Extract.antt =====
-- The route prefixes of a service are those of its methods, and nothing else.
use mathlib.Core.List.Memᴰ
use mathlib.Core.Path.{subst}
use mathlib.Core.List.{Memᴰ}
use sidecar_agent.Prelude.{
  true, ◌||◌, List, [], ◌∷◌, Option, none, some, ◌≡◌, refl, sym, ◌∙◌, ap, ◌↔◌, arith, Bool-cases,
  inl, inr,
}
use sidecar_agent.Text.{Text, text_eq}
use sidecar_agent.Text.Equality.{text_eq_iff, text_eq_refl}
use sidecar_agent.Model.Strings.{contains}
use sidecar_agent.Model.Strings.Canonical.{IsClean, has_value, contains-unique_sorted_strings}
use sidecar_agent.Model.Route.{prefix_of, prefixes_of, extract_route_prefixes}
use sidecar_agent.Model.Route.Prefix.{IsPrefixOf, prefix_of_iff, IsPrefixOf-IsClean}

-- Some method of the list has the prefix `p`.
abbrev pub HasPrefix : Text → List Text → Type 0
HasPrefix p methods = (method : Text) × Memᴰ method methods × IsPrefixOf p method

later : {p m : Text} {ms : List Text} → HasPrefix p ms → HasPrefix p (m ∷ ms)
later (method, at, pre) = (method, Memᴰ.tail at, pre)

has_value-cons :
    (p q : Text) (qs : List Text)
    → IsClean q
    → has_value p (q ∷ qs) ≡ (text_eq q p || has_value p qs)
unfolding has_value
has_value-cons p q qs c = rw (c.trimmed, c.filled) refl

HasPrefix-of_value :
    (p : Text) (methods : List Text)
    → has_value p (prefixes_of methods) ≡ true
    → HasPrefix p methods
unfolding prefixes_of
HasPrefix-of_value p [] h = unfold has_value in cc
HasPrefix-of_value p (m ∷ ms) h = split (prefix_of m) refl (HasPrefix-of_value p ms)
  where
    split :
        (o : Option Text)
        → prefix_of m ≡ o
        → (has_value p (prefixes_of ms) ≡ true → HasPrefix p ms)
        → HasPrefix p (m ∷ ms)
    split none e ih = later (ih (rw (e, prefixes_of) at h))
    split (some q) e ih =
        let c : IsClean q = IsPrefixOf-IsClean q m ((prefix_of_iff m q).0 e) in
        let k : (text_eq q p || has_value p (prefixes_of ms)) ≡ true =
          sym (has_value-cons p q (prefixes_of ms) c) ∙ (rw (e, prefixes_of) at h) in
        elim (Bool-cases (text_eq q p)) [
          | inl same ↦ (
            m,
            Memᴰ.head refl,
            subst (λ z. IsPrefixOf z m) ((text_eq_iff q p).0 same) ((prefix_of_iff m q).0 e),
          )
          | inr other ↦ later (ih (ground (arith, k, other)))
        ]

value_of_HasPrefix :
    (p : Text) (methods : List Text)
    → IsClean p
    → HasPrefix p methods
    → has_value p (prefixes_of methods) ≡ true
unfolding prefixes_of
value_of_HasPrefix p [] c (method, at, pre) = absurd (Memᴰ.not-nil at)
value_of_HasPrefix p (m ∷ ms) c (method, Memᴰ.head e, pre) =
    let q : prefix_of m ≡ some p = rw (← e) ((prefix_of_iff method p).1 pre) in
    rw (q, prefixes_of)
      (has_value-cons p p (prefixes_of ms) c
        ∙ ap (λ b. b || has_value p (prefixes_of ms)) (text_eq_refl p))
value_of_HasPrefix p (m ∷ ms) c (method, Memᴰ.tail at, pre) =
    split (prefix_of m) refl (value_of_HasPrefix p ms c (method, at, pre))
  where
    split :
        (o : Option Text)
        → prefix_of m ≡ o
        → has_value p (prefixes_of ms) ≡ true
        → has_value p (prefixes_of (m ∷ ms)) ≡ true
    split none e ih = rw (e, prefixes_of) ih
    split (some q) e ih =
        rw (e, prefixes_of)
          (has_value-cons p q (prefixes_of ms) (IsPrefixOf-IsClean q m ((prefix_of_iff m q).0 e))
            ∙ ground (arith, ih))

-- `ExtractRoutePrefixes` returns `p` exactly when `p` begins with a slash and ends with another, and some
-- method, trimmed, is `p` followed by a segment without a slash.
pub extract_route_prefixes_iff :
    (p : Text) (methods : List Text)
    → (contains p (extract_route_prefixes methods) ≡ true) ↔ HasPrefix p methods
unfolding extract_route_prefixes
extract_route_prefixes_iff p methods =
    let e = contains-unique_sorted_strings p (prefixes_of methods) in
    (
      (λ h. HasPrefix-of_value p methods (sym e ∙ h)),
      (λ h. e ∙ value_of_HasPrefix p methods (IsPrefixOf-IsClean p h.0 h.2) h),
    )
