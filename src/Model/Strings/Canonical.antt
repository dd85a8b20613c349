-- ===== src/Model/Strings/Canonical.antt =====
-- `UniqueSortedStrings` returns the one ascending list of the trimmed texts that are not empty.
use mathlib.Core.List.{Permᴰ}
use mathlib.Core.Path.{ap₂}
use sidecar_agent.Prelude.{
  Bool, true, false, not, ◌&&◌, ◌||◌, List, [], ◌∷◌, ◌++◌, ◌≡◌, ◌≢◌, refl, sym, ◌∙◌, ap, arith, All,
  All-append, Bool-cases, inl, inr, ◌↔◌,
}
use sidecar_agent.Text.{Text, text_eq, text_lt, trim_space, is_empty}
use sidecar_agent.Text.Equality.{text_eq_iff, text_eq_refl}
use sidecar_agent.Text.Order.{text_order, text_lt_irrefl, text_lt_trans, text_lt_total}
use sidecar_agent.Text.Trim.{trim_space_idem}
use sidecar_agent.Sort.{sort_by}
use sidecar_agent.Sort.Sorted.{Sorted, Below, sort_by-Sorted, sort_by-permᴰ, All-sort_by}
use sidecar_agent.Sort.Distinct.{Distinct, Fresh, Distinct-perm}
use sidecar_agent.Sort.Unique.{sort_by-perm}
use sidecar_agent.Model.Strings.{contains, add_unique, collect, unique_sorted_strings, itself}

-- `t` is what is left of some value after trimming, and is not empty.
unfoldable pub has_value : Text → List Text → Bool
has_value t [] = false
has_value t (value ∷ values) =
    (not (is_empty (trim_space value)) && text_eq (trim_space value) t) || has_value t values

contains-append :
    (t : Text) (xs ys : List Text) → contains t (xs ++ ys) ≡ (contains t xs || contains t ys)
unfolding contains
contains-append t [] ys = refl
contains-append t (x ∷ xs) ys = ground (arith, contains-append t xs ys)

contains-add_unique :
    (t u : Text) (set : List Text) → contains t (add_unique u set) ≡ (contains t set || text_eq u t)
unfolding add_unique contains
contains-add_unique t u set = ground (arith, contains-append t set (u ∷ []), text_eq_iff u t)

contains-collect :
    (t : Text) (set values : List Text)
    → contains t (collect set values) ≡ (contains t set || has_value t values)
unfolding collect has_value
contains-collect t set [] = ground arith
contains-collect t set (value ∷ values) = elim (Bool-cases (is_empty (trim_space value))) [
  | inl e ↦ rw e (contains-collect t set values)
  | inr e ↦ rw e (
      ground (
        arith,
        contains-collect t (add_unique (trim_space value) set) values,
        contains-add_unique t (trim_space value) set,
      ))
]

pub contains-perm : (t : Text) {xs ys : List Text} → Permᴰ xs ys → contains t xs ≡ contains t ys
unfolding contains
contains-perm t Permᴰ.nil = refl
contains-perm t (Permᴰ.cons e p) = ground (arith, e, contains-perm t p)
contains-perm t (Permᴰ.swap e f) = ground (arith, e, f)
contains-perm t (Permᴰ.trans p q) = contains-perm t p ∙ contains-perm t q

-- A text is in the result exactly when it is a trimmed value that is not empty.
pub contains-unique_sorted_strings :
    (t : Text) (values : List Text) → contains t (unique_sorted_strings values) ≡ has_value t values
unfolding unique_sorted_strings contains
contains-unique_sorted_strings t values =
    sym (contains-perm t (sort_by-permᴰ text_order itself (collect [] values)))
    ∙ contains-collect t [] values

-- What is not in the list is fresh for it, and the other way round.
Fresh-of_not_contains : (t : Text) (xs : List Text) → contains t xs ≡ false → Fresh itself t xs
unfolding contains
Fresh-of_not_contains t [] h = tt
Fresh-of_not_contains t (x ∷ xs) h = (
  (λ e. ground (arith, h, (text_eq_iff x t).1 e)),
  Fresh-of_not_contains t xs (ground (arith, h)),
)

Fresh-snoc :
    (t u : Text) (xs : List Text) → Fresh itself t xs → u ≢ t → Fresh itself t (xs ++ u ∷ [])
Fresh-snoc t u [] h e = (e, tt)
Fresh-snoc t u (x ∷ xs) h e = (h.0, Fresh-snoc t u xs h.1 e)

Distinct-snoc :
    (u : Text) (xs : List Text)
    → contains u xs ≡ false
    → Distinct itself xs
    → Distinct itself (xs ++ u ∷ [])
unfolding contains
Distinct-snoc u [] h d = (tt, tt)
Distinct-snoc u (x ∷ xs) h d = (
  Fresh-snoc x u xs d.0 (λ e. ground (arith, h, (text_eq_iff x u).1 (sym e))),
  Distinct-snoc u xs (ground (arith, h)) d.1,
)

Distinct-add_unique :
    (u : Text) (xs : List Text) → Distinct itself xs → Distinct itself (add_unique u xs)
unfolding add_unique
Distinct-add_unique u xs d = elim (Bool-cases (contains u xs)) [
  | inl e ↦ rw e d
  | inr e ↦ rw e (Distinct-snoc u xs e d)
]

pub Distinct-collect :
    (set values : List Text) → Distinct itself set → Distinct itself (collect set values)
unfolding collect
Distinct-collect set [] d = d
Distinct-collect set (value ∷ values) d = elim (Bool-cases (is_empty (trim_space value))) [
  | inl e ↦ rw e (Distinct-collect set values d)
  | inr e ↦ rw e (
      Distinct-collect (add_unique (trim_space value) set) values
        (Distinct-add_unique (trim_space value) set d))
]

-- Strictly ascending, so without repetition.
abbrev pub Ascending : List Text → Type 0
Ascending [] = Unit
Ascending (x ∷ xs) = All (λ y. text_lt x y ≡ true) xs × Ascending xs

ascending_front :
    (x : Text) (xs : List Text)
    → Below text_order itself x xs
    → Fresh itself x xs
    → All (λ y. text_lt x y ≡ true) xs
ascending_front x [] h f = tt
ascending_front x (y ∷ ys) h f = (
  elim (Bool-cases (text_lt x y)) [ inl e ↦ e | inr e ↦ absurd (f.0 (text_lt_total y x h.0 e)) ],
  ascending_front x ys h.1 f.1,
)

Ascending-of_Sorted :
    (xs : List Text) → Sorted text_order itself xs → Distinct itself xs → Ascending xs
Ascending-of_Sorted [] s d = tt
Ascending-of_Sorted (x ∷ xs) s d = (ascending_front x xs s.0 d.0, Ascending-of_Sorted xs s.1 d.1)

-- The result is strictly ascending.
pub unique_sorted_strings-Ascending :
    (values : List Text) → Ascending (unique_sorted_strings values)
unfolding unique_sorted_strings
unique_sorted_strings-Ascending values =
    Ascending-of_Sorted _ (sort_by-Sorted text_order itself (collect [] values)) (
      Distinct-perm itself (sort_by-permᴰ text_order itself (collect [] values))
        (Distinct-collect [] values tt))

-- Whatever the order in which Go iterates over the map, the sorted slice is the same.
pub unique_sorted_strings_any_order :
    (values order : List Text)
    → Permᴰ (collect [] values) order
    → sort_by text_order itself order ≡ unique_sorted_strings values
unfolding unique_sorted_strings
unique_sorted_strings_any_order values order p =
    sym (sort_by-perm text_order itself p (Distinct-collect [] values tt))

above_not_contains :
    (t : Text) (xs : List Text) → All (λ y. text_lt t y ≡ true) xs → contains t xs ≡ false
unfolding contains
above_not_contains t [] h = refl
above_not_contains t (x ∷ xs) h =
    ground (arith, text_eq_iff x t, text_lt_irrefl t, above_not_contains t xs h.1)

All-lt_trans :
    (s t : Text) (xs : List Text)
    → text_lt s t ≡ true
    → All (λ y. text_lt t y ≡ true) xs
    → All (λ y. text_lt s y ≡ true) xs
All-lt_trans s t [] e h = tt
All-lt_trans s t (x ∷ xs) e h = (text_lt_trans s t x e h.0, All-lt_trans s t xs e h.1)

same_head :
    (x y : Text) (xs ys : List Text)
    → Ascending (x ∷ xs)
    → Ascending (y ∷ ys)
    → ((t : Text) → contains t (x ∷ xs) ≡ contains t (y ∷ ys))
    → text_lt x y ≡ false
unfolding contains
same_head x y xs ys hx hy h = elim (Bool-cases (text_lt x y)) [
  | inl e ↦ ground (
    arith,
    h x,
    text_eq_refl x,
    text_eq_iff y x,
    text_lt_irrefl x,
    above_not_contains x ys (All-lt_trans x y ys e hy.0),
  )
  | inr e ↦ e
]

same_tail :
    (x y : Text) (xs ys : List Text)
    → x ≡ y
    → Ascending (x ∷ xs)
    → Ascending (y ∷ ys)
    → ((t : Text) → contains t (x ∷ xs) ≡ contains t (y ∷ ys))
    → (t : Text) → contains t xs ≡ contains t ys
unfolding contains
same_tail x y xs ys e hx hy h t = ground (
  arith,
  h t,
  text_eq_iff x t,
  text_eq_iff y t,
  above_not_contains x xs hx.0,
  above_not_contains y ys hy.0,
)

-- Two ascending lists with the same members are one list.
pub Ascending-ext :
    (xs ys : List Text)
    → Ascending xs
    → Ascending ys
    → ((t : Text) → contains t xs ≡ contains t ys)
    → xs ≡ ys
unfolding contains
Ascending-ext [] [] hx hy h = refl
Ascending-ext [] (y ∷ ys) hx hy h = ground (arith, h y, text_eq_refl y)
Ascending-ext (x ∷ xs) [] hx hy h = ground (arith, h x, text_eq_refl x)
Ascending-ext (x ∷ xs) (y ∷ ys) hx hy h =
    let e : x ≡ y =
      text_lt_total x y (same_head x y xs ys hx hy h)
        (same_head y x ys xs hy hx (λ t. sym (h t))) in
    ap₂ (λ z zs. z ∷ zs) e (Ascending-ext xs ys hx.1 hy.1 (same_tail x y xs ys e hx hy h))

-- Two lists of values give one result exactly when they hold the same trimmed texts: order,
-- repetition, surrounding blanks and empty values do not count.
pub unique_sorted_strings-eq_iff :
    (values others : List Text)
    → (unique_sorted_strings values ≡ unique_sorted_strings others)
      ↔ ((t : Text) → has_value t values ≡ has_value t others)
unique_sorted_strings-eq_iff values others = (
  (λ e t.
      sym (contains-unique_sorted_strings t values)
      ∙ ap (contains t) e
      ∙ contains-unique_sorted_strings t others),
  (λ h.
      Ascending-ext _ _ (unique_sorted_strings-Ascending values)
        (unique_sorted_strings-Ascending others)
        (λ t.
          contains-unique_sorted_strings t values
          ∙ h t
          ∙ sym (contains-unique_sorted_strings t others))),
)

-- A text that trimming leaves alone and that is not empty.
pub record IsClean (t : Text) : Type 0 where
  pub trimmed : trim_space t ≡ t
  pub filled : is_empty t ≡ false

All-add_unique :
    (P : Text → Type 0) (u : Text) (xs : List Text) → P u → All P xs → All P (add_unique u xs)
unfolding add_unique
All-add_unique P u xs p h = elim (Bool-cases (contains u xs)) [
  | inl e ↦ rw e h
  | inr e ↦ rw e (All-append P xs (u ∷ []) h (p, tt))
]

IsClean-collect : (set values : List Text) → All IsClean set → All IsClean (collect set values)
unfolding collect
IsClean-collect set [] h = h
IsClean-collect set (value ∷ values) h = elim (Bool-cases (is_empty (trim_space value))) [
  | inl e ↦ rw e (IsClean-collect set values h)
  | inr e ↦ rw e (
      IsClean-collect (add_unique (trim_space value) set) values (
        All-add_unique IsClean (trim_space value) set
          (record { trimmed = trim_space_idem value; filled = e }) h))
]

pub unique_sorted_strings-IsClean :
    (values : List Text) → All IsClean (unique_sorted_strings values)
unfolding unique_sorted_strings
unique_sorted_strings-IsClean values =
    All-sort_by text_order itself IsClean (collect [] values) (IsClean-collect [] values tt)

has_value_of_IsClean : (t : Text) (xs : List Text) → All IsClean xs → has_value t xs ≡ contains t xs
unfolding has_value contains
has_value_of_IsClean t [] h = refl
has_value_of_IsClean t (x ∷ xs) h =
    ground (arith, h.0.trimmed, h.0.filled, has_value_of_IsClean t xs h.1)

-- What is clean and ascending already is its own result.
pub unique_sorted_strings_fixed :
    (xs : List Text) → All IsClean xs → Ascending xs → unique_sorted_strings xs ≡ xs
unique_sorted_strings_fixed xs c a =
    Ascending-ext _ xs (unique_sorted_strings-Ascending xs) a
      (λ t. contains-unique_sorted_strings t xs ∙ has_value_of_IsClean t xs c)

-- Once is enough.
pub unique_sorted_strings_idem :
    (values : List Text)
    → unique_sorted_strings (unique_sorted_strings values) ≡ unique_sorted_strings values
unique_sorted_strings_idem values =
    unique_sorted_strings_fixed _ (unique_sorted_strings-IsClean values)
      (unique_sorted_strings-Ascending values)
