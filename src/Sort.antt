-- ===== src/Sort.antt =====
-- `slices.SortFunc` and `sort.Strings` by a key under a strict order. The library's algorithm is
-- not fixed by its documentation; insertion sort stands for it, and for elements with different
-- keys the result is the only sorted arrangement.
pub mod Distinct
pub mod Unique
pub mod Sorted
use sidecar_agent.Prelude.{◌≡◌, Bool, true, false, List, [], ◌∷◌, if◌then◌else◌}

pub record StrictOrder {ℓ} (K : Type ℓ) : Type ℓ where
  pub lt : K → K → Bool
  pub lt_irrefl : (a : K) → lt a a ≡ false
  pub lt_trans : (a b c : K) → lt a b ≡ true → lt b c ≡ true → lt a c ≡ true
  pub lt_total : (a b : K) → lt a b ≡ false → lt b a ≡ false → a ≡ b

module _ {ℓ κ} {A : Type ℓ} {K : Type κ} (o : StrictOrder K) (key : A → K) where
  unfoldable pub insert_sorted : A → List A → List A
  insert_sorted x [] = x ∷ []
  insert_sorted x (y ∷ ys) =
      let rest = insert_sorted x ys in if o.lt (key y) (key x) then y ∷ rest else x ∷ y ∷ ys

  unfoldable pub sort_by : List A → List A
  unfolding insert_sorted
  sort_by [] = []
  sort_by (x ∷ xs) = insert_sorted x (sort_by xs)
