-- ===== src/Sort/Sorted.antt =====
-- Sorting yields an ordered rearrangement.
use mathlib.Core.List.Permᴰ
use mathlib.Core.List.{Permᴰ}
use sidecar_agent.Prelude.{◌≡◌, refl, List, [], ◌∷◌, arith, false, All, Bool-cases, inl, inr}
use sidecar_agent.Sort.{StrictOrder, insert_sorted, sort_by}

module _ {ℓ κ} {A : Type ℓ} {K : Type κ} (o : StrictOrder K) (key : A → K) where
  -- `k` is not above any element.
  abbrev pub Below : K → List A → Type 0
  Below k = All (λ a. o.lt (key a) k ≡ false)

  abbrev pub Sorted : List A → Type 0
  Sorted [] = Unit
  Sorted (x ∷ xs) = Below (key x) xs × Sorted xs

  All-insert_sorted {μ} :
      (P : A → Type μ) (x : A) (l : List A) → P x → All P l → All P (insert_sorted o key x l)
  unfolding insert_sorted
  All-insert_sorted P x [] p h = (p, tt)
  All-insert_sorted P x (y ∷ ys) p h = elim (Bool-cases (o.lt (key y) (key x))) [
    | inl e ↦ rw e (h.0, All-insert_sorted P x ys p h.1)
    | inr e ↦ rw e (p, (h.0, h.1))
  ]

  -- What holds of every element still does after sorting.
  pub All-sort_by {μ} : (P : A → Type μ) (l : List A) → All P l → All P (sort_by o key l)
  unfolding sort_by
  All-sort_by P [] h = tt
  All-sort_by P (x ∷ xs) h = All-insert_sorted P x (sort_by o key xs) h.0 (All-sort_by P xs h.1)

  -- Nothing that `k` is not above is below a smaller key.
  Below-mono : (j k : K) (l : List A) → o.lt k j ≡ false → Below k l → Below j l
  Below-mono j k [] e h = tt
  Below-mono j k (x ∷ xs) e h =
      (ground (arith, h.0, o.lt_trans (key x) j k, o.lt_total j k), Below-mono j k xs e h.1)

  insert_sorted-Sorted : (x : A) (l : List A) → Sorted l → Sorted (insert_sorted o key x l)
  unfolding insert_sorted
  insert_sorted-Sorted x [] h = (tt, tt)
  insert_sorted-Sorted x (y ∷ ys) h = elim (Bool-cases (o.lt (key y) (key x))) [
    | inl e ↦ rw e (
      All-insert_sorted (λ a. o.lt (key a) (key y) ≡ false) x ys
          (ground (arith, e, o.lt_trans (key x) (key y) (key x), o.lt_irrefl (key x))) h.0,
      insert_sorted-Sorted x ys h.1,
    )
    | inr e ↦ rw e ((e, Below-mono (key x) (key y) ys e h.0), h)
  ]

  -- A sorted slice is in order.
  pub sort_by-Sorted : (l : List A) → Sorted (sort_by o key l)
  unfolding sort_by
  sort_by-Sorted [] = tt
  sort_by-Sorted (x ∷ xs) = insert_sorted-Sorted x (sort_by o key xs) (sort_by-Sorted xs)

  insert_sorted-permᴰ : (x : A) (l : List A) → Permᴰ (x ∷ l) (insert_sorted o key x l)
  unfolding insert_sorted
  insert_sorted-permᴰ x [] = Permᴰ.cons refl Permᴰ.nil
  insert_sorted-permᴰ x (y ∷ ys) = elim (Bool-cases (o.lt (key y) (key x))) [
    | inl e ↦ rw e (Permᴰ.trans (Permᴰ.swap refl refl) (Permᴰ.cons refl (insert_sorted-permᴰ x ys)))
    | inr e ↦ rw e (Permᴰ.refl (x ∷ y ∷ ys))
  ]

  -- Sorting rearranges: nothing is lost, nothing is added.
  pub sort_by-permᴰ : (l : List A) → Permᴰ l (sort_by o key l)
  unfolding sort_by
  sort_by-permᴰ [] = Permᴰ.nil
  sort_by-permᴰ (x ∷ xs) =
      Permᴰ.trans (Permᴰ.cons refl (sort_by-permᴰ xs)) (insert_sorted-permᴰ x (sort_by o key xs))

  insert_sorted_front : (x : A) (l : List A) → Below (key x) l → insert_sorted o key x l ≡ x ∷ l
  unfolding insert_sorted
  insert_sorted_front x [] h = refl
  insert_sorted_front x (y ∷ ys) h = rw h.0

  -- What is in order stays as it is.
  pub sort_by-of_Sorted : (l : List A) → Sorted l → sort_by o key l ≡ l
  unfolding sort_by
  sort_by-of_Sorted [] h = refl
  sort_by-of_Sorted (x ∷ xs) h = rw (sort_by-of_Sorted xs h.1) (insert_sorted_front x xs h.0)
