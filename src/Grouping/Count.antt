-- ===== src/Grouping/Count.antt =====
-- Collecting counts every element once, whatever the keys.
use sidecar_agent.Prelude.{
  ℕ, suc, ◌+◌, Option, none, some, List, [], ◌∷◌, map, lookup, insert, ◌≡◌, refl, ◌∙◌, ap, length,
  arith, Bool-cases, inl, inr,
}
use sidecar_agent.Text.{Text, text_eq}
use sidecar_agent.Text.Equality.{text_key}
use sidecar_agent.Sort.{StrictOrder, insert_sorted, sort_by}
use sidecar_agent.Grouping.{put, collect, join, put-insert}

abbrev pub total {κ} : {G : Type κ} → (G → ℕ) → List G → ℕ
total size [] = 0
total size (g ∷ gs) = size g + total size gs

module _ {κ μ} {G : Type κ} {K : Type μ} (o : StrictOrder K) (key : G → K) (size : G → ℕ) where
  total-insert_sorted :
      (g : G) (gs : List G) → total size (insert_sorted o key g gs) ≡ size g + total size gs
  unfolding insert_sorted
  total-insert_sorted g [] = refl
  total-insert_sorted g (h ∷ gs) = elim (Bool-cases (o.lt (key h) (key g))) [
    | inl e ↦ rw e (omega (arith, total-insert_sorted g gs))
    | inr e ↦ rw e refl
  ]

  -- Sorting does not change a sum.
  pub total-sort_by : (gs : List G) → total size (sort_by o key gs) ≡ total size gs
  unfolding sort_by
  total-sort_by [] = refl
  total-sort_by (g ∷ gs) = omega (arith, total-insert_sorted g (sort_by o key gs), total-sort_by gs)

module _ {κ} {G : Type κ} (size : G → ℕ) where
  abbrev size_of : Option G → ℕ
  size_of none = 0
  size_of (some g) = size g

  total-insert :
      (k : Text) (v : G) (m : List (Text × G))
      → total size (map (λ e. e.1) (insert k v m)) + size_of (lookup k m)
        ≡ total size (map (λ e. e.1) m) + size v
  unfolding lookup insert
  total-insert k v [] = omega arith
  total-insert k v ((j, w) ∷ m) = elim (Bool-cases (text_eq j k)) [
    | inl e ↦ rw e (omega arith)
    | inr e ↦ rw e (omega (arith, total-insert k v m))
  ]

module _ {ℓ κ} {A : Type ℓ} {G : Type κ} (key : A → Text) (fresh : A → G) (add : G → A → G)
    (size : G → ℕ) where
  module _ (empty : (a : A) → size (fresh a) ≡ 0)
      (one_more : (g : G) (a : A) → size (add g a) ≡ suc (size g)) where
    size_of-join : (a : A) (g : Option G) → size (join key fresh add a g) ≡ suc (size_of size g)
    size_of-join a none = omega (arith, one_more (fresh a) a, empty a)
    size_of-join a (some g) = one_more g a

    total-put :
        (a : A) (m : List (Text × G))
        → total size (map (λ e. e.1) (put key fresh add a m)) ≡ suc (total size (map (λ e. e.1) m))
    total-put a m =
        let v = join key fresh add a (lookup (key a) m) in
        ap (λ n. total size (map (λ e. e.1) n)) (put-insert key fresh add a m)
        ∙ omega (arith, total-insert size (key a) v m, size_of-join a (lookup (key a) m))

    -- Where adding adds one, the sizes add up to the number of the elements.
    pub total-collect :
        (items : List A) (m : List (Text × G))
        → total size (map (λ e. e.1) (collect key fresh add items m))
          ≡ length items + total size (map (λ e. e.1) m)
    unfolding collect
    total-collect [] m = omega arith
    total-collect (a ∷ items) m =
        omega (arith, total-collect items (put key fresh add a m), total-put a m)
