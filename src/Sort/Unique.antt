-- ===== src/Sort/Unique.antt =====
-- With different keys, sorting gives one result, whatever the order of its input.
use mathlib.Core.List.{Permᴰ}
use mathlib.Core.Path.{ap₂}
use sidecar_agent.Prelude.{◌≡◌, ◌≢◌, refl, List, [], ◌∷◌, sym, ◌∙◌, arith}
use sidecar_agent.Sort.{StrictOrder, insert_sorted, sort_by}
use sidecar_agent.Sort.Distinct.{Distinct, Distinct-perm}

module _ {ℓ κ} {A : Type ℓ} {K : Type κ} (o : StrictOrder K) (key : A → K) where
  insert_sorted_comm :
      (x y : A) (l : List A)
      → key x ≢ key y
      → insert_sorted o key x (insert_sorted o key y l)
        ≡ insert_sorted o key y (insert_sorted o key x l)
  unfolding insert_sorted
  insert_sorted_comm x y [] h =
      ground
        (arith, o.lt_total (key x) (key y), o.lt_trans (key x) (key y) (key x), o.lt_irrefl (key x))
  insert_sorted_comm x y (z ∷ zs) h = ground (
    arith,
    insert_sorted_comm x y zs h,
    o.lt_total (key x) (key y),
    o.lt_trans (key x) (key y) (key x),
    o.lt_irrefl (key x),
    o.lt_trans (key z) (key x) (key y),
    o.lt_trans (key z) (key y) (key x),
  )

  -- The order in which a Go map is iterated does not show in the sorted slice.
  pub sort_by-perm :
      {xs ys : List A} → Permᴰ xs ys → Distinct key xs → sort_by o key xs ≡ sort_by o key ys
  unfolding sort_by
  sort_by-perm Permᴰ.nil h = refl
  sort_by-perm (Permᴰ.cons e p) h = ap₂ (insert_sorted o key) e (sort_by-perm p h.1)
  sort_by-perm (Permᴰ.swap {a = a} {b = b} {l = l} e f) h =
      insert_sorted_comm a b (sort_by o key l) (λ q. h.0.0 (sym q))
      ∙ ap₂ (insert_sorted o key) f (ap₂ (insert_sorted o key) e refl)
  sort_by-perm (Permᴰ.trans p q) h = sort_by-perm p h ∙ sort_by-perm q (Distinct-perm key p h)
