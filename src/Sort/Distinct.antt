-- ===== src/Sort/Distinct.antt =====
-- Elements with pairwise different keys, and that a rearrangement keeps them so.
use mathlib.Core.List.{Permᴰ}
use sidecar_agent.Prelude.{◌≡◌, ◌≢◌, List, [], ◌∷◌, All, ap, sym, ◌∙◌}

module _ {ℓ κ} {A : Type ℓ} {K : Type κ} (key : A → K) where
  -- No element of the list has the key `k`.
  abbrev pub Fresh : K → List A → Type κ
  Fresh k = All (λ a. key a ≢ k)

  abbrev pub Distinct : List A → Type κ
  Distinct [] = Unit
  Distinct (x ∷ xs) = Fresh (key x) xs × Distinct xs

  pub Fresh-perm : {xs ys : List A} (k : K) → Permᴰ xs ys → Fresh k xs → Fresh k ys
  Fresh-perm k Permᴰ.nil h = tt
  Fresh-perm k (Permᴰ.cons e p) h = ((λ q. h.0 (ap key e ∙ q)), Fresh-perm k p h.1)
  Fresh-perm k (Permᴰ.swap e f) h =
      ((λ q. h.1.0 (ap key f ∙ q)), ((λ q. h.0 (ap key e ∙ q)), h.1.1))
  Fresh-perm k (Permᴰ.trans p q) h = Fresh-perm k q (Fresh-perm k p h)

  Fresh-key : {a b : K} (xs : List A) → a ≡ b → Fresh a xs → Fresh b xs
  Fresh-key [] e h = tt
  Fresh-key (x ∷ xs) e h = ((λ q. h.0 (q ∙ sym e)), Fresh-key xs e h.1)

  pub Distinct-perm : {xs ys : List A} → Permᴰ xs ys → Distinct xs → Distinct ys
  Distinct-perm Permᴰ.nil h = tt
  Distinct-perm (Permᴰ.cons {l₂ = ys} e p) h =
      (Fresh-key ys (ap key e) (Fresh-perm _ p h.0), Distinct-perm p h.1)
  Distinct-perm (Permᴰ.swap {l = l} e f) h = (
    ((λ q. h.0.0 (ap key f ∙ sym q ∙ sym (ap key e))), Fresh-key l (ap key f) h.1.0),
    (Fresh-key l (ap key e) h.0.1, h.1.1),
  )
  Distinct-perm (Permᴰ.trans p q) h = Distinct-perm q (Distinct-perm p h)
