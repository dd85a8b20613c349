-- ===== src/Grouping.antt =====
-- A loop that collects the elements of a slice in a Go map of pointers: on a key not seen before it
-- stores a fresh value, then it adds the element to the value under the key.
pub mod Count
pub mod Values
use sidecar_agent.Prelude.{
  ℕ, ◌+◌, Option, none, some, List, [], ◌∷◌, map, lookup, insert, lookup-insert, if◌then◌else◌, ◌≡◌,
  refl, sym, ◌∙◌, ap, Bool, true, false, length, arith, Bool-cases, inl, inr, All, All-mono, ◌⊎◌,
}
use sidecar_agent.Text.{Text, text_eq}
use sidecar_agent.Text.Equality.{text_key, text_eq_iff, text_eq_refl}

module _ {ℓ κ} {A : Type ℓ} {G : Type κ} (key : A → Text) (fresh : A → G) (add : G → A → G) where
  -- `if _, ok := m[key]; !ok { m[key] = fresh }`, then the update through the pointer.
  unfoldable pub put : A → List (Text × G) → List (Text × G)
  put a m = elim (lookup (key a) m) [
    | none ↦ insert (key a) (add (fresh a) a) m
    | some g ↦ insert (key a) (add g a) m
  ]

  unfoldable pub collect : List A → List (Text × G) → List (Text × G)
  collect [] m = m
  collect (a ∷ items) m = collect items (put a m)

  abbrev pub join : A → Option G → G
  join a none = add (fresh a) a
  join a (some g) = add g a

  -- What the elements with a key make of the value under it.
  abbrev pub gathered : Text → List A → Option G → Option G
  gathered k [] g = g
  gathered k (a ∷ items) g =
      if text_eq (key a) k then gathered k items (some (join a g)) else gathered k items g

  pub put-insert :
      (a : A) (m : List (Text × G)) → put a m ≡ insert (key a) (join a (lookup (key a) m)) m
  unfolding put
  put-insert a m =
      elim (lookup (key a) m)
        as (λ found.
          Path (List (Text × G))
            (elim found [
              | none ↦ insert (key a) (add (fresh a) a) m
              | some g ↦ insert (key a) (add g a) m
            ])
            (insert (key a) (join a found) m)) [ none ↦ refl | some g ↦ refl ]

  -- The value under a key is made of the elements with that key, in order.
  pub lookup-collect :
      (k : Text) (items : List A) (m : List (Text × G))
      → lookup k (collect items m) ≡ gathered k items (lookup k m)
  unfolding collect
  lookup-collect k [] m = refl
  lookup-collect k (a ∷ items) m =
      lookup-collect k items (put a m)
      ∙ ap (gathered k items)
          (ap (lookup k) (put-insert a m) ∙ lookup-insert (key a) k (join a (lookup (key a) m)) m)
      ∙ by_key (Bool-cases (text_eq (key a) k))
    where
      by_key :
          (text_eq (key a) k ≡ true) ⊎ (text_eq (key a) k ≡ false)
          → gathered k items
              (if text_eq (key a) k then some (join a (lookup (key a) m)) else lookup k m)
            ≡ gathered k (a ∷ items) (lookup k m)
      by_key (inl e) = rw (e, (text_eq_iff (key a) k).0 e) refl
      by_key (inr e) = rw e refl

-- No key occurs twice.
abbrev pub DistinctKeys {κ} : {G : Type κ} → List (Text × G) → Type κ
DistinctKeys [] = Unit
DistinctKeys ((k, g) ∷ m) = (lookup k m ≡ none) × DistinctKeys m

module _ {κ} {G : Type κ} where
  insert-DistinctKeys :
      (k : Text) (v : G) (m : List (Text × G)) → DistinctKeys m → DistinctKeys (insert k v m)
  unfolding lookup insert
  insert-DistinctKeys k v [] h = (refl, tt)
  insert-DistinctKeys k v ((j, w) ∷ m) h = elim (Bool-cases (text_eq j k)) [
    | inl e ↦ rw e (rw (← (text_eq_iff j k).0 e) h.0, h.1)
    | inr e ↦ rw e (
      ground (arith, lookup-insert k j v m, h.0, text_eq_iff k j, text_eq_iff j k, e),
      insert-DistinctKeys k v m h.1,
    )
  ]

  found_beside :
      (j : Text) (g : G) (m : List (Text × G)) (e : Text × G)
      → lookup j m ≡ none
      → lookup e.0 m ≡ some e.1
      → lookup e.0 ((j, g) ∷ m) ≡ some e.1
  unfolding lookup
  found_beside j g m e h k = elim (Bool-cases (text_eq j e.0)) [
    | inl q ↦ cc (ap (λ x. lookup x m) ((text_eq_iff j e.0).0 q), h, k)
    | inr q ↦ rw q k
  ]

  -- Then every entry is found under its key.
  pub All-lookup_self :
      (m : List (Text × G)) → DistinctKeys m → All (λ e. lookup e.0 m ≡ some e.1) m
  unfolding lookup
  All-lookup_self [] h = tt
  All-lookup_self ((k, g) ∷ m) h = (
    rw (text_eq_refl k) refl,
    All-mono (λ e. lookup e.0 m ≡ some e.1) (λ e. lookup e.0 ((k, g) ∷ m) ≡ some e.1)
        (λ e q. found_beside k g m e h.0 q) m (All-lookup_self m h.1),
  )

module _ {ℓ κ} {A : Type ℓ} {G : Type κ} (key : A → Text) (fresh : A → G) (add : G → A → G) where
  pub collect-DistinctKeys :
      (items : List A) (m : List (Text × G))
      → DistinctKeys m
      → DistinctKeys (collect key fresh add items m)
  unfolding collect
  collect-DistinctKeys [] m h = h
  collect-DistinctKeys (a ∷ items) m h = collect-DistinctKeys items (put key fresh add a m) (
      rw (put-insert key fresh add a m)
        (insert-DistinctKeys (key a) (join key fresh add a (lookup (key a) m)) m h))
