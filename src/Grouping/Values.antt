-- ===== src/Grouping/Values.antt =====
-- The values that collecting makes, where a value tells the key that it stands under.
use mathlib.Core.Path.{subst}
use sidecar_agent.Prelude.{
  Option, none, some, List, [], ◌∷◌, map, lookup, ◌≡◌, sym, ◌∙◌, ap, All, All-mono, Bool-cases, inl,
  inr,
}
use sidecar_agent.Text.{Text, text_eq}
use sidecar_agent.Text.Equality.{text_key, text_eq_iff}
use sidecar_agent.Grouping.{
  collect, join, gathered, lookup-collect, collect-DistinctKeys, All-lookup_self,
}

All-values {κ μ} :
    {G : Type κ} (P : G → Type μ) (m : List (Text × G))
    → All (λ e. P e.1) m
    → All P (map (λ e. e.1) m)
All-values P [] h = tt
All-values P (e ∷ m) h = (h.0, All-values P m h.1)

module _ {ℓ κ} {A : Type ℓ} {G : Type κ} (key : A → Text) (fresh : A → G) (add : G → A → G)
    (own : G → Text) where
  abbrev HasKey : Text → Option G → Type 0
  HasKey k none = Unit
  HasKey k (some g) = own g ≡ k

  module _ (own-fresh : (a : A) → own (fresh a) ≡ key a)
      (own-add : (g : G) (a : A) → own (add g a) ≡ own g) where
    join-HasKey :
        (k : Text) (a : A) (g : Option G)
        → key a ≡ k
        → HasKey k g
        → own (join key fresh add a g) ≡ k
    join-HasKey k a none e h = own-add (fresh a) a ∙ own-fresh a ∙ e
    join-HasKey k a (some g) e h = own-add g a ∙ h

    gathered-HasKey :
        (k : Text) (l : List A) (g : Option G)
        → HasKey k g
        → HasKey k (gathered key fresh add k l g)
    gathered-HasKey k [] g h = h
    gathered-HasKey k (a ∷ l) g h = elim (Bool-cases (text_eq (key a) k)) [
      | inl e ↦ rw e (
          gathered-HasKey k l (some (join key fresh add a g))
            (join-HasKey k a g ((text_eq_iff (key a) k).0 e) h))
      | inr e ↦ rw e (gathered-HasKey k l g h)
    ]

    own_key :
        (l : List A) (k : Text) (g : G)
        → lookup k (collect key fresh add l []) ≡ some g
        → gathered key fresh add (own g) l none ≡ some g
    unfolding lookup
    own_key l k g h =
        let q : gathered key fresh add k l none ≡ some g =
          sym (lookup-collect key fresh add k l []) ∙ h in
        let same : HasKey k (some g) = subst (HasKey k) q (gathered-HasKey k l none tt) in
        ap (λ j. gathered key fresh add j l none) same ∙ q

    -- Each value is what the elements with its key make.
    pub All-collected :
        (l : List A)
        → All
            (λ g. gathered key fresh add (own g) l none ≡ some g)
            (map (λ e. e.1) (collect key fresh add l []))
    All-collected l =
        let m = collect key fresh add l [] in
        All-values (λ g. gathered key fresh add (own g) l none ≡ some g) m
          (All-mono (λ e. lookup e.0 m ≡ some e.1)
            (λ e. gathered key fresh add (own e.1) l none ≡ some e.1) (λ e. own_key l e.0 e.1) m
            (All-lookup_self m (collect-DistinctKeys key fresh add l [] tt)))
