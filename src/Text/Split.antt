-- ===== src/Text/Split.antt =====
-- Splitting undoes joining, where no part holds the separator.
use sidecar_agent.Prelude.{ℕ, ◌≡◌, refl, ap, List, [], ◌∷◌, ◌++◌, arith, false, ◌==◌, All}
use sidecar_agent.Text.{Text, split, join}

-- The separator is not in the text.
abbrev pub Lacks : ℕ → Text → Type 0
Lacks b = All (λ c. (c == b) ≡ false)

module _ (b : ℕ) where
  split-Lacks : (s : Text) → Lacks b s → split b s ≡ s ∷ []
  unfolding split
  split-Lacks [] h = refl
  split-Lacks (c ∷ s) h = rw (h.0, split-Lacks s h.1) refl

  split-append : (s t : Text) → Lacks b s → split b (s ++ b ∷ t) ≡ s ∷ split b t
  unfolding split
  split-append [] t h = ground arith
  split-append (c ∷ s) t h = rw (h.0, split-append s t h.1) refl

  pub split-join :
      (part : Text) (parts : List Text)
      → All (Lacks b) (part ∷ parts)
      → split b (join b (part ∷ parts)) ≡ part ∷ parts
  unfolding join
  split-join part [] h = split-Lacks part h.0
  split-join part (next ∷ parts) h =
      rw (split-append part (join b (next ∷ parts)) h.0)
        (ap (λ ps. part ∷ ps) (split-join next parts h.1))

  -- The last separator cuts a text in one way.
  pub append_sep_inj :
      (s t x y : Text) → Lacks b x → Lacks b y → s ++ b ∷ x ≡ t ++ b ∷ y → (s ≡ t) × (x ≡ y)
  append_sep_inj [] [] x y hx hy e = (refl, cc)
  append_sep_inj [] (c ∷ t) x y hx hy e = absurd (sep_in_tail t x hx (cc))
    where
      sep_in_tail : (u v : Text) → Lacks b v → v ≡ u ++ b ∷ y → ⊥
      sep_in_tail [] [] h q = cc
      sep_in_tail [] (d ∷ v) h q = ground arith
      sep_in_tail (a ∷ u) [] h q = cc
      sep_in_tail (a ∷ u) (d ∷ v) h q = sep_in_tail u v h.1 (cc)
  append_sep_inj (c ∷ s) [] x y hx hy e = absurd (sep_in_tail s y hy (cc))
    where
      sep_in_tail : (u v : Text) → Lacks b v → v ≡ u ++ b ∷ x → ⊥
      sep_in_tail [] [] h q = cc
      sep_in_tail [] (d ∷ v) h q = ground arith
      sep_in_tail (a ∷ u) [] h q = cc
      sep_in_tail (a ∷ u) (d ∷ v) h q = sep_in_tail u v h.1 (cc)
  append_sep_inj (c ∷ s) (d ∷ t) x y hx hy e =
      let (p, q) = append_sep_inj s t x y hx hy (cc) in ((cc), q)
