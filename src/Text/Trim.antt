-- ===== src/Text/Trim.antt =====
-- Trimming twice is trimming once.
use sidecar_agent.Prelude.{
  ℕ, ◌≡◌, refl, ap, ◌∙◌, [], ◌∷◌, ◌++◌, arith, true, false, not, ◌&&◌, if◌then◌else◌, Bool,
}
use sidecar_agent.Text.{Text, trim_left, trim_right, trim_space, is_empty, is_space}

module _ (p : ℕ → Bool) where
  -- The first character, if there is one, is not trimmed.
  abbrev head_stays : Text → Bool
  head_stays [] = true
  head_stays (c ∷ s) = not (p c)

  head_stays-trim_left : (s : Text) → head_stays (trim_left p s) ≡ true
  unfolding trim_left
  head_stays-trim_left [] = refl
  head_stays-trim_left (c ∷ s) = ground (arith, head_stays-trim_left s)

  trim_left_of_head_stays : (s : Text) → head_stays s ≡ true → trim_left p s ≡ s
  unfolding trim_left
  trim_left_of_head_stays [] h = refl
  trim_left_of_head_stays (c ∷ s) h = ground arith

  head_stays-trim_right : (s : Text) → head_stays s ≡ true → head_stays (trim_right p s) ≡ true
  unfolding trim_right
  head_stays-trim_right [] h = refl
  head_stays-trim_right (c ∷ s) h = ground arith

  pub trim_right_idem : (s : Text) → trim_right p (trim_right p s) ≡ trim_right p s
  unfolding trim_right
  trim_right_idem [] = refl
  trim_right_idem (c ∷ s) = ground (arith, trim_right_idem s)

  pub trim_idem :
      (s : Text)
      → trim_right p (trim_left p (trim_right p (trim_left p s))) ≡ trim_right p (trim_left p s)
  trim_idem s =
      ap (trim_right p)
        (trim_left_of_head_stays _ (head_stays-trim_right (trim_left p s) (head_stays-trim_left s)))
      ∙ trim_right_idem (trim_left p s)

  -- A text whose last character stays loses nothing on the right.
  pub trim_right-snoc : (s : Text) (c : ℕ) → p c ≡ false → trim_right p (s ++ c ∷ []) ≡ s ++ c ∷ []
  unfolding trim_right
  trim_right-snoc [] c h = ground arith
  trim_right-snoc (d ∷ s) c h = rw (trim_right-snoc s c h) (snoc_kept s)
    where
      snoc_kept :
          (t : Text)
          → (if is_empty (t ++ c ∷ []) && p d then [] else d ∷ (t ++ c ∷ [])) ≡ d ∷ (t ++ c ∷ [])
      snoc_kept [] = refl
      snoc_kept (e ∷ t) = refl

pub trim_space_idem : (s : Text) → trim_space (trim_space s) ≡ trim_space s
unfolding trim_space
trim_space_idem s = trim_idem is_space s
