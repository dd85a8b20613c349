-- ===== src/Text/Equality.antt =====
-- The test of texts for equality decides equality.
use sidecar_agent.Prelude.{◌≡◌, refl, ◌↔◌, [], ◌∷◌, true, arith, ==_iff, Eq, &&_parts, ◌==◌}
use sidecar_agent.Text.{Text, text_eq}

text_eq_sound : (s t : Text) → text_eq s t ≡ true → s ≡ t
unfolding text_eq
text_eq_sound [] [] h = refl
text_eq_sound [] (y ∷ ys) h = cc
text_eq_sound (x ∷ xs) [] h = cc
text_eq_sound (x ∷ xs) (y ∷ ys) h =
    let (p, q) = &&_parts (x == y) (text_eq xs ys) h in cc ((==_iff x y).0 p, text_eq_sound xs ys q)

pub text_eq_refl : (s : Text) → text_eq s s ≡ true
unfolding text_eq
text_eq_refl [] = refl
text_eq_refl (x ∷ xs) = ground (arith, text_eq_refl xs)

text_eq_complete : (s t : Text) → s ≡ t → text_eq s t ≡ true
text_eq_complete s t e = rw (← e) (text_eq_refl s)

pub text_eq_iff : (s t : Text) → (text_eq s t ≡ true) ↔ (s ≡ t)
text_eq_iff s t = (text_eq_sound s t, text_eq_complete s t)

instance abbrev pub text_key : Eq Text
text_key = record { beq = text_eq; beq_iff = text_eq_iff }
