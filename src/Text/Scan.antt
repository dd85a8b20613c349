-- ===== src/Text/Scan.antt =====
-- `fmt.Sscanf` reads back what `%d` wrote, and texts that `strings.TrimSpace` leaves alone.
use sidecar_agent.Prelude.{
  ℕ, ◌<◌, ◌^◌, ◌+◌, ◌%◌, ◌/◌, ◌≡◌, refl, sym, ap, ◌∙◌, [], ◌∷◌, ◌++◌, append-nil, arith, true,
  false, some, All, ltb, Bool-cases, inl, inr,
}
use sidecar_agent.Prelude.Int.{pos}
use sidecar_agent.Text.{
  Text, is_space, is_digit, trim_left, trim_right, trim_space, digits_value, leading_digits,
  to_int64, scan_int, decimal, decimal_fuel, is_empty,
}
use sidecar_agent.Text.Decimal.{digits_value-decimal, decimal_digits}
use sidecar_agent.Text.Trim.{trim_right_idem}

abbrev pub NoSpaces : Text → Type 0
NoSpaces = All (λ c. is_space c ≡ false)

trim_right-cons :
    (c : ℕ) (s : Text)
    → is_space c ≡ false
    → trim_right is_space s ≡ s
    → trim_right is_space (c ∷ s) ≡ c ∷ s
unfolding trim_right
trim_right-cons c s h e = ground (arith, h, e)

trim_right-append :
    (front s : Text)
    → NoSpaces front
    → trim_right is_space s ≡ s
    → trim_right is_space (front ++ s) ≡ front ++ s
trim_right-append [] s h e = e
trim_right-append (c ∷ front) s h e =
    trim_right-cons c (front ++ s) h.0 (trim_right-append front s h.1 e)

trim_left-cons : (c : ℕ) (s : Text) → is_space c ≡ false → trim_left is_space (c ∷ s) ≡ c ∷ s
unfolding trim_left
trim_left-cons c s h = ground (arith, h)

-- A text after a word is trimmed as the text alone.
pub trim_space-append :
    (c : ℕ) (front s : Text)
    → NoSpaces (c ∷ front)
    → trim_space (c ∷ (front ++ trim_space s)) ≡ c ∷ (front ++ trim_space s)
unfolding trim_space
trim_space-append c front s h =
    ap (trim_right is_space)
      (trim_left-cons c (front ++ trim_right is_space (trim_left is_space s)) h.0)
    ∙ trim_right-append (c ∷ front) (trim_right is_space (trim_left is_space s)) h
        (trim_right_idem is_space (trim_left is_space s))

trim_space-NoSpaces : (s : Text) → NoSpaces s → trim_space s ≡ s
unfolding trim_space trim_left trim_right
trim_space-NoSpaces [] h = refl
trim_space-NoSpaces (c ∷ s) h =
    ap (trim_right is_space) (trim_left-cons c s h.0)
    ∙ ap (trim_right is_space) (sym (append-nil (c ∷ s)))
    ∙ trim_right-append (c ∷ s) [] h refl
    ∙ append-nil (c ∷ s)

digit_no_space : (c : ℕ) → is_digit c ≡ true → is_space c ≡ false
unfolding is_space
digit_no_space c h = ground (arith, h)

digits-NoSpaces : (s : Text) → All (λ c. is_digit c ≡ true) s → NoSpaces s
digits-NoSpaces [] h = tt
digits-NoSpaces (c ∷ s) h = (digit_no_space c h.0, digits-NoSpaces s h.1)

leading_digits-digits : (s : Text) → All (λ c. is_digit c ≡ true) s → leading_digits s ≡ s
unfolding leading_digits
leading_digits-digits [] h = refl
leading_digits-digits (c ∷ s) h = rw (h.0, leading_digits-digits s h.1) refl

scan_int-digits :
    (s : Text) (n : ℕ)
    → All (λ c. is_digit c ≡ true) s
    → is_empty s ≡ false
    → digits_value 0 s ≡ n
    → n < 2 ^ 63
    → scan_int s ≡ some (pos n)
unfolding scan_int to_int64
scan_int-digits [] n h f e b = cc
scan_int-digits (c ∷ s) n h f e b = ground (arith, h.0, leading_digits-digits (c ∷ s) h, e, b)

snoc_filled : (s : Text) (c : ℕ) → is_empty (s ++ c ∷ []) ≡ false
snoc_filled [] c = refl
snoc_filled (d ∷ s) c = refl

decimal_filled : (n : ℕ) → is_empty (decimal n) ≡ false
unfolding decimal decimal_fuel
decimal_filled n = elim (Bool-cases (ltb n 10)) [
  | inl e ↦ rw e refl
  | inr e ↦ rw e (snoc_filled (decimal_fuel n (n / 10)) (48 + n % 10))
]

-- A number that fits in an `int` is read back, also after trimming.
pub trim_space-decimal : (n : ℕ) → trim_space (decimal n) ≡ decimal n
trim_space-decimal n =
    trim_space-NoSpaces (decimal n) (digits-NoSpaces (decimal n) (decimal_digits n))

pub scan_int-decimal : (n : ℕ) → n < 2 ^ 63 → scan_int (trim_space (decimal n)) ≡ some (pos n)
scan_int-decimal n b =
    ap scan_int (trim_space-NoSpaces (decimal n) (digits-NoSpaces (decimal n) (decimal_digits n)))
    ∙ scan_int-digits (decimal n) n (decimal_digits n) (decimal_filled n) (digits_value-decimal n) b
