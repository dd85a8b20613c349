-- ===== src/Text/Decimal.antt =====
-- The decimal form of a number is read back as that number, so two numbers with one form are equal.
use sidecar_agent.Prelude.{
  ℕ, zero, suc, ◌+◌, ◌-◌, ◌*◌, ◌/◌, ◌<◌, ◌≡◌, refl, sym, ap, ◌∙◌, [], ◌∷◌, ◌++◌, arith, true, false,
  ltb, ◌==◌, Bool-cases, inl, inr, All, All-append, All-mono,
}
use sidecar_agent.Prelude.Int.{ℤ, pos, negsuc}
use sidecar_agent.Text.{Text, is_digit, digits_value, decimal, decimal_fuel, format_int}
use sidecar_agent.Text.Split.{Lacks}

digits_value-append :
    (acc : ℕ) (s t : Text) → digits_value acc (s ++ t) ≡ digits_value (digits_value acc s) t
unfolding digits_value
digits_value-append acc [] t = refl
digits_value-append acc (c ∷ s) t = digits_value-append (acc * 10 + (c - b'0')) s t

value-decimal_fuel : (f n : ℕ) → n < f → digits_value 0 (decimal_fuel f n) ≡ n
unfolding decimal_fuel
value-decimal_fuel zero n h = absurd (omega arith)
value-decimal_fuel (suc f) n h = elim (Bool-cases (ltb n 10)) [
  | inl e ↦ rw e (unfold digits_value in omega arith)
  | inr e ↦
      rw
        (
          e,
          digits_value-append 0 (decimal_fuel f (n / 10)) _,
          value-decimal_fuel f (n / 10) (ground arith),
        )
        (unfold digits_value in omega arith)
]

pub digits_value-decimal : (n : ℕ) → digits_value 0 (decimal n) ≡ n
unfolding decimal
digits_value-decimal n = value-decimal_fuel (suc n) n (omega arith)

digits-decimal_fuel : (f n : ℕ) → All (λ c. is_digit c ≡ true) (decimal_fuel f n)
unfolding decimal_fuel
digits-decimal_fuel zero n = tt
digits-decimal_fuel (suc f) n = elim (Bool-cases (ltb n 10)) [
  | inl e ↦ rw e ((ground arith), tt)
  | inr e ↦ rw e (
      All-append _ (decimal_fuel f (n / 10)) _ (digits-decimal_fuel f (n / 10))
        ((ground arith), tt))
]

pub decimal_digits : (n : ℕ) → All (λ c. is_digit c ≡ true) (decimal n)
unfolding decimal
decimal_digits n = digits-decimal_fuel (suc n) n

pub decimal_inj : (a b : ℕ) → decimal a ≡ decimal b → a ≡ b
decimal_inj a b e = sym (digits_value-decimal a) ∙ ap (digits_value 0) e ∙ digits_value-decimal b

minus_not_digits : (s t : Text) → All (λ c. is_digit c ≡ true) s → s ≡ b'-' ∷ t → ⊥
minus_not_digits [] t h e = cc
minus_not_digits (c ∷ s) t h e = ground arith

pub format_int_inj : (a b : ℤ) → format_int a ≡ format_int b → a ≡ b
unfolding format_int
format_int_inj (pos a) (pos b) e = ap pos (decimal_inj a b e)
format_int_inj (pos a) (negsuc b) e = absurd (minus_not_digits _ _ (decimal_digits a) e)
format_int_inj (negsuc a) (pos b) e = absurd (minus_not_digits _ _ (decimal_digits b) (sym e))
format_int_inj (negsuc a) (negsuc b) e = ap negsuc (omega (arith, decimal_inj (suc a) (suc b) (cc)))

-- A formatted number holds nothing but digits and a minus sign.
pub format_int-Lacks :
    (b : ℕ) → is_digit b ≡ false → (b == b'-') ≡ false → (a : ℤ) → Lacks b (format_int a)
unfolding format_int
format_int-Lacks b h k (pos n) =
    All-mono (λ c. is_digit c ≡ true) (λ c. (c == b) ≡ false) (λ c d. ground arith) (decimal n)
      (decimal_digits n)
format_int-Lacks b h k (negsuc n) = (
  ground arith,
  All-mono (λ c. is_digit c ≡ true) (λ c. (c == b) ≡ false) (λ c d. ground arith) (decimal (suc n))
      (decimal_digits (suc n)),
)
