-- ===== src/Prelude/Int.antt =====
-- Go's signed `int`: the sign matters where a port or a weight is tested.
use Prim.Native.Nat.{ℕ, ◌-◌, ◌%◌, ◌^◌}
use mathlib.Core.Path.{◌≡◌, refl}
use mathlib.Core.Logic.{◌↔◌}
use mathlib.Core.Bool.{Bool, true, false, not}
use native.Mathlib.Omega.{arith}
use sidecar_agent.Prelude.Tests.{ltb, ◌==◌}

-- `negsuc n` is -(n + 1).
pub data ℤ : Type 0 where
  pos : ℕ → ℤ
  negsuc : ℕ → ℤ

abbrev pub ltb_int : ℤ → ℤ → Bool
ltb_int (pos a) (pos b) = ltb a b
ltb_int (pos a) (negsuc b) = false
ltb_int (negsuc a) (pos b) = true
ltb_int (negsuc a) (negsuc b) = ltb b a

abbrev pub leb_int : ℤ → ℤ → Bool
leb_int a b = not (ltb_int b a)

abbrev pub eqb_int : ℤ → ℤ → Bool
eqb_int (pos a) (pos b) = a == b
eqb_int (negsuc a) (negsuc b) = a == b
eqb_int _ _ = false

pub eqb_int_iff : (a b : ℤ) → (eqb_int a b ≡ true) ↔ (a ≡ b)
eqb_int_iff (pos a) (pos b) = ground arith
eqb_int_iff (pos a) (negsuc b) = ground arith
eqb_int_iff (negsuc a) (pos b) = ground arith
eqb_int_iff (negsuc a) (negsuc b) = ground arith

-- The conversion `uint32(n)`.
abbrev pub uint32 : ℤ → ℕ
uint32 (pos n) = n % 2 ^ 32
uint32 (negsuc n) = 2 ^ 32 - 1 - n % 2 ^ 32

pub ltb_int_irrefl : (a : ℤ) → ltb_int a a ≡ false
ltb_int_irrefl (pos a) = ground arith
ltb_int_irrefl (negsuc a) = ground arith

pub ltb_int_trans : (a b c : ℤ) → ltb_int a b ≡ true → ltb_int b c ≡ true → ltb_int a c ≡ true
ltb_int_trans (pos a) (pos b) (pos c) h k = ground arith
ltb_int_trans (negsuc a) (negsuc b) (negsuc c) h k = ground arith
ltb_int_trans (negsuc a) b (pos c) h k = refl
ltb_int_trans (pos a) (negsuc b) c h k = cc
ltb_int_trans a (pos b) (negsuc c) h k = cc

pub ltb_int_total : (a b : ℤ) → ltb_int a b ≡ false → ltb_int b a ≡ false → a ≡ b
ltb_int_total (pos a) (pos b) h k = ground arith
ltb_int_total (negsuc a) (negsuc b) h k = ground arith
ltb_int_total (pos a) (negsuc b) h k = cc
ltb_int_total (negsuc a) (pos b) h k = cc
