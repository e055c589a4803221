-- ===== src/Base/Int64.antt =====
-- Go's int64. A value is an integer; every operation wraps around modulo 2^64 into [-2^63, 2^63).
use Prim.Native.Nat.{ℕ, suc, ◌+◌, ◌-◌, ◌*◌, ◌%◌, ◌≤◌, ◌<◌}
use mathlib.Core.Path.{◌≡◌, refl}
use mathlib.Core.Logic.{◌⊎◌, inl, inr}
use mathlib.Core.Bool.{Bool}
use native.Mathlib.Omega.{arith}
use runner_loom.Base.Tests.{ltb, leb, ◌==◌, if◌then◌else◌}

-- `negsuc n` is -(n + 1).
pub data ℤ : Type 0 where
  pos : ℕ → ℤ
  negsuc : ℕ → ℤ

abbrev pub pos_part : ℤ → ℕ
pos_part (pos n) = n
pos_part (negsuc n) = 0

abbrev pub neg_part : ℤ → ℕ
neg_part (pos n) = 0
neg_part (negsuc n) = suc n

abbrev pub two63 : ℕ
two63 = 9223372036854775808

abbrev pub two64 : ℕ
two64 = 18446744073709551616

-- a - b, as an integer.
abbrev pub sub_ℕ : ℕ → ℕ → ℤ
sub_ℕ a b = if leb b a then pos (a - b) else negsuc (b - a - 1)

-- The integer whose two's complement pattern of 64 bits is m.
pub of_bits : ℕ → ℤ
of_bits m = if ltb m two63 then pos m else negsuc (two64 - m - 1)

unfoldable pub wrap : ℤ → ℤ
unfolding of_bits
wrap (pos n) = of_bits (n % two64)
wrap (negsuc n) = of_bits (two64 - 1 - n % two64)

unfoldable pub add : ℤ → ℤ → ℤ
unfolding wrap
add a b = wrap (sub_ℕ (pos_part a + pos_part b) (neg_part a + neg_part b))

unfoldable pub sub : ℤ → ℤ → ℤ
unfolding wrap
sub a b = wrap (sub_ℕ (pos_part a + neg_part b) (neg_part a + pos_part b))

unfoldable pub mul : ℤ → ℤ → ℤ
unfolding wrap
mul a b = wrap (
    sub_ℕ (pos_part a * pos_part b + neg_part a * neg_part b)
      (pos_part a * neg_part b + neg_part a * pos_part b))

abbrev pub lt_ℤ : ℤ → ℤ → Bool
lt_ℤ a b = ltb (pos_part a + neg_part b) (pos_part b + neg_part a)

abbrev pub le_ℤ : ℤ → ℤ → Bool
le_ℤ a b = leb (pos_part a + neg_part b) (pos_part b + neg_part a)

abbrev pub eq_ℤ : ℤ → ℤ → Bool
eq_ℤ a b = pos_part a + neg_part b == pos_part b + neg_part a

-- One of the two parts is 0.
pub parts_disjoint : (a : ℤ) → (pos_part a ≡ 0) ⊎ (neg_part a ≡ 0)
parts_disjoint (pos n) = inr refl
parts_disjoint (negsuc n) = inl refl

pub eq_of_parts : (a b : ℤ) → pos_part a + neg_part b ≡ pos_part b + neg_part a → a ≡ b
eq_of_parts a b h = ground arith

-- What is in range does not wrap.
pub wrap-eq : (a : ℤ) → pos_part a < two63 → neg_part a ≤ two63 → wrap a ≡ a
unfolding wrap
wrap-eq (pos n) p q = ground arith
wrap-eq (negsuc n) p q = ground arith

pub add_pos : (a b : ℕ) → a + b < two63 → add (pos a) (pos b) ≡ pos (a + b)
unfolding add
add_pos a b h = ground arith

pub mul_pos : (a b : ℕ) → a * b < two63 → mul (pos a) (pos b) ≡ pos (a * b)
unfolding mul
mul_pos a b h = ground arith

-- The parts of a sum and of a difference that stay in range.
pub add_parts :
    (a b : ℤ)
    → pos_part a + pos_part b < two63
    → neg_part a + neg_part b ≤ two63
    → pos_part (add a b) + neg_part a + neg_part b ≡ neg_part (add a b) + pos_part a + pos_part b
unfolding add
add_parts a b p q = ground arith

pub sub_parts :
    (a b : ℤ)
    → pos_part a + neg_part b < two63
    → neg_part a + pos_part b ≤ two63
    → pos_part (sub a b) + neg_part a + pos_part b ≡ neg_part (sub a b) + pos_part a + neg_part b
unfolding sub
sub_parts a b p q = ground arith

pub sub_pos : (a b : ℕ) → b ≤ a → a < two63 → sub (pos a) (pos b) ≡ pos (a - b)
unfolding sub
sub_pos a b h p = ground arith

-- Overflow: the largest int64 plus one is the smallest.
add_overflow : add (pos 9223372036854775807) (pos 1) ≡ negsuc 9223372036854775807
unfolding add
add_overflow = refl

mul_signs : mul (negsuc 2) (pos 4) ≡ negsuc 11
unfolding mul
mul_signs = refl
