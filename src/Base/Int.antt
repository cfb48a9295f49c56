-- ===== src/Base/Int.antt =====
-- Signed integers over the native numbers, and the wrap-around of Go's 64-bit `int` and `int64`.
use Prim.Native.Nat.{ℕ, suc, ◌+◌, ◌-◌, ◌*◌, ◌/◌, ◌%◌, ◌≤◌, ◌<◌}
use mathlib.Core.Path.{◌≡◌}
use mathlib.Core.Bool.{Bool}
use mathlib.Core.List.{List, [], ◌∷◌}
use native.Mathlib.Omega.{arith}
use vpn_backend.Base.Tests.{ltb, leb, if◌then◌else◌}

-- `negsuc n` is -(n + 1).
pub data ℤ : Type 0 where
  pos : ℕ → ℤ
  negsuc : ℕ → ℤ

abbrev pub pos_part : ℤ → ℕ
pos_part (pos n) = n
pos_part (negsuc n) = 0

abbrev pub neg_part : ℤ → ℕ
neg_part (pos n) = 0
neg_part (negsuc n) = suc n

abbrev pub sub_ℕ : ℕ → ℕ → ℤ
sub_ℕ a b = if leb b a then pos (a - b) else negsuc (b - a - 1)

infixl 65 ◌+ℤ◌
unfoldable pub ◌+ℤ◌ : ℤ → ℤ → ℤ
a +ℤ b = sub_ℕ (pos_part a + pos_part b) (neg_part a + neg_part b)

infix 50 ◌≤ℤ◌
abbrev pub ◌≤ℤ◌ : ℤ → ℤ → Type 0
a ≤ℤ b = pos_part a + neg_part b ≤ pos_part b + neg_part a

abbrev pub ltb_ℤ : ℤ → ℤ → Bool
ltb_ℤ a b = ltb (pos_part a + neg_part b) (pos_part b + neg_part a)

abbrev pub leb_ℤ : ℤ → ℤ → Bool
leb_ℤ a b = leb (pos_part a + neg_part b) (pos_part b + neg_part a)

-- 2 ^ 63 and 2 ^ 64.
abbrev pub half_range : ℕ
half_range = 9223372036854775808

abbrev pub full_range : ℕ
full_range = 18446744073709551616

-- The 64-bit pattern of an integer, and the integer that a pattern stands for.
abbrev pub to_bits : ℤ → ℕ
to_bits (pos n) = n % full_range
to_bits (negsuc n) = full_range - 1 - n % full_range

abbrev pub of_bits : ℕ → ℤ
of_bits n = if ltb n half_range then pos n else negsuc (full_range - 1 - n)

-- Two's complement arithmetic: on the patterns, modulo 2 ^ 64.
infixl 65 ◌+64◌ ◌-64◌
infixl 70 ◌*64◌
unfoldable pub ◌+64◌ : ℤ → ℤ → ℤ
a +64 b = of_bits ((to_bits a + to_bits b) % full_range)

unfoldable pub ◌-64◌ : ℤ → ℤ → ℤ
a -64 b = of_bits ((to_bits a + full_range - to_bits b) % full_range)

unfoldable pub ◌*64◌ : ℤ → ℤ → ℤ
a *64 b = of_bits ((to_bits a * to_bits b) % full_range)

-- Go's division by a positive number: towards zero.
unfoldable pub quot : ℤ → ℕ → ℤ
quot (pos n) d = pos (n / d)
quot (negsuc n) d = sub_ℕ 0 (suc n / d)

-- In range the operations are those of the integers.
pub +64-pos : (a b : ℕ) → a + b < half_range → pos a +64 pos b ≡ pos (a + b)
unfolding ◌+64◌
+64-pos a b h = ground arith

pub -64-pos : (a b : ℕ) → b ≤ a → a < half_range → pos a -64 pos b ≡ pos (a - b)
unfolding ◌-64◌
-64-pos a b h k = ground arith

pub *64-pos :
    (a b : ℕ) → a < half_range → b < half_range → a * b < half_range → pos a *64 pos b ≡ pos (a * b)
unfolding ◌*64◌
*64-pos a b ha hb h =
    let ea : a % full_range ≡ a = omega arith in
    let eb : b % full_range ≡ b = omega arith in rw (ea, eb) (ground arith)

unfoldable pub sum_ℤ : {A : Type 0} → (A → ℤ) → List A → ℤ
sum_ℤ f [] = pos 0
sum_ℤ f (x ∷ xs) = f x +ℤ sum_ℤ f xs
