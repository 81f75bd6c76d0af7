-- ===== src/Prelude/Int.antt =====
-- Signed integers over the native numbers, and the int64 operations of Go on them.
use rosgo.Prelude.Tests.{ltb, leb, if◌then◌else◌}
use Prim.Native.Nat.{ℕ, suc, ◌+◌, ◌-◌, ◌/◌, ◌%◌, ◌^◌, ◌<◌, ◌≤◌}
use mathlib.Core.Path.{◌≡◌, refl}
use mathlib.Core.Logic.{◌⊎◌, inl, inr}
use mathlib.Core.Bool.{Bool}
use native.Mathlib.Omega.{arith}

-- `negsuc n` is -(n + 1).
pub data ℤ : Type 0 where
  pos : ℕ → ℤ
  negsuc : ℕ → ℤ

abbrev pub pos_part : ℤ → ℕ
pos_part (pos n) = n
pos_part (negsuc n) = 0

abbrev pub neg_part : ℤ → ℕ
neg_part (pos n) = 0
neg_part (negsuc n) = suc n

-- a - b, as an integer.
abbrev pub sub_ℕ : ℕ → ℕ → ℤ
sub_ℕ a b = if leb b a then pos (a - b) else negsuc (b - a - 1)

infixl 65 ◌+ℤ◌ ◌-ℤ◌
unfoldable pub ◌+ℤ◌ : ℤ → ℤ → ℤ
a +ℤ b = sub_ℕ (pos_part a + pos_part b) (neg_part a + neg_part b)

unfoldable pub ◌-ℤ◌ : ℤ → ℤ → ℤ
a -ℤ b = sub_ℕ (pos_part a + neg_part b) (neg_part a + pos_part b)

abbrev pub ltb_ℤ : ℤ → ℤ → Bool
ltb_ℤ a b = ltb (pos_part a + neg_part b) (pos_part b + neg_part a)

-- Go's `/` and `%` by a positive constant: the quotient is cut towards zero, and the remainder has
-- the sign of the dividend.
unfoldable pub quot : ℤ → ℕ → ℤ
quot (pos n) k = pos (n / k)
quot (negsuc n) k = sub_ℕ 0 (suc n / k)

unfoldable pub rem : ℤ → ℕ → ℤ
rem (pos n) k = pos (n % k)
rem (negsuc n) k = sub_ℕ 0 (suc n % k)

-- The int64 with the low 64 bits of an integer.
unfoldable pub wrap64 : ℤ → ℤ
wrap64 (pos n) = let m = n % 2 ^ 64 in if ltb m (2 ^ 63) then pos m else negsuc (2 ^ 64 - 1 - m)
wrap64 (negsuc n) = let m = n % 2 ^ 64 in if ltb m (2 ^ 63) then negsuc m else pos (2 ^ 64 - 1 - m)

-- The low 32 bits, as a uint32.
unfoldable pub to_u32 : ℤ → ℕ
to_u32 (pos n) = n % 2 ^ 32
to_u32 (negsuc n) = 2 ^ 32 - 1 - n % 2 ^ 32

pub +ℤ_parts :
    (a b : ℤ)
    → pos_part (a +ℤ b) + neg_part a + neg_part b ≡ neg_part (a +ℤ b) + pos_part a + pos_part b
unfolding ◌+ℤ◌
+ℤ_parts a b = ground arith

pub -ℤ_parts :
    (a b : ℤ)
    → pos_part (a -ℤ b) + neg_part a + pos_part b ≡ neg_part (a -ℤ b) + pos_part a + neg_part b
unfolding ◌-ℤ◌
-ℤ_parts a b = ground arith

pub part_zero : (a : ℤ) → (pos_part a ≡ 0) ⊎ (neg_part a ≡ 0)
part_zero (pos n) = inr refl
part_zero (negsuc n) = inl refl

pub eq_of_parts : (a b : ℤ) → pos_part a + neg_part b ≡ pos_part b + neg_part a → a ≡ b
eq_of_parts a b h = ground arith

-- The signs of quotient and remainder are the dividend's.
pub quot_parts :
    (a : ℤ) (k : ℕ)
    → (pos_part (quot a k) ≡ pos_part a / k) × (neg_part (quot a k) ≡ neg_part a / k)
unfolding quot
quot_parts (pos n) k = ground arith
quot_parts (negsuc n) k = ground arith

pub rem_parts :
    (a : ℤ) (k : ℕ) → (pos_part (rem a k) ≡ pos_part a % k) × (neg_part (rem a k) ≡ neg_part a % k)
unfolding rem
rem_parts (pos n) k = ground arith
rem_parts (negsuc n) k = ground arith

pub wrap64_id : (a : ℤ) → pos_part a < 2 ^ 63 → neg_part a ≤ 2 ^ 63 → wrap64 a ≡ a
unfolding wrap64
wrap64_id (pos n) h k = ground arith
wrap64_id (negsuc n) h k = ground arith

pub to_u32_id : (a : ℤ) → pos_part a < 2 ^ 32 → neg_part a ≡ 0 → to_u32 a ≡ pos_part a
unfolding to_u32
to_u32_id (pos n) h k = omega arith
to_u32_id (negsuc n) h k = absurd (omega arith)
