-- ===== src/Common/Int.antt =====
-- Signed integers over the native numbers, under the library's names (its ℤ stands on the unary ℕ),
-- and the int64_t range. Sums and orders go through the two parts of an integer.
use crossbook.Common.Compare.{ltb, leb, if◌then◌else◌}
use Prim.Native.Nat.{ℕ, suc, ◌+◌, ◌-◌, ◌%◌, ◌^◌, ◌≤◌, ◌<◌}
use mathlib.Core.Path.{◌≡◌, ap}
use mathlib.Core.Bool.{Bool}
use native.Mathlib.Omega.{arith}

-- `negsuc n` is -(n + 1).
pub data ℤ : Type 0 where
  pos : ℕ → ℤ
  negsuc : ℕ → ℤ

abbrev pub pos_part : ℤ → ℕ
pos_part (pos n) = n
pos_part (negsuc n) = 0

abbrev pub neg_part : ℤ → ℕ
neg_part (pos n) = 0
neg_part (negsuc n) = suc n

-- a - b, as an integer.
abbrev pub sub_ℕ : ℕ → ℕ → ℤ
sub_ℕ a b = if leb b a then pos (a - b) else negsuc (b - a - 1)

infixl 65 ◌+ℤ◌ ◌-ℤ◌
infix 50 ◌≤ℤ◌ ◌<ℤ◌
unfoldable pub ◌+ℤ◌ : ℤ → ℤ → ℤ
a +ℤ b = sub_ℕ (pos_part a + pos_part b) (neg_part a + neg_part b)

unfoldable pub ◌-ℤ◌ : ℤ → ℤ → ℤ
a -ℤ b = sub_ℕ (pos_part a + neg_part b) (neg_part a + pos_part b)

abbrev pub ◌≤ℤ◌ : ℤ → ℤ → Type 0
a ≤ℤ b = pos_part a + neg_part b ≤ pos_part b + neg_part a

abbrev pub ◌<ℤ◌ : ℤ → ℤ → Type 0
a <ℤ b = pos_part a + neg_part b < pos_part b + neg_part a

abbrev pub ltb_ℤ : ℤ → ℤ → Bool
ltb_ℤ a b = ltb (pos_part a + neg_part b) (pos_part b + neg_part a)

pub eq_of_parts : (a b : ℤ) → pos_part a + neg_part b ≡ pos_part b + neg_part a → a ≡ b
eq_of_parts a b h = ground arith

-- With these `omega` works on sums and differences that stay shut.
pub +ℤ_parts :
    (a b : ℤ)
    → pos_part (a +ℤ b) + neg_part a + neg_part b ≡ neg_part (a +ℤ b) + pos_part a + pos_part b
unfolding ◌+ℤ◌
+ℤ_parts a b = ground arith

pub -ℤ_parts :
    (a b : ℤ)
    → pos_part (a -ℤ b) + neg_part a + pos_part b ≡ neg_part (a -ℤ b) + pos_part a + neg_part b
unfolding ◌-ℤ◌
-ℤ_parts a b = ground arith

-- The values that an int64_t holds.
abbrev pub IsInt64 : ℤ → Type 0
IsInt64 a = (pos_part a < 2 ^ 63) × (neg_part a ≤ 2 ^ 63)

-- What an int64_t holds of an integer: the one value of its range that differs by a multiple of
-- 2^64.
abbrev residue : ℤ → ℕ
residue a = (pos_part a % 2 ^ 64 + 2 ^ 64 - neg_part a % 2 ^ 64) % 2 ^ 64

abbrev of_residue : ℕ → ℤ
of_residue m = if ltb m (2 ^ 63) then pos m else negsuc (2 ^ 64 - 1 - m)

unfoldable pub to_int64 : ℤ → ℤ
to_int64 a = of_residue (residue a)

pub to_int64_id : (a : ℤ) → IsInt64 a → to_int64 a ≡ a
unfolding to_int64
to_int64_id (pos n) h = ground arith
to_int64_id (negsuc n) h = ground arith

residue-to_int64 : (a : ℤ) → residue (to_int64 a) ≡ residue a
unfolding to_int64
residue-to_int64 a = ground arith

residue-+ℤ : (a b : ℤ) → residue (a +ℤ b) ≡ (residue a + residue b) % 2 ^ 64
residue-+ℤ a b = omega (arith, +ℤ_parts a b)

-- Sums may be cut off at any step.
pub to_int64-left : (a b : ℤ) → to_int64 (to_int64 a +ℤ b) ≡ to_int64 (a +ℤ b)
unfolding to_int64
to_int64-left a b =
    ap of_residue (omega (arith, residue-+ℤ (to_int64 a) b, residue-+ℤ a b, residue-to_int64 a))

pub to_int64-right : (a b : ℤ) → to_int64 (a +ℤ to_int64 b) ≡ to_int64 (a +ℤ b)
unfolding to_int64
to_int64-right a b =
    ap of_residue (omega (arith, residue-+ℤ a (to_int64 b), residue-+ℤ a b, residue-to_int64 b))

residue--ℤ : (a b : ℤ) → residue (a -ℤ b) ≡ (residue a + 2 ^ 64 - residue b) % 2 ^ 64
residue--ℤ a b = omega (arith, -ℤ_parts a b)

pub to_int64-sub : (a b : ℤ) → to_int64 (to_int64 a -ℤ b) ≡ to_int64 (a -ℤ b)
unfolding to_int64
to_int64-sub a b =
    ap of_residue (omega (arith, residue--ℤ (to_int64 a) b, residue--ℤ a b, residue-to_int64 a))
