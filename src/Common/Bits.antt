-- ===== src/Common/Bits.antt =====
-- `x & mask` is a remainder where the mask is one below a power of two.
use Prim.Native.Nat.{
  ℕ, zero, suc, ◌+◌, ◌-◌, ◌*◌, ◌/◌, ◌%◌, ◌^◌, ◌≤◌, ◌<◌, min, bit_and, digits, bit_and-bitwise,
}
use mathlib.Core.Path.{◌≡◌, refl, sym, ap, ◌∙◌}
use native.Mathlib.Nat.{
  mod-add-div', mod-lt, pow-suc, one-le-pow, add-mul-mod_self_right, mod-eq_of_lt,
}
use native.Mathlib.Omega.{arith}

abbrev rounds : ℕ → ℕ → ℕ → ℕ
rounds = digits (λ b. 0) min

-- Rounds past the last digit change nothing.
rounds_enough : (n m a b : ℕ) → a ≤ n → a ≤ m → rounds n a b ≡ rounds m a b
rounds_enough zero zero a b h k = refl
rounds_enough zero (suc m) zero b h k = refl
rounds_enough zero (suc m) (suc a) b h k = absurd (omega arith)
rounds_enough (suc n) zero zero b h k = refl
rounds_enough (suc n) zero (suc a) b h k = absurd (omega arith)
rounds_enough (suc n) (suc m) zero b h k = refl
rounds_enough (suc n) (suc m) (suc a) b h k =
    omega (arith, rounds_enough n m (suc a / 2) (b / 2) (omega arith) (omega arith))

lowest_digit : (a b : ℕ) → bit_and a b ≡ bit_and (a / 2) (b / 2) * 2 + min (a % 2) (b % 2)
lowest_digit zero b = omega (arith, bit_and-bitwise 0 b, bit_and-bitwise 0 (b / 2))
lowest_digit (suc a) b = omega (
  arith,
  bit_and-bitwise (suc a) b,
  bit_and-bitwise (suc a / 2) (b / 2),
  rounds_enough a (suc a / 2) (suc a / 2) (b / 2) (omega arith) (omega arith),
)

zero_mask : (n a : ℕ) → a ≤ n → bit_and a 0 ≡ 0
zero_mask n zero h = bit_and-bitwise 0 0
zero_mask zero (suc a) h = absurd (omega arith)
zero_mask (suc n) (suc a) h =
    omega (arith, lowest_digit (suc a) 0, zero_mask n (suc a / 2) (omega arith))

half_mask : (s t : ℕ) → t ≡ s * 2 → 0 < s → (t - 1) / 2 ≡ s - 1
half_mask s t e h = omega arith

doubled_lem : (s n : ℕ) → 0 < s → n / 2 % s * 2 + n % 2 ≡ n % (s * 2)
doubled_lem s n h =
    let half = mod-add-div' (n / 2) s in
    let below = mod-lt (n / 2) h in
    let split : n ≡ (n / 2 % s * 2 + n % 2) + n / 2 / s * (s * 2) = grind (arith, half) in
    sym (
      ap (λ m. m % (s * 2)) split
      ∙ add-mul-mod_self_right (n / 2 % s * 2 + n % 2) (n / 2 / s) (s * 2)
      ∙ mod-eq_of_lt (omega (arith, below)))

pub mask_lem : (k n : ℕ) → bit_and n (2 ^ k - 1) ≡ n % 2 ^ k
mask_lem zero n = omega (arith, zero_mask n n (omega arith))
mask_lem (suc k) n =
    let s : ℕ = 2 ^ k in
    let twice : 2 ^ suc k ≡ s * 2 = pow-suc 2 k in
    let some_power : 0 < s = one-le-pow k 2 (omega arith) in
    omega (
      arith,
      lowest_digit n (2 ^ suc k - 1),
      ap (bit_and (n / 2)) (half_mask s (2 ^ suc k) twice some_power),
      mask_lem k (n / 2),
      doubled_lem s n some_power,
      ap (λ m. n % m) twice,
      twice,
    )
