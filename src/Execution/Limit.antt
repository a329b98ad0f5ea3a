-- ===== src/Execution/Limit.antt =====
-- The limit price of `executable_size`: how far a slippage reaches from the touch.
use crossbook.Common.{ℕ, ◌+◌, ◌*◌, ◌/◌, ◌^◌, ◌<◌, ◌≡◌, ◌⊎◌, arith}
use crossbook.Common.{Bool, true, false, Option, none, some, if◌then◌else◌, leb}
use crossbook.Common.Int.{ℤ, pos, pos_part, neg_part, sub_ℕ, ◌-ℤ◌, ◌+ℤ◌}
use crossbook.Types.{Side, bid, ask, Price}
use crossbook.Execution.{price_limit, checked_add_signed, beyond}
use crossbook.Execution.Filling.{checked_mul_signed_lem}

-- `m` millionths of the price `p`, in whole ticks.
abbrev pub offset : ℕ → ℕ → ℕ
offset p m = p * m / 1000000

-- A buyer's limit lies above the touch, a seller's below it.
abbrev pub limit_at : Side → ℕ → ℕ → ℤ
limit_at ask p m = pos (p + offset p m)
limit_at bid p m = sub_ℕ p (offset p m)

-- The product of touch and slippage fits int64_t, and so does the limit; a seller's always does.
abbrev pub IsRepresentable : Side → ℕ → ℕ → Type 0
IsRepresentable ask p m = (p * m < 2 ^ 63) × (p + offset p m < 2 ^ 63)
IsRepresentable bid p m = p * m < 2 ^ 63

-- The limit price, or nothing where it cannot be represented.
abbrev pub IsLimit : Side → ℕ → ℕ → Option ℤ → Type 0
IsLimit s p m o =
    ((¬ IsRepresentable s p m) × (o ≡ none)) ⊎ (IsRepresentable s p m × (o ≡ some (limit_at s p m)))

pub price_limit-IsLimit :
    (s : Side) (p m : ℕ) → p < 2 ^ 63 → m < 2 ^ 63 → IsLimit s p m (price_limit (pos p) s (pos m))
unfolding price_limit checked_add_signed ◌+ℤ◌ ◌-ℤ◌
price_limit-IsLimit ask p m hp hm =
    rw (price_limit, checked_mul_signed_lem p m hp hm) (ground arith)
price_limit-IsLimit bid p m hp hm =
    rw (price_limit, checked_mul_signed_lem p m hp hm) (ground arith)

-- A price that is no worse than the limit: not above a buyer's, not below a seller's.
abbrev pub no_worse : Side → Price → Price → Bool
no_worse ask price limit = leb (pos_part price + neg_part limit) (pos_part limit + neg_part price)
no_worse bid price limit = leb (pos_part limit + neg_part price) (pos_part price + neg_part limit)

pub no_worse-beyond :
    (s : Side) (price limit : Price)
    → beyond s price limit ≡ (if no_worse s price limit then false else true)
no_worse-beyond ask price limit = ground arith
no_worse-beyond bid price limit = ground arith
