-- ===== src/Types.antt =====
-- include/crossbook/types.hpp: the value types that every book shares. A Price is its tick count and
-- a Qty its unit count, the one field of each struct, both int64_t mantissas. A text
-- is the list of its bytes.
use crossbook.Common.{ℕ, ◌+◌, ◌==◌, Bool, List}
use crossbook.Common.Int.{ℤ, pos, pos_part, neg_part, ltb_ℤ, ◌<ℤ◌}

pub data Side : Type 0 where
  bid ask : Side

abbrev pub opposite : Side → Side
opposite bid = ask
opposite ask = bid

abbrev pub Price : Type 0
Price = ℤ

abbrev pub Qty : Type 0
Qty = ℤ

abbrev pub eq_ℤ : ℤ → ℤ → Bool
eq_ℤ a b = pos_part a + neg_part b == pos_part b + neg_part a

abbrev pub is_zero : Qty → Bool
is_zero q = eq_ℤ q (pos 0)

pub record Level : Type 0 where
  pub price : Price
  pub qty : Qty

pub record InstrumentSpec : Type 0 where
  pub symbol : List ℕ
  pub price_scale : ℕ
  pub qty_scale : ℕ

-- `precedes` of book.hpp: bids run high to low, asks low to high.
abbrev pub precedes : Side → ℤ → ℤ → Bool
precedes bid a b = ltb_ℤ b a
precedes ask a b = ltb_ℤ a b

-- The order that `precedes` tests.
abbrev pub Before : Side → ℤ → ℤ → Type 0
Before bid a b = b <ℤ a
Before ask a b = a <ℤ b
