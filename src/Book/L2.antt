-- ===== src/Book/L2.antt =====
-- `BasicL2Book` of include/crossbook/book.hpp, over any side container.
pub mod Update
pub mod Trim
pub mod TrimLoop
pub mod Top
pub mod Act
pub mod Alike
pub mod Calls
pub mod Agree
mod Tests
use crossbook.Common.{ℕ, zero, suc, ◌+◌, ◌*◌, ◌/◌, ◌%◌, ◌^◌, bit_xor}
use crossbook.Common.{Bool, true, false, ◌||◌, List, [], ◌∷◌, ◌++◌, Option, none, some}
use crossbook.Common.{if◌then◌else◌, ltb, ◌==◌, length}
use crossbook.Common.Int.{ℤ, pos, ltb_ℤ}
use crossbook.Types.{Side, bid, ask, Price, Qty, Level, InstrumentSpec}
use crossbook.Fixed.{to_u64}
use crossbook.Book.Visit.{SideImpl}

pub record L2Book (S : Type 0) : Type 0 where
  pub spec : InstrumentSpec
  pub bids : S
  pub asks : S
  pub last_update : ℤ

-- `x < 0` on int64_t.
abbrev pub is_negative : ℤ → Bool
is_negative x = ltb_ℤ x (pos 0)

-- Most levels that one pass of `trim` can name.
abbrev doomed_size : ℕ
doomed_size = 64

-- What `trim` captures: how many levels it has seen, and the prices that it is to remove.
abbrev collect : ℕ → ℕ × List Price → Level → (ℕ × List Price) × Bool
collect max_levels (seen, doomed) l =
    if ltb seen max_levels
    then ((seen + 1, doomed), true)
    else ((seen + 1, doomed ++ l.price ∷ []), ltb (length doomed + 1) doomed_size)

-- What `top` captures: the levels that it has copied.
abbrev pub take_level : ℕ → List Level → Level → List Level × Bool
take_level n out l = (out ++ l ∷ [], ltb (length out + 1) n)

-- The FNV-1a constants of `state_hash`, and its separator.
abbrev pub hash_basis : ℕ
hash_basis = 1469598103934665603

abbrev hash_prime : ℕ
hash_prime = 1099511628211

abbrev pub hash_separator : ℕ
hash_separator = 6819874758899716109

-- The bytes of a word, the lowest first.
mix_bytes : ℕ → ℕ → ℕ → ℕ
mix_bytes zero v h = h
mix_bytes (suc n) v h = mix_bytes n (v / 256) (bit_xor h (v % 256) * hash_prime % 2 ^ 64)

pub mix : ℕ → ℕ → ℕ
mix h v = mix_bytes 8 v h

abbrev pub mix_level : ℕ → Level → ℕ × Bool
mix_level h l = (mix (mix h (to_u64 l.price)) (to_u64 l.qty), true)

abbrev pub side_tag : Side → ℕ
side_tag bid = 0
side_tag ask = 1

module _ (I : SideImpl) where
  open I use {State}

  pub make : InstrumentSpec → L2Book State
  make s = record { spec = s; bids = I.make bid; asks = I.make ask; last_update = pos 0 }

  abbrev pub side : L2Book State → Side → State
  side b bid = b.bids
  side b ask = b.asks

  abbrev pub with_side : L2Book State → Side → State → L2Book State
  with_side b bid x = record b { bids = x }
  with_side b ask x = record b { asks = x }

  pub apply : L2Book State → Side → Price → Qty → L2Book State × Bool
  apply b s p q =
      if is_negative p || is_negative q
      then (b, false)
      else (with_side b s (I.apply (side b s) p q), true)

  pub clear : L2Book State → L2Book State
  clear b = record b { bids = I.clear b.bids; asks = I.clear b.asks }

  pub set_last_update : L2Book State → ℤ → L2Book State
  set_last_update b ts = record b { last_update = ts }

  pub best : L2Book State → Side → Option Level
  best b s = I.best (side b s)

  pub remove_all : State → List Price → State
  remove_all x [] = x
  remove_all x (p ∷ ps) = remove_all (I.apply x p (pos 0)) ps

  pub doomed : State → ℕ → List Price
  doomed x max_levels = (I.for_each (ℕ × List Price) (collect max_levels) x (0, [])).1

  -- The `for (;;)` of `trim` on fuel; `none` means that the fuel ran out.
  pub trim_loop : ℕ → State → ℕ → ℕ → Option (State × ℕ)
  trim_loop zero x max_levels removed = none
  trim_loop (suc fuel) x max_levels removed =
      let ps = doomed x max_levels in
      let rest = trim_loop fuel (remove_all x ps) max_levels (removed + length ps) in
      if length ps == 0 then some (x, removed) else rest

  -- Each pass but the last removes a level.
  pub trim_side : State → ℕ → Option (State × ℕ)
  trim_side x max_levels =
      if max_levels == 0 then some (x, 0) else trim_loop (suc (I.size x)) x max_levels 0

  -- `trim (max_levels)`: the two sides, bids first.
  pub trim : L2Book State → ℕ → Option (L2Book State × ℕ)
  trim b max_levels = elim (trim_side b.bids max_levels) [
    | none ↦ none
    | some (x, n) ↦ elim (trim_side b.asks max_levels) [
      | none ↦ none
      | some (y, m) ↦ some (record b { bids = x; asks = y }, n + m)
    ]
  ]

  pub top : L2Book State → Side → ℕ → List Level
  top b s n = I.for_each (List Level) (take_level n) (side b s) []

  pub hash_side : L2Book State → Side → ℕ → ℕ
  hash_side b s h =
      I.for_each ℕ mix_level (side b s)
        (mix (mix (mix h (side_tag s)) (I.size (side b s))) hash_separator)

  -- Bids first, then asks.
  pub state_hash : L2Book State → ℕ
  state_hash b = hash_side b ask (hash_side b bid hash_basis)
