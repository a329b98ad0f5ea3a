-- ===== src/Checksum.antt =====
-- include/crossbook/checksum.hpp: Kraken's book checksum. A buffer is the list of the bytes that have
-- been written to it; words are uint32_t.
pub mod Payload
mod Tests
use crossbook.Common.{ℕ, zero, suc, ◌+◌, ◌*◌, ◌/◌, ◌^◌, bit_and, bit_xor}
use crossbook.Common.{Bool, true, false, List, [], ◌∷◌, ◌++◌, reverse, if◌then◌else◌, ltb, ◌==◌}
use crossbook.Common.Int.{ℤ}
use crossbook.Types.{Side, bid, ask, Level}
use crossbook.Fixed.{magnitude, digit_char}
use crossbook.Book.Visit.{SideImpl}
use crossbook.Book.L2
use crossbook.Book.L2.{L2Book}

abbrev pub checksum_depth : ℕ
checksum_depth = 10

-- The do-while loop of `write_digits`, lowest digit first. The magnitude itself bounds its rounds,
-- since each round divides by ten what it works on.
write_tmp : ℕ → ℕ → List ℕ
write_tmp zero m = []
write_tmp (suc fuel) m = elim (m / 10 == 0) as (λ _. List ℕ) [
  | true ↦ digit_char m ∷ []
  | false ↦ digit_char m ∷ write_tmp fuel (m / 10)
]

pub write_digits : ℤ → List ℕ
write_digits v = let m = magnitude v in reverse (write_tmp (suc m) m)

-- `c = (c & 1) ? (0xEDB88320 ^ (c >> 1)) : (c >> 1)`.
crc_bit : ℕ → ℕ
crc_bit c = if bit_and c 1 == 0 then c / 2 else bit_xor 0xEDB88320 (c / 2)

repeat : ℕ → (ℕ → ℕ) → ℕ → ℕ
repeat zero f c = c
repeat (suc n) f c = repeat n f (f c)

-- `entries[0][i]`, and `entries[t][i]` from the table before it.
entry : ℕ → ℕ → ℕ
unfolding crc_bit repeat
entry zero i = repeat 8 crc_bit i
entry (suc t) i =
    let prev = entry t i in bit_xor (prev / 256) (repeat 8 crc_bit (bit_and prev 0xFF))

-- One byte of the tail loop.
pub crc_byte : ℕ → ℕ → ℕ
unfolding entry
crc_byte c b = bit_xor (entry 0 (bit_and (bit_xor c b) 0xFF)) (c / 256)

-- The little-endian load of four bytes.
load32 : ℕ → ℕ → ℕ → ℕ → ℕ
load32 b0 b1 b2 b3 = b0 + b1 * 2 ^ 8 + b2 * 2 ^ 16 + b3 * 2 ^ 24

lane : ℕ → ℕ → ℕ
lane w k = bit_and (w / 2 ^ k) 0xFF

-- The body of the slice-by-8 loop, on the eight bytes that it consumes.
pub crc_slice : ℕ → ℕ → ℕ → ℕ
unfolding entry lane
crc_slice c lo hi =
    let one = bit_xor c lo in
    bit_xor
      (bit_xor
        (bit_xor (bit_xor (entry 7 (lane one 0)) (entry 6 (lane one 8))) (entry 5 (lane one 16)))
        (entry 4 (one / 2 ^ 24)))
      (bit_xor
        (bit_xor (bit_xor (entry 3 (lane hi 0)) (entry 2 (lane hi 8))) (entry 1 (lane hi 16)))
        (entry 0 (hi / 2 ^ 24)))

-- `update`: eight bytes at a time while there are eight, and the rest one by one.
pub crc_update : ℕ → List ℕ → ℕ
unfolding crc_slice load32 crc_byte
crc_update c (b0 ∷ b1 ∷ b2 ∷ b3 ∷ b4 ∷ b5 ∷ b6 ∷ b7 ∷ bs) =
    crc_update (crc_slice c (load32 b0 b1 b2 b3) (load32 b4 b5 b6 b7)) bs
crc_update c (b ∷ bs) = crc_update (crc_byte c b) bs
crc_update c [] = c

pub crc_value : ℕ → ℕ
crc_value state = bit_xor state 0xFFFFFFFF

abbrev pub crc_init : ℕ
crc_init = 0xFFFFFFFF

pub crc32 : List ℕ → ℕ
unfolding crc_update crc_value
crc32 s = crc_value (crc_update crc_init s)

-- What the payload visitor captures: the levels taken, and the bytes written so far.
abbrev pub write_level : ℕ × List ℕ → Level → (ℕ × List ℕ) × Bool
write_level (taken, buf) l = (
  (taken + 1, buf ++ (write_digits l.price ++ write_digits l.qty)),
  ltb (taken + 1) checksum_depth,
)

module _ (I : SideImpl) where
  open I use {State}

  write_side : L2Book State → Side → List ℕ → List ℕ
  write_side b s buf = (I.for_each (ℕ × List ℕ) write_level (L2.side I b s) (0, buf)).1

  -- Asks first, then bids.
  pub kraken_checksum_payload : L2Book State → List ℕ
  unfolding write_side
  kraken_checksum_payload b = write_side b bid (write_side b ask [])

  unfoldable pub kraken_checksum : L2Book State → ℕ
  kraken_checksum b = crc_value (crc_update crc_init (kraken_checksum_payload b))
