-- ===== src/Fixed.antt =====
-- include/crossbook/fixed.hpp: exact decimal text and int64_t mantissas. A text is the list of its
-- bytes; an int64_t is an integer, and a magnitude a natural number.
pub mod Parse
pub mod Digits
pub mod Token
mod Tests
use crossbook.Common.{ℕ, zero, suc, ◌+◌, ◌-◌, ◌/◌, ◌%◌, ◌^◌}
use crossbook.Common.{List, [], ◌∷◌}
use crossbook.Common.{if◌then◌else◌, ltb, ◌==◌}
use crossbook.Common.Int.{ℤ, pos, negsuc, ltb_ℤ}

-- `static_cast<std::uint64_t>` of an int64_t.
abbrev pub to_u64 : ℤ → ℕ
to_u64 (pos n) = n % 2 ^ 64
to_u64 (negsuc n) = 2 ^ 64 - 1 - n % 2 ^ 64

-- `negative ? (0ULL - bits) : bits`.
abbrev pub magnitude : ℤ → ℕ
magnitude v = if ltb_ℤ v (pos 0) then (2 ^ 64 - to_u64 v) % 2 ^ 64 else to_u64 v

abbrev pub max_scale : ℕ
max_scale = 18

abbrev pub max_int64 : ℕ
max_int64 = 9223372036854775807

-- The last decimal digit, as a character.
abbrev pub digit_char : ℕ → ℕ
digit_char m = b'0' + m % 10

-- The fraction loop of `format_fixed_into`: `scale` digits, each put before the bytes that are there.
unfoldable pub format_fraction : ℕ → ℕ → List ℕ → ℕ × List ℕ
format_fraction zero m buf = (m, buf)
format_fraction (suc i) m buf = format_fraction i (m / 10) (digit_char m ∷ buf)

-- The do-while loop, on fuel: at least one digit, and on until nothing is left.
unfoldable pub format_integer : ℕ → ℕ → List ℕ → List ℕ
format_integer zero m buf = buf
format_integer (suc fuel) m buf =
    let rest = format_integer fuel (m / 10) (digit_char m ∷ buf) in
    if m / 10 == 0 then digit_char m ∷ buf else rest

-- A 64-bit magnitude has at most twenty digits.
abbrev pub digit_fuel : ℕ
digit_fuel = 20

abbrev pub point : ℕ → List ℕ → List ℕ
point scale buf = if ltb 0 scale then b'.' ∷ buf else buf

abbrev pub signed : ℤ → List ℕ → List ℕ
signed v buf = if ltb_ℤ v (pos 0) then b'-' ∷ buf else buf

unfoldable pub format_fixed : ℤ → ℕ → List ℕ
format_fixed v scale =
    let (m, fraction) = format_fraction scale (magnitude v) [] in
    signed v (format_integer digit_fuel m (point scale fraction))

-- `std::to_string` of the magnitude.
unfoldable pub checksum_token : ℤ → List ℕ
checksum_token v = format_integer digit_fuel (magnitude v) []
