-- ===== src/Fixed/Parse.antt =====
-- `parse_fixed` and the canonical-spelling guard of include/crossbook/fixed.hpp. A cursor into the
-- text is the list of the bytes behind it. Texts are shorter than 2 ^ 31 bytes, as the counter of
-- fraction digits, an int, supposes.
pub mod Scan
pub mod RoundTrip
pub mod Canonical
mod Tests
use crossbook.Common.{ℕ, zero, suc, ◌+◌, ◌-◌, ◌*◌, ◌/◌, ◌%◌, ◌^◌}
use crossbook.Common.{Bool, true, false, not, ◌&&◌, ◌||◌, List, [], ◌∷◌, Option, none, some}
use crossbook.Common.{if◌then◌else◌, ltb, leb, ◌==◌}
use crossbook.Common.Int.{ℤ, pos, negsuc, ◌+ℤ◌, ◌-ℤ◌}
use crossbook.Fixed.{max_scale, max_int64, format_fixed}

pub data ParseError : Type 0 where
  ok empty malformed precision_loss overflow scale_too_large : ParseError

pub record ParseResult : Type 0 where
  pub mantissa : ℤ
  pub error : ParseError

abbrev pub is_digit : ℕ → Bool
is_digit c = leb b'0' c && leb c b'9'

-- `checked_mul` and `checked_add`, whose operands are non-negative wherever they are called.
unfoldable pub checked_mul : ℕ → ℕ → Option ℕ
checked_mul a b =
    if a == 0 || b == 0 then some 0 else if ltb (max_int64 / b) a then none else some (a * b)

pub checked_add : ℕ → ℕ → Option ℕ
checked_add a b = if ltb (max_int64 - b) a then none else some (a + b)

-- The variables that both digit loops of `parse_fixed` work on.
pub record Digits : Type 0 where
  pub digits : ℕ
  pub overflowed : Bool
  pub count : ℕ
  pub rest : List ℕ

-- `digits * 10 + c`, if that fits.
pub append_digit : ℕ → ℕ → Option ℕ
unfolding checked_mul checked_add
append_digit digits c = elim (checked_mul digits 10) [
  | none ↦ none
  | some scaled ↦ checked_add scaled (c - b'0')
]

-- One digit's effect on `digits` and `overflowed`: after an overflow nothing more is added.
pub push_digit : ℕ × Bool → ℕ → ℕ × Bool
push_digit (digits, true) c = (digits, true)
push_digit (digits, false) c = elim (append_digit digits c) [
  | none ↦ (digits, true)
  | some d ↦ (d, false)
]

pub scan_digits : ℕ × Bool → ℕ → List ℕ → Digits
scan_digits (d, o) n [] = record { digits = d; overflowed = o; count = n; rest = [] }
scan_digits (d, o) n (c ∷ cs) =
    let more = scan_digits (push_digit (d, o) c) (n + 1) cs in
    if is_digit c then more else record { digits = d; overflowed = o; count = n; rest = c ∷ cs }

-- The fraction: a point, and digits that go on where the integer part stopped. `count` is the number
-- of fraction digits.
pub scan_fraction : ℕ × Bool → List ℕ → Digits
scan_fraction (d, o) [] = record { digits = d; overflowed = o; count = 0; rest = [] }
scan_fraction (d, o) (c ∷ cs) =
    if c == b'.'
    then scan_digits (d, o) 0 cs
    else record { digits = d; overflowed = o; count = 0; rest = c ∷ cs }

clamp_exponent : ℕ → ℕ
clamp_exponent e = if ltb 1000 e then 1000 else e

pub scan_exponent : ℕ → List ℕ → ℕ × List ℕ
scan_exponent e [] = (e, [])
scan_exponent e (c ∷ cs) =
    let more = scan_exponent (clamp_exponent (e * 10 + (c - b'0'))) cs in
    if is_digit c then more else (e, c ∷ cs)

-- An optional sign: whether it is '-', and what follows it.
pub take_sign : List ℕ → Bool × List ℕ
take_sign [] = (false, [])
take_sign (c ∷ cs) = if c == b'+' || c == b'-' then (c == b'-', cs) else (false, c ∷ cs)

abbrev starts_with_digit : List ℕ → Bool
starts_with_digit [] = false
starts_with_digit (c ∷ cs) = is_digit c

-- The digits of an exponent; `none` is kMalformed.
pub exponent_digits : Bool × List ℕ → Option (ℤ × List ℕ)
exponent_digits (negative, cs) =
    let (e, rest) = scan_exponent 0 cs in
    if starts_with_digit cs then some (if negative then pos 0 -ℤ pos e else pos e, rest) else none

pub parse_exponent : List ℕ → Option (ℤ × List ℕ)
unfolding scan_exponent
parse_exponent [] = some (pos 0, [])
parse_exponent (c ∷ cs) =
    if c == b'e' || c == b'E' then exponent_digits (take_sign cs) else some (pos 0, c ∷ cs)

abbrev fail : ParseError → ParseResult
fail e = record { mantissa = pos 0; error = e }

abbrev negate_if : Bool → ℕ → ℤ
negate_if negative m = if negative then pos 0 -ℤ pos m else pos m

-- `digits * 10 ^ shift`, exactly or not at all.
pub rescale : Bool → ℕ → ℤ → ParseResult
rescale negative digits (pos zero) = record { mantissa = negate_if negative digits; error = ok }
rescale negative digits (pos (suc k)) =
    if ltb max_scale (suc k) then fail overflow else elim (checked_mul digits (10 ^ suc k)) [
      | none ↦ fail overflow
      | some m ↦ record { mantissa = negate_if negative m; error = ok }
    ]
rescale negative digits (negsuc k) =
    if ltb max_scale (suc k)
    then if digits == 0 then record { mantissa = pos 0; error = ok } else fail precision_loss
    else if not (digits % 10 ^ suc k == 0)
    then fail precision_loss
    else record { mantissa = negate_if negative (digits / 10 ^ suc k); error = ok }

-- What follows the two digit loops.
pub finish : Bool → ℕ → Digits → Option (ℤ × List ℕ) → ParseResult
finish negative scale f none = fail malformed
finish negative scale f (some (exponent, [])) =
    if f.overflowed
    then fail overflow
    else rescale negative f.digits (pos scale +ℤ exponent -ℤ pos f.count)
finish negative scale f (some (exponent, c ∷ cs)) = fail malformed

pub parse_unsigned : Bool → ℕ → List ℕ → ParseResult
parse_unsigned negative scale text =
    let i = scan_digits (0, false) 0 text in
    let f = scan_fraction (i.digits, i.overflowed) i.rest in
    if i.count + f.count == 0
    then fail malformed
    else finish negative scale f (parse_exponent f.rest)

parse_text : ℕ → List ℕ → ParseResult
unfolding parse_unsigned
parse_text scale [] = fail empty
parse_text scale (c ∷ cs) =
    let (negative, unsigned) = take_sign (c ∷ cs) in parse_unsigned negative scale unsigned

pub parse_fixed : List ℕ → ℕ → ParseResult
unfolding parse_text
parse_fixed text scale = if ltb max_scale scale then fail scale_too_large else parse_text scale text

-- Byte equality of two texts.
pub eq_bytes : List ℕ → List ℕ → Bool
eq_bytes [] [] = true
eq_bytes [] (y ∷ ys) = false
eq_bytes (x ∷ xs) [] = false
eq_bytes (x ∷ xs) (y ∷ ys) = x == y && eq_bytes xs ys

pub strip_plus : List ℕ → List ℕ
strip_plus [] = []
strip_plus (c ∷ cs) = if c == b'+' then cs else c ∷ cs

-- The overload for a token that has been parsed already.
pub is_canonical_parsed : List ℕ → ℕ → ℤ → Bool
is_canonical_parsed text scale mantissa = eq_bytes (format_fixed mantissa scale) (strip_plus text)

abbrev pub is_ok : ParseError → Bool
is_ok ok = true
is_ok _ = false

pub is_canonical_at_scale : List ℕ → ℕ → Bool
is_canonical_at_scale text scale =
    let parsed = parse_fixed (strip_plus text) scale in
    if is_ok parsed.error
    then eq_bytes (format_fixed parsed.mantissa scale) (strip_plus text)
    else false
