-- ===== src/Fixed/Tests.antt =====
-- Concrete runs of the formatter, and its theorems at concrete inputs.
use crossbook.Common.{◌≡◌, ◌≢◌, ◌≤◌, refl, arith, codes, length}
use crossbook.Common.Int.{pos, negsuc}
use crossbook.Fixed.{format_fixed, checksum_token, format_fraction, format_integer}
use crossbook.Fixed.Token.{wire_token, wire_token-format_fixed}
use crossbook.Fixed.Token.{wire_token-ne-checksum_token_zero, length-format_fixed}

format_small : format_fixed (negsuc 4999) 8 ≡ codes "-0.00005000"
unfolding format_fixed format_integer format_fraction
format_small = refl

-- The lowest int64_t has a text, though its magnitude is no int64_t.
format_lowest : format_fixed (negsuc 9223372036854775807) 0 ≡ codes "-9223372036854775808"
unfolding format_fixed format_integer format_fraction
format_lowest = refl

token_small : checksum_token (pos 5005000) ≡ codes "5005000"
unfolding checksum_token format_integer
token_small = refl

wire_token-format_fixed_example :
    wire_token (format_fixed (pos 5005000) 8) ≡ checksum_token (pos 5005000)
wire_token-format_fixed_example =
    wire_token-format_fixed (pos 5005000) 8 (omega arith) (omega arith)

wire_token-ne-checksum_token_zero_example :
    wire_token (format_fixed (pos 0) 5) ≢ checksum_token (pos 0)
wire_token-ne-checksum_token_zero_example = wire_token-ne-checksum_token_zero 5

length-format_fixed_example : length (format_fixed (negsuc 9223372036854775807) 18) ≤ 24
length-format_fixed_example =
    length-format_fixed (negsuc 9223372036854775807) 18 (omega arith) (omega arith)
