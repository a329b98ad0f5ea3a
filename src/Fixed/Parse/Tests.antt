-- ===== src/Fixed/Parse/Tests.antt =====
-- Concrete runs of the parser, and its theorems at concrete inputs.
use crossbook.Common.{◌≡◌, refl, arith, true, codes}
use crossbook.Common.Int.{ℤ, pos, negsuc, ◌+ℤ◌, ◌-ℤ◌}
use crossbook.Fixed.{format_fixed, format_fraction, format_integer}
use crossbook.Fixed.Parse.{
  ok, overflow, precision_loss, malformed, parse_fixed, ParseResult, append_digit, clamp_exponent,
  eq_bytes, exponent_digits, finish, parse_exponent, push_digit, rescale, scan_digits,
  scan_fraction, take_sign,
}
use crossbook.Fixed.Parse.{is_canonical_parsed, is_canonical_at_scale, strip_plus}
use crossbook.Fixed.Parse.RoundTrip.{IsSymmetric, parse_fixed-format_fixed}
use crossbook.Fixed.Parse.Canonical.{parse_fixed-IsSymmetric, is_canonical_at_scale_iff}

abbrev result : ℤ → ParseResult
result v = record { mantissa = v; error = ok }

-- 0.05005 BTC at eight decimals, with and without an exponent.
parse_plain : parse_fixed (codes "0.05005000") 8 ≡ result (pos 5005000)
unfolding parse_fixed scan_digits take_sign scan_fraction finish parse_exponent push_digit
    append_digit rescale ◌-ℤ◌ ◌+ℤ◌
parse_plain = refl

parse_exponent_form : parse_fixed (codes "-5.005e-2") 8 ≡ result (negsuc 5004999)
unfolding parse_fixed scan_digits take_sign scan_fraction finish parse_exponent exponent_digits
    push_digit append_digit rescale ◌-ℤ◌ ◌+ℤ◌ clamp_exponent
parse_exponent_form = refl

parse_inexact : (parse_fixed (codes "0.123") 2).error ≡ precision_loss
unfolding parse_fixed scan_digits take_sign scan_fraction finish parse_exponent push_digit
    append_digit rescale ◌-ℤ◌ ◌+ℤ◌
parse_inexact = refl

parse_too_large : (parse_fixed (codes "9223372036854775808") 0).error ≡ overflow
unfolding parse_fixed scan_digits take_sign scan_fraction finish parse_exponent push_digit
    append_digit
parse_too_large = refl

-- A zero whose scaled exponent is past 18 is refused, though it is representable.
parse_large_zero : (parse_fixed (codes "0e19") 0).error ≡ overflow
unfolding parse_fixed scan_digits take_sign scan_fraction finish parse_exponent exponent_digits
    push_digit append_digit rescale ◌-ℤ◌ ◌+ℤ◌ clamp_exponent
parse_large_zero = refl

parse_two_points : (parse_fixed (codes "1.2.3") 8).error ≡ malformed
unfolding parse_fixed scan_digits take_sign scan_fraction finish parse_exponent
parse_two_points = refl

canonical_parsed : is_canonical_parsed (codes "+1.50") 2 (pos 150) ≡ true
unfolding is_canonical_parsed format_fixed strip_plus eq_bytes format_integer format_fraction
canonical_parsed = refl

parse_fixed-format_fixed_example :
    parse_fixed (format_fixed (negsuc 1049) 3) 3 ≡ result (negsuc 1049)
parse_fixed-format_fixed_example =
    parse_fixed-format_fixed (negsuc 1049) 3 (omega arith) (omega arith)

parse_fixed-IsSymmetric_example : IsSymmetric (parse_fixed (codes "-12.5e3") 4).mantissa
parse_fixed-IsSymmetric_example = parse_fixed-IsSymmetric (codes "-12.5e3") 4

is_canonical_at_scale_iff_example : is_canonical_at_scale (codes "-1.050") 3 ≡ true
unfolding strip_plus format_fixed format_integer format_fraction
is_canonical_at_scale_iff_example =
    (is_canonical_at_scale_iff (codes "-1.050") 3 (omega arith)).1 (negsuc 1049, omega arith, refl)
