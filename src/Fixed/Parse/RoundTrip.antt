-- ===== src/Fixed/Parse/RoundTrip.antt =====
-- `parse_fixed` reads back what `format_fixed` wrote.
use crossbook.Common.{ℕ, zero, suc, ◌+◌, ◌/◌, ◌^◌, ◌≤◌, ◌<◌, ◌≡◌, refl, sym, ap, ap₂, ◌∙◌, arith}
use crossbook.Common.{Bool, false, List, [], ◌∷◌, ◌++◌, length, All, append-nil, length-append}
use crossbook.Common.{◌==◌, le→ltb, lt→ltb}
use crossbook.Common.Int.{
  ℤ, pos, negsuc, pos_part, neg_part, IsInt64, ltb_ℤ, ◌+ℤ◌, ◌-ℤ◌, eq_of_parts, +ℤ_parts, -ℤ_parts,
}
use crossbook.Fixed.{max_int64, magnitude, format_fixed, signed, point}
use crossbook.Fixed.Digits.{
  IsDigit, value_from, shifted, fraction, decimal, format_fraction_lem, format_integer_lem,
}
use crossbook.Fixed.Digits.{
  value-fraction, length-fraction, fraction-IsDigit, value-decimal, decimal-IsDigit, decimal-pos,
}
use crossbook.Fixed.Parse.{
  ok, parse_fixed, parse_text, parse_unsigned, take_sign, scan_fraction, scan_digits,
}
use crossbook.Fixed.Parse.{parse_exponent, finish, rescale}
use crossbook.Fixed.Parse.Scan.{Stops, scan_digits_fits}

-- Every int64_t but the lowest.
abbrev pub IsSymmetric : ℤ → Type 0
IsSymmetric v = (pos_part v < 2 ^ 63) × (neg_part v < 2 ^ 63)

pub magnitude_lem : (v : ℤ) → IsInt64 v → magnitude v ≡ pos_part v + neg_part v
magnitude_lem (pos n) h = ground arith
magnitude_lem (negsuc n) h = ground arith

pub magnitude_symmetric : (v : ℤ) → IsSymmetric v → magnitude v ≤ max_int64
magnitude_symmetric (pos n) h = ground arith
magnitude_symmetric (negsuc n) h = ground arith

pub format_fixed_lem :
    (v : ℤ) (s : ℕ)
    → format_fixed v s
      ≡ signed v (decimal 20 (shifted s (magnitude v)) ++ point s (fraction s (magnitude v)))
unfolding format_fixed
format_fixed_lem v s =
    rw (format_fraction_lem s (magnitude v) [], append-nil (fraction s (magnitude v)))
      (ap (signed v) (format_integer_lem 20 (shifted s (magnitude v)) _))

-- A digit string that is not empty begins with a digit.
head-IsDigit :
    (ds : List ℕ)
    → All IsDigit ds
    → 0 < length ds
    → (c : ℕ) × (cs : List ℕ) × (ds ≡ c ∷ cs) × IsDigit c
head-IsDigit [] h k = absurd (omega arith)
head-IsDigit (c ∷ cs) (h, hs) k = (c, cs, refl, h)

pub decimal-cons :
    (fuel m : ℕ) → (c : ℕ) × (cs : List ℕ) × (decimal (suc fuel) m ≡ c ∷ cs) × IsDigit c
decimal-cons fuel m =
    head-IsDigit (decimal (suc fuel) m) (decimal-IsDigit (suc fuel) m) (decimal-pos fuel m)

-- The digits of a magnitude `m` at scale `s`, without the sign.
abbrev unsigned : ℕ → ℕ → List ℕ
unsigned m s = decimal 20 (shifted s m) ++ point s (fraction s m)

shifted-le : (k m : ℕ) → shifted k m ≤ m
shifted-le zero m = omega arith
shifted-le (suc k) m = omega (arith, shifted-le k (m / 10))

point-Stops : (s m : ℕ) → Stops (point s (fraction s m))
unfolding fraction
point-Stops zero m = tt
point-Stops (suc s) m = ground arith

integer_part :
    (m s : ℕ)
    → m ≤ max_int64
    → scan_digits (0, false) 0 (unsigned m s) ≡ record {
      digits = shifted s m;
      overflowed = false;
      count = length (decimal 20 (shifted s m));
      rest = point s (fraction s m);
    }
integer_part m s h =
    scan_digits_fits 0 0 (decimal 20 (shifted s m)) (point s (fraction s m))
      (decimal-IsDigit 20 (shifted s m)) (point-Stops s m) (omega (arith, value, shifted-le s m))
    ∙ ap₂
        (λ d n. record { digits = d; overflowed = false; count = n; rest = point s (fraction s m) })
        value (omega arith)
  where
    value : value_from 0 (decimal 20 (shifted s m)) ≡ shifted s m
    value = value-decimal 20 (shifted s m) (omega (arith, shifted-le s m))

point-suc : (s : ℕ) (buf : List ℕ) → point (suc s) buf ≡ b'.' ∷ buf
point-suc s buf = rw (lt→ltb 0 (suc s) (omega arith))

fraction_part :
    (m s : ℕ)
    → m ≤ max_int64
    → scan_fraction (shifted s m, false) (point s (fraction s m))
      ≡ record { digits = m; overflowed = false; count = s; rest = [] }
unfolding scan_fraction
fraction_part m zero h = unfold fraction in refl
fraction_part m (suc s) h =
    ap (scan_fraction (shifted (suc s) m, false)) (point-suc s (fraction (suc s) m))
    ∙ ap (scan_digits (shifted (suc s) m, false) 0) (sym (append-nil (fraction (suc s) m)))
    ∙ scan_digits_fits (shifted (suc s) m) 0 (fraction (suc s) m) [] (fraction-IsDigit (suc s) m) tt
        (omega (arith, value-fraction (suc s) m))
    ∙ ap₂ (λ d n. record { digits = d; overflowed = false; count = n; rest = [] })
        (value-fraction (suc s) m) (omega (arith, length-fraction (suc s) m))

-- The unsigned text is read back exactly.
parse_unsigned_lem :
    (negative : Bool) (m s : ℕ)
    → m ≤ max_int64
    → parse_unsigned negative s (unsigned m s) ≡ rescale negative m (pos 0)
unfolding parse_unsigned finish parse_exponent
parse_unsigned_lem negative m s h =
    rw (integer_part m s h, fraction_part m s h, some_digit)
      (ap (rescale negative m)
        (eq_of_parts (pos s +ℤ pos 0 -ℤ pos s) (pos 0) (omega (arith, +ℤ_parts, -ℤ_parts))))
  where
    some_digit : (length (decimal 20 (shifted s m)) + s == 0) ≡ false
    some_digit = ground (arith, decimal-pos 19 (shifted s m))

-- The sign that `format_fixed` writes is the one that `parse_fixed` takes.
take_sign_lem :
    (v : ℤ) (m s : ℕ) → take_sign (signed v (unsigned m s)) ≡ (ltb_ℤ v (pos 0), unsigned m s)
unfolding take_sign
take_sign_lem v m s =
    let (c, cs, e, (lo, hi)) = decimal-cons 19 (shifted s m) in
    rw e (from c (cs ++ point s (fraction s m)) lo hi v)
  where
    from :
        (c : ℕ) (cs : List ℕ)
        → b'0' ≤ c
        → c ≤ b'9'
        → (w : ℤ) → take_sign (signed w (c ∷ cs)) ≡ (ltb_ℤ w (pos 0), c ∷ cs)
    from c cs lo hi (pos n) = ground arith
    from c cs lo hi (negsuc n) = ground arith

parse_text_cons :
    (s : ℕ) (text : List ℕ) {negative : Bool} {rest : List ℕ}
    → 0 < length text
    → take_sign text ≡ (negative, rest)
    → parse_text s text ≡ parse_unsigned negative s rest
unfolding parse_text
parse_text_cons s [] h e = absurd (omega arith)
parse_text_cons s (c ∷ cs) h e = ap (λ (t : Bool × List ℕ). parse_unsigned t.0 s t.1) e

signed-pos : (v : ℤ) (buf : List ℕ) → 0 < length buf → 0 < length (signed v buf)
signed-pos v buf h = ground arith

rescale_zero :
    (v : ℤ)
    → IsSymmetric v
    → rescale (ltb_ℤ v (pos 0)) (magnitude v) (pos 0) ≡ record { mantissa = v; error = ok }
unfolding rescale ◌-ℤ◌
rescale_zero (pos n) h = ground arith
rescale_zero (negsuc n) h = ground arith

parse_text_lem :
    (v : ℤ) (m s : ℕ)
    → parse_text s (signed v (unsigned m s)) ≡ parse_unsigned (ltb_ℤ v (pos 0)) s (unsigned m s)
parse_text_lem v m s =
    parse_text_cons s (signed v (unsigned m s))
      (signed-pos v (unsigned m s) (
        omega (
          arith,
          length-append (decimal 20 (shifted s m)) (point s (fraction s m)),
          decimal-pos 19 (shifted s m),
        )))
      (take_sign_lem v m s)

-- `parse_fixed` at a scale up to 18 reads what `format_fixed` wrote at that scale back as the same
-- mantissa, for every int64_t but the lowest.
pub parse_fixed-format_fixed :
    (v : ℤ) (s : ℕ)
    → IsSymmetric v
    → s ≤ 18
    → parse_fixed (format_fixed v s) s ≡ record { mantissa = v; error = ok }
unfolding parse_fixed
parse_fixed-format_fixed v s h k =
    rw (le→ltb 18 s k, format_fixed_lem v s, parse_text_lem v (magnitude v) s)
      (parse_unsigned_lem (ltb_ℤ v (pos 0)) (magnitude v) s (magnitude_symmetric v h)
        ∙ rescale_zero v h)
