-- ===== src/Fixed/Parse/Scan.antt =====
-- What the digit loop reads, where the digits fit an int64_t.
use crossbook.Common.{ℕ, ◌+◌, ◌-◌, ◌*◌, ◌≤◌, ◌≡◌, ap, ◌∙◌, arith}
use crossbook.Common.{true, false, List, [], ◌∷◌, ◌++◌, length, All}
use crossbook.Fixed.{max_int64}
use crossbook.Fixed.Digits.{IsDigit, value_from, le-value_from}
use crossbook.Fixed.Parse.{is_digit, append_digit, push_digit, scan_digits}

-- The text behind the digits does not go on with a digit.
abbrev pub Stops : List ℕ → Type 0
Stops [] = Unit {0}
Stops (c ∷ cs) = is_digit c ≡ false

pub digit_test : (c : ℕ) → IsDigit c → is_digit c ≡ true
digit_test c h = ground arith

pub push_digit_fits :
    (d c : ℕ)
    → IsDigit c
    → d * 10 + (c - b'0') ≤ max_int64
    → push_digit (d, false) c ≡ (d * 10 + (c - b'0'), false)
unfolding push_digit append_digit
push_digit_fits d c h k = ground arith

pub scan_digits_fits :
    (d n : ℕ) (ds rest : List ℕ)
    → All IsDigit ds
    → Stops rest
    → value_from d ds ≤ max_int64
    → scan_digits (d, false) n (ds ++ rest)
      ≡ record { digits = value_from d ds; overflowed = false; count = n + length ds; rest = rest }
unfolding scan_digits
scan_digits_fits d n [] [] h s k = ground arith
scan_digits_fits d n [] (c ∷ cs) h s k = ground arith
scan_digits_fits d n (c ∷ cs) rest (h, hs) s k =
    rw
      (
        digit_test c h,
        push_digit_fits d c h (omega (arith, le-value_from (d * 10 + (c - b'0')) cs)),
      )
      (scan_digits_fits (d * 10 + (c - b'0')) (n + 1) cs rest hs s k
        ∙ ap
            (λ m. record {
              digits = value_from d (c ∷ cs);
              overflowed = false;
              count = m;
              rest = rest;
            })
            (omega arith))
